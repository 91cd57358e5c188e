-- ===== src/Lib.antt =====
-- The storage engine of smol-db, modelled from src/storage and src/error.rs.
--
-- Parts and files. `Error` holds `DbError` (src/error.rs), with a constructor for each message of
-- `CorruptPage`, and `Error/Outcome` what a call ends in: a value, an error or a panic; a method
-- on `&mut self` returns its outcome beside the state that it leaves. `Slice` models the searches
-- of the standard library that src/storage/page.rs calls (`binary_search_by_key`,
-- `partition_point`) by the halving loop, which recurs on the accessibility of the size of its
-- window; `Slice/Bisect` and `Slice/Locate` prove that on ascending keys it agrees with a scan.
-- `Page` holds the structs and constants of src/storage/page.rs, `Page/Leaf` the methods of
-- `LeafNode`, under their names: `compact`, `split`, `insert_record`, `update_record`,
-- `delete_record` and `get_record`. The proofs stand below it: `Rows` (the abstract view, the rows
-- in slot order), `Edit`, `Replace`, `Compaction`, `Live`, `Insert`, `Change`, `Laws`, `Burst`,
-- `Halves`, `Split`; `Examples` has runs.
--
-- `Page/Node` holds the methods of `BTreeNode`, `Page/Internal` `InternalNode::route_key` with
-- the scan that it agrees with (by `Slice/Partition`), `Page/Cursor` the `ByteCursor`, where the
-- readers and writers of the four widths are one function of the width, and `Page/Codec`
-- `encode` and `decode` for both kinds of node; below it stand the layout of a page as one list
-- (`Bytes`), what the reads make of it (`Cells`, `Fields`), the round trip (`RoundTrip`) and
-- that of a changed leaf (`Stored`); `Entries` and `Routing` do the same for internal nodes.
-- `Page/Slots` is what the slot array of either kind reads from its vector. `Bytes` at the top
-- models `to_le_bytes` and `from_le_bytes`. `Storage` models the files: a file is its content,
-- the content that the last `sync_all` made durable, and the failures of the calls to come.
-- `Disk` holds `FileHeader` and `DiskManager` of src/storage/page.rs, `Wal` src/storage/wal.rs:
-- `Wal/Entry` the entries and their bytes, `Wal/Manager` the `WalManager`. The writer and the
-- readers meet in the bytes of a file: pages written by `Page/Codec` go through `Disk`, entries
-- through `Wal`. `Laws`, `Crash`, `Total`, `Header` and `Replayable` hold proofs, each
-- `Examples` runs.
--
-- `HashMap` models the map of the standard library as an association list. `Lru` holds
-- `LruReplacer` of src/storage/lru.rs on its arena, under the names of its methods; below it
-- stand the linked list as a chain of nodes (`Segment`, `Link`), the invariant and the abstract
-- view, the tracked pages by recency (`State`), the refinement of the calls (`Access`, `Refine`,
-- `Evict`) and the replacers that calls lead to (`Reach`). `Pool` holds `BufferPool` of
-- src/storage/buffer_pool.rs, whose methods are `do` blocks of `Error/Method`. A `Frame`, an
-- `Arc` of a node, is the node and the number of its owners outside the table; a caller names a
-- frame by its page id and gives it back by `release_handle`. The log is behind the record
-- `WalFlusher`, which the methods take as an instance and `Pool/Log` fills with `WalManager`.
-- The order in which `flush_all_pages` goes through the map is an argument. Proofs: `State` (the
-- invariant), `Frames`, `Evict`, `Keep`, `Room`, `Fetch`, `Pinned`, `Agreed`, `Answered`,
-- `Flush`, `Use`, `Allocate`, `Latched` (frames that a caller holds and changes), `Written`,
-- `Still`, `FlushAll` and `Reload`; `Sample` is a pool for the examples. `Page/Codec/Length` and
-- `Disk/Stands` carry what is written through the writes that follow.
--
-- `Recovery` holds `RecoveryEngine` of src/storage/recovery.rs: `redo` is the body of the loop of
-- `replay` on the node of an entry, run through `with_frame` of `Pool`, and `init` works on an
-- `Engine`, the log and the pool. `Redo`, `Rows` (what the log leaves
-- of the rows, described apart from `redo`), `Replay`, `Init` and `Whole` hold the proofs.
--
-- `Tree` holds `BpTree` of src/storage/bptree.rs: `insert_leaf`, in the parts that its early
-- returns divide it into, and `find_record`; `Find`, `Insert`, `Halves`, `Wired`, `Relink`,
-- `Split`, `SplitLeaf` and `Refused` hold the proofs, with `Page/Leaf/Links` for the links of
-- the leaves.
--
-- `Flusher` holds `BackgroundFlusher` of src/storage/flusher.rs as a `System`, the pool that thread
-- and callers share, the channel and the thread, with a function for each move. `Flusher/Runs` has
-- the relation in which callers and the thread take turns, also while `shutdown` waits in `join`: a
-- wait for the mutex is a turn that is taken later. `Flusher/Shutdown` holds the proofs.
--
-- `Conformance` runs the unit tests of src/storage on the model, under their names: a test returns
-- where its assertions hold and panics elsewhere, and each module ends with how its tests end.
--
-- Numbers. Machine integers are native numbers; casts to `u16` are written `% 2 ^ 16`. Sums of
-- `usize` are lengths of vectors in memory, which do not wrap. A vector index out of range panics,
-- which the outcome `panic` records.
--
-- Bounds. The loop of `read_batch` runs on fuel, the number of bytes of the log and one more;
-- each round that goes on takes four bytes at least (`Wal/Total`). The loops of `evict_if` and
-- `peek_rev` run on the length of the arena and one more; the list has no more nodes
-- (`Lru/Evict`). The loop of `find_record` takes its fuel as an argument, since nodes may lead
-- in a circle; a round for each node on the way is enough (`Tree/Find`). All other loops are
-- structural, or recur on accessibility.
--
-- Not modelled: the latches of frames (a call of the pool is one step), the length of the flush
-- interval, opening a path, the text of messages, and src/main.rs, which has no logic.
mod Common
pub mod Error
pub mod Slice
pub mod HashMap
pub mod Bytes
pub mod Page
pub mod Storage
pub mod Disk
pub mod Wal
pub mod Pool
pub mod Lru
pub mod Recovery
pub mod Tree
pub mod Flusher
pub mod Conformance
