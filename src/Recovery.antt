-- ===== src/Recovery.antt =====
-- recovery.rs: the log is replayed against the pages of the buffer pool.
pub mod Redo
pub mod Rows
pub mod Replay
pub mod Init
pub mod Whole
mod Examples
mod WholeExamples
use smol_db.Common.{ℕ, max, leb, true, false, List, [], ◌∷◌}
use smol_db.Error.{corrupt_page, record_into_internal_node}
use smol_db.Error.Outcome.{ok, err, panic}
use smol_db.Error.Method.{Method, ◌>>=◌, ◌>>◌, return, put_back}
use smol_db.Storage.{File}
use smol_db.Page.{PageId, LeafNode, BTreeNode, internal, leaf}
use smol_db.Page.Leaf.{insert_record, update_record, delete_record}
use smol_db.Page.Node.{get_last_lsn, mark_dirty}
use smol_db.Wal.Entry.{WalOp, insert, update, delete, WalEntry}
use smol_db.Wal.Manager.{WalManager, open_log, read_batch, truncate, sync_log}
use smol_db.Pool.{BufferPool, WalFlusher, flush_all_pages, with_frame}

-- the operation of an entry on a leaf
unfoldable pub apply_op : WalOp → WalEntry → Method LeafNode Unit
apply_op insert e = insert_record e.row_id e.payload
apply_op update e = update_record e.row_id e.payload
apply_op delete e = delete_record e.row_id

unfoldable pub apply_entry : WalEntry → Method BTreeNode Unit
apply_entry e (leaf l) = put_back leaf (apply_op e.opcode e l)
apply_entry e (internal n) = (err (corrupt_page record_into_internal_node), internal n)

-- `node.mark_dirty(entry.lsn)`
abbrev pub mark : ℕ → Method BTreeNode Unit
mark lsn node = (ok tt, mark_dirty lsn node)

-- what the loop of `replay` does to the node of an entry
unfoldable pub redo : WalEntry → Method BTreeNode Unit
redo e node = elim (leb e.lsn (get_last_lsn node)) [
  | true ↦ (ok tt, node)
  | false ↦ (apply_entry e >> mark e.lsn) node
]

module _ {W : Type 0} ⦃flusher : WalFlusher W⦄ where
  -- the loop of `replay`, with the highest lsn so far
  unfoldable pub replay_loop : ℕ → List WalEntry → Method (BufferPool W) ℕ
  replay_loop max_observed_lsn [] = return max_observed_lsn
  replay_loop max_observed_lsn (e ∷ batch) =
      with_frame e.page_id (redo e) >> replay_loop (max max_observed_lsn e.lsn) batch

  -- `replay`, where the map of the pool yields its keys in this order at the end
  unfoldable pub replay : List PageId → List WalEntry → Method (BufferPool W) ℕ
  replay order batch = do
    max_observed_lsn ← replay_loop 0 batch
    flush_all_pages order
    return max_observed_lsn

-- the log that `init` opens and the pool that it is given
pub record Engine (W : Type 0) : Type 0 where
  pub wal : WalManager
  pub buf_pool : BufferPool W

module _ {W : Type 0} where
  unfoldable pub on_wal : {A : Type 0} → Method WalManager A → Method (Engine W) A
  on_wal m s = put_back (λ w. record s { wal = w }) (m s.wal)

  unfoldable pub on_pool : {A : Type 0} → Method (BufferPool W) A → Method (Engine W) A
  on_pool m s = put_back (λ p. record s { buf_pool = p }) (m s.buf_pool)

  -- `wal.flushed_lsn()`
  unfoldable pub flushed : Method (Engine W) ℕ
  flushed s = (ok s.wal.flushed_lsn, s)

module _ {W : Type 0} ⦃flusher : WalFlusher W⦄ where
  -- the rest of `init`, once the log was read
  unfoldable pub recover : List PageId → List WalEntry → Method (Engine W) ℕ
  recover order [] = flushed
  recover order (e ∷ batch) = do
    max_lsn ← on_pool (replay order (e ∷ batch))
    on_wal truncate
    on_wal sync_log
    return max_lsn

  -- `init`, once the log is open
  unfoldable pub init : List PageId → Method (Engine W) ℕ
  init order = on_wal read_batch >>= recover order

  -- `init` on the file of the log
  abbrev pub start : List PageId → File → BufferPool W → Engine W
  start order f p = record { wal = open_log f false; buf_pool = p }
