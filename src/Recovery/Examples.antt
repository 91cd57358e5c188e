-- ===== src/Recovery/Examples.antt =====
-- Runs of the recovery, and its theorems at concrete logs.
use smol_db.Common.{ℕ, ◌≡◌, refl, ◌⊎◌, false, List, [], ◌∷◌, ◌++◌, dec_lt}
use smol_db.HashMap
use smol_db.Error.Outcome.{ok}
use smol_db.Slice.{binary_search_by_key}
use smol_db.Page.{BTreeNode, leaf}
use smol_db.Page.Leaf.{insert_record, record_at, find_slot, insert_new, footer_len}
use smol_db.Page.Node.{get_last_lsn, mark_dirty}
use smol_db.Wal.Entry.{WalEntry, insert, delete}
use smol_db.Wal.Manager.{WalManager, read_batch, frames}
use smol_db.Pool.{
  BufferPool, with_frame, with_node, fetch_page, access, store_frame, release_handle,
}
use smol_db.Pool.Log.{wal_manager}
use smol_db.Pool.Sample.{one_row, full_pool}
use smol_db.Lru.{record_access, unlink, insert_head, link_next, link_prev, set_prev, set_next}
use smol_db.Recovery.{Engine, apply_op, apply_entry, redo, replay_loop, replay, init}
use smol_db.Recovery.Redo.{redo_all, redo_all-prefix}
use smol_db.Recovery.Init.{init-Kept}

abbrev put_5 : WalEntry
put_5 = record { opcode = insert; lsn = 8; page_id = 4096; row_id = 5; payload = 9 ∷ [] }

abbrev drop_3 : WalEntry
drop_3 = record { opcode = delete; lsn = 9; page_id = 4096; row_id = 3; payload = [] }

abbrev before : BTreeNode
before = leaf one_row

abbrev after_put : BTreeNode
after_put = (redo put_5 before).1

put_runs : redo_all (put_5 ∷ []) before ≡ (ok tt, after_put)
unfolding redo_all redo apply_entry apply_op insert_record find_slot record_at insert_new footer_len
    binary_search_by_key get_last_lsn mark_dirty dec_lt
put_runs = refl

redo_all-prefix_example :
    redo_all ((put_5 ∷ []) ++ (drop_3 ∷ [])) after_put
    ≡ redo_all ((put_5 ∷ []) ++ (drop_3 ∷ [])) before
redo_all-prefix_example = redo_all-prefix (put_5 ∷ []) (drop_3 ∷ []) before after_put put_runs

abbrev replayed : BufferPool WalManager
replayed = (replay_loop 0 (put_5 ∷ []) full_pool).1

replay_runs : replay_loop 0 (put_5 ∷ []) full_pool ≡ (ok 8, replayed)
unfolding replay_loop with_frame with_node fetch_page access store_frame release_handle
    record_access unlink insert_head link_next link_prev set_prev set_next HashMap.lookup
    HashMap.insert HashMap.remove redo apply_entry apply_op insert_record find_slot record_at
    insert_new footer_len binary_search_by_key get_last_lsn mark_dirty dec_lt
replay_runs = refl

abbrev engine : Engine WalManager
engine = record {
  wal = record {
    file = record { content = frames (put_5 ∷ []); durable = []; faults = [] };
    sync = false;
    entry_count = 0;
    flushed_lsn = 0;
  };
  buf_pool = full_pool;
}

init-Kept_example :
    ((init (4096 ∷ []) engine).1.wal.file.content ≡ frames (put_5 ∷ []))
    ⊎ ((batch : List WalEntry) × (max_lsn : ℕ) × ((read_batch engine.wal).0 ≡ ok batch)
        × ((replay (4096 ∷ []) batch full_pool).0 ≡ ok max_lsn))
init-Kept_example = init-Kept (4096 ∷ []) engine
