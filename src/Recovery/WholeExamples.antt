-- ===== src/Recovery/WholeExamples.antt =====
-- A recovery from the file of a log, in a pool over a disk.
use smol_db.Common.{ℕ, ◌≡◌, refl, ap, [], ◌∷◌, ◌++◌, arith, dec_lt, count}
use smol_db.HashMap
use smol_db.Error.Outcome.{Outcome, ok}
use smol_db.Storage.{File, sync_all, write_all_at, seek, clear, read_exact}
use smol_db.Slice.{binary_search_by_key}
use smol_db.Bytes.{to_le_bytes, from_le_bytes}
use smol_db.Page as Page
use smol_db.Page.Leaf.{insert_record, record_at, find_slot, insert_new, footer_len}
use smol_db.Page.Node.{is_dirty, get_last_lsn, clear_dirty, mark_dirty}
use smol_db.Page.Cursor.{open_cursor, write_bytes, write_uint, skip}
use smol_db.Page.Codec.{
  encode, encode_leaf, write_uints, write_cells, write_cell, leaf_fields, slot_fields, bit,
}
use smol_db.Disk.{write_page, save_header, sync_header, header_bytes, default_header}
use smol_db.Wal.Entry as Entry
use smol_db.Wal.Entry.{WalEntry, IsEntry, insert}
use smol_db.Wal.Manager.{
  WalManager, open_log, flush_upto, frames, frame, max_lsn_from, read_batch, note_read, read_loop,
  read_entry, read_prefixed, read_payload, truncate, sync_log,
}
use smol_db.Pool.{
  with_frame, with_node, fetch_page, access, on_disk, store_frame, release_handle, flush_log,
  flush_dirty, flush_page, flush_pages, flush_all_pages,
}
use smol_db.Pool.Log.{wal_manager}
use smol_db.Pool.Sample.{
  row, one_row, one_row-IsLeaf, held_frame, full_pool, full_pool-Pooled, found_4096,
}
use smol_db.Lru.{record_access, unlink, insert_head, link_next, link_prev, set_prev, set_next}
use smol_db.Recovery.{
  Engine, apply_op, apply_entry, redo, replay_loop, replay, recover, init, on_wal, on_pool, start,
}
use smol_db.Recovery.Whole.{Recovered, init-Recovered}

abbrev put_6 : WalEntry
put_6 = record { opcode = insert; lsn = 8; page_id = 4096; row_id = 6; payload = 9 ∷ [] }

put_6-IsEntry : IsEntry put_6
put_6-IsEntry = record {
  lsn = omega arith;
  page_id = omega arith;
  row_id = omega arith;
  payload = omega arith;
}

abbrev log_file : File
log_file = record { content = frames (put_6 ∷ []) ++ 0 ∷ []; durable = []; faults = [] }

abbrev started : Engine WalManager
started = start (4096 ∷ []) log_file full_pool

abbrev recovered : Engine WalManager
recovered = (init (4096 ∷ []) started).1

init_runs : (init (4096 ∷ []) started).0 ≡ ok 8
unfolding init recover on_wal on_pool open_log replay replay_loop with_frame with_node fetch_page
    access store_frame release_handle record_access unlink insert_head link_next link_prev set_prev
    set_next HashMap.lookup HashMap.insert HashMap.remove redo apply_entry apply_op insert_record
    find_slot record_at insert_new footer_len binary_search_by_key get_last_lsn mark_dirty dec_lt
    flush_all_pages flush_pages flush_page flush_dirty flush_log flush_upto sync_all on_disk
    is_dirty clear_dirty encode encode_leaf write_uints write_uint write_bytes write_cells
    write_cell leaf_fields slot_fields bit open_cursor skip Page.new write_page write_all_at
    save_header sync_header header_bytes to_le_bytes default_header frames frame read_batch seek
    note_read read_loop read_entry read_prefixed read_payload read_exact Entry.encode Entry.decode
    Entry.as_u8 Entry.from_u8 from_le_bytes max_lsn_from truncate sync_log clear
init_runs = refl

init-Recovered_example :
    (8 ≡ max_lsn_from 0 (put_6 ∷ []))
    × Recovered (put_6 ∷ []) 4096 held_frame one_row recovered.buf_pool
    × (recovered.wal.file.content ≡ [])
    × (recovered.wal.file.durable ≡ [])
unfolding count HashMap.lookup
init-Recovered_example =
    init-Recovered put_6 [] (0 ∷ []) [] (4096 ∷ []) full_pool 8 4096 held_frame one_row (row ∷ [])
      recovered (put_6-IsEntry, tt) (omega arith) full_pool-Pooled (refl, tt) ((0, omega arith), tt)
      (omega arith) found_4096 refl one_row-IsLeaf
      (ap (λ (x : Outcome ℕ). (x, recovered)) init_runs)
