-- ===== src/Conformance/Recovery.antt =====
-- The tests of src/storage/recovery.rs.
use smol_db.Common.{◌≡◌, refl, List, [], ◌∷◌, none, ltb, length, get_elem?, dec_lt, true}
use smol_db.HashMap
use smol_db.Bytes.{to_le_bytes, from_le_bytes}
use smol_db.Error.Outcome.{Outcome, ok, or_panic, ◌>>=◌}
use smol_db.Error.Method.{Method}
use smol_db.Slice.{binary_search_by_key}
use smol_db.Storage.{write_all_at, read_exact_at, sync_all, append_all, clear, seek, read_exact}
use smol_db.Page as Page
use smol_db.Page.{PageId, LeafNode, BTreeNode, leaf, internal}
use smol_db.Page.Node.{is_dirty, get_last_lsn, clear_dirty, mark_dirty}
use smol_db.Page.Leaf.{
  insert_record, update_record, set_record_at, find_slot, record_at, insert_new, footer_len,
}
use smol_db.Page.Cursor.{open_cursor, write_uint, write_bytes, read_uint, read_bytes, skip}
use smol_db.Page.Codec.{
  encode, encode_leaf, write_uints, write_cells, write_cell, leaf_fields, slot_fields, bit, decode,
  decode_kind, decode_leaf, read_slots, read_cells,
}
use smol_db.Disk.{
  open_disk, default_header, read_page, write_page, save_header, sync_header, header_bytes,
}
use smol_db.Lru as Lru
use smol_db.Wal.Entry.{WalEntry, insert, update}
use smol_db.Wal.Entry as Entry
use smol_db.Wal.Manager.{
  WalManager, open_log, write_batch, frames, frame, max_lsn_from, read_batch, note_read, read_loop,
  read_entry, read_prefixed, read_payload, truncate, sync_log,
}
use smol_db.Pool.{
  BufferPool, new_pool, read_disk, with_node, with_frame, make_room, on_disk, store_frame, access,
  load_page, fetch_page, release_handle, flush_log, flush_dirty, flush_page, flush_pages,
  flush_all_pages,
}
use smol_db.Pool.Log.{wal_manager}
use smol_db.Recovery.{
  apply_op, apply_entry, redo, replay_loop, replay, recover, init, on_wal, on_pool, start,
}
use smol_db.Conformance.{
  Test, assert, assert_eq, assert_bytes, ◌>>◌, new_file, unwrap, unwrap_run, expect_leaf, node_of,
}
use smol_db.Conformance.Codec.{plain_leaf}

-- a pool over a file whose page 0 is an empty leaf
unfoldable setup_test_pool : Outcome (BufferPool WalManager)
setup_test_pool = do
  dm ← unwrap (open_disk none new_file)
  buffer ← unwrap (encode (leaf (plain_leaf 0 0 [] [])) Page.new)
  (_, dm1) ← unwrap_run (write_page 0 buffer dm)
  ok (new_pool dm1 10 none)

-- the change that the first test makes to the page behind its latch
unfoldable first_change : Method BTreeNode Unit
first_change (leaf l) =
    let (result, l') = insert_record 1 (10 ∷ 20 ∷ []) l in (unwrap result, mark_dirty 100 (leaf l'))
first_change (internal n) = (ok tt, mark_dirty 100 (internal n))

abbrev three_changes : List WalEntry
three_changes =
    Entry.new insert 50 0 1 (99 ∷ 99 ∷ [])
    ∷ Entry.new insert 100 0 1 (10 ∷ 20 ∷ [])
    ∷ Entry.new update 150 0 1 (88 ∷ 88 ∷ [])
    ∷ []

unfoldable test_aries_redo_idempotency_skips_flushed_pages : Test
test_aries_redo_idempotency_skips_flushed_pages = do
  pool ← setup_test_pool
  (_, pool1) ← unwrap_run (with_frame 0 first_change pool)
  (_, pool2) ← unwrap_run (flush_all_pages (0 ∷ []) pool1)
  (max_lsn, pool3) ← unwrap_run (replay (0 ∷ []) three_changes pool2)
  assert_eq max_lsn 150
  (_, pool4) ← unwrap_run (fetch_page 0 pool3)
  node ← node_of 0 pool4
  assert_eq (get_last_lsn node) 150
  l ← expect_leaf node
  assert_eq (length l.records) 1
  first ← or_panic (get_elem? l.records 0)
  assert_bytes first.payload (88 ∷ 88 ∷ [])

unfoldable test_init_storage_recovers_and_truncates_log : Test
test_init_storage_recovers_and_truncates_log = do
  pool ← setup_test_pool
  (_, wal) ←
      unwrap_run
        (write_batch (Entry.new insert 10 0 42 (1 ∷ 2 ∷ 3 ∷ 4 ∷ []) ∷ []) (open_log new_file true))
  assert (ltb 0 (length wal.file.content))
  (recovered_lsn, engine) ← unwrap_run (init (0 ∷ []) (start (0 ∷ []) wal.file pool))
  assert_eq recovered_lsn 10
  (_, pool1) ← unwrap_run (fetch_page 0 engine.buf_pool)
  node ← node_of 0 pool1
  assert_eq (get_last_lsn node) 10
  assert_eq (length engine.wal.file.content) 0

recovery_tests :
    (test_aries_redo_idempotency_skips_flushed_pages ≡ ok tt)
    × (test_init_storage_recovers_and_truncates_log ≡ ok tt)
unfolding test_aries_redo_idempotency_skips_flushed_pages
    test_init_storage_recovers_and_truncates_log first_change setup_test_pool Entry.new open_disk
    default_header new_pool read_disk with_node with_frame make_room on_disk store_frame access
    load_page fetch_page release_handle flush_log flush_dirty flush_page flush_pages flush_all_pages
    is_dirty get_last_lsn clear_dirty mark_dirty insert_record update_record set_record_at find_slot
    record_at insert_new footer_len binary_search_by_key dec_lt open_cursor write_uint write_bytes
    read_uint read_bytes skip encode encode_leaf write_uints write_cells write_cell leaf_fields
    slot_fields bit decode decode_kind decode_leaf read_slots read_cells read_page write_page
    save_header sync_header header_bytes write_all_at read_exact_at sync_all append_all clear seek
    read_exact to_le_bytes from_le_bytes Page.new HashMap.lookup HashMap.insert HashMap.remove
    Lru.new Lru.record_access Lru.track Lru.allocate Lru.insert_head Lru.unlink Lru.set_prev
    Lru.set_next Lru.link_next Lru.link_prev open_log write_batch frames frame max_lsn_from
    read_batch note_read read_loop read_entry read_prefixed read_payload truncate sync_log
    Entry.encode Entry.decode Entry.as_u8 Entry.from_u8 apply_op apply_entry redo replay_loop replay
    recover init on_wal on_pool
recovery_tests = (refl, refl)
