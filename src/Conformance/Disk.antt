-- ===== src/Conformance/Disk.antt =====
-- The tests of src/storage/page.rs on `DiskManager`.
use smol_db.Common.{◌≡◌, refl, false, [], ◌∷◌, none, not, ◌==◌, get_elem?, List, ℕ}
use smol_db.Bytes.{to_le_bytes, from_le_bytes}
use smol_db.Error.Outcome.{ok, or_panic, ◌>>=◌}
use smol_db.Storage.{write_all_at, read_exact_at, sync_all}
use smol_db.Page as Page
use smol_db.Page.{leaf}
use smol_db.Page.Leaf.{footer_len}
use smol_db.Page.Cursor.{open_cursor, write_uint, write_bytes, read_uint, read_bytes, skip}
use smol_db.Page.Codec.{
  encode, encode_leaf, write_uints, write_cells, write_cell, leaf_fields, slot_fields, bit, decode,
  decode_kind, decode_leaf, read_slots, read_cells, read_cell,
}
use smol_db.Disk.{
  FileHeader, open_disk, default_header, header_from, header_bytes, allocate_page, read_page,
  write_page, save_header, sync_header,
}
use smol_db.Conformance.{
  Test, assert, assert_eq, assert_bytes, ◌>>◌, expect_leaf, new_file, through,
}
use smol_db.Conformance.Codec.{make_record, plain_leaf}

-- `b"disk-test"`
abbrev disk_test : List ℕ
disk_test = 100 ∷ 105 ∷ 115 ∷ 107 ∷ 45 ∷ 116 ∷ 101 ∷ 115 ∷ 116 ∷ []

unfoldable test_disk_manager_page_lifecycle : Test
test_disk_manager_page_lifecycle = do
  dm ← open_disk none new_file
  let (page_id_1, dm1) = allocate_page dm
  let (page_id_2, dm2) = allocate_page dm1
  assert (not (page_id_1 == page_id_2))
  page_1 ←
      encode (leaf (plain_leaf page_id_1 10 (0 ∷ []) (make_record 1 disk_test false ∷ []))) Page.new
  (_, dm3) ← through (write_page page_id_1 page_1 dm2)
  read_page_1 ← read_page none page_id_1 dm3
  decoded ← decode read_page_1
  dec_leaf ← expect_leaf decoded
  first ← or_panic (get_elem? dec_leaf.records 0)
  assert_bytes first.payload disk_test

abbrev some_header : FileHeader
some_header = record {
  last_row_id = 42;
  page_root_offset = 8192;
  next_lsn = 1000;
  next_free_offset = 16384;
}

unfoldable test_disk_manager_header_persistence : Test
test_disk_manager_header_persistence = do
  dm ← open_disk none new_file
  (_, saved) ← through (save_header (record dm { header = some_header }))
  reopened ← open_disk none saved.file
  assert_eq reopened.header.last_row_id 42
  assert_eq reopened.header.page_root_offset 8192
  assert_eq reopened.header.next_lsn 1000
  assert_eq reopened.header.next_free_offset 16384

disk_tests :
    (test_disk_manager_page_lifecycle ≡ ok tt) × (test_disk_manager_header_persistence ≡ ok tt)
unfolding test_disk_manager_page_lifecycle test_disk_manager_header_persistence make_record Page.new
    open_cursor write_uint write_bytes read_uint read_bytes skip to_le_bytes from_le_bytes
    footer_len encode encode_leaf write_uints write_cells write_cell leaf_fields slot_fields bit
    decode decode_kind decode_leaf read_slots read_cells read_cell open_disk default_header
    header_from header_bytes allocate_page read_page write_page save_header sync_header write_all_at
    read_exact_at sync_all
disk_tests = (refl, refl)
