-- ===== src/Conformance/Codec.antt =====
-- The tests of src/storage/page.rs on the cursor and the codec.
use smol_db.Common.{
  ℕ, ◌-◌, ◌^◌, ◌≡◌, refl, Bool, true, false, not, List, [], ◌∷◌, zero, suc, length, replicate,
  get_elem?, set, map,
}
use smol_db.Bytes.{to_le_bytes, from_le_bytes}
use smol_db.Error.{page_full, corrupt_page}
use smol_db.Error.Outcome.{Outcome, ok, err, panic, or_panic, ◌>>=◌}
use smol_db.Page as Page
use smol_db.Page.{
  PageId, Record, IndexEntry, LeafNode, InternalNode, BTreeNode, leaf, internal, page_size,
  leaf_node_header_size, max_value_size,
}
use smol_db.Page.Leaf.{footer_len}
use smol_db.Page.Cursor.{open_cursor, write_uint, write_bytes, read_uint, read_bytes, skip}
use smol_db.Page.Codec.{
  encode, encode_leaf, encode_internal, write_uints, write_cells, write_cell, write_entries,
  leaf_fields, internal_fields, slot_fields, bit, decode, decode_kind, decode_leaf, decode_internal,
  read_slots, read_cells, read_cell, read_entries,
}
use smol_db.Conformance.{Test, assert, assert_eq, assert_bytes, ◌>>◌, expect_leaf, expect_internal}

unfoldable pub make_record : ℕ → List ℕ → Bool → Record
make_record key payload is_deleted = record {
  row_id = key;
  payload = payload;
  is_deleted = is_deleted;
}

-- `b"smol-db"`
abbrev smol_db_name : List ℕ
smol_db_name = 115 ∷ 109 ∷ 111 ∷ 108 ∷ 45 ∷ 100 ∷ 98 ∷ []

unfoldable test_byte_cursor_primitives : Test
test_byte_cursor_primitives = do
  w1 ← write_uint 1 42 (open_cursor (replicate 64 0))
  w2 ← write_uint 2 (2 ^ 16 - 1) w1
  w3 ← write_uint 4 123456789 w2
  w4 ← write_uint 8 (2 ^ 64 - 1) w3
  w5 ← write_bytes smol_db_name w4
  (a, r1) ← read_uint 1 (open_cursor w5.buffer)
  assert_eq a 42
  (b, r2) ← read_uint 2 r1
  assert_eq b (2 ^ 16 - 1)
  (c, r3) ← read_uint 4 r2
  assert_eq c 123456789
  (d, r4) ← read_uint 8 r3
  assert_eq d (2 ^ 64 - 1)
  (bytes, r5) ← read_bytes 7 r4
  assert_bytes bytes smol_db_name

-- a leaf of the tests, without siblings
abbrev pub plain_leaf : PageId → ℕ → List ℕ → List Record → LeafNode
plain_leaf page_id last_lsn slot_array records = record {
  page_id = page_id;
  last_lsn = last_lsn;
  has_prev = false;
  has_next = false;
  prev_page_id = 0;
  next_page_id = 0;
  slot_array = slot_array;
  records = records;
  free_size = 0;
  is_dirty = false;
}

unfoldable test_empty_leaf_node_round_trip : Test
test_empty_leaf_node_round_trip = do
  page ← encode (leaf (plain_leaf 1 100 [] [])) Page.new
  decoded ← decode page
  dec_leaf ← expect_leaf decoded
  assert_eq dec_leaf.page_id 1
  assert_eq dec_leaf.last_lsn 100
  assert (not dec_leaf.has_prev)
  assert (not dec_leaf.has_next)
  assert_eq (length dec_leaf.slot_array) 0
  assert_eq (length dec_leaf.records) 0
  assert_eq dec_leaf.free_size (page_size - leaf_node_header_size)

abbrev alice : List ℕ
alice = 97 ∷ 108 ∷ 105 ∷ 99 ∷ 101 ∷ []

abbrev bob_was_deleted : List ℕ
bob_was_deleted =
    98 ∷ 111 ∷ 98 ∷ 45 ∷ 119 ∷ 97 ∷ 115 ∷ 45 ∷ 100 ∷ 101 ∷ 108 ∷ 101 ∷ 116 ∷ 101 ∷ 100 ∷ []

abbrev charlie : List ℕ
charlie = 99 ∷ 104 ∷ 97 ∷ 114 ∷ 108 ∷ 105 ∷ 101 ∷ []

abbrev three_records : List Record
three_records =
    make_record 10 alice false
    ∷ make_record 20 bob_was_deleted true
    ∷ make_record 30 charlie false
    ∷ []

unfoldable test_populated_leaf_node_round_trip : Test
test_populated_leaf_node_round_trip = do
  page ←
      encode
        (leaf (record (plain_leaf 42 999 (0 ∷ 1 ∷ 2 ∷ []) three_records) {
          has_prev = true;
          has_next = true;
          prev_page_id = 41;
          next_page_id = 43;
        }))
        Page.new
  decoded ← decode page
  dec_leaf ← expect_leaf decoded
  assert_eq dec_leaf.page_id 42
  assert_eq dec_leaf.prev_page_id 41
  assert_eq dec_leaf.next_page_id 43
  assert_bytes dec_leaf.slot_array (0 ∷ 1 ∷ 2 ∷ [])
  assert_eq (length dec_leaf.records) 3
  first ← or_panic (get_elem? dec_leaf.records 0)
  assert_eq first.row_id 10
  assert_bytes first.payload alice
  assert (not first.is_deleted)
  second ← or_panic (get_elem? dec_leaf.records 1)
  assert_eq second.row_id 20
  assert_bytes second.payload bob_was_deleted
  assert second.is_deleted

-- `0..n`
abbrev up_to : ℕ → ℕ → List ℕ
up_to zero from = []
up_to (suc n) from = from ∷ up_to n (suc from)

-- `matches!(result, Err(DbError::PageFull))`
abbrev assert_page_full : {A : Type 0} → Outcome A → Test
assert_page_full (err page_full) = ok tt
assert_page_full (err e) = panic
assert_page_full (ok a) = panic
assert_page_full panic = panic

unfoldable test_leaf_node_overflow_returns_page_full : Test
test_leaf_node_overflow_returns_page_full =
    let records = map (λ i. make_record i (replicate max_value_size 0) false) (up_to 11 0) in
    assert_page_full (encode (leaf (plain_leaf 1 0 (up_to 11 0) records)) Page.new)

abbrev three_entries : List IndexEntry
three_entries =
    record { key = 100; child_page_id = 2 }
    ∷ record { key = 200; child_page_id = 3 }
    ∷ record { key = 300; child_page_id = 4 }
    ∷ []

abbrev routing_node : InternalNode
routing_node = record {
  page_id = 1;
  last_lsn = 555;
  rightmost_child_id = 5;
  slot_array = 0 ∷ 1 ∷ 2 ∷ [];
  entries = three_entries;
  free_size = 0;
  is_dirty = false;
}

unfoldable test_internal_node_round_trip : Test
test_internal_node_round_trip = do
  page ← encode (internal routing_node) Page.new
  decoded ← decode page
  dec_internal ← expect_internal decoded
  assert_eq dec_internal.page_id 1
  assert_eq dec_internal.last_lsn 555
  assert_eq dec_internal.rightmost_child_id 5
  assert_eq (length dec_internal.slot_array) 3
  second ← or_panic (get_elem? dec_internal.entries 1)
  assert_eq second.key 200
  assert_eq second.child_page_id 3

-- `matches!(result, Err(DbError::CorruptPage(_)))`
abbrev assert_corrupt : {A : Type 0} → Outcome A → Test
assert_corrupt (err (corrupt_page message)) = ok tt
assert_corrupt (err e) = panic
assert_corrupt (ok a) = panic
assert_corrupt panic = panic

unfoldable test_decode_corrupt_node_type_fails : Test
test_decode_corrupt_node_type_fails =
    assert_corrupt (decode (record { bytes = set Page.new.bytes 0 99 }))

codec_tests :
    (test_byte_cursor_primitives ≡ ok tt)
    × (test_empty_leaf_node_round_trip ≡ ok tt)
    × (test_populated_leaf_node_round_trip ≡ ok tt)
    × (test_leaf_node_overflow_returns_page_full ≡ ok tt)
    × (test_internal_node_round_trip ≡ ok tt)
    × (test_decode_corrupt_node_type_fails ≡ ok tt)
unfolding test_byte_cursor_primitives test_empty_leaf_node_round_trip
    test_populated_leaf_node_round_trip test_leaf_node_overflow_returns_page_full
    test_internal_node_round_trip test_decode_corrupt_node_type_fails make_record Page.new
    open_cursor write_uint write_bytes read_uint read_bytes skip to_le_bytes from_le_bytes
    footer_len encode encode_leaf encode_internal write_uints write_cells write_cell write_entries
    leaf_fields internal_fields slot_fields bit decode decode_kind decode_leaf decode_internal
    read_slots read_cells read_cell read_entries
codec_tests = (refl, refl, refl, refl, refl, refl)
