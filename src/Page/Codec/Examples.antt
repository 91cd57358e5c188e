-- ===== src/Page/Codec/Examples.antt =====
-- Runs of the page codec, and its theorem at a concrete leaf.
use smol_db.Common.{
  some, ◌==◌, ◌<◌, if◌then◌else◌, replicate, dec_lt, ℕ, ◌+◌, ◌*◌, ◌≡◌, refl, [], ◌∷◌, true, false,
  arith, length, length-replicate,
}
use smol_db.Bytes.{to_le_bytes, from_le_bytes}
use smol_db.Error.{page_full, corrupt_page, unknown_node_type}
use smol_db.Error.Outcome.{ok, err}
use smol_db.Page.{
  Page, new, page_size, slot_elem_size, leaf_node_header_size, Record, LeafNode, leaf,
}
use smol_db.Page.Leaf.Rows.{IsLeaf}
use smol_db.Page.Cursor.{open_cursor, read_uint, read_bytes}
use smol_db.Page.Leaf.{insert_record, insert_new, find_slot, record_at, footer_len, get_record}
use smol_db.Slice.{binary_search_by_key}
use smol_db.Page.Leaf.Compaction.{net_size}
use smol_db.Page.Codec.Stored.{IsTyped, get_record-stored, encode-PageFull}
use smol_db.Page.Codec.{encode, decode, decode_kind}
use smol_db.Page.Codec.Bytes.{uints, cell_bytes, cells_bytes}
use smol_db.Page.Codec.Cells.{IsRecord}
use smol_db.Page.Codec.RoundTrip.{IsStorable, decode-encode-leaf}

abbrev low : Record
low = record { row_id = 3; payload = 1 ∷ 2 ∷ []; is_deleted = false }

abbrev high : Record
high = record { row_id = 8; payload = []; is_deleted = true }

-- two rows, stored out of order
abbrev two_rows : LeafNode
two_rows = record {
  page_id = 4096;
  last_lsn = 7;
  has_prev = false;
  has_next = true;
  prev_page_id = 0;
  next_page_id = 8192;
  slot_array = 1 ∷ 0 ∷ [];
  records = high ∷ low ∷ [];
  free_size = 0;
  is_dirty = true;
}

two_rows-IsLeaf : IsLeaf two_rows (low ∷ high ∷ [])
two_rows-IsLeaf = record {
  reads = (refl, (refl, tt));
  ascending = ((omega arith, tt), (tt, tt));
  full = refl;
  small = omega arith;
}

low-IsRecord : IsRecord low
low-IsRecord = record { row_id = omega arith; payload = omega arith }

high-IsRecord : IsRecord high
high-IsRecord = record { row_id = omega arith; payload = omega arith }

two_rows-IsStorable : IsStorable two_rows (low ∷ high ∷ [])
unfolding cells_bytes cell_bytes uints to_le_bytes
two_rows-IsStorable = record {
  page_id = omega arith;
  last_lsn = omega arith;
  prev_page_id = omega arith;
  next_page_id = omega arith;
  stored = (low-IsRecord, (high-IsRecord, tt));
  fits = omega arith;
}

new-page : length new.bytes ≡ page_size
unfolding new
new-page = length-replicate {A = ℕ} page_size 0

decode_unknown : decode (record { bytes = 7 ∷ [] }) ≡ err (corrupt_page (unknown_node_type 7))
unfolding decode decode_kind open_cursor read_uint read_bytes from_le_bytes
decode_unknown = refl

decode-encode-leaf_example :
    (p : Page) × (l' : LeafNode) × (encode (leaf two_rows) new ≡ ok p)
    × (length p.bytes ≡ page_size)
    × (decode p ≡ ok (leaf l'))
    × IsLeaf l' (low ∷ high ∷ [])
    × (l' ≡ record two_rows { records = l'.records; free_size = l'.free_size; is_dirty = false })
    × (leaf_node_header_size
          + 2 * slot_elem_size
          + l'.free_size
          + length (cells_bytes (low ∷ high ∷ []))
        ≡ page_size)
decode-encode-leaf_example =
    decode-encode-leaf two_rows (low ∷ high ∷ []) new two_rows-IsLeaf two_rows-IsStorable new-page

abbrev three_rows : LeafNode
three_rows = record two_rows {
  slot_array = 1 ∷ 2 ∷ 0 ∷ [];
  records = high ∷ low ∷ record { row_id = 5; payload = 9 ∷ []; is_deleted = false } ∷ [];
}

insert_runs : insert_record 5 (9 ∷ []) two_rows ≡ (ok tt, three_rows)
unfolding insert_record find_slot record_at insert_new footer_len binary_search_by_key dec_lt
insert_runs = refl

three_rows-IsTyped : IsTyped three_rows
three_rows-IsTyped = record {
  page_id = omega arith;
  last_lsn = omega arith;
  prev_page_id = omega arith;
  next_page_id = omega arith;
  row_ids = (omega arith, (omega arith, (omega arith, tt)));
}

get_record-stored_example :
    (p : Page) × (back : LeafNode) × (encode (leaf three_rows) new ≡ ok p)
    × (decode p ≡ ok (leaf back))
    × ((k : ℕ) → get_record back k ≡ (if 5 == k then ok (some (9 ∷ [])) else get_record two_rows k))
get_record-stored_example =
    get_record-stored two_rows three_rows (low ∷ high ∷ []) 5 (9 ∷ []) new two_rows-IsLeaf
      insert_runs three_rows-IsTyped new-page

abbrev huge : Record
huge = record { row_id = 1; payload = replicate page_size 0; is_deleted = false }

abbrev huge_leaf : LeafNode
huge_leaf = record two_rows { slot_array = 0 ∷ []; records = huge ∷ [] }

huge_leaf-IsLeaf : IsLeaf huge_leaf (huge ∷ [])
huge_leaf-IsLeaf = record {
  reads = (refl, tt);
  ascending = (tt, tt);
  full = refl;
  small = omega arith;
}

huge_size : page_size < net_size (huge ∷ [])
huge_size = omega (arith, length-replicate {A = ℕ} page_size 0)

huge_leaf_refused : encode (leaf huge_leaf) new ≡ err page_full
huge_leaf_refused = encode-PageFull huge_leaf (huge ∷ []) new huge_leaf-IsLeaf huge_size
