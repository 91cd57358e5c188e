-- ===== src/Page/Codec.antt =====
-- `BTreeNode::encode` and `BTreeNode::decode` (page.rs). An error of `encode` comes before its first
-- write, so that the page is then as it was.
pub mod Bytes
pub mod Cells
pub mod Fields
pub mod RoundTrip
pub mod Stored
pub mod Length
pub mod Entries
pub mod Routing
mod Examples
use smol_db.Common.{
  ℕ, zero, suc, ◌+◌, ◌-◌, ◌*◌, ◌%◌, ◌^◌, Bool, true, false, not, List, [], ◌∷◌, ◌++◌, map, some,
  none, ltb, ◌==◌, if◌then◌else◌, length, get_elem?, set, replicate,
}
use smol_db.Bytes.{to_le_bytes}
use smol_db.Error.{page_full, corrupt_page, unknown_node_type}
use smol_db.Error.Outcome.{Outcome, ok, err, panic, ◌>>=◌, or_panic}
use smol_db.Page.{
  Page, page_size, slot_elem_size, index_entry_size, leaf_node_header_size,
  internal_node_header_size, IndexEntry, Record, LeafNode, InternalNode, BTreeNode, leaf, internal,
}
use smol_db.Page.Leaf.{footer_len}
use smol_db.Page.Cursor.{
  ByteCursor, open_cursor, write_bytes, write_uint, read_bytes, read_uint, skip,
}

-- `b as u8`
unfoldable pub bit : Bool → ℕ
bit false = 0
bit true = 1

-- integers written in order, each with its width in bytes
unfoldable pub write_uints : List (ℕ × ℕ) → ByteCursor → Outcome ByteCursor
write_uints [] c = ok c
write_uints ((width, val) ∷ fields) c = write_uint width val c >>= write_uints fields

-- the slot array, two bytes for a slot
unfoldable pub slot_fields : List ℕ → List (ℕ × ℕ)
slot_fields [] = []
slot_fields (s ∷ slots) = (2, s) ∷ slot_fields slots

unfoldable pub write_cell : Record → ByteCursor → Outcome ByteCursor
write_cell cell c =
    write_uints
      ((8, cell.row_id) ∷ (1, bit cell.is_deleted) ∷ (4, length cell.payload % 2 ^ 32) ∷ []) c
    >>= write_bytes cell.payload

-- the cells of a leaf, in slot order
unfoldable pub write_cells : List Record → List ℕ → ByteCursor → Outcome ByteCursor
write_cells records [] c = ok c
write_cells records (s ∷ slots) c = do
  cell ← or_panic (get_elem? records s)
  c1 ← write_cell cell c
  write_cells records slots c1

-- the header of a leaf, up to `free_size`
unfoldable pub leaf_fields : LeafNode → ℕ → List (ℕ × ℕ)
leaf_fields node free_size =
    (1, 1)
    ∷ (8, node.page_id)
    ∷ (8, node.last_lsn)
    ∷ (1, bit node.has_prev)
    ∷ (1, bit node.has_next)
    ∷ (8, node.prev_page_id)
    ∷ (8, node.next_page_id)
    ∷ (4, length node.slot_array % 2 ^ 32)
    ∷ (slot_fields node.slot_array ++ (2, free_size) ∷ [])

unfoldable pub encode_leaf : LeafNode → Page → Outcome Page
encode_leaf node page = footer_len node.records node.slot_array >>= λ footer.
    let header_len = leaf_node_header_size + length node.slot_array * slot_elem_size in
    if ltb page_size (header_len + footer) then err page_full else do
      let free_size = (page_size - header_len - footer) % 2 ^ 16
      c ← write_uints (leaf_fields node free_size) (open_cursor page.bytes)
      c1 ← write_cells node.records node.slot_array (skip free_size c)
      ok (record { bytes = c1.buffer })

-- the entries of an internal node, in slot order
unfoldable pub write_entries : List IndexEntry → List ℕ → ByteCursor → Outcome ByteCursor
write_entries entries [] c = ok c
write_entries entries (s ∷ slots) c = do
  cell ← or_panic (get_elem? entries s)
  c1 ← write_uints ((8, cell.key) ∷ (8, cell.child_page_id) ∷ []) c
  write_entries entries slots c1

unfoldable pub internal_fields : InternalNode → ℕ → List (ℕ × ℕ)
internal_fields node free_size =
    (1, 0)
    ∷ (8, node.page_id)
    ∷ (8, node.last_lsn)
    ∷ (8, node.rightmost_child_id)
    ∷ (4, length node.slot_array % 2 ^ 32)
    ∷ (slot_fields node.slot_array ++ (2, free_size) ∷ [])

unfoldable pub encode_internal : InternalNode → Page → Outcome Page
encode_internal node page =
    let header_len = internal_node_header_size + length node.slot_array * slot_elem_size in
    let footer = length node.slot_array * index_entry_size in
    if ltb page_size (header_len + footer) then err page_full else do
      let free_size = (page_size - header_len - footer) % 2 ^ 16
      c ← write_uints (internal_fields node free_size) (open_cursor page.bytes)
      c1 ← write_entries node.entries node.slot_array (skip free_size c)
      ok (record { bytes = c1.buffer })

unfoldable pub encode : BTreeNode → Page → Outcome Page
encode (leaf node) page = encode_leaf node page
encode (internal node) page = encode_internal node page

-- `count` slots
unfoldable pub read_slots : ℕ → ByteCursor → Outcome (List ℕ × ByteCursor)
read_slots zero c = ok ([], c)
read_slots (suc count) c = do
  (s, c1) ← read_uint 2 c
  (slots, c2) ← read_slots count c1
  ok (s ∷ slots, c2)

unfoldable pub read_cell : ByteCursor → Outcome (Record × ByteCursor)
read_cell c = do
  (key, c1) ← read_uint 8 c
  (deleted, c2) ← read_uint 1 c1
  (len, c3) ← read_uint 4 c2
  (value, c4) ← read_bytes len c3
  ok (record { row_id = key; payload = value; is_deleted = not (deleted == 0) }, c4)

-- the cells in slot order, each stored at its slot: `cells[cell_idx] = …`
unfoldable pub read_cells : List ℕ → List Record → ByteCursor → Outcome (List Record × ByteCursor)
read_cells [] cells c = ok (cells, c)
read_cells (s ∷ slots) cells c = do
  (cell, c1) ← read_cell c
  if ltb s (length cells) then read_cells slots (set cells s cell) c1 else panic

-- `Record::default()`
abbrev pub default_record : Record
default_record = record { row_id = 0; payload = []; is_deleted = false }

unfoldable pub decode_leaf : ByteCursor → Outcome LeafNode
decode_leaf c = do
  (file_index, c1) ← read_uint 8 c
  (lsn, c2) ← read_uint 8 c1
  (has_lsib, c3) ← read_uint 1 c2
  (has_rsib, c4) ← read_uint 1 c3
  (lsib_index, c5) ← read_uint 8 c4
  (rsib_index, c6) ← read_uint 8 c5
  (cell_count, c7) ← read_uint 4 c6
  (indices, c8) ← read_slots cell_count c7
  (free, c9) ← read_uint 2 c8
  (cells, c10) ← read_cells indices (replicate cell_count default_record) (skip free c9)
  ok (record {
    page_id = file_index;
    last_lsn = lsn;
    has_prev = not (has_lsib == 0);
    has_next = not (has_rsib == 0);
    prev_page_id = lsib_index;
    next_page_id = rsib_index;
    slot_array = indices;
    records = cells;
    free_size = free;
    is_dirty = false;
  })

unfoldable pub read_entries :
    List ℕ → List IndexEntry → ByteCursor → Outcome (List IndexEntry × ByteCursor)
read_entries [] entries c = ok (entries, c)
read_entries (s ∷ slots) entries c = do
  (key, c1) ← read_uint 8 c
  (child_index, c2) ← read_uint 8 c1
  if ltb s (length entries)
      then read_entries slots (set entries s (record { key = key; child_page_id = child_index })) c2
      else panic

-- `IndexEntry::default()`
abbrev pub default_entry : IndexEntry
default_entry = record { key = 0; child_page_id = 0 }

unfoldable pub decode_internal : ByteCursor → Outcome InternalNode
decode_internal c = do
  (file_index, c1) ← read_uint 8 c
  (lsn, c2) ← read_uint 8 c1
  (right_index, c3) ← read_uint 8 c2
  (entry_count, c4) ← read_uint 4 c3
  (indices, c5) ← read_slots entry_count c4
  (free, c6) ← read_uint 2 c5
  (entries, c7) ← read_entries indices (replicate entry_count default_entry) (skip free c6)
  ok (record {
    page_id = file_index;
    last_lsn = lsn;
    rightmost_child_id = right_index;
    slot_array = indices;
    entries = entries;
    free_size = free;
    is_dirty = false;
  })

-- a node, by the byte of its type
unfoldable pub decode_kind : ℕ × ByteCursor → Outcome BTreeNode
decode_kind (kind, c) =
    if kind == 1
    then (decode_leaf c >>= λ node. ok (leaf node))
    else if kind == 0
    then (decode_internal c >>= λ node. ok (internal node))
    else err (corrupt_page (unknown_node_type kind))

unfoldable pub decode : Page → Outcome BTreeNode
decode page = read_uint 1 (open_cursor page.bytes) >>= decode_kind
