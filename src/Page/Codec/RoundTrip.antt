-- ===== src/Page/Codec/RoundTrip.antt =====
-- A leaf that `BTreeNode::encode` has written is read back by `BTreeNode::decode` (page.rs).
use smol_db.Common.{
  ℕ, ◌+◌, ◌-◌, ◌*◌, ◌%◌, ◌^◌, ◌≤◌, ◌<◌, ◌≡◌, refl, sym, ◌∙◌, false, List, [], ◌++◌, append_assoc,
  arith, le→ltb, length, length-append, length-take, length-drop, take, drop, drop_all, replicate,
  length-replicate, All,
}
use smol_db.Bytes.{to_le_bytes}
use smol_db.Error.Outcome.{ok}
use smol_db.Page.{Page, page_size, slot_elem_size, leaf_node_header_size, Record, LeafNode, leaf}
use smol_db.Page.Leaf.Rows.{IsLeaf, length-Reads}
use smol_db.Page.Cursor.{open_cursor, read_uint-between}
use smol_db.Page.Codec.{leaf_fields, encode_leaf, encode, default_record, decode_kind, decode}
use smol_db.Page.Codec.Bytes.{
  uints, cells_bytes, write_uints-between, write_cells-between, skip-between,
  footer_len-cells_bytes,
}
use smol_db.Page.Slots.{scatter, length-scatter, Reads-scatter, slots-Bound}
use smol_db.Page.Codec.Cells.{IsRecord}
use smol_db.Page.Codec.Fields.{decode_leaf-flat, leaf_fields-flat, length-leaf_fields}

-- the integers of the leaf fit their machine types, and the whole fits a page
pub record IsStorable (l : LeafNode) (rows : List Record) : Type 0 where
  pub page_id : l.page_id < 2 ^ 64
  pub last_lsn : l.last_lsn < 2 ^ 64
  pub prev_page_id : l.prev_page_id < 2 ^ 64
  pub next_page_id : l.next_page_id < 2 ^ 64
  pub stored : All IsRecord rows
  pub fits :
      leaf_node_header_size + length rows * slot_elem_size + length (cells_bytes rows) ≤ page_size

module _ (l : LeafNode) (rows : List Record) (page : Page) (is : IsLeaf l rows)
    (can : IsStorable l rows) (whole : length page.bytes ≡ page_size) where
  -- `free_size` as `encode` computes it
  abbrev room : ℕ
  room =
      (page_size
        - (leaf_node_header_size + length l.slot_array * slot_elem_size)
        - length (cells_bytes rows))
      % 2 ^ 16

  abbrev gap : List ℕ
  gap = take room (drop (length (uints (leaf_fields l room))) page.bytes)

  slots_rows : length l.slot_array ≡ length rows
  slots_rows = length-Reads l.records l.slot_array rows is.reads

  room-Exact :
      leaf_node_header_size
        + length l.slot_array * slot_elem_size
        + room
        + length (cells_bytes rows)
      ≡ page_size
  room-Exact = omega (arith, can.fits, slots_rows)

  length-gap : length gap ≡ room
  length-gap = omega (
    arith,
    room-Exact,
    whole,
    length-leaf_fields l room,
    length-take room (drop (length (uints (leaf_fields l room))) page.bytes),
    length-drop (length (uints (leaf_fields l room))) page.bytes,
  )

  -- the bytes of the page behind the header
  abbrev body : List ℕ
  body = gap ++ (cells_bytes rows ++ [])

  encode_leaf-layout :
      encode_leaf l page ≡ ok (record { bytes = uints (leaf_fields l room) ++ body })
  unfolding encode_leaf open_cursor
  encode_leaf-layout =
      let header = uints (leaf_fields l room) in
      let rest = drop (length header) page.bytes in
      rw
        (
          footer_len-cells_bytes l.records l.slot_array rows is.reads,
          le→ltb page_size
              (leaf_node_header_size
                + length l.slot_array * slot_elem_size
                + length (cells_bytes rows))
              (omega (arith, can.fits, slots_rows)),
          write_uints-between (leaf_fields l room) [] page.bytes
              (omega (arith, room-Exact, whole, length-leaf_fields l room)),
          skip-between room header rest (
              omega (
                arith,
                room-Exact,
                whole,
                length-leaf_fields l room,
                length-drop (length header) page.bytes,
              )),
          write_cells-between l.records l.slot_array rows (header ++ gap) (drop room rest) is.reads
              (omega (
                arith,
                room-Exact,
                whole,
                length-leaf_fields l room,
                length-drop (length header) page.bytes,
                length-drop room rest,
              )),
          drop_all (length (cells_bytes rows)) (drop room rest) (
              omega (
                arith,
                room-Exact,
                whole,
                length-leaf_fields l room,
                length-drop (length header) page.bytes,
                length-drop room rest,
              )),
          append_assoc (header ++ gap) (cells_bytes rows) [],
          append_assoc header gap (cells_bytes rows ++ []),
        )
        refl

  length-layout : length (uints (leaf_fields l room) ++ body) ≡ page_size
  length-layout = omega (
    arith,
    room-Exact,
    length-append (uints (leaf_fields l room)) body,
    length-append gap (cells_bytes rows ++ []),
    length-append (cells_bytes rows) [],
    length-leaf_fields l room,
    length-gap,
  )

  abbrev count : ℕ
  count = length l.slot_array % 2 ^ 32

  count-Exact : count ≡ length l.slot_array
  count-Exact = omega (arith, slots_rows, is.small)

  -- the leaf that is read back
  abbrev stored_leaf : LeafNode
  stored_leaf = record l {
    records = scatter l.slot_array rows (replicate count default_record);
    free_size = room;
    is_dirty = false;
  }

  inside : All (λ s. s < length (replicate count default_record)) l.slot_array
  inside =
      slots-Bound l.records l.slot_array rows _ is.reads
        (omega (arith, is.full, length-replicate count default_record, count-Exact, slots_rows))

  stored_leaf-IsLeaf : IsLeaf stored_leaf rows
  stored_leaf-IsLeaf = record {
    reads =
        Reads-scatter (λ (r : Record). r.row_id) l.records l.slot_array rows
          (replicate count default_record) is.reads is.ascending inside;
    ascending = is.ascending;
    full =
        length-scatter l.slot_array rows (replicate count default_record)
        ∙ (length-replicate count default_record ∙ (count-Exact ∙ slots_rows));
    small = is.small;
  }

  decode-layout :
      decode (record { bytes = uints (leaf_fields l room) ++ body }) ≡ ok (leaf stored_leaf)
  unfolding decode open_cursor decode_kind
  decode-layout =
      rw
        (
          leaf_fields-flat l room body,
          read_uint-between 1 1 [] _ (omega arith),
          decode_leaf-flat l.page_id l.last_lsn l.prev_page_id l.next_page_id count room l.has_prev
              l.has_next l.slot_array gap (to_le_bytes 1 1) rows (omega (arith, can.page_id))
              (omega (arith, can.last_lsn)) (omega (arith, can.prev_page_id))
              (omega (arith, can.next_page_id)) (omega arith) (omega (arith, room-Exact))
              count-Exact slots_rows (sym length-gap)
              (slots-Bound l.records l.slot_array rows (2 ^ 16) is.reads
                (omega (arith, is.full, is.small)))
              inside can.stored,
        )
        refl

-- A well-formed leaf that fits a page is written over any page, and what is read back from it is a
-- well-formed leaf of the same rows: it differs from the leaf at most in the place of its records,
-- in `free_size`, which is then the room between header and cells, and in `is_dirty`, which is false.
pub decode-encode-leaf :
    (l : LeafNode) (rows : List Record) (page : Page)
    → IsLeaf l rows
    → IsStorable l rows
    → length page.bytes ≡ page_size
    → (p : Page) × (l' : LeafNode) × (encode (leaf l) page ≡ ok p)
      × (length p.bytes ≡ page_size)
      × (decode p ≡ ok (leaf l'))
      × IsLeaf l' rows
      × (l' ≡ record l { records = l'.records; free_size = l'.free_size; is_dirty = false })
      × (leaf_node_header_size
            + length rows * slot_elem_size
            + l'.free_size
            + length (cells_bytes rows)
          ≡ page_size)
unfolding encode
decode-encode-leaf l rows page is can whole = (
  _,
  stored_leaf l rows page is can whole,
  encode_leaf-layout l rows page is can whole,
  length-layout l rows page is can whole,
  decode-layout l rows page is can whole,
  stored_leaf-IsLeaf l rows page is can whole,
  refl,
  omega (arith, room-Exact l rows page is can whole, slots_rows l rows page is can whole),
)
