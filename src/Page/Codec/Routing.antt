-- ===== src/Page/Codec/Routing.antt =====
-- An internal node that `BTreeNode::encode` has written is read back by `BTreeNode::decode` (page.rs).
use smol_db.Common.{
  ℕ, ◌+◌, ◌-◌, ◌*◌, ◌%◌, ◌^◌, ◌≤◌, ◌<◌, ◌≡◌, refl, sym, ◌∙◌, false, List, [], ◌++◌, append_assoc,
  arith, le→ltb, length, length-append, length-take, length-drop, take, drop, drop_all, replicate,
  length-replicate, All,
}
use smol_db.Bytes.{to_le_bytes}
use smol_db.Error.Outcome.{ok}
use smol_db.Page.{
  Page, page_size, slot_elem_size, index_entry_size, internal_node_header_size, IndexEntry,
  InternalNode, internal,
}
use smol_db.Page.Slots.{length-Reads, scatter, Reads-scatter, slots-Bound}
use smol_db.Page.Internal.{IsInternal, route_key, route_key-child_for}
use smol_db.Page.Cursor.{open_cursor, read_uint-between}
use smol_db.Page.Codec.{
  internal_fields, encode_internal, encode, default_entry, decode_kind, decode,
}
use smol_db.Page.Codec.Bytes.{uints, write_uints-between, skip-between}
use smol_db.Page.Codec.Entries.{
  entries_bytes, length-entries_bytes, write_entries-between, IsEntryField, decode_internal-flat,
  internal_fields-flat, length-internal_fields,
}

-- the integers of the node fit their machine types, every entry has a slot, and all fits a page
pub record IsStorableNode (node : InternalNode) (es : List IndexEntry) : Type 0 where
  pub page_id : node.page_id < 2 ^ 64
  pub last_lsn : node.last_lsn < 2 ^ 64
  pub rightmost : node.rightmost_child_id < 2 ^ 64
  pub stored : All IsEntryField es
  pub full : length node.entries ≡ length es
  pub fits :
      internal_node_header_size + length es * slot_elem_size + length es * index_entry_size
      ≤ page_size

module _ (node : InternalNode) (es : List IndexEntry) (page : Page) (is : IsInternal node es)
    (can : IsStorableNode node es) (whole : length page.bytes ≡ page_size) where
  -- `free_size` as `encode` computes it
  abbrev room : ℕ
  room =
      (page_size
        - (internal_node_header_size + length node.slot_array * slot_elem_size)
        - length node.slot_array * index_entry_size)
      % 2 ^ 16

  abbrev header : List ℕ
  header = uints (internal_fields node room)

  abbrev gap : List ℕ
  gap = take room (drop (length header) page.bytes)

  slots_entries : length node.slot_array ≡ length es
  slots_entries = length-Reads node.entries node.slot_array es is.reads

  room-Exact :
      internal_node_header_size
        + length node.slot_array * slot_elem_size
        + room
        + length (entries_bytes es)
      ≡ page_size
  room-Exact = omega (arith, can.fits, slots_entries, length-entries_bytes es)

  length-gap : length gap ≡ room
  length-gap = omega (
    arith,
    room-Exact,
    whole,
    length-internal_fields node room,
    length-take room (drop (length header) page.bytes),
    length-drop (length header) page.bytes,
  )

  -- the bytes of the page behind the header
  abbrev body : List ℕ
  body = gap ++ (entries_bytes es ++ [])

  length-rest : length (drop room (drop (length header) page.bytes)) ≡ length (entries_bytes es)
  length-rest = omega (
    arith,
    room-Exact,
    whole,
    length-internal_fields node room,
    length-drop (length header) page.bytes,
    length-drop room (drop (length header) page.bytes),
  )

  encode_internal-layout : encode_internal node page ≡ ok (record { bytes = header ++ body })
  unfolding encode_internal open_cursor
  encode_internal-layout =
      let rest = drop (length header) page.bytes in
      rw
        (
          le→ltb page_size
              (internal_node_header_size
                + length node.slot_array * slot_elem_size
                + length node.slot_array * index_entry_size)
              (omega (arith, can.fits, slots_entries)),
          write_uints-between (internal_fields node room) [] page.bytes
              (omega (arith, room-Exact, whole, length-internal_fields node room)),
          skip-between room header rest (
              omega (
                arith,
                room-Exact,
                whole,
                length-internal_fields node room,
                length-drop (length header) page.bytes,
              )),
          write_entries-between node.entries node.slot_array es (header ++ gap) (drop room rest)
              is.reads (omega (arith, length-rest)),
          drop_all (length (entries_bytes es)) (drop room rest) (omega (arith, length-rest)),
          append_assoc (header ++ gap) (entries_bytes es) [],
          append_assoc header gap (entries_bytes es ++ []),
        )
        refl

  length-layout : length (header ++ body) ≡ page_size
  length-layout = omega (
    arith,
    room-Exact,
    length-append header body,
    length-append gap (entries_bytes es ++ []),
    length-append (entries_bytes es) [],
    length-internal_fields node room,
    length-gap,
  )

  abbrev count : ℕ
  count = length node.slot_array % 2 ^ 32

  count-Exact : count ≡ length node.slot_array
  count-Exact = omega (arith, slots_entries, can.fits)

  -- the node that is read back
  abbrev stored_node : InternalNode
  stored_node = record node {
    entries = scatter node.slot_array es (replicate count default_entry);
    free_size = room;
    is_dirty = false;
  }

  inside : All (λ s. s < length (replicate count default_entry)) node.slot_array
  inside =
      slots-Bound node.entries node.slot_array es _ is.reads
        (omega (arith, can.full, length-replicate count default_entry, count-Exact, slots_entries))

  stored_node-IsInternal : IsInternal stored_node es
  stored_node-IsInternal = record {
    reads =
        Reads-scatter (λ (e : IndexEntry). e.key) node.entries node.slot_array es
          (replicate count default_entry) is.reads is.ascending inside;
    ascending = is.ascending;
  }

  decode_internal-layout : decode (record { bytes = header ++ body }) ≡ ok (internal stored_node)
  unfolding decode open_cursor decode_kind
  decode_internal-layout =
      rw
        (
          internal_fields-flat node room body,
          read_uint-between 1 0 [] _ (omega arith),
          decode_internal-flat node.page_id node.last_lsn node.rightmost_child_id count room
              node.slot_array gap (to_le_bytes 1 0) es (omega (arith, can.page_id))
              (omega (arith, can.last_lsn)) (omega (arith, can.rightmost)) (omega arith)
              (omega (arith, room-Exact)) count-Exact slots_entries (sym length-gap)
              (slots-Bound node.entries node.slot_array es (2 ^ 16) is.reads
                (omega (arith, can.full, can.fits)))
              inside can.stored,
        )
        refl

-- An internal node with ascending keys that fits a page is written over any page, and what is read
-- back is a node of the same entries, in the same order, that routes every key to the same child: it
-- differs at most in the place of its entries, in `free_size` and in `is_dirty`, which is false.
pub decode-encode-internal :
    (node : InternalNode) (es : List IndexEntry) (page : Page) (target_key : ℕ)
    → IsInternal node es
    → IsStorableNode node es
    → length page.bytes ≡ page_size
    → (p : Page) × (node' : InternalNode) × (encode (internal node) page ≡ ok p)
      × (length p.bytes ≡ page_size)
      × (decode p ≡ ok (internal node'))
      × IsInternal node' es
      × (node'
          ≡ record node { entries = node'.entries; free_size = node'.free_size; is_dirty = false })
      × (route_key node' target_key ≡ route_key node target_key)
unfolding encode
decode-encode-internal node es page target_key is can whole =
    let is' = stored_node-IsInternal node es page is can whole in
    (
      _,
      stored_node node es page is can whole,
      encode_internal-layout node es page is can whole,
      length-layout node es page is can whole,
      decode_internal-layout node es page is can whole,
      is',
      refl,
      route_key-child_for _ es target_key is' ∙ sym (route_key-child_for node es target_key is),
    )
