-- ===== src/Page/Codec/Length.antt =====
-- `encode` (page.rs) neither grows nor shrinks the buffer of a page.
use smol_db.Common.{
  ℕ, ◌+◌, ◌-◌, ◌*◌, ◌%◌, ◌^◌, ◌≡◌, refl, subst, ◌++◌, inl, inr, Bool-cases, List, [], ◌∷◌, ltb,
  arith, length, length-append, length-take, length-drop, take, drop, get_elem?,
}
use smol_db.Error.Outcome.{ok, or_panic, Yields, bind-Yields, any-Yields}
use smol_db.Bytes.{to_le_bytes}
use smol_db.Page.{
  Page, Record, IndexEntry, LeafNode, InternalNode, BTreeNode, leaf, internal,
  leaf_node_header_size, slot_elem_size, page_size, internal_node_header_size, index_entry_size,
}
use smol_db.Page.Leaf.{footer_len}
use smol_db.Page.Cursor.{ByteCursor, open_cursor, write_bytes, write_uint, skip}
use smol_db.Page.Codec.{
  write_uints, write_cell, write_cells, write_entries, encode_leaf, encode_internal, encode,
  leaf_fields, internal_fields,
}

module _ (n : ℕ) where
  abbrev Sized : ByteCursor → Type 0
  Sized c = length c.buffer ≡ n

  abbrev SizedPage : Page → Type 0
  SizedPage page = length page.bytes ≡ n

  write_bytes-Sized : (val : List ℕ) (c : ByteCursor) → Sized c → Yields Sized (write_bytes val c)
  unfolding write_bytes
  write_bytes-Sized val c h = elim (Bool-cases (ltb (length c.buffer) (c.pos + length val))) [
    | inl over ↦ rw (write_bytes, over) tt
    | inr fits ↦
        let behind = val ++ drop (c.pos + length val) c.buffer in
        rw (write_bytes, fits)
          (ground (
            arith,
            h,
            fits,
            length-append (take c.pos c.buffer) behind,
            length-append val (drop (c.pos + length val) c.buffer),
            length-take c.pos c.buffer,
            length-drop (c.pos + length val) c.buffer,
          ))
  ]

  write_uints-Sized :
      (fields : List (ℕ × ℕ)) (c : ByteCursor) → Sized c → Yields Sized (write_uints fields c)
  unfolding write_uints write_uint
  write_uints-Sized [] c h = h
  write_uints-Sized ((width, val) ∷ fields) c h =
      bind-Yields Sized Sized (write_uint width val c) (write_uints fields)
        (write_bytes-Sized (to_le_bytes width val) c h) (write_uints-Sized fields)

  write_cell-Sized : (cell : Record) (c : ByteCursor) → Sized c → Yields Sized (write_cell cell c)
  unfolding write_cell
  write_cell-Sized cell c h =
      bind-Yields Sized Sized (write_uints _ c) (write_bytes cell.payload) (write_uints-Sized _ c h)
        (write_bytes-Sized cell.payload)

  write_cells-Sized :
      (records : List Record) (slots : List ℕ) (c : ByteCursor)
      → Sized c
      → Yields Sized (write_cells records slots c)
  unfolding write_cells
  write_cells-Sized records [] c h = h
  write_cells-Sized records (s ∷ slots) c h =
      bind-Yields (λ _. Unit {0}) Sized (or_panic (get_elem? records s)) _ (any-Yields _)
        (λ cell _.
          bind-Yields Sized Sized (write_cell cell c) _ (write_cell-Sized cell c h)
            (write_cells-Sized records slots))

  write_entries-Sized :
      (entries : List IndexEntry) (slots : List ℕ) (c : ByteCursor)
      → Sized c
      → Yields Sized (write_entries entries slots c)
  unfolding write_entries
  write_entries-Sized entries [] c h = h
  write_entries-Sized entries (s ∷ slots) c h =
      bind-Yields (λ _. Unit {0}) Sized (or_panic (get_elem? entries s)) _ (any-Yields _)
        (λ cell _.
          bind-Yields Sized Sized (write_uints _ c) _ (write_uints-Sized _ c h)
            (write_entries-Sized entries slots))

  encode_leaf-Sized :
      (node : LeafNode) (page : Page) → SizedPage page → Yields SizedPage (encode_leaf node page)
  unfolding encode_leaf open_cursor skip
  encode_leaf-Sized node page h =
      bind-Yields (λ _. Unit {0}) SizedPage (footer_len node.records node.slot_array) _
        (any-Yields _)
        (λ footer _.
          let header_len = leaf_node_header_size + length node.slot_array * slot_elem_size in
          let free = (page_size - header_len - footer) % 2 ^ 16 in
          elim (Bool-cases (ltb page_size (header_len + footer))) [
            | inl over ↦ rw over tt
            | inr fits ↦ rw fits (
                bind-Yields Sized SizedPage (write_uints (leaf_fields node free) _) _
                  (write_uints-Sized (leaf_fields node free) _ h)
                  (λ c sized.
                    bind-Yields Sized SizedPage
                      (write_cells node.records node.slot_array (skip free c)) _
                      (write_cells-Sized node.records node.slot_array (skip free c) sized)
                      (λ c1 sized. sized)))
          ])

  encode_internal-Sized :
      (node : InternalNode) (page : Page)
      → SizedPage page
      → Yields SizedPage (encode_internal node page)
  unfolding encode_internal open_cursor skip
  encode_internal-Sized node page h =
      let header_len = internal_node_header_size + length node.slot_array * slot_elem_size in
      let footer = length node.slot_array * index_entry_size in
      let free = (page_size - header_len - footer) % 2 ^ 16 in
      elim (Bool-cases (ltb page_size (header_len + footer))) [
        | inl over ↦ rw over tt
        | inr fits ↦ rw fits (
            bind-Yields Sized SizedPage (write_uints (internal_fields node free) _) _
              (write_uints-Sized (internal_fields node free) _ h)
              (λ c sized.
                bind-Yields Sized SizedPage
                  (write_entries node.entries node.slot_array (skip free c)) _
                  (write_entries-Sized node.entries node.slot_array (skip free c) sized)
                  (λ c1 sized. sized)))
      ]

pub length-encode :
    (node : BTreeNode) (page page' : Page)
    → encode node page ≡ ok page'
    → length page'.bytes ≡ length page.bytes
unfolding encode
length-encode (leaf node) page page' e =
    subst (Yields (SizedPage (length page.bytes))) e
      (encode_leaf-Sized (length page.bytes) node page refl)
length-encode (internal node) page page' e =
    subst (Yields (SizedPage (length page.bytes))) e
      (encode_internal-Sized (length page.bytes) node page refl)
