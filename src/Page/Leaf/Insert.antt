-- ===== src/Page/Leaf/Insert.antt =====
-- `insert_record` on every branch.
use smol_db.Common.{
  ℕ, zero, suc, ◌+◌, ◌*◌, ◌%◌, ◌^◌, ◌≤◌, ◌<◌, ◌≡◌, refl, sym, ap, subst, ◌∙◌, Bool, true, false,
  ◌||◌, inl, inr, List, [], ◌∷◌, ◌++◌, none, some, arith, ltb, ltb→lt, le→ltb, dec_lt, length-map,
  ◌==◌, if◌then◌else◌, Bool-cases, length, length-append, length-insert_elem, get_elem?, set,
  insert_elem,
}
use mathlib.Core.Option.{some-injective}
use smol_db.Error.{page_full, tuple_too_large, duplicate_key}
use smol_db.Error.Outcome.{Outcome, ok, err, panic, Run, try}
use smol_db.Slice.{insert_at}
use smol_db.Slice.Locate.{IsPlace, IsPlace-ne}
use smol_db.Page.{
  Record, LeafNode, slot_elem_size, page_size, record_meta_size, max_value_size,
  leaf_node_header_size, max_leaf_node_cells,
}
use smol_db.Page.Leaf.{
  live_payload, footer_len, find_slot, insert_found, insert_new, insert_at_position, insert_record,
  compact,
}
use smol_db.Page.Leaf.Rows.{
  Reads, row_ids, live_row, live_row_hit, live_row_absent, length-Reads, IsLeaf, Place, hit, miss,
  place, record_at-row,
}
use smol_db.Page.Leaf.Edit.{
  live_row-set, Reads-insert, live_row-insert, row_ids-insert, insert-IsAscending,
}
use smol_db.Page.Leaf.Replace.{set_record_at-row}
use smol_db.Page.Leaf.Compaction.{live_rows, bytes_of, net_size, compact_fits, compact_overflow}
use smol_db.Page.Leaf.Live.{live_row-live_rows, compacted-IsLeaf}

abbrev fresh : ℕ → List ℕ → Record
fresh row_id payload = record { row_id = row_id; payload = payload; is_deleted = false }

-- the footer of `rows`, without their slots
abbrev footer_of : List Record → ℕ
footer_of [] = 0
footer_of (r ∷ rows) = record_meta_size + length r.payload + footer_of rows

pub footer_len-Reads :
    (records : List Record) (slots : List ℕ) (rows : List Record)
    → Reads records slots rows
    → footer_len records slots ≡ ok (footer_of rows)
unfolding footer_len
footer_len-Reads records [] [] h = refl
footer_len-Reads records [] (r ∷ rows) h = absurd h
footer_len-Reads records (s ∷ slots) [] h = absurd h
footer_len-Reads records (s ∷ slots) (r ∷ rows) h =
    rw (h.0, footer_len-Reads records slots rows h.1)

pub footer_of-bytes_of :
    (rows : List Record) → footer_of rows + length rows * slot_elem_size ≡ bytes_of rows
footer_of-bytes_of [] = omega arith
footer_of-bytes_of (r ∷ rows) = omega (arith, footer_of-bytes_of rows)

-- what `insert_record` leaves, with the reason of each outcome
pub data Inserted (row_id : ℕ) (payload : List ℕ) (l : LeafNode) (rows : List Record)
    : Run LeafNode Unit → Type 0 where
  stored :
      (l' : LeafNode) (rows' : List Record)
      → IsLeaf l' rows'
      → ((k : ℕ) → live_row k rows' ≡ (if row_id == k then some payload else live_row k rows))
      → net_size rows' ≤ page_size
      → Inserted row_id payload l rows (ok tt, l')
  too_large :
      max_value_size < length payload
      → Inserted row_id payload l rows (err (tuple_too_large (length payload)), l)
  duplicate :
      (old : List ℕ)
      → live_row row_id rows ≡ some old
      → Inserted row_id payload l rows (err (duplicate_key row_id), l)
  full :
      live_row row_id rows ≡ none
      → page_size < net_size rows + 2 * slot_elem_size + record_meta_size + length payload
      → Inserted row_id payload l rows (err page_full, l)
  -- a tombstone is given a payload for which the live rows leave no room
  burst :
      (l' : LeafNode)
      → live_row row_id rows ≡ none
      → page_size < net_size (live_rows rows) + slot_elem_size + record_meta_size + length payload
      → Inserted row_id payload l rows (panic, l')

bytes_of-insert :
    (rows : List Record) (i : ℕ) (rec : Record)
    → bytes_of (insert_elem rows i rec)
      ≡ slot_elem_size + record_meta_size + length rec.payload + bytes_of rows
bytes_of-insert rows zero rec = refl
bytes_of-insert [] (suc i) rec = refl
bytes_of-insert (r ∷ rows) (suc i) rec = omega (arith, bytes_of-insert rows i rec)

length-le-bytes_of : (rows : List Record) → length rows * 15 ≤ bytes_of rows
length-le-bytes_of [] = omega arith
length-le-bytes_of (r ∷ rows) = omega (arith, length-le-bytes_of rows)

pub bytes_of-revive :
    (rows : List Record) (i : ℕ) (r r' : Record)
    → get_elem? rows i ≡ some r
    → r.is_deleted ≡ true
    → r'.is_deleted ≡ false
    → bytes_of (live_rows (set rows i r'))
      ≡ slot_elem_size + record_meta_size + length r'.payload + bytes_of (live_rows rows)
bytes_of-revive [] i r r' row gone live = ground arith
bytes_of-revive (q ∷ rows) zero r r' row gone live =
    let e : q.is_deleted ≡ true =
      ap (λ (x : Record). x.is_deleted) (some-injective _ _ row) ∙ gone in
    ground (arith, e)
bytes_of-revive (q ∷ rows) (suc i) r r' row gone live =
    ground (arith, bytes_of-revive rows i r r' row gone live)

-- the test of `insert_record` for room
abbrev no_room : LeafNode → List Record → List ℕ → Bool
no_room l rows payload =
    ltb page_size (
      leaf_node_header_size
      + (length l.slot_array + 1) * slot_elem_size
      + footer_of rows
      + (slot_elem_size + record_meta_size + length payload))
    || ltb max_leaf_node_cells (length l.slot_array)

module _ (row_id : ℕ) (payload : List ℕ) (l : LeafNode) (rows : List Record)
    (is : IsLeaf l rows) where
  slots_of_rows : length l.slot_array ≡ length rows
  slots_of_rows = length-Reads _ _ _ is.reads

  no_room-full :
      no_room l rows payload ≡ true
      → page_size < net_size rows + 2 * slot_elem_size + record_meta_size + length payload
  no_room-full h = ground (arith, slots_of_rows, footer_of-bytes_of rows, length-le-bytes_of rows)

  room-fits :
      no_room l rows payload ≡ false
      → net_size rows + 2 * slot_elem_size + record_meta_size + length payload ≤ page_size
  room-fits h = ground (arith, slots_of_rows, footer_of-bytes_of rows)

  module _ (i : ℕ) (at : IsPlace (row_ids rows) row_id (insert_at i)) where
    absent : live_row row_id rows ≡ none
    absent = live_row_absent rows row_id (IsPlace-ne (row_ids rows) row_id i at)

    insert_new-IsLeaf :
        (free : ℕ)
        → net_size rows + 2 * slot_elem_size + record_meta_size + length payload ≤ page_size
        → IsLeaf
            (record l {
              records = l.records ++ fresh row_id payload ∷ [];
              slot_array = insert_elem l.slot_array i (length l.records % 2 ^ 16);
              free_size = free;
            })
            (insert_elem rows i (fresh row_id payload))
    insert_new-IsLeaf free fits =
        let few : length rows * 15 ≤ bytes_of rows = length-le-bytes_of rows in
        let same : length l.records % 2 ^ 16 ≡ length l.records = omega (arith, is.full) in
        record {
          reads =
              rw same (Reads-insert l.records (fresh row_id payload) l.slot_array rows i is.reads);
          ascending =
              rw row_ids-insert (insert-IsAscending (row_ids rows) i row_id is.ascending at);
          full = omega (
            arith,
            is.full,
            length-append l.records (fresh row_id payload ∷ []),
            length-insert_elem rows i (fresh row_id payload),
          );
          small = omega (arith, length-insert_elem rows i (fresh row_id payload));
        }

    insert_new-Inserted : Inserted row_id payload l rows (insert_new i row_id payload l)
    unfolding insert_new
    insert_new-Inserted =
        rw (footer_len-Reads _ _ _ is.reads) (elim (Bool-cases (no_room l rows payload)) [
          | inl over ↦ rw over (full absent (no_room-full over))
          | inr fits ↦
              let inside : ltb (length l.slot_array) i ≡ false =
                le→ltb _ _ (omega (arith, slots_of_rows, at.0, length-map rows (λ r. r.row_id))) in
              rw (fits, inside)
                (stored _ (insert_elem rows i (fresh row_id payload))
                  (insert_new-IsLeaf _ (room-fits fits))
                  (λ k. live_row-insert k rows i (fresh row_id payload) at.1)
                  (omega (arith, room-fits fits, bytes_of-insert rows i (fresh row_id payload))))
        ])

  module _ (i : ℕ) (r : Record) (row : get_elem? rows i ≡ some r) (same : r.row_id ≡ row_id) where
    -- the row with the payload given anew
    abbrev revived : Record
    revived = record r { is_deleted = false; payload = payload }

    found_row : live_row row_id rows ≡ live_payload r
    found_row = rw same at (live_row_hit rows i is.ascending row)

    revived_row :
        (k : ℕ)
        → live_row k (set rows i revived) ≡ (if row_id == k then some payload else live_row k rows)
    revived_row k =
        subst
          (λ (n : ℕ).
            live_row k (set rows i revived) ≡ (if n == k then some payload else live_row k rows))
          same (live_row-set k rows i revived is.ascending row refl)

    revive-Inserted :
        (l' : LeafNode)
        → r.is_deleted ≡ true
        → IsLeaf l' (set rows i revived)
        → Inserted row_id payload l rows (compact l')
    revive-Inserted l' gone is' =
        elim (dec_lt page_size (net_size (live_rows (set rows i revived)))) [
          | yes over ↦
              let e : (compact l').0 ≡ panic = compact_overflow l' _ is'.reads is'.small over in
              subst (λ (o : Outcome Unit). Inserted row_id payload l rows (o, (compact l').1))
                (sym e)
                (burst _ (rw found_row (simp gone))
                  (omega (arith, bytes_of-revive rows i r revived row gone refl)))
          | no fits ↦
              let (slots, e, reads) = compact_fits l' _ is'.reads is'.small (omega arith) in
              rw e (
                stored _ (live_rows (set rows i revived)) (compacted-IsLeaf is' slots reads)
                  (λ k. live_row-live_rows k _ is'.ascending ∙ revived_row k) (omega arith))
        ]

    insert_found-Inserted : Inserted row_id payload l rows (insert_found i row_id payload l)
    unfolding insert_found
    insert_found-Inserted = rw (record_at-row is i row) (elim (Bool-cases r.is_deleted) [
      | inl gone ↦
          let (records, e, is') = set_record_at-row l rows is i r revived row refl in
          simp (gone, e) (revive-Inserted _ gone is')
      | inr live ↦ simp live (duplicate r.payload (rw found_row (simp live)))
    ])

  insert_at-Place :
      Place l rows row_id
      → Inserted row_id payload l rows
          (try l (find_slot l row_id) λ p. insert_at_position p row_id payload l)
  insert_at-Place (hit i r e row same) = rw e (insert_found-Inserted i r row same)
  insert_at-Place (miss i e at) = rw e (insert_new-Inserted i at)

  insert-Place :
      Place l rows row_id → Inserted row_id payload l rows (insert_record row_id payload l)
  unfolding insert_record
  insert-Place p = elim (Bool-cases (ltb max_value_size (length payload))) [
    | inl big ↦ rw big (too_large (ltb→lt _ _ big))
    | inr fits ↦ rw fits (insert_at-Place p)
  ]

-- Every outcome of `insert_record` on a well-formed leaf is one of these.
pub insert_record-Inserted :
    (row_id : ℕ) (payload : List ℕ) {l : LeafNode} {rows : List Record}
    → IsLeaf l rows
    → Inserted row_id payload l rows (insert_record row_id payload l)
insert_record-Inserted row_id payload is = insert-Place row_id payload _ _ is (place is row_id)
