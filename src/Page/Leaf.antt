-- ===== src/Page/Leaf.antt =====
-- The methods of `LeafNode` (page.rs). A method on `&mut self` returns its outcome beside the node
-- that it leaves. Vector lengths are far below 2 ^ 64, so `usize` sums do not wrap.
pub mod Rows
pub mod Edit
pub mod Compaction
pub mod Live
pub mod Replace
pub mod Insert
pub mod Change
pub mod Laws
pub mod Burst
pub mod Halves
pub mod Split
pub mod Links
mod Examples
use smol_db.Common.{
  ℕ, ◌+◌, ◌-◌, ◌*◌, ◌/◌, ◌%◌, ◌^◌, Ordering, compare, Bool, true, false, ◌||◌, List, [], ◌∷◌, ◌++◌,
  Option, none, some, ltb, leb, if◌then◌else◌, length, get_elem?, set, insert_elem, take, drop,
}
use smol_db.Error.{
  DbError, page_full, tuple_too_large, duplicate_key, key_not_found, corrupt_page,
  empty_right_sibling,
}
use smol_db.Error.Outcome.{Outcome, ok, err, panic, ◌>>=◌, or_panic, Run, try}
use smol_db.Slice.{Position, found, insert_at, binary_search_by_key}
use smol_db.Page.{
  Record, LeafNode, slot_elem_size, page_size, record_meta_size, max_value_size,
  leaf_node_header_size, max_leaf_node_cells,
}

-- `self.records[self.slot_array[i] as usize]`
unfoldable pub record_at : LeafNode → ℕ → Outcome Record
record_at l i = or_panic (get_elem? l.slot_array i) >>= λ s. or_panic (get_elem? l.records s)

pub record Compacted : Type 0 where
  pub clean_records : List Record
  pub new_slots : List ℕ
  pub bytes_used : ℕ

-- one round of the loop of `compact`
unfoldable pub keep_live : Record → Compacted → Compacted
keep_live rec acc = if rec.is_deleted then acc else record {
  clean_records = acc.clean_records ++ rec ∷ [];
  new_slots = acc.new_slots ++ ((length (acc.clean_records ++ rec ∷ []) - 1) % 2 ^ 16) ∷ [];
  bytes_used = acc.bytes_used + (record_meta_size + length rec.payload) + slot_elem_size;
}

unfoldable pub compact_loop : List Record → List ℕ → Compacted → Outcome Compacted
compact_loop records [] acc = ok acc
compact_loop records (old_slot_idx ∷ slots) acc =
    or_panic (get_elem? records old_slot_idx) >>= λ rec.
    compact_loop records slots (keep_live rec acc)

-- `none` is `unreachable!()`
unfoldable pub free_after : ℕ → Option ℕ
free_after net_size = elim (compare net_size page_size) [
  | Ordering.lt ↦ some ((page_size - net_size) % 2 ^ 16)
  | Ordering.eq ↦ some 0
  | Ordering.gt ↦ none
]

-- the end of `compact`, after its loop
unfoldable pub store_compacted : LeafNode → Compacted → Run LeafNode Unit
store_compacted l c =
    let l' = record l { records = c.clean_records; slot_array = c.new_slots } in
    elim (free_after (leaf_node_header_size + c.bytes_used)) [
      | some free ↦ (ok tt, record l' { free_size = free })
      | none ↦ (panic, l')
    ]

abbrev pub nothing_kept : Compacted
nothing_kept = record { clean_records = []; new_slots = []; bytes_used = 0 }

unfoldable pub compact : LeafNode → Run LeafNode Unit
compact l = try l (compact_loop l.records l.slot_array nothing_kept) (store_compacted l)

-- `self.slot_array.binary_search_by_key(&row_id, ..)`
unfoldable pub find_slot : LeafNode → ℕ → Outcome Position
find_slot l row_id =
    binary_search_by_key (length l.slot_array) row_id (λ i. record_at l i >>= λ r. ok r.row_id)

-- `self.records[self.slot_array[slot_idx] as usize] = rec`
unfoldable pub set_record_at : LeafNode → ℕ → Record → Outcome LeafNode
set_record_at l slot_idx rec = or_panic (get_elem? l.slot_array slot_idx) >>= λ s.
    if ltb s (length l.records) then ok (record l { records = set l.records s rec }) else panic

-- the `Ok` arm of `insert_record`: the key is there, live or as a tombstone
unfoldable pub insert_found : ℕ → ℕ → List ℕ → LeafNode → Run LeafNode Unit
insert_found slot_idx row_id payload l = try l (record_at l slot_idx) λ rec.
    if rec.is_deleted
    then try l (set_record_at l slot_idx (record rec { is_deleted = false; payload = payload }))
        compact
    else (err (duplicate_key row_id), l)

-- the sum of `RECORD_META_SIZE + data.len()` over the slots
unfoldable pub footer_len : List Record → List ℕ → Outcome ℕ
footer_len records [] = ok 0
footer_len records (s ∷ slots) = do
  rec ← or_panic (get_elem? records s)
  rest ← footer_len records slots
  ok (record_meta_size + length rec.payload + rest)

-- the `Err` arm of `insert_record`: a new key
unfoldable pub insert_new : ℕ → ℕ → List ℕ → LeafNode → Run LeafNode Unit
insert_new insert_idx row_id payload l =
    let required_bytes = slot_elem_size + record_meta_size + length payload in
    let header_len = leaf_node_header_size + (length l.slot_array + 1) * slot_elem_size in
    try l (footer_len l.records l.slot_array) λ footer.
      if ltb page_size (header_len + footer + required_bytes)
        || ltb max_leaf_node_cells (length l.slot_array)
      then (err page_full, l)
      else if ltb (length l.slot_array) insert_idx
      then (panic, l)
      else (
        ok tt,
        record l {
          records =
              l.records ++ (record { row_id = row_id; payload = payload; is_deleted = false }) ∷ [];
          slot_array = insert_elem l.slot_array insert_idx (length l.records % 2 ^ 16);
          free_size =
              if leb required_bytes l.free_size then l.free_size - required_bytes % 2 ^ 16 else 0;
        },
      )

abbrev pub insert_at_position : Position → ℕ → List ℕ → LeafNode → Run LeafNode Unit
insert_at_position (found slot_idx) = insert_found slot_idx
insert_at_position (insert_at insert_idx) = insert_new insert_idx

unfoldable pub insert_record : ℕ → List ℕ → LeafNode → Run LeafNode Unit
insert_record row_id payload l =
    if ltb max_value_size (length payload)
    then (err (tuple_too_large (length payload)), l)
    else try l (find_slot l row_id) λ p. insert_at_position p row_id payload l

-- `.map_err(|_| DbError::KeyNotFound(row_id))`
abbrev pub or_not_found : ℕ → Position → Outcome ℕ
or_not_found row_id (found i) = ok i
or_not_found row_id (insert_at i) = err (key_not_found row_id)

unfoldable pub update_record : ℕ → List ℕ → LeafNode → Run LeafNode Unit
update_record row_id payload l =
    if leb max_value_size (length payload)
    then (err (tuple_too_large (length payload)), l)
    else try l (find_slot l row_id >>= or_not_found row_id) λ update_idx.
      try l (record_at l update_idx) λ rec.
        try l (set_record_at l update_idx (record rec { payload = payload })) λ l'. (ok tt, l')

unfoldable pub delete_record : ℕ → LeafNode → Run LeafNode Unit
delete_record row_id l = try l (find_slot l row_id >>= or_not_found row_id) λ delete_idx.
    try l (record_at l delete_idx)
      λ rec. try l (set_record_at l delete_idx (record rec { is_deleted = true })) λ l'. (ok tt, l')

abbrev pub live_payload : Record → Option (List ℕ)
live_payload rec = if rec.is_deleted then none else some rec.payload

abbrev pub payload_at : LeafNode → Position → Outcome (Option (List ℕ))
payload_at l (found i) = record_at l i >>= λ rec. ok (live_payload rec)
payload_at l (insert_at i) = ok none

unfoldable pub get_record : LeafNode → ℕ → Outcome (Option (List ℕ))
get_record l row_id = find_slot l row_id >>= payload_at l

-- the loop of `split`: each record of the upper slots goes to the sibling
unfoldable pub move_records : List Record → List ℕ → LeafNode → Outcome LeafNode
move_records records [] sibling = ok sibling
move_records records (rec_idx ∷ slots) sibling = or_panic (get_elem? records rec_idx) >>= λ rec.
    let moved = sibling.records ++ rec ∷ [] in
    move_records records slots (record sibling {
      records = moved;
      slot_array = sibling.slot_array ++ ((length moved - 1) % 2 ^ 16) ∷ [];
    })

-- the end of `split`: the key of the first record of the sibling
unfoldable pub promoted_key : LeafNode → LeafNode → Run (LeafNode × LeafNode) ℕ
promoted_key left right = elim (get_elem? right.slot_array 0) [
  | none ↦ (err (corrupt_page empty_right_sibling), (left, right))
  | some first ↦
      try (left, right) (or_panic (get_elem? right.records first))
        λ rec. (ok rec.row_id, (left, right))
]

-- `LeafNode::split`; the state is the leaf and the sibling that it fills
unfoldable pub split : LeafNode → LeafNode → Run (LeafNode × LeafNode) ℕ
split l new_sibling =
    let mid = length l.slot_array / 2 in
    try (l, new_sibling) (move_records l.records (drop mid l.slot_array) new_sibling)
      λ sibling.
        let (left_done, left) = compact (record l { slot_array = take mid l.slot_array }) in
        try (left, sibling) left_done
          λ _.
            let (right_done, right) = compact sibling in
            try (left, right) right_done λ _. promoted_key left right
