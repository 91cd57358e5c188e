-- ===== src/Page/Leaf/Links.antt =====
-- The methods of `LeafNode` (page.rs) that move records: they leave the links of a leaf alone.
use smol_db.Common.{
  ℕ, ◌+◌, ◌≡◌, refl, ap, ◌∙◌, Bool, false, arith, inl, inr, Bool-cases, Option-cases, ltb, List,
  length, get_elem?, take, drop, ◌/◌,
}
use smol_db.Error.Outcome.{Outcome, ok, err, panic, Run, try, or_panic}
use smol_db.Slice.{Position, found, insert_at}
use smol_db.Page.{Record, LeafNode, max_value_size, leaf_node_header_size}
use smol_db.Page.Leaf.{
  free_after, store_compacted, compact, compact_loop, nothing_kept, find_slot, record_at,
  set_record_at, insert_found, insert_new, insert_at_position, insert_record, footer_len,
  move_records, promoted_key, split,
}

pub record Links : Type 0 where
  pub page_id : ℕ
  pub has_prev : Bool
  pub prev_page_id : ℕ
  pub has_next : Bool
  pub next_page_id : ℕ

unfoldable pub links : LeafNode → Links
links l = record {
  page_id = l.page_id;
  has_prev = l.has_prev;
  prev_page_id = l.prev_page_id;
  has_next = l.has_next;
  next_page_id = l.next_page_id;
}

try-Always :
    {S A B : Type 0} (P : S → Type 0) (s : S) (o : Outcome A) (k : A → Run S B)
    → P s
    → ((a : A) → o ≡ ok a → P (k a).1)
    → P (try s o k).1
try-Always P s (ok a) k h next = next a refl
try-Always P s (err e) k h next = h
try-Always P s panic k h next = h

-- the leaf has the links of another
abbrev Linked : LeafNode → LeafNode → Type 0
Linked l l' = links l' ≡ links l

compact-Linked : (l : LeafNode) → Linked l (compact l).1
unfolding compact store_compacted links
compact-Linked l =
    try-Always (Linked l) l (compact_loop l.records l.slot_array nothing_kept) (store_compacted l)
      refl
      (λ c _. elim (Option-cases (free_after (leaf_node_header_size + c.bytes_used))) [
        | inl over ↦ rw (store_compacted, over) refl
        | inr (free, fits) ↦ rw (store_compacted, fits) refl
      ])

set_record_at-Linked :
    (l l' : LeafNode) (i : ℕ) (rec : Record) → set_record_at l i rec ≡ ok l' → Linked l l'
unfolding set_record_at links
set_record_at-Linked l l' i rec e = elim (Option-cases (get_elem? l.slot_array i)) [
  | inl out ↦ ground (arith, e, out)
  | inr (s, there) ↦ elim (Bool-cases (ltb s (length l.records))) [
    | inl inside ↦ ground (arith, e, there, inside)
    | inr out ↦ ground (arith, e, there, out)
  ]
]

insert_found-Linked :
    (i row_id : ℕ) (payload : List ℕ) (l : LeafNode) → Linked l (insert_found i row_id payload l).1
unfolding insert_found
insert_found-Linked i row_id payload l = try-Always (Linked l) l (record_at l i) _ refl (λ rec _.
    elim (Bool-cases rec.is_deleted) [
      | inl dead ↦ rw dead (
          try-Always (Linked l) l
            (set_record_at l i (record rec { is_deleted = false; payload = payload })) compact refl
            (λ l' e.
              compact-Linked l'
              ∙ set_record_at-Linked l l' i (record rec { is_deleted = false; payload = payload })
                  e))
      | inr live ↦ rw live refl
    ])

insert_new-Linked :
    (i row_id : ℕ) (payload : List ℕ) (l : LeafNode) → Linked l (insert_new i row_id payload l).1
unfolding insert_new links
insert_new-Linked i row_id payload l =
    try-Always (Linked l) l (footer_len l.records l.slot_array) _ refl (λ footer _. ground arith)

insert_at_position-Linked :
    (p : Position) (row_id : ℕ) (payload : List ℕ) (l : LeafNode)
    → Linked l (insert_at_position p row_id payload l).1
insert_at_position-Linked (found i) = insert_found-Linked i
insert_at_position-Linked (insert_at i) = insert_new-Linked i

pub insert_record-links :
    (row_id : ℕ) (payload : List ℕ) (l : LeafNode)
    → links (insert_record row_id payload l).1 ≡ links l
unfolding insert_record
insert_record-links row_id payload l = elim (Bool-cases (ltb max_value_size (length payload))) [
  | inl big ↦ rw (insert_record, big) refl
  | inr small ↦
      rw (insert_record, small)
        (try-Always (Linked l) l (find_slot l row_id) _ refl
          (λ p _. insert_at_position-Linked p row_id payload l))
]

promoted_key-left : (left right : LeafNode) → (promoted_key left right).1 ≡ (left, right)
unfolding promoted_key
promoted_key-left left right = elim (Option-cases (get_elem? right.slot_array 0)) [
  | inl empty ↦ rw (promoted_key, empty) refl
  | inr (first, there) ↦
      rw (promoted_key, there)
        (try-Always (λ s. s ≡ (left, right)) (left, right)
          (or_panic (get_elem? right.records first)) _ refl (λ rec _. refl))
]

-- A split leaves the links of the leaf alone.
pub split-links : (l sibling : LeafNode) → links (split l sibling).1.0 ≡ links l
unfolding split links
split-links l sibling =
    let P : LeafNode × LeafNode → Type 0 = λ s. Linked l s.0 in
    let mid = length l.slot_array / 2 in
    try-Always P (l, sibling) (move_records l.records (drop mid l.slot_array) sibling) _ refl
      (λ filled _.
        let halved = compact (record l { slot_array = take mid l.slot_array }) in
        let same : Linked l halved.1 =
          compact-Linked (record l { slot_array = take mid l.slot_array }) in
        try-Always P (halved.1, filled) halved.0 _ same
          (λ _ _.
            try-Always P (halved.1, (compact filled).1) (compact filled).0 _ same
              (λ _ _.
                ap (λ (s : LeafNode × LeafNode). links s.0)
                  (promoted_key-left halved.1 (compact filled).1)
                ∙ same)))
