-- ===== src/Tree/Halves.antt =====
-- The split of a full leaf in `insert_leaf` (bptree.rs): no row is lost, and the new one is found.
use smol_db.Common.{
  ℕ, ◌≤◌, ◌≡◌, ap, subst, inl, inr, Bool-cases, true, false, ltb, ◌==◌, if◌then◌else◌, List, [],
  some, arith,
}
use smol_db.Error.Outcome.{ok, Run}
use smol_db.Error.Method.{go_on, go_on-ok, return}
use smol_db.Page.{Record, LeafNode, page_size}
use smol_db.Page.Leaf.{insert_record, get_record, split}
use smol_db.Page.Leaf.Rows.{IsLeaf}
use smol_db.Page.Leaf.Compaction.{net_size}
use smol_db.Page.Leaf.Laws.{get_record-insert_record, insert_record-IsLeaf}
use smol_db.Page.Leaf.Split.{get_record-split}
use smol_db.Tree.{split_insert, insert_half}

-- the run of a row's insertion, with the key that it is returned with
stored_in :
    (row_id key promoted : ℕ) (payload : List ℕ) (l l' : LeafNode)
    → go_on (insert_record row_id payload l) (λ _. return key) ≡ (ok promoted, l')
    → (insert_record row_id payload l ≡ (ok tt, l')) × (key ≡ promoted)
stored_in row_id key promoted payload l l' e =
    let (_, s, run, last) =
      go_on-ok (insert_record row_id payload l) (λ _. return key) promoted l' e in
    (
      subst (λ x. insert_record row_id payload l ≡ (ok tt, x))
          (ap (λ (r : Run LeafNode ℕ). r.1) last) run,
      cc (ap (λ (r : Run LeafNode ℕ). r.0) last),
    )

module _ (row_id key promoted : ℕ) (payload : List ℕ) (l1 r1 left right : LeafNode) where
  insert_half_low :
      ltb row_id key ≡ true
      → insert_half row_id payload key (l1, r1) ≡ (ok promoted, (left, right))
      → (insert_record row_id payload l1 ≡ (ok tt, left)) × (key ≡ promoted) × (r1 ≡ right)
  unfolding insert_half
  insert_half_low below =
      rw (insert_half, below)
        (λ e.
          let (stored, same) =
            stored_in row_id key promoted payload l1 left
              (ap (λ (r : Run (LeafNode × LeafNode) ℕ). (r.0, r.1.0)) e) in
          (stored, same, ap (λ (r : Run (LeafNode × LeafNode) ℕ). r.1.1) e))

  insert_half_high :
      ltb row_id key ≡ false
      → insert_half row_id payload key (l1, r1) ≡ (ok promoted, (left, right))
      → (insert_record row_id payload r1 ≡ (ok tt, right)) × (key ≡ promoted) × (l1 ≡ left)
  unfolding insert_half
  insert_half_high above =
      rw (insert_half, above)
        (λ e.
          let (stored, same) =
            stored_in row_id key promoted payload r1 right
              (ap (λ (r : Run (LeafNode × LeafNode) ℕ). (r.0, r.1.1)) e) in
          (stored, same, ap (λ (r : Run (LeafNode × LeafNode) ℕ). r.1.0) e))

-- lookups through a key that divides two maps, one of which has changed at an id
chosen_low :
    {A : Type 0} (row_id key k : ℕ) (new old low low' high : A)
    → ltb row_id key ≡ true
    → old ≡ (if ltb k key then low else high)
    → low' ≡ (if row_id == k then new else low)
    → (if ltb k key then low' else high) ≡ (if row_id == k then new else old)
chosen_low row_id key k new old low low' high below before after = elim (Bool-cases (row_id == k)) [
  | inl same ↦ ground (arith, below, before, after, same)
  | inr other ↦ ground (arith, below, before, after, other)
]

chosen_high :
    {A : Type 0} (row_id key k : ℕ) (new old low high high' : A)
    → ltb row_id key ≡ false
    → old ≡ (if ltb k key then low else high)
    → high' ≡ (if row_id == k then new else high)
    → (if ltb k key then low else high') ≡ (if row_id == k then new else old)
chosen_high row_id key k new old low high high' above before after =
    elim (Bool-cases (row_id == k)) [
      | inl same ↦ ground (arith, above, before, after, same)
      | inr other ↦ ground (arith, above, before, after, other)
    ]

module _ (l : LeafNode) (row_id : ℕ) (payload : List ℕ) where
  -- both leaves are well formed, and the pair finds the new row and every old one
  abbrev pub Holds : ℕ → LeafNode → LeafNode → Type 0
  Holds promoted left right =
      ((lows : List Record) × IsLeaf left lows)
      × ((highs : List Record) × IsLeaf right highs)
      × ((k : ℕ)
          → (if ltb k promoted then get_record left k else get_record right k)
            ≡ (if row_id == k then ok (some payload) else get_record l k))

  -- `insert_half`, where the split has kept every row
  half-Holds :
      (key promoted : ℕ) (l1 r1 left right : LeafNode) (lows highs : List Record)
      → IsLeaf l1 lows
      → IsLeaf r1 highs
      → ((k : ℕ) → get_record l k ≡ (if ltb k key then get_record l1 k else get_record r1 k))
      → insert_half row_id payload key (l1, r1) ≡ (ok promoted, (left, right))
      → Holds promoted left right
  half-Holds key promoted l1 r1 left right lows highs low high kept e =
      elim (Bool-cases (ltb row_id key)) [
        | inl below ↦
            let (stored, same, right_same) =
              insert_half_low row_id key promoted payload l1 r1 left right below e in
            let (lows', is, _) = insert_record-IsLeaf low row_id payload stored in
            subst (λ r. Holds promoted left r) right_same
              (subst (λ n. Holds n left r1) same
                (
                  (lows', is),
                  (highs, high),
                  λ k.
                      chosen_low row_id key k (ok (some payload)) (get_record l k) (get_record l1 k)
                        (get_record left k) (get_record r1 k) below (kept k)
                        (get_record-insert_record low row_id payload stored k),
                ))
        | inr above ↦
            let (stored, same, left_same) =
              insert_half_high row_id key promoted payload l1 r1 left right above e in
            let (highs', is, _) = insert_record-IsLeaf high row_id payload stored in
            subst (λ x. Holds promoted x right) left_same
              (subst (λ n. Holds n l1 right) same
                (
                  (lows, low),
                  (highs', is),
                  λ k.
                      chosen_high row_id key k (ok (some payload)) (get_record l k)
                        (get_record l1 k) (get_record r1 k) (get_record right k) above (kept k)
                        (get_record-insert_record high row_id payload stored k),
                ))
      ]

-- Where a well-formed leaf that fits its page splits into an empty one and the row is then stored,
-- both leaves are well formed; below the promoted key the left one and from it on the right one find
-- the new payload under its id and what the leaf held under every other id.
pub get_record-split_insert :
    (l sibling : LeafNode) (rows : List Record) (row_id promoted : ℕ) (payload : List ℕ)
    (left right : LeafNode)
    → IsLeaf l rows
    → net_size rows ≤ page_size
    → sibling.records ≡ []
    → sibling.slot_array ≡ []
    → split_insert row_id payload (l, sibling) ≡ (ok promoted, (left, right))
    → Holds l row_id payload promoted left right
unfolding split_insert
get_record-split_insert l sibling rows row_id promoted payload left right is fits empty unused e =
    let (key, (l1, r1), halved, stored) =
      go_on-ok (split l sibling) (insert_half row_id payload) promoted (left, right) e in
    let ((lows, low), (highs, high), kept) =
      get_record-split l sibling rows is fits empty unused key halved in
    half-Holds l row_id payload key promoted l1 r1 left right lows highs low high kept stored
