-- ===== src/Page/Leaf/Halves.antt =====
-- Rows cut in two, and lookups in the parts.
use smol_db.Common.{
  ℕ, zero, suc, ◌≤◌, ◌<◌, ◌≡◌, refl, sym, ap, subst, ◌∙◌, List, [], ◌∷◌, ◌++◌, none, arith, ltb,
  ltb→lt, if◌then◌else◌, Bool-cases, inl, inr, take, drop, IsAscending, All,
}
use smol_db.Page.{Record}
use smol_db.Page.Leaf.Rows.{Reads, row_ids, live_row}
use smol_db.Page.Leaf.Compaction.{live_rows}
use smol_db.Page.Leaf.Live.{
  All-live_rows, live_row-above, live_row-live_rows, live_rows-IsAscending,
}

pub Reads-take :
    (records : List Record) (n : ℕ) (slots : List ℕ) (rows : List Record)
    → Reads records slots rows
    → Reads records (take n slots) (take n rows)
Reads-take records zero slots rows h = tt
Reads-take records (suc n) [] [] h = tt
Reads-take records (suc n) [] (r ∷ rows) h = absurd h
Reads-take records (suc n) (s ∷ slots) [] h = absurd h
Reads-take records (suc n) (s ∷ slots) (r ∷ rows) h = (h.0, Reads-take records n slots rows h.1)

pub Reads-drop :
    (records : List Record) (n : ℕ) (slots : List ℕ) (rows : List Record)
    → Reads records slots rows
    → Reads records (drop n slots) (drop n rows)
Reads-drop records zero slots rows h = h
Reads-drop records (suc n) [] [] h = tt
Reads-drop records (suc n) [] (r ∷ rows) h = absurd h
Reads-drop records (suc n) (s ∷ slots) [] h = absurd h
Reads-drop records (suc n) (s ∷ slots) (r ∷ rows) h = Reads-drop records n slots rows h.1

All-left {ℓ} :
    (P : ℕ → Type ℓ) (xs ys : List Record) → All P (row_ids (xs ++ ys)) → All P (row_ids xs)
All-left P [] ys h = tt
All-left P (x ∷ xs) ys h = (h.0, All-left P xs ys h.1)

All-right {ℓ} :
    (P : ℕ → Type ℓ) (xs ys : List Record) → All P (row_ids (xs ++ ys)) → All P (row_ids ys)
All-right P [] ys h = h
All-right P (x ∷ xs) ys h = All-right P xs ys h.1

pub IsAscending-left :
    (xs ys : List Record) → IsAscending (row_ids (xs ++ ys)) → IsAscending (row_ids xs)
IsAscending-left [] ys a = tt
IsAscending-left (x ∷ xs) ys a =
    (All-left (λ j. x.row_id < j) xs ys a.0, IsAscending-left xs ys a.1)

pub IsAscending-right :
    (xs ys : List Record) → IsAscending (row_ids (xs ++ ys)) → IsAscending (row_ids ys)
IsAscending-right [] ys a = a
IsAscending-right (x ∷ xs) ys a = IsAscending-right xs ys a.1

-- the ids of the left part are below the first live id of the right part
below_first :
    (xs ys : List Record) (r : Record) (rest : List Record)
    → IsAscending (row_ids (xs ++ ys))
    → live_rows ys ≡ r ∷ rest
    → All (λ j. j < r.row_id) (row_ids xs)
below_first [] ys r rest a e = tt
below_first (x ∷ xs) ys r rest a e = (
  (subst (λ (l : List Record). All (λ j. x.row_id < j) (row_ids l)) e
      (All-live_rows (λ j. x.row_id < j) ys (All-right (λ j. x.row_id < j) xs ys a.0))).0,
  below_first xs ys r rest a.1 e,
)

live_row_left :
    (k : ℕ) (xs ys : List Record) → live_row k ys ≡ none → live_row k (xs ++ ys) ≡ live_row k xs
live_row_left k [] ys e = e
live_row_left k (x ∷ xs) ys e = ground (arith, live_row_left k xs ys e)

live_row_right :
    (k n : ℕ) (xs ys : List Record)
    → n ≤ k
    → All (λ j. j < n) (row_ids xs)
    → live_row k (xs ++ ys) ≡ live_row k ys
live_row_right k n [] ys le h = refl
live_row_right k n (x ∷ xs) ys le h = ground (arith, live_row_right k n xs ys le h.1, h.0)

below_live :
    (k : ℕ) (ys : List Record) (r : Record) (rest : List Record)
    → k < r.row_id
    → IsAscending (row_ids ys)
    → live_rows ys ≡ r ∷ rest
    → live_row k ys ≡ none
below_live k ys r rest lt a e =
    let up = subst (λ (l : List Record). IsAscending (row_ids l)) e (live_rows-IsAscending ys a) in
    sym (live_row-live_rows k ys a)
    ∙ ap (live_row k) e
    ∙ ground (arith, live_row-above k r.row_id rest (omega arith) up.0)

module _ (xs ys : List Record) (a : IsAscending (row_ids (xs ++ ys))) where
  -- rows are found on the side of the first live id of the right part
  pub live_row-halves :
      (r : Record) (rest : List Record) (k : ℕ)
      → live_rows ys ≡ r ∷ rest
      → live_row k (xs ++ ys)
        ≡ (if ltb k r.row_id then live_row k (live_rows xs) else live_row k (live_rows ys))
  live_row-halves r rest k e = elim (Bool-cases (ltb k r.row_id)) [
    | inl lt ↦ rw lt (
        live_row_left k xs ys (below_live k ys r rest (ltb→lt _ _ lt) (IsAscending-right xs ys a) e)
        ∙ sym (live_row-live_rows k xs (IsAscending-left xs ys a)))
    | inr ge ↦ rw ge (
        live_row_right k r.row_id xs ys (ground arith) (below_first xs ys r rest a e)
        ∙ sym (live_row-live_rows k ys (IsAscending-right xs ys a)))
  ]

  -- with no live row on the right all is on the left
  pub live_row-left_only :
      (k : ℕ) → live_rows ys ≡ [] → live_row k (xs ++ ys) ≡ live_row k (live_rows xs)
  live_row-left_only k e =
      live_row_left k xs ys
        (sym (live_row-live_rows k ys (IsAscending-right xs ys a)) ∙ ap (live_row k) e)
      ∙ sym (live_row-live_rows k xs (IsAscending-left xs ys a))
