-- ===== src/Lru/Segment.antt =====
-- Segments of the linked list in the arena (lru.rs), and what a write to a node does to them.
use smol_db.Common.{
  ℕ, ◌<◌, ◌≡◌, refl, sym, ap, ◌∙◌, List, [], ◌∷◌, ◌++◌, Option, some, arith, get_elem?, set,
  get_elem?-set_self, get_elem?-set_ne, get_elem?-lt, count, count_head, Distinct,
}
use smol_db.Page.{PageId}
use smol_db.Lru.{LruNode}

-- the nodes of a segment: the index and the page of each, from the head on
abbrev pub Nodes : Type 0
Nodes = List (ℕ × PageId)

abbrev pub indices : Nodes → List ℕ
indices [] = []
indices ((i, p) ∷ xs) = i ∷ indices xs

abbrev pub pages_of : Nodes → List PageId
pages_of [] = []
pages_of ((i, p) ∷ xs) = p ∷ pages_of xs

-- the first index, or else what follows
abbrev pub first_or : Nodes → Option ℕ → Option ℕ
first_or [] after = after
first_or ((i, p) ∷ xs) after = some i

-- the last index, or else what precedes
abbrev pub last_or : Option ℕ → Nodes → Option ℕ
last_or before [] = before
last_or before ((i, p) ∷ xs) = last_or (some i) xs

-- the nodes `xs` stand in the arena, linked in both directions, between two neighbours
abbrev pub Segment : List LruNode → Option ℕ → Nodes → Option ℕ → Type 0
Segment arena before [] after = Unit {0}
Segment arena before ((i, p) ∷ xs) after =
    (get_elem? arena i ≡ some (record { prev = before; page_id = p; next = first_or xs after }))
    × Segment arena (some i) xs after

pub indices-append : (xs ys : Nodes) → indices (xs ++ ys) ≡ indices xs ++ indices ys
indices-append [] ys = refl
indices-append ((i, p) ∷ xs) ys = ap (◌∷◌ i) (indices-append xs ys)

pub pages_of-append : (xs ys : Nodes) → pages_of (xs ++ ys) ≡ pages_of xs ++ pages_of ys
pages_of-append [] ys = refl
pages_of-append ((i, p) ∷ xs) ys = ap (◌∷◌ p) (pages_of-append xs ys)

pub first_or-append :
    (xs ys : Nodes) (after : Option ℕ) → first_or (xs ++ ys) after ≡ first_or xs (first_or ys after)
first_or-append [] ys after = refl
first_or-append ((i, p) ∷ xs) ys after = refl

pub last_or-append :
    (before : Option ℕ) (xs ys : Nodes) → last_or before (xs ++ ys) ≡ last_or (last_or before xs) ys
last_or-append before [] ys = refl
last_or-append before ((i, p) ∷ xs) ys = last_or-append (some i) xs ys

module _ (arena : List LruNode) where
  pub Segment-split :
      (before : Option ℕ) (xs ys : Nodes) (after : Option ℕ)
      → Segment arena before (xs ++ ys) after
      → Segment arena before xs (first_or ys after) × Segment arena (last_or before xs) ys after
  Segment-split before [] ys after s = (tt, s)
  Segment-split before ((i, p) ∷ xs) ys after (at, s) =
      let (l, r) = Segment-split (some i) xs ys after s in
      (
        (
          at
              ∙ ap (λ n. some (record { prev = before; page_id = p; next = n }))
                  (first_or-append xs ys after),
          l,
        ),
        r,
      )

  pub Segment-join :
      (before : Option ℕ) (xs ys : Nodes) (after : Option ℕ)
      → Segment arena before xs (first_or ys after)
      → Segment arena (last_or before xs) ys after
      → Segment arena before (xs ++ ys) after
  Segment-join before [] ys after l r = r
  Segment-join before ((i, p) ∷ xs) ys after (at, l) r = (
    at
        ∙ ap (λ n. some (record { prev = before; page_id = p; next = n }))
            (sym (first_or-append xs ys after)),
    Segment-join (some i) xs ys after l r,
  )

  -- two arenas that agree on the indices of a segment
  pub Segment-frame :
      (arena' : List LruNode) (before : Option ℕ) (xs : Nodes) (after : Option ℕ)
      → ((j : ℕ) → 0 < count j (indices xs) → get_elem? arena' j ≡ get_elem? arena j)
      → Segment arena before xs after
      → Segment arena' before xs after
  unfolding count
  Segment-frame arena' before [] after same s = tt
  Segment-frame arena' before ((i, p) ∷ xs) after same (at, s) = (
    same i (omega (arith, count_head i (indices xs))) ∙ at,
    Segment-frame arena' (some i) xs after (λ j h. same j (omega arith)) s,
  )

  -- a write outside
  pub Segment-set :
      (j : ℕ) (n : LruNode) (before : Option ℕ) (xs : Nodes) (after : Option ℕ)
      → count j (indices xs) ≡ 0
      → Segment arena before xs after
      → Segment (set arena j n) before xs after
  Segment-set j n before xs after out = Segment-frame (set arena j n) before xs after (λ k h.
      get_elem?-set_ne arena j k n (λ e. omega (arith, ap (λ (m : ℕ). count m (indices xs)) e)))

  -- the first node gets another predecessor
  pub Segment-set_prev :
      (before before' : Option ℕ) (i : ℕ) (p : PageId) (xs : Nodes) (after : Option ℕ)
      → count i (indices xs) ≡ 0
      → Segment arena before ((i, p) ∷ xs) after
      → Segment
          (set arena i (record { prev = before'; page_id = p; next = first_or xs after }))
          before'
          ((i, p) ∷ xs)
          after
  Segment-set_prev before before' i p xs after out (at, s) = (
    get_elem?-set_self arena i _ (get_elem?-lt arena i at),
    Segment-set i _ (some i) xs after out s,
  )

  -- the last node of a segment, and the segment with another successor
  pub Segment-set_next :
      (before : Option ℕ) (i : ℕ) (p : PageId) (xs : Nodes) (after after' : Option ℕ)
      → Distinct (indices ((i, p) ∷ xs))
      → Segment arena before ((i, p) ∷ xs) after
      → (l : ℕ) × (n : LruNode) × (last_or before ((i, p) ∷ xs) ≡ some l)
        × (0 < count l (indices ((i, p) ∷ xs)))
        × (get_elem? arena l ≡ some n)
        × Segment (set arena l (record n { next = after' })) before ((i, p) ∷ xs) after'
  unfolding count
  Segment-set_next before i p [] after after' d (at, s) =
      (i, _, refl, ground arith, at, (get_elem?-set_self arena i _ (get_elem?-lt arena i at), tt))
  Segment-set_next before i p ((j, q) ∷ xs) after after' d (at, s) =
      let (l, n, last, in_tail, at_l, s') =
        Segment-set_next (some i) j q xs after after' (λ a. omega (arith, d a)) s in
      (
        l,
        n,
        last,
        omega arith,
        at_l,
        (
          get_elem?-set_ne arena l i _ (λ e. omega (
            arith,
            d i,
            count_head i (indices ((j, q) ∷ xs)),
            in_tail,
            ap (λ (m : ℕ). count m (indices ((j, q) ∷ xs))) e,
          ))
              ∙ at,
          s',
        ),
      )
