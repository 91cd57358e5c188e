-- ===== src/Page/Slots.antt =====
-- The slot array of a node (page.rs): what its slots read from a vector, for records and entries.
use smol_db.Common.{
  ℕ, zero, suc, ◌≤◌, ◌<◌, ◌≡◌, ◌≢◌, refl, sym, ap, ◌∙◌, List, [], ◌∷◌, map, some, arith, length,
  get_elem?, get_elem?-lt, set, length-set, get_elem?-set_self, get_elem?-set_ne, All, IsAscending,
}
use mathlib.Core.Option.{some-injective}

module _ {A : Type 0} where
  -- the slots read exactly these elements
  abbrev pub Reads : List A → List ℕ → List A → Type 0
  Reads cells [] [] = Unit {0}
  Reads cells [] (r ∷ rows) = ⊥
  Reads cells (s ∷ slots) [] = ⊥
  Reads cells (s ∷ slots) (r ∷ rows) = (get_elem? cells s ≡ some r) × Reads cells slots rows

  pub length-Reads :
      (cells : List A) (slots : List ℕ) (rows : List A)
      → Reads cells slots rows
      → length slots ≡ length rows
  length-Reads cells [] [] h = refl
  length-Reads cells [] (r ∷ rows) h = absurd h
  length-Reads cells (s ∷ slots) [] h = absurd h
  length-Reads cells (s ∷ slots) (r ∷ rows) h = ap suc (length-Reads cells slots rows h.1)

  -- the slot of an element, and that it holds it
  pub Reads-get :
      (cells : List A) (slots : List ℕ) (rows : List A) (i : ℕ) {r : A}
      → Reads cells slots rows
      → get_elem? rows i ≡ some r
      → (s : ℕ) × (get_elem? slots i ≡ some s) × (get_elem? cells s ≡ some r)
  Reads-get cells [] [] i h e = ground arith
  Reads-get cells [] (r ∷ rows) i h e = absurd h
  Reads-get cells (s ∷ slots) [] i h e = absurd h
  Reads-get cells (s ∷ slots) (r ∷ rows) zero h e = (s, refl, ground arith)
  Reads-get cells (s ∷ slots) (r ∷ rows) (suc i) h e = Reads-get cells slots rows i h.1 e

  pub slots-Bound :
      (cells : List A) (slots : List ℕ) (rows : List A) (n : ℕ)
      → Reads cells slots rows
      → length cells ≤ n
      → All (λ s. s < n) slots
  slots-Bound cells [] [] n h le = tt
  slots-Bound cells [] (r ∷ rows) n h le = absurd h
  slots-Bound cells (s ∷ slots) [] n h le = absurd h
  slots-Bound cells (s ∷ slots) (r ∷ rows) n (at, h) le =
      (omega (arith, get_elem?-lt cells s at), slots-Bound cells slots rows n h le)

  -- the elements that `decode` has stored, from its vector of defaults on
  abbrev pub scatter : List ℕ → List A → List A → List A
  scatter [] rows cells = cells
  scatter (s ∷ slots) [] cells = cells
  scatter (s ∷ slots) (r ∷ rows) cells = scatter slots rows (set cells s r)

  pub length-scatter :
      (slots : List ℕ) (rows cells : List A) → length (scatter slots rows cells) ≡ length cells
  length-scatter [] rows cells = refl
  length-scatter (s ∷ slots) [] cells = refl
  length-scatter (s ∷ slots) (r ∷ rows) cells =
      length-scatter slots rows (set cells s r) ∙ length-set cells s r

  get_elem?-scatter :
      (slots : List ℕ) (rows cells : List A) (s : ℕ)
      → All (λ t. t ≢ s) slots
      → get_elem? (scatter slots rows cells) s ≡ get_elem? cells s
  get_elem?-scatter [] rows cells s h = refl
  get_elem?-scatter (t ∷ slots) [] cells s h = refl
  get_elem?-scatter (t ∷ slots) (r ∷ rows) cells s (ne, h) =
      get_elem?-scatter slots rows (set cells t r) s h ∙ get_elem?-set_ne cells t s r ne

  module _ (key : A → ℕ) where
    -- the slots of elements with ascending keys are distinct
    distinct_slots :
        (cells : List A) (slots : List ℕ) (rows : List A) (s : ℕ) (r : A)
        → get_elem? cells s ≡ some r
        → Reads cells slots rows
        → All (λ j. key r < j) (map key rows)
        → All (λ t. t ≢ s) slots
    distinct_slots cells [] [] s r at h above = tt
    distinct_slots cells [] (q ∷ rows) s r at h above = absurd h
    distinct_slots cells (t ∷ slots) [] s r at h above = absurd h
    distinct_slots cells (t ∷ slots) (q ∷ rows) s r at (at', h) (lt, above) = (
      λ e.
          let same : q ≡ r = some-injective _ _ (sym at' ∙ (ap (get_elem? cells) e ∙ at)) in
          let equal : key q ≡ key r = ap key same in omega (arith, equal, lt),
      distinct_slots cells slots rows s r at h above,
    )

    pub Reads-scatter :
        (cells : List A) (slots : List ℕ) (rows target : List A)
        → Reads cells slots rows
        → IsAscending (map key rows)
        → All (λ s. s < length target) slots
        → Reads (scatter slots rows target) slots rows
    Reads-scatter cells [] [] target h up fits = tt
    Reads-scatter cells [] (r ∷ rows) target h up fits = absurd h
    Reads-scatter cells (s ∷ slots) [] target h up fits = absurd h
    Reads-scatter cells (s ∷ slots) (r ∷ rows) target (at, h) (above, up) (fit, fits) = (
      get_elem?-scatter slots rows (set target s r) s
            (distinct_slots cells slots rows s r at h above)
          ∙ get_elem?-set_self target s r fit,
      Reads-scatter cells slots rows (set target s r) h up (rw (length-set target s r) fits),
    )
