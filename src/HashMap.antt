-- ===== src/HashMap.antt =====
-- `HashMap` of the standard library with integer keys, as an association list that holds a key
-- once. `insert` puts a new key first; no result of the program depends on the order but that of
-- `keys`, which the standard library leaves open.
use smol_db.Common.{
  ℕ, suc, ◌≡◌, refl, List, [], ◌∷◌, Option, none, some, arith, Bool-cases, inl, inr, ◌==◌,
  if◌then◌else◌, length,
}

abbrev pub HashMap {ℓ} : Type ℓ → Type ℓ
HashMap V = List (ℕ × V)

module _ {ℓ} {V : Type ℓ} where
  unfoldable pub lookup : ℕ → HashMap V → Option V
  lookup k [] = none
  lookup k ((j, v) ∷ m) = if j == k then some v else lookup k m

  unfoldable pub remove : ℕ → HashMap V → HashMap V
  remove k [] = []
  remove k ((j, v) ∷ m) = if j == k then remove k m else (j, v) ∷ remove k m

  unfoldable pub insert : ℕ → V → HashMap V → HashMap V
  unfolding remove
  insert k v m = (k, v) ∷ remove k m

  unfoldable pub keys : HashMap V → List ℕ
  keys [] = []
  keys ((k, v) ∷ m) = k ∷ keys m

  pub lookup-remove :
      (k j : ℕ) (m : HashMap V) → lookup j (remove k m) ≡ (if k == j then none else lookup j m)
  unfolding lookup remove
  lookup-remove k j [] = ground arith
  lookup-remove k j ((i, v) ∷ m) = ground (arith, lookup-remove k j m)

  pub lookup-insert :
      (k j : ℕ) (v : V) (m : HashMap V)
      → lookup j (insert k v m) ≡ (if k == j then some v else lookup j m)
  unfolding lookup insert
  lookup-insert k j v m = ground (arith, lookup-remove k j m)

  pub remove_absent : (k : ℕ) (m : HashMap V) → lookup k m ≡ none → remove k m ≡ m
  unfolding lookup remove
  remove_absent k [] h = refl
  remove_absent k ((j, v) ∷ m) h = ground (arith, remove_absent k m)

  pub length-insert_absent :
      (k : ℕ) (v : V) (m : HashMap V) → lookup k m ≡ none → length (insert k v m) ≡ suc (length m)
  unfolding insert
  length-insert_absent k v m h = rw (remove_absent k m h) refl

  -- a key stands in the map once
  abbrev pub IsMap : HashMap V → Type ℓ
  IsMap [] = Unit {ℓ}
  IsMap ((k, v) ∷ m) = (lookup k m ≡ none) × IsMap m

  pub remove-IsMap : (k : ℕ) (m : HashMap V) → IsMap m → IsMap (remove k m)
  unfolding remove
  remove-IsMap k [] h = tt
  remove-IsMap k ((j, v) ∷ m) h = elim (Bool-cases (j == k)) [
    | inl same ↦ rw same (remove-IsMap k m h.1)
    | inr other ↦ rw other (ground (arith, lookup-remove k j m, h.0), remove-IsMap k m h.1)
  ]

  pub length-remove_present :
      (k : ℕ) (m : HashMap V) (v : V)
      → IsMap m
      → lookup k m ≡ some v
      → suc (length (remove k m)) ≡ length m
  unfolding lookup remove
  length-remove_present k [] v h e = ground arith
  length-remove_present k ((j, w) ∷ m) v h e =
      ground (arith, length-remove_present k m v h.1, remove_absent j m h.0)

  pub length-insert_present :
      (k : ℕ) (v w : V) (m : HashMap V)
      → IsMap m
      → lookup k m ≡ some w
      → length (insert k v m) ≡ length m
  unfolding insert
  length-insert_present k v w m h e = length-remove_present k m w h e

  pub insert-IsMap : (k : ℕ) (v : V) (m : HashMap V) → IsMap m → IsMap (insert k v m)
  unfolding insert
  insert-IsMap k v m h = (ground (arith, lookup-remove k k m), remove-IsMap k m h)
