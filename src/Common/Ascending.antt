-- ===== src/Common/Ascending.antt =====
-- Strictly ascending lists of keys, and predicates on all elements of a list.
use Prim.Native.Nat.{ℕ, zero, suc, ◌≤◌, ◌<◌}
use mathlib.Core.Path.{◌≡◌, subst}
use mathlib.Core.List.{List, [], ◌∷◌, ◌++◌}
use mathlib.Core.Option.{some, some-injective}
use native.Mathlib.Omega.{arith}
use native.Mathlib.Decide.{ℕ_discrete}
use smol_db.Common.Lists.{get_elem?, All}

abbrev pub IsAscending : List ℕ → Type 0
IsAscending [] = Unit
IsAscending (k ∷ ks) = All (λ j. k < j) ks × IsAscending ks

module _ {ℓ κ} {A : Type ℓ} (P : A → Type κ) where
  pub All-get : (xs : List A) (i : ℕ) {a : A} → All P xs → get_elem? xs i ≡ some a → P a
  All-get [] i h e = ground arith
  All-get (x ∷ xs) zero h e = subst P (some-injective _ _ e) h.0
  All-get (x ∷ xs) (suc i) h e = All-get xs i h.1 e

  pub All-append : (xs ys : List A) → All P xs → All P ys → All P (xs ++ ys)
  All-append [] ys h k = k
  All-append (x ∷ xs) ys h k = (h.0, All-append xs ys h.1 k)

-- The entries of an ascending list rise with their indices.
pub IsAscending-get :
    (ks : List ℕ) (i j : ℕ) {a b : ℕ}
    → IsAscending ks
    → i < j
    → get_elem? ks i ≡ some a
    → get_elem? ks j ≡ some b
    → a < b
IsAscending-get [] i j h l p q = ground arith
IsAscending-get (k ∷ ks) zero zero h l p q = absurd (omega arith)
IsAscending-get (k ∷ ks) zero (suc j) h l p q = ground (arith, All-get (λ m. k < m) ks j h.0 q)
IsAscending-get (k ∷ ks) (suc i) zero h l p q = absurd (omega arith)
IsAscending-get (k ∷ ks) (suc i) (suc j) h l p q = IsAscending-get ks i j h.1 (omega arith) p q

pub IsAscending-get_le :
    (ks : List ℕ) (i j : ℕ) {a b : ℕ}
    → IsAscending ks
    → i ≤ j
    → get_elem? ks i ≡ some a
    → get_elem? ks j ≡ some b
    → a ≤ b
IsAscending-get_le ks i j {a} {b} h l p q = elim (ℕ_discrete i j) [
  | yes e ↦ let same : some a ≡ some b = cc in omega (arith, some-injective a b same)
  | no ne ↦ omega (arith, IsAscending-get ks i j h (omega arith) p q)
]
