-- ===== src/Common/Count.antt =====
-- How often a number stands in a list; lists without repetition.
use Prim.Native.Nat.{ℕ, ◌+◌, ◌≤◌, ◌<◌}
use mathlib.Core.Path.{◌≡◌, refl}
use mathlib.Core.Logic.{◌≢◌}
use mathlib.Core.List.{List, [], ◌∷◌, ◌++◌}
use native.Mathlib.Omega.{arith}
use smol_db.Common.Tests.{◌==◌, if◌then◌else◌}
use smol_db.Common.Lists.{All}

unfoldable pub count : ℕ → List ℕ → ℕ
count a [] = 0
count a (x ∷ xs) = (if x == a then 1 else 0) + count a xs

pub count-append : (a : ℕ) (xs ys : List ℕ) → count a (xs ++ ys) ≡ count a xs + count a ys
unfolding count
count-append a [] ys = omega arith
count-append a (x ∷ xs) ys = omega (arith, count-append a xs ys)

abbrev pub Distinct : List ℕ → Type 0
Distinct xs = (a : ℕ) → count a xs ≤ 1

pub count_head : (a : ℕ) (xs : List ℕ) → count a (a ∷ xs) ≡ 1 + count a xs
unfolding count
count_head a xs = ground arith

pub count_other : (a x : ℕ) (xs : List ℕ) → count a (x ∷ xs) ≡ 0 → (x ≢ a) × (count a xs ≡ 0)
unfolding count
count_other a x xs h = ((λ e. ground arith), ground arith)

pub cons-Distinct : (x : ℕ) (xs : List ℕ) → count x xs ≡ 0 → Distinct xs → Distinct (x ∷ xs)
unfolding count
cons-Distinct x xs out d a = ground (arith, d a)

-- a number that is not below a bound is not in a list of numbers below it
pub count-Bound : (n : ℕ) (xs : List ℕ) → All (λ x. x < n) xs → count n xs ≡ 0
unfolding count
count-Bound n [] h = refl
count-Bound n (x ∷ xs) h = ground (arith, h.0, count-Bound n xs h.1)
