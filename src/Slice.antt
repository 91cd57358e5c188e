-- ===== src/Slice.antt =====
-- The searches of Rust's slices that page.rs calls: `binary_search_by`, which halves the range
-- without an early exit, and the two searches that the standard library builds on it.
pub mod Bisect
pub mod Locate
pub mod Partition
use mathlib.Core.Logic.{dite}
use mathlib.Core.WellFounded.{Acc}
use smol_db.Common.{
  ℕ, ◌+◌, ◌-◌, ◌/◌, ◌<◌, Ordering, compare, Bool, arith, lt_wf, dec_lt, if◌then◌else◌, ◌==◌,
}
use smol_db.Error.Outcome.{Outcome, ok, ◌>>=◌}

-- `Result<usize, usize>`: the index of a match, or where the key would be inserted.
pub data Position : Type 0 where
  found : ℕ → Position
  insert_at : ℕ → Position

pub half_shrinks : (size : ℕ) → 1 < size → size - size / 2 < size
half_shrinks size h = omega arith

abbrev pub next_base : ℕ → ℕ → Ordering → ℕ
next_base base mid Ordering.gt = base
next_base base mid _ = mid

-- `order i` compares the element at index `i` with what is looked for; it may panic.
pub bisect_loop : (ℕ → Outcome Ordering) → ℕ → (size : ℕ) → Acc ◌<◌ size → Outcome ℕ
bisect_loop order base size (Acc.intro _ smaller) =
    dite (dec_lt 1 size)
      (λ more. order (base + size / 2) >>= λ c.
        bisect_loop order (next_base base (base + size / 2) c) (size - size / 2)
          (smaller _ (half_shrinks size more)))
      (λ _. ok base)

abbrev pub position : ℕ → Ordering → Position
position base Ordering.eq = found base
position base Ordering.lt = insert_at (base + 1)
position base Ordering.gt = insert_at base

-- `v.binary_search_by(order)` on a slice of `len` elements
unfoldable pub binary_search_by : ℕ → (ℕ → Outcome Ordering) → Outcome Position
unfolding bisect_loop lt_wf
binary_search_by len order =
    if len == 0
    then ok (insert_at 0)
    else do base ← bisect_loop order 0 len (lt_wf.apply len); c ← order base; ok (position base c)

-- `v.binary_search_by_key(&target, key)`
unfoldable pub binary_search_by_key : ℕ → ℕ → (ℕ → Outcome ℕ) → Outcome Position
unfolding binary_search_by
binary_search_by_key len target key =
    binary_search_by len (λ i. key i >>= λ k. ok (compare k target))

abbrev pub side : Bool → Ordering
side b = if b then Ordering.lt else Ordering.gt

abbrev pub index_of : Position → ℕ
index_of (found i) = i
index_of (insert_at i) = i

-- `v.partition_point(pred)`
unfoldable pub partition_point : ℕ → (ℕ → Outcome Bool) → Outcome ℕ
unfolding binary_search_by
partition_point len pred = do
  p ← binary_search_by len (λ i. pred i >>= λ b. ok (side b))
  ok (index_of p)
