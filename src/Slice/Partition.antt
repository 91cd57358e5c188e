-- ===== src/Slice/Partition.antt =====
-- `partition_point` on ascending keys: the keys up to a bound come first.
use smol_db.Common.{
  ℕ, ◌-◌, ◌≤◌, ◌<◌, Ordering, ◌≡◌, refl, sym, ap, Bool, List, none, some, arith, leb, length,
  get_elem?, get_elem?-some, get_elem?-lt, IsAscending, IsAscending-get_le,
}
use smol_db.Error.Outcome.{Outcome, ok, ◌>>=◌}
use smol_db.Slice.{Position, found, insert_at, side, index_of, partition_point}
use smol_db.Slice.Bisect.{IsPosition, Rises, binary_search_by-IsPosition}

-- the side of the bound that the key at an index is on
side_at : List ℕ → ℕ → ℕ → Ordering
side_at ks t i = elim (get_elem? ks i) [ none ↦ Ordering.gt | some k ↦ side (leb k t) ]

-- `i` parts the keys
pub record IsCut (ks : List ℕ) (t i : ℕ) : Type 0 where
  pub within : i ≤ length ks
  pub below : (j k : ℕ) → j < i → get_elem? ks j ≡ some k → k ≤ t
  pub above : (j k : ℕ) → i ≤ j → get_elem? ks j ≡ some k → t < k

module _ (ks : List ℕ) (t : ℕ) (a : IsAscending ks) where
  side_at-key : (i k : ℕ) → get_elem? ks i ≡ some k → side_at ks t i ≡ side (leb k t)
  unfolding side_at
  side_at-key i k at = rw (side_at, at) refl

  side_at-Rises : Rises (side_at ks t) (length ks)
  unfolding side_at
  side_at-Rises i j h le lt =
      let (m, at) = get_elem?-some ks i (omega arith) in
      let (n, at') = get_elem?-some ks j lt in
      let rise : m ≤ n = IsAscending-get_le ks i j a le at at' in ground arith

  IsPosition-IsCut :
      (p : Position) → IsPosition (side_at ks t) (length ks) p → IsCut ks t (index_of p)
  unfolding side_at
  IsPosition-IsCut (found i) (lt, e) = let (m, at) = get_elem?-some ks i lt in ground arith
  IsPosition-IsCut (insert_at i) (le, low, high) = record {
    within = le;
    below = λ j k lt at.
        let (m, at') = get_elem?-some ks (i - 1) (omega arith) in
        let rise : k ≤ m = IsAscending-get_le ks j (i - 1) a (omega arith) at at' in ground arith;
    above = λ j k ge at.
        let lt : j < length ks = get_elem?-lt ks j at in
        let (m, at') = get_elem?-some ks i (omega arith) in
        let rise : m ≤ k = IsAscending-get_le ks i j a ge at' at in ground arith;
  }

  pub partition_point-IsCut :
      (pred : ℕ → Outcome Bool)
      → ((i k : ℕ) → get_elem? ks i ≡ some k → pred i ≡ ok (leb k t))
      → (i : ℕ) × (partition_point (length ks) pred ≡ ok i) × IsCut ks t i
  unfolding partition_point side_at
  partition_point-IsCut pred reads =
      let (p, e, right) =
        binary_search_by-IsPosition (side_at ks t) (length ks) (λ i. pred i >>= λ b. ok (side b))
          (λ i h.
            let (k, at) = get_elem?-some ks i h in
            rw (reads i k at) (ap ok (sym (side_at-key i k at))))
          side_at-Rises in
      rw e (index_of p, refl, IsPosition-IsCut p right)
