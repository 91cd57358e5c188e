-- ===== src/Slice/Locate.antt =====
-- On ascending keys the halving searches agree with a scan from the front.
use smol_db.Common.{
  ℕ, zero, suc, ◌-◌, ◌≤◌, ◌<◌, ◌≡◌, ◌≢◌, dec_lt, refl, Ordering, compare, List, [], ◌∷◌, some, none,
  ◌⊎◌, arith, length, get_elem?, get_elem?-lt, get_elem?-some, IsAscending, IsAscending-get_le,
  All-get,
}
use smol_db.Error.Outcome.{Outcome, ok, ◌>>=◌}
use smol_db.Slice.{Position, found, insert_at, binary_search_by, binary_search_by_key}
use smol_db.Slice.Bisect.{IsPosition, Rises, binary_search_by-IsPosition}

abbrev pub shift : Position → Position
shift (found i) = found (suc i)
shift (insert_at i) = insert_at (suc i)

-- the scan
pub locate : List ℕ → ℕ → Position
locate [] t = insert_at 0
locate (k ∷ ks) t = elim (compare k t) [
  | Ordering.lt ↦ shift (locate ks t)
  | Ordering.eq ↦ found 0
  | Ordering.gt ↦ insert_at 0
]

abbrev pub IsPlace : List ℕ → ℕ → Position → Type 0
IsPlace ks t (found i) = get_elem? ks i ≡ some t
IsPlace ks t (insert_at i) =
    (i ≤ length ks)
    × ((j k : ℕ) → j < i → get_elem? ks j ≡ some k → k < t)
    × ((j k : ℕ) → i ≤ j → get_elem? ks j ≡ some k → t < k)

locate_unique :
    (ks : List ℕ) (t : ℕ) (p : Position) → IsAscending ks → IsPlace ks t p → locate ks t ≡ p
unfolding locate
locate_unique [] t (found i) a h = ground arith
locate_unique [] t (insert_at zero) a h = refl
locate_unique [] t (insert_at (suc i)) a h = absurd (omega arith)
locate_unique (k ∷ ks) t (found zero) a h = ground arith
locate_unique (k ∷ ks) t (found (suc i)) a h =
    ground (arith, locate_unique ks t (found i) a.1 h, All-get (λ j. k < j) ks i a.0 h)
locate_unique (k ∷ ks) t (insert_at zero) a h = ground (arith, h.2 0 k)
locate_unique (k ∷ ks) t (insert_at (suc i)) a (l, b, c) = ground (
  arith,
  b 0 k (omega arith) refl,
  locate_unique ks t (insert_at i) a.1
      (omega arith, λ j m q. b (suc j) m (omega arith), λ j m q. c (suc j) m (omega arith)),
)

abbrev order_at : List ℕ → ℕ → ℕ → Ordering
order_at ks t i = elim (get_elem? ks i) [ none ↦ Ordering.lt | some k ↦ compare k t ]

order_at-Rises : (ks : List ℕ) (t : ℕ) → IsAscending ks → Rises (order_at ks t) (length ks)
order_at-Rises ks t a i j g le lt =
    let (k, at) = get_elem?-some ks j lt in
    let (m, at') = get_elem?-some ks i (omega arith) in
    let rise : m ≤ k = IsAscending-get_le ks i j a le at' at in ground arith

-- the neighbours of an insertion point bound all keys on their sides
module _ (ks : List ℕ) (t i : ℕ) (a : IsAscending ks) where
  keys_below :
      (j k : ℕ)
      → i ≤ length ks
      → (i ≡ 0) ⊎ (order_at ks t (i - 1) ≡ Ordering.lt)
      → j < i
      → get_elem? ks j ≡ some k
      → k < t
  keys_below j k le low lt at =
      let (m, at') = get_elem?-some ks (i - 1) (omega arith) in
      let rise : k ≤ m = IsAscending-get_le ks j (i - 1) a (omega arith) at at' in ground arith

  keys_above :
      (j k : ℕ)
      → (i ≡ length ks) ⊎ (order_at ks t i ≡ Ordering.gt)
      → i ≤ j
      → get_elem? ks j ≡ some k
      → t < k
  keys_above j k high le at =
      let lt : j < length ks = get_elem?-lt ks j at in
      let (m, at') = get_elem?-some ks i (omega arith) in
      let rise : m ≤ k = IsAscending-get_le ks i j a le at' at in ground arith

IsPosition-IsPlace :
    (ks : List ℕ) (t : ℕ) (p : Position)
    → IsAscending ks
    → IsPosition (order_at ks t) (length ks) p
    → IsPlace ks t p
IsPosition-IsPlace ks t (found i) a (lt, e) = let (k, at) = get_elem?-some ks i lt in ground arith
IsPosition-IsPlace ks t (insert_at i) a (le, low, high) =
    (le, λ j k. keys_below ks t i a j k le low, λ j k. keys_above ks t i a j k high)

module _ (ks : List ℕ) (t : ℕ) (a : IsAscending ks) where
  search-order_at :
      (order : ℕ → Outcome Ordering)
      → ((i : ℕ) → i < length ks → order i ≡ ok (order_at ks t i))
      → (binary_search_by (length ks) order ≡ ok (locate ks t)) × IsPlace ks t (locate ks t)
  search-order_at order runs =
      let (p, e, right) =
        binary_search_by-IsPosition (order_at ks t) (length ks) order runs
          (order_at-Rises ks t a) in
      let place : IsPlace ks t p = IsPosition-IsPlace ks t p a right in
      rw (locate_unique ks t p a place) (e, place)

  -- the scan finds the one place of the key
  pub locate-IsPlace : IsPlace ks t (locate ks t)
  locate-IsPlace = (search-order_at (λ i. ok (order_at ks t i)) (λ i h. refl)).1

-- a key with an insertion point is not among the keys
pub IsPlace-ne :
    (ks : List ℕ) (t i : ℕ)
    → IsPlace ks t (insert_at i)
    → (j m : ℕ) → get_elem? ks j ≡ some m
    → m ≢ t
IsPlace-ne ks t i (le, below, above) j m at = elim (dec_lt j i) [
  | yes lt ↦ omega (arith, below j m lt at)
  | no ge ↦ omega (arith, above j m (omega arith) at)
]

module _ (ks : List ℕ) (key : ℕ → Outcome ℕ) (a : IsAscending ks)
    (reads : (i k : ℕ) → get_elem? ks i ≡ some k → key i ≡ ok k) where
  -- The halving search for a key returns what the scan returns.
  pub binary_search_by_key-locate :
      (t : ℕ) → binary_search_by_key (length ks) t key ≡ ok (locate ks t)
  unfolding binary_search_by_key
  binary_search_by_key-locate t =
      (search-order_at ks t a (λ i. key i >>= λ k. ok (compare k t))
        λ i h. let (k, at) = get_elem?-some ks i h in ground (arith, reads i k at)).0
