-- ===== src/Slice/Bisect.antt =====
-- What `binary_search_by` returns, for any comparison that does not panic.
use mathlib.Core.Logic.{dif_pos, dif_neg}
use mathlib.Core.WellFounded.{Acc}
use native.Mathlib.Bridge.{le_prop}
use smol_db.Common.{
  ℕ, ◌+◌, ◌-◌, ◌/◌, ◌≤◌, ◌<◌, ◌≡◌, ◌≢◌, refl, subst, Ordering, arith, lt_wf, dec_lt, ◌==◌, ◌⊎◌, inl,
  inr, Bool-cases,
}
use smol_db.Error.Outcome.{Outcome, ok}
use smol_db.Slice.{
  half_shrinks, Position, found, insert_at, next_base, bisect_loop, position, binary_search_by,
}

-- the elements below `base` end with one that is not greater, those from `base + size` on begin
-- with one that is greater
record Window (c : ℕ → Ordering) (len base size : ℕ) : Type 0 where
  nonempty : 0 < size
  within : base + size ≤ len
  low : (base ≡ 0) ⊎ (c base ≢ Ordering.gt)
  high : (base + size ≡ len) ⊎ (c (base + size) ≡ Ordering.gt)

-- a match, or neighbours on both sides that say so
abbrev pub IsPosition : (ℕ → Ordering) → ℕ → Position → Type 0
IsPosition c len (found i) = (i < len) × (c i ≡ Ordering.eq)
IsPosition c len (insert_at i) =
    (i ≤ len) × ((i ≡ 0) ⊎ (c (i - 1) ≡ Ordering.lt)) × ((i ≡ len) ⊎ (c i ≡ Ordering.gt))

-- once greater, always greater
abbrev pub Rises : (ℕ → Ordering) → ℕ → Type 0
Rises c len = (i j : ℕ) → c i ≡ Ordering.gt → i ≤ j → j < len → c j ≡ Ordering.gt

module _ (c : ℕ → Ordering) (len : ℕ) (rises : Rises c len) where
  Window-next :
      (base size : ℕ) (o : Ordering)
      → 1 < size
      → c (base + size / 2) ≡ o
      → Window c len base size
      → Window c len (next_base base (base + size / 2) o) (size - size / 2)
  Window-next base size Ordering.gt more e w = record {
    nonempty = omega arith;
    within = omega (arith, w.within);
    low = w.low;
    high = elim (dec_lt (base + (size - size / 2)) len) [
      | yes h ↦ inr (rises (base + size / 2) (base + (size - size / 2)) e (omega arith) h)
      | no h ↦ inl (omega (arith, w.within))
    ];
  }
  Window-next base size Ordering.lt more e w = record {
    nonempty = omega arith;
    within = omega (arith, w.within);
    low = inr (cc e);
    high = let q : base + size / 2 + (size - size / 2) ≡ base + size = omega arith in rw q w.high;
  }
  Window-next base size Ordering.eq more e w = record {
    nonempty = omega arith;
    within = omega (arith, w.within);
    low = inr (cc e);
    high = let q : base + size / 2 + (size - size / 2) ≡ base + size = omega arith in rw q w.high;
  }

  position-IsPosition :
      (b : ℕ) (o : Ordering) → c b ≡ o → Window c len b 1 → IsPosition c len (position b o)
  position-IsPosition b Ordering.eq e w = (omega (arith, w.within), e)
  position-IsPosition b Ordering.lt e w =
      (omega (arith, w.within), inr (let q : b + 1 - 1 ≡ b = omega arith in rw q e), w.high)
  position-IsPosition b Ordering.gt e w =
      (omega (arith, w.within), inl (ground (arith, w.low)), inr e)

module _ (c : ℕ → Ordering) (len : ℕ) (order : ℕ → Outcome Ordering)
    (runs : (i : ℕ) → i < len → order i ≡ ok (c i)) (rises : Rises c len) where
  bisect_loop-Window :
      (base size : ℕ) (a : Acc ◌<◌ size)
      → Window c len base size
      → (b : ℕ) × (bisect_loop order base size a ≡ ok b) × Window c len b 1
  unfolding bisect_loop
  bisect_loop-Window base size (Acc.intro _ smaller) w = elim (dec_lt 1 size) [
    | no small ↦
        rw (dif_neg (dec_lt 1 size) small) (
          base,
          refl,
          let e : size ≡ 1 = omega (arith, w.nonempty) in subst (Window c len base) e w,
        )
    | yes more ↦
        rw (dif_pos (dec_lt 1 size) le_prop more, runs (base + size / 2) (omega (arith, w.within)))
          (bisect_loop-Window (next_base base (base + size / 2) (c (base + size / 2)))
            (size - size / 2) (smaller _ (half_shrinks size more))
            (Window-next c len rises base size _ more refl w))
  ]

  -- The search returns on every slice, and its answer is a position that is right.
  pub binary_search_by-IsPosition :
      (p : Position) × (binary_search_by len order ≡ ok p) × IsPosition c len p
  unfolding binary_search_by
  binary_search_by-IsPosition = elim (Bool-cases (len == 0)) [
    | inl none ↦ rw none (insert_at 0, refl, (omega arith, inl refl, inl (ground arith)))
    | inr some ↦
        let (b, ends, w) = bisect_loop-Window 0 len (lt_wf.apply len) (record {
          nonempty = ground arith;
          within = omega arith;
          low = inl refl;
          high = inl (omega arith);
        }) in
        rw (some, ends, runs b (omega (arith, w.within)))
          (position b (c b), refl, position-IsPosition c len rises b (c b) refl w)
  ]
