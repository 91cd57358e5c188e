-- ===== src/Lru/Evict.antt =====
-- `evict_if`, `evict` and `peek_rev` (lru.rs) go through the pages from the least recent on.
use smol_db.Common.{
  ℕ, zero, suc, ◌+◌, ◌-◌, ◌<◌, ◌≡◌, refl, sym, ap, subst, ◌∙◌, ◌⊎◌, inl, inr, Bool, true, List, [],
  ◌∷◌, ◌++◌, append_assoc, append-nil, Option, none, some, arith, Bool-cases, ltb, ltb→lt, ltb→le,
  get_elem?, if◌then◌else◌, length, length-append, take, take-nil, count, count_head,
}
use mathlib.Core.List.{reverse, reverse-append}
use smol_db.Error.Outcome.{Outcome, ok}
use smol_db.Page.{PageId}
use smol_db.Lru.{LruReplacer, evict, evict_if, evict_loop, peek_rev, peek_loop}
use smol_db.Lru.Segment.{Nodes, pages_of, pages_of-append, last_or, last_or-append, Segment-split}
use smol_db.Lru.State.{IsLru, Tracks, erase, erase_middle, count-pages_of, release_lem}

-- the first page that passes
abbrev pub find : (PageId → Bool) → List PageId → Option PageId
find test [] = none
find test (p ∷ l) = if test p then some p else find test l

-- the list without a victim
abbrev pub without : Option PageId → List PageId → List PageId
without none l = l
without (some p) l = erase p l

last-cases :
    (ys : Nodes) → (ys ≡ []) ⊎ ((zs : Nodes) × (i : ℕ) × (p : PageId) × (ys ≡ zs ++ (i, p) ∷ []))
last-cases [] = inl refl
last-cases ((i, p) ∷ ys) = elim (last-cases ys) [
  | inl e ↦ inr ([], i, p, ap (◌∷◌ (i, p)) e)
  | inr (zs, j, q, e) ↦ inr ((i, p) ∷ zs, j, q, ap (◌∷◌ (i, p)) e)
]

reverse-pages_of :
    (zs : Nodes) (i : ℕ) (p : PageId)
    → reverse (pages_of (zs ++ (i, p) ∷ [])) ≡ p ∷ reverse (pages_of zs)
reverse-pages_of zs i p =
    ap reverse (pages_of-append zs ((i, p) ∷ [])) ∙ reverse-append (pages_of zs) (p ∷ [])

module _ (predicate : PageId → Outcome Bool) (test : PageId → Bool) where
  -- what the loop leaves when it has passed over `zs` and stands at the end of `ys`
  abbrev Evicted : ℕ → LruReplacer → Nodes → Nodes → Type 0
  Evicted fuel r ys zs =
      (r' : LruReplacer) × (evict_loop fuel predicate (last_or none ys) r
        ≡ ok (find test (reverse (pages_of ys)), r'))
      × Tracks r' (without (find test (reverse (pages_of ys))) (pages_of (ys ++ zs)))
      × (r'.capacity ≡ r.capacity)

  -- one round, where a node is at the end
  evict_round :
      (fuel : ℕ) (r : LruReplacer) (ys zs : Nodes) (i : ℕ) (p : PageId)
      → IsLru r (ys ++ (i, p) ∷ zs)
      → predicate p ≡ ok (test p)
      → Evicted fuel r ys ((i, p) ∷ zs)
      → Evicted (suc fuel) r (ys ++ (i, p) ∷ []) zs
  unfolding evict_loop count
  evict_round fuel r ys zs i p is says (r1, run, tracks, cap) =
      let at = (Segment-split r.arena none ys ((i, p) ∷ zs) none is.linked.chain).1.0 in
      let same : (ys ++ (i, p) ∷ []) ++ zs ≡ ys ++ (i, p) ∷ zs = append_assoc ys ((i, p) ∷ []) zs in
      rw (reverse-pages_of ys i p, last_or-append none ys ((i, p) ∷ []), same)
        (elim (Bool-cases (test p)) [
          | inl yes_p ↦
              let (r', e, is', cap') = release_lem r ys zs i p is in
              let first : count p (pages_of ys) ≡ 0 = omega (
                arith,
                is.unique p,
                count-pages_of p ys ((i, p) ∷ zs),
                count_head p (pages_of zs),
              ) in
              rw yes_p (
                r',
                rw (evict_loop, at, says, yes_p, e) refl,
                (ys ++ zs, is', sym (erase_middle p i ys zs first)),
                cap',
              )
          | inr no_p ↦ rw no_p (r1, rw (evict_loop, at, says, no_p) run, tracks, cap)
        ])

  evict_loop_lem :
      (fuel : ℕ) (r : LruReplacer) (ys zs : Nodes)
      → length ys < fuel
      → IsLru r (ys ++ zs)
      → ((p : PageId) → 0 < count p (pages_of (ys ++ zs)) → predicate p ≡ ok (test p))
      → Evicted fuel r ys zs
  unfolding evict_loop count
  evict_loop_lem zero r ys zs lt is says = absurd (omega arith)
  evict_loop_lem (suc fuel) r ys zs lt is says = elim (last-cases ys) [
    | inl e ↦
        subst (λ xs. Evicted (suc fuel) r xs zs) (sym e)
          (r, refl, (zs, subst (λ xs. IsLru r (xs ++ zs)) e is, refl), refl)
    | inr (xs, i, p, e) ↦
        let same : ys ++ zs ≡ xs ++ (i, p) ∷ zs =
          ap (λ l. l ++ zs) e ∙ append_assoc xs ((i, p) ∷ []) zs in
        let is' = subst (IsLru r) same is in
        let says' : (q : PageId)
            → 0 < count q (pages_of (xs ++ (i, p) ∷ zs))
            → predicate q ≡ ok (test q) =
          λ q h. says q (subst (λ l. 0 < count q (pages_of l)) (sym same) h) in
        let here : 0 < count p (pages_of (xs ++ (i, p) ∷ zs)) =
          omega (arith, count-pages_of p xs ((i, p) ∷ zs), count_head p (pages_of zs)) in
        let shorter : length xs < fuel =
          omega (arith, ap length e, length-append xs ((i, p) ∷ [])) in
        subst (λ l. Evicted (suc fuel) r l zs) (sym e)
          (evict_round fuel r xs zs i p is' (says' p here)
            (evict_loop_lem fuel r xs ((i, p) ∷ zs) shorter is' says'))
  ]

-- `evict_if` returns the least recent page that passes the test, and takes it out of the list;
-- where no page passes, the list is as it was. The rounds of its loop are enough.
pub evict_if-Tracks :
    (r : LruReplacer) (l : List PageId) (predicate : PageId → Outcome Bool) (test : PageId → Bool)
    → Tracks r l
    → ((p : PageId) → 0 < count p l → predicate p ≡ ok (test p))
    → (r' : LruReplacer) × (evict_if predicate r ≡ ok (find test (reverse l), r'))
      × Tracks r' (without (find test (reverse l)) l)
      × (r'.capacity ≡ r.capacity)
unfolding evict_if
evict_if-Tracks r l predicate test (xs, is, view) says =
    let same : pages_of (xs ++ []) ≡ l = ap pages_of (append-nil xs) ∙ view in
    let says' : (p : PageId) → 0 < count p (pages_of (xs ++ [])) → predicate p ≡ ok (test p) =
      λ p h. says p (subst (λ m. 0 < count p m) same h) in
    let fuel = length r.arena + 1 in
    let (r', e, tracks, cap) =
      evict_loop_lem predicate test fuel r xs [] (omega (arith, is.room))
        (subst (IsLru r) (sym (append-nil xs)) is) says' in
    (
      r',
      ap (λ t. evict_loop fuel predicate t r) is.linked.tail
          ∙ (e ∙ ap (λ m. ok (find test (reverse m), r')) view),
      subst (λ m. Tracks r' (without (find test (reverse m)) l)) view
          (subst (λ m. Tracks r' (without (find test (reverse (pages_of xs))) m)) same tracks),
      cap,
    )

evict_first :
    (fuel : ℕ) (t : Option ℕ) (r : LruReplacer)
    → evict (record r { tail_idx = t })
      ≡ evict_loop (suc fuel) (λ p. ok true) t (record r { tail_idx = t })
unfolding evict evict_loop
evict_first fuel none r = refl
evict_first fuel (some i) r = refl

evict-evict_if : (r : LruReplacer) → evict r ≡ evict_if (λ p. ok true) r
unfolding evict_if
evict-evict_if r =
    let more : length r.arena + 1 ≡ suc (length r.arena) = omega arith in
    rw more (evict_first (length r.arena) r.tail_idx r)

find_any : (l : List PageId) → find (λ p. true) l ≡ get_elem? l 0
find_any [] = refl
find_any (p ∷ l) = refl

-- `evict` returns the least recent page and takes it out of the list, and `None` of an empty one.
pub evict-Tracks :
    (r : LruReplacer) (l : List PageId)
    → Tracks r l
    → (r' : LruReplacer) × (evict r ≡ ok (get_elem? (reverse l) 0, r'))
      × Tracks r' (without (get_elem? (reverse l) 0) l)
      × (r'.capacity ≡ r.capacity)
evict-Tracks r l tracks =
    rw (evict-evict_if r, sym (find_any (reverse l)))
      (evict_if-Tracks r l (λ p. ok true) (λ p. true) tracks (λ p h. refl))

peek_loop_lem :
    (fuel limit : ℕ) (candidates : List PageId) (r : LruReplacer) (ys zs : Nodes)
    → length ys < fuel
    → IsLru r (ys ++ zs)
    → peek_loop fuel limit (last_or none ys) candidates r
      ≡ ok (candidates ++ take (suc limit - length candidates) (reverse (pages_of ys)))
unfolding peek_loop
peek_loop_lem zero limit candidates r ys zs lt is = absurd (omega arith)
peek_loop_lem (suc fuel) limit candidates r ys zs lt is = elim (last-cases ys) [
  | inl e ↦
      subst
        (λ xs.
          peek_loop (suc fuel) limit (last_or none xs) candidates r
          ≡ ok (candidates ++ take (suc limit - length candidates) (reverse (pages_of xs))))
        (sym e)
        (rw (take-nil {A = PageId} (suc limit - length candidates), append-nil candidates) refl)
  | inr (xs, i, p, e) ↦
      let same : ys ++ zs ≡ xs ++ (i, p) ∷ zs =
        ap (λ l. l ++ zs) e ∙ append_assoc xs ((i, p) ∷ []) zs in
      let is' = subst (IsLru r) same is in
      let at = (Segment-split r.arena none xs ((i, p) ∷ zs) none is'.linked.chain).1.0 in
      let shorter : length xs < fuel = omega (arith, ap length e, length-append xs ((i, p) ∷ [])) in
      let rest = peek_loop_lem fuel limit (candidates ++ p ∷ []) r xs ((i, p) ∷ zs) shorter is' in
      rw (e, reverse-pages_of xs i p, last_or-append none xs ((i, p) ∷ []))
        (elim (Bool-cases (ltb limit (length candidates))) [
          | inl full ↦
              let zero_left : suc limit - length candidates ≡ 0 =
                omega (arith, ltb→lt limit (length candidates) full) in
              rw (peek_loop, full, zero_left, append-nil candidates) refl
          | inr more ↦
              let m = suc limit - length (candidates ++ p ∷ []) in
              let one : suc limit - length candidates ≡ suc m =
                omega (
                  arith,
                  length-append candidates (p ∷ []),
                  ltb→le limit (length candidates) more,
                ) in
              rw
                (
                  peek_loop,
                  more,
                  at,
                  rest,
                  one,
                  append_assoc candidates (p ∷ []) (take m (reverse (pages_of xs))),
                )
                refl
        ])
]

-- `peek_rev` returns the least recent pages, the least recent first: one more than `limit` of them,
-- where there are as many. The rounds of its loop are enough.
pub peek_rev-Tracks :
    (r : LruReplacer) (l : List PageId) (limit : ℕ)
    → Tracks r l
    → peek_rev limit r ≡ ok (take (limit + 1) (reverse l))
unfolding peek_rev
peek_rev-Tracks r l limit (xs, is, view) =
    let fuel = length r.arena + 1 in
    let more : suc limit - 0 ≡ limit + 1 = omega arith in
    ap (λ t. peek_loop fuel limit t [] r) is.linked.tail
    ∙ (peek_loop_lem fuel limit [] r xs [] (omega (arith, is.room))
          (subst (IsLru r) (sym (append-nil xs)) is)
        ∙ (ap (λ n. ok (take n (reverse (pages_of xs)))) more
            ∙ ap (λ m. ok (take (limit + 1) (reverse m))) view))
