-- ===== src/Pool/Evict.antt =====
-- The choice of a page to evict (buffer_pool.rs, `evict_page`).
use smol_db.Common.{
  ℕ, ◌+◌, ◌≤◌, ◌<◌, ◌≡◌, refl, sym, ap, subst, ◌∙◌, ◌⊎◌, inl, inr, Bool, true, false, List, [], ◌∷◌,
  Option, none, some, arith, Bool-cases, Option-cases, ◌==◌, length, count, count-append,
}
use mathlib.Core.List.{reverse, reverse-append}
use smol_db.HashMap
use smol_db.HashMap.{HashMap}
use smol_db.Error.{lru_eviction}
use smol_db.Error.Outcome.{ok, err}
use smol_db.Page.{PageId}
use smol_db.Lru.{LruReplacer}
use smol_db.Lru.State.{Tracks, erase}
use smol_db.Lru.Evict.{find, without, evict_if-Tracks}
use smol_db.Pool.{BufferPool, Frame, evictable, take_victim}
use smol_db.Pool.State.{IsPool, held, length-erase, count-erase}

-- nobody holds the page
abbrev pub unpinned : HashMap Frame → PageId → Bool
unpinned table k = elim (HashMap.lookup k table) [ some frame ↦ frame.handles == 0 | none ↦ false ]

find_sound :
    (test : PageId → Bool) (l : List PageId) (k : PageId)
    → find test l ≡ some k
    → (0 < count k l) × (test k ≡ true)
unfolding count
find_sound test [] k h = ground arith
find_sound test (x ∷ l) k h = elim (Bool-cases (test x)) [
  | inl yes_x ↦
      let same : x ≡ k = ground (arith, h, yes_x) in
      (ground arith, subst (λ y. test y ≡ true) same yes_x)
  | inr no_x ↦
      let (there, passes) = find_sound test l k (ground (arith, h, no_x)) in (ground arith, passes)
]

find_complete :
    (test : PageId → Bool) (l : List PageId) (k : PageId)
    → find test l ≡ none
    → 0 < count k l
    → test k ≡ false
unfolding count
find_complete test [] k h there = absurd (omega (arith, there))
find_complete test (x ∷ l) k h there = elim (Bool-cases (test x)) [
  | inl yes_x ↦ ground (arith, h, yes_x)
  | inr no_x ↦ elim (Bool-cases (x == k)) [
    | inl same ↦ subst (λ y. test y ≡ false) (ground arith) no_x
    | inr other ↦ find_complete test l k (ground (arith, h, no_x)) (ground (arith, there, other))
  ]
]

count-reverse : (k : ℕ) (l : List ℕ) → count k (reverse l) ≡ count k l
unfolding count
count-reverse k [] = refl
count-reverse k (x ∷ l) =
    ap (count k) (reverse-append (x ∷ []) l)
    ∙ (count-append k (reverse l) (x ∷ []) ∙ ground (arith, count-reverse k l))

held_le : (frame : Option Frame) → held frame ≤ 1
held_le none = omega arith
held_le (some frame) = omega arith

count-lost :
    (k j : ℕ) (l lost : List ℕ)
    → 0 < count k l
    → count j (erase k l) + count j (k ∷ lost) ≡ count j l + count j lost
unfolding count
count-lost k j l lost there = ground (arith, count-erase k j l)

length-lost :
    (k : ℕ) (l lost : List ℕ)
    → 0 < count k l
    → length (erase k l) + length (k ∷ lost) ≡ length l + length lost
length-lost k l lost there = ground (arith, length-erase k l)

erased : (k : ℕ) (l : List ℕ) → count k l ≤ 1 → count k (erase k l) ≡ 0
erased k l h = ground (arith, count-erase k k l)

evictable_lem :
    (table : HashMap Frame) (k : PageId)
    → held (HashMap.lookup k table) ≡ 1
    → evictable table k ≡ ok (unpinned table k)
unfolding evictable
evictable_lem table k there = elim (Option-cases (HashMap.lookup k table)) [
  | inl absent ↦ absurd (omega (arith, there, ap held absent))
  | inr (frame, e) ↦ ground (arith, e)
]

unpinned-frame :
    (table : HashMap Frame) (k : PageId)
    → unpinned table k ≡ true
    → (frame : Frame) × (HashMap.lookup k table ≡ some frame) × (frame.handles ≡ 0)
unpinned-frame table k h = elim (Option-cases (HashMap.lookup k table)) [
  | inl absent ↦ ground (arith, h, absent)
  | inr (frame, e) ↦ (frame, e, ground (arith, h, e))
]

module _ {W : Type 0} where
  -- no page of the replacer can go
  abbrev AllPinned : BufferPool W → List PageId → Type 0
  AllPinned p l = (k : PageId) → 0 < count k l → unpinned p.page_table k ≡ false

  -- `take_victim` finds no page, and the pool is as it was, or a page that nobody holds, which the
  -- replacer then forgets.
  pub take_victim_lem :
      (p : BufferPool W) (l lost : List PageId)
      → IsPool p l lost
      → (r : LruReplacer) × (((take_victim p ≡ (err lru_eviction, record p { replacer = r }))
            × AllPinned p l
            × IsPool (record p { replacer = r }) l lost)
          ⊎ ((k : PageId) × (frame : Frame) × (take_victim p ≡ (ok k, record p { replacer = r }))
              × (HashMap.lookup k p.page_table ≡ some frame)
              × (frame.handles ≡ 0)
              × IsPool (record p { replacer = r }) (erase k l) (k ∷ lost)
              × (count k (erase k l) ≡ 0)))
  unfolding take_victim evictable count
  take_victim_lem p l lost is =
      let inside : (k : PageId) → 0 < count k l → held (HashMap.lookup k p.page_table) ≡ 1 =
        λ k h. omega (arith, is.members k, h, held_le (HashMap.lookup k p.page_table)) in
      let test = unpinned p.page_table in
      let (r, run, tracks, cap) =
        evict_if-Tracks p.replacer l (evictable p.page_table) test is.tracks
          (λ k h. evictable_lem p.page_table k (inside k h)) in
      (
        r,
        elim (Option-cases (find test (reverse l))) [
          | inl nobody ↦ inl (
            rw (take_victim, run, nobody) refl,
            (λ k h. find_complete test (reverse l) k nobody (omega (arith, count-reverse k l))),
            record {
              tracks = subst (λ v. Tracks r (without v l)) nobody tracks;
              same = cap ∙ is.same;
              members = is.members;
              keyed = is.keyed;
              sized = is.sized;
              fits = is.fits;
            },
          )
          | inr (k, one) ↦
              let (seen, free) = find_sound test (reverse l) k one in
              let there : 0 < count k l = omega (arith, count-reverse k l, seen) in
              let (frame, e, idle) = unpinned-frame p.page_table k free in
              inr (
                k,
                frame,
                rw (take_victim, run, one) refl,
                e,
                idle,
                record {
                  tracks = subst (λ v. Tracks r (without v l)) one tracks;
                  same = cap ∙ is.same;
                  members = λ j. count-lost k j l lost there ∙ is.members j;
                  keyed = is.keyed;
                  sized = is.sized ∙ sym (length-lost k l lost there);
                  fits = is.fits;
                },
                erased k l (omega (arith, is.members k, inside k there)),
              )
        ],
      )
