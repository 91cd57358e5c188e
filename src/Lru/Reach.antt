-- ===== src/Lru/Reach.antt =====
-- Every replacer (lru.rs) that the operations lead to from a new one.
use smol_db.Common.{
  ℕ, ◌+◌, ◌≤◌, ◌<◌, ◌≡◌, refl, sym, ap, ◌∙◌, subst, ◌⊎◌, inl, inr, Bool, List, [], Option, arith,
  dec_lt, length, count,
}
use smol_db.Error.Outcome.{ok}
use smol_db.Page.{PageId}
use smol_db.Lru.{LruReplacer, new, size, record_access, remove, evict_if}
use smol_db.Lru.State.{Tracks, length-pages_of}
use smol_db.Lru.Refine.{new-Tracks, record_access-Tracks, record_access-full, remove-Tracks}
use smol_db.Lru.Evict.{evict_if-Tracks}

-- the replacers that calls which return lead to
pub data Reached (capacity : ℕ) : LruReplacer → Type 0 where
  start : Reached capacity (new capacity)
  accessed :
      {r r' : LruReplacer} (p : PageId)
      → Reached capacity r
      → record_access p r ≡ ok r'
      → Reached capacity r'
  removed :
      {r r' : LruReplacer} (p : PageId)
      → Reached capacity r
      → remove p r ≡ ok r'
      → Reached capacity r'
  evicted :
      {r r' : LruReplacer} {victim : Option PageId} (test : PageId → Bool)
      → Reached capacity r
      → evict_if (λ p. ok (test p)) r ≡ ok (victim, r')
      → Reached capacity r'

abbrev IsKept : ℕ → LruReplacer → Type 0
IsKept capacity r = (l : List PageId) × Tracks r l × (r.capacity ≡ capacity)

-- the outcome of a call is one value
same_ok : {A : Type 0} {a b : A} → ok a ≡ ok b → a ≡ b
same_ok e = cc

Reached-IsKept : {capacity : ℕ} {r : LruReplacer} → Reached capacity r → IsKept capacity r
unfolding new
Reached-IsKept {capacity} start = ([], new-Tracks capacity, refl)
Reached-IsKept {capacity} (accessed {r} {r'} p before run) =
    let (l, tracks, cap) = Reached-IsKept before in
    let grown : ((0 < count p l) ⊎ (length l < r.capacity)) → IsKept capacity r' = λ room.
      let (r1, run1, tracks1, cap1) = record_access-Tracks r l p tracks room in
      subst (IsKept capacity) (same_ok (sym run1 ∙ run)) (_, tracks1, cap1 ∙ cap) in
    elim (dec_lt 0 (count p l)) [
      | yes old ↦ grown (inl old)
      | no new_page ↦ elim (dec_lt (length l) r.capacity) [
        | yes room ↦ grown (inr room)
        | no full ↦ cc (record_access-full r l p tracks (omega arith) (omega arith))
      ]
    ]
Reached-IsKept {capacity} (removed {r} {r'} p before run) =
    let (l, tracks, cap) = Reached-IsKept before in
    let (r1, run1, tracks1, cap1) = remove-Tracks r l p tracks in
    subst (IsKept capacity) (same_ok (sym run1 ∙ run)) (_, tracks1, cap1 ∙ cap)
Reached-IsKept {capacity} (evicted {r} {r'} {victim} test before run) =
    let (l, tracks, cap) = Reached-IsKept before in
    let (r1, run1, tracks1, cap1) =
      evict_if-Tracks r l (λ p. ok (test p)) test tracks (λ p h. refl) in
    subst (IsKept capacity)
      (ap (λ (q : Option PageId × LruReplacer). q.1) (same_ok (sym run1 ∙ run)))
      (_, tracks1, cap1 ∙ cap)

-- However the calls are ordered, the replacer tracks a list of pages, and neither that list nor the
-- arena outgrows the capacity that it was made with; a slot of the arena is in the list or free.
pub Reached-Bounds :
    (capacity : ℕ) (r : LruReplacer)
    → Reached capacity r
    → (l : List PageId) × Tracks r l
      × (size r ≡ length l)
      × (length l ≤ capacity)
      × (length r.arena ≤ capacity)
      × (length r.arena ≡ length l + length r.free_list)
unfolding size
Reached-Bounds capacity r reached =
    let (l, (xs, is, view), cap) = Reached-IsKept reached in
    let same : length l ≡ length xs = sym (ap length view) ∙ length-pages_of xs in
    (
      l,
      (xs, is, view),
      omega (arith, is.sized, same),
      omega (arith, is.bounded, same, cap),
      omega (arith, is.held, cap),
      omega (arith, is.room, same),
    )
