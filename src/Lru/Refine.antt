-- ===== src/Lru/Refine.antt =====
-- `LruReplacer` (lru.rs) implements a list of pages by recency.
use smol_db.Common.{
  ℕ, ◌≤◌, ◌<◌, ◌≡◌, refl, sym, ap, subst, ◌∙◌, ◌⊎◌, inl, inr, List, [], ◌∷◌, ◌++◌, none, some,
  arith, Option-cases, le→ltb, length, count, count_head,
}
use smol_db.HashMap
use smol_db.Error.Outcome.{ok, panic, ◌>>=◌}
use smol_db.Page.{PageId}
use smol_db.Lru.{LruReplacer, new, track, unlink, insert_head, record_access, remove, release}
use smol_db.Lru.Segment.{Nodes, pages_of}
use smol_db.Lru.State.{
  IsLru, Tracks, erase, index_of-split, absent-index_of, index_of_absent, erase_middle,
  erase_absent, length-pages_of, count-pages_of, release_lem,
}
use smol_db.Lru.Access.{touch_lem, track_lem}

-- A new replacer tracks no page.
pub new-Tracks : (capacity : ℕ) → Tracks (new capacity) []
unfolding new count HashMap.lookup
new-Tracks capacity = (
  [],
  record {
    linked = record { head = refl; tail = refl; chain = tt };
    slots = λ a. omega arith;
    inside = tt;
    room = omega arith;
    unique = λ a. omega arith;
    mapped = λ k. refl;
    keyed = tt;
    sized = refl;
    bounded = omega arith;
    held = omega arith;
  },
  refl,
)

-- where a tracked page stands
find_node :
    (r : LruReplacer) (xs : Nodes) (p : PageId) (i : ℕ)
    → IsLru r xs
    → HashMap.lookup p r.pages ≡ some i
    → (ys : Nodes) × (zs : Nodes) × IsLru r (ys ++ (i, p) ∷ zs)
      × (erase p (pages_of xs) ≡ pages_of (ys ++ zs))
unfolding count
find_node r xs p i is e =
    let (ys, zs, same) = index_of-split p i xs (sym (is.mapped p) ∙ e) in
    let is' = subst (IsLru r) same is in
    let first : count p (pages_of ys) ≡ 0 =
      omega (arith, is'.unique p, count-pages_of p ys ((i, p) ∷ zs), count_head p (pages_of zs)) in
    (ys, zs, is', ap (λ l. erase p (pages_of l)) same ∙ erase_middle p i ys zs first)

record_access_old :
    (r : LruReplacer) (p : PageId) (i : ℕ)
    → HashMap.lookup p r.pages ≡ some i
    → record_access p r ≡ (unlink i r >>= insert_head i)
unfolding record_access
record_access_old r p i e = rw (record_access, e) refl

record_access_new :
    (r : LruReplacer) (p : PageId) → HashMap.lookup p r.pages ≡ none → record_access p r ≡ track p r
unfolding record_access
record_access_new r p e = rw (record_access, e) refl

remove_old :
    (r : LruReplacer) (p : PageId) (i : ℕ)
    → HashMap.lookup p r.pages ≡ some i
    → remove p r ≡ release i p r
unfolding remove
remove_old r p i e = rw (remove, e) refl

remove_new : (r : LruReplacer) (p : PageId) → HashMap.lookup p r.pages ≡ none → remove p r ≡ ok r
unfolding remove
remove_new r p e = rw (remove, e) refl

-- `record_access` moves a tracked page to the front of the list and puts a new one there while
-- there is room; all other pages keep their order, and no page is lost.
pub record_access-Tracks :
    (r : LruReplacer) (l : List PageId) (p : PageId)
    → Tracks r l
    → (0 < count p l) ⊎ (length l < r.capacity)
    → (r' : LruReplacer) × (record_access p r ≡ ok r')
      × Tracks r' (p ∷ erase p l)
      × (r'.capacity ≡ r.capacity)
record_access-Tracks r l p (xs, is, view) room = elim (Option-cases (HashMap.lookup p r.pages)) [
  | inl new_page ↦
      let absent : count p (pages_of xs) ≡ 0 =
        absent-index_of p xs (sym (is.mapped p) ∙ new_page) in
      let lt : length xs < r.capacity =
        omega (arith, ap (count p) view, ap length view, length-pages_of xs) in
      let (i, r', run, is', cap) = track_lem r xs p r.free_list refl is new_page lt in
      (
        r',
        record_access_new r p new_page ∙ run,
        (
          (i, p) ∷ xs,
          is',
          ap (◌∷◌ p) (sym (erase_absent p (pages_of xs) absent) ∙ ap (erase p) view),
        ),
        cap,
      )
  | inr (i, old) ↦
      let (ys, zs, is', gone) = find_node r xs p i is old in
      let (r', run, is'', cap) = touch_lem r ys zs i p is' in
      (
        r',
        record_access_old r p i old ∙ run,
        ((i, p) ∷ (ys ++ zs), is'', ap (◌∷◌ p) (sym gone ∙ ap (erase p) view)),
        cap,
      )
]

-- On a full replacer `record_access` of a page that is not tracked panics.
pub record_access-full :
    (r : LruReplacer) (l : List PageId) (p : PageId)
    → Tracks r l
    → count p l ≡ 0
    → r.capacity ≤ length l
    → record_access p r ≡ panic
unfolding record_access track
record_access-full r l p (xs, is, view) absent full =
    let out : HashMap.lookup p r.pages ≡ none =
      is.mapped p ∙ index_of_absent p xs (omega (arith, ap (count p) view)) in
    rw
      (
        record_access,
        out,
        le→ltb (length r.pages) r.capacity
            (omega (arith, is.sized, ap length view, length-pages_of xs)),
      )
      refl

-- `remove` takes a page out of the list, and does nothing where it is not tracked.
pub remove-Tracks :
    (r : LruReplacer) (l : List PageId) (p : PageId)
    → Tracks r l
    → (r' : LruReplacer) × (remove p r ≡ ok r') × Tracks r' (erase p l) × (r'.capacity ≡ r.capacity)
remove-Tracks r l p (xs, is, view) = elim (Option-cases (HashMap.lookup p r.pages)) [
  | inl absent ↦
      let out = absent-index_of p xs (sym (is.mapped p) ∙ absent) in
      (
        r,
        remove_new r p absent,
        (xs, is, sym (erase_absent p (pages_of xs) out) ∙ ap (erase p) view),
        refl,
      )
  | inr (i, old) ↦
      let (ys, zs, is', gone) = find_node r xs p i is old in
      let (r', run, is'', cap) = release_lem r ys zs i p is' in
      (r', remove_old r p i old ∙ run, (ys ++ zs, is'', sym gone ∙ ap (erase p) view), cap)
]
