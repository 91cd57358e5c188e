-- ===== src/Lru/Examples.antt =====
-- Runs of the replacer, and the theorems about it at concrete replacers.
use smol_db.Common.{
  ℕ, ◌+◌, ◌≤◌, ◌<◌, ◌≡◌, refl, inl, Bool, List, [], ◌∷◌, none, some, arith, ◌==◌, length, take,
  count,
}
use mathlib.Core.List.{reverse}
use smol_db.HashMap
use smol_db.Error.Outcome.{ok, ◌>>=◌}
use smol_db.Lru.{
  LruReplacer, new, size, set_prev, set_next, link_next, link_prev, insert_head, unlink, allocate,
  track, record_access, evict_if, peek_rev, peek_loop,
}
use smol_db.Lru.State.{Tracks, erase}
use smol_db.Lru.Refine.{record_access-Tracks}
use smol_db.Lru.Evict.{find, without, evict_if-Tracks, peek_rev-Tracks}
use smol_db.Lru.Reach.{start, accessed, Reached-Bounds}

-- 8 was used after 7
abbrev two_pages : LruReplacer
two_pages = record {
  pages = (8, 1) ∷ (7, 0) ∷ [];
  arena =
      record { prev = some 1; page_id = 7; next = none }
      ∷ record { prev = none; page_id = 8; next = some 0 }
      ∷ [];
  head_idx = some 1;
  tail_idx = some 0;
  capacity = 2;
  free_list = [];
}

two_pages-Tracks : Tracks two_pages (8 ∷ 7 ∷ [])
unfolding count HashMap.lookup
two_pages-Tracks = (
  (1, 8) ∷ (0, 7) ∷ [],
  record {
    linked = record { head = refl; tail = refl; chain = (refl, (refl, tt)) };
    slots = λ a. ground arith;
    inside = tt;
    room = omega arith;
    unique = λ a. ground arith;
    mapped = λ k. refl;
    keyed = (refl, (refl, tt));
    sized = refl;
    bounded = omega arith;
    held = omega arith;
  },
  refl,
)

built : (record_access 7 (new 2) >>= record_access 8) ≡ ok two_pages
unfolding new record_access track allocate insert_head set_prev set_next link_prev HashMap.lookup
    HashMap.insert HashMap.remove
built = refl

abbrev touched : LruReplacer
touched = record two_pages {
  arena =
      record { prev = none; page_id = 7; next = some 1 }
      ∷ record { prev = some 0; page_id = 8; next = none }
      ∷ [];
  head_idx = some 0;
  tail_idx = some 1;
}

touch_runs : record_access 7 two_pages ≡ ok touched
unfolding record_access unlink insert_head set_prev set_next link_prev link_next HashMap.lookup
touch_runs = refl

-- one page more than the limit
peek_runs : peek_rev 0 two_pages ≡ ok (7 ∷ [])
unfolding peek_rev peek_loop
peek_runs = refl

tracked_7 : 0 < count 7 (8 ∷ 7 ∷ [])
unfolding count
tracked_7 = omega arith

untracked_9 : count 9 (8 ∷ 7 ∷ []) ≡ 0
unfolding count
untracked_9 = refl

record_access-Tracks_example :
    (r : LruReplacer) × (record_access 7 two_pages ≡ ok r)
    × Tracks r (7 ∷ erase 7 (8 ∷ 7 ∷ []))
    × (r.capacity ≡ 2)
record_access-Tracks_example =
    record_access-Tracks two_pages (8 ∷ 7 ∷ []) 7 two_pages-Tracks (inl tracked_7)

abbrev is_8 : ℕ → Bool
is_8 p = p == 8

evict_if-Tracks_example :
    (r : LruReplacer) × (evict_if (λ p. ok (is_8 p)) two_pages
      ≡ ok (find is_8 (reverse (8 ∷ 7 ∷ [])), r))
    × Tracks r (without (find is_8 (reverse (8 ∷ 7 ∷ []))) (8 ∷ 7 ∷ []))
    × (r.capacity ≡ 2)
evict_if-Tracks_example =
    evict_if-Tracks two_pages (8 ∷ 7 ∷ []) (λ p. ok (is_8 p)) is_8 two_pages-Tracks (λ p h. refl)

peek_rev-Tracks_example : peek_rev 1 two_pages ≡ ok (take (1 + 1) (reverse (8 ∷ 7 ∷ [])))
peek_rev-Tracks_example = peek_rev-Tracks two_pages (8 ∷ 7 ∷ []) 1 two_pages-Tracks

abbrev one_page : LruReplacer
one_page = record {
  pages = (7, 0) ∷ [];
  arena = record { prev = none; page_id = 7; next = none } ∷ [];
  head_idx = some 0;
  tail_idx = some 0;
  capacity = 2;
  free_list = [];
}

first_run : record_access 7 (new 2) ≡ ok one_page
unfolding new record_access track allocate insert_head set_prev set_next link_prev HashMap.lookup
    HashMap.insert HashMap.remove
first_run = refl

second_run : record_access 8 one_page ≡ ok two_pages
unfolding record_access track allocate insert_head set_prev set_next link_prev HashMap.lookup
    HashMap.insert HashMap.remove
second_run = refl

Reached-Bounds_example :
    (l : List ℕ) × Tracks two_pages l
    × (size two_pages ≡ length l)
    × (length l ≤ 2)
    × (length two_pages.arena ≤ 2)
    × (length two_pages.arena ≡ length l + length two_pages.free_list)
Reached-Bounds_example =
    Reached-Bounds 2 two_pages (accessed 8 (accessed 7 start first_run) second_run)
