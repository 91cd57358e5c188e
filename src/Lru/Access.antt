-- ===== src/Lru/Access.antt =====
-- `record_access` and `remove` (lru.rs) refine the list of pages by recency.
use smol_db.Common.{
  ℕ, suc, ◌+◌, ◌≤◌, ◌<◌, ◌≡◌, refl, sym, ap, subst, ◌∙◌, List, [], ◌∷◌, ◌++◌, Option, none, some,
  arith, lt→ltb, length, length-append, length-set, get_elem?, set, get_elem?-set_self,
  get_elem?-some, get_elem?-append_left, get_elem?-append_last, get_elem?-lt, All, count,
  count-append, count_head, Distinct, cons-Distinct, count-Bound,
}
use smol_db.HashMap
use smol_db.HashMap.{lookup-insert, insert-IsMap, length-insert_absent}
use smol_db.Error.Outcome.{ok, ◌>>=◌}
use smol_db.Page.{PageId}
use smol_db.Lru.{LruNode, LruReplacer, unlinked, allocate, track, insert_head, unlink}
use smol_db.Lru.Segment.{Nodes, indices, pages_of, Segment, Segment-split, Segment-set}
use smol_db.Lru.Link.{relinked, unlink_lem, insert_head_lem, count-indices}
use smol_db.Lru.State.{IsLru, index_of, absent-index_of, count-pages_of}

-- a node that moves to the front
index_of_front :
    (k i : ℕ) (p : PageId) (ys zs : Nodes)
    → count p (pages_of (ys ++ zs)) ≡ 0
    → index_of k ((i, p) ∷ ys ++ zs) ≡ index_of k (ys ++ (i, p) ∷ zs)
unfolding count
index_of_front k i p [] zs h = refl
index_of_front k i p ((j, q) ∷ ys) zs h = ground (arith, index_of_front k i p ys zs)

-- a tracked page moves to the front
pub touch_lem :
    (r : LruReplacer) (ys zs : Nodes) (i : ℕ) (p : PageId)
    → IsLru r (ys ++ (i, p) ∷ zs)
    → (r' : LruReplacer) × ((unlink i r >>= insert_head i) ≡ ok r')
      × IsLru r' ((i, p) ∷ (ys ++ zs))
      × (r'.capacity ≡ r.capacity)
unfolding count
touch_lem r ys zs i p is =
    let whole = ys ++ (i, p) ∷ zs in
    let parts = λ (j : ℕ). count-indices j ys ((i, p) ∷ zs) in
    let d : Distinct (indices whole) =
      λ j. omega (arith, is.slots j, count-append j (indices whole) r.free_list) in
    let (a, e, chain, spares) = unlink_lem r ys zs i p d is.linked in
    let r1 = relinked r a (ys ++ zs) in
    let out : count i (indices (ys ++ zs)) ≡ 0 =
      omega (arith, d i, parts i, count-indices i ys zs, count_head i (indices zs)) in
    let at =
      spares.others i out
      ∙ (Segment-split r.arena none ys ((i, p) ∷ zs) none is.linked.chain).1.0 in
    let (a2, e2, chain2, same) =
      insert_head_lem r1 (ys ++ zs) i _ (λ j. omega (arith, d j, parts j, count-indices j ys zs))
        out at (record { head = refl; tail = refl; chain = chain }) in
    let gone : count p (pages_of (ys ++ zs)) ≡ 0 = omega (
      arith,
      is.unique p,
      count-pages_of p ys ((i, p) ∷ zs),
      count-pages_of p ys zs,
      count_head p (pages_of zs),
    ) in
    let long = length-append ys ((i, p) ∷ zs) in
    let size : length a2 ≡ length r.arena = same ∙ spares.size in
    (
      relinked r1 a2 ((i, p) ∷ (ys ++ zs)),
      rw e e2,
      record {
        linked = record { head = refl; tail = refl; chain = chain2 };
        slots = λ j. omega (
          arith,
          is.slots j,
          parts j,
          count-append j (indices whole) r.free_list,
          count-indices j ys zs,
          count-append j (indices (ys ++ zs)) r.free_list,
        );
        inside = subst (λ (n : ℕ). All (λ j. j < n) r.free_list) (sym size) is.inside;
        room = omega (arith, is.room, size, long, length-append ys zs);
        unique = λ k.
            omega (arith, is.unique k, count-pages_of k ys ((i, p) ∷ zs), count-pages_of k ys zs);
        mapped = λ k. is.mapped k ∙ sym (index_of_front k i p ys zs gone);
        keyed = is.keyed;
        sized = omega (arith, is.sized, long, length-append ys zs);
        bounded = omega (arith, is.bounded, long, length-append ys zs);
        held = omega (arith, is.held, size);
      },
      refl,
    )

-- a new node at the front, in a slot that is not in use
placed_lem :
    (r : LruReplacer) (xs : Nodes) (arena : List LruNode) (free : List ℕ) (i : ℕ) (p : PageId)
    → IsLru r xs
    → Segment arena none xs none
    → get_elem? arena i ≡ some (unlinked p)
    → Distinct (i ∷ indices xs ++ free)
    → All (λ j. j < length arena) free
    → length arena ≡ 1 + length xs + length free
    → HashMap.lookup p r.pages ≡ none
    → length xs < r.capacity
    → length arena ≤ r.capacity
    → (r' : LruReplacer) × (insert_head i
          (record r { arena = arena; free_list = free; pages = HashMap.insert p i r.pages })
        ≡ ok r')
      × IsLru r' ((i, p) ∷ xs)
      × (r'.capacity ≡ r.capacity)
unfolding count
placed_lem r xs arena free i p is chain at d inside room absent lt held =
    let r1 = record r { arena = arena; free_list = free; pages = HashMap.insert p i r.pages } in
    let (a2, e2, chain2, same) =
      insert_head_lem r1 xs i (unlinked p)
        (λ j. omega (arith, d j, count-append j (indices xs) free))
        (omega (arith, d i, count_head i (indices xs ++ free), count-append i (indices xs) free)) at
        (record { head = is.linked.head; tail = is.linked.tail; chain = chain }) in
    (
      relinked r1 a2 ((i, p) ∷ xs),
      e2,
      record {
        linked = record { head = refl; tail = refl; chain = chain2 };
        slots = d;
        inside = subst (λ (n : ℕ). All (λ j. j < n) free) (sym same) inside;
        room = omega (arith, same, room);
        unique =
            cons-Distinct p (pages_of xs) (absent-index_of p xs (sym (is.mapped p) ∙ absent))
              is.unique;
        mapped = λ k. lookup-insert p k i r.pages ∙ ground (arith, is.mapped k);
        keyed = insert-IsMap p i r.pages is.keyed;
        sized = omega (arith, length-insert_absent p i r.pages absent, is.sized);
        bounded = omega arith;
        held = omega (arith, same);
      },
      refl,
    )

-- an arena that grows
Segment-append :
    (arena : List LruNode) (n : LruNode) (before : Option ℕ) (xs : Nodes) (after : Option ℕ)
    → Segment arena before xs after
    → Segment (arena ++ n ∷ []) before xs after
Segment-append arena n before [] after s = tt
Segment-append arena n before ((i, p) ∷ xs) after s =
    (get_elem?-append_left arena (n ∷ []) i s.0, Segment-append arena n (some i) xs after s.1)

Segment-Bound :
    (arena : List LruNode) (before : Option ℕ) (xs : Nodes) (after : Option ℕ)
    → Segment arena before xs after
    → All (λ i. i < length arena) (indices xs)
Segment-Bound arena before [] after s = tt
Segment-Bound arena before ((i, p) ∷ xs) after s =
    (get_elem?-lt arena i s.0, Segment-Bound arena (some i) xs after s.1)

All-lt_mono : (m n : ℕ) (xs : List ℕ) → m ≤ n → All (λ x. x < m) xs → All (λ x. x < n) xs
All-lt_mono m n [] le h = tt
All-lt_mono m n (x ∷ xs) le h = (omega (arith, h.0), All-lt_mono m n xs le h.1)

-- a page that is not tracked, while there is room
pub track_lem :
    (r : LruReplacer) (xs : Nodes) (p : PageId) (free : List ℕ)
    → r.free_list ≡ free
    → IsLru r xs
    → HashMap.lookup p r.pages ≡ none
    → length xs < r.capacity
    → (i : ℕ) × (r' : LruReplacer) × (track p r ≡ ok r')
      × IsLru r' ((i, p) ∷ xs)
      × (r'.capacity ≡ r.capacity)
unfolding track allocate count
track_lem r xs p [] e is absent lt =
    let n = length r.arena in
    let slots : Distinct (indices xs ++ []) = subst (λ f. Distinct (indices xs ++ f)) e is.slots in
    let room : n ≡ length xs + 0 = is.room ∙ ap (λ (f : List ℕ). length xs + length f) e in
    let out : count n (indices xs ++ []) ≡ 0 = omega (
      arith,
      count-append n (indices xs) [],
      count-Bound n (indices xs) (Segment-Bound r.arena none xs none is.linked.chain),
    ) in
    let (r', run, is', cap) =
      placed_lem r xs (r.arena ++ unlinked p ∷ []) [] n p is
        (Segment-append r.arena (unlinked p) none xs none is.linked.chain)
        (get_elem?-append_last r.arena (unlinked p)) (cons-Distinct n (indices xs ++ []) out slots)
        tt (omega (arith, room, length-append r.arena (unlinked p ∷ []))) absent lt
        (omega (arith, room, length-append r.arena (unlinked p ∷ []))) in
    (n, r', rw (lt→ltb (length r.pages) r.capacity (omega (arith, is.sized)), e) run, is', cap)
track_lem r xs p (f ∷ free) e is absent lt =
    let slots : Distinct (indices xs ++ f ∷ free) =
      subst (λ f'. Distinct (indices xs ++ f')) e is.slots in
    let inside : All (λ j. j < length r.arena) (f ∷ free) =
      subst (λ f'. All (λ j. j < length r.arena) f') e is.inside in
    let room : length r.arena ≡ length xs + suc (length free) =
      is.room ∙ ap (λ (f' : List ℕ). length xs + length f') e in
    let parts = λ (j : ℕ). count-append j (indices xs) (f ∷ free) in
    let out : count f (indices xs) ≡ 0 = omega (arith, slots f, parts f, count_head f free) in
    let size = length-set r.arena f (unlinked p) in
    let (n, at) = get_elem?-some r.arena f inside.0 in
    let (r', run, is', cap) =
      placed_lem r xs (set r.arena f (unlinked p)) free f p is
        (Segment-set r.arena f (unlinked p) none xs none out is.linked.chain)
        (get_elem?-set_self r.arena f (unlinked p) inside.0)
        (λ j. omega (arith, slots j, parts j, count-append j (indices xs) free))
        (All-lt_mono (length r.arena) _ free (omega (arith, size)) inside.1)
        (omega (arith, size, room)) absent lt (omega (arith, size, is.held)) in
    (f, r', rw (lt→ltb (length r.pages) r.capacity (omega (arith, is.sized)), e, at) run, is', cap)
