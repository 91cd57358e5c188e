-- ===== src/Lru/Link.antt =====
-- `unlink` and `insert_head` (lru.rs) on a replacer whose list is linked in the arena.
use smol_db.Common.{
  ℕ, ◌+◌, ◌<◌, ◌≡◌, refl, ap, ◌∙◌, List, [], ◌∷◌, ◌++◌, Option, none, some, arith, length,
  length-set, get_elem?, set, get_elem?-set_self, get_elem?-set_ne, get_elem?-lt, count,
  count-append, count_head, Distinct,
}
use smol_db.Error.Outcome.{ok}
use smol_db.Page.{PageId}
use smol_db.Lru.{
  LruNode, LruReplacer, set_prev, set_next, link_next, link_prev, insert_head, unlink,
}
use smol_db.Lru.Segment.{
  Nodes, indices, indices-append, first_or, first_or-append, last_or, last_or-append, Segment,
  Segment-split, Segment-join, Segment-frame, Segment-set, Segment-set_prev, Segment-set_next,
}

-- the list of the replacer
pub record IsLinked (r : LruReplacer) (xs : Nodes) : Type 0 where
  pub head : r.head_idx ≡ first_or xs none
  pub tail : r.tail_idx ≡ last_or none xs
  pub chain : Segment r.arena none xs none

-- the replacer with another arena and other ends
abbrev pub relinked : LruReplacer → List LruNode → Nodes → LruReplacer
relinked r arena xs = record r {
  arena = arena;
  head_idx = first_or xs none;
  tail_idx = last_or none xs;
}

-- writes keep the length of the arena and what stands outside a list of indices
pub record Spares (old new : List LruNode) (is : List ℕ) : Type 0 where
  pub size : length new ≡ length old
  pub others : (j : ℕ) → count j is ≡ 0 → get_elem? new j ≡ get_elem? old j

Spares-set :
    (arena : List LruNode) (l : ℕ) (n : LruNode) (is : List ℕ)
    → 0 < count l is
    → Spares arena (set arena l n) is
Spares-set arena l n is at = record {
  size = length-set arena l n;
  others = λ j h. get_elem?-set_ne arena l j n (λ e. omega (arith, ap (λ (m : ℕ). count m is) e));
}

Spares-refl : (arena : List LruNode) (is : List ℕ) → Spares arena arena is
Spares-refl arena is = record { size = refl; others = λ j h. refl }

-- the successor of a segment is replaced
link_next_lem :
    (r : LruReplacer) (xs : Nodes) (after after' : Option ℕ)
    → Distinct (indices xs)
    → r.head_idx ≡ first_or xs after
    → Segment r.arena none xs after
    → (arena : List LruNode) × (link_next (last_or none xs) after' r
        ≡ ok (record r { arena = arena; head_idx = first_or xs after' }))
      × Segment arena none xs after'
      × Spares r.arena arena (indices xs)
unfolding link_next set_next
link_next_lem r [] after after' d h s = (r.arena, refl, tt, Spares-refl r.arena [])
link_next_lem r ((i, p) ∷ xs) after after' d h s =
    let (l, n, last, inside, at, s') = Segment-set_next r.arena none i p xs after after' d s in
    (_, rw (last, at, h) refl, s', Spares-set r.arena l _ (i ∷ indices xs) inside)

-- the predecessor of a segment is replaced
link_prev_lem :
    (r : LruReplacer) (before before' : Option ℕ) (xs : Nodes)
    → Distinct (indices xs)
    → r.tail_idx ≡ last_or before xs
    → Segment r.arena before xs none
    → (arena : List LruNode) × (link_prev (first_or xs none) before' r
        ≡ ok (record r { arena = arena; tail_idx = last_or before' xs }))
      × Segment arena before' xs none
      × Spares r.arena arena (indices xs)
unfolding link_prev set_prev
link_prev_lem r before before' [] d h s = (r.arena, refl, tt, Spares-refl r.arena [])
link_prev_lem r before before' ((i, p) ∷ xs) d h s =
    let out : count i (indices xs) ≡ 0 = omega (arith, d i, count_head i (indices xs)) in
    (
      _,
      rw (s.0, h) refl,
      Segment-set_prev r.arena before before' i p xs none out s,
      Spares-set r.arena i _ (i ∷ indices xs) (omega (arith, count_head i (indices xs))),
    )

Spares-Segment :
    (old new : List LruNode) (is : List ℕ) (before : Option ℕ) (xs : Nodes) (after : Option ℕ)
    → Spares old new is
    → ((j : ℕ) → 0 < count j (indices xs) → count j is ≡ 0)
    → Segment old before xs after
    → Segment new before xs after
Spares-Segment old new is before xs after spares apart =
    Segment-frame old new before xs after (λ j h. spares.others j (apart j h))

pub count-indices :
    (j : ℕ) (ys zs : Nodes)
    → count j (indices (ys ++ zs)) ≡ count j (indices ys) + count j (indices zs)
count-indices j ys zs = rw (indices-append ys zs) (count-append j (indices ys) (indices zs))

-- `unlink` of a node takes it out of the list, which stays linked, and spares all other nodes.
pub unlink_lem :
    (r : LruReplacer) (ys zs : Nodes) (i : ℕ) (p : PageId)
    → Distinct (indices (ys ++ (i, p) ∷ zs))
    → IsLinked r (ys ++ (i, p) ∷ zs)
    → (arena : List LruNode) × (unlink i r ≡ ok (relinked r arena (ys ++ zs)))
      × Segment arena none (ys ++ zs) none
      × Spares r.arena arena (indices (ys ++ zs))
unfolding unlink count
unlink_lem r ys zs i p d linked =
    let (left, right) = Segment-split r.arena none ys ((i, p) ∷ zs) none linked.chain in
    let dy : Distinct (indices ys) = λ j. omega (arith, d j, count-indices j ys ((i, p) ∷ zs)) in
    let dz : Distinct (indices zs) = λ j. omega (arith, d j, count-indices j ys ((i, p) ∷ zs)) in
    let (a1, e1, s1, k1) =
      link_next_lem r ys (some i) (first_or zs none) dy
        (linked.head ∙ first_or-append ys ((i, p) ∷ zs) none) left in
    let r1 = record r { arena = a1; head_idx = first_or ys (first_or zs none) } in
    let right1 =
      Spares-Segment r.arena a1 (indices ys) (some i) zs none k1
        (λ j h. omega (arith, d j, count-indices j ys ((i, p) ∷ zs))) right.1 in
    let (a2, e2, s2, k2) =
      link_prev_lem r1 (some i) (last_or none ys) zs dz
        (linked.tail ∙ last_or-append none ys ((i, p) ∷ zs)) right1 in
    let left2 =
      Spares-Segment a1 a2 (indices zs) none ys (first_or zs none) k2
        (λ j h. omega (arith, d j, count-indices j ys ((i, p) ∷ zs))) s1 in
    (
      a2,
      rw (first_or-append ys zs none, last_or-append none ys zs, right.0, e1, e2) refl,
      Segment-join a2 none ys zs none left2 s2,
      record {
        size = k2.size ∙ k1.size;
        others = λ j h.
            k2.others j (omega (arith, h, count-indices j ys zs))
            ∙ k1.others j (omega (arith, h, count-indices j ys zs));
      },
    )

-- `insert_head` of a node that is not in the list puts it at the head.
pub insert_head_lem :
    (r : LruReplacer) (xs : Nodes) (i : ℕ) (n : LruNode)
    → Distinct (indices xs)
    → count i (indices xs) ≡ 0
    → get_elem? r.arena i ≡ some n
    → IsLinked r xs
    → (arena : List LruNode) × (insert_head i r ≡ ok (relinked r arena ((i, n.page_id) ∷ xs)))
      × Segment arena none ((i, n.page_id) ∷ xs) none
      × (length arena ≡ length r.arena)
unfolding insert_head set_prev set_next
insert_head_lem r xs i n d out at linked =
    let lt : i < length r.arena = get_elem?-lt r.arena i at in
    let n1 : LruNode = record n { prev = none } in
    let a1 = set r.arena i n1 in
    let n2 : LruNode = record n { prev = none; next = r.head_idx } in
    let a2 = set a1 i n2 in
    let at1 = get_elem?-set_self r.arena i n1 lt in
    let at2 = get_elem?-set_self a1 i n2 (omega (arith, length-set r.arena i n1)) in
    let chain2 =
      Segment-set a1 i n2 none xs none out
        (Segment-set r.arena i n1 none xs none out linked.chain) in
    let r2 = record r { arena = a2 } in
    let (a3, e3, s3, k3) = link_prev_lem r2 none (some i) xs d linked.tail chain2 in
    (
      a3,
      rw (at, at1, ap (λ h. link_prev h (some i) r2) linked.head, e3) refl,
      (
        k3.others i out ∙ (at2 ∙ ap (λ h. some (record n { prev = none; next = h })) linked.head),
        s3,
      ),
      k3.size ∙ (length-set a1 i n2 ∙ length-set r.arena i n1),
    )
