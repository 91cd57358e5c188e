-- ===== src/Lru/State.antt =====
-- The invariant of `LruReplacer` (lru.rs) and its abstract view, the tracked pages by recency.
use smol_db.Common.{
  ℕ, suc, ◌+◌, ◌≤◌, ◌<◌, ◌≡◌, refl, sym, ap, subst, ◌∙◌, inl, inr, List, [], ◌∷◌, ◌++◌, Option,
  none, some, arith, Bool-cases, ◌==◌, if◌then◌else◌, length, length-append, get_elem?-lt, All,
  count, count-append, count_head, Distinct,
}
use smol_db.HashMap
use smol_db.HashMap.{IsMap, lookup-remove, remove-IsMap, length-remove_present}
use smol_db.Error.Outcome.{ok}
use smol_db.Page.{PageId}
use smol_db.Lru.{LruReplacer, release}
use smol_db.Lru.Segment.{Nodes, indices, pages_of, pages_of-append, Segment-split}
use smol_db.Lru.Link.{IsLinked, relinked, unlink_lem, count-indices}

-- the index of a page in the list
abbrev pub index_of : PageId → Nodes → Option ℕ
index_of k [] = none
index_of k ((i, p) ∷ xs) = if p == k then some i else index_of k xs

pub record IsLru (r : LruReplacer) (xs : Nodes) : Type 0 where
  pub linked : IsLinked r xs
  -- no slot is used twice, and each is used or free
  pub slots : Distinct (indices xs ++ r.free_list)
  pub inside : All (λ i. i < length r.arena) r.free_list
  pub room : length r.arena ≡ length xs + length r.free_list
  pub unique : Distinct (pages_of xs)
  pub mapped : (k : ℕ) → HashMap.lookup k r.pages ≡ index_of k xs
  pub keyed : IsMap r.pages
  pub sized : length r.pages ≡ length xs
  pub bounded : length xs ≤ r.capacity
  pub held : length r.arena ≤ r.capacity

-- the replacer stands for these pages, the most recent first
abbrev pub Tracks : LruReplacer → List PageId → Type 0
Tracks r l = (xs : Nodes) × IsLru r xs × (pages_of xs ≡ l)

-- the list without a page
abbrev pub erase : PageId → List PageId → List PageId
erase k [] = []
erase k (x ∷ xs) = if x == k then xs else x ∷ erase k xs

pub length-pages_of : (xs : Nodes) → length (pages_of xs) ≡ length xs
length-pages_of [] = refl
length-pages_of ((i, p) ∷ xs) = ap suc (length-pages_of xs)

pub count-pages_of :
    (k : ℕ) (ys zs : Nodes)
    → count k (pages_of (ys ++ zs)) ≡ count k (pages_of ys) + count k (pages_of zs)
count-pages_of k ys zs = rw (pages_of-append ys zs) (count-append k (pages_of ys) (pages_of zs))

pub index_of_absent : (k : ℕ) (xs : Nodes) → count k (pages_of xs) ≡ 0 → index_of k xs ≡ none
unfolding count
index_of_absent k [] h = refl
index_of_absent k ((i, p) ∷ xs) h = ground (arith, index_of_absent k xs)

pub absent-index_of : (k : ℕ) (xs : Nodes) → index_of k xs ≡ none → count k (pages_of xs) ≡ 0
unfolding count
absent-index_of k [] h = refl
absent-index_of k ((i, p) ∷ xs) h = ground (arith, absent-index_of k xs)

-- the list with a node taken out
index_of_middle :
    (k i : ℕ) (p : PageId) (ys zs : Nodes)
    → count p (pages_of (ys ++ zs)) ≡ 0
    → index_of k (ys ++ zs) ≡ (if p == k then none else index_of k (ys ++ (i, p) ∷ zs))
unfolding count
index_of_middle k i p [] zs h = ground (arith, index_of_absent k zs, index_of_absent p zs)
index_of_middle k i p ((j, q) ∷ ys) zs h = ground (arith, index_of_middle k i p ys zs)

index_of_here :
    (k i : ℕ) (ys zs : Nodes) → count k (pages_of ys) ≡ 0 → index_of k (ys ++ (i, k) ∷ zs) ≡ some i
unfolding count
index_of_here k i [] zs h = ground arith
index_of_here k i ((j, q) ∷ ys) zs h = ground (arith, index_of_here k i ys zs)

pub erase_middle :
    (k i : ℕ) (ys zs : Nodes)
    → count k (pages_of ys) ≡ 0
    → erase k (pages_of (ys ++ (i, k) ∷ zs)) ≡ pages_of (ys ++ zs)
unfolding count
erase_middle k i [] zs h = ground arith
erase_middle k i ((j, q) ∷ ys) zs h = ground (arith, erase_middle k i ys zs)

pub erase_absent : (k : ℕ) (l : List PageId) → count k l ≡ 0 → erase k l ≡ l
unfolding count
erase_absent k [] h = refl
erase_absent k (x ∷ l) h = ground (arith, erase_absent k l)

-- the place of a tracked page
pub index_of-split :
    (k i : ℕ) (xs : Nodes)
    → index_of k xs ≡ some i
    → (ys : Nodes) × (zs : Nodes) × (xs ≡ ys ++ (i, k) ∷ zs)
index_of-split k i [] h = ground arith
index_of-split k i ((j, p) ∷ xs) h = elim (Bool-cases (p == k)) [
  | inl same ↦ ([], xs, ground arith)
  | inr other ↦
      let (ys, zs, e) = index_of-split k i xs (ground arith) in ((j, p) ∷ ys, zs, ap (◌∷◌ (j, p)) e)
]

-- A node that is released leaves the list, and its slot is free.
pub release_lem :
    (r : LruReplacer) (ys zs : Nodes) (i : ℕ) (p : PageId)
    → IsLru r (ys ++ (i, p) ∷ zs)
    → (r' : LruReplacer) × (release i p r ≡ ok r')
      × IsLru r' (ys ++ zs)
      × (r'.capacity ≡ r.capacity)
unfolding release count
release_lem r ys zs i p is =
    let whole = ys ++ (i, p) ∷ zs in
    let parts : (j : ℕ)
        → count j (indices whole ++ r.free_list)
          ≡ count j (indices ys) + count j (i ∷ indices zs) + count j r.free_list =
      λ j.
        omega
          (arith, count-append j (indices whole) r.free_list, count-indices j ys ((i, p) ∷ zs)) in
    let (a, e, chain, spares) =
      unlink_lem r ys zs i p
        (λ j. omega (arith, is.slots j, count-append j (indices whole) r.free_list)) is.linked in
    let gone : count p (pages_of (ys ++ zs)) ≡ 0 = omega (
      arith,
      is.unique p,
      count-pages_of p ys ((i, p) ∷ zs),
      count-pages_of p ys zs,
      count_head p (pages_of zs),
    ) in
    let here : HashMap.lookup p r.pages ≡ some i =
      is.mapped p ∙ index_of_here p i ys zs (omega (arith, gone, count-pages_of p ys zs)) in
    let at : i < length r.arena =
      get_elem?-lt r.arena i
        (Segment-split r.arena none ys ((i, p) ∷ zs) none is.linked.chain).1.0 in
    let long = length-append ys ((i, p) ∷ zs) in
    (
      record (relinked r a (ys ++ zs)) {
        pages = HashMap.remove p r.pages;
        free_list = i ∷ r.free_list;
      },
      rw e refl,
      record {
        linked = record { head = refl; tail = refl; chain = chain };
        slots = λ j. omega (
          arith,
          is.slots j,
          parts j,
          count-append j (indices (ys ++ zs)) (i ∷ r.free_list),
          count-indices j ys zs,
        );
        inside =
            subst (λ (n : ℕ). All (λ j. j < n) (i ∷ r.free_list)) (sym spares.size) (at, is.inside);
        room = omega (arith, is.room, spares.size, long, length-append ys zs);
        unique = λ k.
            omega (arith, is.unique k, count-pages_of k ys ((i, p) ∷ zs), count-pages_of k ys zs);
        mapped = λ k.
            rw (lookup-remove p k r.pages, is.mapped k) (sym (index_of_middle k i p ys zs gone));
        keyed = remove-IsMap p r.pages is.keyed;
        sized = omega (
          arith,
          length-remove_present p r.pages i is.keyed here,
          is.sized,
          long,
          length-append ys zs,
        );
        bounded = omega (arith, is.bounded, long, length-append ys zs);
        held = omega (arith, is.held, spares.size);
      },
      refl,
    )
