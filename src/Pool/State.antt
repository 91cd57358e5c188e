-- ===== src/Pool/State.antt =====
-- The invariant of `BufferPool` (buffer_pool.rs): which pages its table, its replacer and neither of
-- the two know.
use smol_db.Common.{
  ℕ, ◌+◌, ◌-◌, ◌≤◌, ◌≡◌, refl, inl, inr, List, [], ◌∷◌, Option, none, some, arith, Bool-cases,
  Option-cases, ltb, ◌==◌, if◌then◌else◌, length, count,
}
use smol_db.HashMap
use smol_db.HashMap.{
  HashMap, IsMap, lookup-insert, lookup-remove, insert-IsMap, remove-IsMap, length-insert_absent,
  length-insert_present, length-remove_present, remove_absent,
}
use smol_db.Disk.{DiskManager}
use smol_db.Page.{PageId}
use smol_db.Lru as Lru
use smol_db.Lru.{LruReplacer, record_access}
use smol_db.Lru.State.{Tracks, erase}
use smol_db.Lru.Refine.{new-Tracks}
use smol_db.Pool.{BufferPool, Frame, new_pool}

-- how often a key stands in the table
abbrev pub held : Option Frame → ℕ
held none = 0
held (some frame) = 1

module _ {W : Type 0} where
  -- The table holds the pages `l` of the replacer, and `lost`, which the replacer does not know: the
  -- page that is being stored or evicted, and pages whose eviction has failed.
  pub record IsPool (p : BufferPool W) (l lost : List PageId) : Type 0 where
    pub tracks : Tracks p.replacer l
    pub same : p.replacer.capacity ≡ p.capacity
    pub members : (k : ℕ) → count k l + count k lost ≡ held (HashMap.lookup k p.page_table)
    pub keyed : IsMap p.page_table
    pub sized : length p.page_table ≡ length l + length lost
    pub fits : length p.page_table ≤ p.capacity

  abbrev pub Pooled : BufferPool W → Type 0
  Pooled p = (l : List PageId) × (lost : List PageId) × IsPool p l lost

  pub new_pool-IsPool :
      (d : DiskManager) (capacity : ℕ) (w : Option W) → IsPool (new_pool d capacity w) [] []
  unfolding new_pool count HashMap.lookup Lru.new
  new_pool-IsPool d capacity w = record {
    tracks = new-Tracks capacity;
    same = refl;
    members = λ k. refl;
    keyed = tt;
    sized = refl;
    fits = omega arith;
  }

  pub new_pool-Pooled :
      (d : DiskManager) (capacity : ℕ) (w : Option W) → Pooled (new_pool d capacity w)
  new_pool-Pooled d capacity w = ([], [], new_pool-IsPool d capacity w)

pub count-le-length : (k : ℕ) (l : List PageId) → count k l ≤ length l
unfolding count
count-le-length k [] = omega arith
count-le-length k (x ∷ l) = ground (arith, count-le-length k l)

pub length-erase :
    (k : ℕ) (l : List PageId) → length (erase k l) + (if ltb 0 (count k l) then 1 else 0) ≡ length l
unfolding count
length-erase k [] = refl
length-erase k (x ∷ l) = ground (arith, length-erase k l)

pub count-erase :
    (k j : ℕ) (l : List PageId) → count j (erase k l) ≡ count j l - (if k == j then 1 else 0)
unfolding count
count-erase k j [] = ground arith
count-erase k j (x ∷ l) = ground (arith, count-erase k j l)

-- a page that stands in one of the lists moves to the front of the first
pub count-moved :
    (j k : ℕ) (l lost : List PageId)
    → count j l + count j lost ≡ 1
    → count k (j ∷ erase j l) + count k (erase j lost) ≡ count k l + count k lost
unfolding count
count-moved j k l lost known = elim (Bool-cases (j == k)) [
  | inl same ↦ ground (arith, count-erase j k l, count-erase j k lost)
  | inr other ↦ rw (count-erase j k l, count-erase j k lost, other) (omega arith)
]

pub length-moved :
    (j : ℕ) (l lost : List PageId)
    → count j l + count j lost ≡ 1
    → length (j ∷ erase j l) + length (erase j lost) ≡ length l + length lost
length-moved j l lost known = ground (arith, length-erase j l, length-erase j lost)

pub length-remove :
    (k : ℕ) (m : HashMap Frame)
    → IsMap m
    → length (HashMap.remove k m) + held (HashMap.lookup k m) ≡ length m
length-remove k m keyed = elim (Option-cases (HashMap.lookup k m)) [
  | inl absent ↦ rw (absent, remove_absent k m absent) (omega arith)
  | inr (v, there) ↦ rw there (omega (arith, length-remove_present k m v keyed there))
]
