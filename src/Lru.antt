-- ===== src/Lru.antt =====
-- lru.rs: the replacer, a list of pages by recency that is doubly linked through an arena.
-- `free_list` is a stack with its top, the end of the vector, first. A method panics where an index
-- is out of range, and leaves a replacer otherwise.
pub mod Segment
pub mod Link
pub mod State
pub mod Access
pub mod Refine
pub mod Evict
pub mod Reach
mod Examples
use smol_db.Common.{
  ℕ, zero, suc, ◌+◌, Bool, true, false, List, [], ◌∷◌, ◌++◌, Option, none, some, ltb, if◌then◌else◌,
  length, get_elem?, set,
}
use smol_db.HashMap
use smol_db.HashMap.{HashMap}
use smol_db.Error.Outcome.{Outcome, ok, err, panic, ◌>>=◌, or_panic}
use smol_db.Page.{PageId}

pub record LruNode : Type 0 where
  pub prev : Option ℕ
  pub page_id : PageId
  pub next : Option ℕ

pub record LruReplacer : Type 0 where
  pub pages : HashMap ℕ
  pub arena : List LruNode
  pub head_idx : Option ℕ
  pub tail_idx : Option ℕ
  pub capacity : ℕ
  pub free_list : List ℕ

unfoldable pub new : ℕ → LruReplacer
new capacity = record {
  pages = [];
  arena = [];
  head_idx = none;
  tail_idx = none;
  capacity = capacity;
  free_list = [];
}

unfoldable pub size : LruReplacer → ℕ
size r = length r.pages

-- `self.arena[idx]`
abbrev pub node_at : ℕ → LruReplacer → Outcome LruNode
node_at idx r = or_panic (get_elem? r.arena idx)

-- `self.arena[idx].prev = prev`
unfoldable pub set_prev : ℕ → Option ℕ → LruReplacer → Outcome LruReplacer
set_prev idx prev r =
    node_at idx r >>= λ n. ok (record r { arena = set r.arena idx (record n { prev = prev }) })

-- `self.arena[idx].next = next`
unfoldable pub set_next : ℕ → Option ℕ → LruReplacer → Outcome LruReplacer
set_next idx next r =
    node_at idx r >>= λ n. ok (record r { arena = set r.arena idx (record n { next = next }) })

-- the neighbour before, or else the head, gets its successor
unfoldable pub link_next : Option ℕ → Option ℕ → LruReplacer → Outcome LruReplacer
link_next (some p_idx) next r = set_next p_idx next r
link_next none next r = ok (record r { head_idx = next })

-- the neighbour behind, or else the tail, gets its predecessor
unfoldable pub link_prev : Option ℕ → Option ℕ → LruReplacer → Outcome LruReplacer
link_prev (some n_idx) prev r = set_prev n_idx prev r
link_prev none prev r = ok (record r { tail_idx = prev })

unfoldable pub insert_head : ℕ → LruReplacer → Outcome LruReplacer
insert_head idx r = do
  r1 ← set_prev idx none r
  r2 ← set_next idx r1.head_idx r1
  r3 ← link_prev r2.head_idx (some idx) r2
  ok (record r3 { head_idx = some idx })

unfoldable pub unlink : ℕ → LruReplacer → Outcome LruReplacer
unlink idx r = do n ← node_at idx r; r1 ← link_next n.prev n.next r; link_prev n.next n.prev r1

-- a node that is not linked yet
abbrev pub unlinked : PageId → LruNode
unlinked page_id = record { prev = none; page_id = page_id; next = none }

-- the slot of a new node: a free one, or one more
unfoldable pub allocate : List ℕ → PageId → LruReplacer → Outcome (ℕ × LruReplacer)
allocate (free_idx ∷ free) page_id r = node_at free_idx r >>= λ old.
    ok (free_idx, record r { arena = set r.arena free_idx (unlinked page_id); free_list = free })
allocate [] page_id r = ok (length r.arena, record r { arena = r.arena ++ unlinked page_id ∷ [] })

-- `record_access` of a page that is not tracked
unfoldable pub track : PageId → LruReplacer → Outcome LruReplacer
track page_id r =
    if ltb (length r.pages) r.capacity
    then (do
      (new_idx, r1) ← allocate r.free_list page_id r
      insert_head new_idx (record r1 { pages = HashMap.insert page_id new_idx r1.pages }))
    else panic

unfoldable pub record_access : PageId → LruReplacer → Outcome LruReplacer
record_access page_id r = elim (HashMap.lookup page_id r.pages) [
  | some idx ↦ unlink idx r >>= insert_head idx
  | none ↦ track page_id r
]

-- a node leaves the list, and its slot is free
unfoldable pub release : ℕ → PageId → LruReplacer → Outcome LruReplacer
release idx page_id r = unlink idx r >>= λ r1.
    ok (record r1 { pages = HashMap.remove page_id r1.pages; free_list = idx ∷ r1.free_list })

unfoldable pub remove : PageId → LruReplacer → Outcome LruReplacer
remove page_id r = elim (HashMap.lookup page_id r.pages) [
  | some idx ↦ release idx page_id r
  | none ↦ ok r
]

unfoldable pub evict : LruReplacer → Outcome (Option PageId × LruReplacer)
evict r = elim r.tail_idx [
  | none ↦ ok (none, r)
  | some t_idx ↦
      node_at t_idx r >>= λ n. release t_idx n.page_id r >>= λ r1. ok (some n.page_id, r1)
]

-- The loop of `peek_rev`. On each round one more node of the arena is behind, so that as many
-- rounds as it has nodes and one more are enough.
unfoldable pub peek_loop : ℕ → ℕ → Option ℕ → List PageId → LruReplacer → Outcome (List PageId)
peek_loop zero limit curr candidates r = panic
peek_loop (suc fuel) limit none candidates r = ok candidates
peek_loop (suc fuel) limit (some node_idx) candidates r = elim (ltb limit (length candidates)) [
  | true ↦ ok candidates
  | false ↦ node_at node_idx r >>= λ n. peek_loop fuel limit n.prev (candidates ++ n.page_id ∷ []) r
]

unfoldable pub peek_rev : ℕ → LruReplacer → Outcome (List PageId)
peek_rev limit r = peek_loop (length r.arena + 1) limit r.tail_idx [] r

-- The loop of `evict_if`, with the same bound. The predicate may panic.
unfoldable pub evict_loop :
    ℕ → (PageId → Outcome Bool) → Option ℕ → LruReplacer → Outcome (Option PageId × LruReplacer)
evict_loop zero predicate curr r = panic
evict_loop (suc fuel) predicate none r = ok (none, r)
evict_loop (suc fuel) predicate (some node_idx) r = node_at node_idx r >>= λ n.
    predicate n.page_id >>= λ b. elim b [
      | true ↦ release node_idx n.page_id r >>= λ r1. ok (some n.page_id, r1)
      | false ↦ evict_loop fuel predicate n.prev r
    ]

unfoldable pub evict_if :
    (PageId → Outcome Bool) → LruReplacer → Outcome (Option PageId × LruReplacer)
evict_if predicate r = evict_loop (length r.arena + 1) predicate r.tail_idx r
