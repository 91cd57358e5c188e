-- ===== src/Tree.antt =====
-- bptree.rs: `BpTree` on the buffer pool. A frame is held from its fetch to the end of the call, and
-- a held frame is neither evicted nor flushed, so that what is done behind a latch is done at once.
pub mod Find
pub mod Insert
pub mod Halves
pub mod Wired
pub mod Relink
pub mod Split
pub mod SplitLeaf
pub mod Refused
mod Examples
mod SplitExamples
use smol_db.Common.{
  ℕ, zero, suc, ◌<◌, ltb, ◌==◌, ◌||◌, Bool, true, false, if◌then◌else◌, List, [], ◌∷◌, Option, none,
  some, ◌⊎◌, inl, inr,
}
use smol_db.HashMap
use smol_db.Error.{DbError, page_full, corrupt_page, data_on_routing_node}
use smol_db.Error.Outcome.{Outcome, ok, err, panic, Run}
use smol_db.Error.Method.{Method, ◌>>=◌, ◌>>◌, return, lift, go_on, put_back}
use smol_db.Page.{PageId, LeafNode, BTreeNode, internal, leaf}
use smol_db.Page.Leaf.{insert_record, get_record, split}
use smol_db.Page.Internal.{route_key}
use smol_db.Page.Node.{mark_dirty}
use smol_db.Pool.{
  BufferPool, Frame, WalFlusher, store_frame, release_handle, with_node, with_frame, fetch_page,
  new_page,
}

pub record SplitResult : Type 0 where
  pub promoted_row_id : ℕ
  pub new_page_id : PageId

pub record BpTree (W : Type 0) : Type 0 where
  pub buffer_pool : BufferPool W
  pub root_page_id : PageId

-- `BpTree::new`
unfoldable pub new : {W : Type 0} → BufferPool W → PageId → BpTree W
new pool root_page_id = record { buffer_pool = pool; root_page_id = root_page_id }

unfoldable pub get_root_id : {W : Type 0} → BpTree W → PageId
get_root_id t = t.root_page_id

-- what became of the first `insert_record`: it has stored the row, or the page is full
pub data Attempt : Type 0 where
  fitted no_room : Attempt

unfoldable pub attempted : ℕ → Run LeafNode Unit → Run BTreeNode Attempt
attempted lsn (ok done, l) = (ok fitted, mark_dirty lsn (leaf l))
attempted lsn (err page_full, l) = (ok no_room, leaf l)
attempted lsn (err e, l) = (err e, leaf l)
attempted lsn (panic, l) = (panic, leaf l)

unfoldable pub attempt : ℕ → List ℕ → ℕ → Method BTreeNode Attempt
attempt row_id payload lsn (internal n) = (err (corrupt_page data_on_routing_node), internal n)
attempt row_id payload lsn (leaf l) = attempted lsn (insert_record row_id payload l)

-- `split`, and the row goes to the half that it belongs to
unfoldable pub insert_half : ℕ → List ℕ → ℕ → Method (LeafNode × LeafNode) ℕ
insert_half row_id payload promoted_row_id (left, right) =
    if ltb row_id promoted_row_id
    then put_back (λ l. (l, right))
        (go_on (insert_record row_id payload left) λ _. return promoted_row_id)
    else put_back (λ r. (left, r))
        (go_on (insert_record row_id payload right) λ _. return promoted_row_id)

unfoldable pub split_insert : ℕ → List ℕ → Method (LeafNode × LeafNode) ℕ
split_insert row_id payload (left, right) = go_on (split left right) (insert_half row_id payload)

-- the new leaf goes between the leaf and its old right sibling, which is returned
unfoldable pub wire : PageId → PageId → Method (LeafNode × LeafNode) (Option PageId)
wire leaf_page_id new_leaf_id (left, right) = (
  ok (if left.has_next then some left.next_page_id else none),
  (
    record left { has_next = true; next_page_id = new_leaf_id },
    record right {
      has_prev = true;
      prev_page_id = leaf_page_id;
      has_next = left.has_next;
      next_page_id = left.next_page_id;
    },
  ),
)

-- the old right sibling points back to the new leaf
unfoldable pub back_link : PageId → ℕ → Method BTreeNode Unit
back_link new_leaf_id lsn (leaf l) =
    (ok tt, mark_dirty lsn (leaf (record l { has_prev = true; prev_page_id = new_leaf_id })))
back_link new_leaf_id lsn (internal n) = (ok tt, internal n)

-- one step of `find_record`: the child to go on with, or the answer
unfoldable pub look : ℕ → Method BTreeNode (PageId ⊎ Option (List ℕ))
look row_id (internal n) = go_on (route_key n row_id, internal n) λ child. return (inl child)
look row_id (leaf l) = go_on (get_record l row_id, leaf l) λ answer. return (inr answer)

-- a latched leaf, taken and put
unfoldable pub as_leaf : Method BTreeNode LeafNode
as_leaf (leaf l) = (ok l, leaf l)
as_leaf (internal n) = (panic, internal n)

abbrev pub put_leaf : LeafNode → Method BTreeNode Unit
put_leaf l node = (ok tt, leaf l)

abbrev pub mark : ℕ → Method BTreeNode Unit
mark lsn node = (ok tt, mark_dirty lsn node)

module _ {W : Type 0} where
  unfoldable pub store_leaves :
      {A : Type 0} → PageId → PageId → Run (LeafNode × LeafNode) A → Method (BufferPool W) A
  store_leaves k j (result, (left, right)) = do
    with_node k (put_leaf left)
    with_node j (put_leaf right)
    lift result

  -- a change of the leaves in two frames that are latched
  unfoldable pub with_leaves :
      {A : Type 0} → PageId → PageId → Method (LeafNode × LeafNode) A → Method (BufferPool W) A
  with_leaves k j m = do
    left ← with_node k as_leaf
    right ← with_node j as_leaf
    store_leaves k j (m (left, right))

  -- a frame that was handed out is dropped where the call ends, however it ends
  unfoldable pub holding : {A : Type 0} → PageId → Method (BufferPool W) A → Method (BufferPool W) A
  holding k m p = let (result, q) = m p in (result, (release_handle k q).1)

module _ {W : Type 0} ⦃flusher : WalFlusher W⦄ where
  -- The old right sibling, if there is one. A sibling that is one of the two latched leaves would be
  -- waited for without end; that is recorded as a panic.
  unfoldable pub relink : PageId → PageId → ℕ → Option PageId → Method (BufferPool W) Unit
  relink leaf_page_id new_leaf_id lsn none = return tt
  relink leaf_page_id new_leaf_id lsn (some old_next_id) =
      fetch_page old_next_id
      >> holding old_next_id (
          if (old_next_id == leaf_page_id) || (old_next_id == new_leaf_id)
          then lift panic
          else with_node old_next_id (back_link new_leaf_id lsn))

  -- the leaf is full: the part of `insert_leaf` from `new_page` on
  unfoldable pub split_leaf : PageId → ℕ → List ℕ → ℕ → Method (BufferPool W) (Option SplitResult)
  split_leaf leaf_page_id row_id payload lsn = new_page true >>= λ new_leaf_id.
      holding new_leaf_id do
        promoted_row_id ← with_leaves leaf_page_id new_leaf_id (split_insert row_id payload)
        old_next ← with_leaves leaf_page_id new_leaf_id (wire leaf_page_id new_leaf_id)
        relink leaf_page_id new_leaf_id lsn old_next
        with_node leaf_page_id (mark lsn)
        with_node new_leaf_id (mark lsn)
        return (some (record { promoted_row_id = promoted_row_id; new_page_id = new_leaf_id }))

  unfoldable pub after_attempt :
      PageId → ℕ → List ℕ → ℕ → Attempt → Method (BufferPool W) (Option SplitResult)
  after_attempt leaf_page_id row_id payload lsn fitted = return none
  after_attempt leaf_page_id row_id payload lsn no_room = split_leaf leaf_page_id row_id payload lsn

  unfoldable pub insert_pool : PageId → ℕ → List ℕ → ℕ → Method (BufferPool W) (Option SplitResult)
  insert_pool leaf_page_id row_id payload lsn =
      fetch_page leaf_page_id
      >> holding leaf_page_id (
          with_node leaf_page_id (attempt row_id payload lsn)
          >>= after_attempt leaf_page_id row_id payload lsn)

  -- The loop of `find_record`. It goes on for as long as it meets internal nodes; a descent of `d`
  -- nodes needs `d` rounds and one more.
  unfoldable pub find_loop : ℕ → ℕ → PageId → Method (BufferPool W) (Option (List ℕ))
  find_loop zero row_id k = lift panic
  find_loop (suc fuel) row_id k = with_frame k (look row_id) >>= λ next. elim next [
    | inl child ↦ find_loop fuel row_id child
    | inr answer ↦ return answer
  ]

  unfoldable pub on_tree : {A : Type 0} → Method (BufferPool W) A → Method (BpTree W) A
  on_tree m t = put_back (λ p. record t { buffer_pool = p }) (m t.buffer_pool)

  unfoldable pub insert_leaf : PageId → ℕ → List ℕ → ℕ → Method (BpTree W) (Option SplitResult)
  insert_leaf leaf_page_id row_id payload lsn =
      on_tree (insert_pool leaf_page_id row_id payload lsn)

  unfoldable pub find_record : ℕ → ℕ → Method (BpTree W) (Option (List ℕ))
  find_record fuel row_id t = on_tree (find_loop fuel row_id t.root_page_id) t
