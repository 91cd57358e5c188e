-- ===== src/Tree/Find.antt =====
-- `find_record` (bptree.rs) in a tree whose pages are cached.
use smol_db.Common.{
  ℕ, zero, suc, ◌<◌, ◌≡◌, refl, sym, ap, subst, ◌∙◌, inl, inr, Bool-cases, ◌==◌, if◌then◌else◌,
  List, Option, some, arith,
}
use smol_db.HashMap
use smol_db.HashMap.{HashMap}
use smol_db.Error.Outcome.{ok, Run}
use smol_db.Page.{PageId, LeafNode, InternalNode, BTreeNode, internal, leaf}
use smol_db.Page.Leaf.{get_record}
use smol_db.Page.Internal.{route_key}
use smol_db.Pool.{BufferPool, Frame, WalFlusher, with_frame}
use smol_db.Pool.State.{Pooled}
use smol_db.Pool.Use.{with_frame_hit}
use smol_db.Tree.{look, find_loop}

-- the cached nodes route the key from a page to the leaf page, over a number of internal nodes
pub data Descends (table : HashMap Frame) (row_id : ℕ) (leaf_page_id : PageId)
    : PageId → ℕ → Type 0 where
  arrived : Descends table row_id leaf_page_id leaf_page_id 0
  below :
      (k child : PageId) (d : ℕ) (frame : Frame) (node : InternalNode)
      → HashMap.lookup k table ≡ some frame
      → frame.node ≡ internal node
      → route_key node row_id ≡ ok child
      → Descends table row_id leaf_page_id child d
      → Descends table row_id leaf_page_id k (suc d)

-- the tables agree
abbrev Same : HashMap Frame → HashMap Frame → Type 0
Same table table' = (j : PageId) → HashMap.lookup j table' ≡ HashMap.lookup j table

Descends-Same :
    (table table' : HashMap Frame) (row_id : ℕ) (leaf_page_id k : PageId) (d : ℕ)
    → Same table table'
    → Descends table row_id leaf_page_id k d
    → Descends table' row_id leaf_page_id k d
Descends-Same table table' row_id leaf_page_id _ _ same arrived = arrived
Descends-Same table table' row_id leaf_page_id _ _ same
      (below k child d frame node there kind route next) =
    below k child d frame node (same k ∙ there) kind route
      (Descends-Same table table' row_id leaf_page_id child d same next)

-- a frame in its own place
pub unchanged :
    (k j : PageId) (frame : Frame) (table : HashMap Frame)
    → HashMap.lookup k table ≡ some frame
    → (if k == j then some frame else HashMap.lookup j table) ≡ HashMap.lookup j table
unchanged k j frame table there = elim (Bool-cases (k == j)) [
  | inl same ↦
      let here : k ≡ j = ground (arith, same) in
      rw same (sym there ∙ ap (λ i. HashMap.lookup i table) here)
  | inr other ↦ rw other refl
]

-- `look` on either kind of node
look-internal :
    (node : InternalNode) (row_id child : ℕ)
    → route_key node row_id ≡ ok child
    → look row_id (internal node) ≡ (ok (inl child), internal node)
unfolding look
look-internal node row_id child h = rw (look, h) refl

look-leaf :
    (l : LeafNode) (row_id : ℕ) (answer : Option (List ℕ))
    → get_record l row_id ≡ ok answer
    → look row_id (leaf l) ≡ (ok (inr answer), leaf l)
unfolding look
look-leaf l row_id answer h = rw (look, h) refl

module _ {W : Type 0} ⦃flusher : WalFlusher W⦄ where
  -- a look at a cached page leaves every frame as it was
  look_hit :
      (row_id : ℕ) (k : PageId) (p : BufferPool W) (frame : Frame) (node : BTreeNode) (next : _)
      → Pooled p
      → HashMap.lookup k p.page_table ≡ some frame
      → frame.node ≡ node
      → look row_id node ≡ (ok next, node)
      → (q : BufferPool W) × (with_frame k (look row_id) p ≡ (ok next, q))
        × Pooled q
        × Same p.page_table q.page_table
  look_hit row_id k p frame node next pooled there kind seen =
      let (q, run, pooled_q, change) = with_frame_hit k (look row_id) p frame pooled there in
      let here : look row_id frame.node ≡ (ok next, frame.node) =
        subst (λ n. look row_id n ≡ (ok next, n)) (sym kind) seen in
      (
        q,
        run ∙ ap (λ (r : Run BTreeNode _). (r.0, q)) here,
        pooled_q,
        λ j.
            change j
            ∙ (ap
                  (λ n.
                    if k == j
                    then some (record frame { node = n })
                    else HashMap.lookup j p.page_table)
                  (ap (λ (r : Run BTreeNode _). r.1) here)
                ∙ unchanged k j frame p.page_table there),
      )

  -- Enough rounds are the number of internal nodes on the way and one more; no frame is changed.
  pub find_loop-Descends :
      (fuel d row_id : ℕ) (k leaf_page_id : PageId) (p : BufferPool W) (frame : Frame)
      (l : LeafNode) (answer : Option (List ℕ))
      → Pooled p
      → Descends p.page_table row_id leaf_page_id k d
      → HashMap.lookup leaf_page_id p.page_table ≡ some frame
      → frame.node ≡ leaf l
      → get_record l row_id ≡ ok answer
      → d < fuel
      → (q : BufferPool W) × (find_loop fuel row_id k p ≡ (ok answer, q))
        × Pooled q
        × Same p.page_table q.page_table
  unfolding find_loop
  find_loop-Descends zero d row_id k leaf_page_id p frame l answer pooled way there kind seen lt =
      absurd (omega arith)
  find_loop-Descends (suc fuel) _ row_id _ leaf_page_id p frame l answer pooled arrived there kind
        seen lt =
      let (q, run, pooled_q, same) =
        look_hit row_id leaf_page_id p frame (leaf l) (inr answer) pooled there kind
          (look-leaf l row_id answer seen) in
      (q, rw (find_loop, run) refl, pooled_q, same)
  find_loop-Descends (suc fuel) _ row_id _ leaf_page_id p frame l answer pooled
        (below k child d above node at inner route way) there kind seen lt =
      let (s, run, pooled_s, same) =
        look_hit row_id k p above (internal node) (inl child) pooled at inner
          (look-internal node row_id child route) in
      let (q, rest, pooled_q, same') =
        find_loop-Descends fuel d row_id child leaf_page_id s frame l answer pooled_s
          (Descends-Same p.page_table s.page_table row_id leaf_page_id child d same way)
          (same leaf_page_id ∙ there) kind seen (omega arith) in
      (q, rw (find_loop, run) rest, pooled_q, λ j. same' j ∙ same j)
