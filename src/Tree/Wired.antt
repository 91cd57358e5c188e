-- ===== src/Tree/Wired.antt =====
-- The two leaves that a split has latched and their old right sibling (bptree.rs), in the pool.
use smol_db.Common.{ℕ, ◌≡◌, ◌≢◌, refl, sym, ap, subst, ◌∙◌, true}
use smol_db.Error.Outcome.{ok, Run}
use smol_db.Error.Method.{Method, ◌>>◌, return, go_on}
use smol_db.Page.{PageId, LeafNode, BTreeNode, internal, leaf}
use smol_db.Page.Node.{mark_dirty}
use smol_db.Pool.{BufferPool, release_handle, with_node}
use smol_db.Pool.State.{Pooled}
use smol_db.Pool.Latched.{Latched, Others, both, Latched-Others, with_node-Latched, Cached}
use smol_db.Tree.{mark, with_leaves, store_leaves, as_leaf, put_leaf, holding, back_link}

abbrev pub marked : ℕ → LeafNode → LeafNode
marked lsn l = record l { last_lsn = lsn; is_dirty = true }

-- a node that is a leaf points back to the page
abbrev pub PointsBack : PageId → BTreeNode → Type 0
PointsBack j (leaf l) = (l.has_prev ≡ true) × (l.prev_page_id ≡ j)
PointsBack j (internal n) = Unit {0}

pub back_link-PointsBack : (j lsn : ℕ) (node : BTreeNode) → PointsBack j (back_link j lsn node).1
unfolding back_link mark_dirty
back_link-PointsBack j lsn (leaf l) = (refl, refl)
back_link-PointsBack j lsn (internal n) = tt

module _ {W : Type 0} where
  -- both frames are held, and these are their leaves
  abbrev pub Both : PageId → PageId → LeafNode → LeafNode → BufferPool W → Type 0
  Both k j left right q = Pooled q × Latched k (leaf left) q × Latched j (leaf right) q

  -- the old right sibling is another page, and points back to the new leaf
  abbrev pub Linked : PageId → PageId → PageId → BufferPool W → Type 0
  Linked k j o q = (k ≢ o) × (j ≢ o) × ((node : BTreeNode) × Cached o node q × PointsBack j node)

  -- A call that returns while it holds a frame has dropped it.
  pub holding_ok :
      {A : Type 0} (k : PageId) (m : Method (BufferPool W) A) (p : BufferPool W) (a : A)
      (q : BufferPool W)
      → holding k m p ≡ (ok a, q)
      → (u : BufferPool W) × (m p ≡ (ok a, u)) × ((release_handle k u).1 ≡ q)
  unfolding holding
  holding_ok {A} k m p a q e = (
    (m p).1,
    ap (λ (r : Run (BufferPool W) A). (r.0, (m p).1)) e,
    ap (λ (r : Run (BufferPool W) A). r.1) e,
  )

  pub with_leaves-Both :
      {A : Type 0} (k j : PageId) (m : Method (LeafNode × LeafNode) A) (left right : LeafNode)
      (p : BufferPool W)
      → k ≢ j
      → Both k j left right p
      → (q : BufferPool W) × (with_leaves k j m p ≡ ((m (left, right)).0, q))
        × Both k j (m (left, right)).1.0 (m (left, right)).1.1 q
  unfolding with_leaves store_leaves as_leaf
  with_leaves-Both k j m left right p ne (pooled, hk, hj) =
      let (p1, run1, pooled1, hk1, same1) = with_node-Latched k as_leaf (leaf left) p pooled hk in
      let hj1 = Latched-Others k j (leaf right) p p1 same1 ne hj in
      let (p2, run2, pooled2, hj2, same2) =
        with_node-Latched j as_leaf (leaf right) p1 pooled1 hj1 in
      let hk2 = Latched-Others j k (leaf left) p1 p2 same2 (λ e. ne (sym e)) hk1 in
      let left' = (m (left, right)).1.0 in
      let right' = (m (left, right)).1.1 in
      let (p3, run3, pooled3, hk3, same3) =
        with_node-Latched k (put_leaf left') (leaf left) p2 pooled2 hk2 in
      let hj3 = Latched-Others k j (leaf right) p2 p3 same3 ne hj2 in
      let (p4, run4, pooled4, hj4, same4) =
        with_node-Latched j (put_leaf right') (leaf right) p3 pooled3 hj3 in
      (
        p4,
        rw (with_leaves, run1, run2, run3, run4) refl,
        (pooled4, Latched-Others j k (leaf left') p3 p4 same4 (λ e. ne (sym e)) hk3, hj4),
      )

module _ {W : Type 0} (k j : PageId) (k≢j : k ≢ j) where
  -- a change of both leaves that has returned
  pub with_leaves_ok :
      {A : Type 0} (m : Method (LeafNode × LeafNode) A) (left right : LeafNode) (p q : BufferPool W)
      (a : A)
      → Both k j left right p
      → with_leaves k j m p ≡ (ok a, q)
      → (m (left, right) ≡ (ok a, (m (left, right)).1))
        × Both k j (m (left, right)).1.0 (m (left, right)).1.1 q
  with_leaves_ok {A} m left right p q a both e =
      let (q', run, both') = with_leaves-Both k j m left right p k≢j both in
      let ends : ((m (left, right)).0, q') ≡ (ok a, q) = sym run ∙ e in
      (
        ap (λ (r : Run (BufferPool W) A). (r.0, (m (left, right)).1)) ends,
        subst (Both k j (m (left, right)).1.0 (m (left, right)).1.1)
            (ap (λ (r : Run (BufferPool W) A). r.1) ends) both',
      )

  Linked-Others :
      (i o : PageId) (p q : BufferPool W) → Others i p q → i ≢ o → Linked k j o p → Linked k j o q
  Linked-Others i o p q same ne (k≢o, j≢o, (node, (frame, there, kind), back)) =
      (k≢o, j≢o, (node, (frame, same o ne ∙ there, kind), back))

  -- The leaves are marked dirty, which changes no other page.
  pub mark_pair :
      {A : Type 0} (lsn : ℕ) (left right : LeafNode) (p q : BufferPool W) (x y : A)
      → Both k j left right p
      → go_on (with_node k (mark lsn) p) (λ _. with_node j (mark lsn) >> return x) ≡ (ok y, q)
      → (ok x ≡ ok y)
        × Both k j (marked lsn left) (marked lsn right) q
        × ((o : PageId) → Linked k j o p → Linked k j o q)
  unfolding mark_dirty
  mark_pair {A} lsn left right p q x y (pooled, hk, hj) e =
      let (s, run, pooled_s, sk, same) = with_node-Latched k (mark lsn) (leaf left) p pooled hk in
      let sj = Latched-Others k j (leaf right) p s same k≢j hj in
      let (u, run', pooled_u, uj, same') =
        with_node-Latched j (mark lsn) (leaf right) s pooled_s sj in
      let uk = Latched-Others j k (leaf (marked lsn left)) s u same' (λ e. k≢j (sym e)) sk in
      let P : BufferPool W → Type 0 = λ q.
        Both k j (marked lsn left) (marked lsn right) q
        × ((o : PageId) → Linked k j o p → Linked k j o q) in
      let ends : (ok x, u) ≡ (ok y, q) =
        subst (λ (r : Run (BufferPool W) Unit). go_on r (λ _. return x) ≡ (ok y, q)) run'
          (subst
            (λ (r : Run (BufferPool W) Unit).
              go_on r (λ _. with_node j (mark lsn) >> return x) ≡ (ok y, q))
            run e) in
      let (both, linked) = subst P (ap (λ (r : Run (BufferPool W) A). r.1) ends) (
        (pooled_u, uk, uj),
        λ o h. Linked-Others j o s u same' h.1 (Linked-Others k o p s same h.0 h),
      ) in
      (ap (λ (r : Run (BufferPool W) A). r.0) ends, both, linked)
