-- ===== src/Tree/SplitLeaf.antt =====
-- `insert_leaf` (bptree.rs) from its fetch to its return, where the leaf splits.
use smol_db.Common.{ℕ, ◌≤◌, ◌≡◌, ◌≢◌, refl, sym, ap, subst, ◌∙◌, arith, true, List, Option, some}
use smol_db.HashMap
use smol_db.HashMap.{HashMap}
use smol_db.Error.{page_full}
use smol_db.Error.Outcome.{Outcome, ok, err, panic, Run}
use smol_db.Error.Method.{◌>>=◌, go_on, go_on-ok}
use smol_db.Page.{Record, LeafNode, BTreeNode, leaf, page_size}
use smol_db.Page.Node.{new_empty}
use smol_db.Page.Leaf.{insert_record}
use smol_db.Page.Leaf.Rows.{IsLeaf}
use smol_db.Page.Leaf.Compaction.{net_size}
use smol_db.Page.Leaf.Laws.{insert_record-InsertError}
use smol_db.Disk.{DiskManager}
use smol_db.Pool.{BufferPool, Frame, WalFlusher, with_node, new_page}
use smol_db.Pool.State.{Pooled}
use smol_db.Pool.Keep.{release_handle-Pooled}
use smol_db.Pool.Allocate.{new_page-Allocated}
use smol_db.Pool.Latched.{Latched, latch, fetch_page-Latched, with_node-Latched, with_node-disk}
use smol_db.Tree.{
  BpTree, SplitResult, Attempt, fitted, no_room, attempted, attempt, after_attempt, split_leaf,
  insert_pool, insert_leaf, on_tree, holding,
}
use smol_db.Tree.Wired.{holding_ok}
use smol_db.Tree.Split.{Parted, split_body, split_body-Parted, release_handle-Parted}

-- the attempt finds no room
attempted_full :
    (lsn : ℕ) (run : Run LeafNode Unit) → (attempted lsn run).0 ≡ ok no_room → run.0 ≡ err page_full
unfolding attempted
attempted_full lsn (ok done, l) e = cc e
attempted_full lsn (err page_full, l) e = refl
attempted_full lsn (err x, l) e = cc e
attempted_full lsn (panic, l) e = cc e

attempted_kept :
    (lsn : ℕ) (run : Run LeafNode Unit) (l : LeafNode)
    → run ≡ (err page_full, l)
    → (attempted lsn run).1 ≡ leaf l
unfolding attempted
attempted_kept lsn run l e = ap (λ (r : Run LeafNode Unit). (attempted lsn r).1) e

-- an attempt that finds no room leaves a well-formed leaf as it was
attempt_full :
    (row_id lsn : ℕ) (payload : List ℕ) {l : LeafNode} {rows : List Record}
    → IsLeaf l rows
    → (attempt row_id payload lsn (leaf l)).0 ≡ ok no_room
    → (attempt row_id payload lsn (leaf l)).1 ≡ leaf l
unfolding attempt
attempt_full row_id lsn payload {l} is e =
    let after = (insert_record row_id payload l).1 in
    let run : insert_record row_id payload l ≡ (err page_full, after) =
      ap (λ (x : Outcome Unit). (x, after))
        (attempted_full lsn (insert_record row_id payload l) e) in
    let (same, _) = insert_record-InsertError is row_id payload page_full run in
    attempted_kept lsn (insert_record row_id payload l) after run ∙ ap leaf same

module _ {W : Type 0} ⦃flusher : WalFlusher W⦄ (k row_id : ℕ) (payload : List ℕ) (lsn : ℕ)
    (l : LeafNode) (rows : List Record) (is : IsLeaf l rows) (fits : net_size rows ≤ page_size)
    (r : SplitResult) where
  split_leaf-Parted :
      (p q : BufferPool W)
      → Pooled p
      → Latched k (leaf l) p
      → k ≢ p.disk_manager.header.next_free_offset
      → split_leaf k row_id payload lsn p ≡ (ok (some r), q)
      → Pooled q
        × Parted l k row_id payload lsn r q
        × (r.new_page_id ≡ p.disk_manager.header.next_free_offset)
  unfolding split_leaf new_empty
  split_leaf-Parted p q pooled latched fresh e =
      let (j, s, run, rest) = go_on-ok (new_page true p) _ (some r) q e in
      let (first, (pooled_s, still), there) =
        new_page-Allocated (Latched k (leaf l)) (λ i. i ≢ k) (latch k (leaf l)) true p s j
          (pooled, latched) (λ x. fresh (sym x)) run in
      let (u, body, dropped) = holding_ok j (split_body k row_id payload lsn j) s (some r) q rest in
      let (pooled_u, parted, same) =
        split_body-Parted k row_id payload lsn j l _ rows s u r is fits refl refl
          (λ x. fresh (x ∙ first)) (pooled_s, still, (_, there, refl, omega arith)) body in
      subst
        (λ q.
          Pooled q
          × Parted l k row_id payload lsn r q
          × (r.new_page_id ≡ p.disk_manager.header.next_free_offset))
        dropped
        (
          release_handle-Pooled j u pooled_u,
          release_handle-Parted j k row_id lsn payload l r u parted,
          same ∙ first,
        )

  after_attempt-Parted :
      (a : Attempt) (node : BTreeNode) (p q : BufferPool W)
      → Pooled p
      → Latched k node p
      → ((a ≡ no_room) → node ≡ leaf l)
      → k ≢ p.disk_manager.header.next_free_offset
      → after_attempt k row_id payload lsn a p ≡ (ok (some r), q)
      → Pooled q
        × Parted l k row_id payload lsn r q
        × (r.new_page_id ≡ p.disk_manager.header.next_free_offset)
  unfolding after_attempt
  after_attempt-Parted fitted node p q pooled latched same fresh e =
      cc (ap (λ (x : Run (BufferPool W) (Option SplitResult)). x.0) e)
  after_attempt-Parted no_room node p q pooled latched same fresh e =
      split_leaf-Parted p q pooled (subst (λ n. Latched k n p) (same refl) latched) fresh e

  insert_pool-Parted :
      (frame : Frame) (p q : BufferPool W)
      → Pooled p
      → HashMap.lookup k p.page_table ≡ some frame
      → frame.node ≡ leaf l
      → k ≢ p.disk_manager.header.next_free_offset
      → insert_pool k row_id payload lsn p ≡ (ok (some r), q)
      → Pooled q
        × Parted l k row_id payload lsn r q
        × (r.new_page_id ≡ p.disk_manager.header.next_free_offset)
  unfolding insert_pool
  insert_pool-Parted frame p q pooled there kind fresh e =
      let (s, run, pooled_s, latched, disk) = fetch_page-Latched k frame p pooled there in
      let tried = attempt row_id payload lsn in
      let (v, run', pooled_v, latched_v, _) =
        with_node-Latched k tried (leaf l) s pooled_s (subst (λ n. Latched k n s) kind latched) in
      let (u, inner, dropped) =
        holding_ok k (with_node k tried >>= after_attempt k row_id payload lsn) s (some r) q (
          subst
            (λ (x : Run (BufferPool W) Unit).
              go_on x (λ _. holding k (with_node k tried >>= after_attempt k row_id payload lsn))
              ≡ (ok (some r), q))
            run e) in
      let (a, w, used, rest) =
        go_on-ok (with_node k tried s) (after_attempt k row_id payload lsn) (some r) u inner in
      let ends : ((tried (leaf l)).0, v) ≡ (ok a, w) = sym run' ∙ used in
      let v≡w : v ≡ w = ap (λ (x : Run (BufferPool W) Attempt). x.1) ends in
      let same : v.disk_manager ≡ p.disk_manager =
        ap (λ (x : Run (BufferPool W) Attempt). x.1.disk_manager) (sym run')
        ∙ (with_node-disk k tried s ∙ disk) in
      let first : v.disk_manager.header.next_free_offset ≡ p.disk_manager.header.next_free_offset =
        ap (λ (d : DiskManager). d.header.next_free_offset) same in
      let (pooled_u, parted, new) =
        after_attempt-Parted a (tried (leaf l)).1 v u pooled_v latched_v
          (λ full.
            attempt_full row_id lsn payload is
              (ap (λ (x : Run (BufferPool W) Attempt). x.0) ends ∙ ap ok full))
          (λ x. fresh (x ∙ first))
          (subst (λ v. after_attempt k row_id payload lsn a v ≡ (ok (some r), u)) (sym v≡w) rest) in
      subst
        (λ q.
          Pooled q
          × Parted l k row_id payload lsn r q
          × (r.new_page_id ≡ p.disk_manager.header.next_free_offset))
        dropped
        (
          release_handle-Pooled k u pooled_u,
          release_handle-Parted k k row_id lsn payload l r u parted,
          new ∙ first,
        )

  -- Where `insert_leaf` returns a split of a cached, well-formed leaf that fits its page and is not the
  -- next free page of the file, the new page is that free page; the table then holds two well-formed
  -- leaves which, divided at the promoted key, find the new row and every old one; the new leaf is
  -- linked between the old leaf and its old right sibling, which points back to it; both leaves are
  -- dirty since the given change; and the pool has kept its invariant.
  pub insert_leaf-Parted :
      (frame : Frame) (t t' : BpTree W)
      → Pooled t.buffer_pool
      → HashMap.lookup k t.buffer_pool.page_table ≡ some frame
      → frame.node ≡ leaf l
      → k ≢ t.buffer_pool.disk_manager.header.next_free_offset
      → insert_leaf k row_id payload lsn t ≡ (ok (some r), t')
      → Pooled t'.buffer_pool
        × Parted l k row_id payload lsn r t'.buffer_pool
        × (r.new_page_id ≡ t.buffer_pool.disk_manager.header.next_free_offset)
  unfolding insert_leaf on_tree
  insert_leaf-Parted frame t t' pooled there kind fresh e =
      insert_pool-Parted frame t.buffer_pool t'.buffer_pool pooled there kind fresh
        (ap (λ (x : Run (BpTree W) (Option SplitResult)). (x.0, x.1.buffer_pool)) e)
