-- ===== src/Tree/Refused.antt =====
-- `insert_leaf` (bptree.rs) where the leaf refuses the row.
use smol_db.Common.{ℕ, ◌≡◌, ◌≢◌, refl, sym, ap, ◌∙◌, List, Option, some, ◌==◌, if◌then◌else◌}
use smol_db.HashMap
use smol_db.Error.{DbError, page_full}
use smol_db.Error.Outcome.{Outcome, ok, err, panic, Run}
use smol_db.Error.Method.{go_on}
use smol_db.Page.{PageId, Record, LeafNode, BTreeNode, leaf}
use smol_db.Page.Leaf.{insert_record}
use smol_db.Page.Leaf.Rows.{IsLeaf}
use smol_db.Page.Leaf.Laws.{insert_record-InsertError}
use smol_db.Pool.{BufferPool, Frame, WalFlusher, fetch_page, with_node, with_frame}
use smol_db.Pool.State.{Pooled}
use smol_db.Pool.Use.{with_frame_hit}
use smol_db.Tree.{
  BpTree, SplitResult, Attempt, attempted, attempt, after_attempt, insert_pool, insert_leaf,
  on_tree, holding,
}
use smol_db.Tree.Find.{unchanged}
use smol_db.Tree.Insert.{let_go}

-- every error but the full page ends the call
attempted_err :
    (lsn : ℕ) (e : DbError) (l : LeafNode)
    → e ≢ page_full
    → attempted lsn (err e, l) ≡ (err e, leaf l)
unfolding attempted
attempted_err lsn page_full l ne = absurd (ne refl)
attempted_err lsn e l ne = refl

-- an error, at another type of results
abbrev as_error : {A B : Type 0} → Outcome A → Outcome B
as_error (ok a) = panic
as_error (err e) = err e
as_error panic = panic

module _ {W : Type 0} ⦃flusher : WalFlusher W⦄ (k : PageId) (row_id : ℕ) (payload : List ℕ)
    (lsn : ℕ) (x : DbError) where
  end_err :
      (run : Run (BufferPool W) Attempt) (q : BufferPool W)
      → let_go k run ≡ (err x, q)
      → let_go k (go_on run (after_attempt k row_id payload lsn)) ≡ (err x, q)
  end_err (ok a, u) q e = cc (ap (λ (r : Run (BufferPool W) Attempt). r.0) e)
  end_err (err y, u) q e = ap (λ (r : Run (BufferPool W) Attempt). (as_error r.0, r.1)) e
  end_err (panic, u) q e = cc (ap (λ (r : Run (BufferPool W) Attempt). r.0) e)

  call_err :
      (run : Run (BufferPool W) Unit) (q : BufferPool W)
      → go_on run (λ _ s. let_go k (with_node k (attempt row_id payload lsn) s)) ≡ (err x, q)
      → go_on run (λ _ s.
        let_go k
          (go_on (with_node k (attempt row_id payload lsn) s) (after_attempt k row_id payload lsn)))
        ≡ (err x, q)
  call_err (ok done, s) q e = end_err (with_node k (attempt row_id payload lsn) s) q e
  call_err (err y, s) q e = ap (λ (r : Run (BufferPool W) Attempt). (as_error r.0, r.1)) e
  call_err (panic, s) q e = cc (ap (λ (r : Run (BufferPool W) Attempt). r.0) e)

  insert_pool_refused :
      (p q : BufferPool W)
      → with_frame k (attempt row_id payload lsn) p ≡ (err x, q)
      → insert_pool k row_id payload lsn p ≡ (err x, q)
  unfolding with_frame insert_pool holding
  insert_pool_refused p q e = call_err (fetch_page k p) q e

  -- A row that a cached, well-formed leaf refuses for another reason than a full page, which are a
  -- payload over the maximum and a row id that is live, is refused by `insert_leaf` with the same
  -- error, and every frame of the pool is as it was, its owners included.
  pub insert_leaf-refused :
      (t : BpTree W) (frame : Frame) (l l' : LeafNode) (rows : List Record) (j : PageId)
      → Pooled t.buffer_pool
      → HashMap.lookup k t.buffer_pool.page_table ≡ some frame
      → frame.node ≡ leaf l
      → IsLeaf l rows
      → insert_record row_id payload l ≡ (err x, l')
      → x ≢ page_full
      → (t' : BpTree W) × (insert_leaf k row_id payload lsn t ≡ (err x, t'))
        × Pooled t'.buffer_pool
        × (HashMap.lookup j t'.buffer_pool.page_table ≡ HashMap.lookup j t.buffer_pool.page_table)
  unfolding insert_leaf on_tree attempt
  insert_leaf-refused t frame l l' rows j pooled there kind is refused ne =
      let p = t.buffer_pool in
      let tried = attempt row_id payload lsn in
      let (q, run, pooled_q, change) = with_frame_hit k tried p frame pooled there in
      let (same, _) = insert_record-InsertError is row_id payload x refused in
      let answer : tried frame.node ≡ (err x, leaf l') =
        ap tried kind ∙ (ap (attempted lsn) refused ∙ attempted_err lsn x l' ne) in
      let node : (tried frame.node).1 ≡ frame.node =
        ap (λ (r : Run BTreeNode Attempt). r.1) answer ∙ (ap leaf same ∙ sym kind) in
      let done =
        insert_pool_refused p q (run ∙ ap (λ (r : Run BTreeNode Attempt). (r.0, q)) answer) in
      (
        record t { buffer_pool = q },
        ap (λ (r : Run (BufferPool W) (Option SplitResult)). (r.0, record t { buffer_pool = r.1 }))
            done,
        pooled_q,
        change j
            ∙ (ap
                  (λ n.
                    if k == j
                    then some (record frame { node = n })
                    else HashMap.lookup j p.page_table)
                  node
                ∙ unchanged k j frame p.page_table there),
      )
