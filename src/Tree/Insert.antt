-- ===== src/Tree/Insert.antt =====
-- `insert_leaf` (bptree.rs) where the leaf does not split.
use smol_db.Common.{
  ℕ, ◌<◌, ◌≡◌, refl, sym, ap, ◌∙◌, inl, inr, true, Bool-cases, ◌==◌, if◌then◌else◌, List, Option,
  none, some, arith, ◌≢◌,
}
use mathlib.Core.Option.{some-injective}
use smol_db.HashMap
use smol_db.HashMap.{HashMap}
use smol_db.Error.Outcome.{ok, err, panic, Run}
use smol_db.Error.Method.{go_on}
use smol_db.Page.{PageId, Record, LeafNode, InternalNode, BTreeNode, internal, leaf}
use smol_db.Page.Leaf.{insert_record, get_record, find_slot, record_at}
use smol_db.Page.Leaf.Rows.{IsLeaf, live_row, get_record-live_row}
use smol_db.Page.Leaf.Laws.{get_record-insert_record}
use smol_db.Page.Node.{mark_dirty}
use smol_db.Pool.{BufferPool, Frame, WalFlusher, fetch_page, release_handle, with_node, with_frame}
use smol_db.Pool.State.{Pooled}
use smol_db.Pool.Use.{with_frame_hit}
use smol_db.Tree.{
  BpTree, SplitResult, Attempt, fitted, no_room, attempted, attempt, after_attempt, insert_pool,
  insert_leaf, holding, find_record, on_tree,
}
use smol_db.Tree.Find.{Descends, arrived, below, find_loop-Descends}

attempt-fitted :
    (row_id lsn : ℕ) (payload : List ℕ) (l l' : LeafNode)
    → insert_record row_id payload l ≡ (ok tt, l')
    → attempt row_id payload lsn (leaf l) ≡ (ok fitted, mark_dirty lsn (leaf l'))
unfolding attempt attempted
attempt-fitted row_id lsn payload l l' h = rw (attempt, h) refl

-- the number of the last change is no part of the rows
get_record-mark_dirty :
    (lsn row_id : ℕ) (l : LeafNode)
    → get_record (record l { last_lsn = lsn; is_dirty = true }) row_id ≡ get_record l row_id
unfolding get_record find_slot record_at
get_record-mark_dirty lsn row_id l = refl

own :
    {A : Type 0} (k : ℕ) (now : A) (other : Option A)
    → (if k == k then some now else other) ≡ some now
own k now other = ground arith

-- the answer of a leaf that has stored a row
stored_answer :
    {l : LeafNode} {rows : List Record} (is : IsLeaf l rows) (row_id : ℕ) (payload : List ℕ)
    (l' : LeafNode) (lsn key : ℕ)
    → insert_record row_id payload l ≡ (ok tt, l')
    → get_record (record l' { last_lsn = lsn; is_dirty = true }) key
      ≡ ok (if row_id == key then some payload else live_row key rows)
stored_answer is row_id payload l' lsn key stored =
    get_record-mark_dirty lsn key l'
    ∙ (get_record-insert_record is row_id payload stored key
        ∙ ground (arith, get_record-live_row is key))

apart :
    (table : HashMap Frame) (j k : PageId) (frame above : Frame) (l : LeafNode)
    (node : InternalNode)
    → HashMap.lookup j table ≡ some frame
    → frame.node ≡ leaf l
    → HashMap.lookup k table ≡ some above
    → above.node ≡ internal node
    → j ≢ k
apart table j k frame above l node at kind there inner same =
    let both : some frame ≡ some above = sym at ∙ (ap (λ i. HashMap.lookup i table) same ∙ there) in
    let one : leaf l ≡ internal node =
      sym kind ∙ (ap (λ (f : Frame). f.node) (some-injective frame above both) ∙ inner) in
    cc one

-- The way to a leaf page is as before where the frame of a leaf has changed.
Descends-leaf :
    (table table' : HashMap Frame) (row_id : ℕ) (leaf_page_id k : PageId) (d : ℕ)
    (frame changed : Frame) (l : LeafNode)
    → HashMap.lookup leaf_page_id table ≡ some frame
    → frame.node ≡ leaf l
    → ((j : PageId)
        → HashMap.lookup j table'
          ≡ (if leaf_page_id == j then some changed else HashMap.lookup j table))
    → Descends table row_id leaf_page_id k d
    → Descends table' row_id leaf_page_id k d
Descends-leaf table table' row_id leaf_page_id _ _ frame changed l at kind change arrived = arrived
Descends-leaf table table' row_id leaf_page_id _ _ frame changed l at kind change
      (below k child d above node there inner route next) =
    let kept : (if leaf_page_id == k then some changed else HashMap.lookup k table) ≡ some above =
      elim (Bool-cases (leaf_page_id == k)) [
        | inl same ↦ absurd (
            apart table leaf_page_id k frame above l node at kind there inner
              (ground (arith, same)))
        | inr other ↦ rw other there
      ] in
    below k child d above node (change k ∙ kept) inner route
      (Descends-leaf table table' row_id leaf_page_id child d frame changed l at kind change next)

module _ {W : Type 0} (k : PageId) where
  -- the end of a call that holds the page
  abbrev pub let_go : {A : Type 0} → Run (BufferPool W) A → Run (BufferPool W) A
  let_go (x, u) = (x, (release_handle k u).1)

module _ {W : Type 0} ⦃flusher : WalFlusher W⦄ (k : PageId) (row_id : ℕ) (payload : List ℕ)
    (lsn : ℕ) where
  finish :
      (run : Run (BufferPool W) Attempt) (q : BufferPool W)
      → let_go k run ≡ (ok fitted, q)
      → let_go k (go_on run (after_attempt k row_id payload lsn)) ≡ (ok none, q)
  unfolding after_attempt
  finish (ok fitted, u) q e = ap (λ (r : Run (BufferPool W) Attempt). (ok none, r.1)) e
  finish (ok no_room, u) q e = cc (ap (λ (r : Run (BufferPool W) Attempt). r.0) e)
  finish (err x, u) q e = cc (ap (λ (r : Run (BufferPool W) Attempt). r.0) e)
  finish (panic, u) q e = cc (ap (λ (r : Run (BufferPool W) Attempt). r.0) e)

  fetched :
      (run : Run (BufferPool W) Unit) (q : BufferPool W)
      → go_on run (λ _ s. let_go k (with_node k (attempt row_id payload lsn) s)) ≡ (ok fitted, q)
      → go_on run (λ _ s.
        let_go k
          (go_on (with_node k (attempt row_id payload lsn) s) (after_attempt k row_id payload lsn)))
        ≡ (ok none, q)
  fetched (ok done, s) q e = finish (with_node k (attempt row_id payload lsn) s) q e
  fetched (err x, s) q e = cc (ap (λ (r : Run (BufferPool W) Attempt). r.0) e)
  fetched (panic, s) q e = cc (ap (λ (r : Run (BufferPool W) Attempt). r.0) e)

  insert_pool_fitted :
      (p q : BufferPool W)
      → with_frame k (attempt row_id payload lsn) p ≡ (ok fitted, q)
      → insert_pool k row_id payload lsn p ≡ (ok none, q)
  unfolding with_frame insert_pool holding
  insert_pool_fitted p q e = fetched (fetch_page k p) q e

  -- A row that fits into a cached, well-formed leaf is stored without a split, and `find_record` then
  -- returns its payload under the row id, and what was stored before under every other id, for every
  -- root from which the cached nodes route the id to that leaf, and with a round for each of them.
  pub find_record-insert_leaf :
      (t : BpTree W) (frame : Frame) (l l' : LeafNode) (rows : List Record) (key fuel d : ℕ)
      → Pooled t.buffer_pool
      → HashMap.lookup k t.buffer_pool.page_table ≡ some frame
      → frame.node ≡ leaf l
      → IsLeaf l rows
      → insert_record row_id payload l ≡ (ok tt, l')
      → Descends t.buffer_pool.page_table key k t.root_page_id d
      → d < fuel
      → (t' : BpTree W) × (insert_leaf k row_id payload lsn t ≡ (ok none, t'))
        × Pooled t'.buffer_pool
        × ((find_record fuel key t').0
            ≡ ok (if row_id == key then some payload else live_row key rows))
  unfolding insert_leaf find_record on_tree mark_dirty
  find_record-insert_leaf t frame l l' rows key fuel d pooled there kind is stored way lt =
      let p = t.buffer_pool in
      let (q, run, pooled_q, change) =
        with_frame_hit k (attempt row_id payload lsn) p frame pooled there in
      let tried : attempt row_id payload lsn frame.node ≡ (ok fitted, mark_dirty lsn (leaf l')) =
        ap (attempt row_id payload lsn) kind ∙ attempt-fitted row_id lsn payload l l' stored in
      let inserted =
        insert_pool_fitted p q (run ∙ ap (λ (r : Run BTreeNode Attempt). (r.0, q)) tried) in
      let now : Frame = record frame { node = (attempt row_id payload lsn frame.node).1 } in
      let here : HashMap.lookup k q.page_table ≡ some now =
        change k ∙ own k now (HashMap.lookup k p.page_table) in
      let way' =
        Descends-leaf p.page_table q.page_table key k t.root_page_id d frame now l there kind change
          way in
      let (_, found_it, _, _) =
        find_loop-Descends fuel d key t.root_page_id k q now
          (record l' { last_lsn = lsn; is_dirty = true })
          (if row_id == key then some payload else live_row key rows) pooled_q way' here
          (ap (λ (r : Run BTreeNode Attempt). r.1) tried)
          (stored_answer is row_id payload l' lsn key stored) lt in
      (
        record t { buffer_pool = q },
        ap (λ (r : Run (BufferPool W) (Option SplitResult)). (r.0, record t { buffer_pool = r.1 }))
            inserted,
        pooled_q,
        ap (λ (r : Run (BufferPool W) (Option (List ℕ))). r.0) found_it,
      )
