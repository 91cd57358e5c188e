-- ===== src/Pool/Use.antt =====
-- The use of a cached page by a caller (`with_frame`).
use smol_db.Common.{suc, ◌-◌, ◌≡◌, refl, ap, ◌∙◌, some, arith, ◌==◌, if◌then◌else◌}
use smol_db.HashMap
use smol_db.HashMap.{HashMap, lookup-insert}
use smol_db.Error.Outcome.{ok}
use smol_db.Error.Method.{Method}
use smol_db.Page.{PageId, BTreeNode}
use smol_db.Pool.{BufferPool, Frame, WalFlusher, store_frame, release_handle, with_node, with_frame}
use smol_db.Pool.State.{Pooled, held}
use smol_db.Pool.Frames.{store_frame-IsPool}
use smol_db.Pool.Fetch.{hand_out, fetch_hit}
use smol_db.Pool.Pinned.{any_pool}

module _ {W : Type 0} where
  pub with_node_at :
      {A : Type 0} (k : PageId) (m : Method BTreeNode A) (q : BufferPool W) (frame : Frame)
      → HashMap.lookup k q.page_table ≡ some frame
      → with_node k m q ≡ (
        (m frame.node).0,
        record q {
          page_table = HashMap.insert k (record frame { node = (m frame.node).1 }) q.page_table;
        },
      )
  unfolding with_node
  with_node_at k m q frame there = rw (with_node, there) refl

  release_handle_at :
      (k : PageId) (q : BufferPool W) (frame : Frame)
      → HashMap.lookup k q.page_table ≡ some frame
      → release_handle k q ≡ (
        ok tt,
        record q {
          page_table = HashMap.insert k (record frame { handles = frame.handles - 1 }) q.page_table;
        },
      )
  unfolding release_handle store_frame
  release_handle_at k q frame there = rw (release_handle, there) refl

lookup-inserts :
    (j k : PageId) (a b c : Frame) (table : HashMap Frame)
    → HashMap.lookup j (HashMap.insert k c (HashMap.insert k b (HashMap.insert k a table)))
      ≡ (if k == j then some c else HashMap.lookup j table)
lookup-inserts j k a b c table = ground (
  arith,
  lookup-insert k j c (HashMap.insert k b (HashMap.insert k a table)),
  lookup-insert k j b (HashMap.insert k a table),
  lookup-insert k j a table,
)

lookup-inserted :
    (k : PageId) (a : Frame) (table : HashMap Frame)
    → HashMap.lookup k (HashMap.insert k a table) ≡ some a
lookup-inserted k a table = ground (arith, lookup-insert k k a table)

module _ {W : Type 0} ⦃flusher : WalFlusher W⦄ {A : Type 0} (k : PageId)
    (m : Method BTreeNode A) where
  -- A use of a cached page runs on its node and changes no other frame.
  pub with_frame_hit :
      (p : BufferPool W) (frame : Frame)
      → Pooled p
      → HashMap.lookup k p.page_table ≡ some frame
      → (q : BufferPool W) × (with_frame k m p ≡ ((m frame.node).0, q))
        × Pooled q
        × ((j : PageId)
            → HashMap.lookup j q.page_table ≡ (
                if k == j
                then some (record frame { node = (m frame.node).1 })
                else HashMap.lookup j p.page_table))
  unfolding with_frame store_frame
  with_frame_hit p frame h there =
      let (r, run, ((l, lost, is), _)) =
        fetch_hit (λ _. Unit {0}) (λ _. Unit {0}) any_pool k frame p there (h, tt) in
      let a = hand_out frame in
      let b : Frame = record a { node = (m frame.node).1 } in
      let c : Frame = record b { handles = suc frame.handles - 1 } in
      let p1 : BufferPool W = record p {
        page_table = HashMap.insert k a p.page_table;
        replacer = r;
      } in
      let p2 : BufferPool W = record p1 { page_table = HashMap.insert k b p1.page_table } in
      let p3 : BufferPool W = record p2 { page_table = HashMap.insert k c p2.page_table } in
      let used = with_node_at k m p1 a (lookup-inserted k a p.page_table) in
      let back = release_handle_at k p2 b (lookup-inserted k b p1.page_table) in
      let known = is.members k ∙ ap held there in
      let is1 = store_frame-IsPool k a l lost known (record p { replacer = r }) is in
      let is2 = store_frame-IsPool k b l lost known p1 is1 in
      let same : c ≡ record frame { node = (m frame.node).1 } =
        ap (λ n. record frame { node = (m frame.node).1; handles = n }) (omega arith) in
      (
        p3,
        rw (with_frame, run, used, back) refl,
        (l, lost, store_frame-IsPool k c l lost known p2 is2),
        λ j.
            lookup-inserts j k a b c p.page_table
            ∙ ap (λ f. if k == j then some f else HashMap.lookup j p.page_table) same,
      )
