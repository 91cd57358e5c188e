-- ===== src/Pool/Latched.antt =====
-- The frames that a caller of the pool (buffer_pool.rs) holds and changes: their nodes, through calls
-- for other pages.
use smol_db.Common.{
  ◌-◌, ◌≡◌, ◌≢◌, refl, sym, ap, ◌∙◌, inl, inr, some, arith, Bool-cases, Option-cases, ◌==◌,
}
use mathlib.Core.Option.{some-injective}
use smol_db.HashMap
use smol_db.HashMap.{HashMap, lookup-insert}
use smol_db.Error.Outcome.{ok}
use smol_db.Error.Method.{Method}
use smol_db.Page.{PageId, BTreeNode}
use smol_db.Pool.{BufferPool, Frame, WalFlusher, store_frame, release_handle, with_node, fetch_page}
use smol_db.Pool.State.{Pooled, held}
use smol_db.Pool.Frames.{store_frame-IsPool}
use smol_db.Pool.Pinned.{Pinned, held_page, any_pool}
use smol_db.Pool.Fetch.{hand_out, fetch_hit}
use smol_db.Pool.Use.{with_node_at}
use smol_db.Pool.Room.{Guard}

module _ {W : Type 0} where
  -- somebody holds the frame of the page, and this is its node
  abbrev pub Latched : PageId → BTreeNode → BufferPool W → Type 0
  Latched k node q = Pinned k (record { node = node; handles = 1 }) q

  -- the page is in the table with this node
  abbrev pub Cached : PageId → BTreeNode → BufferPool W → Type 0
  Cached k node q =
      (frame : Frame) × (HashMap.lookup k q.page_table ≡ some frame) × (frame.node ≡ node)

  -- the tables agree on every other page
  abbrev pub Others : PageId → BufferPool W → BufferPool W → Type 0
  Others k p q =
      (i : PageId) → k ≢ i → HashMap.lookup i q.page_table ≡ HashMap.lookup i p.page_table

  pub latch : (k : PageId) (node : BTreeNode) → Guard {W = W} (Latched k node) (λ i. i ≢ k)
  latch k node = held_page k (record { node = node; handles = 1 }) (omega arith)

  pub both :
      {K L : BufferPool W → Type 0} {Free Open : PageId → Type 0}
      → Guard K Free
      → Guard L Open
      → Guard (λ q. K q × L q) (λ k. Free k × Open k)
  both g h = record {
    elsewhere = λ q d w (x, y). (g.elsewhere q d w x, h.elsewhere q d w y);
    replaced = λ q r (x, y). (g.replaced q r x, h.replaced q r y);
    stored = λ k frame q (a, b) (x, y). (g.stored k frame q a x, h.stored k frame q b y);
    dropped = λ k q (a, b) (x, y). (g.dropped k q a x, h.dropped k q b y);
    idle = λ k frame q (x, y) e free. (g.idle k frame q x e free, h.idle k frame q y e free);
    absent = λ k q (x, y) e. (g.absent k q x e, h.absent k q y e);
  }

  pub Latched-Others :
      (k i : PageId) (node : BTreeNode) (p q : BufferPool W)
      → Others k p q
      → k ≢ i
      → Latched i node p
      → Latched i node q
  Latched-Others k i node p q same ne (frame, there, kind, more) =
      (frame, same i ne ∙ there, kind, more)

  -- What a caller does to the node of a frame that it holds is done to that node alone.
  pub with_node-Latched :
      {A : Type 0} (k : PageId) (m : Method BTreeNode A) (node : BTreeNode) (p : BufferPool W)
      → Pooled p
      → Latched k node p
      → (q : BufferPool W) × (with_node k m p ≡ ((m node).0, q))
        × Pooled q
        × Latched k (m node).1 q
        × Others k p q
  unfolding store_frame
  with_node-Latched k m node p (l, lost, is) (frame, there, same, more) =
      let now : Frame = record frame { node = (m frame.node).1 } in
      let q : BufferPool W = record p { page_table = HashMap.insert k now p.page_table } in
      (
        q,
        with_node_at k m p frame there ∙ ap (λ n. ((m n).0, q)) same,
        (l, lost, store_frame-IsPool k now l lost (is.members k ∙ ap held there) p is),
        (now, ground (arith, lookup-insert k k now p.page_table), ap (λ n. (m n).1) same, more),
        λ i ne. ground (arith, lookup-insert k i now p.page_table, ne),
      )

  -- A handle that is dropped changes no node.
  pub release_handle-Cached :
      (k i : PageId) (node : BTreeNode) (p : BufferPool W)
      → Cached i node p
      → Cached i node (release_handle k p).1
  unfolding release_handle store_frame
  release_handle-Cached k i node p (frame, there, same) =
      elim (Option-cases (HashMap.lookup k p.page_table)) [
        | inl absent ↦ rw (release_handle, absent) (frame, there, same)
        | inr (old, at) ↦
            let now : Frame = record old { handles = old.handles - 1 } in
            rw (release_handle, at)
              (elim (Bool-cases (k == i)) [
                | inl here ↦
                    let k≡i : k ≡ i = ground (arith, here) in
                    let one : some old ≡ some frame =
                      sym at ∙ (ap (λ x. HashMap.lookup x p.page_table) k≡i ∙ there) in
                    (
                      now,
                      ground (arith, lookup-insert k i now p.page_table, here),
                      ap (λ (f : Frame). f.node) (some-injective old frame one) ∙ same,
                    )
                | inr other ↦
                    (frame, ground (arith, lookup-insert k i now p.page_table, other, there), same)
              ])
      ]

  pub release_handle-Others : (k : PageId) (p : BufferPool W) → Others k p (release_handle k p).1
  unfolding release_handle store_frame
  release_handle-Others k p i ne = elim (Option-cases (HashMap.lookup k p.page_table)) [
    | inl absent ↦ rw (release_handle, absent) refl
    | inr (old, at) ↦
        let now : Frame = record old { handles = old.handles - 1 } in
        rw (release_handle, at) (ground (arith, lookup-insert k i now p.page_table, ne))
  ]

  pub with_node-disk :
      {A : Type 0} (k : PageId) (m : Method BTreeNode A) (p : BufferPool W)
      → (with_node k m p).1.disk_manager ≡ p.disk_manager
  unfolding with_node
  with_node-disk k m p = elim (Option-cases (HashMap.lookup k p.page_table)) [
    | inl absent ↦ rw (with_node, absent) refl
    | inr (frame, there) ↦ rw (with_node, there) refl
  ]

module _ {W : Type 0} ⦃flusher : WalFlusher W⦄ where
  -- A cached page is fetched without the file, and is held then.
  pub fetch_page-Latched :
      (k : PageId) (frame : Frame) (p : BufferPool W)
      → Pooled p
      → HashMap.lookup k p.page_table ≡ some frame
      → (q : BufferPool W) × (fetch_page k p ≡ (ok tt, q))
        × Pooled q
        × Latched k frame.node q
        × (q.disk_manager ≡ p.disk_manager)
  unfolding store_frame
  fetch_page-Latched k frame p pooled there =
      let (r, run, ((l, lost, is), _)) =
        fetch_hit (λ _. Unit {0}) (λ _. Unit {0}) any_pool k frame p there (pooled, tt) in
      (
        record p { page_table = HashMap.insert k (hand_out frame) p.page_table; replacer = r },
        run,
        (
          l,
          lost,
          store_frame-IsPool k (hand_out frame) l lost (is.members k ∙ ap held there)
              (record p { replacer = r }) is,
        ),
        (
          hand_out frame,
          ground (arith, lookup-insert k k (hand_out frame) p.page_table),
          refl,
          omega arith,
        ),
        refl,
      )
