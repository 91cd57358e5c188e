-- ===== src/Pool/Pinned.antt =====
-- The invariant of a pool that calls have made (buffer_pool.rs), and what a held frame is safe from.
use smol_db.Common.{
  ℕ, ◌≤◌, ◌<◌, ◌≡◌, ◌≢◌, refl, sym, ap, ◌∙◌, inl, inr, Bool, List, Option, none, some, arith,
  Bool-cases, ◌==◌,
}
use smol_db.HashMap
use smol_db.HashMap.{HashMap, lookup-insert, lookup-remove}
use smol_db.Error.Method.{Method, Ends, Ends-Always, weaken-Ends}
use smol_db.Page.{PageId, BTreeNode}
use smol_db.Disk.{DiskManager}
use smol_db.Pool.{
  BufferPool, Frame, WalFlusher, store_frame, drop_frame, release_handle, with_node, flush_page,
  flush_all_pages, fetch_page, evict_page, new_page, new_pool,
}
use smol_db.Pool.State.{Pooled, new_pool-Pooled}
use smol_db.Pool.Keep.{
  release_handle-Pooled, with_node-Pooled, flush_page-Pooled, flush_all_pages-Pooled,
}
use smol_db.Pool.Room.{Guard, Kept, Owned, Room, evict_page-Room}
use smol_db.Pool.Fetch.{hand_out, fetch_page-Ends, new_page-Ends}

abbrev owners : Option Frame → ℕ
owners none = 0
owners (some frame) = frame.handles

abbrev node_or : BTreeNode → Option Frame → BTreeNode
node_or node none = node
node_or node (some frame) = frame.node

module _ {W : Type 0} where
  pub any_pool : Guard {W = W} (λ _. Unit {0}) (λ _. Unit {0})
  any_pool = record {
    elsewhere = λ q d w h. tt;
    replaced = λ q r h. tt;
    stored = λ k frame q f h. tt;
    dropped = λ k q f h. tt;
    idle = λ k frame q h e i. tt;
    absent = λ k q h e. tt;
  }

  -- the table holds this frame, with its node as it was and no fewer owners
  abbrev pub Pinned : PageId → Frame → BufferPool W → Type 0
  Pinned j frame q =
      (now : Frame) × (HashMap.lookup j q.page_table ≡ some now)
      × (now.node ≡ frame.node)
      × (frame.handles ≤ now.handles)

  pub held_page :
      (j : PageId) (frame : Frame) → 0 < frame.handles → Guard {W = W} (Pinned j frame) (λ k. k ≢ j)
  unfolding store_frame drop_frame
  held_page j frame pinned = record {
    elsewhere = λ q d w h. h;
    replaced = λ q r h. h;
    stored = λ k other q k≠j (now, there, same, more).
        (now, ground (arith, lookup-insert k j other q.page_table, there, k≠j), same, more);
    dropped = λ k q k≠j (now, there, same, more).
        (now, ground (arith, lookup-remove k j q.page_table, there, k≠j), same, more);
    idle = λ k other q (now, there, same, more) e free k=j. omega (
      arith,
      ap owners (sym there ∙ (ap (λ i. HashMap.lookup i q.page_table) (sym k=j) ∙ e)),
      more,
      free,
      pinned,
    );
    absent = λ k q (now, there, same, more) e k=j. omega (
      arith,
      ap owners (sym there ∙ (ap (λ i. HashMap.lookup i q.page_table) (sym k=j) ∙ e)),
      more,
      pinned,
    );
  }

  pub again :
      (j k : PageId) (frame now : Frame) (q : BufferPool W)
      → HashMap.lookup k q.page_table ≡ some now
      → Pinned j frame q
      → Pinned j frame (store_frame k (hand_out now) q).1
  unfolding store_frame
  again j k frame now q e (old, there, same, more) = elim (Bool-cases (k == j)) [
    | inl here ↦
        let old≡now : some old ≡ some now =
          sym there
          ∙ (ap (λ i. HashMap.lookup i q.page_table)
                (sym (let k≡j : k ≡ j = ground (arith, here) in k≡j))
              ∙ e) in
        (
          hand_out now,
          ground (arith, lookup-insert k j (hand_out now) q.page_table, here),
          sym (ap (node_or frame.node) old≡now) ∙ same,
          omega (arith, ap owners old≡now, more),
        )
    | inr other ↦ (
      old,
      ground (arith, lookup-insert k j (hand_out now) q.page_table, other, there),
      same,
      more,
    )
  ]

module _ {W : Type 0} ⦃flusher : WalFlusher W⦄ where
  -- one call, however it ends; a caller also drops a handle or uses a node that it holds
  pub data Called : BufferPool W → BufferPool W → Type 0 where
    fetched : (k : PageId) (p : BufferPool W) → Called p (fetch_page k p).1
    allocated : (is_leaf : Bool) (p : BufferPool W) → Called p (new_page is_leaf p).1
    released : (k : PageId) (p : BufferPool W) → Called p (release_handle k p).1
    written :
        (k : PageId) (m : Method BTreeNode Unit) (p : BufferPool W) → Called p (with_node k m p).1
    flushed : (k : PageId) (p : BufferPool W) → Called p (flush_page k p).1
    flushed_all : (order : List PageId) (p : BufferPool W) → Called p (flush_all_pages order p).1

  -- the pools that calls lead to, from an empty one
  pub data Reached : BufferPool W → Type 0 where
    opened : (d : DiskManager) (capacity : ℕ) (w : Option W) → Reached (new_pool d capacity w)
    called_on : {p q : BufferPool W} → Reached p → Called p q → Reached q

  pub fetch_page-Owned :
      (k : PageId) (p : BufferPool W)
      → Pooled p
      → Ends Pooled (λ _ q. Pooled q × Owned k q) (fetch_page k p)
  fetch_page-Owned k p h =
      weaken-Ends (Kept (λ _. Unit {0})) Pooled (λ _ q. Kept (λ _. Unit {0}) q × Owned k q)
        (λ _ q. Pooled q × Owned k q) (fetch_page k p)
        (fetch_page-Ends (λ _. Unit {0}) (λ _. Unit {0}) any_pool k p (λ frame q e h. tt) (h, tt))
        (λ q h. h.0) (λ _ q h. (h.0.0, h.1))

  pub new_page-Owned :
      (is_leaf : Bool) (p : BufferPool W)
      → Pooled p
      → Ends Pooled (λ k q. Pooled q × Owned k q) (new_page is_leaf p)
  new_page-Owned is_leaf p h =
      weaken-Ends (Kept (λ _. Unit {0})) Pooled (λ k q. Kept (λ _. Unit {0}) q × Owned k q)
        (λ k q. Pooled q × Owned k q) (new_page is_leaf p)
        (new_page-Ends (λ _. Unit {0}) (λ _. Unit {0}) any_pool is_leaf p (λ q. tt) (h, tt))
        (λ q h. h.0) (λ _ q h. (h.0.0, h.1))

  -- A frame that a caller holds outlives every `fetch_page` and every eviction, however these end, with
  -- its node as it was and no owner lost.
  pub fetch_page-Pinned :
      (j k : PageId) (frame : Frame) (p : BufferPool W)
      → Pooled p
      → HashMap.lookup j p.page_table ≡ some frame
      → 0 < frame.handles
      → Pinned j frame (fetch_page k p).1 × Pinned j frame (evict_page p).1
  fetch_page-Pinned j k frame p h there pinned =
      let guard = held_page j frame pinned in
      let held_now : Kept (Pinned j frame) p = (h, (frame, there, refl, omega arith)) in
      (
        (Ends-Always (Kept (Pinned j frame)) (λ _ q. Kept (Pinned j frame) q × Owned k q)
            (fetch_page k p)
            (fetch_page-Ends (Pinned j frame) (λ k. k ≢ j) guard k p (again j k frame) held_now)
            (λ _ q h. h.0)).1,
        (Ends-Always (Kept (Pinned j frame)) (λ _. Room (Pinned j frame)) (evict_page p)
            (evict_page-Room (Pinned j frame) (λ k. k ≢ j) guard p held_now)
            (λ _ q h. (h.0, h.1))).1,
      )

  -- a call keeps the invariant, however it ends
  pub Called-Pooled : {p q : BufferPool W} → Called p q → Pooled p → Pooled q
  Called-Pooled (fetched k p) h =
      Ends-Always Pooled (λ _ q. Pooled q × Owned k q) (fetch_page k p) (fetch_page-Owned k p h)
        (λ _ q h. h.0)
  Called-Pooled (allocated is_leaf p) h =
      Ends-Always Pooled (λ k q. Pooled q × Owned k q) (new_page is_leaf p)
        (new_page-Owned is_leaf p h) (λ _ q h. h.0)
  Called-Pooled (released k p) h = release_handle-Pooled k p h
  Called-Pooled (written k m p) h = with_node-Pooled k m p h
  Called-Pooled (flushed k p) h = flush_page-Pooled k p h
  Called-Pooled (flushed_all order p) h = flush_all_pages-Pooled order p h

  -- However calls are ordered and end, errors included, the pool keeps its invariant: the replacer
  -- knows only pages of the table, no page is known twice, and the table keeps to the capacity.
  pub Reached-Pooled : (p : BufferPool W) → Reached p → Pooled p
  Reached-Pooled _ (opened d capacity w) = new_pool-Pooled d capacity w
  Reached-Pooled _ (called_on run call) = Called-Pooled call (Reached-Pooled _ run)
