-- ===== src/Pool/Answered.antt =====
-- The pools that calls have made of which each `fetch_page` and `new_page` returned (buffer_pool.rs).
use smol_db.Common.{
  ℕ, ◌-◌, ◌≡◌, ap, subst, ◌∙◌, inl, inr, Bool, List, [], ◌∷◌, Option, Option-cases,
}
use smol_db.HashMap
use smol_db.Error.Outcome.{ok}
use smol_db.Error.Method.{Method, Ends, go_on-Always}
use smol_db.Page.{PageId, BTreeNode}
use smol_db.Disk.{DiskManager, save_header}
use smol_db.Pool.{
  BufferPool, WalFlusher, release_handle, with_node, flush_page, flush_pages, flush_all_pages,
  fetch_page, new_page, new_pool, store_frame,
}
use smol_db.Pool.State.{IsPool, held, new_pool-IsPool}
use smol_db.Pool.Frames.{store_frame-IsPool}
use smol_db.Pool.Keep.{IsPool-Elsewhere, on_disk-Always, flush_page-IsPool}
use smol_db.Pool.Agreed.{Agreed, Nothing, fetch_page-Agreed, new_page-Agreed}

module _ {W : Type 0} ⦃flusher : WalFlusher W⦄ where
  -- a call of `fetch_page` or `new_page` that returns, or another call, however it ends
  pub data Answered : BufferPool W → BufferPool W → Type 0 where
    fetched : (k : PageId) (p q : BufferPool W) → fetch_page k p ≡ (ok tt, q) → Answered p q
    allocated :
        (is_leaf : Bool) (k : PageId) (p q : BufferPool W)
        → new_page is_leaf p ≡ (ok k, q)
        → Answered p q
    released : (k : PageId) (p : BufferPool W) → Answered p (release_handle k p).1
    written :
        (k : PageId) (m : Method BTreeNode Unit) (p : BufferPool W) → Answered p (with_node k m p).1
    flushed : (k : PageId) (p : BufferPool W) → Answered p (flush_page k p).1
    flushed_all : (order : List PageId) (p : BufferPool W) → Answered p (flush_all_pages order p).1

  -- the pools that such calls lead to, from an empty one
  pub data Served : BufferPool W → Type 0 where
    opened : (d : DiskManager) (capacity : ℕ) (w : Option W) → Served (new_pool d capacity w)
    answered : {p q : BufferPool W} → Served p → Answered p q → Served q

  release_handle-Agreed : (k : PageId) (p : BufferPool W) → Agreed p → Agreed (release_handle k p).1
  unfolding release_handle
  release_handle-Agreed k p (l, is) = elim (Option-cases (HashMap.lookup k p.page_table)) [
    | inl absent ↦ rw (release_handle, absent) (l, is)
    | inr (frame, there) ↦
        rw (release_handle, there)
          (
            l,
            store_frame-IsPool k (record frame { handles = frame.handles - 1 }) l []
                (is.members k ∙ ap held there) p is,
          )
  ]

  with_node-Agreed :
      (k : PageId) (m : Method BTreeNode Unit) (p : BufferPool W)
      → Agreed p
      → Agreed (with_node k m p).1
  unfolding with_node store_frame
  with_node-Agreed k m p (l, is) = elim (Option-cases (HashMap.lookup k p.page_table)) [
    | inl absent ↦ rw (with_node, absent) (l, is)
    | inr (frame, there) ↦
        rw (with_node, there)
          (
            l,
            store_frame-IsPool k (record frame { node = (m frame.node).1 }) l []
                (is.members k ∙ ap held there) p is,
          )
  ]

  flush_page-Agreed : (k : PageId) (p : BufferPool W) → Agreed p → Agreed (flush_page k p).1
  unfolding flush_page
  flush_page-Agreed k p (l, is) = elim (Option-cases (HashMap.lookup k p.page_table)) [
    | inl absent ↦ rw (flush_page, absent) (l, is)
    | inr (frame, there) ↦ (l, flush_page-IsPool k l [] p (is.members k ∙ ap held there) is)
  ]

  flush_pages-Agreed :
      (page_ids : List PageId) (p : BufferPool W) → Agreed p → Agreed (flush_pages page_ids p).1
  unfolding flush_pages
  flush_pages-Agreed [] p h = h
  flush_pages-Agreed (k ∷ page_ids) p h =
      go_on-Always Agreed (flush_page k p) _ (flush_page-Agreed k p h)
        (λ _. flush_pages-Agreed page_ids)

  flush_all_pages-Agreed :
      (order : List PageId) (p : BufferPool W) → Agreed p → Agreed (flush_all_pages order p).1
  unfolding flush_all_pages
  flush_all_pages-Agreed order p h =
      go_on-Always Agreed (flush_pages order p) _ (flush_pages-Agreed order p h) (λ _ q (l, is).
        (l, on_disk-Always (λ q. IsPool q l []) (IsPool-Elsewhere l []) save_header q is))

  Answered-Agreed : {p q : BufferPool W} → Answered p q → Agreed p → Agreed q
  Answered-Agreed (fetched k p q run) h =
      subst (Ends Nothing (λ _. Agreed)) run (fetch_page-Agreed k p h)
  Answered-Agreed (allocated is_leaf k p q run) h =
      subst (Ends Nothing (λ _. Agreed)) run (new_page-Agreed is_leaf p h)
  Answered-Agreed (released k p) h = release_handle-Agreed k p h
  Answered-Agreed (written k m p) h = with_node-Agreed k m p h
  Answered-Agreed (flushed k p) h = flush_page-Agreed k p h
  Answered-Agreed (flushed_all order p) h = flush_all_pages-Agreed order p h

  -- However calls are ordered, where each `fetch_page` and `new_page` among them returns, the table and
  -- the replacer of the pool agree: the replacer's list of recency is well formed and has each page of
  -- the table once and no other, and the table keeps to the capacity.
  pub Served-Agreed : (p : BufferPool W) → Served p → Agreed p
  Served-Agreed _ (opened d capacity w) = ([], new_pool-IsPool d capacity w)
  Served-Agreed _ (answered run call) = Answered-Agreed call (Served-Agreed _ run)
