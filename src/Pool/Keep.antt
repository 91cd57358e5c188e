-- ===== src/Pool/Keep.antt =====
-- The methods of `BufferPool` (buffer_pool.rs) keep its invariant, however they end.
use smol_db.Common.{
  ℕ, ◌+◌, ◌-◌, ◌≡◌, refl, ap, ◌∙◌, inl, inr, List, [], ◌∷◌, Option, none, some, Bool-cases,
  Option-cases, count,
}
use smol_db.HashMap
use smol_db.HashMap.{HashMap}
use smol_db.Error.Method.{Method, lift, go_on-Always}
use smol_db.Page.{PageId, Page, BTreeNode}
use smol_db.Page as Page
use smol_db.Page.Node.{get_last_lsn, is_dirty, clear_dirty}
use smol_db.Page.Codec.{encode}
use smol_db.Disk.{DiskManager, write_page, save_header}
use smol_db.Pool.{
  BufferPool, Frame, WalFlusher, store_frame, on_disk, release_handle, with_node, flush_log,
  flush_dirty, flush_page, flush_pages, flush_all_pages,
}
use smol_db.Pool.State.{IsPool, Pooled, held}
use smol_db.Pool.Frames.{store_frame-IsPool}

-- what no change of the file and of the log touches
abbrev pub Elsewhere : {W : Type 0} → (BufferPool W → Type 0) → Type 0
Elsewhere {W} P =
    (q : BufferPool W) (d : DiskManager) (w : Option W)
    → P q
    → P (record q { disk_manager = d; wal_flusher = w })

module _ {W : Type 0} (l lost : List PageId) where
  pub IsPool-Elsewhere : Elsewhere {W = W} (λ q. IsPool q l lost)
  IsPool-Elsewhere q d w is = record {
    tracks = is.tracks;
    same = is.same;
    members = is.members;
    keyed = is.keyed;
    sized = is.sized;
    fits = is.fits;
  }

module _ {W : Type 0} (P : BufferPool W → Type 0) (elsewhere : Elsewhere P) where
  pub on_disk-Always :
      {A : Type 0} (m : Method DiskManager A) (p : BufferPool W) → P p → P (on_disk m p).1
  unfolding on_disk
  on_disk-Always m p h = elsewhere p (m p.disk_manager).1 p.wal_flusher h

-- `P` depends neither on the bytes of the file nor on the log; it may depend on the header.
module _ {W : Type 0} ⦃flusher : WalFlusher W⦄ (P : BufferPool W → Type 0)
    (elsewhere : (q : BufferPool W) (d : DiskManager) (w : Option W)
      → d.header ≡ q.disk_manager.header
      → P q
      → P (record q { disk_manager = d; wal_flusher = w })) where
  flush_log-kept :
      (lsn : ℕ) (p : BufferPool W) (log : Option W)
      → P (record p { wal_flusher = log })
      → P (flush_log lsn (record p { wal_flusher = log })).1
  unfolding flush_log
  flush_log-kept lsn p none h = h
  flush_log-kept lsn p (some w) h =
      elsewhere (record p { wal_flusher = some w }) p.disk_manager
        (some (flusher.flush_upto lsn w).1) refl h

  flush_log-Always : (lsn : ℕ) (p : BufferPool W) → P p → P (flush_log lsn p).1
  flush_log-Always lsn p = flush_log-kept lsn p p.wal_flusher

  module _ (page_id : PageId)
      (stored : (frame : Frame) (q : BufferPool W) → P q → P (store_frame page_id frame q).1) where
    flush_dirty-Always :
        (frame : Frame) (p : BufferPool W) → P p → P (flush_dirty page_id frame p).1
    unfolding flush_dirty on_disk write_page
    flush_dirty-Always frame p h =
        go_on-Always P (flush_log (get_last_lsn frame.node) p) _
          (flush_log-Always (get_last_lsn frame.node) p h)
          (λ _ q h. go_on-Always P (lift (encode frame.node Page.new) q) _ h (λ raw q h.
            go_on-Always P (on_disk (write_page page_id raw) q) _
              (elsewhere q (write_page page_id raw q.disk_manager).1 q.wal_flusher refl h)
              (λ _ q h. stored (record frame { node = clear_dirty frame.node }) q h)))

    pub flush_page-Always : (p : BufferPool W) → P p → P (flush_page page_id p).1
    unfolding flush_page
    flush_page-Always p h = elim (Option-cases (HashMap.lookup page_id p.page_table)) [
      | inl absent ↦ rw (flush_page, absent) h
      | inr (frame, there) ↦ elim (Bool-cases (is_dirty frame.node)) [
        | inl dirty ↦ rw (flush_page, there, dirty) (flush_dirty-Always frame p h)
        | inr clean ↦ rw (flush_page, there, clean) h
      ]
    ]

module _ {W : Type 0} ⦃flusher : WalFlusher W⦄ where
  pub release_handle-Pooled :
      (page_id : PageId) (p : BufferPool W) → Pooled p → Pooled (release_handle page_id p).1
  unfolding release_handle
  release_handle-Pooled page_id p (l, lost, is) =
      elim (Option-cases (HashMap.lookup page_id p.page_table)) [
        | inl absent ↦ rw (release_handle, absent) (l, lost, is)
        | inr (frame, there) ↦
            rw (release_handle, there)
              (
                l,
                lost,
                store_frame-IsPool page_id (record frame { handles = frame.handles - 1 }) l lost
                    (is.members page_id ∙ ap held there) p is,
              )
      ]

  pub with_node-Pooled :
      {A : Type 0} (page_id : PageId) (m : Method BTreeNode A) (p : BufferPool W)
      → Pooled p
      → Pooled (with_node page_id m p).1
  unfolding with_node store_frame
  with_node-Pooled page_id m p (l, lost, is) =
      elim (Option-cases (HashMap.lookup page_id p.page_table)) [
        | inl absent ↦ rw (with_node, absent) (l, lost, is)
        | inr (frame, there) ↦
            rw (with_node, there)
              (
                l,
                lost,
                store_frame-IsPool page_id (record frame { node = (m frame.node).1 }) l lost
                    (is.members page_id ∙ ap held there) p is,
              )
      ]

  pub flush_page-IsPool :
      (page_id : PageId) (l lost : List PageId) (p : BufferPool W)
      → count page_id l + count page_id lost ≡ 1
      → IsPool p l lost
      → IsPool (flush_page page_id p).1 l lost
  flush_page-IsPool page_id l lost p known is =
      flush_page-Always (λ q. IsPool q l lost) (λ q d w _. IsPool-Elsewhere l lost q d w) page_id
        (λ frame q. store_frame-IsPool page_id frame l lost known q) p is

  pub flush_page-Pooled :
      (page_id : PageId) (p : BufferPool W) → Pooled p → Pooled (flush_page page_id p).1
  unfolding flush_page
  flush_page-Pooled page_id p (l, lost, is) =
      elim (Option-cases (HashMap.lookup page_id p.page_table)) [
        | inl absent ↦ rw (flush_page, absent) (l, lost, is)
        | inr (frame, there) ↦
            (l, lost, flush_page-IsPool page_id l lost p (is.members page_id ∙ ap held there) is)
      ]

  flush_pages-Pooled :
      (page_ids : List PageId) (p : BufferPool W) → Pooled p → Pooled (flush_pages page_ids p).1
  unfolding flush_pages
  flush_pages-Pooled [] p h = h
  flush_pages-Pooled (page_id ∷ page_ids) p h =
      go_on-Always Pooled (flush_page page_id p) _ (flush_page-Pooled page_id p h)
        (λ _. flush_pages-Pooled page_ids)

  pub flush_all_pages-Pooled :
      (order : List PageId) (p : BufferPool W) → Pooled p → Pooled (flush_all_pages order p).1
  unfolding flush_all_pages
  flush_all_pages-Pooled order p h =
      go_on-Always Pooled (flush_pages order p) _ (flush_pages-Pooled order p h)
        (λ _ q (l, lost, is). (
          l,
          lost,
          on_disk-Always (λ q. IsPool q l lost) (IsPool-Elsewhere l lost) save_header q is,
        ))
