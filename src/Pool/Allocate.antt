-- ===== src/Pool/Allocate.antt =====
-- The page that `new_page` returns (buffer_pool.rs), and the header of the file until then.
use smol_db.Common.{
  ◌≡◌, refl, sym, ap, subst, ◌∙◌, inl, inr, Bool, some, arith, Bool-cases, leb, length,
}
use smol_db.HashMap
use smol_db.HashMap.{HashMap, lookup-insert}
use smol_db.Error.Outcome.{ok, Run}
use smol_db.Error.Method.{◌>>◌, return, go_on, go_on-Always, go_on-ok, Ends}
use smol_db.Page.{PageId}
use smol_db.Page.Node.{new_empty}
use smol_db.Disk.{FileHeader, allocate_page}
use smol_db.Pool.{
  BufferPool, Frame, WalFlusher, store_frame, access, on_disk, drop_frame, flush_page, evict_page,
  make_room, next_page_id, new_page,
}
use smol_db.Pool.State.{Pooled}
use smol_db.Pool.Evict.{take_victim_lem}
use smol_db.Pool.Keep.{flush_page-Always}
use smol_db.Pool.Room.{Guard, Kept, Room, Room-Elsewhere, make_room-Room, enter-Kept}

module _ {W : Type 0} ⦃flusher : WalFlusher W⦄ where
  abbrev Headed : FileHeader → BufferPool W → Type 0
  Headed header q = q.disk_manager.header ≡ header

  evict_page-header : (p : BufferPool W) → Pooled p → Headed p.disk_manager.header (evict_page p).1
  unfolding evict_page drop_frame store_frame
  evict_page-header p (l, lost, is) =
      let (r, cases) = take_victim_lem p l lost is in
      elim cases [
        | inl (run, _, _) ↦ rw run refl
        | inr (k, frame, run, _, _, _, _) ↦
            let header = p.disk_manager.header in
            let q : BufferPool W = record p { replacer = r } in
            rw run (
              go_on-Always (Headed header) (flush_page k q) (λ _. drop_frame k)
                (flush_page-Always (Headed header) (λ q d w same h. same ∙ h) k (λ frame q h. h) q
                  refl)
                (λ _ s h. h))
      ]

  make_room-header : (p : BufferPool W) → Pooled p → Headed p.disk_manager.header (make_room p).1
  unfolding make_room
  make_room-header p h = elim (Bool-cases (leb p.capacity (length p.page_table))) [
    | inl crowded ↦ rw (make_room, crowded) (evict_page-header p h)
    | inr room ↦ rw (make_room, room) refl
  ]

module _ {W : Type 0} ⦃flusher : WalFlusher W⦄ (K : BufferPool W → Type 0) (Free : PageId → Type 0)
    (guard : Guard K Free) where
  -- what a page that `new_page` has returned is
  abbrev pub Allocated : Bool → BufferPool W → PageId → BufferPool W → Type 0
  Allocated is_leaf p j q =
      (j ≡ p.disk_manager.header.next_free_offset)
      × Kept K q
      × (HashMap.lookup j q.page_table ≡ some (record { node = new_empty j is_leaf; handles = 1 }))

  -- the part of `new_page` behind `make_room`
  enter_new :
      (is_leaf : Bool) (p s q : BufferPool W) (j : PageId)
      → s.disk_manager.header ≡ p.disk_manager.header
      → Free p.disk_manager.header.next_free_offset
      → Room K s
      → go_on
          ((store_frame s.disk_manager.header.next_free_offset (record {
            node = new_empty s.disk_manager.header.next_free_offset is_leaf;
            handles = 1;
          })
              >> access s.disk_manager.header.next_free_offset)
            (record s { disk_manager = (allocate_page s.disk_manager).1 }))
          (λ _. return s.disk_manager.header.next_free_offset)
        ≡ (ok j, q)
      → Allocated is_leaf p j q
  enter_new is_leaf p s q j header free room e =
      let k = s.disk_manager.header.next_free_offset in
      let first : k ≡ p.disk_manager.header.next_free_offset =
        ap (λ (h : FileHeader). h.next_free_offset) header in
      let frame : Frame = record { node = new_empty k is_leaf; handles = 1 } in
      let s' : BufferPool W = record s { disk_manager = (allocate_page s.disk_manager).1 } in
      let (r, run, kept) =
        enter-Kept K Free guard k frame s' (subst Free (sym first) free)
          (Room-Elsewhere K Free guard s (allocate_page s.disk_manager).1 s.wal_flusher room) in
      let q' : BufferPool W = record s' {
        page_table = HashMap.insert k frame s.page_table;
        replacer = r;
      } in
      let ends : (ok k, q') ≡ (ok j, q) =
        subst (λ (x : Run (BufferPool W) Unit). go_on x (λ _. return k) ≡ (ok j, q)) run e in
      let same : k ≡ j = cc (ap (λ (x : Run (BufferPool W) PageId). x.0) ends) in
      let there : HashMap.lookup k q'.page_table ≡ some frame =
        ground (arith, lookup-insert k k frame s.page_table) in
      subst (λ i. Allocated is_leaf p i q) same
        (subst (Allocated is_leaf p k) (ap (λ (x : Run (BufferPool W) PageId). x.1) ends)
          (first, kept, there))

  -- Where `new_page` returns, the page is at the free offset that the header had, and its frame holds
  -- an empty node.
  pub new_page-Allocated :
      (is_leaf : Bool) (p q : BufferPool W) (j : PageId)
      → Kept K p
      → Free p.disk_manager.header.next_free_offset
      → new_page is_leaf p ≡ (ok j, q)
      → Allocated is_leaf p j q
  unfolding new_page next_page_id on_disk store_frame allocate_page
  new_page-Allocated is_leaf p q j h free e =
      let (_, s, ran, rest) = go_on-ok (make_room p) _ j q e in
      enter_new is_leaf p s q j
        (ap (λ (x : Run (BufferPool W) Unit). x.1.disk_manager.header) (sym ran)
          ∙ make_room-header p h.0)
        free (subst (Ends (Kept K) (λ _. Room K)) ran (make_room-Room K Free guard p h)) rest
