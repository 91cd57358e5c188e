-- ===== src/Pool/Fetch.antt =====
-- `fetch_page` and `new_page` (buffer_pool.rs): the invariant of the pool, and frames that are held.
use smol_db.Common.{suc, ◌≡◌, refl, ap, ◌∙◌, inl, inr, Bool, some, arith, Option-cases}
use smol_db.HashMap
use smol_db.HashMap.{HashMap, lookup-insert, lookup-remove}
use smol_db.Error.Outcome.{ok}
use smol_db.Error.Method.{◌>>◌, return, Ends, go_on-Ends}
use smol_db.Page.{PageId}
use smol_db.Page.Node.{new_empty}
use smol_db.Disk.{allocate_page}
use smol_db.Lru.{LruReplacer}
use smol_db.Pool.{
  BufferPool, Frame, WalFlusher, store_frame, access, on_disk, make_room, fetch_page, next_page_id,
  new_page,
}
use smol_db.Pool.State.{held}
use smol_db.Pool.Frames.{store_frame-IsPool}
use smol_db.Pool.Room.{
  Guard, Kept, Room, Room-Elsewhere, Owned, make_room-Room, access-Kept, enter-Ends, load_page-Ends,
}

-- one more owner of a frame
abbrev pub hand_out : Frame → Frame
hand_out frame = record frame { handles = suc frame.handles }

module _ {W : Type 0} ⦃flusher : WalFlusher W⦄ (K : BufferPool W → Type 0) (Free : PageId → Type 0)
    (guard : Guard K Free) where
  -- A hit returns, and hands the cached frame out.
  pub fetch_hit :
      (k : PageId) (frame : Frame) (p : BufferPool W)
      → HashMap.lookup k p.page_table ≡ some frame
      → Kept K p
      → (r : LruReplacer) × (fetch_page k p ≡ (
        ok tt,
        record p { page_table = HashMap.insert k (hand_out frame) p.page_table; replacer = r },
      ))
        × Kept K (record p { replacer = r })
  unfolding fetch_page store_frame
  fetch_hit k frame p there h =
      let (r, run, kept) = access-Kept K Free guard k p (ap held there) h in
      (r, rw (fetch_page, there, run) refl, kept)

  pub fetch_page-Ends :
      (k : PageId) (p : BufferPool W)
      → ((frame : Frame) (q : BufferPool W)
          → HashMap.lookup k q.page_table ≡ some frame
          → K q
          → K (store_frame k (hand_out frame) q).1)
      → Kept K p
      → Ends (Kept K) (λ _ q. Kept K q × Owned k q) (fetch_page k p)
  unfolding fetch_page store_frame
  fetch_page-Ends k p again h = elim (Option-cases (HashMap.lookup k p.page_table)) [
    | inl absent ↦
        rw (fetch_page, absent) (load_page-Ends K Free guard k p (guard.absent k p h.1 absent) h)
    | inr (frame, there) ↦
        let (r, run, ((l, lost, is), kept)) = fetch_hit k frame p there h in
        rw run (
          (
            (
              l,
              lost,
              store_frame-IsPool k (hand_out frame) l lost (is.members k ∙ ap held there)
                  (record p { replacer = r }) is,
            ),
            again frame (record p { replacer = r }) there kept,
          ),
          (
            hand_out frame,
            ground (arith, lookup-insert k k (hand_out frame) p.page_table),
            omega arith,
          ),
        )
  ]

  pub new_page-Ends :
      (is_leaf : Bool) (p : BufferPool W)
      → ((q : BufferPool W) → Free (allocate_page q.disk_manager).0)
      → Kept K p
      → Ends (Kept K) (λ k q. Kept K q × Owned k q) (new_page is_leaf p)
  unfolding new_page next_page_id on_disk store_frame access
  new_page-Ends is_leaf p fresh h =
      go_on-Ends (Kept K) (λ _. Room K) (λ k q. Kept K q × Owned k q) (make_room p) _
        (make_room-Room K Free guard p h)
        (λ _ q room.
          let k = (allocate_page q.disk_manager).0 in
          let s = record q { disk_manager = (allocate_page q.disk_manager).1 } in
          go_on-Ends (Kept K) (λ _ q. Kept K q × Owned k q) (λ k q. Kept K q × Owned k q)
            ((store_frame k (record { node = new_empty k is_leaf; handles = 1 }) >> access k) s)
            (λ _. return k)
            (enter-Ends K Free guard k 0 (new_empty k is_leaf) s (fresh q)
              (Room-Elsewhere K Free guard q (allocate_page q.disk_manager).1 q.wal_flusher room))
            (λ _ q h. h))
