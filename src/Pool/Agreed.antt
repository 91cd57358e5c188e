-- ===== src/Pool/Agreed.antt =====
-- Where calls return, the table and the replacer of a pool (buffer_pool.rs) know the same pages.
use smol_db.Common.{
  ◌+◌, ◌<◌, ◌≡◌, ap, subst, ◌∙◌, inl, inr, Bool, List, [], ◌∷◌, arith, Bool-cases, Option-cases,
  leb, length, count,
}
use smol_db.HashMap
use smol_db.HashMap.{lookup-insert}
use smol_db.Error.Method.{◌>>◌, return, lift, Method, Ends, go_on-Ends, Always-Ends}
use smol_db.Page.{PageId}
use smol_db.Page.Codec.{decode}
use smol_db.Page.Node.{new_empty}
use smol_db.Disk.{DiskManager, allocate_page}
use smol_db.Lru.State.{erase}
use smol_db.Pool.{
  BufferPool, Frame, WalFlusher, store_frame, access, on_disk, read_disk, drop_frame, flush_page,
  evict_page, make_room, load_page, fetch_page, next_page_id, new_page,
}
use smol_db.Pool.State.{IsPool, held, length-remove}
use smol_db.Pool.Frames.{
  store_frame-IsPool, store_frame-IsPool_new, access-IsPool, drop_frame-IsPool,
}
use smol_db.Pool.Evict.{take_victim_lem}
use smol_db.Pool.Keep.{IsPool-Elsewhere, on_disk-Always, flush_page-IsPool}
use smol_db.Pool.Fetch.{hand_out}

erase_self : (k : PageId) → erase k (k ∷ []) ≡ []
erase_self k = ground arith

module _ {W : Type 0} where
  -- The replacer tracks the pages of the table, each once, and no others, and the table keeps to the
  -- capacity.
  abbrev pub Agreed : BufferPool W → Type 0
  Agreed p = (l : List PageId) × IsPool p l []

  abbrev Roomy : BufferPool W → Type 0
  Roomy p = Agreed p × (length p.page_table < p.capacity)

  abbrev pub Nothing : BufferPool W → Type 0
  Nothing p = Unit

module _ {W : Type 0} ⦃flusher : WalFlusher W⦄ where
  dropped-Roomy :
      (k : PageId) (l : List PageId) (q : BufferPool W)
      → count k l ≡ 0
      → count k l + count k (k ∷ []) ≡ 1
      → IsPool q l (k ∷ [])
      → Roomy (drop_frame k q).1
  unfolding drop_frame
  dropped-Roomy k l q gone known is = (
    (
      l,
      subst (IsPool (drop_frame k q).1 l) (erase_self k) (drop_frame-IsPool k q l (k ∷ []) is gone),
    ),
    omega (arith, is.fits, length-remove k q.page_table is.keyed, is.members k, known),
  )

  evict_page-Roomy : (p : BufferPool W) → Agreed p → Ends Nothing (λ _. Roomy) (evict_page p)
  unfolding evict_page drop_frame
  evict_page-Roomy p (l, is) =
      let (r, cases) = take_victim_lem p l [] is in
      elim cases [
        | inl (run, pinned, is') ↦ rw run tt
        | inr (k, frame, run, there, free, is', gone) ↦
            let q = record p { replacer = r } in
            let known : count k (erase k l) + count k (k ∷ []) ≡ 1 =
              is'.members k ∙ ap held there in
            rw run (
              go_on-Ends Nothing (λ _ s. IsPool s (erase k l) (k ∷ [])) (λ _. Roomy)
                (flush_page k q) (λ _. drop_frame k)
                (Always-Ends Nothing (λ s. IsPool s (erase k l) (k ∷ []))
                  (λ _ s. IsPool s (erase k l) (k ∷ [])) (flush_page k q)
                  (flush_page-IsPool k (erase k l) (k ∷ []) q known is') (λ s h. tt) (λ _ s h. h))
                (λ _ s h. dropped-Roomy k (erase k l) s gone known h))
      ]

  make_room-Roomy : (p : BufferPool W) → Agreed p → Ends Nothing (λ _. Roomy) (make_room p)
  unfolding make_room
  make_room-Roomy p h = elim (Bool-cases (leb p.capacity (length p.page_table))) [
    | inl crowded ↦ rw (make_room, crowded) (evict_page-Roomy p h)
    | inr room ↦ rw (make_room, room) (h, ground (arith, room))
  ]

  -- a page is stored and accessed
  enter-Agreed :
      (k : PageId) (frame : Frame) (p : BufferPool W)
      → Roomy p
      → Ends Nothing (λ _. Agreed) ((store_frame k frame >> access k) p)
  unfolding store_frame
  enter-Agreed k frame p ((l, is), room) =
      let s = record p { page_table = HashMap.insert k frame p.page_table } in
      let there : held (HashMap.lookup k s.page_table) ≡ 1 =
        ground (arith, lookup-insert k k frame p.page_table) in
      elim (Option-cases (HashMap.lookup k p.page_table)) [
        | inl absent ↦
            let (r, run, is') =
              access-IsPool k s l (k ∷ []) (store_frame-IsPool_new k frame l [] p is absent room)
                there in
            rw run (
              k ∷ erase k l,
              subst (IsPool (record s { replacer = r }) (k ∷ erase k l)) (erase_self k) is',
            )
        | inr (old, at) ↦
            let (r, run, is') =
              access-IsPool k s l []
                (store_frame-IsPool k frame l [] (is.members k ∙ ap held at) p is) there in
            rw run (k ∷ erase k l, is')
      ]

  -- the file is used on the way
  on_disk-Roomy :
      {A : Type 0} (m : Method DiskManager A) (p : BufferPool W) → Roomy p → Roomy (on_disk m p).1
  on_disk-Roomy m p ((l, is), room) =
      on_disk-Always Roomy (λ q d w ((l, is), room). ((l, IsPool-Elsewhere l [] q d w is), room)) m
        p ((l, is), room)

  load_page-Agreed :
      (k : PageId) (p : BufferPool W) → Agreed p → Ends Nothing (λ _. Agreed) (load_page k p)
  unfolding load_page
  load_page-Agreed k p h =
      go_on-Ends Nothing (λ _. Roomy) (λ _. Agreed) (make_room p) _ (make_room-Roomy p h)
        (λ _ q room.
          go_on-Ends Nothing (λ _. Roomy) (λ _. Agreed) (on_disk (read_disk k) q) _
            (Always-Ends Nothing Roomy (λ _. Roomy) (on_disk (read_disk k) q)
              (on_disk-Roomy (read_disk k) q room) (λ s h. tt) (λ _ s h. h))
            (λ raw q room.
              go_on-Ends Nothing (λ _. Roomy) (λ _. Agreed) (lift (decode raw) q) _
                (Always-Ends Nothing Roomy (λ _. Roomy) (lift (decode raw) q) room (λ s h. tt)
                  (λ _ s h. h))
                (λ node q room. enter-Agreed k (record { node = node; handles = 1 }) q room)))

  pub fetch_page-Agreed :
      (k : PageId) (p : BufferPool W) → Agreed p → Ends Nothing (λ _. Agreed) (fetch_page k p)
  unfolding fetch_page store_frame
  fetch_page-Agreed k p (l, is) = elim (Option-cases (HashMap.lookup k p.page_table)) [
    | inl absent ↦ rw (fetch_page, absent) (load_page-Agreed k p (l, is))
    | inr (frame, there) ↦
        let (r, run, is') = access-IsPool k p l [] is (ap held there) in
        rw (fetch_page, there, run)
          (
            k ∷ erase k l,
            store_frame-IsPool k (hand_out frame) (k ∷ erase k l) [] (is'.members k ∙ ap held there)
                (record p { replacer = r }) is',
          )
  ]

  pub new_page-Agreed :
      (is_leaf : Bool) (p : BufferPool W)
      → Agreed p
      → Ends Nothing (λ _. Agreed) (new_page is_leaf p)
  unfolding new_page next_page_id on_disk store_frame access
  new_page-Agreed is_leaf p h =
      go_on-Ends Nothing (λ _. Roomy) (λ _. Agreed) (make_room p) _ (make_room-Roomy p h)
        (λ _ q ((l, is), room).
          let k = (allocate_page q.disk_manager).0 in
          let s = record q { disk_manager = (allocate_page q.disk_manager).1 } in
          go_on-Ends Nothing (λ _. Agreed) (λ _. Agreed)
            ((store_frame k (record { node = new_empty k is_leaf; handles = 1 }) >> access k) s)
            (λ _. return k)
            (enter-Agreed k (record { node = new_empty k is_leaf; handles = 1 }) s
              (
                (l, IsPool-Elsewhere l [] q (allocate_page q.disk_manager).1 q.wal_flusher is),
                room,
              ))
            (λ _ q h. h))
