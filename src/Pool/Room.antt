-- ===== src/Pool/Room.antt =====
-- Eviction and cache misses (buffer_pool.rs): what `evict_page` and `fetch_page` do to the table,
-- for a property `K` of the pool that only some pages matter to.
use smol_db.Common.{
  ℕ, suc, ◌+◌, ◌<◌, ◌≡◌, ap, ◌∙◌, inl, inr, List, ◌∷◌, none, some, arith, Bool-cases, leb, length,
  count,
}
use smol_db.HashMap
use smol_db.HashMap.{HashMap, lookup-insert}
use smol_db.Error.Outcome.{ok}
use smol_db.Error.Method.{◌>>◌, lift, Ends, go_on-Ends, Always-Ends}
use smol_db.Page.{PageId, BTreeNode}
use smol_db.Page.Codec.{decode}
use smol_db.Lru.{LruReplacer}
use smol_db.Lru.State.{erase}
use smol_db.Pool.{
  BufferPool, Frame, WalFlusher, store_frame, access, on_disk, read_disk, drop_frame, flush_page,
  evict_page, make_room, load_page,
}
use smol_db.Pool.State.{IsPool, Pooled, held, length-remove}
use smol_db.Pool.Frames.{store_frame-Pooled, access-Pooled, drop_frame-Pooled}
use smol_db.Pool.Evict.{take_victim_lem}
use smol_db.Pool.Keep.{
  Elsewhere, IsPool-Elsewhere, on_disk-Always, flush_page-Always, flush_page-IsPool,
}

-- `K` does not depend on the replacer, the file and the log, nor on the frames of the free pages;
-- a page is free where it is not in the table or nobody holds it.
pub record Guard {W : Type 0} (K : BufferPool W → Type 0) (Free : PageId → Type 0) : Type 0 where
  pub elsewhere : Elsewhere K
  pub replaced : (q : BufferPool W) (r : LruReplacer) → K q → K (record q { replacer = r })
  pub stored :
      (k : PageId) (frame : Frame) (q : BufferPool W) → Free k → K q → K (store_frame k frame q).1
  pub dropped : (k : PageId) (q : BufferPool W) → Free k → K q → K (drop_frame k q).1
  pub idle :
      (k : PageId) (frame : Frame) (q : BufferPool W)
      → K q
      → HashMap.lookup k q.page_table ≡ some frame
      → frame.handles ≡ 0
      → Free k
  pub absent : (k : PageId) (q : BufferPool W) → K q → HashMap.lookup k q.page_table ≡ none → Free k

module _ {W : Type 0} where
  -- a caller holds the frame of the page
  abbrev pub Owned : PageId → BufferPool W → Type 0
  Owned k q = (frame : Frame) × (HashMap.lookup k q.page_table ≡ some frame) × (0 < frame.handles)

  module _ (K : BufferPool W → Type 0) where
    abbrev pub Kept : BufferPool W → Type 0
    Kept q = Pooled q × K q

    abbrev pub Room : BufferPool W → Type 0
    Room q = Pooled q × K q × (length q.page_table < q.capacity)

module _ {W : Type 0} ⦃flusher : WalFlusher W⦄ (K : BufferPool W → Type 0) (Free : PageId → Type 0)
    (guard : Guard K Free) where
  pub Room-Elsewhere : Elsewhere (Room K)
  Room-Elsewhere q d w ((l, lost, is), k, room) =
      ((l, lost, IsPool-Elsewhere l lost q d w is), guard.elsewhere q d w k, room)

  drop_frame-Room :
      (k : PageId) (l lost : List PageId) (q : BufferPool W)
      → count k l ≡ 0
      → count k l + count k lost ≡ 1
      → IsPool q l lost
      → K (drop_frame k q).1
      → (Room K) (drop_frame k q).1
  unfolding drop_frame
  drop_frame-Room k l lost q gone known is kept = (
    drop_frame-Pooled k q l lost is gone,
    kept,
    omega (arith, is.fits, length-remove k q.page_table is.keyed, is.members k, known),
  )

  -- `evict_page` gives room for a frame where it returns.
  pub evict_page-Room :
      (p : BufferPool W) → (Kept K) p → Ends (Kept K) (λ _. (Room K)) (evict_page p)
  unfolding evict_page drop_frame
  evict_page-Room p ((l, lost, is), kept) =
      let (r, cases) = take_victim_lem p l lost is in
      elim cases [
        | inl (run, pinned, is') ↦ rw run ((l, lost, is'), guard.replaced p r kept)
        | inr (k, frame, run, there, free, is', gone) ↦
            let q = record p { replacer = r } in
            let ours : Free k = guard.idle k frame p kept there free in
            let known : count k (erase k l) + count k (k ∷ lost) ≡ 1 =
              is'.members k ∙ ap held there in
            rw run (
              go_on-Ends (Kept K) (λ _ s. IsPool s (erase k l) (k ∷ lost) × K s) (λ _. (Room K))
                (flush_page k q) (λ _. drop_frame k)
                (Always-Ends (Kept K) (λ s. IsPool s (erase k l) (k ∷ lost) × K s)
                  (λ _ s. IsPool s (erase k l) (k ∷ lost) × K s) (flush_page k q)
                  (
                    flush_page-IsPool k (erase k l) (k ∷ lost) q known is',
                    flush_page-Always K (λ q d w _. guard.elsewhere q d w) k
                        (λ frame s. guard.stored k frame s ours) q (guard.replaced p r kept),
                  )
                  (λ s h. ((erase k l, k ∷ lost, h.0), h.1)) (λ _ s h. h))
                (λ _ s h.
                  drop_frame-Room k (erase k l) (k ∷ lost) s gone known h.0
                    (guard.dropped k s ours h.1)))
      ]

  pub make_room-Room : (p : BufferPool W) → (Kept K) p → Ends (Kept K) (λ _. (Room K)) (make_room p)
  unfolding make_room
  make_room-Room p h = elim (Bool-cases (leb p.capacity (length p.page_table))) [
    | inl crowded ↦ rw (make_room, crowded) (evict_page-Room p h)
    | inr room ↦ rw (make_room, room) (h.0, h.1, ground (arith, room))
  ]

  -- `access` of a page of the table
  pub access-Kept :
      (k : PageId) (p : BufferPool W)
      → held (HashMap.lookup k p.page_table) ≡ 1
      → (Kept K) p
      → (r : LruReplacer) × (access k p ≡ (ok tt, record p { replacer = r }))
        × (Kept K) (record p { replacer = r })
  access-Kept k p there (pooled, kept) =
      let (r, run, pooled') = access-Pooled k p pooled there in
      (r, run, (pooled', guard.replaced p r kept))

  -- A page is stored and accessed where there is room.
  pub enter-Kept :
      (k : PageId) (frame : Frame) (p : BufferPool W)
      → Free k
      → (Room K) p
      → (r : LruReplacer) × ((store_frame k frame >> access k) p
          ≡ (ok tt, record p { page_table = HashMap.insert k frame p.page_table; replacer = r }))
        × (Kept K) (record p { page_table = HashMap.insert k frame p.page_table; replacer = r })
  unfolding store_frame
  enter-Kept k frame p free (pooled, kept, room) =
      let there : held (HashMap.lookup k (HashMap.insert k frame p.page_table)) ≡ 1 =
        ground (arith, lookup-insert k k frame p.page_table) in
      access-Kept k (record p { page_table = HashMap.insert k frame p.page_table }) there
        (store_frame-Pooled k frame p pooled room, guard.stored k frame p free kept)

  pub enter-Ends :
      (k n : ℕ) (node : BTreeNode) (p : BufferPool W)
      → Free k
      → (Room K) p
      → Ends
          (Kept K)
          (λ _ q. (Kept K) q × Owned k q)
          ((store_frame k (record { node = node; handles = suc n }) >> access k) p)
  enter-Ends k n node p free room =
      let frame : Frame = record { node = node; handles = suc n } in
      let (r, run, h) = enter-Kept k frame p free room in
      rw run (h, (frame, ground (arith, lookup-insert k k frame p.page_table), omega arith))

  pub load_page-Ends :
      (k : PageId) (p : BufferPool W)
      → Free k
      → (Kept K) p
      → Ends (Kept K) (λ _ q. (Kept K) q × Owned k q) (load_page k p)
  unfolding load_page
  load_page-Ends k p free h =
      go_on-Ends (Kept K) (λ _. (Room K)) (λ _ q. (Kept K) q × Owned k q) (make_room p) _
        (make_room-Room p h)
        (λ _ q room.
          go_on-Ends (Kept K) (λ _. (Room K)) (λ _ q. (Kept K) q × Owned k q)
            (on_disk (read_disk k) q) _
            (Always-Ends (Kept K) (Room K) (λ _. (Room K)) (on_disk (read_disk k) q)
              (on_disk-Always (Room K) Room-Elsewhere (read_disk k) q room) (λ s h. (h.0, h.1))
              (λ _ s h. h))
            (λ raw q room.
              go_on-Ends (Kept K) (λ _. (Room K)) (λ _ q. (Kept K) q × Owned k q)
                (lift (decode raw) q) _
                (Always-Ends (Kept K) (Room K) (λ _. (Room K)) (lift (decode raw) q) room
                  (λ s h. (h.0, h.1)) (λ _ s h. h))
                (λ node q room. enter-Ends k 0 node q free room)))
