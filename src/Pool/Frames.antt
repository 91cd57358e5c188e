-- ===== src/Pool/Frames.antt =====
-- The changes of the table and of the replacer (buffer_pool.rs) keep the invariant of the pool.
use smol_db.Common.{
  ◌+◌, ◌<◌, ◌≡◌, refl, sym, ap, ◌∙◌, ◌⊎◌, inl, inr, List, ◌∷◌, none, arith, Option-cases, dec_lt,
  length, count,
}
use smol_db.HashMap
use smol_db.HashMap.{
  HashMap, IsMap, lookup-insert, lookup-remove, insert-IsMap, remove-IsMap, length-insert_absent,
  length-insert_present, length-remove_present, remove_absent,
}
use smol_db.Error.Outcome.{ok}
use smol_db.Page.{PageId}
use smol_db.Lru.{LruReplacer}
use smol_db.Lru.State.{erase}
use smol_db.Lru.Refine.{record_access-Tracks}
use smol_db.Pool.{BufferPool, Frame, store_frame, access, drop_frame}
use smol_db.Pool.State.{
  held, IsPool, Pooled, count-le-length, length-erase, count-erase, count-moved, length-moved,
  length-remove,
}

module _ {W : Type 0} where
  -- the frame of a page of the pool is replaced
  pub store_frame-IsPool :
      (page_id : PageId) (frame : Frame) (l lost : List PageId)
      → count page_id l + count page_id lost ≡ 1
      → (p : BufferPool W) → IsPool p l lost
      → IsPool (store_frame page_id frame p).1 l lost
  unfolding store_frame count
  store_frame-IsPool page_id frame l lost known p is =
      elim (Option-cases (HashMap.lookup page_id p.page_table)) [
        | inl absent ↦ absurd (omega (arith, is.members page_id, known, ap held absent))
        | inr (old, there) ↦ record {
          tracks = is.tracks;
          same = is.same;
          members =
              λ k. ground (arith, is.members k, lookup-insert page_id k frame p.page_table, there);
          keyed = insert-IsMap page_id frame p.page_table is.keyed;
          sized = length-insert_present page_id frame old p.page_table is.keyed there ∙ is.sized;
          fits =
              omega (
                arith,
                is.fits,
                length-insert_present page_id frame old p.page_table is.keyed there,
              );
        }
      ]

  -- a frame is stored while there is room, under a page that the table does not know
  pub store_frame-IsPool_new :
      (page_id : PageId) (frame : Frame) (l lost : List PageId) (p : BufferPool W)
      → IsPool p l lost
      → HashMap.lookup page_id p.page_table ≡ none
      → length p.page_table < p.capacity
      → IsPool (store_frame page_id frame p).1 l (page_id ∷ lost)
  unfolding store_frame count
  store_frame-IsPool_new page_id frame l lost p is absent room = record {
    tracks = is.tracks;
    same = is.same;
    members = λ k. ground (arith, is.members k, lookup-insert page_id k frame p.page_table, absent);
    keyed = insert-IsMap page_id frame p.page_table is.keyed;
    sized = omega (arith, is.sized, length-insert_absent page_id frame p.page_table absent);
    fits =
        omega
          (arith, is.fits, length-insert_absent page_id frame p.page_table absent, ap held absent);
  }

  -- a frame is stored under a page that the table knows, or while there is room
  pub store_frame-Pooled :
      (page_id : PageId) (frame : Frame) (p : BufferPool W)
      → Pooled p
      → length p.page_table < p.capacity
      → Pooled (store_frame page_id frame p).1
  store_frame-Pooled page_id frame p (l, lost, is) room =
      elim (Option-cases (HashMap.lookup page_id p.page_table)) [
        | inl absent ↦
            (l, page_id ∷ lost, store_frame-IsPool_new page_id frame l lost p is absent room)
        | inr (old, there) ↦ (
          l,
          lost,
          store_frame-IsPool page_id frame l lost (is.members page_id ∙ ap held there) p is,
        )
      ]

  -- The page of a stored frame is accessed without a panic, and the replacer knows it then.
  pub access-IsPool :
      (page_id : PageId) (p : BufferPool W) (l lost : List PageId)
      → IsPool p l lost
      → held (HashMap.lookup page_id p.page_table) ≡ 1
      → (r : LruReplacer) × (access page_id p ≡ (ok tt, record p { replacer = r }))
        × IsPool (record p { replacer = r }) (page_id ∷ erase page_id l) (erase page_id lost)
  unfolding access count
  access-IsPool page_id p l lost is there =
      let known : count page_id l + count page_id lost ≡ 1 = is.members page_id ∙ there in
      let room : (0 < count page_id l) ⊎ (length l < p.replacer.capacity) =
        elim (dec_lt 0 (count page_id l)) [
          | yes old ↦ inl old
          | no new_one ↦
              inr (omega (arith, is.fits, is.sized, is.same, count-le-length page_id lost, known))
        ] in
      let (r, run, tracks, cap) = record_access-Tracks p.replacer l page_id is.tracks room in
      (
        r,
        rw (access, run) refl,
        record {
          tracks = tracks;
          same = cap ∙ is.same;
          members = λ k. count-moved page_id k l lost known ∙ is.members k;
          keyed = is.keyed;
          sized = is.sized ∙ sym (length-moved page_id l lost known);
          fits = is.fits;
        },
      )

  pub access-Pooled :
      (page_id : PageId) (p : BufferPool W)
      → Pooled p
      → held (HashMap.lookup page_id p.page_table) ≡ 1
      → (r : LruReplacer) × (access page_id p ≡ (ok tt, record p { replacer = r }))
        × Pooled (record p { replacer = r })
  access-Pooled page_id p (l, lost, is) there =
      let (r, run, is') = access-IsPool page_id p l lost is there in
      (r, run, (page_id ∷ erase page_id l, erase page_id lost, is'))

  -- a frame leaves the table, where the replacer has given its page up
  pub drop_frame-IsPool :
      (page_id : PageId) (p : BufferPool W) (l lost : List PageId)
      → IsPool p l lost
      → count page_id l ≡ 0
      → IsPool (drop_frame page_id p).1 l (erase page_id lost)
  unfolding drop_frame
  drop_frame-IsPool page_id p l lost is gone =
      let shrinks = length-remove page_id p.page_table is.keyed in
      record {
        tracks = is.tracks;
        same = is.same;
        members = λ k. ground (
          arith,
          is.members k,
          is.members page_id,
          gone,
          count-erase page_id k lost,
          lookup-remove page_id k p.page_table,
        );
        keyed = remove-IsMap page_id p.page_table is.keyed;
        sized =
            ground (arith, is.sized, is.members page_id, gone, length-erase page_id lost, shrinks);
        fits = omega (arith, is.fits, shrinks);
      }

  pub drop_frame-Pooled :
      (page_id : PageId) (p : BufferPool W) (l lost : List PageId)
      → IsPool p l lost
      → count page_id l ≡ 0
      → Pooled (drop_frame page_id p).1
  drop_frame-Pooled page_id p l lost is gone =
      (l, erase page_id lost, drop_frame-IsPool page_id p l lost is gone)
