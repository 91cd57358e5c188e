-- ===== src/Pool/Reload.antt =====
-- Eviction (buffer_pool.rs): what becomes of the victim, and that it comes back with its rows.
use smol_db.Common.{
  ◌<◌, ◌≡◌, sym, ap, subst, ◌∙◌, ◌⊎◌, inl, inr, true, false, none, some, arith, ◌==◌, if◌then◌else◌,
  length, lt→leb, List,
}
use mathlib.Core.Option.{some-injective}
use smol_db.HashMap
use smol_db.HashMap.{HashMap, lookup-remove, lookup-insert}
use smol_db.Error.Outcome.{ok, Run}
use smol_db.Error.Method.{◌>>◌, go_on, go_on-ok, Ends}
use smol_db.Storage.{next_fault}
use smol_db.Page.{PageId, Page, Record, LeafNode, leaf, page_size}
use smol_db.Page as Page
use smol_db.Page.Node.{is_dirty}
use smol_db.Page.Leaf.Rows.{IsLeaf}
use smol_db.Page.Codec.{encode, decode}
use smol_db.Page.Codec.Length.{length-encode}
use smol_db.Page.Codec.RoundTrip.{IsStorable, decode-encode-leaf}
use smol_db.Disk.{read_page}
use smol_db.Disk.Stands.{Stands, overwrite-Stands, read_page-Stands}
use smol_db.Pool.{
  BufferPool, Frame, WalFlusher, flush_page, drop_frame, evict_page, make_room, fetch_page,
  load_page, read_disk, on_disk,
}
use smol_db.Pool.State.{Pooled}
use smol_db.Pool.Evict.{take_victim_lem}
use smol_db.Pool.Keep.{IsPool-Elsewhere}
use smol_db.Pool.Room.{Kept, Room, evict_page-Room, enter-Kept}
use smol_db.Pool.Pinned.{any_pool}
use smol_db.Pool.Flush.{length-new}
use smol_db.Pool.Written.{Flushed, flush_page_ok, content_of, cleaned}

module _ {W : Type 0} ⦃flusher : WalFlusher W⦄ where
  -- the file has the page of a node, or the node was clean and the file is as it was
  abbrev pub Saved : PageId → Frame → BufferPool W → BufferPool W → Type 0
  Saved k frame p q =
      ((is_dirty frame.node ≡ false) × (content_of q ≡ content_of p))
      ⊎ ((is_dirty frame.node ≡ true)
          × ((page : Page) × (encode frame.node Page.new ≡ ok page)
              × (read_page none k q.disk_manager ≡ ok page)))

  -- the table without the page, and its page saved
  abbrev Gone : PageId → Frame → BufferPool W → BufferPool W → Type 0
  Gone k frame p q =
      ((i : PageId)
        → HashMap.lookup i q.page_table ≡ (if k == i then none else HashMap.lookup i p.page_table))
      × Saved k frame p q

  dropped :
      (k : PageId) (frame : Frame) (p s : BufferPool W)
      → HashMap.lookup k p.page_table ≡ some frame
      → Flushed k p s
      → Gone k frame p (drop_frame k s).1
  unfolding drop_frame
  dropped k frame p s there (inl (same, clean)) = (
    λ i.
        lookup-remove k i s.page_table
        ∙ ap (λ (x : BufferPool W). if k == i then none else HashMap.lookup i x.page_table) same,
    inl (clean frame there, ap content_of same),
  )
  dropped k frame p s there (inr (old, at, dirty, (page, encoded, content, table))) =
      let one : old ≡ frame = some-injective old frame (sym at ∙ there) in
      let whole = length-encode old.node Page.new page encoded ∙ length-new in
      (
        λ i. ground (
          arith,
          lookup-remove k i s.page_table,
          ap (HashMap.lookup i) table,
          lookup-insert k i (cleaned old) p.page_table,
        ),
        inr (
          ap (λ (f : Frame). is_dirty f.node) (sym one) ∙ dirty,
          (
            page,
            ap (λ (f : Frame). encode f.node Page.new) (sym one) ∙ encoded,
            read_page-Stands k page s.disk_manager whole (
                subst (Stands k page.bytes) (sym content)
                  (overwrite-Stands k page.bytes (content_of p))),
          ),
        ),
      )

  -- An eviction that returns has removed one page from the table, that nobody held, and no other; if
  -- the page was dirty, its node is in the file, and otherwise the file is as it was.
  pub evict_page-Saved :
      (p q : BufferPool W)
      → Pooled p
      → evict_page p ≡ (ok tt, q)
      → (k : PageId) × (frame : Frame) × (HashMap.lookup k p.page_table ≡ some frame)
        × (frame.handles ≡ 0)
        × ((i : PageId)
            → HashMap.lookup i q.page_table
              ≡ (if k == i then none else HashMap.lookup i p.page_table))
        × Saved k frame p q
  unfolding evict_page
  evict_page-Saved p q (l, lost, is) e =
      let (r, cases) = take_victim_lem p l lost is in
      elim cases [
        | inl (run, _, _) ↦ cc (
            ap (λ (x : Run (BufferPool W) Unit). x.0)
              (subst
                (λ (x : Run (BufferPool W) PageId).
                  go_on x (λ k. flush_page k >> drop_frame k) ≡ (ok tt, q))
                run e))
        | inr (k, frame, run, there, free, _, _) ↦
            let p0 : BufferPool W = record p { replacer = r } in
            let (_, s, flushed, last) =
              go_on-ok (flush_page k p0) (λ _. drop_frame k) tt q
                (subst
                  (λ (x : Run (BufferPool W) PageId).
                    go_on x (λ k. flush_page k >> drop_frame k) ≡ (ok tt, q))
                  run e) in
            let (table, saved) = dropped k frame p0 s there (flush_page_ok k p0 s flushed) in
            let out = ap (λ (x : Run (BufferPool W) Unit). x.1) last in
            (
              k,
              frame,
              there,
              free,
              subst
                  (λ (x : BufferPool W).
                    (i : PageId)
                    → HashMap.lookup i x.page_table
                      ≡ (if k == i then none else HashMap.lookup i p.page_table))
                  out table,
              subst (Saved k frame p0) out saved,
            )
      ]

  -- the page that has gone is the victim
  victim_is :
      (j k : PageId) (frame : Frame) (p q : BufferPool W)
      → HashMap.lookup k p.page_table ≡ some frame
      → HashMap.lookup k q.page_table ≡ (if j == k then none else HashMap.lookup k p.page_table)
      → HashMap.lookup k q.page_table ≡ none
      → j ≡ k
  victim_is j k frame p q there table absent = ground (arith, there, table, absent)

  -- a miss where there is room, and the page decodes to a node
  load_page_ok :
      (k : PageId) (q : BufferPool W) (page : Page) (l : LeafNode)
      → Pooled q
      → length q.page_table < q.capacity
      → next_fault q.disk_manager.file.faults ≡ none
      → HashMap.lookup k q.page_table ≡ none
      → read_page none k q.disk_manager ≡ ok page
      → decode page ≡ ok (leaf l)
      → (u : BufferPool W) × (fetch_page k q ≡ (ok tt, u))
        × Pooled u
        × (HashMap.lookup k u.page_table ≡ some (record { node = leaf l; handles = 1 }))
  unfolding fetch_page load_page make_room on_disk read_disk
  load_page_ok k q page l pooled room fine absent read decoded =
      let frame : Frame = record { node = leaf l; handles = 1 } in
      let p : BufferPool W = (on_disk (read_disk k) q).1 in
      let (a, b, is) = pooled in
      let pooled_p : Pooled p =
        (a, b, IsPool-Elsewhere a b q (read_disk k q.disk_manager).1 q.wal_flusher is) in
      let (r, run, (pooled_u, _)) =
        enter-Kept (λ _. Unit {0}) (λ _. Unit {0}) any_pool k frame p tt (pooled_p, tt, room) in
      let found : (read_disk k q.disk_manager).0 ≡ ok page =
        ap (λ fault. read_page fault k q.disk_manager) fine ∙ read in
      (
        record p { page_table = HashMap.insert k frame p.page_table; replacer = r },
        rw
            (
              fetch_page,
              absent,
              load_page,
              make_room,
              lt→leb q.capacity (length q.page_table) room,
              found,
              decoded,
            )
            run,
        pooled_u,
        ground (arith, lookup-insert k k frame p.page_table),
      )

  -- A dirty, well-formed leaf that fits a page and that an eviction has removed from the table comes
  -- back by `fetch_page`, where the next call on the file does not fail, as a clean, well-formed leaf of
  -- the same rows, which the caller holds.
  pub fetch_page-evict_page :
      (k : PageId) (frame : Frame) (l : LeafNode) (rows : List Record) (p q : BufferPool W)
      → Pooled p
      → HashMap.lookup k p.page_table ≡ some frame
      → frame.node ≡ leaf l
      → IsLeaf l rows
      → IsStorable l rows
      → l.is_dirty ≡ true
      → evict_page p ≡ (ok tt, q)
      → HashMap.lookup k q.page_table ≡ none
      → next_fault q.disk_manager.file.faults ≡ none
      → (u : BufferPool W) × (l' : LeafNode) × (fetch_page k q ≡ (ok tt, u))
        × Pooled u
        × (HashMap.lookup k u.page_table ≡ some (record { node = leaf l'; handles = 1 }))
        × IsLeaf l' rows
        × (l'.is_dirty ≡ false)
  unfolding is_dirty
  fetch_page-evict_page k frame l rows p q pooled there kind is can dirty e absent fine =
      let (pooled_q, _, room) =
        subst (Ends (Kept (λ _. Unit {0})) (λ _. Room (λ _. Unit {0}))) e
          (evict_page-Room (λ _. Unit {0}) (λ _. Unit {0}) any_pool p (pooled, tt)) in
      let (j, victim, at, _, table, saved) = evict_page-Saved p q pooled e in
      let j≡k : j ≡ k = victim_is j k frame p q there (table k) absent in
      let same : victim ≡ frame =
        some-injective victim frame
          (sym at ∙ (ap (λ i. HashMap.lookup i p.page_table) j≡k ∙ there)) in
      let (page, l', encoded, whole, decoded, is', shape, _) =
        decode-encode-leaf l rows Page.new is can length-new in
      let read : read_page none k q.disk_manager ≡ ok page = elim saved [
        | inl (clean, _) ↦
            let clash : true ≡ false =
              sym dirty ∙ (ap is_dirty (sym (ap (λ (f : Frame). f.node) same ∙ kind)) ∙ clean) in
            cc clash
        | inr (_, (page', encoded', read)) ↦
            let pages : ok page' ≡ ok page =
              sym encoded'
              ∙ (ap (λ n. encode n Page.new) (ap (λ (f : Frame). f.node) same ∙ kind) ∙ encoded) in
            ap (λ i. read_page none i q.disk_manager) (sym j≡k) ∙ (read ∙ pages)
      ] in
      let (u, run, pooled_u, here) =
        load_page_ok k q page l' pooled_q room fine absent read decoded in
      (u, l', run, pooled_u, here, is', ap (λ (x : LeafNode). x.is_dirty) shape)
