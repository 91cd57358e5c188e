-- ===== src/Pool/FlushAll.antt =====
-- `flush_all_pages` (buffer_pool.rs): where it returns, every page of the pool is durable.
use smol_db.Common.{
  ◌+◌, ◌≤◌, ◌<◌, ◌≡◌, sym, ap, subst, ◌∙◌, ◌⊎◌, inl, inr, Bool-cases, false, List, [], ◌∷◌, none,
  some, arith, ◌==◌, length, count, All,
}
use mathlib.Core.Option.{some-injective}
use smol_db.HashMap
use smol_db.HashMap.{HashMap, lookup-insert}
use smol_db.Error.Outcome.{ok, Run}
use smol_db.Error.Method.{go_on-ok}
use smol_db.Page.{PageId, Page, BTreeNode, leaf, internal, page_size}
use smol_db.Page as Page
use smol_db.Page.Node.{is_dirty}
use smol_db.Page.Codec.{encode}
use smol_db.Page.Codec.Length.{length-encode}
use smol_db.Disk.{FileHeader, header_bytes, read_page}
use smol_db.Disk.Header.{length-header_bytes}
use smol_db.Disk.Stands.{
  Stands, overwrite-Stands, Stands-overwrite, save_header_ok, read_page-Stands,
}
use smol_db.Pool.{BufferPool, Frame, WalFlusher, on_disk, flush_page, flush_pages, flush_all_pages}
use smol_db.Pool.Flush.{length-new}
use smol_db.Pool.Written.{
  cleaned, clear_dirty-clean, is_dirty-clear_dirty, IsPageId, content_of, Flushed, flush_page_ok,
}
use smol_db.Pool.Still.{flush_pages_still}

-- a listed page lies behind the header
behind_header :
    (order : List PageId) (i : PageId) (header : FileHeader)
    → All IsPageId order
    → 0 < count i order
    → 0 + length (header_bytes header) ≤ i
unfolding count
behind_header [] i header ids listed = absurd (omega (arith, listed))
behind_header (k ∷ order) i header ((n, kk), ids) listed = elim (Bool-cases (k == i)) [
  | inl here ↦
      let k≡i : k ≡ i = ground (arith, here) in omega (arith, length-header_bytes header, kk, k≡i)
  | inr other ↦ behind_header order i header ids (ground (arith, listed, other))
]

module _ {W : Type 0} ⦃flusher : WalFlusher W⦄ where
  -- what a flush of all pages has made of the frame of a page: clean, and in the file if it was dirty
  abbrev Kept : PageId → Frame → BufferPool W → Type 0
  Kept i frame q =
      (HashMap.lookup i q.page_table ≡ some (cleaned frame))
      × ((is_dirty frame.node ≡ false)
          ⊎ ((page : Page) × (encode frame.node Page.new ≡ ok page)
              × (length page.bytes ≡ page_size)
              × Stands i page.bytes (content_of q)))

  -- a page that has just been written, and the rest of the pages
  own_page :
      (order : List PageId) (i : PageId) (frame : Frame) (p s q : BufferPool W)
      → All IsPageId order
      → IsPageId i
      → HashMap.lookup i p.page_table ≡ some frame
      → Flushed i p s
      → flush_pages order s ≡ (ok tt, q)
      → Kept i frame q
  own_page order i frame p s q ids ii there (inl (same, clean)) e =
      let fine = clean frame there in
      let (table, _) =
        flush_pages_still order i frame Page.new.bytes s q ids ii length-new
          (ap (λ (x : BufferPool W). HashMap.lookup i x.page_table) same ∙ there) fine e in
      (
        table
            ∙ ap (λ n. some (record frame { node = n })) (sym (clear_dirty-clean frame.node fine)),
        inl fine,
      )
  own_page order i frame p s q ids ii there (inr (old, at, dirty, (page, encoded, content, table)))
        e =
      let old≡frame : old ≡ frame = some-injective old frame (sym at ∙ there) in
      let encoded' : encode frame.node Page.new ≡ ok page =
        ap (λ (f : Frame). encode f.node Page.new) (sym old≡frame) ∙ encoded in
      let whole : length page.bytes ≡ page_size =
        length-encode frame.node Page.new page encoded' ∙ length-new in
      let here : HashMap.lookup i s.page_table ≡ some (cleaned frame) =
        ap (HashMap.lookup i) table
        ∙ (let own : HashMap.lookup i (HashMap.insert i (cleaned old) p.page_table)
                ≡ some (cleaned old) =
              ground (arith, lookup-insert i i (cleaned old) p.page_table) in
            own ∙ ap (λ f. some (cleaned f)) old≡frame) in
      let (kept, stands) =
        flush_pages_still order i (cleaned frame) page.bytes s q ids ii whole here
          (is_dirty-clear_dirty frame.node) e in
      (
        kept,
        inr (
          page,
          encoded',
          whole,
          stands (
              subst (Stands i page.bytes) (sym content)
                (overwrite-Stands i page.bytes (content_of p))),
        ),
      )

  -- a flush of another page leaves the frame as it is
  other_page :
      (i k : PageId) (frame : Frame) (p q : BufferPool W)
      → (k == i) ≡ false
      → HashMap.lookup i p.page_table ≡ some frame
      → Flushed k p q
      → HashMap.lookup i q.page_table ≡ some frame
  other_page i k frame p q other there (inl (same, _)) =
      ap (λ (x : BufferPool W). HashMap.lookup i x.page_table) same ∙ there
  other_page i k frame p q other there (inr (old, _, _, (_, _, _, table))) =
      ap (HashMap.lookup i) table
      ∙ ground (arith, lookup-insert k i (cleaned old) p.page_table, other, there)

  flush_pages-Kept :
      (order : List PageId) (i : PageId) (frame : Frame) (p q : BufferPool W)
      → All IsPageId order
      → 0 < count i order
      → HashMap.lookup i p.page_table ≡ some frame
      → flush_pages order p ≡ (ok tt, q)
      → Kept i frame q
  unfolding flush_pages count
  flush_pages-Kept [] i frame p q ids listed there e = absurd (omega (arith, listed))
  flush_pages-Kept (k ∷ order) i frame p q (kk, ids) listed there e =
      let (_, s, run, rest) = go_on-ok (flush_page k p) _ tt q e in
      let flushed = flush_page_ok k p s run in
      elim (Bool-cases (k == i)) [
        | inl here ↦
            let k≡i : k ≡ i = ground (arith, here) in
            own_page order i frame p s q ids (subst IsPageId k≡i kk) there
              (subst (λ k. Flushed k p s) k≡i flushed) rest
        | inr other ↦
            flush_pages-Kept order i frame s q ids (ground (arith, listed, other))
              (other_page i k frame p s other there flushed) rest
      ]

  -- Where pages lie behind the first page of the file at multiples of the page size, and
  -- `flush_all_pages` returns, every listed page that the pool holds is clean, with its node otherwise
  -- as it was, and if it was dirty the page that its node encodes to is read back from the file, all of
  -- whose bytes are durable.
  pub flush_all_pages-Durable :
      (order : List PageId) (i : PageId) (frame : Frame) (p q : BufferPool W)
      → All IsPageId order
      → 0 < count i order
      → HashMap.lookup i p.page_table ≡ some frame
      → flush_all_pages order p ≡ (ok tt, q)
      → (HashMap.lookup i q.page_table ≡ some (cleaned frame))
        × (is_dirty (cleaned frame).node ≡ false)
        × ((is_dirty frame.node ≡ false)
            ⊎ ((page : Page) × (encode frame.node Page.new ≡ ok page)
                × (read_page none i q.disk_manager ≡ ok page)))
        × (q.disk_manager.file.durable ≡ q.disk_manager.file.content)
  unfolding flush_all_pages on_disk
  flush_all_pages-Durable order i frame p q ids listed there e =
      let (_, s, run, rest) = go_on-ok (flush_pages order p) _ tt q e in
      let (content, durable) =
        save_header_ok s.disk_manager q.disk_manager
          (ap (λ (r : Run (BufferPool W) Unit). (r.0, r.1.disk_manager)) rest) in
      let (table, file) = flush_pages-Kept order i frame p s ids listed there run in
      (
        ap (λ (r : Run (BufferPool W) Unit). HashMap.lookup i r.1.page_table) (sym rest) ∙ table,
        is_dirty-clear_dirty frame.node,
        elim file [
          | inl clean ↦ inl clean
          | inr (page, encoded, whole, stands) ↦ inr (
            page,
            encoded,
            read_page-Stands i page q.disk_manager whole (
                subst (Stands i page.bytes) (sym content) (
                  Stands-overwrite 0 i (header_bytes s.disk_manager.header) page.bytes
                    (content_of s) (inr (behind_header order i s.disk_manager.header ids listed))
                    stands)),
          )
        ],
        durable,
      )
