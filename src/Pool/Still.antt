-- ===== src/Pool/Still.antt =====
-- A clean page through `flush_pages` (buffer_pool.rs): its frame and its bytes in the file stay.
use smol_db.Common.{
  ℕ, ◌+◌, ◌≤◌, ◌≡◌, ◌≢◌, sym, ap, subst, ◌∙◌, ◌⊎◌, inl, inr, Bool-cases, true, false, List, [], ◌∷◌,
  some, arith, ◌==◌, length, All,
}
use mathlib.Core.Option.{some-injective}
use smol_db.HashMap
use smol_db.HashMap.{HashMap, lookup-insert}
use smol_db.Error.Outcome.{ok, Run}
use smol_db.Error.Method.{go_on-ok}
use smol_db.Page.{PageId, Page, BTreeNode, leaf, internal, page_size}
use smol_db.Page as Page
use smol_db.Page.Node.{is_dirty}
use smol_db.Page.Codec.Length.{length-encode}
use smol_db.Disk.Stands.{Stands, Stands-overwrite}
use smol_db.Pool.{BufferPool, Frame, WalFlusher, flush_page, flush_pages}
use smol_db.Pool.Flush.{length-new}
use smol_db.Pool.Written.{cleaned, IsPageId, apart, content_of, Flushed, flush_page_ok}

module _ {W : Type 0} ⦃flusher : WalFlusher W⦄ where
  -- a clean page stays as it is
  still :
      (i k : PageId) (frame : Frame) (p q : BufferPool W)
      → HashMap.lookup i p.page_table ≡ some frame
      → is_dirty frame.node ≡ false
      → Flushed k p q
      → HashMap.lookup i q.page_table ≡ some frame
  still i k frame p q there clean (inl (same, _)) =
      ap (λ (x : BufferPool W). HashMap.lookup i x.page_table) same ∙ there
  still i k frame p q there clean (inr (old, at, dirty, (page, _, _, table))) =
      elim (Bool-cases (k == i)) [
        | inl here ↦
            let k≡i : k ≡ i = ground (arith, here) in
            let one : some old ≡ some frame =
              sym at ∙ (ap (λ x. HashMap.lookup x p.page_table) k≡i ∙ there) in
            let clash : true ≡ false =
              sym dirty
              ∙ (ap (λ (f : Frame). is_dirty f.node) (some-injective old frame one) ∙ clean) in
            cc clash
        | inr other ↦
            ap (HashMap.lookup i) table
            ∙ ground (arith, lookup-insert k i (cleaned old) p.page_table, other, there)
      ]

  -- and so does what stands in the file for it
  file_still :
      (i k : PageId) (frame : Frame) (bytes : List ℕ) (p q : BufferPool W)
      → HashMap.lookup i p.page_table ≡ some frame
      → is_dirty frame.node ≡ false
      → IsPageId i
      → IsPageId k
      → length bytes ≡ page_size
      → Flushed k p q
      → Stands i bytes (content_of p)
      → Stands i bytes (content_of q)
  file_still i k frame bytes p q there clean ii kk whole (inl (same, _)) stands =
      subst (λ (x : BufferPool W). Stands i bytes (content_of x)) (sym same) stands
  file_still i k frame bytes p q there clean ii kk whole
        (inr (old, at, dirty, (page, encoded, content, _))) stands =
      let i≢k : i ≢ k = λ i≡k.
        let one : some old ≡ some frame =
          sym at ∙ (ap (λ x. HashMap.lookup x p.page_table) (sym i≡k) ∙ there) in
        let clash : true ≡ false =
          sym dirty
          ∙ (ap (λ (f : Frame). is_dirty f.node) (some-injective old frame one) ∙ clean) in
        cc clash in
      let written : length page.bytes ≡ page_size =
        length-encode old.node Page.new page encoded ∙ length-new in
      subst (Stands i bytes) (sym content) (
        Stands-overwrite k i page.bytes bytes (content_of p)
          (subst (λ n. (i + n ≤ k) ⊎ (k + length page.bytes ≤ i)) (sym whole)
            (apart i k (length page.bytes) ii kk i≢k written))
          stands)

  pub flush_pages_still :
      (order : List PageId) (i : PageId) (frame : Frame) (bytes : List ℕ) (p q : BufferPool W)
      → All IsPageId order
      → IsPageId i
      → length bytes ≡ page_size
      → HashMap.lookup i p.page_table ≡ some frame
      → is_dirty frame.node ≡ false
      → flush_pages order p ≡ (ok tt, q)
      → (HashMap.lookup i q.page_table ≡ some frame)
        × (Stands i bytes (content_of p) → Stands i bytes (content_of q))
  unfolding flush_pages
  flush_pages_still [] i frame bytes p q ids ii whole there clean e =
      let same : p ≡ q = ap (λ (r : Run (BufferPool W) Unit). r.1) e in
      (
        subst (λ (x : BufferPool W). HashMap.lookup i x.page_table ≡ some frame) same there,
        subst (λ (x : BufferPool W). Stands i bytes (content_of x)) same,
      )
  flush_pages_still (k ∷ order) i frame bytes p q (kk, ids) ii whole there clean e =
      let (_, s, run, rest) = go_on-ok (flush_page k p) _ tt q e in
      let flushed = flush_page_ok k p s run in
      let (table, stands) =
        flush_pages_still order i frame bytes s q ids ii whole
          (still i k frame p s there clean flushed) clean rest in
      (table, λ h. stands (file_still i k frame bytes p s there clean ii kk whole flushed h))
