-- ===== src/Pool/Written.antt =====
-- A `flush_page` (buffer_pool.rs) that returns: what it has done to the table and the file.
use smol_db.Common.{
  ℕ, suc, ◌+◌, ◌*◌, ◌≤◌, ◌≡◌, ◌≢◌, refl, sym, ap, subst, ◌∙◌, ◌⊎◌, inl, inr, Bool-cases,
  Option-cases, true, false, List, some, arith, dec_lt,
}
use mathlib.Core.Option.{some-injective}
use smol_db.HashMap
use smol_db.HashMap.{HashMap, lookup-insert}
use smol_db.Error.Outcome.{ok, Run}
use smol_db.Error.Method.{lift, go_on-ok}
use smol_db.Page.{PageId, Page, BTreeNode, leaf, internal, page_size}
use smol_db.Page as Page
use smol_db.Page.Node.{is_dirty, clear_dirty, get_last_lsn}
use smol_db.Page.Codec.{encode}
use smol_db.Disk.{DiskManager, write_page}
use smol_db.Disk.Stands.{write_page_ok}
use smol_db.Storage.{overwrite}
use smol_db.Pool.{
  BufferPool, Frame, WalFlusher, store_frame, on_disk, flush_log, flush_dirty, flush_page,
}
use smol_db.Pool.Flush.{logged_pool}

-- a frame whose node has been written
abbrev pub cleaned : Frame → Frame
cleaned frame = record frame { node = clear_dirty frame.node }

pub clear_dirty-clean : (node : BTreeNode) → is_dirty node ≡ false → clear_dirty node ≡ node
unfolding is_dirty clear_dirty
clear_dirty-clean (leaf l) clean = ap (λ b. leaf (record l { is_dirty = b })) (sym clean)
clear_dirty-clean (internal n) clean = ap (λ b. internal (record n { is_dirty = b })) (sym clean)

pub is_dirty-clear_dirty : (node : BTreeNode) → is_dirty (clear_dirty node) ≡ false
unfolding is_dirty clear_dirty
is_dirty-clear_dirty (leaf l) = refl
is_dirty-clear_dirty (internal n) = refl

-- the offset of a page behind the first, which the header has to itself
abbrev pub IsPageId : PageId → Type 0
IsPageId k = (n : ℕ) × (k ≡ page_size * suc n)

pub apart :
    (i j n : ℕ)
    → IsPageId i
    → IsPageId j
    → i ≢ j
    → n ≡ page_size
    → (i + page_size ≤ j) ⊎ (j + n ≤ i)
apart i j n (a, i_is) (b, j_is) ne whole = elim (dec_lt a b) [
  | yes lt ↦ inl (omega (arith, i_is, j_is, lt))
  | no ge ↦ inr (omega (arith, i_is, j_is, ge, ne, whole))
]

module _ {W : Type 0} where
  abbrev pub content_of : BufferPool W → List ℕ
  content_of p = p.disk_manager.file.content

module _ {W : Type 0} ⦃flusher : WalFlusher W⦄ where
  flush_log_ok :
      (lsn : ℕ) (p s : BufferPool W)
      → flush_log lsn p ≡ (ok tt, s)
      → (s.disk_manager ≡ p.disk_manager) × (s.page_table ≡ p.page_table)
  flush_log_ok lsn p s e =
      let (log, run) =
        logged_pool lsn p p.wal_flusher (ap (λ (r : Run (BufferPool W) Unit). r.0) e) in
      let same : record p { wal_flusher = log } ≡ s =
        ap (λ (r : Run (BufferPool W) Unit). r.1) (sym run ∙ e) in
      (
        ap (λ (q : BufferPool W). q.disk_manager) (sym same),
        ap (λ (q : BufferPool W). q.page_table) (sym same),
      )

  -- what a page that has been written leaves
  abbrev Wrote : PageId → Frame → BufferPool W → BufferPool W → Type 0
  Wrote k frame p q =
      (page : Page) × (encode frame.node Page.new ≡ ok page)
      × (content_of q ≡ overwrite k page.bytes (content_of p))
      × (q.page_table ≡ HashMap.insert k (cleaned frame) p.page_table)

  flush_dirty_ok :
      (k : PageId) (frame : Frame) (p q : BufferPool W)
      → flush_dirty k frame p ≡ (ok tt, q)
      → Wrote k frame p q
  unfolding flush_dirty store_frame on_disk
  flush_dirty_ok k frame p q e =
      let (_, s, run, e1) = go_on-ok (flush_log (get_last_lsn frame.node) p) _ tt q e in
      let (disk, table) = flush_log_ok (get_last_lsn frame.node) p s run in
      let (page, u, encoded, e2) = go_on-ok (lift (encode frame.node Page.new) s) _ tt q e1 in
      let s≡u : s ≡ u = ap (λ (r : Run (BufferPool W) Page). r.1) encoded in
      let (_, v, wrote, e3) = go_on-ok (on_disk (write_page k page) u) _ tt q e2 in
      let written : content_of v ≡ overwrite k page.bytes (content_of u) =
        write_page_ok k page u.disk_manager v.disk_manager
          (ap (λ (r : Run (BufferPool W) Unit). (r.0, r.1.disk_manager)) wrote) in
      let tables : v.page_table ≡ u.page_table =
        ap (λ (r : Run (BufferPool W) Unit). r.1.page_table) (sym wrote) in
      (
        page,
        ap (λ (r : Run (BufferPool W) Page). r.0) encoded,
        ap (λ (r : Run (BufferPool W) Unit). content_of r.1) (sym e3)
            ∙ (written
                ∙ ap (overwrite k page.bytes)
                    (ap content_of (sym s≡u) ∙ ap (λ (d : DiskManager). d.file.content) disk)),
        ap (λ (r : Run (BufferPool W) Unit). r.1.page_table) (sym e3)
            ∙ ap (HashMap.insert k (cleaned frame))
                (tables ∙ (ap (λ (x : BufferPool W). x.page_table) (sym s≡u) ∙ table)),
      )

  -- a call of `flush_page` that returns has either nothing to do or a page to write
  abbrev pub Flushed : PageId → BufferPool W → BufferPool W → Type 0
  Flushed k p q =
      ((q ≡ p)
        × ((frame : Frame)
            → HashMap.lookup k p.page_table ≡ some frame
            → is_dirty frame.node ≡ false))
      ⊎ ((frame : Frame) × (HashMap.lookup k p.page_table ≡ some frame)
          × (is_dirty frame.node ≡ true)
          × Wrote k frame p q)

  pub flush_page_ok :
      (k : PageId) (p q : BufferPool W) → flush_page k p ≡ (ok tt, q) → Flushed k p q
  unfolding flush_page
  flush_page_ok k p q = elim (Option-cases (HashMap.lookup k p.page_table)) [
    | inl absent ↦
        rw (flush_page, absent)
          (λ e. inl (ap (λ (r : Run (BufferPool W) Unit). r.1) (sym e), λ frame there. cc there))
    | inr (frame, there) ↦ elim (Bool-cases (is_dirty frame.node)) [
      | inl dirty ↦
          rw (flush_page, there, dirty)
            (λ e. inr (frame, refl, dirty, flush_dirty_ok k frame p q e))
      | inr clean ↦
          rw (flush_page, there, clean)
            (λ e. inl (
              ap (λ (r : Run (BufferPool W) Unit). r.1) (sym e),
              λ other same.
                  subst (λ (f : Frame). is_dirty f.node ≡ false) (some-injective frame other same)
                    clean,
            ))
    ]
  ]
