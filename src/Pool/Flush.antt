-- ===== src/Pool/Flush.antt =====
-- `flush_page` (buffer_pool.rs): the log goes first, and what is written is read back.
use smol_db.Common.{
  ℕ, ◌≡◌, refl, ap, ◌∙◌, ◌⊎◌, inl, inr, true, false, List, Option, none, some, arith, Bool-cases,
  Option-cases, length, length-replicate,
}
use smol_db.HashMap
use smol_db.HashMap.{HashMap, lookup-insert}
use smol_db.Error.Outcome.{ok, err, panic, Run}
use smol_db.Error.Method.{put_back}
use smol_db.Page.{PageId, Page, Record, LeafNode, BTreeNode, leaf, page_size}
use smol_db.Page as Page
use smol_db.Page.Node.{is_dirty, clear_dirty, get_last_lsn}
use smol_db.Page.Codec.{encode, decode}
use smol_db.Page.Codec.RoundTrip.{IsStorable, decode-encode-leaf}
use smol_db.Page.Leaf.Rows.{IsLeaf}
use smol_db.Storage.{write_all_at}
use smol_db.Disk.{FileHeader, write_page}
use smol_db.Disk.Laws.{manager, read_page-own}
use smol_db.Pool.{
  BufferPool, Frame, WalFlusher, read_disk, store_frame, on_disk, flush_log, flush_dirty,
  flush_page,
}

pub length-new : length Page.new.bytes ≡ page_size
unfolding Page.new
length-new = length-replicate {A = ℕ} page_size 0

module _ {W : Type 0} ⦃flusher : WalFlusher W⦄ where
  -- the call of the log has returned
  abbrev Logged : ℕ → W → Type 0
  Logged lsn w = (flusher.flush_upto lsn w).0 ≡ ok tt

  dirty-Logged :
      (k : PageId) (frame : Frame) (p : BufferPool W) (w : W) (run : Run W Unit)
      → flusher.flush_upto (get_last_lsn frame.node) w ≡ run
      → p.wal_flusher ≡ some w
      → ((flush_dirty k frame p).1.disk_manager ≡ p.disk_manager) ⊎ (run.0 ≡ ok tt)
  unfolding flush_dirty flush_log
  dirty-Logged k frame p w (ok tt, w') e on = inr refl
  dirty-Logged k frame p w (err x, w') e on = inl (rw (flush_dirty, flush_log, on, e) refl)
  dirty-Logged k frame p w (panic, w') e on = inl (rw (flush_dirty, flush_log, on, e) refl)

  -- Where the pool has a log, `flush_page` changes the file only after the log has been flushed up to
  -- the last change of the page, without an error.
  pub flush_page-Logged :
      (k : PageId) (p : BufferPool W) (w : W)
      → p.wal_flusher ≡ some w
      → ((flush_page k p).1.disk_manager ≡ p.disk_manager)
        ⊎ ((frame : Frame) × (HashMap.lookup k p.page_table ≡ some frame)
            × (is_dirty frame.node ≡ true)
            × ((flusher.flush_upto (get_last_lsn frame.node) w).0 ≡ ok tt))
  unfolding flush_page
  flush_page-Logged k p w on = elim (Option-cases (HashMap.lookup k p.page_table)) [
    | inl absent ↦ inl (rw (flush_page, absent) refl)
    | inr (frame, there) ↦ elim (Bool-cases (is_dirty frame.node)) [
      | inl dirty ↦
          elim (dirty-Logged k frame p w (flusher.flush_upto (get_last_lsn frame.node) w) refl on) [
            | inl same ↦ inl (rw (flush_page, there, dirty) same)
            | inr logged ↦ inr (frame, there, dirty, logged)
          ]
      | inr clean ↦ inl (rw (flush_page, there, clean) refl)
    ]
  ]

  pub logged_pool :
      (lsn : ℕ) (p : BufferPool W) (log : Option W)
      → (flush_log lsn (record p { wal_flusher = log })).0 ≡ ok tt
      → (log' : Option W) × (flush_log lsn (record p { wal_flusher = log })
          ≡ (ok tt, record p { wal_flusher = log' }))
  unfolding flush_log
  logged_pool lsn p none h = (none, refl)
  logged_pool lsn p (some w) h =
      let after = (flusher.flush_upto lsn w).1 in
      (some after, ap (λ x. put_back (λ v. record p { wal_flusher = some v }) (x, after)) h)

  -- a pool whose file has no faults to come
  abbrev pub on_manager : BufferPool W → List ℕ → List ℕ → FileHeader → BufferPool W
  on_manager p content durable header = record p { disk_manager = manager content durable header }

  after_log :
      (k : PageId) (frame : Frame) (p : BufferPool W) (page : Page) (content durable : List ℕ)
      (header : FileHeader)
      → (flush_log (get_last_lsn frame.node) (on_manager p content durable header)).0 ≡ ok tt
      → encode frame.node Page.new ≡ ok page
      → length page.bytes ≡ page_size
      → (q : BufferPool W) × (flush_dirty k frame (on_manager p content durable header)
          ≡ (ok tt, q))
        × ((read_disk k q.disk_manager).0 ≡ ok page)
        × (q.page_table
            ≡ HashMap.insert k (record frame { node = clear_dirty frame.node }) p.page_table)
  unfolding flush_dirty store_frame on_disk read_disk write_page write_all_at
  after_log k frame p page content durable header logged e whole =
      let (log, run) =
        logged_pool (get_last_lsn frame.node) (on_manager p content durable header) p.wal_flusher
          logged in
      let (done, back) = read_page-own content durable header k page whole in
      let table = HashMap.insert k (record frame { node = clear_dirty frame.node }) p.page_table in
      (
        record p {
          disk_manager = (write_page k page (manager content durable header)).1;
          wal_flusher = log;
          page_table = table;
        },
        rw (flush_dirty, run, e) refl,
        back,
        refl,
      )

  -- On a file whose calls succeed, a dirty cached leaf that is well formed and fits a page is written
  -- by `flush_page`, which returns once the log call has: the page then decodes to a well-formed leaf
  -- of the same rows, and the cached leaf is the same but no longer dirty.
  pub flush_page-Stored :
      (k handles : ℕ) (l : LeafNode) (rows : List Record) (p : BufferPool W)
      (content durable : List ℕ) (header : FileHeader)
      → IsLeaf l rows
      → IsStorable l rows
      → l.is_dirty ≡ true
      → HashMap.lookup k p.page_table ≡ some (record { node = leaf l; handles = handles })
      → (flush_log l.last_lsn (on_manager p content durable header)).0 ≡ ok tt
      → (q : BufferPool W) × (page : Page) × (l' : LeafNode) × (flush_page k
            (on_manager p content durable header)
          ≡ (ok tt, q))
        × ((read_disk k q.disk_manager).0 ≡ ok page)
        × (decode page ≡ ok (leaf l'))
        × IsLeaf l' rows
        × (HashMap.lookup k q.page_table
            ≡ some (record { node = leaf (record l { is_dirty = false }); handles = handles }))
  unfolding flush_page is_dirty get_last_lsn clear_dirty
  flush_page-Stored k handles l rows p content durable header is can dirty there logged =
      let (page, l', e, whole, d, is', _, _) =
        decode-encode-leaf l rows Page.new is can length-new in
      let frame : Frame = record { node = leaf l; handles = handles } in
      let (q, run, back, table) = after_log k frame p page content durable header logged e whole in
      (
        q,
        page,
        l',
        rw (flush_page, there, dirty) run,
        back,
        d,
        is',
        ap (HashMap.lookup k) table
            ∙ ground (
              arith,
              lookup-insert k k (record frame { node = clear_dirty frame.node }) p.page_table,
            ),
      )
