-- ===== src/Recovery/Whole.antt =====
-- `init` (recovery.rs) on a log of whole entries, from the read of the log to its end.
use smol_db.Common.{
  ℕ, ◌<◌, ◌≡◌, sym, ap, subst, ◌∙◌, ◌⊎◌, false, List, [], ◌∷◌, ◌++◌, none, some, All, length, count,
}
use smol_db.HashMap
use smol_db.HashMap.{HashMap}
use smol_db.Error.Outcome.{ok, Run}
use smol_db.Error.Method.{Method, ◌>>◌, return, go_on, go_on-ok, put_back}
use smol_db.Storage.{clear, seek, sync_all}
use smol_db.Page.{PageId, Page, Record, LeafNode, BTreeNode, leaf}
use smol_db.Page.Leaf.Rows.{IsLeaf}
use smol_db.Page as Page
use smol_db.Page.Node.{is_dirty}
use smol_db.Page.Codec.{encode}
use smol_db.Disk.{read_page}
use smol_db.Wal.Entry.{WalEntry, IsEntry}
use smol_db.Wal.Manager.{WalManager, frames, max_lsn_from, open_log, truncate, sync_log}
use smol_db.Wal.Laws.{read_batch-frames}
use smol_db.Wal.Replayable.{log}
use smol_db.Pool.{BufferPool, Frame, WalFlusher, flush_all_pages}
use smol_db.Pool.State.{Pooled}
use smol_db.Pool.Written.{cleaned, IsPageId}
use smol_db.Pool.FlushAll.{flush_all_pages-Durable}
use smol_db.Recovery.{Engine, on_wal, on_pool, replay, replay_loop, recover, init, start}
use smol_db.Recovery.Redo.{redo_all}
use smol_db.Recovery.Rows.{found_after, Follows, redo_all-Follows}
use smol_db.Recovery.Replay.{Cached, entries_of, replay_loop-Redone}

module _ {W : Type 0} (batch : List WalEntry) where
  -- What recovery makes of the page `k` with the leaf `l`: the leaf that the redo of the entries of the
  -- page, in their order, and no others, gives; under each id it has what those entries leave there whose
  -- lsn is higher than the leaf's and those before; the frame is clean, and what was changed is read back
  -- from the file, all of whose bytes are durable.
  abbrev pub Recovered : PageId → Frame → LeafNode → BufferPool W → Type 0
  Recovered k frame l q =
      (l' : LeafNode) × (redo_all (entries_of k batch) (leaf l) ≡ (ok tt, leaf l'))
      × Follows (λ id. found_after id l.last_lsn (entries_of k batch)) l l'
      × (HashMap.lookup k q.page_table ≡ some (cleaned (record frame { node = leaf l' })))
      × ((is_dirty (leaf l') ≡ false)
          ⊎ ((page : Page) × (encode (leaf l') Page.new ≡ ok page)
              × (read_page none k q.disk_manager ≡ ok page)))
      × (q.disk_manager.file.durable ≡ q.disk_manager.file.content)

module _ {W : Type 0} ⦃flusher : WalFlusher W⦄ (order : List PageId) (batch : List WalEntry) where
  -- `replay`, where it returns
  pub replay-Recovered :
      (p q : BufferPool W) (h k : ℕ) (frame : Frame) (l : LeafNode) (rows : List Record)
      → Pooled p
      → Cached batch p.page_table
      → All IsPageId order
      → 0 < count k order
      → HashMap.lookup k p.page_table ≡ some frame
      → frame.node ≡ leaf l
      → IsLeaf l rows
      → replay order batch p ≡ (ok h, q)
      → (h ≡ max_lsn_from 0 batch) × Recovered batch k frame l q
  unfolding replay
  replay-Recovered p q h k frame l rows pooled cached ids listed there node_is is e =
      let (m, s, run, rest) = go_on-ok (replay_loop 0 batch p) _ h q e in
      let (top, _, redone) = replay_loop-Redone batch 0 m p s pooled cached run in
      let (node, redo, at) = redone k frame there in
      let redo_l = ap (redo_all (entries_of k batch)) (sym node_is) ∙ redo in
      let (l', same, _, follows) = redo_all-Follows (entries_of k batch) l node rows is redo_l in
      let (_, u, flushed, last) = go_on-ok (flush_all_pages order s) _ h q rest in
      let (clean, _, file, durable) =
        flush_all_pages-Durable order k (record frame { node = leaf l' }) s u ids listed
          (at ∙ ap (λ n. some (record frame { node = n })) same) flushed in
      let m≡h : m ≡ h = cc (ap (λ (r : Run (BufferPool W) ℕ). r.0) last) in
      (
        sym m≡h ∙ top,
        subst (Recovered batch k frame l) (ap (λ (r : Run (BufferPool W) ℕ). r.1) last)
            (l', redo_l ∙ ap (λ n. (ok tt, n)) same, follows, clean, file, durable),
      )

module _ {W : Type 0} ⦃flusher : WalFlusher W⦄ where
  -- the end of `init`, behind the replay
  abbrev clear_log : ℕ → Method (Engine W) ℕ
  clear_log max_lsn = on_wal truncate >> (on_wal sync_log >> return max_lsn)

  clear_log_lem :
      (content durable : List ℕ) (entries lsn max_lsn h : ℕ) (q : BufferPool W) (s : Engine W)
      → clear_log max_lsn (record { wal = log content durable false entries lsn; buf_pool = q })
        ≡ (ok h, s)
      → (max_lsn ≡ h) × (s.buf_pool ≡ q) × (s.wal.file.content ≡ []) × (s.wal.file.durable ≡ [])
  unfolding on_wal truncate sync_log clear seek sync_all
  clear_log_lem content durable entries lsn max_lsn h q s e =
      let at = ap (λ (r : Run (Engine W) ℕ). r.1) (sym e) in
      (
        cc (ap (λ (r : Run (Engine W) ℕ). r.0) e),
        ap (λ (x : Engine W). x.buf_pool) at,
        ap (λ (x : Engine W). x.wal.file.content) at,
        ap (λ (x : Engine W). x.wal.file.durable) at,
      )

  -- Where the log holds whole entries, of which there is one at least, and fewer than four bytes more,
  -- no call on it fails, the pages of the entries are cached, and the listed pages lie at multiples of the
  -- page size behind the first page of the file, which is the header's, an `init` that returns gives the
  -- highest lsn of the log and leaves the log empty and durable. Of a listed page with a well-formed
  -- leaf, it has redone the entries, in their order, and no others: a lookup finds under each id what it
  -- found before, changed by each entry of the page and the id, an insertion, an update or a deletion,
  -- whose lsn is higher than the leaf's and those of the page's entries before; and if the leaf is dirty
  -- then, its encoding is read back from the file, all of whose bytes are durable.
  pub init-Recovered :
      (e : WalEntry) (es : List WalEntry) (tail durable : List ℕ) (order : List PageId)
      (p : BufferPool W) (h k : ℕ) (frame : Frame) (l : LeafNode) (rows : List Record)
      (s : Engine W)
      → All IsEntry (e ∷ es)
      → length tail < 4
      → Pooled p
      → Cached (e ∷ es) p.page_table
      → All IsPageId order
      → 0 < count k order
      → HashMap.lookup k p.page_table ≡ some frame
      → frame.node ≡ leaf l
      → IsLeaf l rows
      → init order (
          start order
            (record { content = frames (e ∷ es) ++ tail; durable = durable; faults = [] })
            p)
        ≡ (ok h, s)
      → (h ≡ max_lsn_from 0 (e ∷ es))
        × Recovered (e ∷ es) k frame l s.buf_pool
        × (s.wal.file.content ≡ [])
        × (s.wal.file.durable ≡ [])
  unfolding init recover on_wal on_pool open_log
  init-Recovered e es tail durable order p h k frame l rows s entries short pooled cached ids listed
        there node_is is run =
      let batch = e ∷ es in
      let bytes = frames batch ++ tail in
      let read = read_batch-frames batch tail durable false 0 0 entries short in
      let w = log bytes durable false (length batch) (max_lsn_from 0 batch) in
      let begun : recover order batch (record { wal = w; buf_pool = p }) ≡ (ok h, s) =
        subst
          (λ (r : Run WalManager (List WalEntry)).
            go_on (put_back (λ w. record { wal = w; buf_pool = p }) r) (recover order) ≡ (ok h, s))
          read run in
      let (m, u, replayed, rest) =
        go_on-ok (on_pool (replay order batch) (record { wal = w; buf_pool = p })) clear_log h s
          begun in
      let q = (replay order batch p).1 in
      let u_is : record { wal = w; buf_pool = q } ≡ u =
        ap (λ (r : Run (Engine W) ℕ). r.1) replayed in
      let (m≡h, pool, content, gone) =
        clear_log_lem bytes durable (length batch) (max_lsn_from 0 batch) m h q s
          (subst (λ x. clear_log m x ≡ (ok h, s)) (sym u_is) rest) in
      let (top, recovered) =
        replay-Recovered order batch p q m k frame l rows pooled cached ids listed there node_is is
          (ap (λ (r : Run (Engine W) ℕ). (r.0, q)) replayed) in
      (sym m≡h ∙ top, subst (Recovered batch k frame l) (sym pool) recovered, content, gone)
