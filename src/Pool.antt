-- ===== src/Pool.antt =====
-- buffer_pool.rs: the cache of pages. A `Frame` is an `Arc` of a node: the node itself and the
-- number of its owners outside the page table, so that `Arc::strong_count` is one more. A caller
-- holds a frame by its page id. Latches are not modelled: one method runs at a time.
pub mod State
pub mod Frames
pub mod Evict
pub mod Keep
pub mod Room
pub mod Fetch
pub mod Pinned
pub mod Agreed
pub mod Answered
pub mod Flush
pub mod Log
pub mod Use
pub mod Allocate
pub mod Latched
pub mod Written
pub mod Still
pub mod FlushAll
pub mod Reload
pub mod Sample
mod Examples
mod FlushExamples
mod ReloadExamples
use smol_db.Common.{
  ℕ, zero, suc, ◌+◌, ◌-◌, Bool, true, false, List, [], ◌∷◌, Option, none, some, leb, ◌==◌,
  if◌then◌else◌, length,
}
use smol_db.HashMap
use smol_db.HashMap.{HashMap}
use smol_db.Error.{lru_eviction}
use smol_db.Error.Outcome.{Outcome, ok, err, panic, Run}
use smol_db.Error.Method.{Method, ◌>>=◌, ◌>>◌, return, lift, put_back, go_on}
use smol_db.Storage.{next_fault, called}
use smol_db.Page.{PageId, BTreeNode}
use smol_db.Page as Page
use smol_db.Page.Node.{new_empty, is_dirty, clear_dirty, get_last_lsn}
use smol_db.Page.Codec.{encode, decode}
use smol_db.Disk.{DiskManager, read_page, write_page, allocate_page, save_header}
use smol_db.Lru as Lru
use smol_db.Lru.{LruReplacer, record_access, evict_if}

-- `trait WalFlusher`, for a log with the state `W`
pub record WalFlusher (W : Type 0) : Type 0 where
  pub flush_upto : ℕ → Method W Unit

pub record Frame : Type 0 where
  pub node : BTreeNode
  pub handles : ℕ

pub record BufferPool (W : Type 0) : Type 0 where
  pub disk_manager : DiskManager
  pub replacer : LruReplacer
  pub page_table : HashMap Frame
  pub capacity : ℕ
  pub wal_flusher : Option W

-- `DiskManager::read_page`, which takes the next fault of the file
unfoldable pub read_disk : PageId → Method DiskManager Page.Page
read_disk page_id d =
    (read_page (next_fault d.file.faults) page_id d, record d { file = called d.file })

-- the test of `evict_page`: nobody holds the frame
unfoldable pub evictable : HashMap Frame → PageId → Outcome Bool
evictable table page_id = elim (HashMap.lookup page_id table) [
  | some frame ↦ ok (frame.handles == 0)
  | none ↦ panic
]

module _ {W : Type 0} where
  unfoldable pub new_pool : DiskManager → ℕ → Option W → BufferPool W
  new_pool disk_manager capacity wal_flusher = record {
    disk_manager = disk_manager;
    replacer = Lru.new capacity;
    page_table = [];
    capacity = capacity;
    wal_flusher = wal_flusher;
  }

  -- `self.page_table.insert(page_id, frame)`
  unfoldable pub store_frame : PageId → Frame → Method (BufferPool W) Unit
  store_frame page_id frame p =
      (ok tt, record p { page_table = HashMap.insert page_id frame p.page_table })

  -- `self.replacer.record_access(page_id)`
  unfoldable pub access : PageId → Method (BufferPool W) Unit
  access page_id p = elim (record_access page_id p.replacer) [
    | ok r ↦ (ok tt, record p { replacer = r })
    | err e ↦ (err e, p)
    | panic ↦ (panic, p)
  ]

  unfoldable pub on_disk : {A : Type 0} → Method DiskManager A → Method (BufferPool W) A
  on_disk m p = put_back (λ d. record p { disk_manager = d }) (m p.disk_manager)

  -- a caller drops its handle of a frame
  unfoldable pub release_handle : PageId → Method (BufferPool W) Unit
  release_handle page_id p = elim (HashMap.lookup page_id p.page_table) [
    | none ↦ (ok tt, p)
    | some frame ↦ store_frame page_id (record frame { handles = frame.handles - 1 }) p
  ]

  -- what a caller does to the node of a frame that it holds, `frame.write()`
  unfoldable pub with_node : {A : Type 0} → PageId → Method BTreeNode A → Method (BufferPool W) A
  with_node page_id m p = elim (HashMap.lookup page_id p.page_table) [
    | none ↦ (panic, p)
    | some frame ↦
        put_back
          (λ node. record p {
            page_table = HashMap.insert page_id (record frame { node = node }) p.page_table;
          })
          (m frame.node)
  ]

  -- the page that the replacer gives up
  unfoldable pub take_victim : Method (BufferPool W) PageId
  take_victim p = elim (evict_if (evictable p.page_table) p.replacer) [
    | ok found ↦ elim found.0 [
      | some page_id ↦ (ok page_id, record p { replacer = found.1 })
      | none ↦ (err lru_eviction, record p { replacer = found.1 })
    ]
    | err e ↦ (err e, p)
    | panic ↦ (panic, p)
  ]

  unfoldable pub drop_frame : PageId → Method (BufferPool W) Unit
  drop_frame page_id p = (ok tt, record p { page_table = HashMap.remove page_id p.page_table })

module _ {W : Type 0} ⦃flusher : WalFlusher W⦄ where
  -- `flusher.flush_upto(lsn)?` where there is a flusher
  unfoldable pub flush_log : ℕ → Method (BufferPool W) Unit
  flush_log lsn p = elim p.wal_flusher [
    | none ↦ (ok tt, p)
    | some w ↦ put_back (λ w'. record p { wal_flusher = some w' }) (flusher.flush_upto lsn w)
  ]

  -- a dirty page is written behind its log records, and is clean then
  unfoldable pub flush_dirty : PageId → Frame → Method (BufferPool W) Unit
  flush_dirty page_id frame = do
    flush_log (get_last_lsn frame.node)
    raw_page ← lift (encode frame.node Page.new)
    on_disk (write_page page_id raw_page)
    store_frame page_id (record frame { node = clear_dirty frame.node })

  unfoldable pub flush_page : PageId → Method (BufferPool W) Unit
  flush_page page_id p = elim (HashMap.lookup page_id p.page_table) [
    | none ↦ (ok tt, p)
    | some frame ↦ elim (is_dirty frame.node) [
      | true ↦ flush_dirty page_id frame p
      | false ↦ (ok tt, p)
    ]
  ]

  unfoldable pub flush_pages : List PageId → Method (BufferPool W) Unit
  flush_pages [] = return tt
  flush_pages (page_id ∷ page_ids) = flush_page page_id >> flush_pages page_ids

  -- `flush_all_pages`, where the map yields its keys in this order
  unfoldable pub flush_all_pages : List PageId → Method (BufferPool W) Unit
  flush_all_pages order = do flush_pages order; on_disk save_header

  unfoldable pub evict_page : Method (BufferPool W) Unit
  evict_page = do evict_id ← take_victim; flush_page evict_id; drop_frame evict_id

  -- `if self.page_table.len() >= self.capacity { self.evict_page()?; }`
  unfoldable pub make_room : Method (BufferPool W) Unit
  make_room p = elim (leb p.capacity (length p.page_table)) [
    | true ↦ evict_page p
    | false ↦ (ok tt, p)
  ]

  -- a cache miss: the page is read and decoded, and the caller holds its frame
  unfoldable pub load_page : PageId → Method (BufferPool W) Unit
  load_page page_id = do
    make_room
    raw_page ← on_disk (read_disk page_id)
    node ← lift (decode raw_page)
    store_frame page_id (record { node = node; handles = 1 })
    access page_id

  unfoldable pub fetch_page : PageId → Method (BufferPool W) Unit
  fetch_page page_id p = elim (HashMap.lookup page_id p.page_table) [
    | none ↦ load_page page_id p
    | some frame ↦
        (access page_id >> store_frame page_id (record frame { handles = suc frame.handles })) p
  ]

  -- `self.disk_manager.allocate_page()`
  unfoldable pub next_page_id : Method (BufferPool W) PageId
  next_page_id = on_disk (λ d. (ok (allocate_page d).0, (allocate_page d).1))

  unfoldable pub new_page : Bool → Method (BufferPool W) PageId
  new_page is_leaf = do
    make_room
    page_id ← next_page_id
    store_frame page_id (record { node = new_empty page_id is_leaf; handles = 1 })
    access page_id
    return page_id

  -- A caller fetches a frame, uses its node and drops its handle, whatever the use ends in.
  unfoldable pub with_frame : {A : Type 0} → PageId → Method BTreeNode A → Method (BufferPool W) A
  with_frame page_id m p =
      go_on (fetch_page page_id p) λ _ q.
        let (result, used) = with_node page_id m q in (result, (release_handle page_id used).1)
