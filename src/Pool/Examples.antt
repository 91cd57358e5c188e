-- ===== src/Pool/Examples.antt =====
-- Runs of the buffer pool over a log, and its theorems at concrete pools.
use smol_db.Common.{ℕ, ap, ◌≡◌, refl, ◌⊎◌, true, [], some, arith}
use smol_db.HashMap
use smol_db.Error.Outcome.{Outcome, ok}
use smol_db.Page.Node.{is_dirty, get_last_lsn}
use smol_db.Disk.{default_header, allocate_page}
use smol_db.Disk.Laws.{manager}
use smol_db.Wal.Manager.{WalManager, flush_upto}
use smol_db.Pool.{
  BufferPool, Frame, new_pool, flush_page, fetch_page, evict_page, new_page, make_room,
  next_page_id, on_disk, store_frame, access,
}
use smol_db.Lru as Lru
use smol_db.Lru.{record_access, insert_head, link_next, link_prev, set_next, set_prev, unlink}
use smol_db.Pool.Log.{wal_manager}
use smol_db.Pool.Pinned.{Pinned, fetch_page-Pinned}
use smol_db.Pool.Agreed.{Agreed}
use smol_db.Pool.Answered.{opened, answered, fetched, allocated, Served-Agreed}
use smol_db.Pool.Flush.{flush_page-Logged}
use smol_db.Pool.Sample.{held_frame, empty_log, full_pool, full_pool-Pooled, found_4096}

abbrev fresh_pool : BufferPool WalManager
fresh_pool = new_pool (manager [] [] default_header) 1 (some empty_log)

abbrev one_page : BufferPool WalManager
one_page = (new_page true fresh_pool).1

-- the page is allocated, and found in the table then
calls_run : ((new_page true fresh_pool).0 ≡ ok 4096) × ((fetch_page 4096 one_page).0 ≡ ok tt)
unfolding new_pool Lru.new new_page make_room next_page_id on_disk allocate_page store_frame access
    record_access insert_head link_next link_prev set_next set_prev unlink fetch_page HashMap.lookup
    HashMap.insert Lru.track Lru.allocate default_header
calls_run = (refl, refl)

Served-Agreed_example : Agreed (fetch_page 4096 one_page).1
Served-Agreed_example = Served-Agreed _ (
    answered
      (answered (opened (manager [] [] default_header) 1 (some empty_log)) (
        allocated true 4096 fresh_pool one_page
          (ap (λ (x : Outcome ℕ). (x, one_page)) calls_run.0)))
      (fetched 4096 one_page (fetch_page 4096 one_page).1
        (ap (λ (x : Outcome Unit). (x, (fetch_page 4096 one_page).1)) calls_run.1)))

fetch_page-Pinned_example :
    Pinned 4096 held_frame (fetch_page 8192 full_pool).1
    × Pinned 4096 held_frame (evict_page full_pool).1
fetch_page-Pinned_example =
    fetch_page-Pinned 4096 8192 held_frame full_pool full_pool-Pooled found_4096 (omega arith)

flush_page-Logged_example :
    ((flush_page 4096 full_pool).1.disk_manager ≡ full_pool.disk_manager)
    ⊎ ((frame : Frame) × (HashMap.lookup 4096 full_pool.page_table ≡ some frame)
        × (is_dirty frame.node ≡ true)
        × ((flush_upto (get_last_lsn frame.node) empty_log).0 ≡ ok tt))
flush_page-Logged_example = flush_page-Logged 4096 full_pool empty_log refl
