-- ===== src/Pool/ReloadExamples.antt =====
-- Evictions of a pool over a log: a page that comes back, and one that does not.
use smol_db.Common.{◌≡◌, refl, ap, false, [], ◌∷◌, none, some, true}
use smol_db.HashMap
use smol_db.Error.{io, unexpected_eof}
use smol_db.Error.Outcome.{Outcome, ok, err}
use smol_db.Storage.{sync_all, write_all_at, next_fault, read_exact_at}
use smol_db.Bytes.{to_le_bytes}
use smol_db.Page.{LeafNode, leaf}
use smol_db.Page as Page
use smol_db.Page.Node.{is_dirty, get_last_lsn, clear_dirty, new_empty}
use smol_db.Page.Leaf.{footer_len}
use smol_db.Page.Leaf.Rows.{IsLeaf}
use smol_db.Page.Cursor.{open_cursor, write_bytes, write_uint, skip}
use smol_db.Page.Codec.{
  encode, encode_leaf, write_uints, write_cells, write_cell, leaf_fields, slot_fields, bit,
}
use smol_db.Disk.{write_page, read_page, allocate_page, default_header}
use smol_db.Disk.Laws.{manager}
use smol_db.Lru as Lru
use smol_db.Wal.Manager.{WalManager, open_log, flush_upto}
use smol_db.Pool.{
  BufferPool, Frame, new_pool, on_disk, store_frame, access, release_handle, flush_log, flush_dirty,
  flush_page, drop_frame, take_victim, evictable, evict_page, fetch_page, load_page, make_room,
  read_disk, next_page_id, new_page,
}
use smol_db.Pool.Log.{wal_manager}
use smol_db.Pool.State.{Pooled}
use smol_db.Pool.Keep.{release_handle-Pooled}
use smol_db.Pool.Reload.{fetch_page-evict_page}
use smol_db.Pool.Sample.{
  row, one_row, one_row-IsLeaf, one_row-IsStorable, full_pool, full_pool-Pooled,
}

-- nobody holds the page
abbrev idle_pool : BufferPool WalManager
idle_pool = (release_handle 4096 full_pool).1

abbrev idle_frame : Frame
idle_frame = record { node = leaf one_row; handles = 0 }

idle_found : HashMap.lookup 4096 idle_pool.page_table ≡ some idle_frame
unfolding release_handle store_frame HashMap.lookup HashMap.insert HashMap.remove
idle_found = refl

abbrev evicted_pool : BufferPool WalManager
evicted_pool = (evict_page idle_pool).1

evict_runs :
    ((evict_page idle_pool).0 ≡ ok tt)
    × (HashMap.lookup 4096 evicted_pool.page_table ≡ none)
    × (next_fault evicted_pool.disk_manager.file.faults ≡ none)
unfolding release_handle store_frame HashMap.lookup HashMap.insert HashMap.remove evict_page
    take_victim evictable drop_frame flush_page flush_dirty flush_log flush_upto sync_all open_log
    on_disk is_dirty get_last_lsn clear_dirty encode encode_leaf footer_len write_uints write_uint
    write_bytes write_cells write_cell leaf_fields slot_fields bit open_cursor skip Page.new
    write_page write_all_at to_le_bytes Lru.evict_if Lru.evict_loop Lru.release Lru.unlink
    Lru.link_next Lru.link_prev Lru.set_prev Lru.set_next
evict_runs = (refl, refl, refl)

fetch_page-evict_page_example :
    (u : BufferPool WalManager) × (l' : LeafNode) × (fetch_page 4096 evicted_pool ≡ (ok tt, u))
    × Pooled u
    × (HashMap.lookup 4096 u.page_table ≡ some (record { node = leaf l'; handles = 1 }))
    × IsLeaf l' (row ∷ [])
    × (l'.is_dirty ≡ false)
fetch_page-evict_page_example =
    fetch_page-evict_page 4096 idle_frame one_row (row ∷ []) idle_pool evicted_pool
      (release_handle-Pooled 4096 full_pool full_pool-Pooled) idle_found refl one_row-IsLeaf
      one_row-IsStorable refl (ap (λ (x : Outcome Unit). (x, evicted_pool)) evict_runs.0)
      evict_runs.1 evict_runs.2

-- a page that is allocated, given back and evicted before it is changed
abbrev allocated_pool : BufferPool WalManager
allocated_pool =
    (release_handle 4096 (new_page true (new_pool (manager [] [] default_header) 1 none)).1).1

new_page_lost : (fetch_page 4096 (evict_page allocated_pool).1).0 ≡ err (io unexpected_eof)
unfolding release_handle store_frame HashMap.lookup HashMap.insert HashMap.remove evict_page
    take_victim evictable drop_frame flush_page on_disk is_dirty new_page new_pool new_empty
    next_page_id make_room allocate_page access fetch_page load_page read_disk read_page
    read_exact_at default_header Lru.new Lru.record_access Lru.track Lru.allocate Lru.insert_head
    Lru.evict_if Lru.evict_loop Lru.release Lru.unlink Lru.link_next Lru.link_prev Lru.set_prev
    Lru.set_next
new_page_lost = refl
