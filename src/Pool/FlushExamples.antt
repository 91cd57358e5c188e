-- ===== src/Pool/FlushExamples.antt =====
-- A flush of all pages of a pool over a log.
use smol_db.Common.{◌≡◌, refl, ap, ◌⊎◌, false, [], ◌∷◌, none, some, arith, count}
use smol_db.HashMap
use smol_db.Error.Outcome.{Outcome, ok}
use smol_db.Storage.{sync_all, write_all_at}
use smol_db.Bytes.{to_le_bytes}
use smol_db.Page.{Page}
use smol_db.Page as Page
use smol_db.Page.Node.{is_dirty, get_last_lsn, clear_dirty}
use smol_db.Page.Leaf.{footer_len}
use smol_db.Page.Cursor.{open_cursor, write_bytes, write_uint, skip}
use smol_db.Page.Codec.{
  encode, encode_leaf, write_uints, write_cells, write_cell, leaf_fields, slot_fields, bit,
}
use smol_db.Disk.{read_page, write_page, save_header, sync_header, header_bytes, default_header}
use smol_db.Wal.Manager.{WalManager, open_log, flush_upto}
use smol_db.Pool.{
  BufferPool, on_disk, store_frame, flush_log, flush_dirty, flush_page, flush_pages,
  flush_all_pages,
}
use smol_db.Pool.Log.{wal_manager}
use smol_db.Pool.Written.{cleaned}
use smol_db.Pool.FlushAll.{flush_all_pages-Durable}
use smol_db.Pool.Sample.{held_frame, full_pool, found_4096}

abbrev flushed_pool : BufferPool WalManager
flushed_pool = (flush_all_pages (4096 ∷ []) full_pool).1

all_flushed : (flush_all_pages (4096 ∷ []) full_pool).0 ≡ ok tt
unfolding flush_all_pages flush_pages flush_page flush_dirty flush_log flush_upto sync_all open_log
    on_disk store_frame is_dirty get_last_lsn clear_dirty encode encode_leaf footer_len write_uints
    write_uint write_bytes write_cells write_cell leaf_fields slot_fields bit open_cursor skip
    Page.new write_page write_all_at save_header sync_header header_bytes to_le_bytes default_header
    HashMap.lookup HashMap.insert HashMap.remove
all_flushed = refl

flush_all_pages-Durable_example :
    (HashMap.lookup 4096 flushed_pool.page_table ≡ some (cleaned held_frame))
    × (is_dirty (cleaned held_frame).node ≡ false)
    × ((is_dirty held_frame.node ≡ false)
        ⊎ ((page : Page) × (encode held_frame.node Page.new ≡ ok page)
            × (read_page none 4096 flushed_pool.disk_manager ≡ ok page)))
    × (flushed_pool.disk_manager.file.durable ≡ flushed_pool.disk_manager.file.content)
unfolding count
flush_all_pages-Durable_example =
    flush_all_pages-Durable (4096 ∷ []) 4096 held_frame full_pool flushed_pool
      ((0, omega arith), tt) (omega arith) found_4096
      (ap (λ (x : Outcome Unit). (x, flushed_pool)) all_flushed)
