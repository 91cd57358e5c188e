-- ===== src/Disk.antt =====
-- `FileHeader` and `DiskManager` (page.rs). The fault of a read is an argument of the operation.
pub mod Laws
pub mod Header
pub mod Stands
mod Examples
use smol_db.Common.{
  ℕ, ◌+◌, ◌-◌, ◌%◌, ◌^◌, ◌≤◌, ◌<◌, List, [], ◌∷◌, ◌++◌, Option, none, some, ◌==◌, if◌then◌else◌,
  length, take, drop,
}
use smol_db.Bytes.{to_le_bytes, from_le_bytes}
use smol_db.Error.Outcome.{Outcome, ok, err, panic, ◌>>=◌, Run}
use smol_db.Storage.{File, write_all_at, sync_all, read_exact_at}
use smol_db.Page.{Page, PageId, page_size}

pub record FileHeader : Type 0 where
  pub last_row_id : ℕ
  pub page_root_offset : ℕ
  pub next_lsn : ℕ
  pub next_free_offset : ℕ

-- `FileHeader::default`
unfoldable pub default_header : FileHeader
default_header = record {
  last_row_id = 0;
  page_root_offset = 0;
  next_lsn = 0;
  next_free_offset = page_size;
}

pub record DiskManager : Type 0 where
  pub file : File
  pub header : FileHeader

unfoldable pub header_from : List ℕ → FileHeader
header_from buffer = record {
  last_row_id = from_le_bytes (take 4 buffer);
  page_root_offset = from_le_bytes (take 8 (drop 4 buffer));
  next_lsn = from_le_bytes (take 8 (drop 12 buffer));
  next_free_offset = from_le_bytes (take 8 (drop 20 buffer));
}

-- `DiskManager::open`, once the file is there
unfoldable pub open_disk : Option ℕ → File → Outcome DiskManager
open_disk fault f =
    if length f.content == 0
    then ok (record { file = f; header = default_header })
    else (read_exact_at 28 0 fault f >>= λ buffer.
        ok (record { file = f; header = header_from buffer }))

unfoldable pub read_page : Option ℕ → PageId → DiskManager → Outcome Page
read_page fault page_id d =
    read_exact_at page_size page_id fault d.file >>= λ bytes. ok (record { bytes = bytes })

unfoldable pub write_page : PageId → Page → DiskManager → Run DiskManager Unit
write_page page_id page d =
    let (result, f) = write_all_at page.bytes page_id d.file in (result, record d { file = f })

unfoldable pub allocate_page : DiskManager → PageId × DiskManager
allocate_page d = (
  d.header.next_free_offset,
  record d {
    header = record d.header {
      next_free_offset = (d.header.next_free_offset + page_size) % 2 ^ 64;
    };
  },
)

unfoldable pub header_bytes : FileHeader → List ℕ
header_bytes h =
    to_le_bytes 4 h.last_row_id
    ++ (to_le_bytes 8 h.page_root_offset
        ++ (to_le_bytes 8 h.next_lsn ++ to_le_bytes 8 h.next_free_offset))

-- the sync that ends `save_header`, where the write has succeeded
unfoldable pub sync_header : Run File Unit → DiskManager → Run DiskManager Unit
sync_header (ok done, f) d = let (result, f') = sync_all f in (result, record d { file = f' })
sync_header (err e, f) d = (err e, record d { file = f })
sync_header (panic, f) d = (panic, record d { file = f })

unfoldable pub save_header : DiskManager → Run DiskManager Unit
save_header d = sync_header (write_all_at (header_bytes d.header) 0 d.file) d
