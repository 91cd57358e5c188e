-- ===== src/Disk/Examples.antt =====
-- Runs of the disk manager, and its theorems at concrete files.
use smol_db.Common.{
  ℕ, ◌+◌, ◌≤◌, ◌≡◌, refl, inl, List, [], none, arith, length, length-replicate, replicate,
}
use smol_db.Error.{io, unexpected_eof}
use smol_db.Error.Outcome.{ok, err}
use smol_db.Storage.{read_exact_at}
use smol_db.Page.{new, page_size}
use smol_db.Disk.{default_header, open_disk, read_page, write_page, save_header, allocate_page}
use smol_db.Disk.Laws.{manager, read_page-write_page}
use smol_db.Disk.Header.{IsHeader, open_disk-save_header}

new-page : length new.bytes ≡ page_size
unfolding new
new-page = length-replicate {A = ℕ} page_size 0

first_page : (allocate_page (manager [] [] default_header)).0 ≡ 4096
unfolding allocate_page default_header
first_page = refl

read_empty : read_page none 4096 (manager [] [] default_header) ≡ err (io unexpected_eof)
unfolding read_page read_exact_at
read_empty = refl

default_header-IsHeader : IsHeader default_header
unfolding default_header
default_header-IsHeader = record {
  last_row_id = omega arith;
  page_root_offset = omega arith;
  next_lsn = omega arith;
  next_free_offset = omega arith;
}

abbrev one_page : List ℕ
one_page = replicate page_size 7

one_page-stored : 0 + page_size ≤ length one_page
one_page-stored = omega (arith, length-replicate {A = ℕ} page_size 7)

read_page-write_page_example :
    let d = manager one_page [] default_header in
    let written = (write_page 4096 new d).1 in
    (write_page 4096 new d ≡ (ok tt, written))
    × (read_page none 4096 written ≡ ok new)
    × (read_page none 0 written ≡ read_page none 0 d)
read_page-write_page_example =
    read_page-write_page one_page [] default_header 4096 0 new new-page one_page-stored
      (inl (omega arith))

open_disk-save_header_example :
    let d = manager [] [] default_header in
    let saved = (save_header d).1 in
    (save_header d ≡ (ok tt, saved))
    × (open_disk none saved.file ≡ ok saved)
    × (saved.file.durable ≡ saved.file.content)
open_disk-save_header_example = open_disk-save_header [] [] default_header default_header-IsHeader
