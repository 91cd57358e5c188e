-- ===== src/Disk/Header.antt =====
-- The header that `DiskManager::save_header` writes (page.rs) is what `DiskManager::open` finds.
use smol_db.Common.{
  ne→==, ℕ, ◌^◌, ◌≤◌, ◌<◌, ◌≡◌, refl, sym, ap, ◌∙◌, List, [], ◌++◌, append-nil, none, arith, le→leb,
  length, length-append, take, drop, take-append, drop-append, drop_past,
}
use smol_db.Bytes.{to_le_bytes, length-to_le_bytes, from_le_bytes-to_le_bytes}
use smol_db.Error.Outcome.{ok}
use smol_db.Storage.{overwrite, write_all_at, sync_all, read_exact_at}
use smol_db.Disk.{FileHeader, header_from, open_disk, header_bytes, save_header, sync_header}
use smol_db.Disk.Laws.{manager, overwrite_self, length-overwrite}

-- the fields fit their machine types
pub record IsHeader (h : FileHeader) : Type 0 where
  pub last_row_id : h.last_row_id < 2 ^ 32
  pub page_root_offset : h.page_root_offset < 2 ^ 64
  pub next_lsn : h.next_lsn < 2 ^ 64
  pub next_free_offset : h.next_free_offset < 2 ^ 64

pub length-header_bytes : (h : FileHeader) → length (header_bytes h) ≡ 28
unfolding header_bytes
length-header_bytes h = simp (length-append, length-to_le_bytes) (omega arith)

-- the four fields of a buffer
module _ (a b c d : List ℕ) (la : length a ≡ 4) (lb : length b ≡ 8) (lc : length c ≡ 8)
    (ld : length d ≡ 8) where
  abbrev buffer : List ℕ
  buffer = a ++ (b ++ (c ++ d))

  second : take 8 (drop 4 buffer) ≡ b
  second = rw (drop-append a (b ++ (c ++ d)) 4 (sym la)) (take-append b (c ++ d) 8 (sym lb))

  third : take 8 (drop 12 buffer) ≡ c
  third =
      rw (drop_past a (b ++ (c ++ d)) 12 8 (omega (arith, la)), drop-append b (c ++ d) 8 (sym lb))
        (take-append c d 8 (sym lc))

  fourth : take 8 (drop 20 buffer) ≡ d
  fourth =
      rw
        (
          drop_past a (b ++ (c ++ d)) 20 16 (omega (arith, la)),
          drop_past b (c ++ d) 16 8 (omega (arith, lb)),
          drop-append c d 8 (sym lc),
        )
        (ap (take 8) (sym (append-nil d)) ∙ take-append d [] 8 (sym ld))

header_from-header_bytes : (h : FileHeader) → IsHeader h → header_from (header_bytes h) ≡ h
unfolding header_from header_bytes
header_from-header_bytes h is =
    let a = to_le_bytes 4 h.last_row_id in
    let b = to_le_bytes 8 h.page_root_offset in
    let c = to_le_bytes 8 h.next_lsn in
    let d = to_le_bytes 8 h.next_free_offset in
    let la = length-to_le_bytes 4 h.last_row_id in
    let lb = length-to_le_bytes 8 h.page_root_offset in
    let lc = length-to_le_bytes 8 h.next_lsn in
    let ld = length-to_le_bytes 8 h.next_free_offset in
    rw
      (
        take-append a (b ++ (c ++ d)) 4 (sym la),
        second a b c d la lb lc ld,
        third a b c d la lb lc ld,
        fourth a b c d la lb lc ld,
        from_le_bytes-to_le_bytes 4 h.last_row_id (omega (arith, is.last_row_id)),
        from_le_bytes-to_le_bytes 8 h.page_root_offset (omega (arith, is.page_root_offset)),
        from_le_bytes-to_le_bytes 8 h.next_lsn (omega (arith, is.next_lsn)),
        from_le_bytes-to_le_bytes 8 h.next_free_offset (omega (arith, is.next_free_offset)),
      )
      refl

-- On a file whose calls succeed, a header that is saved is durable with all that was written, and
-- opening the file finds it.
pub open_disk-save_header :
    (content durable : List ℕ) (header : FileHeader)
    → IsHeader header
    → let d = manager content durable header in
      let saved = (save_header d).1 in
      (save_header d ≡ (ok tt, saved))
      × (open_disk none saved.file ≡ ok saved)
      × (saved.file.durable ≡ saved.file.content)
unfolding save_header sync_header write_all_at sync_all open_disk read_exact_at
open_disk-save_header content durable header is =
    let after = overwrite 0 (header_bytes header) content in
    let long : 28 ≤ length after =
      omega (arith, length-header_bytes header, length-overwrite 0 (header_bytes header) content) in
    let own : take 28 (drop 0 after) ≡ header_bytes header =
      rw (sym (length-header_bytes header)) (overwrite_self 0 (header_bytes header) content) in
    (
      refl,
      rw
          (
            ne→== (length after) 0 (omega arith),
            le→leb 28 (length after) long,
            own,
            header_from-header_bytes header is,
          )
          refl,
      refl,
    )
