-- ===== src/Disk/Stands.antt =====
-- Where bytes stand in the file of `DiskManager` (page.rs), through the writes of others.
use smol_db.Common.{
  ℕ, ◌+◌, ◌≤◌, ◌≡◌, refl, sym, ap, subst, ◌∙◌, ◌⊎◌, inl, inr, List, none, Option-cases, arith,
  le→leb, length, take, drop,
}
use smol_db.Error.Outcome.{Outcome, ok, err, panic, Run}
use smol_db.Storage.{File, overwrite, write_all_at, sync_all, read_exact_at, next_fault}
use smol_db.Page.{Page, PageId, page_size}
use smol_db.Disk.{DiskManager, read_page, write_page, save_header, sync_header, header_bytes}
use smol_db.Disk.Laws.{
  overwrite_self, length-overwrite, overwrite_before, overwrite_behind, length-overwrite_le,
}

-- the bytes stand in the file from this offset on
abbrev pub Stands : ℕ → List ℕ → List ℕ → Type 0
Stands offset bytes content =
    (offset + length bytes ≤ length content) × (take (length bytes) (drop offset content) ≡ bytes)

pub overwrite-Stands :
    (offset : ℕ) (bytes content : List ℕ) → Stands offset bytes (overwrite offset bytes content)
overwrite-Stands offset bytes content =
    (length-overwrite offset bytes content, overwrite_self offset bytes content)

-- what has no byte in common with a write stands as before
pub Stands-overwrite :
    (offset o : ℕ) (bytes old content : List ℕ)
    → (o + length old ≤ offset) ⊎ (offset + length bytes ≤ o)
    → Stands o old content
    → Stands o old (overwrite offset bytes content)
Stands-overwrite offset o bytes old content apart (inside, same) = (
  length-overwrite_le offset bytes content o (length old) inside,
  elim apart [
    | inl before ↦ overwrite_before offset bytes content o (length old) inside before ∙ same
    | inr behind ↦ overwrite_behind offset bytes content o (length old) inside behind ∙ same
  ],
)

pub write_all_at_ok :
    (bytes : List ℕ) (offset : ℕ) (f g : File)
    → write_all_at bytes offset f ≡ (ok tt, g)
    → g.content ≡ overwrite offset bytes f.content
unfolding write_all_at
write_all_at_ok bytes offset f g = elim (Option-cases (next_fault f.faults)) [
  | inl fine ↦ rw (write_all_at, fine) (λ e. ap (λ (r : Run File Unit). r.1.content) (sym e))
  | inr (n, fault) ↦ rw (write_all_at, fault) (λ e. cc (ap (λ (r : Run File Unit). r.0) e))
]

pub sync_all_ok :
    (f g : File) → sync_all f ≡ (ok tt, g) → (g.content ≡ f.content) × (g.durable ≡ f.content)
unfolding sync_all
sync_all_ok f g = elim (Option-cases (next_fault f.faults)) [
  | inl fine ↦
      rw (sync_all, fine)
        (λ e. (
          ap (λ (r : Run File Unit). r.1.content) (sym e),
          ap (λ (r : Run File Unit). r.1.durable) (sym e),
        ))
  | inr (n, fault) ↦ rw (sync_all, fault) (λ e. cc (ap (λ (r : Run File Unit). r.0) e))
]

pub write_page_ok :
    (k : PageId) (page : Page) (d d' : DiskManager)
    → write_page k page d ≡ (ok tt, d')
    → d'.file.content ≡ overwrite k page.bytes d.file.content
unfolding write_page
write_page_ok k page d d' e =
    write_all_at_ok page.bytes k d.file d'.file
      (ap (λ (r : Run DiskManager Unit). (r.0, r.1.file)) e)

sync_header_ok :
    (run : Run File Unit) (d d' : DiskManager)
    → sync_header run d ≡ (ok tt, d')
    → (run.0 ≡ ok tt) × (d'.file.content ≡ run.1.content) × (d'.file.durable ≡ run.1.content)
unfolding sync_header
sync_header_ok (ok done, f) d d' e =
    let (content, durable) =
      sync_all_ok f d'.file (ap (λ (r : Run DiskManager Unit). (r.0, r.1.file)) e) in
    (refl, content, durable)
sync_header_ok (err x, f) d d' e = cc (ap (λ (r : Run DiskManager Unit). r.0) e)
sync_header_ok (panic, f) d d' e = cc (ap (λ (r : Run DiskManager Unit). r.0) e)

-- a `save_header` that returns has written the header and made the whole file durable
pub save_header_ok :
    (d d' : DiskManager)
    → save_header d ≡ (ok tt, d')
    → (d'.file.content ≡ overwrite 0 (header_bytes d.header) d.file.content)
      × (d'.file.durable ≡ d'.file.content)
unfolding save_header
save_header_ok d d' e =
    let run = write_all_at (header_bytes d.header) 0 d.file in
    let (written, content, durable) = sync_header_ok run d d' e in
    (
      content
          ∙ write_all_at_ok (header_bytes d.header) 0 d.file run.1
              (ap (λ (x : Outcome Unit). (x, run.1)) written),
      durable ∙ sym content,
    )

pub read_page-Stands :
    (k : PageId) (page : Page) (d : DiskManager)
    → length page.bytes ≡ page_size
    → Stands k page.bytes d.file.content
    → read_page none k d ≡ ok page
unfolding read_page read_exact_at
read_page-Stands k page d whole (inside, same) =
    rw (le→leb (k + page_size) (length d.file.content) (omega (arith, whole, inside))) (
      ap (λ b. ok (record { bytes = b }))
        (subst (λ n. take n (drop k d.file.content) ≡ page.bytes) whole same))
