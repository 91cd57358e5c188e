-- ===== src/Storage.antt =====
-- The open files of the engine (`std::fs::File`), as the calls of page.rs and wal.rs use them.
-- `content` is what a read sees, `durable` what the last completed `sync_all` has put on the disk.
-- A system call may fail: each takes the head of `faults`, `none` for success and `some k` for a
-- failure, of a write after `k` bytes; past the end of the list every call succeeds.
use smol_db.Common.{
  ◌+◌, ◌-◌, replicate, ℕ, List, [], ◌∷◌, ◌++◌, Option, none, some, leb, if◌then◌else◌, length, take,
  drop,
}
use smol_db.Error.{unexpected_eof, other, io}
use smol_db.Error.Outcome.{Outcome, ok, err, Run}

pub record File : Type 0 where
  pub content : List ℕ
  pub durable : List ℕ
  pub faults : List (Option ℕ)

-- the outcome of the next system call
abbrev pub next_fault : List (Option ℕ) → Option ℕ
next_fault [] = none
next_fault (f ∷ fs) = f

abbrev pub later_faults : List (Option ℕ) → List (Option ℕ)
later_faults [] = []
later_faults (f ∷ fs) = fs

abbrev pub called : File → File
called f = record f { faults = later_faults f.faults }

-- `write_all` on a file that is open for appending
unfoldable pub append_all : List ℕ → File → Run File Unit
append_all bytes f = elim (next_fault f.faults) [
  | none ↦ (ok tt, record (called f) { content = f.content ++ bytes })
  | some k ↦ (err (io other), record (called f) { content = f.content ++ take k bytes })
]

unfoldable pub sync_all : File → Run File Unit
sync_all f = elim (next_fault f.faults) [
  | none ↦ (ok tt, record (called f) { durable = f.content })
  | some k ↦ (err (io other), called f)
]

-- `set_len(0)`
unfoldable pub clear : File → Run File Unit
clear f = elim (next_fault f.faults) [
  | none ↦ (ok tt, record (called f) { content = [] })
  | some k ↦ (err (io other), called f)
]

-- `seek`: the position matters to reads alone, which start anew after it
unfoldable pub seek : File → Run File Unit
seek f = elim (next_fault f.faults) [
  | none ↦ (ok tt, called f)
  | some k ↦ (err (io other), called f)
]

-- A `BufReader` at work: what is left to read, and the faults to come.
pub record Reader : Type 0 where
  pub rest : List ℕ
  pub faults : List (Option ℕ)

-- `read_exact` into a buffer of `n` bytes
unfoldable pub read_exact : ℕ → Reader → Run Reader (List ℕ)
read_exact n r = elim (next_fault r.faults) [
  | none ↦
      if leb n (length r.rest)
      then (ok (take n r.rest), record { rest = drop n r.rest; faults = later_faults r.faults })
      else (err (io unexpected_eof), record { rest = []; faults = later_faults r.faults })
  | some k ↦ (err (io other), record r { faults = later_faults r.faults })
]

-- the bytes from `offset` on replaced; a gap behind the end is filled with zeros
abbrev pub overwrite : ℕ → List ℕ → List ℕ → List ℕ
overwrite offset bytes content =
    let padded = content ++ replicate (offset - length content) 0 in
    take offset padded ++ (bytes ++ drop (offset + length bytes) padded)

-- `write_all_at`
unfoldable pub write_all_at : List ℕ → ℕ → File → Run File Unit
write_all_at bytes offset f = elim (next_fault f.faults) [
  | none ↦ (ok tt, record (called f) { content = overwrite offset bytes f.content })
  | some k ↦
      (err (io other), record (called f) { content = overwrite offset (take k bytes) f.content })
]

-- `read_exact_at` of `n` bytes; the file can be read without being changed, so that the fault is
-- an argument
unfoldable pub read_exact_at : ℕ → ℕ → Option ℕ → File → Outcome (List ℕ)
read_exact_at n offset (some k) f = err (io other)
read_exact_at n offset none f =
    if leb (offset + n) (length f.content)
    then ok (take n (drop offset f.content))
    else err (io unexpected_eof)
