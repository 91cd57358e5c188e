-- ===== src/Wal/Manager.antt =====
-- `WalManager` (wal.rs). The log file is open for appending; what a read sees is its content.
use smol_db.Common.{
  ℕ, zero, suc, ◌+◌, ◌%◌, ◌^◌, max, Bool, List, [], ◌∷◌, ◌++◌, Option, none, some, ltb, ◌==◌,
  if◌then◌else◌, length,
}
use smol_db.Bytes.{to_le_bytes, from_le_bytes}
use smol_db.Error.{DbError, io, unexpected_eof, corrupt_page, torn_write}
use smol_db.Error.Outcome.{Outcome, ok, err, panic, ◌>>=◌, Run}
use smol_db.Storage.{File, Reader, append_all, sync_all, clear, seek, read_exact}
use smol_db.Wal.Entry.{WalEntry, encode, decode}

pub record WalManager : Type 0 where
  pub file : File
  pub sync : Bool
  pub entry_count : ℕ
  pub flushed_lsn : ℕ

-- `e?` for a call on the file
abbrev pub on_file :
    {A : Type 0} → WalManager → Run File Unit → (WalManager → Run WalManager A) → Run WalManager A
on_file w (ok done, f) k = k (record w { file = f })
on_file w (err e, f) k = (err e, record w { file = f })
on_file w (panic, f) k = (panic, record w { file = f })

-- `open`, once the file is there
unfoldable pub open_log : File → Bool → WalManager
open_log f sync = record { file = f; sync = sync; entry_count = 0; flushed_lsn = 0 }

-- `WalFlusher::flush_upto`
unfoldable pub flush_upto : ℕ → WalManager → Run WalManager Unit
flush_upto lsn w =
    if ltb w.flushed_lsn lsn
    then on_file w (sync_all w.file) (λ w'. (ok tt, record w' { flushed_lsn = lsn }))
    else (ok tt, w)

unfoldable pub sync_log : WalManager → Run WalManager Unit
sync_log w = on_file w (sync_all w.file) (λ w'. (ok tt, w'))

-- the highest lsn seen, from `highest` on
unfoldable pub max_lsn_from : ℕ → List WalEntry → ℕ
max_lsn_from highest [] = highest
max_lsn_from highest (e ∷ batch) = max_lsn_from (max highest e.lsn) batch

-- an entry behind its length prefix
unfoldable pub frame : WalEntry → List ℕ
frame e = to_le_bytes 4 (length (encode e) % 2 ^ 32) ++ encode e

-- the buffer that `write_batch` builds
unfoldable pub frames : List WalEntry → List ℕ
frames [] = []
frames (e ∷ batch) = frame e ++ frames batch

abbrev pub note_batch : List WalEntry → WalManager → Run WalManager Unit
note_batch batch w = (
  ok tt,
  record w { flushed_lsn = max_lsn_from 0 batch; entry_count = w.entry_count + length batch },
)

unfoldable pub write_batch : List WalEntry → WalManager → Run WalManager Unit
write_batch [] w = (ok tt, w)
write_batch (e ∷ es) w = on_file w (append_all (frames (e ∷ es)) w.file) λ w'.
    if w'.sync then on_file w' (sync_all w'.file) (note_batch (e ∷ es)) else note_batch (e ∷ es) w'

unfoldable pub truncate : WalManager → Run WalManager Unit
truncate w = on_file w (clear w.file) λ w1. on_file w1 (seek w1.file) λ w2.
    let reset : WalManager → Run WalManager Unit =
      λ v. (ok tt, record v { flushed_lsn = 0; entry_count = 0 }) in
    if w2.sync then on_file w2 (sync_all w2.file) reset else reset w2

-- the end of the file inside an entry is a torn write
abbrev pub torn : ℕ → DbError → DbError
torn entry_len (io unexpected_eof) = corrupt_page (torn_write entry_len)
torn entry_len e = e

-- an entry of `entry_len` bytes, from the read of its buffer
unfoldable pub read_payload : ℕ → Run Reader (List ℕ) → Run Reader (Option WalEntry)
read_payload entry_len (ok buffer, r) = (decode buffer >>= (λ e. ok (some e)), r)
read_payload entry_len (err e, r) = (err (torn entry_len e), r)
read_payload entry_len (panic, r) = (panic, r)

-- an entry, from the read of its length prefix: the end of the file and the prefix 0 end the log
unfoldable pub read_prefixed : Run Reader (List ℕ) → Run Reader (Option WalEntry)
read_prefixed (ok len_buf, r) =
    let entry_len = from_le_bytes len_buf in
    if entry_len == 0 then (ok none, r) else read_payload entry_len (read_exact entry_len r)
read_prefixed (err (io unexpected_eof), r) = (ok none, r)
read_prefixed (err e, r) = (err e, r)
read_prefixed (panic, r) = (panic, r)

unfoldable pub read_entry : Reader → Run Reader (Option WalEntry)
read_entry r = read_prefixed (read_exact 4 r)

-- The loop of `read_batch`. Each round that goes on takes four bytes at least, so as many rounds
-- as there are bytes and one more are enough.
unfoldable pub read_loop : ℕ → Reader → List WalEntry → Run Reader (List WalEntry)
read_loop zero r batch = (panic, r)
read_loop (suc fuel) r batch =
    let (result, r') = read_entry r in
    elim result [
      | ok next ↦ elim next [ none ↦ (ok batch, r') | some e ↦ read_loop fuel r' (batch ++ e ∷ []) ]
      | err e ↦ (err e, r')
      | panic ↦ (panic, r')
    ]

-- the end of `read_batch`: the counters are set when the whole log was read
unfoldable pub note_read : Outcome (List WalEntry) → WalManager → Run WalManager (List WalEntry)
note_read (ok batch) w =
    (ok batch, record w { flushed_lsn = max_lsn_from 0 batch; entry_count = length batch })
note_read (err e) w = (err e, w)
note_read panic w = (panic, w)

unfoldable pub read_batch : WalManager → Run WalManager (List WalEntry)
read_batch w = on_file w (seek w.file) λ w'.
    let reader : Reader = record { rest = w'.file.content; faults = w'.file.faults } in
    let (result, r) = read_loop (length w'.file.content + 1) reader [] in
    note_read result (record w' { file = record w'.file { faults = r.faults } })
