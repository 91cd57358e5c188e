-- ===== src/Wal/Examples.antt =====
-- Runs of the log, and the theorems about it at concrete entries.
use smol_db.Common.{
  ◌≡◌, ◌<◌, ◌≤◌, refl, true, false, [], ◌∷◌, ◌++◌, arith, ltb, if◌then◌else◌, length, take,
}
use smol_db.Bytes.{to_le_bytes, from_le_bytes}
use smol_db.Error.{corrupt_page, torn_write, invalid_wal_op, wal_payload_too_small}
use smol_db.Error.Outcome.{ok, err}
use smol_db.Storage.{append_all, sync_all, clear, seek, read_exact}
use smol_db.Wal.Entry.{
  WalEntry, insert, update, IsEntry, encode, decode, size, from_u8, as_u8, decode-encode,
}
use smol_db.Wal.Manager.{
  WalManager, frame, frames, read_payload, read_prefixed, read_entry, read_loop, note_read,
  read_batch, write_batch, flush_upto, max_lsn_from, truncate,
}
use smol_db.Wal.Replayable.{log}
use smol_db.Wal.Laws.{
  read_batch-write_batch, read_batch-torn_write, write_batch-durable, flush_upto-write_batch,
}
use smol_db.Wal.Total.{Returns, read_batch-Returns}

abbrev first_entry : WalEntry
first_entry = record {
  opcode = insert;
  lsn = 300;
  page_id = 4096;
  row_id = 7;
  payload = 1 ∷ 2 ∷ [];
}

abbrev second_entry : WalEntry
second_entry = record { opcode = update; lsn = 301; page_id = 8192; row_id = 9; payload = [] }

first_entry-IsEntry : IsEntry first_entry
first_entry-IsEntry = record {
  lsn = omega arith;
  page_id = omega arith;
  row_id = omega arith;
  payload = omega arith;
}

second_entry-IsEntry : IsEntry second_entry
second_entry-IsEntry = record {
  lsn = omega arith;
  page_id = omega arith;
  row_id = omega arith;
  payload = omega arith;
}

encoded_entry :
    encode first_entry
    ≡ 0 ∷ 44 ∷ 1 ∷ 0 ∷ 0 ∷ 0 ∷ 0 ∷ 0 ∷ 0 ∷ 0 ∷ 16 ∷ 0 ∷ 0 ∷ 0 ∷ 0 ∷ 0 ∷ 0 ∷ 7 ∷ 0 ∷ 0 ∷ 0 ∷ 0 ∷ 0
      ∷ 0 ∷ 0 ∷ 2 ∷ 0 ∷ 0 ∷ 0 ∷ 1 ∷ 2 ∷ []
unfolding encode as_u8 to_le_bytes
encoded_entry = refl

decode_bad_opcode :
    decode (3 ∷ take 30 (encode first_entry)) ≡ err (corrupt_page (invalid_wal_op 3))
unfolding decode encode as_u8 to_le_bytes from_le_bytes from_u8
decode_bad_opcode = refl

decode_cut_payload :
    decode (take 30 (encode first_entry)) ≡ err (corrupt_page (wal_payload_too_small 31 30))
unfolding decode encode as_u8 to_le_bytes from_le_bytes from_u8
decode_cut_payload = refl

decode-encode_example : decode (encode first_entry ++ 5 ∷ []) ≡ ok first_entry
decode-encode_example = decode-encode first_entry (5 ∷ []) first_entry-IsEntry

read_back :
    (read_batch (write_batch (first_entry ∷ second_entry ∷ []) (log [] [] true 0 0)).1).0
    ≡ ok (first_entry ∷ second_entry ∷ [])
unfolding read_batch write_batch append_all sync_all seek note_read read_loop read_entry
    read_prefixed read_payload read_exact frames frame encode decode from_u8 as_u8 to_le_bytes
    from_le_bytes max_lsn_from
read_back = refl

truncated :
    read_batch (truncate (log (frames (first_entry ∷ [])) [] true 1 300)).1
    ≡ (ok [], log [] [] true 0 0)
unfolding truncate clear sync_all read_batch seek note_read read_loop read_entry read_prefixed
    read_exact max_lsn_from
truncated = refl

read_batch-write_batch_example :
    (w : WalManager) × (write_batch
        (second_entry ∷ [])
        (log (frames (first_entry ∷ [])) [] true 1 300)
      ≡ (ok tt, w))
    × (read_batch w ≡ (
      ok (first_entry ∷ second_entry ∷ []),
      record w { entry_count = 2; flushed_lsn = max_lsn_from 0 (first_entry ∷ second_entry ∷ []) },
    ))
read_batch-write_batch_example =
    read_batch-write_batch (first_entry ∷ []) (second_entry ∷ []) [] true 1 300
      (first_entry-IsEntry, tt) (second_entry-IsEntry, tt)

short_frame : 20 < length (frame first_entry)
unfolding frame encode to_le_bytes
short_frame = omega arith

read_batch-torn_write_example :
    let content = frames [] ++ take 20 (frame first_entry) in
    read_batch (log content [] true 3 5) ≡ (
      if ltb 20 4
      then (ok [], log content [] true 0 0)
      else (err (corrupt_page (torn_write (size first_entry))), log content [] true 3 5))
unfolding max_lsn_from
read_batch-torn_write_example =
    read_batch-torn_write [] first_entry 20 [] true 3 5 tt first_entry-IsEntry short_frame

synced_run : (write_batch (first_entry ∷ []) (log [] [] true 0 0)).0 ≡ ok tt
unfolding write_batch append_all sync_all
synced_run = refl

write_batch-durable_example :
    ((write_batch (first_entry ∷ []) (log [] [] true 0 0)).1.file.durable
      ≡ [] ++ frames (first_entry ∷ []))
    × ((write_batch (first_entry ∷ []) (log [] [] true 0 0)).1.flushed_lsn
        ≡ max_lsn_from 0 (first_entry ∷ []))
write_batch-durable_example =
    write_batch-durable first_entry [] (log [] [] true 0 0) refl synced_run

highest_lsn : 300 ≤ max_lsn_from 0 (first_entry ∷ [])
unfolding max_lsn_from
highest_lsn = omega arith

flush_upto-write_batch_example :
    (w : WalManager) × (write_batch (first_entry ∷ []) (log [] [] false 0 0) ≡ (ok tt, w))
    × (flush_upto 300 w ≡ (ok tt, w))
    × (w.file.content ≡ frames (first_entry ∷ []))
    × (w.file.durable ≡ [])
flush_upto-write_batch_example = flush_upto-write_batch first_entry [] [] [] 0 0 300 highest_lsn

read_batch-Returns_example : Returns (read_batch (log (5 ∷ 0 ∷ 0 ∷ 0 ∷ 9 ∷ []) [] true 0 0)).0
read_batch-Returns_example = read_batch-Returns (log (5 ∷ 0 ∷ 0 ∷ 0 ∷ 9 ∷ []) [] true 0 0)
