-- ===== src/Conformance/Wal.antt =====
-- The tests of src/storage/wal.rs.
use smol_db.Common.{
  ◌≡◌, refl, Bool, true, false, List, [], ◌∷◌, ◌==◌, ◌&&◌, ltb, length, replicate, get_elem?,
}
use smol_db.Bytes.{to_le_bytes, from_le_bytes}
use smol_db.Error.{corrupt_page, torn_write}
use smol_db.Error.Outcome.{Outcome, ok, err, panic, or_panic, ◌>>=◌}
use smol_db.Storage.{append_all, sync_all, clear, seek, read_exact}
use smol_db.Wal.Entry.{WalEntry, insert, update, delete, new, as_u8, from_u8, encode, decode}
use smol_db.Wal.Manager.{
  open_log, write_batch, sync_log, read_batch, truncate, flush_upto, frames, frame, max_lsn_from,
  note_read, read_loop, read_entry, read_prefixed, read_payload,
}
use smol_db.Conformance.{
  Test, assert, assert_eq, is_equal, ◌>>◌, new_file, unwrap, unwrap_run, is_ok, assert_err,
}

-- the derived `==` of entries
unfoldable same_entry : WalEntry → WalEntry → Bool
same_entry a b =
    (as_u8 a.opcode == as_u8 b.opcode)
    && ((a.lsn == b.lsn)
        && ((a.page_id == b.page_id) && ((a.row_id == b.row_id) && is_equal a.payload b.payload)))

unfoldable same_batch : List WalEntry → List WalEntry → Bool
same_batch [] [] = true
same_batch (a ∷ xs) (b ∷ ys) = same_entry a b && same_batch xs ys
same_batch [] (b ∷ ys) = false
same_batch (a ∷ xs) [] = false

abbrev original_entry : WalEntry
original_entry = record {
  opcode = update;
  lsn = 1048576;
  page_id = 8192;
  row_id = 42;
  payload = 10 ∷ 20 ∷ 30 ∷ 40 ∷ [];
}

unfoldable test_wal_entry_symmetry_and_layout : Test
test_wal_entry_symmetry_and_layout = do
  assert_eq (length (encode original_entry)) 33
  first ← or_panic (get_elem? (encode original_entry) 0)
  assert_eq first (as_u8 update)
  decoded ← unwrap (decode (encode original_entry))
  assert (same_entry original_entry decoded)

unfoldable test_wal_entry_decode_truncated_buffer : Test
test_wal_entry_decode_truncated_buffer = assert_err (decode (replicate 10 0))

abbrev batch_out : List WalEntry
batch_out =
    new insert 10 1 0 (1 ∷ 2 ∷ 3 ∷ [])
    ∷ new update 11 1 0 (6 ∷ 9 ∷ 6 ∷ 9 ∷ [])
    ∷ new delete 12 2 5 []
    ∷ []

unfoldable test_wal_manager_batch_write_and_read_roundtrip : Test
test_wal_manager_batch_write_and_read_roundtrip = do
  (_, wal1) ← unwrap_run (write_batch batch_out (open_log new_file true))
  (_, wal2) ← unwrap_run (sync_log wal1)
  assert_eq wal2.entry_count 3
  assert_eq wal2.flushed_lsn 12
  (batch_in, wal3) ← unwrap_run (read_batch (open_log wal2.file true))
  assert_eq (length batch_in) 3
  assert (same_batch batch_out batch_in)

-- `Err(DbError::CorruptPage(msg))` with the message of a torn write
abbrev assert_torn : {A : Type 0} → Outcome A → Test
assert_torn (err (corrupt_page (torn_write n))) = ok tt
assert_torn (err e) = panic
assert_torn (ok a) = panic
assert_torn panic = panic

unfoldable test_wal_manager_torn_write_detection : Test
test_wal_manager_torn_write_detection = do
  (_, wal1) ←
      unwrap_run (write_batch (new insert 1 10 1 (100 ∷ 200 ∷ []) ∷ []) (open_log new_file false))
  (_, wal2) ← unwrap_run (sync_log wal1)
  (_, file1) ← unwrap_run (append_all (to_le_bytes 4 50) wal2.file)
  (_, file2) ← unwrap_run (append_all (replicate 49 0) file1)
  (_, file3) ← unwrap_run (sync_all file2)
  assert_torn (read_batch (open_log file3 false)).0

unfoldable test_wal_manager_truncation_reclaims_disk_space : Test
test_wal_manager_truncation_reclaims_disk_space = do
  (_, wal1) ←
      unwrap_run (write_batch (new insert 50 1 1 (replicate 1000 0) ∷ []) (open_log new_file false))
  assert (ltb 1000 (length wal1.file.content))
  (_, wal2) ← unwrap_run (truncate wal1)
  assert_eq (length wal2.file.content) 0
  assert_eq wal2.entry_count 0
  assert_eq wal2.flushed_lsn 0

unfoldable test_wal_flusher_enforces_lsn : Test
test_wal_flusher_enforces_lsn = do
  (_, wal1) ←
      unwrap_run (write_batch (new insert 100 5 1 (1 ∷ 2 ∷ 4 ∷ []) ∷ []) (open_log new_file false))
  assert_eq wal1.flushed_lsn 100
  assert (is_ok (flush_upto 100 wal1).0)

wal_tests :
    (test_wal_entry_symmetry_and_layout ≡ ok tt)
    × (test_wal_entry_decode_truncated_buffer ≡ ok tt)
    × (test_wal_manager_batch_write_and_read_roundtrip ≡ ok tt)
    × (test_wal_manager_torn_write_detection ≡ ok tt)
    × (test_wal_manager_truncation_reclaims_disk_space ≡ ok tt)
    × (test_wal_flusher_enforces_lsn ≡ ok tt)
unfolding test_wal_entry_symmetry_and_layout test_wal_entry_decode_truncated_buffer
    test_wal_manager_batch_write_and_read_roundtrip test_wal_manager_torn_write_detection
    test_wal_manager_truncation_reclaims_disk_space test_wal_flusher_enforces_lsn same_batch
    same_entry new as_u8 from_u8 encode decode open_log write_batch sync_log read_batch truncate
    flush_upto frames frame max_lsn_from note_read read_loop read_entry read_prefixed read_payload
    append_all sync_all clear seek read_exact to_le_bytes from_le_bytes
wal_tests = (refl, refl, refl, refl, refl, refl)
