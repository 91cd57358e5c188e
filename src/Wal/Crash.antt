-- ===== src/Wal/Crash.antt =====
-- A batch of which only a part reached the log: `write_batch` after a failed write (wal.rs), and
-- the read that follows.
use smol_db.Common.{ℕ, ◌≡◌, ◌⊎◌, Bool, List, [], ◌∷◌, ◌++◌, some, take}
use smol_db.Error.{corrupt_page, torn_write}
use smol_db.Error.Outcome.{Outcome, ok, err}
use smol_db.Wal.Entry.{WalEntry}
use smol_db.Wal.Manager.{WalManager}

-- an open log whose next call fails, a write after `k` bytes
abbrev pub failing : List ℕ → List ℕ → ℕ → Bool → ℕ → ℕ → WalManager
failing content durable k sync count lsn = record {
  file = record { content = content; durable = durable; faults = some k ∷ [] };
  sync = sync;
  entry_count = count;
  flushed_lsn = lsn;
}

-- what a read may return of a log with the entries `old`, behind which a batch was being written
abbrev pub IsCutShort : List WalEntry → List WalEntry → Outcome (List WalEntry) → Type 0
IsCutShort old batch r =
    ((j : ℕ) × (r ≡ ok (old ++ take j batch))) ⊎ ((n : ℕ) × (r ≡ err (corrupt_page (torn_write n))))
