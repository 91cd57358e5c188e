-- ===== src/Recovery/Init.antt =====
-- `init` (recovery.rs): the log outlives every replay that fails.
use smol_db.Common.{ℕ, ◌≡◌, refl, ap, ◌∙◌, ◌⊎◌, inl, inr, List, [], ◌∷◌, length, ◌+◌, Option-cases}
use smol_db.Error.Outcome.{Outcome, ok, err, panic, Run}
use smol_db.Error.Method.{Method, ◌>>◌, go_on, put_back, return}
use smol_db.Storage.{File, seek, next_fault, called}
use smol_db.Page.{PageId}
use smol_db.Wal.Entry.{WalEntry}
use smol_db.Wal.Manager.{WalManager, read_batch, read_loop, note_read, truncate, sync_log}
use smol_db.Pool.{BufferPool, WalFlusher}
use smol_db.Recovery.{Engine, on_wal, on_pool, flushed, replay, recover, init}

note_read-file :
    (result : Outcome (List WalEntry)) (w : WalManager) → (note_read result w).1.file ≡ w.file
unfolding note_read
note_read-file (ok batch) w = refl
note_read-file (err e) w = refl
note_read-file panic w = refl

-- what a read does not change
read_batch-content : (w : WalManager) → (read_batch w).1.file.content ≡ w.file.content
unfolding read_batch seek
read_batch-content w = elim (Option-cases (next_fault w.file.faults)) [
  | inl fine ↦
      let f = called w.file in
      let (result, r) =
        read_loop (length f.content + 1) (record { rest = f.content; faults = f.faults }) [] in
      rw (read_batch, seek, fine)
        (ap (λ (f : File). f.content)
          (note_read-file result (record w { file = record f { faults = r.faults } })))
  | inr (k, failed) ↦ rw (read_batch, seek, failed) refl
]

module _ {W : Type 0} (p : BufferPool W) where
  -- the end of `recover`, from the replay on
  replayed :
      (w : WalManager) (run : Run (BufferPool W) ℕ) (rest : ℕ → Method (Engine W) ℕ)
      → ((go_on (put_back (λ q. record { wal = w; buf_pool = q }) run) rest).1.wal.file.content
          ≡ w.file.content)
        ⊎ ((max_lsn : ℕ) × (run.0 ≡ ok max_lsn))
  replayed w (ok max_lsn, q) rest = inr (max_lsn, refl)
  replayed w (err e, q) rest = inl refl
  replayed w (panic, q) rest = inl refl

module _ {W : Type 0} ⦃flusher : WalFlusher W⦄ (order : List PageId) (p : BufferPool W) where
  abbrev Replayed : Run WalManager (List WalEntry) → Type 0
  Replayed run =
      (batch : List WalEntry) × (max_lsn : ℕ) × (run.0 ≡ ok batch)
      × ((replay order batch p).0 ≡ ok max_lsn)

  -- `init`, from the read of the log on
  loaded :
      (run : Run WalManager (List WalEntry))
      → ((go_on
            (put_back (λ w. record { wal = w; buf_pool = p }) run)
            (recover order)).1.wal.file.content
          ≡ run.1.file.content)
        ⊎ Replayed run
  unfolding recover flushed on_pool
  loaded (ok [], w) = inl refl
  loaded (ok (e ∷ batch), w) =
      elim (replayed p w (replay order (e ∷ batch) p)
        (λ max_lsn. on_wal truncate >> (on_wal sync_log >> return max_lsn))) [
          | inl same ↦ inl same
          | inr (max_lsn, done) ↦ inr (e ∷ batch, max_lsn, refl, done)
        ]
  loaded (err x, w) = inl refl
  loaded (panic, w) = inl refl

module _ {W : Type 0} ⦃flusher : WalFlusher W⦄ where
  -- `init` leaves the log as it found it, unless it has read a batch from it whose replay has returned,
  -- its last step, the flush of all pages, included.
  pub init-Kept :
      (order : List PageId) (s : Engine W)
      → ((init order s).1.wal.file.content ≡ s.wal.file.content)
        ⊎ ((batch : List WalEntry) × (max_lsn : ℕ) × ((read_batch s.wal).0 ≡ ok batch)
            × ((replay order batch s.buf_pool).0 ≡ ok max_lsn))
  unfolding init on_wal
  init-Kept order s = elim (loaded order s.buf_pool (read_batch s.wal)) [
    | inl same ↦ inl (same ∙ read_batch-content s.wal)
    | inr done ↦ inr done
  ]
