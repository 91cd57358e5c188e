-- ===== src/Wal/Laws.antt =====
-- What a client of the log (wal.rs) relies on: batches are read back, torn writes are told from
-- ends of the log, and what is reported as flushed is durable where the manager syncs.
use smol_db.Common.{
  All-append, ℕ, ◌+◌, ◌-◌, ◌%◌, ◌^◌, ◌≤◌, ◌<◌, ◌≡◌, refl, sym, subst, take_past, Bool, true, false,
  List, [], ◌∷◌, ◌++◌, append_assoc, append-nil, none, arith, ltb, lt→ltb, le→ltb, dec_lt,
  if◌then◌else◌, length, length-append, length-take, take, All,
}
use smol_db.Bytes.{to_le_bytes, length-to_le_bytes}
use smol_db.Error.{corrupt_page, torn_write}
use smol_db.Error.Outcome.{ok, err}
use smol_db.Storage.{append_all, sync_all}
use smol_db.Wal.Entry.{WalEntry, IsEntry, encode, size, length-encode}
use smol_db.Wal.Manager.{
  WalManager, frame, frames, read_payload, read_prefixed, read_entry, read_batch, write_batch,
  flush_upto, max_lsn_from,
}
use smol_db.Wal.Replayable.{
  reader, log, read_batch-end, read_batch-refused, read_exact-short, read_entry-prefix,
  encode-Bounds,
}

read_entry-short :
    (bytes : List ℕ) → length bytes < 4 → read_entry (reader bytes) ≡ (ok none, reader [])
unfolding read_entry read_prefixed
read_entry-short bytes h = rw (read_exact-short 4 bytes h) refl

pub frames-append : (xs ys : List WalEntry) → frames (xs ++ ys) ≡ frames xs ++ frames ys
unfolding frames
frames-append [] ys = refl
frames-append (x ∷ xs) ys = rw (frames-append xs ys, append_assoc) refl

-- A log that holds whole entries and fewer than four bytes more is read as these entries.
pub read_batch-frames :
    (es : List WalEntry) (tail durable : List ℕ) (sync : Bool) (count lsn : ℕ)
    → All IsEntry es
    → length tail < 4
    → read_batch (log (frames es ++ tail) durable sync count lsn)
      ≡ (ok es, log (frames es ++ tail) durable sync (length es) (max_lsn_from 0 es))
read_batch-frames es tail durable sync count lsn all short =
    read_batch-end es tail [] durable sync count lsn all (read_entry-short tail short)

-- the state that `write_batch` leaves where no call fails
write_batch-log :
    (e : WalEntry) (es : List WalEntry) (content durable : List ℕ) (sync : Bool) (count lsn : ℕ)
    → write_batch (e ∷ es) (log content durable sync count lsn) ≡ (
      ok tt,
      log
          (content ++ frames (e ∷ es))
          (if sync then content ++ frames (e ∷ es) else durable)
          sync
          (count + length (e ∷ es))
          (max_lsn_from 0 (e ∷ es)),
    )
unfolding write_batch append_all sync_all
write_batch-log e es content durable true count lsn = refl
write_batch-log e es content durable false count lsn = refl

-- a log of whole frames
read_batch-log :
    (es : List WalEntry) (durable : List ℕ) (sync : Bool) (count lsn : ℕ)
    → All IsEntry es
    → read_batch (log (frames es) durable sync count lsn)
      ≡ (ok es, log (frames es) durable sync (length es) (max_lsn_from 0 es))
read_batch-log es durable sync count lsn all =
    subst
      (λ c.
        read_batch (log c durable sync count lsn)
        ≡ (ok es, log c durable sync (length es) (max_lsn_from 0 es)))
      (append-nil (frames es)) (read_batch-frames es [] durable sync count lsn all (omega arith))

-- On a file whose calls succeed, a batch that is written behind the entries of the log is read
-- back behind them, and the counters are then those of the whole log.
pub read_batch-write_batch :
    (old batch : List WalEntry) (durable : List ℕ) (sync : Bool) (count lsn : ℕ)
    → All IsEntry old
    → All IsEntry batch
    → (w : WalManager) × (write_batch batch (log (frames old) durable sync count lsn) ≡ (ok tt, w))
      × (read_batch w ≡ (
        ok (old ++ batch),
        record w {
          entry_count = length (old ++ batch);
          flushed_lsn = max_lsn_from 0 (old ++ batch);
        },
      ))
unfolding write_batch
read_batch-write_batch old [] durable sync count lsn ho hb =
    (_, refl, rw (append-nil old) (read_batch-log old durable sync count lsn ho))
read_batch-write_batch old (e ∷ es) durable sync count lsn ho hb = (
  _,
  write_batch-log e es (frames old) durable sync count lsn,
  rw (sym (frames-append old (e ∷ es)))
      (read_batch-log (old ++ e ∷ es) _ sync _ _ (All-append IsEntry old (e ∷ es) ho hb)),
)

-- a prefix that promises more than there is
read_entry-torn :
    (n : ℕ) (part : List ℕ)
    → n < 2 ^ 32
    → length part < n
    → read_entry (reader (to_le_bytes 4 n ++ part)) ≡ (err (corrupt_page (torn_write n)), reader [])
unfolding read_payload
read_entry-torn n part h short =
    rw (read_entry-prefix n part h (omega arith), read_exact-short n part short) refl

-- a frame cut off behind its prefix
frame-cut :
    (e : WalEntry) (k : ℕ)
    → IsEntry e
    → take (4 + k) (frame e) ≡ to_le_bytes 4 (size e) ++ take k (encode e)
unfolding frame
frame-cut e k is =
    let n = length (encode e) in
    let same : n % 2 ^ 32 ≡ size e = omega (arith, encode-Bounds e is, length-encode e) in
    rw
      (
        same,
        take_past (to_le_bytes 4 (size e)) (encode e) (4 + k) k
            (omega (arith, length-to_le_bytes 4 (size e))),
      )
      refl

length-frame-size : (e : WalEntry) → length (frame e) ≡ 4 + size e
unfolding frame
length-frame-size e = omega (
  arith,
  length-encode e,
  length-append (to_le_bytes 4 (length (encode e) % 2 ^ 32)) (encode e),
  length-to_le_bytes 4 (length (encode e) % 2 ^ 32),
)

-- A frame that a crash has cut off: where fewer than four bytes of it are there it is passed over,
-- and otherwise the read is refused as a torn write, with the manager left as it was.
pub read_batch-torn_write :
    (es : List WalEntry) (e : WalEntry) (k : ℕ) (durable : List ℕ) (sync : Bool) (count lsn : ℕ)
    → All IsEntry es
    → IsEntry e
    → k < length (frame e)
    → let content = frames es ++ take k (frame e) in
      read_batch (log content durable sync count lsn) ≡ (
        if ltb k 4
        then (ok es, log content durable sync (length es) (max_lsn_from 0 es))
        else (err (corrupt_page (torn_write (size e))), log content durable sync count lsn))
read_batch-torn_write es e k durable sync count lsn all is h =
    let cut = take k (frame e) in
    let long : length cut ≡ k = omega (arith, h, length-take k (frame e)) in
    elim (dec_lt k 4) [
      | yes short ↦
          rw (lt→ltb k 4 short)
            (read_batch-frames es cut durable sync count lsn all (omega (arith, long)))
      | no far ↦
          let j = k - 4 in
          let whole : k ≡ 4 + j = omega arith in
          let part = take j (encode e) in
          rw (le→ltb k 4 (omega arith)) (
            read_batch-refused es cut [] durable sync count lsn all
              (corrupt_page (torn_write (size e)))
              (rw (whole, frame-cut e j is)
                (read_entry-torn (size e) part (omega (arith, encode-Bounds e is, length-encode e))
                  (omega (arith, h, length-frame-size e, length-take j (encode e))))))
    ]

-- Where the manager syncs, a batch of one entry at least that is reported as written is durable, with
-- the log before it, whatever calls fail earlier or later.
pub write_batch-durable :
    (e : WalEntry) (es : List WalEntry) (w : WalManager)
    → w.sync ≡ true
    → (write_batch (e ∷ es) w).0 ≡ ok tt
    → ((write_batch (e ∷ es) w).1.file.durable ≡ w.file.content ++ frames (e ∷ es))
      × ((write_batch (e ∷ es) w).1.flushed_lsn ≡ max_lsn_from 0 (e ∷ es))
unfolding write_batch append_all sync_all
write_batch-durable e es w syncs h = ground arith

-- Without syncing, `flush_upto` of a written batch reports success although no byte of the batch
-- has become durable.
pub flush_upto-write_batch :
    (e : WalEntry) (es : List WalEntry) (content durable : List ℕ) (count lsn upto : ℕ)
    → upto ≤ max_lsn_from 0 (e ∷ es)
    → (w : WalManager) × (write_batch (e ∷ es) (log content durable false count lsn) ≡ (ok tt, w))
      × (flush_upto upto w ≡ (ok tt, w))
      × (w.file.content ≡ content ++ frames (e ∷ es))
      × (w.file.durable ≡ durable)
unfolding flush_upto
flush_upto-write_batch e es content durable count lsn upto h = (
  _,
  write_batch-log e es content durable false count lsn,
  rw (le→ltb (max_lsn_from 0 (e ∷ es)) upto h) refl,
  refl,
  refl,
)
