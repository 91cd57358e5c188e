-- ===== src/Wal/Replayable.antt =====
-- What `read_batch` reads back from the bytes that `write_batch` and crashes leave in the log.
use smol_db.Common.{
  ne→==, le→leb, lt→leb, ℕ, zero, suc, ◌+◌, ◌-◌, ◌%◌, ◌^◌, ◌≤◌, ◌<◌, ◌≡◌, ◌≢◌, refl, sym, ap, Bool,
  List, [], ◌∷◌, ◌++◌, append_assoc, append-nil, none, some, arith, length, length-append,
  take-append, drop-append, All,
}
use smol_db.Bytes.{to_le_bytes, length-to_le_bytes, from_le_bytes-to_le_bytes}
use smol_db.Error.{DbError, io, unexpected_eof}
use smol_db.Error.Outcome.{ok, err}
use smol_db.Storage.{Reader, seek, read_exact}
use smol_db.Wal.Entry.{WalEntry, IsEntry, encode, decode, size, length-encode, decode-encode}
use smol_db.Wal.Manager.{
  WalManager, frame, frames, read_payload, read_prefixed, read_entry, read_loop, read_batch,
  note_read, max_lsn_from,
}

-- a reader without faults to come
abbrev pub reader : List ℕ → Reader
reader bytes = record { rest = bytes; faults = [] }

pub read_exact-append :
    (n : ℕ) (xs ys : List ℕ) → n ≡ length xs → read_exact n (reader (xs ++ ys)) ≡ (ok xs, reader ys)
unfolding read_exact
read_exact-append n xs ys e =
    rw
      (
        le→leb n (length (xs ++ ys)) (omega (arith, length-append xs ys, e)),
        take-append xs ys n e,
        drop-append xs ys n e,
      )
      refl

pub read_exact-short :
    (n : ℕ) (xs : List ℕ)
    → length xs < n
    → read_exact n (reader xs) ≡ (err (io unexpected_eof), reader [])
unfolding read_exact
read_exact-short n xs h = rw (lt→leb n (length xs) h) refl

-- a prefix that is not 0
pub read_entry-prefix :
    (n : ℕ) (rest : List ℕ)
    → n < 2 ^ 32
    → n ≢ 0
    → read_entry (reader (to_le_bytes 4 n ++ rest)) ≡ read_payload n (read_exact n (reader rest))
unfolding read_entry read_prefixed
read_entry-prefix n rest h ne =
    rw
      (
        read_exact-append 4 (to_le_bytes 4 n) rest (sym (length-to_le_bytes 4 n)),
        from_le_bytes-to_le_bytes 4 n h,
        ne→== n 0 ne,
      )
      refl

-- the size of an entry fits the prefix and is not 0
pub encode-Bounds :
    (e : WalEntry) → IsEntry e → (0 < length (encode e)) × (length (encode e) < 2 ^ 32)
unfolding size
encode-Bounds e is = omega (arith, is.payload, length-encode e)

-- a whole frame
read_entry-frame :
    (e : WalEntry) (rest : List ℕ)
    → IsEntry e
    → read_entry (reader (frame e ++ rest)) ≡ (ok (some e), reader rest)
unfolding frame read_payload
read_entry-frame e rest is =
    let n = length (encode e) in
    let same : n % 2 ^ 32 ≡ n = omega (arith, encode-Bounds e is) in
    let whole : decode (encode e) ≡ ok e =
      rw (sym (append-nil (encode e))) (decode-encode e [] is) in
    rw
      (
        append_assoc,
        same,
        read_entry-prefix n (encode e ++ rest) (omega (arith, encode-Bounds e is))
            (omega (arith, encode-Bounds e is)),
        read_exact-append n (encode e) rest refl,
        whole,
      )
      refl

length-frame : (e : WalEntry) → 0 < length (frame e)
unfolding frame
length-frame e = omega (
  arith,
  length-append (to_le_bytes 4 (length (encode e) % 2 ^ 32)) (encode e),
  length-to_le_bytes 4 (length (encode e) % 2 ^ 32),
)

length-frames : (es : List WalEntry) → length es ≤ length (frames es)
unfolding frames
length-frames [] = omega arith
length-frames (e ∷ es) =
    omega (arith, length-frames es, length-frame e, length-append (frame e) (frames es))

pub read_loop-some :
    (fuel : ℕ) (r r' : Reader) (e : WalEntry) (batch : List WalEntry)
    → read_entry r ≡ (ok (some e), r')
    → read_loop (suc fuel) r batch ≡ read_loop fuel r' (batch ++ e ∷ [])
unfolding read_loop
read_loop-some fuel r r' e batch h = rw (read_loop, ap (λ p. p.0) h, ap (λ p. p.1) h) refl

pub read_loop-none :
    (fuel : ℕ) (r r' : Reader) (batch : List WalEntry)
    → read_entry r ≡ (ok none, r')
    → read_loop (suc fuel) r batch ≡ (ok batch, r')
unfolding read_loop
read_loop-none fuel r r' batch h = rw (read_loop, ap (λ p. p.0) h, ap (λ p. p.1) h) refl

pub read_loop-err :
    (fuel : ℕ) (r r' : Reader) (d : DbError) (batch : List WalEntry)
    → read_entry r ≡ (err d, r')
    → read_loop (suc fuel) r batch ≡ (err d, r')
unfolding read_loop
read_loop-err fuel r r' d batch h = rw (read_loop, ap (λ p. p.0) h, ap (λ p. p.1) h) refl

-- the whole frames at the head of the log
read_loop-frames :
    (es : List WalEntry) (tail : List ℕ) (batch : List WalEntry) (fuel left : ℕ)
    → fuel ≡ length es + left
    → All IsEntry es
    → read_loop fuel (reader (frames es ++ tail)) batch ≡ read_loop left (reader tail) (batch ++ es)
unfolding frames
read_loop-frames [] tail batch fuel left e all =
    let same : fuel ≡ left = omega arith in rw (same, append-nil batch) refl
read_loop-frames (e ∷ es) tail batch zero left h all = absurd (omega arith)
read_loop-frames (e ∷ es) tail batch (suc fuel) left h (is, all) =
    rw
      (
        append_assoc,
        read_loop-some fuel _ _ e batch (read_entry-frame e (frames es ++ tail) is),
        read_loop-frames es tail (batch ++ e ∷ []) fuel left (omega arith) all,
        append_assoc,
      )
      refl

-- an open log without faults to come
abbrev pub log : List ℕ → List ℕ → Bool → ℕ → ℕ → WalManager
log content durable sync count lsn = record {
  file = record { content = content; durable = durable; faults = [] };
  sync = sync;
  entry_count = count;
  flushed_lsn = lsn;
}

-- the rounds that `read_batch` has left behind the frames
rounds_left :
    (es : List WalEntry) (tail : List ℕ)
    → (g : ℕ) × (length (frames es ++ tail) + 1 ≡ length es + suc g)
rounds_left es tail = (
  length (frames es ++ tail) - length es,
  omega (arith, length-frames es, length-append (frames es) tail),
)

module _ (es : List WalEntry) (tail rest durable : List ℕ) (sync : Bool) (count lsn : ℕ)
    (all : All IsEntry es) where
  -- what is behind the frames ends the log
  pub read_batch-end :
      read_entry (reader tail) ≡ (ok none, reader rest)
      → read_batch (log (frames es ++ tail) durable sync count lsn)
        ≡ (ok es, log (frames es ++ tail) durable sync (length es) (max_lsn_from 0 es))
  unfolding read_batch note_read seek
  read_batch-end h =
      let (g, e) = rounds_left es tail in
      rw (read_loop-frames es tail [] _ (suc g) e all, read_loop-none g _ _ es h) refl

  -- what is behind the frames is refused, and the counters are left alone
  pub read_batch-refused :
      (d : DbError)
      → read_entry (reader tail) ≡ (err d, reader rest)
      → read_batch (log (frames es ++ tail) durable sync count lsn)
        ≡ (err d, log (frames es ++ tail) durable sync count lsn)
  unfolding read_batch note_read seek
  read_batch-refused d h =
      let (g, e) = rounds_left es tail in
      rw (read_loop-frames es tail [] _ (suc g) e all, read_loop-err g _ _ d es h) refl
