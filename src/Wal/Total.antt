-- ===== src/Wal/Total.antt =====
-- `read_batch` (wal.rs) returns on every log, whatever its bytes are and whatever calls fail: the
-- rounds of its loop are enough, and nothing in it panics.
use smol_db.Common.{
  Option-cases, ℕ, zero, suc, ◌+◌, ◌≤◌, ◌<◌, Bool-cases, ◌≡◌, refl, Bool, true, false, inl, inr,
  List, [], ◌∷◌, ◌++◌, Option, none, some, arith, ltb, ◌==◌, if◌then◌else◌, length, length-drop,
}
use smol_db.Bytes.{from_le_bytes}
use smol_db.Error.{corrupt_page, wal_payload_too_small}
use smol_db.Error.Outcome.{Outcome, ok, err, panic, ◌>>=◌, Run}
use smol_db.Storage.{Reader, next_fault, later_faults, seek, read_exact}
use smol_db.Wal.Entry.{WalEntry, WalOp, from_u8, first, slice, slice_lem, uint, decode}
use smol_db.Wal.Manager.{
  WalManager, read_payload, read_prefixed, read_entry, read_loop, note_read, read_batch,
}
use smol_db.Wal.Replayable.{read_loop-some, read_loop-none, read_loop-err}

-- not a panic
abbrev pub Returns : {A : Type 0} → Outcome A → Type 0
Returns (ok a) = Unit
Returns (err e) = Unit
Returns panic = ⊥

Returns-bind :
    {A B : Type 0} (x : Outcome A) (f : A → Outcome B)
    → Returns x
    → ((a : A) → Returns (f a))
    → Returns (x >>= f)
Returns-bind (ok a) f h k = k a
Returns-bind (err e) f h k = tt
Returns-bind panic f h k = absurd h

Returns-if :
    {A : Type 0} (b : Bool) (x y : Outcome A) → Returns x → Returns y → Returns (if b then x else y)
Returns-if true x y hx hy = hx
Returns-if false x y hx hy = hy

from_u8-Returns : (n : ℕ) → Returns (from_u8 n)
unfolding from_u8
from_u8-Returns zero = tt
from_u8-Returns (suc zero) = tt
from_u8-Returns (suc (suc zero)) = tt
from_u8-Returns (suc (suc (suc n))) = tt

first-Returns : (buffer : List ℕ) → 0 < length buffer → Returns (first buffer >>= from_u8)
unfolding first
first-Returns [] long = absurd (omega arith)
first-Returns (b ∷ buffer) long = from_u8-Returns b

slice-Returns :
    (from to : ℕ) (buffer : List ℕ)
    → from ≤ to
    → to ≤ length buffer
    → Returns (slice from to buffer)
slice-Returns from to buffer le fits = rw (slice_lem from to buffer le fits) tt

uint-Returns :
    (from to : ℕ) (buffer : List ℕ) → from ≤ to → to ≤ length buffer → Returns (uint from to buffer)
unfolding uint
uint-Returns from to buffer le fits =
    Returns-bind (slice from to buffer) _ (slice-Returns from to buffer le fits) (λ bytes. tt)

-- the end of `decode`, behind the second test
payload-Returns :
    (buffer : List ℕ) (op : WalOp) (lsn page_id row_id n : ℕ)
    → Returns {A = WalEntry} (
        if ltb (length buffer) (29 + n)
        then err (corrupt_page (wal_payload_too_small (29 + n) (length buffer)))
        else (slice 29 (29 + n) buffer >>= λ payload. ok (record {
          opcode = op;
          lsn = lsn;
          page_id = page_id;
          row_id = row_id;
          payload = payload;
        })))
payload-Returns buffer op lsn page_id row_id n = elim (Bool-cases (ltb (length buffer) (29 + n))) [
  | inl short ↦ rw short tt
  | inr fits ↦ rw fits (
      Returns-bind (slice 29 (29 + n) buffer) _
        (slice-Returns 29 (29 + n) buffer (omega arith) (ground (arith, fits))) (λ payload. tt))
]

-- The two tests of the length keep every index of `decode` in range.
decode-Returns : (buffer : List ℕ) → Returns (decode buffer)
unfolding decode
decode-Returns buffer = elim (Bool-cases (ltb (length buffer) 29)) [
  | inl short ↦ rw short tt
  | inr fits ↦
      let long : 29 ≤ length buffer = ground (arith, fits) in
      rw fits (
        Returns-bind (first buffer >>= from_u8) _ (first-Returns buffer (omega (arith, long))) λ op.
          Returns-bind (uint 1 9 buffer) _
            (uint-Returns 1 9 buffer (omega arith) (omega (arith, long)))
            λ lsn.
              Returns-bind (uint 9 17 buffer) _
                (uint-Returns 9 17 buffer (omega arith) (omega (arith, long)))
                λ page_id.
                  Returns-bind (uint 17 25 buffer) _
                    (uint-Returns 17 25 buffer (omega arith) (omega (arith, long)))
                    λ row_id.
                      Returns-bind (uint 25 29 buffer) _
                        (uint-Returns 25 29 buffer (omega arith) long)
                        λ n. payload-Returns buffer op lsn page_id row_id n)
]

-- a read takes its bytes off the rest
abbrev Took : {A : Type 0} → ℕ → ℕ → Run Reader A → Type 0
Took n before (ok a, r) = length r.rest + n ≡ before
Took n before (err e, r) = Unit
Took n before (panic, r) = ⊥

read_exact-Took : (n : ℕ) (r : Reader) → Took n (length r.rest) (read_exact n r)
unfolding read_exact
read_exact-Took n r = ground (arith, length-drop n r.rest)

-- what is read of an entry is behind the reader
abbrev Advances : ℕ → Run Reader (Option WalEntry) → Type 0
Advances before (ok none, r) = Unit
Advances before (ok (some e), r) = length r.rest < before
Advances before (err e, r) = Unit
Advances before (panic, r) = ⊥

decoded-Advances :
    (before : ℕ) (x : Outcome WalEntry) (r : Reader)
    → Returns x
    → length r.rest < before
    → Advances before (x >>= (λ e. ok (some e)), r)
decoded-Advances before (ok e) r h lt = lt
decoded-Advances before (err e) r h lt = tt
decoded-Advances before panic r h lt = absurd h

read_payload-Advances :
    (n left before : ℕ) (x : Run Reader (List ℕ))
    → Took n left x
    → left < before
    → Advances before (read_payload n x)
unfolding read_payload
read_payload-Advances n left before (ok buffer, r) took lt =
    decoded-Advances before (decode buffer) r (decode-Returns buffer) (omega arith)
read_payload-Advances n left before (err e, r) took lt = tt
read_payload-Advances n left before (panic, r) took lt = absurd took

Advances-if :
    (before : ℕ) (b : Bool) (x y : Run Reader (Option WalEntry))
    → Advances before x
    → Advances before y
    → Advances before (if b then x else y)
Advances-if before true x y hx hy = hx
Advances-if before false x y hx hy = hy

read_prefixed-Advances :
    (before : ℕ) (x : Run Reader (List ℕ)) → Took 4 before x → Advances before (read_prefixed x)
unfolding read_prefixed
read_prefixed-Advances before (ok len_buf, r) took =
    let n = from_le_bytes len_buf in
    Advances-if before (n == 0) _ _ tt (
      read_payload-Advances n (length r.rest) before (read_exact n r) (read_exact-Took n r)
        (omega arith))
read_prefixed-Advances before (err e, r) took = ground arith
read_prefixed-Advances before (panic, r) took = absurd took

loop-Returns :
    (fuel : ℕ) (r r' : Reader) (o : Outcome (Option WalEntry)) (batch : List WalEntry)
    → read_entry r ≡ (o, r')
    → Advances (length r.rest) (o, r')
    → length r.rest < suc fuel
    → ((q : Reader) (b : List WalEntry) → length q.rest < fuel → Returns (read_loop fuel q b).0)
    → Returns (read_loop (suc fuel) r batch).0
loop-Returns fuel r r' (ok none) batch e h lt go = rw (read_loop-none fuel r r' batch e) tt
loop-Returns fuel r r' (ok (some x)) batch e h lt go =
    rw (read_loop-some fuel r r' x batch e) (go r' (batch ++ x ∷ []) (omega arith))
loop-Returns fuel r r' (err d) batch e h lt go = rw (read_loop-err fuel r r' d batch e) tt
loop-Returns fuel r r' panic batch e h lt go = absurd h

read_loop-Returns :
    (fuel : ℕ) (r : Reader) (batch : List WalEntry)
    → length r.rest < fuel
    → Returns (read_loop fuel r batch).0
unfolding read_entry
read_loop-Returns zero r batch lt = absurd (omega arith)
read_loop-Returns (suc fuel) r batch lt =
    loop-Returns fuel r (read_entry r).1 (read_entry r).0 batch refl
      (read_prefixed-Advances (length r.rest) (read_exact 4 r) (read_exact-Took 4 r)) lt
      (read_loop-Returns fuel)

note_read-Returns :
    (x : Outcome (List WalEntry)) (w : WalManager) → Returns x → Returns (note_read x w).0
unfolding note_read
note_read-Returns (ok batch) w h = tt
note_read-Returns (err e) w h = tt
note_read-Returns panic w h = absurd h

-- `read_batch` returns a batch or an error on every log: no index or range of a frame is out of bounds,
-- and the loop does not run out of rounds.
pub read_batch-Returns : (w : WalManager) → Returns (read_batch w).0
unfolding read_batch seek
read_batch-Returns w = elim (Option-cases (next_fault w.file.faults)) [
  | inl calm ↦
      rw (read_batch, seek, calm)
        (note_read-Returns _ _ (
          read_loop-Returns (length w.file.content + 1)
            (record { rest = w.file.content; faults = later_faults w.file.faults }) []
            (omega arith)))
  | inr (k, fails) ↦ rw (read_batch, seek, fails) tt
]
