-- ===== src/Page/Cursor.antt =====
-- `ByteCursor` (page.rs): a buffer that is written and read in order. A slice out of range panics.
use smol_db.Common.{
  ℕ, ◌+◌, ◌^◌, ◌<◌, ◌≤◌, ◌≡◌, refl, sym, List, ◌++◌, append_assoc, arith, ltb, le→ltb,
  if◌then◌else◌, length, length-append, take, drop, take-append, drop-append, drop_past,
}
use smol_db.Bytes.{to_le_bytes, from_le_bytes, length-to_le_bytes, from_le_bytes-to_le_bytes}
use smol_db.Error.Outcome.{Outcome, ok, panic, ◌>>=◌}

pub record ByteCursor : Type 0 where
  pub buffer : List ℕ
  pub pos : ℕ

unfoldable pub open_cursor : List ℕ → ByteCursor
open_cursor buffer = record { buffer = buffer; pos = 0 }

unfoldable pub write_bytes : List ℕ → ByteCursor → Outcome ByteCursor
write_bytes val c =
    if ltb (length c.buffer) (c.pos + length val)
    then panic
    else ok (record {
      buffer = take c.pos c.buffer ++ (val ++ drop (c.pos + length val) c.buffer);
      pos = c.pos + length val;
    })

-- `write_u8`, `write_u16`, `write_u32`, `write_u64`, by the width in bytes
unfoldable pub write_uint : ℕ → ℕ → ByteCursor → Outcome ByteCursor
write_uint width val c = write_bytes (to_le_bytes width val) c

unfoldable pub read_bytes : ℕ → ByteCursor → Outcome (List ℕ × ByteCursor)
read_bytes len c =
    if ltb (length c.buffer) (c.pos + len)
    then panic
    else ok (take len (drop c.pos c.buffer), record c { pos = c.pos + len })

-- `read_u8`, `read_u16`, `read_u32`, `read_u64`, by the width in bytes
unfoldable pub read_uint : ℕ → ByteCursor → Outcome (ℕ × ByteCursor)
read_uint width c = read_bytes width c >>= λ r. ok (from_le_bytes r.0, r.1)

-- `cursor.pos += n`
unfoldable pub skip : ℕ → ByteCursor → ByteCursor
skip n c = record c { pos = c.pos + n }

-- a cursor between the bytes behind it and those before it
abbrev pub between : List ℕ → List ℕ → ByteCursor
between behind ahead = record { buffer = behind ++ ahead; pos = length behind }

pub write_bytes-between :
    (val behind ahead : List ℕ)
    → length val ≤ length ahead
    → write_bytes val (between behind ahead)
      ≡ ok (between (behind ++ val) (drop (length val) ahead))
unfolding write_bytes
write_bytes-between val behind ahead fits =
    rw
      (
        le→ltb (length (behind ++ ahead)) (length behind + length val)
            (omega (arith, length-append behind ahead)),
        take-append behind ahead (length behind) refl,
        drop_past behind ahead (length behind + length val) (length val) refl,
        sym (length-append behind val),
        append_assoc,
      )
      refl

pub read_bytes-between :
    (val behind ahead : List ℕ) (n : ℕ)
    → n ≡ length val
    → read_bytes n (between behind (val ++ ahead)) ≡ ok (val, between (behind ++ val) ahead)
unfolding read_bytes
read_bytes-between val behind ahead n e =
    rw
      (
        le→ltb (length (behind ++ (val ++ ahead))) (length behind + n)
            (omega (arith, length-append behind (val ++ ahead), length-append val ahead)),
        drop-append behind (val ++ ahead) (length behind) refl,
        take-append val ahead n e,
        e,
        sym (length-append behind val),
        append_assoc,
      )
      refl

pub write_uint-between :
    (width val : ℕ) (behind ahead : List ℕ)
    → width ≤ length ahead
    → write_uint width val (between behind ahead)
      ≡ ok (between (behind ++ to_le_bytes width val) (drop width ahead))
unfolding write_uint
write_uint-between width val behind ahead fits =
    rw
      (
        write_bytes-between (to_le_bytes width val) behind ahead
            (omega (arith, length-to_le_bytes width val)),
        length-to_le_bytes width val,
      )
      refl

pub read_uint-between :
    (width val : ℕ) (behind ahead : List ℕ)
    → val < 256 ^ width
    → read_uint width (between behind (to_le_bytes width val ++ ahead))
      ≡ ok (val, between (behind ++ to_le_bytes width val) ahead)
unfolding read_uint
read_uint-between width val behind ahead fits =
    rw
      (
        read_bytes-between (to_le_bytes width val) behind ahead width
            (sym (length-to_le_bytes width val)),
        from_le_bytes-to_le_bytes width val fits,
      )
      refl
