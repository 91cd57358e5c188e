-- ===== src/Wal/Entry.antt =====
-- `WalOp` and `WalEntry` (wal.rs), their encoding and decoding.
use smol_db.Common.{
  ℕ, zero, suc, ◌+◌, ◌-◌, ◌%◌, ◌^◌, ◌≤◌, ◌<◌, ◌≡◌, refl, sym, List, ◌∷◌, ◌++◌, append_assoc, arith,
  ltb, leb, le→ltb, ◌&&◌, ap, ◌∙◌, get_elem?, if◌then◌else◌, length, length-append, take, drop,
  take-append, drop_past,
}
use smol_db.Bytes.{to_le_bytes, from_le_bytes, length-to_le_bytes, from_le_bytes-to_le_bytes}
use smol_db.Error.{corrupt_page, invalid_wal_op, wal_header_too_small, wal_payload_too_small}
use smol_db.Error.Outcome.{Outcome, ok, err, panic, or_panic, ◌>>=◌}
use smol_db.Page.{PageId}

abbrev pub wal_entry_header_size : ℕ
wal_entry_header_size = 29

pub data WalOp : Type 0 where
  insert update delete : WalOp

unfoldable pub from_u8 : ℕ → Outcome WalOp
from_u8 zero = ok insert
from_u8 (suc zero) = ok update
from_u8 (suc (suc zero)) = ok delete
from_u8 (suc (suc (suc n))) = err (corrupt_page (invalid_wal_op (3 + n)))

unfoldable pub as_u8 : WalOp → ℕ
as_u8 insert = 0
as_u8 update = 1
as_u8 delete = 2

pub record WalEntry : Type 0 where
  pub opcode : WalOp
  pub lsn : ℕ
  pub page_id : PageId
  pub row_id : ℕ
  pub payload : List ℕ

-- `WalEntry::new`
unfoldable pub new : WalOp → ℕ → PageId → ℕ → List ℕ → WalEntry
new opcode lsn page_id row_id payload = record {
  opcode = opcode;
  lsn = lsn;
  page_id = page_id;
  row_id = row_id;
  payload = payload;
}

unfoldable pub encode : WalEntry → List ℕ
encode e =
    as_u8 e.opcode
    ∷ (to_le_bytes 8 e.lsn
        ++ (to_le_bytes 8 e.page_id
            ++ (to_le_bytes 8 e.row_id
                ++ (to_le_bytes 4 (length e.payload % 2 ^ 32) ++ e.payload))))

unfoldable pub size : WalEntry → ℕ
size e = wal_entry_header_size + length e.payload

abbrev cut : ℕ → ℕ → List ℕ → List ℕ
cut from to buffer = take (to - from) (drop from buffer)

-- `buffer[from..to]`, which panics out of range
unfoldable pub slice : ℕ → ℕ → List ℕ → Outcome (List ℕ)
slice from to buffer =
    if leb from to && leb to (length buffer) then ok (cut from to buffer) else panic

-- `from_le_bytes(buffer[from..to].try_into().unwrap())`, for the width of the range
unfoldable pub uint : ℕ → ℕ → List ℕ → Outcome ℕ
unfolding slice
uint from to buffer = slice from to buffer >>= λ bytes. ok (from_le_bytes bytes)

-- `buffer[0]`
unfoldable pub first : List ℕ → Outcome ℕ
first buffer = or_panic (get_elem? buffer 0)

unfoldable pub decode : List ℕ → Outcome WalEntry
unfolding first slice uint
decode buffer =
    if ltb (length buffer) wal_entry_header_size
    then err (corrupt_page (wal_header_too_small (length buffer)))
    else do
      opcode ← first buffer >>= from_u8
      lsn ← uint 1 9 buffer
      page_id ← uint 9 17 buffer
      row_id ← uint 17 25 buffer
      payload_len ← uint 25 29 buffer
      let expected_size = wal_entry_header_size + payload_len
      if ltb (length buffer) expected_size
          then err (corrupt_page (wal_payload_too_small expected_size (length buffer)))
          else do
            payload ← slice wal_entry_header_size expected_size buffer
            ok (record {
              opcode = opcode;
              lsn = lsn;
              page_id = page_id;
              row_id = row_id;
              payload = payload;
            })

-- the fields fit their machine types, and the length prefix of a frame can hold the size
pub record IsEntry (e : WalEntry) : Type 0 where
  pub lsn : e.lsn < 2 ^ 64
  pub page_id : e.page_id < 2 ^ 64
  pub row_id : e.row_id < 2 ^ 64
  pub payload : wal_entry_header_size + length e.payload < 2 ^ 32

pub length-encode : (e : WalEntry) → length (encode e) ≡ size e
unfolding encode size
length-encode e = simp (length-append, length-to_le_bytes) (omega arith)

-- in range there is no panic
pub slice_lem :
    (from to : ℕ) (buffer : List ℕ)
    → from ≤ to
    → to ≤ length buffer
    → slice from to buffer ≡ ok (cut from to buffer)
unfolding slice
slice_lem from to buffer le fits = ground arith

uint_lem :
    (from to n : ℕ) (buffer bytes : List ℕ)
    → from ≤ to
    → to ≤ length buffer
    → cut from to buffer ≡ bytes
    → from_le_bytes bytes ≡ n
    → uint from to buffer ≡ ok n
unfolding uint
uint_lem from to n buffer bytes le fits at value =
    rw (slice_lem from to buffer le fits, at, value) refl

-- the five fields behind the opcode, in a buffer that may go on
module _ (op : ℕ) (a b c d p rest : List ℕ) (la : length a ≡ 8) (lb : length b ≡ 8)
    (lc : length c ≡ 8) (ld : length d ≡ 4) where
  abbrev laid_out : List ℕ
  laid_out = op ∷ (a ++ (b ++ (c ++ (d ++ (p ++ rest)))))

  field_lsn : cut 1 9 laid_out ≡ a
  field_lsn = take-append a _ 8 (sym la)

  field_page_id : cut 9 17 laid_out ≡ b
  field_page_id =
      rw (drop_past a (b ++ (c ++ (d ++ (p ++ rest)))) 8 0 (omega arith))
        (take-append b _ 8 (sym lb))

  field_row_id : cut 17 25 laid_out ≡ c
  field_row_id =
      rw
        (
          drop_past a (b ++ (c ++ (d ++ (p ++ rest)))) 16 8 (omega arith),
          drop_past b (c ++ (d ++ (p ++ rest))) 8 0 (omega arith),
        )
        (take-append c _ 8 (sym lc))

  behind_c : (n k : ℕ) → n ≡ 25 + k → drop n laid_out ≡ drop k (d ++ (p ++ rest))
  behind_c zero k e = absurd (omega arith)
  behind_c (suc n) k e =
      rw
        (
          drop_past a (b ++ (c ++ (d ++ (p ++ rest)))) n (16 + k) (omega arith),
          drop_past b (c ++ (d ++ (p ++ rest))) (16 + k) (8 + k) (omega arith),
          drop_past c (d ++ (p ++ rest)) (8 + k) k (omega arith),
        )
        refl

  field_payload_len : cut 25 29 laid_out ≡ d
  field_payload_len = rw (behind_c 25 0 (omega arith)) (take-append d _ 4 (sym ld))

  field_payload : (n : ℕ) → n ≡ 29 + length p → cut 29 n laid_out ≡ p
  field_payload n e =
      rw (behind_c 29 4 (omega arith), drop_past d (p ++ rest) 4 0 (omega arith))
        (take-append p rest (n - 29) (omega arith))

  length-laid_out : length laid_out ≡ 29 + length p + length rest
  length-laid_out = simp length-append (omega arith)

from_u8-as_u8 : (op : WalOp) → from_u8 (as_u8 op) ≡ ok op
unfolding from_u8 as_u8
from_u8-as_u8 insert = refl
from_u8-as_u8 update = refl
from_u8-as_u8 delete = refl

encode-laid_out :
    (e : WalEntry) (rest : List ℕ)
    → encode e ++ rest
      ≡ as_u8 e.opcode
        ∷ (to_le_bytes 8 e.lsn
            ++ (to_le_bytes 8 e.page_id
                ++ (to_le_bytes 8 e.row_id
                    ++ (to_le_bytes 4 (length e.payload % 2 ^ 32) ++ (e.payload ++ rest)))))
unfolding encode
encode-laid_out e rest = simp append_assoc

-- `decode` on a buffer whose fields are known
decode_fields :
    (buffer : List ℕ) (op : WalOp) (lsn page_id row_id n : ℕ) (p : List ℕ)
    → wal_entry_header_size ≤ length buffer
    → (first buffer >>= from_u8) ≡ ok op
    → uint 1 9 buffer ≡ ok lsn
    → uint 9 17 buffer ≡ ok page_id
    → uint 17 25 buffer ≡ ok row_id
    → uint 25 29 buffer ≡ ok n
    → wal_entry_header_size + n ≤ length buffer
    → slice wal_entry_header_size (wal_entry_header_size + n) buffer ≡ ok p
    → decode buffer
      ≡ ok (record { opcode = op; lsn = lsn; page_id = page_id; row_id = row_id; payload = p })
unfolding decode
decode_fields buffer op lsn page_id row_id n p long h_op h_lsn h_page h_row h_len fits h_payload =
    rw
      (
        le→ltb (length buffer) wal_entry_header_size long,
        h_op,
        h_lsn,
        h_page,
        h_row,
        h_len,
        le→ltb (length buffer) (wal_entry_header_size + n) fits,
        h_payload,
      )
      refl

-- Every entry that the frame format can hold is read back from its encoding, whatever follows.
pub decode-encode : (e : WalEntry) (rest : List ℕ) → IsEntry e → decode (encode e ++ rest) ≡ ok e
decode-encode e rest is =
    let n = length e.payload % 2 ^ 32 in
    let same : n ≡ length e.payload = omega (arith, is.payload) in
    let la = length-to_le_bytes 8 e.lsn in
    let lb = length-to_le_bytes 8 e.page_id in
    let lc = length-to_le_bytes 8 e.row_id in
    let ld = length-to_le_bytes 4 n in
    let op = as_u8 e.opcode in
    let a = to_le_bytes 8 e.lsn in
    let b = to_le_bytes 8 e.page_id in
    let c = to_le_bytes 8 e.row_id in
    let d = to_le_bytes 4 n in
    let long = length-laid_out op a b c d e.payload rest la lb lc ld in
    let bytes = laid_out op a b c d e.payload rest la lb lc ld in
    rw (encode-laid_out e rest) (
      decode_fields bytes e.opcode e.lsn e.page_id e.row_id n e.payload (omega (arith, long))
        (unfold first in from_u8-as_u8 e.opcode)
        (uint_lem 1 9 e.lsn bytes a (omega arith) (omega (arith, long))
          (field_lsn op a b c d e.payload rest la lb lc ld)
          (from_le_bytes-to_le_bytes 8 e.lsn is.lsn))
        (uint_lem 9 17 e.page_id bytes b (omega arith) (omega (arith, long))
          (field_page_id op a b c d e.payload rest la lb lc ld)
          (from_le_bytes-to_le_bytes 8 e.page_id is.page_id))
        (uint_lem 17 25 e.row_id bytes c (omega arith) (omega (arith, long))
          (field_row_id op a b c d e.payload rest la lb lc ld)
          (from_le_bytes-to_le_bytes 8 e.row_id is.row_id))
        (uint_lem 25 29 n bytes d (omega arith) (omega (arith, long))
          (field_payload_len op a b c d e.payload rest la lb lc ld)
          (from_le_bytes-to_le_bytes 4 n (omega arith)))
        (omega (arith, long))
        (slice_lem 29 (29 + n) bytes (omega arith) (omega (arith, long))
          ∙ ap ok (field_payload op a b c d e.payload rest la lb lc ld (29 + n) (omega arith))))
