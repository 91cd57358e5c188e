-- ===== src/Page/Codec/Cells.antt =====
-- What the reads of `BTreeNode::decode` (page.rs) make of these bytes.
use smol_db.Common.{
  ℕ, ◌%◌, ◌^◌, ◌<◌, ◌≡◌, refl, Bool, true, false, not, List, [], ◌∷◌, ◌++◌, append_assoc,
  append-nil, arith, lt→ltb, ◌==◌, length, set, length-set, All,
}
use smol_db.Bytes.{to_le_bytes}
use smol_db.Error.Outcome.{ok}
use smol_db.Page.{Record}
use smol_db.Page.Slots.{scatter}
use smol_db.Page.Cursor.{between, read_bytes-between, read_uint-between}
use smol_db.Page.Codec.{bit, slot_fields, read_slots, read_cell, read_cells}
use smol_db.Page.Codec.Bytes.{uints, cell_bytes, cells_bytes}

-- a record whose fields fit their machine types
pub record IsRecord (r : Record) : Type 0 where
  pub row_id : r.row_id < 2 ^ 64
  pub payload : length r.payload < 2 ^ 32

pub bit-Bound : (b : Bool) → bit b < 256 ^ 1
unfolding bit
bit-Bound false = omega arith
bit-Bound true = omega arith

pub not-bit : (b : Bool) → not (bit b == 0) ≡ b
unfolding bit
not-bit false = refl
not-bit true = refl

pub read_slots-between :
    (slots : List ℕ) (behind ahead : List ℕ)
    → All (λ s. s < 2 ^ 16) slots
    → read_slots (length slots) (between behind (uints (slot_fields slots) ++ ahead))
      ≡ ok (slots, between (behind ++ uints (slot_fields slots)) ahead)
unfolding read_slots uints slot_fields
read_slots-between [] behind ahead h = rw (append-nil behind) refl
read_slots-between (s ∷ slots) behind ahead (fits, h) =
    let first = to_le_bytes 2 s in
    let others = uints (slot_fields slots) in
    rw
      (
        append_assoc first others ahead,
        read_uint-between 2 s behind (others ++ ahead) fits,
        read_slots-between slots (behind ++ first) ahead h,
        append_assoc behind first others,
      )
      refl

cell_bytes-flat :
    (r : Record)
    → cell_bytes r
      ≡ to_le_bytes 8 r.row_id
        ++ (to_le_bytes 1 (bit r.is_deleted)
            ++ (to_le_bytes 4 (length r.payload % 2 ^ 32) ++ r.payload))
unfolding cell_bytes uints
cell_bytes-flat r = simp (append_assoc, append-nil)

-- three integers and the bytes that the last one counts
read_cell-flat :
    (id deleted n : ℕ) (p behind ahead : List ℕ)
    → id < 256 ^ 8
    → deleted < 256 ^ 1
    → n < 256 ^ 4
    → n ≡ length p
    → let a = to_le_bytes 8 id in
      let b = to_le_bytes 1 deleted in
      let c = to_le_bytes 4 n in
      read_cell (between behind (a ++ (b ++ (c ++ (p ++ ahead)))))
      ≡ ok (
        record { row_id = id; payload = p; is_deleted = not (deleted == 0) },
        between (behind ++ (a ++ (b ++ (c ++ p)))) ahead,
      )
unfolding read_cell
read_cell-flat id deleted n p behind ahead h_id h_deleted h_n counts =
    let a = to_le_bytes 8 id in
    let b = to_le_bytes 1 deleted in
    let c = to_le_bytes 4 n in
    rw
      (
        read_uint-between 8 id behind (b ++ (c ++ (p ++ ahead))) h_id,
        read_uint-between 1 deleted (behind ++ a) (c ++ (p ++ ahead)) h_deleted,
        read_uint-between 4 n ((behind ++ a) ++ b) (p ++ ahead) h_n,
        read_bytes-between p (((behind ++ a) ++ b) ++ c) ahead n counts,
        append_assoc ((behind ++ a) ++ b) c p,
        append_assoc (behind ++ a) b (c ++ p),
        append_assoc behind a (b ++ (c ++ p)),
      )
      refl

read_cell-between :
    (r : Record) (behind ahead : List ℕ)
    → IsRecord r
    → read_cell (between behind (cell_bytes r ++ ahead))
      ≡ ok (r, between (behind ++ cell_bytes r) ahead)
read_cell-between r behind ahead is =
    let n = length r.payload % 2 ^ 32 in
    let a = to_le_bytes 8 r.row_id in
    let b = to_le_bytes 1 (bit r.is_deleted) in
    let c = to_le_bytes 4 n in
    rw
      (
        cell_bytes-flat r,
        append_assoc a (b ++ (c ++ r.payload)) ahead,
        append_assoc b (c ++ r.payload) ahead,
        append_assoc c r.payload ahead,
        read_cell-flat r.row_id (bit r.is_deleted) n r.payload behind ahead
            (omega (arith, is.row_id)) (bit-Bound r.is_deleted) (omega arith)
            (omega (arith, is.payload)),
        not-bit r.is_deleted,
      )
      refl

pub read_cells-between :
    (slots : List ℕ) (rows cells : List Record) (behind ahead : List ℕ)
    → length slots ≡ length rows
    → All (λ s. s < length cells) slots
    → All IsRecord rows
    → read_cells slots cells (between behind (cells_bytes rows ++ ahead))
      ≡ ok (scatter slots rows cells, between (behind ++ cells_bytes rows) ahead)
unfolding read_cells cells_bytes
read_cells-between [] [] cells behind ahead e h is = rw (append-nil behind) refl
read_cells-between [] (r ∷ rows) cells behind ahead e h is = absurd (omega arith)
read_cells-between (s ∷ slots) [] cells behind ahead e h is = absurd (omega arith)
read_cells-between (s ∷ slots) (r ∷ rows) cells behind ahead e (at, h) (is, are) =
    let first = cell_bytes r in
    let others = cells_bytes rows in
    let h' : All (λ t. t < length (set cells s r)) slots = rw (length-set cells s r) h in
    rw
      (
        append_assoc first others ahead,
        read_cell-between r behind (others ++ ahead) is,
        lt→ltb s (length cells) at,
        read_cells-between slots rows (set cells s r) (behind ++ first) ahead (omega arith) h' are,
        append_assoc behind first others,
      )
      refl
