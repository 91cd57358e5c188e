-- ===== src/Page/Codec/Bytes.antt =====
-- The bytes of a node as one list, and that the writes of `BTreeNode::encode` (page.rs) append them.
use smol_db.Common.{
  ℕ, ◌+◌, ◌%◌, ◌^◌, ◌≤◌, ◌≡◌, refl, ap, List, [], ◌∷◌, ◌++◌, append_assoc, append-nil, arith,
  length, length-append, take, drop, drop-drop, length-take, length-drop, take-append-drop,
}
use smol_db.Bytes.{to_le_bytes, length-to_le_bytes}
use smol_db.Error.Outcome.{ok}
use smol_db.Page.{Record, record_meta_size}
use smol_db.Page.Leaf.{footer_len}
use smol_db.Page.Leaf.Rows.{Reads}
use smol_db.Page.Cursor.{skip, between, write_bytes-between, write_uint-between}
use smol_db.Page.Codec.{bit, write_uints, write_cell, write_cells}

-- integers in order, each with its width
unfoldable pub uints : List (ℕ × ℕ) → List ℕ
uints [] = []
uints ((width, val) ∷ fields) = to_le_bytes width val ++ uints fields

abbrev pub cell_fields : Record → List (ℕ × ℕ)
cell_fields r = (8, r.row_id) ∷ (1, bit r.is_deleted) ∷ (4, length r.payload % 2 ^ 32) ∷ []

unfoldable pub cell_bytes : Record → List ℕ
cell_bytes r = uints (cell_fields r) ++ r.payload

unfoldable pub cells_bytes : List Record → List ℕ
cells_bytes [] = []
cells_bytes (r ∷ rows) = cell_bytes r ++ cells_bytes rows

pub write_uints-between :
    (fields : List (ℕ × ℕ)) (behind ahead : List ℕ)
    → length (uints fields) ≤ length ahead
    → write_uints fields (between behind ahead)
      ≡ ok (between (behind ++ uints fields) (drop (length (uints fields)) ahead))
unfolding write_uints uints
write_uints-between [] behind ahead fits = rw (append-nil behind) refl
write_uints-between ((w, v) ∷ fields) behind ahead fits =
    let first = to_le_bytes w v in
    let total = length-append first (uints fields) in
    let width = length-to_le_bytes w v in
    rw
      (
        write_uint-between w v behind ahead (omega (arith, total, width)),
        write_uints-between fields (behind ++ first) (drop w ahead)
            (omega (arith, fits, total, width, length-drop w ahead)),
        drop-drop (length (uints fields)) w (length (first ++ uints fields)) ahead
            (omega (arith, total, width)),
        append_assoc behind first (uints fields),
      )
      refl

write_cell-between :
    (r : Record) (behind ahead : List ℕ)
    → length (cell_bytes r) ≤ length ahead
    → write_cell r (between behind ahead)
      ≡ ok (between (behind ++ cell_bytes r) (drop (length (cell_bytes r)) ahead))
unfolding write_cell cell_bytes
write_cell-between r behind ahead fits =
    let first = uints (cell_fields r) in
    let total = length-append first r.payload in
    rw
      (
        write_uints-between (cell_fields r) behind ahead (omega (arith, total, fits)),
        write_bytes-between r.payload (behind ++ first) (drop (length first) ahead)
            (omega (arith, fits, total, length-drop (length first) ahead)),
        drop-drop (length r.payload) (length first) (length (first ++ r.payload)) ahead total,
        append_assoc behind first r.payload,
      )
      refl

pub write_cells-between :
    (records : List Record) (slots : List ℕ) (rows : List Record) (behind ahead : List ℕ)
    → Reads records slots rows
    → length (cells_bytes rows) ≤ length ahead
    → write_cells records slots (between behind ahead)
      ≡ ok (between (behind ++ cells_bytes rows) (drop (length (cells_bytes rows)) ahead))
unfolding write_cells cells_bytes
write_cells-between records [] [] behind ahead h fits = rw (append-nil behind) refl
write_cells-between records [] (r ∷ rows) behind ahead h fits = absurd h
write_cells-between records (s ∷ slots) [] behind ahead h fits = absurd h
write_cells-between records (s ∷ slots) (r ∷ rows) behind ahead (at, h) fits =
    let first = cell_bytes r in
    let total = length-append first (cells_bytes rows) in
    rw
      (
        at,
        write_cell-between r behind ahead (omega (arith, total, fits)),
        write_cells-between records slots rows (behind ++ first) (drop (length first) ahead) h
            (omega (arith, fits, total, length-drop (length first) ahead)),
        drop-drop (length (cells_bytes rows)) (length first) (length (first ++ cells_bytes rows))
            ahead total,
        append_assoc behind first (cells_bytes rows),
      )
      refl

pub skip-between :
    (n : ℕ) (behind ahead : List ℕ)
    → n ≤ length ahead
    → skip n (between behind ahead) ≡ between (behind ++ take n ahead) (drop n ahead)
unfolding skip
skip-between n behind ahead fits =
    rw
      (
        append_assoc behind (take n ahead) (drop n ahead),
        take-append-drop n ahead,
        length-append behind (take n ahead),
      )
      (ap (λ p. record { buffer = behind ++ ahead; pos = length behind + p })
        (omega (arith, length-take n ahead)))

pub length-cell_bytes : (r : Record) → length (cell_bytes r) ≡ record_meta_size + length r.payload
unfolding cell_bytes uints
length-cell_bytes r = simp (length-append, length-to_le_bytes) (omega arith)

pub footer_len-cells_bytes :
    (records : List Record) (slots : List ℕ) (rows : List Record)
    → Reads records slots rows
    → footer_len records slots ≡ ok (length (cells_bytes rows))
unfolding footer_len cells_bytes
footer_len-cells_bytes records [] [] h = refl
footer_len-cells_bytes records [] (r ∷ rows) h = absurd h
footer_len-cells_bytes records (s ∷ slots) [] h = absurd h
footer_len-cells_bytes records (s ∷ slots) (r ∷ rows) (at, h) =
    rw (at, footer_len-cells_bytes records slots rows h)
      (ap ok (omega (arith, length-cell_bytes r, length-append (cell_bytes r) (cells_bytes rows))))
