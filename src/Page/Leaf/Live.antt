-- ===== src/Page/Leaf/Live.antt =====
-- Dropping the tombstones does not change what a lookup finds.
use smol_db.Common.{
  ℕ, ◌<◌, ◌≤◌, ◌^◌, ◌≡◌, refl, List, [], ◌∷◌, none, arith, inl, inr, Bool-cases, length,
  IsAscending, All,
}
use smol_db.Page.{Record, LeafNode}
use smol_db.Page.Leaf.Rows.{Reads, row_ids, live_row, IsLeaf}
use smol_db.Page.Leaf.Compaction.{live_rows, compacted, length-live_rows}

pub live_row-above :
    (k n : ℕ) (rows : List Record)
    → k ≤ n
    → All (λ j. n < j) (row_ids rows)
    → live_row k rows ≡ none
live_row-above k n [] le h = refl
live_row-above k n (r ∷ rows) le h = ground (arith, live_row-above k n rows le h.1, h.0)

pub live_row-live_rows :
    (k : ℕ) (rows : List Record)
    → IsAscending (row_ids rows)
    → live_row k (live_rows rows) ≡ live_row k rows
live_row-live_rows k [] a = refl
live_row-live_rows k (r ∷ rows) a =
    ground (
      arith,
      live_row-live_rows k rows a.1,
      live_row-above r.row_id r.row_id rows (omega arith) a.0,
    )

pub All-live_rows {ℓ} :
    (P : ℕ → Type ℓ) (rows : List Record) → All P (row_ids rows) → All P (row_ids (live_rows rows))
All-live_rows P [] h = tt
All-live_rows P (r ∷ rows) h = elim (Bool-cases r.is_deleted) [
  | inl gone ↦ simp gone (All-live_rows P rows h.1)
  | inr live ↦ simp live (h.0, All-live_rows P rows h.1)
]

pub live_rows-IsAscending :
    (rows : List Record) → IsAscending (row_ids rows) → IsAscending (row_ids (live_rows rows))
live_rows-IsAscending [] a = tt
live_rows-IsAscending (r ∷ rows) a = elim (Bool-cases r.is_deleted) [
  | inl gone ↦ simp gone (live_rows-IsAscending rows a.1)
  | inr live ↦
      simp live (All-live_rows (λ j. r.row_id < j) rows a.0, live_rows-IsAscending rows a.1)
]

-- what `compact` leaves of ascending rows is a well-formed leaf
pub kept-IsLeaf :
    (l : LeafNode) (rows : List Record) (slots : List ℕ)
    → IsAscending (row_ids rows)
    → length rows ≤ 2 ^ 16
    → Reads (live_rows rows) slots (live_rows rows)
    → IsLeaf (compacted l (live_rows rows) slots) (live_rows rows)
kept-IsLeaf l rows slots a small reads = record {
  reads = reads;
  ascending = live_rows-IsAscending rows a;
  full = refl;
  small = omega (arith, length-live_rows rows);
}

pub compacted-IsLeaf :
    {l : LeafNode} {rows : List Record}
    → IsLeaf l rows
    → (slots : List ℕ) → Reads (live_rows rows) slots (live_rows rows)
    → IsLeaf (compacted l (live_rows rows) slots) (live_rows rows)
compacted-IsLeaf {l} {rows} is slots reads = kept-IsLeaf l rows slots is.ascending is.small reads
