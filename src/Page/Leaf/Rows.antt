-- ===== src/Page/Leaf/Rows.antt =====
-- The abstract view of a `LeafNode`: its records in the order of the slots, with ascending ids.
use smol_db.Common.{
  ℕ, ◌^◌, ◌≤◌, zero, suc, ◌<◌, ◌≡◌, ◌≢◌, refl, sym, ap, subst, List, [], ◌∷◌, map, Option, none,
  some, arith, ◌==◌, if◌then◌else◌, length, length-map, get_elem?, IsAscending, All-get,
}
use mathlib.Core.Option.{some-injective}
use smol_db.Error.Outcome.{ok, ◌>>=◌}
use smol_db.Slice.{Position, found, insert_at}
use smol_db.Slice.Locate.{locate, locate-IsPlace, IsPlace, IsPlace-ne, binary_search_by_key-locate}
use smol_db.Page.{Record, LeafNode}
pub use smol_db.Page.Slots.{Reads, length-Reads, Reads-get}
use smol_db.Page.Leaf.{record_at, find_slot, live_payload, get_record}

abbrev pub row_ids : List Record → List ℕ
row_ids = map (λ r. r.row_id)

-- `rows` is what the leaf stores, tombstones included
pub record IsLeaf (l : LeafNode) (rows : List Record) : Type 0 where
  pub reads : Reads l.records l.slot_array rows
  pub ascending : IsAscending (row_ids rows)
  pub full : length l.records ≡ length rows
  pub small : length rows ≤ 2 ^ 16

-- the payload of a row id, as a scan finds it; a tombstone hides its row
abbrev pub live_row : ℕ → List Record → Option (List ℕ)
live_row k [] = none
live_row k (r ∷ rows) = if r.row_id == k then live_payload r else live_row k rows

pub get-row_ids :
    (rows : List Record) (i : ℕ) {k : ℕ}
    → get_elem? (row_ids rows) i ≡ some k
    → (r : Record) × (get_elem? rows i ≡ some r) × (r.row_id ≡ k)
get-row_ids [] i e = ground arith
get-row_ids (r ∷ rows) zero e = (r, refl, ground arith)
get-row_ids (r ∷ rows) (suc i) e = get-row_ids rows i e

pub row_ids-get :
    (rows : List Record) (i : ℕ) {r : Record}
    → get_elem? rows i ≡ some r
    → get_elem? (row_ids rows) i ≡ some r.row_id
row_ids-get [] i e = ground arith
row_ids-get (r ∷ rows) zero e = ground arith
row_ids-get (r ∷ rows) (suc i) e = row_ids-get rows i e

pub live_row_absent :
    (rows : List Record) (k : ℕ)
    → ((j m : ℕ) → get_elem? (row_ids rows) j ≡ some m → m ≢ k)
    → live_row k rows ≡ none
live_row_absent [] k h = refl
live_row_absent (r ∷ rows) k h =
    ground (arith, h 0 r.row_id refl, live_row_absent rows k (λ j. h (suc j)))

pub live_row_hit :
    (rows : List Record) (i : ℕ) {r : Record}
    → IsAscending (row_ids rows)
    → get_elem? rows i ≡ some r
    → live_row r.row_id rows ≡ live_payload r
live_row_hit [] i a e = ground arith
live_row_hit (q ∷ rows) zero a e =
    subst (λ (x : Record). live_row x.row_id (q ∷ rows) ≡ live_payload x) (some-injective _ _ e)
      (ground arith)
live_row_hit (q ∷ rows) (suc i) {r} a e = ground (
  arith,
  live_row_hit rows i {r = r} a.1 e,
  All-get (λ j. q.row_id < j) (row_ids rows) i a.0 (row_ids-get rows i e),
)

module _ {l : LeafNode} {rows : List Record} (is : IsLeaf l rows) where
  pub record_at-row : (i : ℕ) {r : Record} → get_elem? rows i ≡ some r → record_at l i ≡ ok r
  unfolding record_at
  record_at-row i e = let (s, at, holds) = Reads-get _ _ rows i is.reads e in rw (at, holds)

  key_at-row :
      (i k : ℕ) → get_elem? (row_ids rows) i ≡ some k → (record_at l i >>= λ r. ok r.row_id) ≡ ok k
  key_at-row i k at = let (r, row, e) = get-row_ids rows i at in rw (record_at-row i row) (ap ok e)

  length-slots : length l.slot_array ≡ length (row_ids rows)
  length-slots = rw length-map (length-Reads _ _ _ is.reads)

  -- On a well-formed leaf the search of a row id does not panic, and agrees with a scan of the ids.
  pub find_slot-locate : (k : ℕ) → find_slot l k ≡ ok (locate (row_ids rows) k)
  unfolding find_slot
  find_slot-locate k =
      rw length-slots (binary_search_by_key-locate (row_ids rows) _ is.ascending key_at-row k)

-- where a row id stands in the leaf, or where it would be inserted
pub data Place (l : LeafNode) (rows : List Record) (k : ℕ) : Type 0 where
  hit :
      (i : ℕ) (r : Record)
      → find_slot l k ≡ ok (found i)
      → get_elem? rows i ≡ some r
      → r.row_id ≡ k
      → Place l rows k
  miss :
      (i : ℕ)
      → find_slot l k ≡ ok (insert_at i)
      → IsPlace (row_ids rows) k (insert_at i)
      → Place l rows k

module _ {l : LeafNode} {rows : List Record} (is : IsLeaf l rows) (k : ℕ) where
  located : (p : Position) → find_slot l k ≡ ok p → IsPlace (row_ids rows) k p → Place l rows k
  located (found i) e at = let (r, row, same) = get-row_ids rows i at in hit i r e row same
  located (insert_at i) e at = miss i e at

  pub place : Place l rows k
  place =
      located (locate (row_ids rows) k) (find_slot-locate is k)
        (locate-IsPlace (row_ids rows) k is.ascending)

  get_record-Place : Place l rows k → get_record l k ≡ ok (live_row k rows)
  unfolding get_record
  get_record-Place (hit i r e row same) =
      rw (e, record_at-row is i row)
        (ap ok (sym (rw same at (live_row_hit rows i is.ascending row))))
  get_record-Place (miss i e at) =
      rw e (ap ok (sym (live_row_absent rows k (IsPlace-ne (row_ids rows) k i at))))

  -- `get_record` returns the payload of the live row with the id, and nothing for a tombstone or an
  -- absent id; it does not panic.
  pub get_record-live_row : get_record l k ≡ ok (live_row k rows)
  get_record-live_row = get_record-Place place
