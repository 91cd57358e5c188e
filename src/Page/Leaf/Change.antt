-- ===== src/Page/Leaf/Change.antt =====
-- `update_record` and `delete_record` on every branch.
use smol_db.Common.{
  ℕ, zero, suc, ◌≤◌, ◌<◌, ◌≡◌, ◌≢◌, refl, subst, true, false, inl, inr, List, [], ◌∷◌, Option, none,
  some, arith, leb, leb→le, ◌==◌, if◌then◌else◌, Bool-cases, length, get_elem?, set, IsAscending,
  All-get,
}
use mathlib.Core.Option.{some-injective}
use smol_db.Error.{tuple_too_large, key_not_found}
use smol_db.Error.Outcome.{ok, err, Run}
use smol_db.Slice.Locate.{IsPlace-ne}
use smol_db.Page.{Record, LeafNode, max_value_size}
use smol_db.Page.Leaf.{live_payload, update_record, delete_record}
use smol_db.Page.Leaf.Rows.{
  row_ids, live_row, IsLeaf, Place, hit, miss, place, record_at-row, row_ids-get,
}
use smol_db.Page.Leaf.Edit.{live_row-set}
use smol_db.Page.Leaf.Replace.{set_record_at-row}

-- the row of an id, live or a tombstone
abbrev pub row_of : ℕ → List Record → Option Record
row_of k [] = none
row_of k (r ∷ rows) = if r.row_id == k then some r else row_of k rows

pub row_of_hit :
    (rows : List Record) (i : ℕ) (r : Record)
    → IsAscending (row_ids rows)
    → get_elem? rows i ≡ some r
    → row_of r.row_id rows ≡ some r
row_of_hit [] i r a e = ground arith
row_of_hit (q ∷ rows) zero r a e =
    subst (λ (x : Record). row_of x.row_id (q ∷ rows) ≡ some x) (some-injective _ _ e)
      (ground arith)
row_of_hit (q ∷ rows) (suc i) r a e = ground (
  arith,
  row_of_hit rows i r a.1 e,
  All-get (λ j. q.row_id < j) (row_ids rows) i a.0 (row_ids-get rows i e),
)

pub row_of_absent :
    (rows : List Record) (k : ℕ)
    → ((j m : ℕ) → get_elem? (row_ids rows) j ≡ some m → m ≢ k)
    → row_of k rows ≡ none
row_of_absent [] k h = refl
row_of_absent (r ∷ rows) k h =
    ground (arith, h 0 r.row_id refl, row_of_absent rows k (λ j. h (suc j)))

pub data Updated (row_id : ℕ) (payload : List ℕ) (l : LeafNode) (rows : List Record)
    : Run LeafNode Unit → Type 0 where
  written :
      (r : Record) (records : List Record) (rows' : List Record)
      → row_of row_id rows ≡ some r
      → IsLeaf (record l { records = records }) rows'
      → ((k : ℕ)
          → live_row k rows' ≡ (
              if row_id == k
              then live_payload (record r { payload = payload })
              else live_row k rows))
      → Updated row_id payload l rows (ok tt, record l { records = records })
  too_large :
      max_value_size ≤ length payload
      → Updated row_id payload l rows (err (tuple_too_large (length payload)), l)
  missing :
      row_of row_id rows ≡ none → Updated row_id payload l rows (err (key_not_found row_id), l)

pub data Deleted (row_id : ℕ) (l : LeafNode) (rows : List Record) : Run LeafNode Unit → Type 0 where
  marked :
      (r : Record) (records : List Record) (rows' : List Record)
      → row_of row_id rows ≡ some r
      → IsLeaf (record l { records = records }) rows'
      → ((k : ℕ) → live_row k rows' ≡ (if row_id == k then none else live_row k rows))
      → Deleted row_id l rows (ok tt, record l { records = records })
  missing : row_of row_id rows ≡ none → Deleted row_id l rows (err (key_not_found row_id), l)

module _ (row_id : ℕ) (l : LeafNode) (rows : List Record) (is : IsLeaf l rows) where
  row_of_place :
      (i : ℕ) (r : Record)
      → get_elem? rows i ≡ some r
      → r.row_id ≡ row_id
      → row_of row_id rows ≡ some r
  row_of_place i r row same =
      subst (λ (n : ℕ). row_of n rows ≡ some r) same (row_of_hit rows i r is.ascending row)

  live_row_place :
      (i : ℕ) (r r' : Record)
      → get_elem? rows i ≡ some r
      → r.row_id ≡ row_id
      → r'.row_id ≡ r.row_id
      → (k : ℕ)
      → live_row k (set rows i r') ≡ (if row_id == k then live_payload r' else live_row k rows)
  live_row_place i r r' row same keep k =
      subst
        (λ (n : ℕ).
          live_row k (set rows i r') ≡ (if n == k then live_payload r' else live_row k rows))
        same (live_row-set k rows i r' is.ascending row keep)

  delete-Place : Place l rows row_id → Deleted row_id l rows (delete_record row_id l)
  unfolding delete_record
  delete-Place (hit i r e row same) =
      let (records, w, is') =
        set_record_at-row l rows is i r (record r { is_deleted = true }) row refl in
      rw (e, record_at-row is i row, w)
        (marked r records _ (row_of_place i r row same) is'
          (live_row_place i r (record r { is_deleted = true }) row same refl))
  delete-Place (miss i e at) =
      rw e (missing (row_of_absent rows row_id (IsPlace-ne (row_ids rows) row_id i at)))

  update_at-Place :
      (payload : List ℕ)
      → leb max_value_size (length payload) ≡ false
      → Place l rows row_id
      → Updated row_id payload l rows (update_record row_id payload l)
  unfolding update_record
  update_at-Place payload fits (hit i r e row same) =
      let (records, w, is') =
        set_record_at-row l rows is i r (record r { payload = payload }) row refl in
      rw (fits, e, record_at-row is i row, w)
        (written r records _ (row_of_place i r row same) is'
          (live_row_place i r (record r { payload = payload }) row same refl))
  update_at-Place payload fits (miss i e at) =
      rw (fits, e) (missing (row_of_absent rows row_id (IsPlace-ne (row_ids rows) row_id i at)))

  update-Place :
      (payload : List ℕ)
      → Place l rows row_id
      → Updated row_id payload l rows (update_record row_id payload l)
  update-Place payload p = elim (Bool-cases (leb max_value_size (length payload))) [
    | inl big ↦ unfold update_record in rw big (too_large (leb→le _ _ big))
    | inr fits ↦ update_at-Place payload fits p
  ]

-- Every outcome of `update_record` on a well-formed leaf is one of these.
pub update_record-Updated :
    (row_id : ℕ) (payload : List ℕ) {l : LeafNode} {rows : List Record}
    → IsLeaf l rows
    → Updated row_id payload l rows (update_record row_id payload l)
update_record-Updated row_id payload is = update-Place row_id _ _ is payload (place is row_id)

-- Every outcome of `delete_record` on a well-formed leaf is one of these.
pub delete_record-Deleted :
    (row_id : ℕ) {l : LeafNode} {rows : List Record}
    → IsLeaf l rows
    → Deleted row_id l rows (delete_record row_id l)
delete_record-Deleted row_id is = delete-Place row_id _ _ is (place is row_id)
