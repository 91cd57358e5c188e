-- ===== src/Page/Leaf/Laws/Change.antt =====
-- The laws of `update_record` and `delete_record`.
use smol_db.Common.{
  ℕ, ◌≤◌, ◌≡◌, ◌≢◌, refl, sym, ap, subst, ◌⊎◌, inl, inr, List, [], ◌∷◌, Option, none, some, arith,
  ◌==◌, if◌then◌else◌, length,
}
use smol_db.Error.{DbError, tuple_too_large, key_not_found}
use smol_db.Error.Outcome.{ok, err, ◌>>=◌, Run}
use smol_db.Page.{Record, LeafNode, max_value_size}
use smol_db.Page.Leaf.{live_payload, insert_record, update_record, delete_record, get_record}
use smol_db.Page.Leaf.Rows.{live_row, IsLeaf, get_record-live_row}
use smol_db.Page.Leaf.Change.{
  row_of, Updated, written, Deleted, marked, update_record-Updated, delete_record-Deleted,
}
use smol_db.Page.Leaf.Laws.{get_after, insert_record-InsertError}

row_of-live_row :
    (k : ℕ) (rows : List Record) (r : Record)
    → row_of k rows ≡ some r
    → live_row k rows ≡ live_payload r
row_of-live_row k [] r e = ground arith
row_of-live_row k (q ∷ rows) r e = ground (arith, row_of-live_row k rows r)

-- a payload in place of the one found
abbrev pub replaced : List ℕ → Option (List ℕ) → Option (List ℕ)
replaced payload none = none
replaced payload (some old) = some payload

module _ {l : LeafNode} {rows : List Record} (is : IsLeaf l rows) (row_id : ℕ)
    (payload : List ℕ) where
  written_of :
      {l' : LeafNode} (run : Run LeafNode Unit)
      → Updated row_id payload l rows run
      → run ≡ (ok tt, l')
      → (r : Record) × (rows' : List Record) × (row_of row_id rows ≡ some r)
        × IsLeaf l' rows'
        × ((k : ℕ)
            → live_row k rows' ≡ (
                if row_id == k
                then live_payload (record r { payload = payload })
                else live_row k rows))
  written_of _ (written r records rows' row is' live) e = (
    r,
    rows',
    row,
    subst (λ (x : LeafNode). IsLeaf x rows') (ap (λ (r : Run LeafNode Unit). r.1) e) is',
    live,
  )
  written_of _ (Updated.too_large h) e = cc (ap (λ (r : Run LeafNode Unit). r.0) e)
  written_of _ (Updated.missing h) e = cc (ap (λ (r : Run LeafNode Unit). r.0) e)

  -- After a successful `update_record` on a well-formed leaf the id, if it was live, has the payload;
  -- a tombstone stays hidden. Every other id is found as before, and the leaf stays well formed.
  pub get_record-update_record :
      {l' : LeafNode}
      → update_record row_id payload l ≡ (ok tt, l')
      → ((k : ℕ)
          → get_record l' k ≡ (
              if row_id == k
              then (get_record l row_id >>= λ old. ok (replaced payload old))
              else get_record l k))
        × ((rows' : List Record) × IsLeaf l' rows')
  get_record-update_record e =
      let (r, rows', row, is', live) = written_of _ (update_record-Updated row_id payload is) e in
      (
        λ k. ground (
          arith,
          get_record-live_row is k,
          get_record-live_row is row_id,
          get_record-live_row is' k,
          live k,
          row_of-live_row row_id rows r row,
        ),
        (rows', is'),
      )

  update_refused_of :
      {l' : LeafNode} (d : DbError) (run : Run LeafNode Unit)
      → Updated row_id payload l rows run
      → run ≡ (err d, l')
      → (l' ≡ l)
        × (((d ≡ tuple_too_large (length payload)) × (max_value_size ≤ length payload))
            ⊎ ((d ≡ key_not_found row_id) × (row_of row_id rows ≡ none)))
  update_refused_of d _ (written r records rows' row is' live) e =
      cc (ap (λ (r : Run LeafNode Unit). r.0) e)
  update_refused_of d _ (Updated.too_large h) e =
      (sym (ap (λ (r : Run LeafNode Unit). r.1) e), inl (ground arith))
  update_refused_of d _ (Updated.missing h) e =
      (sym (ap (λ (r : Run LeafNode Unit). r.1) e), inr (ground arith))

  -- An error of `update_record` leaves the leaf as it was: the payload reaches the maximum size, or no
  -- record has the id, not even a tombstone.
  pub update_record-err :
      (d : DbError) {l' : LeafNode}
      → update_record row_id payload l ≡ (err d, l')
      → (l' ≡ l)
        × (((d ≡ tuple_too_large (length payload)) × (max_value_size ≤ length payload))
            ⊎ ((d ≡ key_not_found row_id) × (row_of row_id rows ≡ none)))
  update_record-err d e = update_refused_of d _ (update_record-Updated row_id payload is) e

  -- A payload of exactly the maximum size is refused by `update_record` on every leaf, and never
  -- refused for its size by `insert_record`.
  pub maximum_payload :
      length payload ≡ max_value_size
      → (update_record row_id payload l ≡ (err (tuple_too_large max_value_size), l))
        × ((insert_record row_id payload l).0 ≢ err (tuple_too_large max_value_size))
  maximum_payload size = (
    unfold update_record in rw size refl,
    λ e.
        let d : DbError = tuple_too_large max_value_size in
        let why =
          (insert_record-InsertError is row_id payload d
            (λ i. (e i, (insert_record row_id payload l).1))).1 in
        ground arith,
  )

module _ {l : LeafNode} {rows : List Record} (is : IsLeaf l rows) (row_id : ℕ) where
  marked_of :
      {l' : LeafNode} (run : Run LeafNode Unit)
      → Deleted row_id l rows run
      → run ≡ (ok tt, l')
      → (rows' : List Record) × IsLeaf l' rows'
        × ((k : ℕ) → live_row k rows' ≡ (if row_id == k then none else live_row k rows))
  marked_of _ (marked r records rows' row is' live) e = (
    rows',
    subst (λ (x : LeafNode). IsLeaf x rows') (ap (λ (r : Run LeafNode Unit). r.1) e) is',
    live,
  )
  marked_of _ (Deleted.missing h) e = cc (ap (λ (r : Run LeafNode Unit). r.0) e)

  -- After a successful `delete_record` on a well-formed leaf the id is not found and every other id is
  -- found as before; the leaf stays well formed.
  pub get_record-delete_record :
      {l' : LeafNode}
      → delete_record row_id l ≡ (ok tt, l')
      → ((k : ℕ) → get_record l' k ≡ (if row_id == k then ok none else get_record l k))
        × ((rows' : List Record) × IsLeaf l' rows')
  get_record-delete_record e =
      let (rows', is', live) = marked_of _ (delete_record-Deleted row_id is) e in
      (λ k. get_after row_id none is is' k (live k), (rows', is'))

  delete_total :
      (run : Run LeafNode Unit)
      → Deleted row_id l rows run
      → (run.0 ≡ ok tt) ⊎ (run ≡ (err (key_not_found row_id), l))
  delete_total _ (marked r records rows' row is' live) = inl refl
  delete_total _ (Deleted.missing h) = inr refl

  -- `delete_record` on a well-formed leaf does not panic: it succeeds, or answers that the key is not
  -- found and changes nothing.
  pub delete_record_total :
      ((delete_record row_id l).0 ≡ ok tt)
      ⊎ (delete_record row_id l ≡ (err (key_not_found row_id), l))
  delete_record_total = delete_total _ (delete_record-Deleted row_id is)
