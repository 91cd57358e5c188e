-- ===== src/Page/Leaf/Laws.antt =====
-- What a caller of the `LeafNode` methods relies on: a leaf is a map from row ids to payloads, and
-- a refused call changes nothing.
pub mod Change
use smol_db.Common.{
  ℕ, ◌+◌, ◌*◌, ◌≤◌, ◌<◌, ◌≡◌, ◌≢◌, refl, sym, ap, subst, ◌∙◌, ◌⊎◌, inl, inr, true, false, List, [],
  ◌∷◌, Option, none, some, arith, ltb, ◌==◌, if◌then◌else◌, Bool-cases, length,
}
use smol_db.Error.{DbError, page_full, tuple_too_large, duplicate_key, key_not_found}
use smol_db.Error.Outcome.{Outcome, ok, err, panic, ◌>>=◌, Run}
use smol_db.Page.{Record, LeafNode, page_size, slot_elem_size, record_meta_size, max_value_size}
use smol_db.Page.Leaf.{live_payload, insert_record, update_record, delete_record, get_record}
use smol_db.Page.Leaf.Rows.{live_row, IsLeaf, get_record-live_row}
use smol_db.Page.Leaf.Compaction.{live_rows, net_size}
use smol_db.Page.Leaf.Insert
use smol_db.Page.Leaf.Insert.{Inserted, stored, duplicate, full, burst, insert_record-Inserted}
use smol_db.Page.Leaf.Change.{
  row_of, Updated, written, Deleted, marked, update_record-Updated, delete_record-Deleted,
}

-- `get` of the new rows in terms of that of the old ones
pub get_after :
    {l l' : LeafNode} {rows rows' : List Record} (row_id : ℕ) (new : Option (List ℕ))
    → IsLeaf l rows
    → IsLeaf l' rows'
    → (k : ℕ) → live_row k rows' ≡ (if row_id == k then new else live_row k rows)
    → get_record l' k ≡ (if row_id == k then ok new else get_record l k)
get_after row_id new is is' k live =
    ground (arith, get_record-live_row is k, get_record-live_row is' k, live)

module _ {l : LeafNode} {rows : List Record} (is : IsLeaf l rows) (row_id : ℕ)
    (payload : List ℕ) where
  stored_of :
      {l' : LeafNode} (run : Run LeafNode Unit)
      → Inserted row_id payload l rows run
      → run ≡ (ok tt, l')
      → (rows' : List Record) × IsLeaf l' rows'
        × ((k : ℕ) → live_row k rows' ≡ (if row_id == k then some payload else live_row k rows))
        × (net_size rows' ≤ page_size)
  stored_of _ (stored l'' rows' is' live fits) e = (
    rows',
    subst (λ (x : LeafNode). IsLeaf x rows') (ap (λ (r : Run LeafNode Unit). r.1) e) is',
    live,
    fits,
  )
  stored_of _ (Inserted.too_large h) e = cc (ap (λ (r : Run LeafNode Unit). r.0) e)
  stored_of _ (duplicate old h) e = cc (ap (λ (r : Run LeafNode Unit). r.0) e)
  stored_of _ (full h over) e = cc (ap (λ (r : Run LeafNode Unit). r.0) e)
  stored_of _ (burst l'' h over) e = cc (ap (λ (r : Run LeafNode Unit). r.0) e)

  -- After a successful `insert_record` on a well-formed leaf, `get_record` finds the payload under
  -- the row id, and what it found before under every other id.
  pub get_record-insert_record :
      {l' : LeafNode}
      → insert_record row_id payload l ≡ (ok tt, l')
      → (k : ℕ) → get_record l' k ≡ (if row_id == k then ok (some payload) else get_record l k)
  get_record-insert_record e k =
      let (rows', is', live, fits) = stored_of _ (insert_record-Inserted row_id payload is) e in
      get_after row_id (some payload) is is' k (live k)

  -- A successful `insert_record` leaves a well-formed leaf that fits a page.
  pub insert_record-IsLeaf :
      {l' : LeafNode}
      → insert_record row_id payload l ≡ (ok tt, l')
      → (rows' : List Record) × IsLeaf l' rows' × (net_size rows' ≤ page_size)
  insert_record-IsLeaf e =
      let (rows', is', live, fits) = stored_of _ (insert_record-Inserted row_id payload is) e in
      (rows', is', fits)

  -- why `insert_record` refuses
  abbrev pub InsertError : DbError → Type 0
  InsertError e =
      ((e ≡ tuple_too_large (length payload)) × (max_value_size < length payload))
      ⊎ ((e ≡ duplicate_key row_id) × ((old : List ℕ) × (get_record l row_id ≡ ok (some old))))
      ⊎ ((e ≡ page_full)
          × (get_record l row_id ≡ ok none)
          × (page_size < net_size rows + 2 * slot_elem_size + record_meta_size + length payload))

  refused_of :
      {l' : LeafNode} (d : DbError) (run : Run LeafNode Unit)
      → Inserted row_id payload l rows run
      → run ≡ (err d, l')
      → (l' ≡ l) × InsertError d
  refused_of d _ (stored l'' rows' is' live fits) e = cc (ap (λ (r : Run LeafNode Unit). r.0) e)
  refused_of d _ (Inserted.too_large h) e =
      (sym (ap (λ (r : Run LeafNode Unit). r.1) e), inl (ground arith))
  refused_of d _ (duplicate old h) e = (
    sym (ap (λ (r : Run LeafNode Unit). r.1) e),
    inr (inl (ground arith, (old, get_record-live_row is row_id ∙ ap ok h))),
  )
  refused_of d _ (full h over) e = (
    sym (ap (λ (r : Run LeafNode Unit). r.1) e),
    inr (inr (ground arith, get_record-live_row is row_id ∙ ap ok h, over)),
  )
  refused_of d _ (burst l'' h over) e = cc (ap (λ (r : Run LeafNode Unit). r.0) e)

  -- An error of `insert_record` leaves the leaf as it was, and has one of three reasons: the payload
  -- is over the maximum, the id is stored and live, or the id is not live and the page has no room.
  pub insert_record-InsertError :
      (d : DbError) {l' : LeafNode}
      → insert_record row_id payload l ≡ (err d, l')
      → (l' ≡ l) × InsertError d
  insert_record-InsertError d e = refused_of d _ (insert_record-Inserted row_id payload is) e
