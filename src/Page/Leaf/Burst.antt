-- ===== src/Page/Leaf/Burst.antt =====
-- When `insert_record` panics: a tombstone is given a payload and the compacted page has no room.
use smol_db.Common.{
  ℕ, ◌+◌, ◌≤◌, ◌<◌, ◌≡◌, ◌≢◌, refl, sym, ap, subst, ◌∙◌, true, false, List, some, arith, le→ltb,
  length, get_elem?,
}
use mathlib.Core.Option.{some-injective}
use smol_db.Error.Outcome.{panic, Run}
use smol_db.Slice.Locate.{IsPlace-ne}
use smol_db.Page.{Record, LeafNode, page_size, slot_elem_size, record_meta_size, max_value_size}
use smol_db.Page.Leaf.{insert_found, insert_record}
use smol_db.Page.Leaf.Rows.{row_ids, IsLeaf, Place, hit, miss, place, record_at-row}
use smol_db.Page.Leaf.Replace.{set_record_at-row}
use smol_db.Page.Leaf.Compaction.{live_rows, net_size, compact_overflow}
use smol_db.Page.Leaf.Insert.{
  Inserted, stored, duplicate, full, burst, insert_record-Inserted, bytes_of-revive,
}
use smol_db.Page.Leaf.Change.{row_of, row_of_hit, row_of_absent}

module _ (row_id : ℕ) (payload : List ℕ) {l : LeafNode} {rows : List Record}
    (is : IsLeaf l rows) where
  module _ {r : Record} (row : row_of row_id rows ≡ some r) (gone : r.is_deleted ≡ true)
      (over : page_size
        < net_size (live_rows rows) + slot_elem_size + record_meta_size + length payload) where
    burst_found :
        (i : ℕ) (q : Record)
        → q ≡ r
        → get_elem? rows i ≡ some q
        → (insert_found i row_id payload l).0 ≡ panic
    unfolding insert_found
    burst_found i q same at =
        let dead : q.is_deleted ≡ true = ap (λ (x : Record). x.is_deleted) same ∙ gone in
        let q' : Record = record q { is_deleted = false; payload = payload } in
        let (records, w, is') = set_record_at-row l rows is i q q' at refl in
        rw (record_at-row is i at) (
          simp (dead, w)
            (compact_overflow _ _ is'.reads is'.small
              (omega (arith, bytes_of-revive rows i q q' at dead refl))))

    burst-Place :
        length payload ≤ max_value_size
        → Place l rows row_id
        → (insert_record row_id payload l).0 ≡ panic
    unfolding insert_record
    burst-Place fits (hit i q e at same) =
        let found : row_of row_id rows ≡ some q =
          subst (λ (n : ℕ). row_of n rows ≡ some q) same (row_of_hit rows i q is.ascending at) in
        rw (le→ltb max_value_size (length payload) fits, e)
          (burst_found i q (some-injective _ _ (sym found ∙ row)) at)
    burst-Place fits (miss i e at) =
        cc (row, row_of_absent rows row_id (IsPlace-ne (row_ids rows) row_id i at))

    -- A payload of legal size under the id of a tombstone makes `insert_record` panic when the live
    -- rows leave no room for it: the code compacts the page without a test for room.
    pub insert_record_burst :
        length payload ≤ max_value_size → (insert_record row_id payload l).0 ≡ panic
    insert_record_burst fits = burst-Place fits (place is row_id)

  no_burst :
      (run : Run LeafNode Unit)
      → net_size (live_rows rows) + slot_elem_size + record_meta_size + length payload ≤ page_size
      → Inserted row_id payload l rows run
      → run.0 ≢ panic
  no_burst _ room (stored l' rows' is' live fits) e = cc e
  no_burst _ room (Inserted.too_large h) e = cc e
  no_burst _ room (duplicate old h) e = cc e
  no_burst _ room (full h over) e = cc e
  no_burst _ room (burst l' h over) e = omega arith

  -- With room for the payload beside the live rows `insert_record` does not panic.
  pub insert_record_safe :
      net_size (live_rows rows) + slot_elem_size + record_meta_size + length payload ≤ page_size
      → (insert_record row_id payload l).0 ≢ panic
  insert_record_safe room = no_burst _ room (insert_record-Inserted row_id payload is)
