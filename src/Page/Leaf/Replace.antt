-- ===== src/Page/Leaf/Replace.antt =====
-- A write to the record of one slot replaces one row.
use smol_db.Common.{
  ◌≡◌, refl, ℕ, some, List, arith, lt→ltb, length-set, get_elem?, get_elem?-lt, set,
}
use smol_db.Error.Outcome.{ok}
use smol_db.Page.{Record, LeafNode}
use smol_db.Page.Leaf.{set_record_at}
use smol_db.Page.Leaf.Rows.{IsLeaf, Reads-get}
use smol_db.Page.Leaf.Edit.{row_ids-set, Reads-set}

module _ (l : LeafNode) (rows : List Record) (is : IsLeaf l rows) (i : ℕ) (r r' : Record)
    (row : get_elem? rows i ≡ some r) (same : r'.row_id ≡ r.row_id) where
  pub set_record_at-row :
      (records : List Record) × (set_record_at l i r' ≡ ok (record l { records = records }))
      × IsLeaf (record l { records = records }) (set rows i r')
  unfolding set_record_at
  set_record_at-row =
      let (s, slot, holds) = Reads-get l.records l.slot_array rows i is.reads row in
      (
        set l.records s r',
        rw (slot, lt→ltb _ _ (get_elem?-lt l.records s holds)) refl,
        record {
          reads =
              Reads-set l.records s r r' holds l.slot_array rows i is.ascending slot row is.reads;
          ascending = rw (row_ids-set rows i r' row same) is.ascending;
          full = omega (arith, is.full, length-set l.records s r', length-set rows i r');
          small = omega (arith, is.small, length-set rows i r');
        },
      )
