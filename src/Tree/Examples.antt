-- ===== src/Tree/Examples.antt =====
-- Runs of the tree, and its theorems at concrete trees.
use smol_db.Error.{page_full, duplicate_key}
use smol_db.HashMap
use smol_db.Tree.Refused.{insert_leaf-refused}
use smol_db.Common.{
  replicate, ℕ, ◌≡◌, refl, false, [], ◌∷◌, none, some, ◌==◌, if◌then◌else◌, arith, dec_lt,
}
use smol_db.Error.Outcome.{ok, err}
use smol_db.Slice.{binary_search_by_key}
use smol_db.Page.{Record, LeafNode}
use smol_db.Page.Leaf.{
  insert_found, insert_record, find_slot, record_at, insert_new, footer_len, split, move_records,
  promoted_key, compact, compact_loop, keep_live, store_compacted, free_after,
}
use smol_db.Page.Leaf.Rows.{IsLeaf, live_row}
use smol_db.Wal.Manager.{WalManager}
use smol_db.Pool.Log.{wal_manager}
use smol_db.Pool.State.{Pooled}
use smol_db.Pool.Sample.{
  row, one_row, one_row-IsLeaf, held_frame, full_pool, full_pool-Pooled, found_4096,
}
use smol_db.Tree.{BpTree, split_insert, insert_half, insert_leaf, find_record}
use smol_db.Tree.Find.{arrived}
use smol_db.Tree.Insert.{find_record-insert_leaf}

abbrev tree : BpTree WalManager
tree = record { buffer_pool = full_pool; root_page_id = 4096 }

abbrev grown : LeafNode
grown = (insert_record 5 (9 ∷ []) one_row).1

insert_runs : insert_record 5 (9 ∷ []) one_row ≡ (ok tt, grown)
unfolding insert_record find_slot record_at insert_new footer_len binary_search_by_key dec_lt
insert_runs = refl

find_record-insert_leaf_example :
    (t' : BpTree WalManager) × (insert_leaf 4096 5 (9 ∷ []) 8 tree ≡ (ok none, t'))
    × Pooled t'.buffer_pool
    × ((find_record 1 3 t').0 ≡ ok (if 5 == 3 then some (9 ∷ []) else live_row 3 (row ∷ [])))
find_record-insert_leaf_example =
    find_record-insert_leaf 4096 5 (9 ∷ []) 8 tree held_frame one_row grown (row ∷ []) 3 1 0
      full_pool-Pooled found_4096 refl one_row-IsLeaf insert_runs arrived (omega arith)

abbrev other_row : Record
other_row = record { row_id = 30; payload = []; is_deleted = false }

abbrev two_rows : LeafNode
two_rows = record one_row { slot_array = 0 ∷ 1 ∷ []; records = row ∷ other_row ∷ [] }

abbrev empty_leaf : LeafNode
empty_leaf = record one_row { slot_array = []; records = [] }

two_rows-IsLeaf : IsLeaf two_rows (row ∷ other_row ∷ [])
two_rows-IsLeaf = record {
  reads = (refl, (refl, tt));
  ascending = ((omega arith, tt), (tt, tt));
  full = refl;
  small = omega arith;
}

abbrev halves : LeafNode × LeafNode
halves = (split_insert 7 (4 ∷ []) (two_rows, empty_leaf)).1

split_runs : split_insert 7 (4 ∷ []) (two_rows, empty_leaf) ≡ (ok 30, (halves.0, halves.1))
unfolding split_insert insert_half split move_records promoted_key compact compact_loop keep_live
    store_compacted free_after insert_record find_slot record_at insert_new footer_len
    binary_search_by_key dec_lt
split_runs = refl

-- a leaf whose upper half has no room for one more large row
abbrev small : ℕ → Record
small i = record { row_id = i; payload = []; is_deleted = false }

abbrev big : ℕ → Record
big i = record { row_id = i; payload = replicate 400 0; is_deleted = false }

abbrev crowded : LeafNode
crowded = record one_row {
  slot_array = 0 ∷ 1 ∷ 2 ∷ 3 ∷ 4 ∷ 5 ∷ 6 ∷ 7 ∷ 8 ∷ 9 ∷ 10 ∷ 11 ∷ 12 ∷ 13 ∷ 14 ∷ 15 ∷ 16 ∷ 17 ∷ [];
  records =
      small 1
      ∷ small 2
      ∷ small 3
      ∷ small 4
      ∷ small 5
      ∷ small 6
      ∷ small 7
      ∷ small 8
      ∷ small 9
      ∷ big 11
      ∷ big 12
      ∷ big 13
      ∷ big 14
      ∷ big 15
      ∷ big 16
      ∷ big 17
      ∷ big 18
      ∷ big 19
      ∷ [];
}

crowded_full : (insert_record 30 (replicate 400 0) crowded).0 ≡ err page_full
unfolding insert_record find_slot record_at insert_new footer_len binary_search_by_key dec_lt
    compact compact_loop keep_live store_compacted free_after
crowded_full = refl

crowded_split : (split_insert 30 (replicate 400 0) (crowded, empty_leaf)).0 ≡ err page_full
unfolding split_insert insert_half split move_records promoted_key compact compact_loop keep_live
    store_compacted free_after insert_record find_slot record_at insert_new footer_len
    binary_search_by_key dec_lt
crowded_split = refl

refused_twice : insert_record 3 (9 ∷ []) one_row ≡ (err (duplicate_key 3), one_row)
unfolding insert_record find_slot record_at insert_found binary_search_by_key dec_lt
refused_twice = refl

insert_leaf-refused_example :
    (t' : BpTree WalManager) × (insert_leaf 4096 3 (9 ∷ []) 8 tree ≡ (err (duplicate_key 3), t'))
    × Pooled t'.buffer_pool
    × (HashMap.lookup 4096 t'.buffer_pool.page_table ≡ HashMap.lookup 4096 full_pool.page_table)
insert_leaf-refused_example =
    insert_leaf-refused 4096 3 (9 ∷ []) 8 (duplicate_key 3) tree held_frame one_row one_row
      (row ∷ []) 4096 full_pool-Pooled found_4096 refl one_row-IsLeaf refused_twice (λ e. cc e)
