-- ===== src/Page/Leaf/Examples.antt =====
-- Runs of the `LeafNode` methods, and the theorems about them at concrete leaves.
use smol_db.Common.{
  dec_lt, ℕ, ◌≤◌, ◌≡◌, ◌≢◌, refl, List, [], ◌∷◌, ◌++◌, none, some, true, false, arith, ltb, ◌==◌,
  if◌then◌else◌, replicate, drop,
}
use smol_db.Error.{duplicate_key, key_not_found, corrupt_page, empty_right_sibling}
use smol_db.Error.Outcome.{ok, err, panic, ◌>>=◌}
use smol_db.Slice.{binary_search_by_key}
use smol_db.Page.{Record, LeafNode, page_size}
use smol_db.Page.Leaf.{
  record_at, keep_live, compact_loop, free_after, store_compacted, compact, find_slot,
  set_record_at, insert_found, footer_len, insert_new, insert_record, update_record, delete_record,
  get_record, move_records, promoted_key, split,
}
use smol_db.Page.Leaf.Rows.{IsLeaf, get_record-live_row}
use smol_db.Page.Leaf.Compaction.{live_rows, net_size}
use smol_db.Page.Leaf.Laws.{
  get_record-insert_record, insert_record-IsLeaf, InsertError, insert_record-InsertError,
}
use smol_db.Page.Leaf.Laws.Change.{replaced, get_record-update_record, get_record-delete_record}
use smol_db.Page.Leaf.Burst.{insert_record_burst, insert_record_safe}
use smol_db.Page.Leaf.Split.{get_record-split, split_hollow}

abbrev row : ℕ → List ℕ → Record
row k p = record { row_id = k; payload = p; is_deleted = false }

abbrev tombstone : ℕ → List ℕ → Record
tombstone k p = record { row_id = k; payload = p; is_deleted = true }

abbrev leaf_of : List ℕ → List Record → LeafNode
leaf_of slots records = record {
  page_id = 4096;
  last_lsn = 7;
  has_prev = false;
  has_next = true;
  prev_page_id = 0;
  next_page_id = 8192;
  slot_array = slots;
  records = records;
  free_size = 4000;
  is_dirty = false;
}

-- the records stand in the order of arrival: 30, 10, 20, and 20 is a tombstone
abbrev sample : LeafNode
sample = leaf_of (1 ∷ 2 ∷ 0 ∷ []) (row 30 [] ∷ row 10 (1 ∷ 2 ∷ []) ∷ tombstone 20 (3 ∷ []) ∷ [])

abbrev sample_rows : List Record
sample_rows = row 10 (1 ∷ 2 ∷ []) ∷ tombstone 20 (3 ∷ []) ∷ row 30 [] ∷ []

sample-IsLeaf : IsLeaf sample sample_rows
sample-IsLeaf = record {
  reads = (refl, (refl, (refl, tt)));
  ascending = omega arith;
  full = refl;
  small = omega arith;
}

get_record-live_row_example : get_record sample 10 ≡ ok (some (1 ∷ 2 ∷ []))
get_record-live_row_example = get_record-live_row sample-IsLeaf 10

abbrev inserted : LeafNode
inserted = record (leaf_of (1 ∷ 3 ∷ 2 ∷ 0 ∷ []) (sample.records ++ row 15 (9 ∷ []) ∷ [])) {
  free_size = 3984;
}

insert_runs : insert_record 15 (9 ∷ []) sample ≡ (ok tt, inserted)
unfolding insert_record find_slot record_at insert_new footer_len binary_search_by_key dec_lt
insert_runs = refl

get_record-insert_record_example :
    get_record inserted 15 ≡ (if 15 == 15 then ok (some (9 ∷ [])) else get_record sample 15)
get_record-insert_record_example = get_record-insert_record sample-IsLeaf 15 (9 ∷ []) insert_runs 15

insert_record-IsLeaf_example :
    (rows : List Record) × IsLeaf inserted rows × (net_size rows ≤ page_size)
insert_record-IsLeaf_example = insert_record-IsLeaf sample-IsLeaf 15 (9 ∷ []) insert_runs

insert_duplicate : insert_record 10 [] sample ≡ (err (duplicate_key 10), sample)
unfolding insert_record find_slot record_at insert_found binary_search_by_key dec_lt
insert_duplicate = refl

insert_record-InsertError_example :
    (sample ≡ sample) × InsertError sample-IsLeaf 10 [] (duplicate_key 10)
insert_record-InsertError_example =
    insert_record-InsertError sample-IsLeaf 10 [] (duplicate_key 10) insert_duplicate

-- a tombstone that is inserted again: the page is compacted on the way
reinsert_runs : insert_record 20 (4 ∷ []) sample ≡ (
  ok tt,
  record (leaf_of (0 ∷ 1 ∷ 2 ∷ []) (row 10 (1 ∷ 2 ∷ []) ∷ row 20 (4 ∷ []) ∷ row 30 [] ∷ [])) {
    free_size = 4007;
  },
)
unfolding insert_record find_slot record_at insert_found set_record_at compact compact_loop
    keep_live store_compacted free_after binary_search_by_key dec_lt
reinsert_runs = refl

abbrev updated : LeafNode
updated =
    leaf_of (1 ∷ 2 ∷ 0 ∷ []) (row 30 (5 ∷ []) ∷ row 10 (1 ∷ 2 ∷ []) ∷ tombstone 20 (3 ∷ []) ∷ [])

update_runs : update_record 30 (5 ∷ []) sample ≡ (ok tt, updated)
unfolding update_record find_slot record_at set_record_at binary_search_by_key dec_lt
update_runs = refl

get_record-update_record_example :
    ((k : ℕ)
      → get_record updated k ≡ (
          if 30 == k
          then (get_record sample 30 >>= λ old. ok (replaced (5 ∷ []) old))
          else get_record sample k))
    × ((rows : List Record) × IsLeaf updated rows)
get_record-update_record_example = get_record-update_record sample-IsLeaf 30 (5 ∷ []) update_runs

update_missing : update_record 11 [] sample ≡ (err (key_not_found 11), sample)
unfolding update_record find_slot record_at binary_search_by_key dec_lt
update_missing = refl

abbrev deleted : LeafNode
deleted =
    leaf_of (1 ∷ 2 ∷ 0 ∷ []) (tombstone 30 [] ∷ row 10 (1 ∷ 2 ∷ []) ∷ tombstone 20 (3 ∷ []) ∷ [])

delete_runs : delete_record 30 sample ≡ (ok tt, deleted)
unfolding delete_record find_slot record_at set_record_at binary_search_by_key dec_lt
delete_runs = refl

get_record-delete_record_example :
    ((k : ℕ) → get_record deleted k ≡ (if 30 == k then ok none else get_record sample k))
    × ((rows : List Record) × IsLeaf deleted rows)
get_record-delete_record_example = get_record-delete_record sample-IsLeaf 30 delete_runs

abbrev left_half : LeafNode
left_half = record (leaf_of (0 ∷ []) (row 10 (1 ∷ 2 ∷ []) ∷ [])) { free_size = 4038 }

abbrev right_half : LeafNode
right_half = record (leaf_of (0 ∷ []) (row 30 [] ∷ [])) { free_size = 4040 }

split_runs : split sample (leaf_of [] []) ≡ (ok 30, (left_half, right_half))
unfolding split move_records promoted_key compact compact_loop keep_live store_compacted free_after
split_runs = refl

get_record-split_example :
    ((lows : List Record) × IsLeaf left_half lows)
    × ((highs : List Record) × IsLeaf right_half highs)
    × ((k : ℕ)
        → get_record sample k
          ≡ (if ltb k 30 then get_record left_half k else get_record right_half k))
get_record-split_example =
    get_record-split sample (leaf_of [] []) sample_rows sample-IsLeaf (omega arith) refl refl 30
      split_runs

-- the upper half holds tombstones alone
abbrev hollow_leaf : LeafNode
hollow_leaf = leaf_of (0 ∷ 1 ∷ []) (row 10 [] ∷ tombstone 20 [] ∷ [])

abbrev hollow_rows : List Record
hollow_rows = row 10 [] ∷ tombstone 20 [] ∷ []

hollow-IsLeaf : IsLeaf hollow_leaf hollow_rows
hollow-IsLeaf = record {
  reads = (refl, (refl, tt));
  ascending = omega arith;
  full = refl;
  small = omega arith;
}

abbrev hollow_left : LeafNode
hollow_left = record (leaf_of (0 ∷ []) (row 10 [] ∷ [])) { free_size = 4040 }

abbrev hollow_right : LeafNode
hollow_right = record (leaf_of [] []) { free_size = 4055 }

hollow_runs :
    split hollow_leaf (leaf_of [] [])
    ≡ (err (corrupt_page empty_right_sibling), (hollow_left, hollow_right))
unfolding split move_records promoted_key compact compact_loop keep_live store_compacted free_after
hollow_runs = refl

split_hollow_example :
    (corrupt_page empty_right_sibling ≡ corrupt_page empty_right_sibling)
    × (live_rows (drop 1 hollow_rows) ≡ [])
    × ((k : ℕ) → get_record hollow_left k ≡ get_record hollow_leaf k)
split_hollow_example =
    split_hollow hollow_leaf (leaf_of [] []) hollow_rows hollow-IsLeaf (omega arith) refl refl
      (corrupt_page empty_right_sibling) hollow_runs

-- nine records of the largest size and a tombstone
abbrev crowded_rows : List Record
crowded_rows =
    row 1 (replicate 400 0)
    ∷ row 2 (replicate 400 0)
    ∷ row 3 (replicate 400 0)
    ∷ row 4 (replicate 400 0)
    ∷ row 5 (replicate 400 0)
    ∷ row 6 (replicate 400 0)
    ∷ row 7 (replicate 400 0)
    ∷ row 8 (replicate 400 0)
    ∷ row 9 (replicate 400 0)
    ∷ tombstone 10 []
    ∷ []

abbrev crowded : LeafNode
crowded = leaf_of (0 ∷ 1 ∷ 2 ∷ 3 ∷ 4 ∷ 5 ∷ 6 ∷ 7 ∷ 8 ∷ 9 ∷ []) crowded_rows

crowded-IsLeaf : IsLeaf crowded crowded_rows
crowded-IsLeaf = record {
  reads = (refl, (refl, (refl, (refl, (refl, (refl, (refl, (refl, (refl, (refl, tt))))))))));
  ascending = omega arith;
  full = refl;
  small = omega arith;
}

insert_record_burst_example : (insert_record 10 (replicate 400 1) crowded).0 ≡ panic
insert_record_burst_example =
    insert_record_burst 10 (replicate 400 1) crowded-IsLeaf refl refl (omega arith) (omega arith)

insert_record_safe_example : (insert_record 10 (1 ∷ []) crowded).0 ≢ panic
insert_record_safe_example = insert_record_safe 10 (1 ∷ []) crowded-IsLeaf (omega arith)
