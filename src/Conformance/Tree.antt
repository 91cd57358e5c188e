-- ===== src/Conformance/Tree.antt =====
-- The tests of src/storage/bptree.rs.
use smol_db.Common.{
  ℕ, ◌≡◌, refl, true, not, List, [], ◌∷◌, Option, none, some, ◌==◌, ltb, leb, replicate, get_elem?,
  dec_lt,
}
use smol_db.HashMap
use smol_db.Error.{duplicate_key}
use smol_db.Error.Outcome.{Outcome, ok, err, panic, or_panic, ◌>>=◌}
use smol_db.Slice.{binary_search_by_key}
use smol_db.Page.{PageId}
use smol_db.Page.Node.{new_empty, mark_dirty}
use smol_db.Page.Leaf.{
  insert_record, get_record, find_slot, record_at, insert_new, insert_found, footer_len, split,
  move_records, promoted_key, compact, compact_loop, keep_live, store_compacted, free_after,
}
use smol_db.Disk.{open_disk, default_header, allocate_page}
use smol_db.Lru as Lru
use smol_db.Wal.Manager.{WalManager}
use smol_db.Pool.{
  BufferPool, new_pool, new_page, with_node, with_frame, make_room, next_page_id, on_disk,
  store_frame, access, fetch_page, release_handle,
}
use smol_db.Pool.Log.{wal_manager}
use smol_db.Tree.{
  BpTree, SplitResult, insert_leaf, find_record, find_loop, look, on_tree, insert_pool, holding,
  attempt, attempted, after_attempt, split_leaf, with_leaves, store_leaves, as_leaf, split_insert,
  insert_half, wire, relink, back_link,
}
use smol_db.Tree as Tree
use smol_db.Conformance.{
  Test, assert, assert_eq, is_equal, ◌>>◌, new_file, unwrap, unwrap_run, expect_leaf, node_of,
}

unfoldable setup_pool : Outcome (BufferPool WalManager)
setup_pool = do dm ← unwrap (open_disk none new_file); ok (new_pool dm 20 none)

-- the tree of the tests: a new page, whose frame is not kept, is the root
unfoldable setup_tree : Outcome (BpTree WalManager)
setup_tree = do
  pool ← setup_pool
  (root_id, pool1) ← unwrap_run (new_page true pool)
  (_, pool2) ← unwrap_run (release_handle root_id pool1)
  ok (Tree.new pool2 root_id)

abbrev assert_none : Option SplitResult → Test
assert_none none = ok tt
assert_none (some r) = panic

abbrev assert_found : List ℕ → Option (List ℕ) → Test
assert_found payload (some found) = assert (is_equal found payload)
assert_found payload none = panic

-- `matches!(dup_result, Err(DbError::DuplicateKey(100)))`
abbrev assert_duplicate : {A : Type 0} → ℕ → Outcome A → Test
assert_duplicate key (err (duplicate_key k)) = assert_eq k key
assert_duplicate key (err e) = panic
assert_duplicate key (ok a) = panic
assert_duplicate key panic = panic

unfoldable test_insert_leaf_duplicate_rejection : Test
test_insert_leaf_duplicate_rejection = do
  btree ← setup_tree
  let root_id = Tree.get_root_id btree
  (first, btree1) ← unwrap_run (insert_leaf root_id 100 (1 ∷ 2 ∷ 3 ∷ []) 10 btree)
  assert_none first
  (second, btree2) ← unwrap_run (insert_leaf root_id 101 (4 ∷ 5 ∷ 6 ∷ []) 11 btree1)
  assert_none second
  (found, btree3) ← unwrap_run (find_record 1 100 btree2)
  assert_found (1 ∷ 2 ∷ 3 ∷ []) found
  (other, btree4) ← unwrap_run (find_record 1 101 btree3)
  assert_found (4 ∷ 5 ∷ 6 ∷ []) other
  assert_duplicate 100 (insert_leaf root_id 100 (10 ∷ 11 ∷ 13 ∷ []) 12 btree4).0

-- the loop over the keys, up to the first split
unfoldable insert_keys :
    List ℕ → PageId → BpTree WalManager → Outcome (Option SplitResult × BpTree WalManager)
insert_keys [] root_id btree = ok (none, btree)
insert_keys (key ∷ keys) root_id btree =
    unwrap_run (insert_leaf root_id key (replicate 400 0) key btree) >>= λ (result, btree1).
    elim result [
      | some split_res ↦ ok (some split_res, btree1)
      | none ↦ insert_keys keys root_id btree1
    ]

abbrev fifteen : List ℕ
fifteen = 1 ∷ 2 ∷ 3 ∷ 4 ∷ 5 ∷ 6 ∷ 7 ∷ 8 ∷ 9 ∷ 10 ∷ 11 ∷ 12 ∷ 13 ∷ 14 ∷ 15 ∷ []

unfoldable test_insert_leaf_split_and_sibling_chain : Test
test_insert_leaf_split_and_sibling_chain = do
  btree ← setup_tree
  let root_id = Tree.get_root_id btree
  (split_res, btree1) ← insert_keys fifteen root_id btree
  split_result ← or_panic split_res
  assert (leb 5 split_result.promoted_row_id)
  assert (not (split_result.new_page_id == root_id))
  (_, pool1) ← unwrap_run (fetch_page root_id btree1.buffer_pool)
  (_, pool2) ← unwrap_run (fetch_page split_result.new_page_id pool1)
  left_node ← node_of root_id pool2
  right_node ← node_of split_result.new_page_id pool2
  left ← expect_leaf left_node
  right ← expect_leaf right_node
  assert left.has_next
  assert_eq left.next_page_id split_result.new_page_id
  assert right.has_prev
  assert_eq right.prev_page_id root_id
  slot ← or_panic (get_elem? right.slot_array 0)
  first ← or_panic (get_elem? right.records slot)
  assert_eq first.row_id split_result.promoted_row_id
  assert (ltb 1500 left.free_size)

tree_tests :
    (test_insert_leaf_duplicate_rejection ≡ ok tt)
    × (test_insert_leaf_split_and_sibling_chain ≡ ok tt)
unfolding test_insert_leaf_duplicate_rejection test_insert_leaf_split_and_sibling_chain insert_keys
    setup_tree setup_pool Tree.new Tree.get_root_id open_disk default_header new_pool new_page
    with_node with_frame make_room next_page_id on_disk store_frame access allocate_page fetch_page
    release_handle new_empty mark_dirty HashMap.lookup HashMap.insert HashMap.remove Lru.new
    Lru.record_access Lru.track Lru.allocate Lru.insert_head Lru.unlink Lru.set_prev Lru.set_next
    Lru.link_next Lru.link_prev insert_leaf find_record find_loop look on_tree insert_pool holding
    attempt attempted after_attempt split_leaf with_leaves store_leaves as_leaf split_insert
    insert_half wire relink back_link insert_record get_record find_slot record_at insert_new
    insert_found footer_len split move_records promoted_key compact compact_loop keep_live
    store_compacted free_after binary_search_by_key dec_lt
tree_tests = (refl, refl)
