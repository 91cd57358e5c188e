-- ===== src/Tree/SplitExamples.antt =====
-- A leaf of the tree that splits, in a pool that calls have filled.
use smol_db.Common.{ℕ, ◌≡◌, refl, true, false, [], ◌∷◌, none, some, arith, replicate, dec_lt, List}
use smol_db.HashMap
use smol_db.Error.Outcome.{ok}
use smol_db.Slice.{binary_search_by_key}
use smol_db.Page.{Record, LeafNode, leaf}
use smol_db.Page.Node.{new_empty, mark_dirty}
use smol_db.Page.Leaf.{
  insert_record, find_slot, record_at, insert_new, footer_len, split, move_records, promoted_key,
  compact, compact_loop, keep_live, store_compacted, free_after,
}
use smol_db.Page.Leaf.Rows.{IsLeaf}
use smol_db.Disk.{default_header, allocate_page}
use smol_db.Disk.Laws.{manager}
use smol_db.Lru as Lru
use smol_db.Wal.Manager.{WalManager}
use smol_db.Pool.{
  BufferPool, new_pool, new_page, with_node, make_room, next_page_id, on_disk, store_frame, access,
  fetch_page, release_handle,
}
use smol_db.Pool.Log.{wal_manager}
use smol_db.Pool.State.{Pooled, new_pool-Pooled}
use smol_db.Pool.Pinned.{Called-Pooled, allocated, written}
use smol_db.Tree.{
  BpTree, SplitResult, insert_leaf, on_tree, insert_pool, holding, attempt, attempted,
  after_attempt, split_leaf, with_leaves, store_leaves, as_leaf, put_leaf, split_insert,
  insert_half, wire, relink, back_link,
}
use smol_db.Tree.Split.{Parted}
use smol_db.Tree.SplitLeaf.{insert_leaf-Parted}

abbrev big : ℕ → Record
big i = record { row_id = i; payload = replicate 400 i; is_deleted = false }

abbrev rows : List Record
rows = big 10 ∷ big 20 ∷ big 30 ∷ big 40 ∷ big 50 ∷ big 60 ∷ big 70 ∷ big 80 ∷ big 90 ∷ []

-- the leaf at 4096, with a right sibling at 8192
abbrev full_leaf : LeafNode
full_leaf = record {
  page_id = 4096;
  last_lsn = 7;
  has_prev = false;
  has_next = true;
  prev_page_id = 0;
  next_page_id = 8192;
  slot_array = 0 ∷ 1 ∷ 2 ∷ 3 ∷ 4 ∷ 5 ∷ 6 ∷ 7 ∷ 8 ∷ [];
  records = rows;
  free_size = 0;
  is_dirty = false;
}

full_leaf-IsLeaf : IsLeaf full_leaf rows
full_leaf-IsLeaf = record {
  reads = (refl, (refl, (refl, (refl, (refl, (refl, (refl, (refl, (refl, tt)))))))));
  ascending = ground arith;
  full = refl;
  small = omega arith;
}

abbrev opened : BufferPool WalManager
opened = new_pool (manager [] [] default_header) 3 none

abbrev one_page : BufferPool WalManager
one_page = (new_page true opened).1

abbrev two_pages : BufferPool WalManager
two_pages = (new_page true one_page).1

abbrev filled : BufferPool WalManager
filled = (with_node 4096 (put_leaf full_leaf) two_pages).1

filled-Pooled : Pooled filled
filled-Pooled = Called-Pooled (written 4096 (put_leaf full_leaf) two_pages) (
    Called-Pooled (allocated true one_page) (
      Called-Pooled (allocated true opened)
        (new_pool-Pooled (manager [] [] default_header) 3 none)))

abbrev split_tree : BpTree WalManager
split_tree = record { buffer_pool = filled; root_page_id = 4096 }

abbrev result : SplitResult
result = record { promoted_row_id = 50; new_page_id = 12288 }

abbrev row_25 : List ℕ
row_25 = replicate 400 25

abbrev after : BpTree WalManager
after = (insert_leaf 4096 25 row_25 9 split_tree).1

filled_4096 :
    HashMap.lookup 4096 filled.page_table ≡ some (record { node = leaf full_leaf; handles = 1 })
unfolding new_page with_node make_room next_page_id on_disk store_frame access new_pool
    allocate_page new_empty HashMap.lookup HashMap.insert HashMap.remove Lru.new Lru.record_access
    Lru.track Lru.allocate Lru.insert_head Lru.unlink Lru.set_prev Lru.set_next Lru.link_next
    Lru.link_prev default_header
filled_4096 = refl

next_free : filled.disk_manager.header.next_free_offset ≡ 12288
unfolding new_page with_node make_room next_page_id on_disk store_frame access new_pool
    allocate_page new_empty HashMap.lookup HashMap.insert HashMap.remove Lru.new Lru.record_access
    Lru.track Lru.allocate Lru.insert_head Lru.unlink Lru.set_prev Lru.set_next Lru.link_next
    Lru.link_prev default_header
next_free = refl

split_runs : insert_leaf 4096 25 row_25 9 split_tree ≡ (ok (some result), after)
unfolding new_page with_node make_room next_page_id on_disk store_frame access new_pool
    allocate_page new_empty HashMap.lookup HashMap.insert HashMap.remove Lru.new Lru.record_access
    Lru.track Lru.allocate Lru.insert_head Lru.unlink Lru.set_prev Lru.set_next Lru.link_next
    Lru.link_prev default_header insert_leaf on_tree insert_pool holding attempt attempted
    after_attempt split_leaf with_leaves store_leaves as_leaf split_insert insert_half wire relink
    back_link fetch_page release_handle mark_dirty insert_record find_slot record_at insert_new
    footer_len split move_records promoted_key compact compact_loop keep_live store_compacted
    free_after binary_search_by_key dec_lt
split_runs = refl

insert_leaf-Parted_example :
    Pooled after.buffer_pool
    × Parted full_leaf 4096 25 row_25 9 result after.buffer_pool
    × (12288 ≡ split_tree.buffer_pool.disk_manager.header.next_free_offset)
insert_leaf-Parted_example =
    insert_leaf-Parted 4096 25 row_25 9 full_leaf rows full_leaf-IsLeaf (omega arith) result
      (record { node = leaf full_leaf; handles = 1 }) split_tree after filled-Pooled filled_4096
      refl (λ e. omega (arith, e, next_free)) split_runs
