-- ===== src/Conformance/Lru.antt =====
-- The tests of src/storage/lru.rs.
use smol_db.Common.{◌≡◌, refl, none, some, length}
use smol_db.HashMap
use smol_db.Error.Outcome.{ok, panic, ◌>>=◌}
use smol_db.Lru.{
  new, record_access, remove, evict, release, unlink, track, allocate, insert_head, link_next,
  link_prev, set_prev, set_next,
}
use smol_db.Conformance.{Test, assert_eq, assert_option, ◌>>◌}

unfoldable test_empty_replacer_evicts_none : Test
test_empty_replacer_evicts_none = do (page, lru) ← evict (new 5); assert_option page none

unfoldable test_lru_eviction_ordering : Test
test_lru_eviction_ordering = do
  lru1 ← record_access 10 (new 3)
  lru2 ← record_access 20 lru1
  lru3 ← record_access 30 lru2
  (first, lru4) ← evict lru3
  assert_option first (some 10)
  (second, lru5) ← evict lru4
  assert_option second (some 20)
  (third, lru6) ← evict lru5
  assert_option third (some 30)
  (last, lru7) ← evict lru6
  assert_option last none

unfoldable test_record_access_promotes_to_mru : Test
test_record_access_promotes_to_mru = do
  lru1 ← record_access 1 (new 3)
  lru2 ← record_access 2 lru1
  lru3 ← record_access 3 lru2
  lru4 ← record_access 1 lru3
  (first, lru5) ← evict lru4
  assert_option first (some 2)
  (second, lru6) ← evict lru5
  assert_option second (some 3)
  (third, lru7) ← evict lru6
  assert_option third (some 1)
  (last, lru8) ← evict lru7
  assert_option last none

unfoldable test_explicit_remove : Test
test_explicit_remove = do
  lru1 ← record_access 10 (new 4)
  lru2 ← record_access 20 lru1
  lru3 ← record_access 30 lru2
  lru4 ← record_access 40 lru3
  lru5 ← remove 20 lru4
  lru6 ← remove 10 lru5
  (first, lru7) ← evict lru6
  assert_option first (some 30)
  (second, lru8) ← evict lru7
  assert_option second (some 40)
  (last, lru9) ← evict lru8
  assert_option last none

unfoldable test_remove_nonexistent_page_is_noop : Test
test_remove_nonexistent_page_is_noop = do
  lru1 ← record_access 1 (new 2)
  lru2 ← remove 999 lru1
  (first, lru3) ← evict lru2
  assert_option first (some 1)
  (last, lru4) ← evict lru3
  assert_option last none

unfoldable test_arena_slot_reuse_via_free_list : Test
test_arena_slot_reuse_via_free_list = do
  lru1 ← record_access 1 (new 3)
  lru2 ← record_access 2 lru1
  assert_eq (length lru2.arena) 2
  (_, lru3) ← evict lru2
  assert_eq (length lru3.free_list) 1
  lru4 ← record_access 3 lru3
  assert_eq (length lru4.arena) 2
  assert_eq (length lru4.free_list) 0

unfoldable test_single_capacity_boundaries : Test
test_single_capacity_boundaries = do
  lru1 ← record_access 100 (new 1)
  assert_option lru1.head_idx (some 0)
  assert_option lru1.tail_idx (some 0)
  lru2 ← record_access 100 lru1
  (page, lru3) ← evict lru2
  assert_option page (some 100)
  assert_option lru3.head_idx none
  assert_option lru3.tail_idx none

unfoldable test_exceeding_capacity_panics : Test
test_exceeding_capacity_panics = do
  lru1 ← record_access 1 (new 2)
  lru2 ← record_access 2 lru1
  lru3 ← record_access 3 lru2
  ok tt

lru_tests :
    (test_empty_replacer_evicts_none ≡ ok tt)
    × (test_lru_eviction_ordering ≡ ok tt)
    × (test_record_access_promotes_to_mru ≡ ok tt)
    × (test_explicit_remove ≡ ok tt)
    × (test_remove_nonexistent_page_is_noop ≡ ok tt)
    × (test_arena_slot_reuse_via_free_list ≡ ok tt)
    × (test_single_capacity_boundaries ≡ ok tt)
    × (test_exceeding_capacity_panics ≡ panic)
unfolding test_empty_replacer_evicts_none test_lru_eviction_ordering
    test_record_access_promotes_to_mru test_explicit_remove test_remove_nonexistent_page_is_noop
    test_arena_slot_reuse_via_free_list test_single_capacity_boundaries
    test_exceeding_capacity_panics record_access remove evict release unlink track allocate
    insert_head link_next link_prev set_prev set_next new HashMap.lookup HashMap.insert
    HashMap.remove
lru_tests = (refl, refl, refl, refl, refl, refl, refl, refl)
