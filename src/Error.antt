-- ===== src/Error.antt =====
-- error.rs.
pub mod Outcome
pub mod Method
use smol_db.Common.{ℕ}

-- `std::io::Error`: the end of the file inside an exact read, and every other failure.
pub data IoError : Type 0 where
  unexpected_eof : IoError
  other : IoError

-- The messages of `CorruptPage`, as values.
pub data Corruption : Type 0 where
  empty_right_sibling : Corruption
  unknown_node_type : ℕ → Corruption
  invalid_wal_op : ℕ → Corruption
  wal_header_too_small : ℕ → Corruption
  wal_payload_too_small : ℕ → ℕ → Corruption
  torn_write : ℕ → Corruption
  record_into_internal_node : Corruption
  data_on_routing_node : Corruption

pub data DbError : Type 0 where
  page_not_found : ℕ → DbError
  page_full : DbError
  tuple_too_large : ℕ → DbError
  io : IoError → DbError
  corrupt_page : Corruption → DbError
  lru_eviction : DbError
  duplicate_key : ℕ → DbError
  key_not_found : ℕ → DbError
