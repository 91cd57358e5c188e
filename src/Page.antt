-- ===== src/Page.antt =====
-- page.rs: the data model of a page, and its sizes. The operations are in the modules below.
pub mod Leaf
pub mod Slots
pub mod Cursor
pub mod Node
pub mod Internal
pub mod Codec
mod Examples
use smol_db.Common.{ℕ, ◌+◌, ◌-◌, ◌/◌, List, Bool, replicate}

abbrev pub slot_elem_size : ℕ
slot_elem_size = 2

abbrev pub page_size : ℕ
page_size = 4096

abbrev pub PageId : Type 0
PageId = ℕ

-- the 4096 bytes of a page
pub record Page : Type 0 where
  pub bytes : List ℕ

-- `Page::new`
unfoldable pub new : Page
new = record { bytes = replicate page_size 0 }

abbrev pub index_entry_size : ℕ
index_entry_size = 8 + 8

abbrev pub record_meta_size : ℕ
record_meta_size = 8 + 1 + 4

abbrev pub max_value_size : ℕ
max_value_size = 400

abbrev pub internal_node_header_size : ℕ
internal_node_header_size = 1 + 8 + 8 + 8 + 4 + 2

abbrev pub leaf_node_header_size : ℕ
leaf_node_header_size = 1 + 8 + 8 + 1 + 1 + 8 + 8 + 4 + 2

abbrev pub max_leaf_node_cells : ℕ
max_leaf_node_cells = (page_size - leaf_node_header_size) / (slot_elem_size + record_meta_size)

pub record IndexEntry : Type 0 where
  pub key : ℕ
  pub child_page_id : ℕ

pub record Record : Type 0 where
  pub row_id : ℕ
  pub payload : List ℕ
  pub is_deleted : Bool

pub record InternalNode : Type 0 where
  pub page_id : PageId
  pub last_lsn : ℕ
  pub rightmost_child_id : PageId
  pub slot_array : List ℕ
  pub entries : List IndexEntry
  pub free_size : ℕ
  pub is_dirty : Bool

pub record LeafNode : Type 0 where
  pub page_id : PageId
  pub last_lsn : ℕ
  pub has_prev : Bool
  pub has_next : Bool
  pub prev_page_id : ℕ
  pub next_page_id : ℕ
  pub slot_array : List ℕ
  pub records : List Record
  pub free_size : ℕ
  pub is_dirty : Bool

pub data BTreeNode : Type 0 where
  internal : InternalNode → BTreeNode
  leaf : LeafNode → BTreeNode
