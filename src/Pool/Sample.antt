-- ===== src/Pool/Sample.antt =====
-- A buffer pool of one page, which is held, over a log.
use smol_db.Common.{◌≡◌, refl, true, false, [], ◌∷◌, none, some, arith, count}
use smol_db.HashMap
use smol_db.Page.{Record, LeafNode, leaf}
use smol_db.Page.Codec.Bytes.{uints, cell_bytes, cells_bytes}
use smol_db.Page.Codec.Cells.{IsRecord}
use smol_db.Page.Codec.RoundTrip.{IsStorable}
use smol_db.Page.Leaf.Rows.{IsLeaf}
use smol_db.Bytes.{to_le_bytes}
use smol_db.Disk.{default_header}
use smol_db.Disk.Laws.{manager}
use smol_db.Wal.Manager.{WalManager, open_log}
use smol_db.Lru.{LruReplacer}
use smol_db.Pool.{BufferPool, Frame}
use smol_db.Pool.Log.{wal_manager}
use smol_db.Pool.State.{Pooled}

abbrev pub row : Record
row = record { row_id = 3; payload = 1 ∷ 2 ∷ []; is_deleted = false }

abbrev pub one_row : LeafNode
one_row = record {
  page_id = 4096;
  last_lsn = 7;
  has_prev = false;
  has_next = false;
  prev_page_id = 0;
  next_page_id = 0;
  slot_array = 0 ∷ [];
  records = row ∷ [];
  free_size = 0;
  is_dirty = true;
}

pub one_row-IsLeaf : IsLeaf one_row (row ∷ [])
one_row-IsLeaf = record {
  reads = (refl, tt);
  ascending = (tt, tt);
  full = refl;
  small = omega arith;
}

row-IsRecord : IsRecord row
row-IsRecord = record { row_id = omega arith; payload = omega arith }

pub one_row-IsStorable : IsStorable one_row (row ∷ [])
unfolding cells_bytes cell_bytes uints to_le_bytes
one_row-IsStorable = record {
  page_id = omega arith;
  last_lsn = omega arith;
  prev_page_id = omega arith;
  next_page_id = omega arith;
  stored = (row-IsRecord, tt);
  fits = omega arith;
}

abbrev pub held_frame : Frame
held_frame = record { node = leaf one_row; handles = 1 }

abbrev pub empty_log : WalManager
empty_log = open_log (record { content = []; durable = []; faults = [] }) true

abbrev pub tracker : LruReplacer
tracker = record {
  pages = (4096, 0) ∷ [];
  arena = record { prev = none; page_id = 4096; next = none } ∷ [];
  head_idx = some 0;
  tail_idx = some 0;
  capacity = 1;
  free_list = [];
}

-- a full pool whose page is held
abbrev pub full_pool : BufferPool WalManager
full_pool = record {
  disk_manager = manager [] [] default_header;
  replacer = tracker;
  page_table = (4096, held_frame) ∷ [];
  capacity = 1;
  wal_flusher = some empty_log;
}

pub full_pool-Pooled : Pooled full_pool
unfolding count HashMap.lookup
full_pool-Pooled = (
  4096 ∷ [],
  [],
  record {
    tracks = (
      (0, 4096) ∷ [],
      record {
        linked = record { head = refl; tail = refl; chain = (refl, tt) };
        slots = λ a. ground arith;
        inside = tt;
        room = omega arith;
        unique = λ a. ground arith;
        mapped = λ k. refl;
        keyed = (refl, tt);
        sized = refl;
        bounded = omega arith;
        held = omega arith;
      },
      refl,
    );
    same = refl;
    members = λ k. ground arith;
    keyed = (refl, tt);
    sized = omega arith;
    fits = omega arith;
  },
)

pub found_4096 : HashMap.lookup 4096 full_pool.page_table ≡ some held_frame
unfolding HashMap.lookup
found_4096 = refl
