-- ===== src/Page/Examples.antt =====
-- Runs of the methods of internal nodes, and their theorem at a concrete node.
use smol_db.Common.{ℕ, length, length-replicate, ◌≡◌, refl, List, [], ◌∷◌, false, arith, dec_lt}
use smol_db.Error.Outcome.{ok}
use smol_db.Slice.{partition_point}
use smol_db.Page as Page
use smol_db.Page.{IndexEntry, InternalNode, internal, page_size}
use smol_db.Page.Codec.{encode, decode}
use smol_db.Page.Codec.Routing.{IsStorableNode, decode-encode-internal}
use smol_db.Page.Internal.{IsInternal, entry_at, route_key, route_key-child_for}

abbrev two_entries : List IndexEntry
two_entries =
    record { key = 10; child_page_id = 4096 } ∷ record { key = 20; child_page_id = 8192 } ∷ []

-- the entries stand in the order of arrival
abbrev sample_node : InternalNode
sample_node = record {
  page_id = 12288;
  last_lsn = 3;
  rightmost_child_id = 16384;
  slot_array = 1 ∷ 0 ∷ [];
  entries =
      record { key = 20; child_page_id = 8192 } ∷ record { key = 10; child_page_id = 4096 } ∷ [];
  free_size = 0;
  is_dirty = false;
}

sample_node-IsInternal : IsInternal sample_node two_entries
sample_node-IsInternal = record {
  reads = (refl, (refl, tt));
  ascending = ((omega arith, tt), (tt, tt));
}

route_runs : route_key sample_node 20 ≡ ok 16384
unfolding route_key entry_at partition_point dec_lt
route_runs = refl

route_key-child_for_example : route_key sample_node 15 ≡ ok 8192
route_key-child_for_example = route_key-child_for sample_node two_entries 15 sample_node-IsInternal

sample_node-IsStorableNode : IsStorableNode sample_node two_entries
sample_node-IsStorableNode = record {
  page_id = omega arith;
  last_lsn = omega arith;
  rightmost = omega arith;
  stored = ((omega arith, omega arith), ((omega arith, omega arith), tt));
  full = refl;
  fits = omega arith;
}

length-blank : length Page.new.bytes ≡ page_size
unfolding Page.new
length-blank = length-replicate {A = ℕ} page_size 0

decode-encode-internal_example :
    (p : Page.Page) × (node' : InternalNode) × (encode (internal sample_node) Page.new ≡ ok p)
    × (length p.bytes ≡ page_size)
    × (decode p ≡ ok (internal node'))
    × IsInternal node' two_entries
    × (node' ≡ record sample_node {
      entries = node'.entries;
      free_size = node'.free_size;
      is_dirty = false;
    })
    × (route_key node' 15 ≡ route_key sample_node 15)
decode-encode-internal_example =
    decode-encode-internal sample_node two_entries Page.new 15 sample_node-IsInternal
      sample_node-IsStorableNode length-blank
