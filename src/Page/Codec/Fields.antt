-- ===== src/Page/Codec/Fields.antt =====
-- The header of a leaf page, written by `BTreeNode::encode` and read by `BTreeNode::decode` (page.rs).
use smol_db.Common.{
  ℕ, ◌+◌, ◌*◌, ◌%◌, ◌^◌, ◌<◌, ◌≡◌, refl, sym, ap, ◌∙◌, Bool, false, List, [], ◌∷◌, ◌++◌,
  append_assoc, append-nil, arith, length, length-append, replicate, All,
}
use smol_db.Bytes.{to_le_bytes, length-to_le_bytes}
use smol_db.Error.Outcome.{ok}
use smol_db.Page.{slot_elem_size, leaf_node_header_size, Record, LeafNode}
use smol_db.Page.Cursor.{skip, between, read_uint-between}
use smol_db.Page.Codec.{bit, slot_fields, leaf_fields, default_record, read_slots, decode_leaf}
use smol_db.Page.Codec.Bytes.{uints, cells_bytes}
use smol_db.Page.Codec.Cells.{IsRecord, bit-Bound, not-bit, read_slots-between, read_cells-between}
use smol_db.Page.Slots.{scatter}

pub skip-append :
    (gap behind ahead : List ℕ) (n : ℕ)
    → n ≡ length gap
    → skip n (between behind (gap ++ ahead)) ≡ between (behind ++ gap) ahead
unfolding skip
skip-append gap behind ahead n e =
    rw (e, sym (length-append behind gap), sym (append_assoc behind gap ahead)) refl

-- `decode_leaf` on the fields in order
pub decode_leaf-flat :
    (page_id lsn prev next n free : ℕ) (has_prev has_next : Bool) (slots gap behind : List ℕ)
    (rows : List Record)
    → page_id < 256 ^ 8
    → lsn < 256 ^ 8
    → prev < 256 ^ 8
    → next < 256 ^ 8
    → n < 256 ^ 4
    → free < 256 ^ 2
    → n ≡ length slots
    → length slots ≡ length rows
    → free ≡ length gap
    → All (λ s. s < 2 ^ 16) slots
    → All (λ s. s < length (replicate n default_record)) slots
    → All IsRecord rows
    → decode_leaf (
        between behind (
          to_le_bytes 8 page_id
          ++ (to_le_bytes 8 lsn
              ++ (to_le_bytes 1 (bit has_prev)
                  ++ (to_le_bytes 1 (bit has_next)
                      ++ (to_le_bytes 8 prev
                          ++ (to_le_bytes 8 next
                              ++ (to_le_bytes 4 n
                                  ++ (uints (slot_fields slots)
                                      ++ (to_le_bytes 2 free
                                          ++ (gap ++ (cells_bytes rows ++ []))))))))))))
      ≡ ok (record {
        page_id = page_id;
        last_lsn = lsn;
        has_prev = has_prev;
        has_next = has_next;
        prev_page_id = prev;
        next_page_id = next;
        slot_array = slots;
        records = scatter slots rows (replicate n default_record);
        free_size = free;
        is_dirty = false;
      })
unfolding decode_leaf
decode_leaf-flat page_id lsn prev next n free has_prev has_next slots gap behind rows h1 h2 h3 h4 h5
      h6 counts e gaps small inside are =
    rw
      (
        read_uint-between 8 page_id _ _ h1,
        read_uint-between 8 lsn _ _ h2,
        read_uint-between 1 (bit has_prev) _ _ (bit-Bound has_prev),
        read_uint-between 1 (bit has_next) _ _ (bit-Bound has_next),
        read_uint-between 8 prev _ _ h3,
        read_uint-between 8 next _ _ h4,
        read_uint-between 4 n _ _ h5,
        ap read_slots counts,
        read_slots-between slots _ _ small,
        read_uint-between 2 free _ _ h6,
        skip-append gap _ _ free gaps,
        read_cells-between slots rows (replicate n default_record) _ _ e inside are,
        not-bit has_prev,
        not-bit has_next,
      )
      refl

pub uints-append : (xs ys : List (ℕ × ℕ)) → uints (xs ++ ys) ≡ uints xs ++ uints ys
unfolding uints
uints-append [] ys = refl
uints-append ((w, v) ∷ xs) ys = rw (uints-append xs ys, append_assoc) refl

pub length-slot_fields : (slots : List ℕ) → length (uints (slot_fields slots)) ≡ length slots * 2
unfolding uints slot_fields
length-slot_fields [] = refl
length-slot_fields (s ∷ slots) = omega (
  arith,
  length-slot_fields slots,
  length-append (to_le_bytes 2 s) (uints (slot_fields slots)),
  length-to_le_bytes 2 s,
)

-- the fields of the header in order, before `rest`
pub leaf_fields-flat :
    (l : LeafNode) (free : ℕ) (rest : List ℕ)
    → uints (leaf_fields l free) ++ rest
      ≡ to_le_bytes 1 1
        ++ (to_le_bytes 8 l.page_id
            ++ (to_le_bytes 8 l.last_lsn
                ++ (to_le_bytes 1 (bit l.has_prev)
                    ++ (to_le_bytes 1 (bit l.has_next)
                        ++ (to_le_bytes 8 l.prev_page_id
                            ++ (to_le_bytes 8 l.next_page_id
                                ++ (to_le_bytes 4 (length l.slot_array % 2 ^ 32)
                                    ++ (uints (slot_fields l.slot_array)
                                        ++ (to_le_bytes 2 free ++ rest)))))))))
unfolding leaf_fields uints
leaf_fields-flat l free rest = simp (append_assoc, append-nil, uints-append)

pub length-leaf_fields :
    (l : LeafNode) (free : ℕ)
    → length (uints (leaf_fields l free))
      ≡ leaf_node_header_size + length l.slot_array * slot_elem_size
length-leaf_fields l free =
    let whole =
      ap length (sym (append-nil (uints (leaf_fields l free))) ∙ leaf_fields-flat l free []) in
    rw whole (simp (length-append, length-to_le_bytes, length-slot_fields) (omega arith))
