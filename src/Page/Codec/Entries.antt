-- ===== src/Page/Codec/Entries.antt =====
-- The bytes of an internal node, as `BTreeNode::encode` writes and `BTreeNode::decode` reads them
-- (page.rs).
use smol_db.Common.{
  ℕ, ◌+◌, ◌*◌, ◌%◌, ◌^◌, ◌≤◌, ◌<◌, ◌≡◌, ◌∙◌, refl, sym, ap, false, List, [], ◌∷◌, ◌++◌,
  append_assoc, append-nil, arith, lt→ltb, length, length-append, length-set, set, drop, drop-drop,
  length-drop, replicate, All,
}
use smol_db.Bytes.{to_le_bytes, length-to_le_bytes}
use smol_db.Error.Outcome.{ok}
use smol_db.Page.{
  IndexEntry, InternalNode, index_entry_size, slot_elem_size, internal_node_header_size,
}
use smol_db.Page.Slots.{Reads, scatter}
use smol_db.Page.Cursor.{between, read_uint-between}
use smol_db.Page.Codec.{
  slot_fields, internal_fields, write_entries, default_entry, read_slots, read_entries,
  decode_internal,
}
use smol_db.Page.Codec.Bytes.{uints, write_uints-between}
use smol_db.Page.Codec.Cells.{read_slots-between}
use smol_db.Page.Codec.Fields.{skip-append, uints-append, length-slot_fields}

abbrev pub entry_fields : IndexEntry → List (ℕ × ℕ)
entry_fields e = (8, e.key) ∷ (8, e.child_page_id) ∷ []

unfoldable pub entries_bytes : List IndexEntry → List ℕ
entries_bytes [] = []
entries_bytes (e ∷ es) = uints (entry_fields e) ++ entries_bytes es

length-entry_fields : (e : IndexEntry) → length (uints (entry_fields e)) ≡ index_entry_size
unfolding uints
length-entry_fields e = simp (length-append, length-to_le_bytes) refl

pub length-entries_bytes :
    (es : List IndexEntry) → length (entries_bytes es) ≡ length es * index_entry_size
unfolding entries_bytes
length-entries_bytes [] = refl
length-entries_bytes (e ∷ es) = omega (
  arith,
  length-append (uints (entry_fields e)) (entries_bytes es),
  length-entry_fields e,
  length-entries_bytes es,
)

pub write_entries-between :
    (entries : List IndexEntry) (slots : List ℕ) (es : List IndexEntry) (behind ahead : List ℕ)
    → Reads entries slots es
    → length (entries_bytes es) ≤ length ahead
    → write_entries entries slots (between behind ahead)
      ≡ ok (between (behind ++ entries_bytes es) (drop (length (entries_bytes es)) ahead))
unfolding write_entries entries_bytes
write_entries-between entries [] [] behind ahead h fits = rw (append-nil behind) refl
write_entries-between entries [] (e ∷ es) behind ahead h fits = absurd h
write_entries-between entries (s ∷ slots) [] behind ahead h fits = absurd h
write_entries-between entries (s ∷ slots) (e ∷ es) behind ahead (at, h) fits =
    let first = uints (entry_fields e) in
    let total = length-append first (entries_bytes es) in
    rw
      (
        at,
        write_uints-between (entry_fields e) behind ahead (omega (arith, total, fits)),
        write_entries-between entries slots es (behind ++ first) (drop (length first) ahead) h
            (omega (arith, fits, total, length-drop (length first) ahead)),
        drop-drop (length (entries_bytes es)) (length first) (length (first ++ entries_bytes es))
            ahead total,
        append_assoc behind first (entries_bytes es),
      )
      refl

-- an entry whose integers fit their machine types
abbrev pub IsEntryField : IndexEntry → Type 0
IsEntryField e = (e.key < 2 ^ 64) × (e.child_page_id < 2 ^ 64)

entry_fields-flat :
    (e : IndexEntry) (rest : List ℕ)
    → uints (entry_fields e) ++ rest
      ≡ to_le_bytes 8 e.key ++ (to_le_bytes 8 e.child_page_id ++ rest)
unfolding uints
entry_fields-flat e rest = simp (append_assoc, append-nil)

pub read_entries-between :
    (slots : List ℕ) (es entries : List IndexEntry) (behind ahead : List ℕ)
    → length slots ≡ length es
    → All (λ s. s < length entries) slots
    → All IsEntryField es
    → read_entries slots entries (between behind (entries_bytes es ++ ahead))
      ≡ ok (scatter slots es entries, between (behind ++ entries_bytes es) ahead)
unfolding read_entries entries_bytes
read_entries-between [] [] entries behind ahead e h is = rw (append-nil behind) refl
read_entries-between [] (r ∷ es) entries behind ahead e h is = absurd (omega arith)
read_entries-between (s ∷ slots) [] entries behind ahead e h is = absurd (omega arith)
read_entries-between (s ∷ slots) (r ∷ es) entries behind ahead e (at, h) ((key, child), are) =
    let a = to_le_bytes 8 r.key in
    let b = to_le_bytes 8 r.child_page_id in
    let others = entries_bytes es in
    let h' : All (λ t. t < length (set entries s r)) slots = rw (length-set entries s r) h in
    rw
      (
        entry_fields-flat r others,
        append_assoc a (b ++ others) ahead,
        append_assoc b others ahead,
        read_uint-between 8 r.key behind (b ++ (others ++ ahead)) (omega (arith, key)),
        read_uint-between 8 r.child_page_id (behind ++ a) (others ++ ahead) (omega (arith, child)),
        lt→ltb s (length entries) at,
        read_entries-between slots es (set entries s r) ((behind ++ a) ++ b) ahead (omega arith) h'
            are,
        append_assoc (behind ++ a) b others,
        append_assoc behind a (b ++ others),
      )
      refl

-- `decode_internal` on the fields in order
pub decode_internal-flat :
    (page_id lsn right n free : ℕ) (slots gap behind : List ℕ) (es : List IndexEntry)
    → page_id < 256 ^ 8
    → lsn < 256 ^ 8
    → right < 256 ^ 8
    → n < 256 ^ 4
    → free < 256 ^ 2
    → n ≡ length slots
    → length slots ≡ length es
    → free ≡ length gap
    → All (λ s. s < 2 ^ 16) slots
    → All (λ s. s < length (replicate n default_entry)) slots
    → All IsEntryField es
    → decode_internal (
        between behind (
          to_le_bytes 8 page_id
          ++ (to_le_bytes 8 lsn
              ++ (to_le_bytes 8 right
                  ++ (to_le_bytes 4 n
                      ++ (uints (slot_fields slots)
                          ++ (to_le_bytes 2 free ++ (gap ++ (entries_bytes es ++ [])))))))))
      ≡ ok (record {
        page_id = page_id;
        last_lsn = lsn;
        rightmost_child_id = right;
        slot_array = slots;
        entries = scatter slots es (replicate n default_entry);
        free_size = free;
        is_dirty = false;
      })
unfolding decode_internal
decode_internal-flat page_id lsn right n free slots gap behind es h1 h2 h3 h4 h5 counts e gaps small
      inside are =
    rw
      (
        read_uint-between 8 page_id _ _ h1,
        read_uint-between 8 lsn _ _ h2,
        read_uint-between 8 right _ _ h3,
        read_uint-between 4 n _ _ h4,
        ap read_slots counts,
        read_slots-between slots _ _ small,
        read_uint-between 2 free _ _ h5,
        skip-append gap _ _ free gaps,
        read_entries-between slots es (replicate n default_entry) _ _ e inside are,
      )
      refl

-- the fields of the header in order, before `rest`
pub internal_fields-flat :
    (node : InternalNode) (free : ℕ) (rest : List ℕ)
    → uints (internal_fields node free) ++ rest
      ≡ to_le_bytes 1 0
        ++ (to_le_bytes 8 node.page_id
            ++ (to_le_bytes 8 node.last_lsn
                ++ (to_le_bytes 8 node.rightmost_child_id
                    ++ (to_le_bytes 4 (length node.slot_array % 2 ^ 32)
                        ++ (uints (slot_fields node.slot_array) ++ (to_le_bytes 2 free ++ rest))))))
unfolding internal_fields uints
internal_fields-flat node free rest = simp (append_assoc, append-nil, uints-append)

pub length-internal_fields :
    (node : InternalNode) (free : ℕ)
    → length (uints (internal_fields node free))
      ≡ internal_node_header_size + length node.slot_array * slot_elem_size
length-internal_fields node free =
    let whole =
      ap length (
        sym (append-nil (uints (internal_fields node free))) ∙ internal_fields-flat node free []) in
    rw whole (simp (length-append, length-to_le_bytes, length-slot_fields) (omega arith))
