-- ===== src/Page/Codec/Stored.antt =====
-- A leaf that was changed in memory, written and read back (page.rs): `insert_record`, `encode` and
-- `decode` together.
use smol_db.Common.{
  ℕ, ◌+◌, ◌*◌, ◌^◌, ◌≤◌, ◌<◌, ◌≡◌, refl, sym, ◌∙◌, lt→ltb, List, [], ◌∷◌, some, arith, ◌==◌,
  if◌then◌else◌, length, length-append, All, All-get,
}
use smol_db.Error.{page_full}
use smol_db.Error.Outcome.{ok, err}
use smol_db.Page.{Page, page_size, slot_elem_size, leaf_node_header_size, Record, LeafNode, leaf}
use smol_db.Page.Leaf.{insert_record, get_record}
use smol_db.Page.Leaf.Rows.{IsLeaf, Reads, length-Reads, get_record-live_row}
use smol_db.Page.Leaf.Compaction.{net_size, bytes_of}
use smol_db.Page.Leaf.Laws.{get_record-insert_record, insert_record-IsLeaf}
use smol_db.Page.Codec.{encode, decode, encode_leaf}
use smol_db.Page.Codec.Bytes.{cells_bytes, cell_bytes, length-cell_bytes, footer_len-cells_bytes}
use smol_db.Page.Codec.Cells.{IsRecord}
use smol_db.Page.Codec.RoundTrip.{IsStorable, decode-encode-leaf}

-- the numbers of a leaf fit their machine types
pub record IsTyped (l : LeafNode) : Type 0 where
  pub page_id : l.page_id < 2 ^ 64
  pub last_lsn : l.last_lsn < 2 ^ 64
  pub prev_page_id : l.prev_page_id < 2 ^ 64
  pub next_page_id : l.next_page_id < 2 ^ 64
  pub row_ids : All (λ r. r.row_id < 2 ^ 64) l.records

length-cells_bytes :
    (rows : List Record) → length rows * slot_elem_size + length (cells_bytes rows) ≡ bytes_of rows
unfolding cells_bytes
length-cells_bytes [] = refl
length-cells_bytes (r ∷ rows) = omega (
  arith,
  length-cells_bytes rows,
  length-cell_bytes r,
  length-append (cell_bytes r) (cells_bytes rows),
)

rows-IsRecord :
    (records : List Record) (slots : List ℕ) (rows : List Record)
    → Reads records slots rows
    → All (λ r. r.row_id < 2 ^ 64) records
    → bytes_of rows ≤ page_size
    → All IsRecord rows
rows-IsRecord records [] [] h ids fits = tt
rows-IsRecord records [] (r ∷ rows) h ids fits = absurd h
rows-IsRecord records (s ∷ slots) [] h ids fits = absurd h
rows-IsRecord records (s ∷ slots) (r ∷ rows) (at, h) ids fits = (
  record {
    row_id = All-get (λ (x : Record). x.row_id < 2 ^ 64) records s ids at;
    payload = omega arith;
  },
  rows-IsRecord records slots rows h ids (omega arith),
)

typed-IsStorable :
    (l : LeafNode) (rows : List Record)
    → IsLeaf l rows
    → IsTyped l
    → net_size rows ≤ page_size
    → IsStorable l rows
typed-IsStorable l rows is typed fits = record {
  page_id = typed.page_id;
  last_lsn = typed.last_lsn;
  prev_page_id = typed.prev_page_id;
  next_page_id = typed.next_page_id;
  stored = rows-IsRecord l.records l.slot_array rows is.reads typed.row_ids (omega arith);
  fits = omega (arith, length-cells_bytes rows);
}

-- A record that `insert_record` has stored in a well-formed leaf is found after the leaf was written
-- to a page and read back, and so is every other record that the leaf had: `encode` does not refuse
-- the leaf, and `decode` does not fail.
pub get_record-stored :
    (l l' : LeafNode) (rows : List Record) (row_id : ℕ) (payload : List ℕ) (page : Page)
    → IsLeaf l rows
    → insert_record row_id payload l ≡ (ok tt, l')
    → IsTyped l'
    → length page.bytes ≡ page_size
    → (p : Page) × (back : LeafNode) × (encode (leaf l') page ≡ ok p)
      × (decode p ≡ ok (leaf back))
      × ((k : ℕ) → get_record back k ≡ (if row_id == k then ok (some payload) else get_record l k))
get_record-stored l l' rows row_id payload page is run typed whole =
    let (rows', is', fits) = insert_record-IsLeaf is row_id payload run in
    let (p, back, wrote, size, read, is_back, same, rest) =
      decode-encode-leaf l' rows' page is' (typed-IsStorable l' rows' is' typed fits) whole in
    (
      p,
      back,
      wrote,
      read,
      λ k.
          get_record-live_row is_back k
          ∙ (sym (get_record-live_row is' k) ∙ get_record-insert_record is row_id payload run k),
    )

-- A well-formed leaf whose rows need more than a page is refused by `encode` with `PageFull`.
pub encode-PageFull :
    (l : LeafNode) (rows : List Record) (page : Page)
    → IsLeaf l rows
    → page_size < net_size rows
    → encode (leaf l) page ≡ err page_full
unfolding encode encode_leaf
encode-PageFull l rows page is over =
    let size = length-Reads l.records l.slot_array rows is.reads in
    rw
      (
        footer_len-cells_bytes l.records l.slot_array rows is.reads,
        lt→ltb page_size
            (leaf_node_header_size
              + length l.slot_array * slot_elem_size
              + length (cells_bytes rows))
            (omega (arith, size, length-cells_bytes rows)),
      )
      refl
