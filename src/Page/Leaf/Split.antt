-- ===== src/Page/Leaf/Split.antt =====
-- `split` cuts the rows in the middle, and loses none that is live.
use smol_db.Common.{
  ℕ, ◌+◌, ◌-◌, ◌/◌, ◌%◌, ◌^◌, ◌≤◌, ◌≡◌, refl, sym, ap, subst, ◌∙◌, List, [], ◌∷◌, ◌++◌, some, arith,
  ltb, if◌then◌else◌, append_assoc, append-nil, length, length-append, get_elem?, take, drop,
  take-append-drop, length-take, length-drop, IsAscending,
}
use smol_db.Error.{DbError, corrupt_page, empty_right_sibling}
use smol_db.Error.Outcome.{ok, err, panic, Run}
use smol_db.Page.{Record, LeafNode, page_size}
use smol_db.Page.Leaf.{move_records, promoted_key, split, get_record}
use smol_db.Page.Leaf.Rows.{Reads, row_ids, live_row, IsLeaf, get_record-live_row, Reads-get}
use smol_db.Page.Leaf.Compaction.{
  live_rows, bytes_of, bytes_of-append, bytes_of-live_rows, net_size, compact_fits, Reads-push,
}
use smol_db.Page.Leaf.Live.{kept-IsLeaf}
use smol_db.Page.Leaf.Halves.{
  Reads-take, Reads-drop, IsAscending-left, IsAscending-right, live_row-halves, live_row-left_only,
}

-- the sibling after the loop of `split`
abbrev filled : LeafNode → List Record → List ℕ → LeafNode
filled sibling records slots = record sibling { records = records; slot_array = slots }

-- the records read through `slots` are pushed to the sibling, in order
abbrev Moved : List Record → List ℕ → LeafNode → List Record → Type 0
Moved records slots sibling all =
    (slots' : List ℕ) × (move_records records slots sibling ≡ ok (filled sibling all slots'))
    × Reads all slots' all

move_records-append :
    (records : List Record) (slots : List ℕ) (rows : List Record) (sibling : LeafNode)
    → Reads records slots rows
    → length sibling.records + length rows ≤ 2 ^ 16
    → Reads sibling.records sibling.slot_array sibling.records
    → Moved records slots sibling (sibling.records ++ rows)
unfolding move_records
move_records-append records [] [] sibling h room reads =
    rw append-nil (sibling.slot_array, refl, reads)
move_records-append records [] (r ∷ rows) sibling h room reads = absurd h
move_records-append records (s ∷ slots) [] sibling h room reads = absurd h
move_records-append records (s ∷ slots) (r ∷ rows) sibling h room reads =
    let moved = sibling.records ++ r ∷ [] in
    let size : length moved ≡ length sibling.records + 1 = length-append sibling.records (r ∷ []) in
    let n = (length moved - 1) % 2 ^ 16 in
    let place : n ≡ length sibling.records = omega arith in
    let ih =
      move_records-append records slots rows (filled sibling moved (sibling.slot_array ++ n ∷ []))
        h.1 (omega arith)
        (Reads-push sibling.records sibling.slot_array sibling.records r n place reads) in
    rw h.0 (
      subst (Moved records slots (filled sibling moved (sibling.slot_array ++ n ∷ [])))
        (append_assoc sibling.records (r ∷ []) rows) ih)

slots_nil :
    (records : List Record) (slots : List ℕ) (rows : List Record)
    → Reads records slots rows
    → rows ≡ []
    → slots ≡ []
slots_nil records [] rows h e = refl
slots_nil records (s ∷ slots) [] h e = absurd h
slots_nil records (s ∷ slots) (r ∷ rows) h e = cc

-- what `split` leaves of the rows `low` and `high`
data Halved (low high : List Record) : Run (LeafNode × LeafNode) ℕ → Type 0 where
  divided :
      (left right : LeafNode) (r : Record) (rest : List Record)
      → IsLeaf left (live_rows low)
      → IsLeaf right (live_rows high)
      → live_rows high ≡ r ∷ rest
      → Halved low high (ok r.row_id, (left, right))
  hollow :
      (left right : LeafNode)
      → IsLeaf left (live_rows low)
      → live_rows high ≡ []
      → Halved low high (err (corrupt_page empty_right_sibling), (left, right))

promoted_key_empty :
    (left right : LeafNode)
    → right.slot_array ≡ []
    → promoted_key left right ≡ (err (corrupt_page empty_right_sibling), (left, right))
unfolding promoted_key
promoted_key_empty left right e = ground arith

promoted_key_first :
    (left right : LeafNode) (s : ℕ) (r : Record)
    → get_elem? right.slot_array 0 ≡ some s
    → get_elem? right.records s ≡ some r
    → promoted_key left right ≡ (ok r.row_id, (left, right))
unfolding promoted_key
promoted_key_first left right s r slot holds = ground arith

promoted-Halved :
    (low high : List Record) (left right : LeafNode) (kept : List Record)
    → IsLeaf left (live_rows low)
    → IsLeaf right kept
    → live_rows high ≡ kept
    → Halved low high (promoted_key left right)
unfolding promoted_key
promoted-Halved low high left right [] is is' e =
    rw (promoted_key_empty left right (slots_nil right.records right.slot_array [] is'.reads refl))
      (hollow left right is e)
promoted-Halved low high left right (r ∷ rest) is is' e =
    let (s, slot, holds) = Reads-get right.records right.slot_array (r ∷ rest) 0 is'.reads refl in
    rw (promoted_key_first left right s r slot holds) (divided left right r rest is (rw e is') e)

module _ (l sibling : LeafNode) (rows : List Record) (is : IsLeaf l rows)
    (fits : net_size rows ≤ page_size) (empty : sibling.records ≡ [])
    (unused : sibling.slot_array ≡ []) where
  abbrev half : ℕ
  half = length l.slot_array / 2

  bytes_of-halves : bytes_of (take half rows) + bytes_of (drop half rows) ≡ bytes_of rows
  bytes_of-halves =
      sym (bytes_of-append (take half rows) (drop half rows))
      ∙ ap bytes_of (take-append-drop half rows)

  halves-IsAscending : IsAscending (row_ids (take half rows ++ drop half rows))
  halves-IsAscending = rw take-append-drop is.ascending

  upper-Moved : Moved l.records (drop half l.slot_array) sibling (drop half rows)
  upper-Moved =
      let reads : Reads sibling.records sibling.slot_array sibling.records =
        rw (empty, unused) tt in
      subst (λ (all : List Record). Moved l.records (drop half l.slot_array) sibling all)
        (ap (λ (xs : List Record). xs ++ drop half rows) empty)
        (move_records-append l.records (drop half l.slot_array) (drop half rows) sibling
          (Reads-drop l.records half l.slot_array rows is.reads)
          (omega
            (arith, length-drop half rows, is.small, ap (λ (xs : List Record). length xs) empty))
          reads)

  split-Halved : Halved (take half rows) (drop half rows) (split l sibling)
  unfolding split
  split-Halved =
      let (slots, moved, reads) = upper-Moved in
      let left = record l { slot_array = take half l.slot_array } in
      let low : length (take half rows) ≤ 2 ^ 16 = omega (arith, length-take half rows, is.small) in
      let high : length (drop half rows) ≤ 2 ^ 16 =
        omega (arith, length-drop half rows, is.small) in
      let (slots_l, done_l, reads_l) =
        compact_fits left (take half rows) (Reads-take l.records half l.slot_array rows is.reads)
          low (omega (arith, bytes_of-live_rows (take half rows), bytes_of-halves)) in
      let (slots_r, done_r, reads_r) =
        compact_fits (filled sibling (drop half rows) slots) (drop half rows) reads high
          (omega (arith, bytes_of-live_rows (drop half rows), bytes_of-halves)) in
      rw (moved, done_l, done_r)
        (promoted-Halved _ _ _ _ _
          (kept-IsLeaf left (take half rows) slots_l (IsAscending-left _ _ halves-IsAscending) low
            reads_l)
          (kept-IsLeaf (filled sibling (drop half rows) slots) (drop half rows) slots_r
            (IsAscending-right _ _ halves-IsAscending) high reads_r)
          refl)

  -- what a run of `split` promises
  abbrev Sound : List Record → Run (LeafNode × LeafNode) ℕ → Type 0
  Sound high (ok key, (left, right)) =
      ((lows : List Record) × IsLeaf left lows)
      × ((highs : List Record) × IsLeaf right highs)
      × ((k : ℕ) → get_record l k ≡ (if ltb k key then get_record left k else get_record right k))
  Sound high (err d, (left, right)) =
      (d ≡ corrupt_page empty_right_sibling)
      × (live_rows high ≡ [])
      × ((k : ℕ) → get_record left k ≡ get_record l k)
  Sound high (panic, halves) = ⊥

  Halved-Sound :
      (low high : List Record) (run : Run (LeafNode × LeafNode) ℕ)
      → low ++ high ≡ rows
      → Halved low high run
      → Sound high run
  Halved-Sound low high _ cut (divided left right r rest is_l is_r e) =
      let a : IsAscending (row_ids (low ++ high)) = rw cut is.ascending in
      (
        (live_rows low, is_l),
        (live_rows high, is_r),
        λ k. ground (
          arith,
          get_record-live_row is k,
          get_record-live_row is_l k,
          get_record-live_row is_r k,
          live_row-halves low high a r rest k e,
          ap (live_row k) cut,
        ),
      )
  Halved-Sound low high _ cut (hollow left right is_l e) =
      let a : IsAscending (row_ids (low ++ high)) = rw cut is.ascending in
      (
        refl,
        e,
        λ k. cc (
          get_record-live_row is k,
          get_record-live_row is_l k,
          live_row-left_only low high a k e,
          ap (live_row k) cut,
        ),
      )

  split-Sound : Sound (drop half rows) (split l sibling)
  split-Sound =
      Halved-Sound (take half rows) (drop half rows) _ (take-append-drop half rows) split-Halved

  -- A successful `split` of a well-formed leaf that fits its page, into an empty sibling, leaves two
  -- well-formed leaves. Each id is found where it was: in the left leaf below the promoted key, in the
  -- right one from it on.
  pub get_record-split :
      (key : ℕ) {left right : LeafNode}
      → split l sibling ≡ (ok key, (left, right))
      → ((lows : List Record) × IsLeaf left lows)
        × ((highs : List Record) × IsLeaf right highs)
        × ((k : ℕ) → get_record l k ≡ (if ltb k key then get_record left k else get_record right k))
  get_record-split key e = subst (Sound (drop half rows)) e split-Sound

  -- An error of `split` on such leaves says that the right half holds tombstones alone; the left leaf
  -- still finds every id as before.
  pub split_hollow :
      (d : DbError) {left right : LeafNode}
      → split l sibling ≡ (err d, (left, right))
      → (d ≡ corrupt_page empty_right_sibling)
        × (live_rows (drop half rows) ≡ [])
        × ((k : ℕ) → get_record left k ≡ get_record l k)
  split_hollow d e = subst (Sound (drop half rows)) e split-Sound
