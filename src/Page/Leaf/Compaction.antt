-- ===== src/Page/Leaf/Compaction.antt =====
-- `compact` keeps the live rows, numbers their slots from 0, and recomputes the free size.
use smol_db.Common.{
  ℕ, ◌+◌, ◌-◌, ◌^◌, ◌≤◌, ◌<◌, ◌≡◌, refl, ap, subst, true, false, inl, inr, List, [], ◌∷◌, ◌++◌,
  none, some, arith, append_assoc, append-nil, if◌then◌else◌, Bool-cases, length, length-append,
  get_elem?-append_left, get_elem?-append_last,
}
use smol_db.Error.Outcome.{ok, panic, Run}
use smol_db.Page.{
  Record, LeafNode, slot_elem_size, page_size, record_meta_size, leaf_node_header_size,
}
use smol_db.Page.Leaf.{
  Compacted, keep_live, nothing_kept, compact_loop, free_after, store_compacted, compact,
}
use smol_db.Page.Leaf.Rows.{Reads}

-- the rows that are not tombstones
abbrev pub live_rows : List Record → List Record
live_rows [] = []
live_rows (r ∷ rows) = if r.is_deleted then live_rows rows else r ∷ live_rows rows

-- what the rows occupy, slots included
abbrev pub bytes_of : List Record → ℕ
bytes_of [] = 0
bytes_of (r ∷ rows) = slot_elem_size + record_meta_size + length r.payload + bytes_of rows

pub bytes_of-append : (xs ys : List Record) → bytes_of (xs ++ ys) ≡ bytes_of xs + bytes_of ys
bytes_of-append [] ys = omega arith
bytes_of-append (x ∷ xs) ys = omega (arith, bytes_of-append xs ys)

pub bytes_of-live_rows : (rows : List Record) → bytes_of (live_rows rows) ≤ bytes_of rows
bytes_of-live_rows [] = omega arith
bytes_of-live_rows (r ∷ rows) = ground (arith, bytes_of-live_rows rows)

pub length-live_rows : (rows : List Record) → length (live_rows rows) ≤ length rows
length-live_rows [] = omega arith
length-live_rows (r ∷ rows) = ground (arith, length-live_rows rows)

pub Reads-push :
    (records : List Record) (slots : List ℕ) (rows : List Record) (rec : Record) (n : ℕ)
    → n ≡ length records
    → Reads records slots rows
    → Reads (records ++ rec ∷ []) (slots ++ n ∷ []) (rows ++ rec ∷ [])
Reads-push records [] [] rec n e h = (rw e (get_elem?-append_last records rec), tt)
Reads-push records [] (q ∷ rows) rec n e h = absurd h
Reads-push records (t ∷ slots) [] rec n e h = absurd h
Reads-push records (t ∷ slots) (q ∷ rows) rec n e h =
    (get_elem?-append_left records (rec ∷ []) t h.0, Reads-push records slots rows rec n e h.1)

-- the accumulator after the live rows `done`
record IsTidy (acc : Compacted) (done : List Record) : Type 0 where
  cleaned : acc.clean_records ≡ done
  reads : Reads acc.clean_records acc.new_slots done
  used : acc.bytes_used ≡ bytes_of done

keep_live-IsTidy :
    (acc : Compacted) (done : List Record) (rec : Record)
    → rec.is_deleted ≡ false
    → length done < 2 ^ 16
    → IsTidy acc done
    → IsTidy (keep_live rec acc) (done ++ rec ∷ [])
unfolding keep_live
keep_live-IsTidy acc done rec live room t = simp live (record {
  cleaned = ap (λ (xs : List Record). xs ++ rec ∷ []) t.cleaned;
  reads =
      Reads-push acc.clean_records acc.new_slots done rec _
        (omega (
          arith,
          length-append acc.clean_records (rec ∷ []),
          ap (λ (xs : List Record). length xs) t.cleaned,
        ))
        t.reads;
  used = omega (arith, t.used, bytes_of-append done (rec ∷ []));
})

keep_live_gone : (acc : Compacted) (rec : Record) → rec.is_deleted ≡ true → keep_live rec acc ≡ acc
unfolding keep_live
keep_live_gone acc rec gone = simp gone

live_rows_live :
    (done rows : List Record) (q : Record)
    → q.is_deleted ≡ false
    → (done ++ q ∷ []) ++ live_rows rows ≡ done ++ live_rows (q ∷ rows)
live_rows_live done rows q live = simp (live, append_assoc)

compact_loop-live :
    (records : List Record) (slots : List ℕ) (rows done : List Record) (acc : Compacted)
    → Reads records slots rows
    → length done + length rows ≤ 2 ^ 16
    → IsTidy acc done
    → (c : Compacted) × (compact_loop records slots acc ≡ ok c) × IsTidy c (done ++ live_rows rows)
unfolding compact_loop
compact_loop-live records [] [] done acc h room t = (acc, refl, rw append-nil t)
compact_loop-live records [] (q ∷ rows) done acc h room t = absurd h
compact_loop-live records (s ∷ slots) [] done acc h room t = absurd h
compact_loop-live records (s ∷ slots) (q ∷ rows) done acc h room t =
    rw h.0 (elim (Bool-cases q.is_deleted) [
      | inl gone ↦
          rw (keep_live_gone acc q gone)
            (simp gone (compact_loop-live records slots rows done acc h.1 (omega arith) t))
      | inr live ↦
          let (c, e, t') =
            compact_loop-live records slots rows (done ++ q ∷ []) (keep_live q acc) h.1
              (omega (arith, length-append done (q ∷ [])))
              (keep_live-IsTidy acc done q live (omega arith) t) in
          (c, e, subst (IsTidy c) (live_rows_live done rows q live) t')
    ])

abbrev pub net_size : List Record → ℕ
net_size rows = leaf_node_header_size + bytes_of rows

-- the leaf that `compact` leaves when the live rows fit
abbrev pub compacted : LeafNode → List Record → List ℕ → LeafNode
compacted l kept slots = record l {
  records = kept;
  slot_array = slots;
  free_size = page_size - net_size kept;
}

free_after_fits : (n : ℕ) → n ≤ page_size → free_after n ≡ some (page_size - n)
unfolding free_after
free_after_fits n h = ground arith

free_after_overflow : (n : ℕ) → page_size < n → free_after n ≡ none
unfolding free_after
free_after_overflow n h = ground arith

store_compacted_fits :
    (l : LeafNode) (c : Compacted) (kept : List Record)
    → IsTidy c kept
    → net_size kept ≤ page_size
    → store_compacted l c ≡ (ok tt, compacted l kept c.new_slots)
unfolding store_compacted
store_compacted_fits l c kept t fits =
    rw
      (
        ap (λ (n : ℕ). free_after (leaf_node_header_size + n)) t.used,
        free_after_fits _ fits,
        store_compacted,
      )
      (ap
        (λ (rs : List Record).
          let l' : LeafNode = record l {
            records = rs;
            slot_array = c.new_slots;
            free_size = page_size - net_size kept;
          } in
          let done : Run LeafNode Unit = (ok tt, l') in done)
        t.cleaned)

store_compacted_overflow :
    (l : LeafNode) (c : Compacted) (kept : List Record)
    → IsTidy c kept
    → page_size < net_size kept
    → (store_compacted l c).0 ≡ panic
unfolding store_compacted
store_compacted_overflow l c kept t over =
    rw
      (
        ap (λ (n : ℕ). free_after (leaf_node_header_size + n)) t.used,
        free_after_overflow _ over,
        store_compacted,
      )
      refl

module _ (l : LeafNode) (rows : List Record) (reads : Reads l.records l.slot_array rows)
    (room : length rows ≤ 2 ^ 16) where
  cleaned :
      (c : Compacted) × (compact_loop l.records l.slot_array nothing_kept ≡ ok c)
      × IsTidy c (live_rows rows)
  cleaned =
      compact_loop-live l.records l.slot_array rows [] nothing_kept reads (omega arith)
        (record { cleaned = refl; reads = tt; used = refl })

  -- If the live rows fit, `compact` keeps exactly them, in order, and the free size is exact.
  pub compact_fits :
      net_size (live_rows rows) ≤ page_size
      → (slots : List ℕ) × (compact l ≡ (ok tt, compacted l (live_rows rows) slots))
        × Reads (live_rows rows) slots (live_rows rows)
  unfolding compact
  compact_fits fits =
      let (c, e, t) = cleaned in
      (c.new_slots, rw e (store_compacted_fits l c _ t fits), rw t.cleaned at t.reads)

  -- If they do not fit, `compact` panics.
  pub compact_overflow : page_size < net_size (live_rows rows) → (compact l).0 ≡ panic
  unfolding compact
  compact_overflow over = let (c, e, t) = cleaned in rw e (store_compacted_overflow l c _ t over)
