-- ===== src/Recovery/Rows.antt =====
-- What the redo of a log makes of the rows of a leaf (recovery.rs): each id has what the last entry
-- behind the lsn of the page leaves there.
use smol_db.Common.{
  ℕ, max, ◌≤◌, ◌<◌, ◌≡◌, true, false, leb→le, refl, sym, ap, subst, ◌∙◌, inl, inr, leb, ltb, ◌&&◌,
  Bool-cases, ◌==◌, if◌then◌else◌, List, [], ◌∷◌, Option, none, some, arith,
}
use smol_db.Error.Outcome.{Outcome, ok, err, panic, ◌>>=◌, Run}
use smol_db.Error.Method.{go_on, go_on-ok}
use smol_db.Page.{Record, LeafNode, BTreeNode, leaf}
use smol_db.Page.Leaf.{get_record}
use smol_db.Page.Leaf.Rows.{IsLeaf, get_record-live_row}
use smol_db.Page.Leaf.Laws.{get_record-insert_record, insert_record-IsLeaf}
use smol_db.Page.Leaf.Laws.Change.{replaced, get_record-update_record, get_record-delete_record}
use smol_db.Page.Node.{mark_dirty, get_last_lsn}
use smol_db.Wal.Entry.{WalOp, insert, update, delete, WalEntry}
use smol_db.Recovery.{apply_op, apply_entry, mark, redo}
use smol_db.Recovery.Redo.{redo_all}

-- what an operation leaves of what was found under its id
abbrev pub wrote : WalOp → List ℕ → Option (List ℕ) → Option (List ℕ)
wrote insert payload old = some payload
wrote update payload old = replaced payload old
wrote delete payload old = none

-- what an entry leaves under the id `k` of a page whose last lsn is `last`
abbrev pub logged : ℕ → ℕ → WalEntry → Option (List ℕ) → Option (List ℕ)
logged k last e old = if ltb last e.lsn && e.row_id == k then wrote e.opcode e.payload old else old

-- what a log leaves there
abbrev pub found_after : ℕ → ℕ → List WalEntry → Option (List ℕ) → Option (List ℕ)
found_after k last [] old = old
found_after k last (e ∷ batch) old = found_after k (max last e.lsn) batch (logged k last e old)

-- the rows of the second leaf are what `change` makes of those of the first
abbrev pub Follows : (ℕ → Option (List ℕ) → Option (List ℕ)) → LeafNode → LeafNode → Type 0
Follows change l l' = (k : ℕ) → get_record l' k ≡ (get_record l k >>= λ old. ok (change k old))

apply_op-Follows :
    (op : WalOp) (e : WalEntry) (l l' : LeafNode) (rows : List Record)
    → IsLeaf l rows
    → apply_op op e l ≡ (ok tt, l')
    → ((rows' : List Record) × IsLeaf l' rows')
      × Follows (λ k old. if e.row_id == k then wrote op e.payload old else old) l l'
unfolding apply_op
apply_op-Follows insert e l l' rows is run =
    let (rows', is', fits) = insert_record-IsLeaf is e.row_id e.payload run in
    (
      (rows', is'),
      λ k.
          ground
            (arith, get_record-live_row is k, get_record-insert_record is e.row_id e.payload run k),
    )
apply_op-Follows update e l l' rows is run =
    let (after, kept) = get_record-update_record is e.row_id e.payload run in
    (kept, λ k. ground (arith, get_record-live_row is k, get_record-live_row is e.row_id, after k))
apply_op-Follows delete e l l' rows is run =
    let (after, kept) = get_record-delete_record is e.row_id run in
    (kept, λ k. ground (arith, get_record-live_row is k, after k))

-- the leaf of a page whose entries were redone
abbrev pub Restored : ℕ → (ℕ → Option (List ℕ) → Option (List ℕ)) → LeafNode → LeafNode → Type 0
Restored last change l l' =
    ((rows' : List Record) × IsLeaf l' rows') × (l'.last_lsn ≡ last) × Follows change l l'

abbrev stamped : ℕ → LeafNode → LeafNode
stamped lsn l = record l { last_lsn = lsn; is_dirty = true }

stamped-Follows :
    (lsn : ℕ) (l l' : LeafNode) (change : ℕ → Option (List ℕ) → Option (List ℕ))
    → (rows' : List Record) × IsLeaf l' rows'
    → Follows change l l'
    → Restored lsn change l (stamped lsn l')
stamped-Follows lsn l l' change (rows', is') follows =
    let is : IsLeaf (stamped lsn l') rows' = record {
      reads = is'.reads;
      ascending = is'.ascending;
      full = is'.full;
      small = is'.small;
    } in
    (
      (rows', is),
      refl,
      λ k. get_record-live_row is k ∙ (sym (get_record-live_row is' k) ∙ follows k),
    )

skipped-Follows :
    (e : WalEntry) (l : LeafNode) (rows : List Record)
    → IsLeaf l rows
    → e.lsn ≤ l.last_lsn
    → Restored (max l.last_lsn e.lsn) (λ k. logged k l.last_lsn e) l l
skipped-Follows e l rows is old =
    ((rows, is), ground (arith, old), λ k. ground (arith, get_record-live_row is k, old))

applied-Follows :
    (e : WalEntry) (l l' : LeafNode) (rows : List Record)
    → IsLeaf l rows
    → l.last_lsn < e.lsn
    → apply_op e.opcode e l ≡ (ok tt, l')
    → Restored (max l.last_lsn e.lsn) (λ k. logged k l.last_lsn e) l (stamped e.lsn l')
applied-Follows e l l' rows is new_entry run =
    let (kept, follows) = apply_op-Follows e.opcode e l l' rows is run in
    let (kept', last, follows') =
      stamped-Follows e.lsn l l'
        (λ k old. if e.row_id == k then wrote e.opcode e.payload old else old) kept follows in
    (
      kept',
      ground (arith, new_entry),
      λ k. ground (arith, follows' k, get_record-live_row is k, new_entry),
    )

redo-Follows :
    (e : WalEntry) (l : LeafNode) (node : BTreeNode) (rows : List Record)
    → IsLeaf l rows
    → redo e (leaf l) ≡ (ok tt, node)
    → (l' : LeafNode) × (node ≡ leaf l')
      × Restored (max l.last_lsn e.lsn) (λ k. logged k l.last_lsn e) l l'
unfolding redo get_last_lsn apply_entry mark_dirty
redo-Follows e l node rows is run = elim (Bool-cases (leb e.lsn l.last_lsn)) [
  | inl old ↦ (
    l,
    ap (λ (r : Run BTreeNode Unit). r.1)
        (sym run
          ∙ ap
              (λ b. elim b [
                | true ↦ (ok tt, leaf l)
                | false ↦ go_on (apply_entry e (leaf l)) (λ _. mark e.lsn)
              ])
              old),
    skipped-Follows e l rows is (leb→le e.lsn l.last_lsn old),
  )
  | inr new_entry ↦
      let run' : go_on (apply_entry e (leaf l)) (λ _. mark e.lsn) ≡ (ok tt, node) =
        sym (
          ap
            (λ b. elim b [
              | true ↦ (ok tt, leaf l)
              | false ↦ go_on (apply_entry e (leaf l)) (λ _. mark e.lsn)
            ])
            new_entry)
        ∙ run in
      let (done, mid, step, rest) =
        go_on-ok (apply_entry e (leaf l)) (λ _. mark e.lsn) tt node run' in
      let l' = (apply_op e.opcode e l).1 in
      let at : leaf l' ≡ mid = ap (λ (r : Run BTreeNode Unit). r.1) step in
      let made : apply_op e.opcode e l ≡ (ok tt, l') =
        ap (λ (r : Run BTreeNode Unit). (r.0, l')) step in
      (
        stamped e.lsn l',
        ap (λ (r : Run BTreeNode Unit). r.1) (sym rest) ∙ ap (mark_dirty e.lsn) (sym at),
        applied-Follows e l l' rows is (ground (arith, new_entry)) made,
      )
]

Follows-Follows :
    (e : WalEntry) (batch : List WalEntry) (l m l' : LeafNode)
    → m.last_lsn ≡ max l.last_lsn e.lsn
    → Follows (λ k. logged k l.last_lsn e) l m
    → Follows (λ k. found_after k m.last_lsn batch) m l'
    → Follows (λ k. found_after k l.last_lsn (e ∷ batch)) l l'
Follows-Follows e batch l m l' last first then_rest k =
    then_rest k
    ∙ (ap (λ x. x >>= λ old. ok (found_after k m.last_lsn batch old)) (first k)
        ∙ bound (get_record l k))
  where
    bound :
        (x : Outcome (Option (List ℕ)))
        → ((x >>= λ old. ok (logged k l.last_lsn e old)) >>= λ old.
            ok (found_after k m.last_lsn batch old))
          ≡ (x >>= λ old. ok (found_after k l.last_lsn (e ∷ batch) old))
    bound (ok old) = ap (λ n. ok (found_after k n batch (logged k l.last_lsn e old))) last
    bound (err d) = refl
    bound panic = refl

-- Where the redo of entries on a well-formed leaf returns, it leaves a well-formed leaf, and each id has
-- what the entries with a higher lsn than those before them, and than the leaf, leave there.
pub redo_all-Follows :
    (batch : List WalEntry) (l : LeafNode) (node : BTreeNode) (rows : List Record)
    → IsLeaf l rows
    → redo_all batch (leaf l) ≡ (ok tt, node)
    → (l' : LeafNode) × (node ≡ leaf l')
      × ((rows' : List Record) × IsLeaf l' rows')
      × Follows (λ k. found_after k l.last_lsn batch) l l'
unfolding redo_all
redo_all-Follows [] l node rows is run = (
  l,
  ap (λ (r : Run BTreeNode Unit). r.1) (sym run),
  (rows, is),
  λ k. ground (arith, get_record-live_row is k),
)
redo_all-Follows (e ∷ batch) l node rows is run =
    let (_, mid, step, rest) = go_on-ok (redo e (leaf l)) (λ _. redo_all batch) tt node run in
    let (m, at, ((rows', is'), last, first)) = redo-Follows e l mid rows is step in
    let (l', same, kept, then_rest) =
      redo_all-Follows batch m node rows' is'
        (subst (λ n. redo_all batch n ≡ (ok tt, node)) at rest) in
    (l', same, kept, Follows-Follows e batch l m l' last first then_rest)
