-- ===== src/Recovery/Redo.antt =====
-- `apply_entry` behind the guard of `replay` (recovery.rs): redo is idempotent.
use smol_db.Common.{
  ℕ, ◌≤◌, ◌≡◌, refl, sym, ap, ◌∙◌, inl, inr, leb, leb→le, le→leb, Bool-cases, List, [], ◌∷◌, ◌++◌,
  All, arith,
}
use smol_db.Error.Outcome.{ok, err, panic, Run}
use smol_db.Error.Method.{Method, ◌>>◌, go_on, return, go_on-ok, go_on_assoc}
use smol_db.Page.{BTreeNode}
use smol_db.Page.Node.{get_last_lsn, mark_dirty-Tracked}
use smol_db.Wal.Entry.{WalEntry}
use smol_db.Recovery.{apply_entry, mark, redo}

-- the redo of a batch on one node
unfoldable pub redo_all : List WalEntry → Method BTreeNode Unit
redo_all [] = return tt
redo_all (e ∷ batch) = redo e >> redo_all batch

-- the node has every change of the batch
abbrev pub Reflects : List WalEntry → BTreeNode → Type 0
Reflects batch node = All (λ e. e.lsn ≤ get_last_lsn node) batch

redo_skip :
    (e : WalEntry) (node : BTreeNode) → e.lsn ≤ get_last_lsn node → redo e node ≡ (ok tt, node)
unfolding redo
redo_skip e node h = rw (redo, le→leb e.lsn (get_last_lsn node) h) refl

-- a change is marked with its number
marked :
    (lsn : ℕ) (run : Run BTreeNode Unit)
    → (go_on run (λ _. mark lsn)).0 ≡ ok tt
    → get_last_lsn (go_on run (λ _. mark lsn)).1 ≡ lsn
marked lsn (ok done, node) h = (mark_dirty-Tracked lsn node).1
marked lsn (err e, node) h = cc h
marked lsn (panic, node) h = cc h

-- an entry that is redone is reflected, and no lsn falls
redo-Reflects :
    (e : WalEntry) (node : BTreeNode)
    → (redo e node).0 ≡ ok tt
    → (e.lsn ≤ get_last_lsn (redo e node).1) × (get_last_lsn node ≤ get_last_lsn (redo e node).1)
unfolding redo get_last_lsn
redo-Reflects e node = elim (Bool-cases (leb e.lsn (get_last_lsn node))) [
  | inl old ↦ rw (redo, old) (λ h. (leb→le e.lsn (get_last_lsn node) old, omega arith))
  | inr new_entry ↦
      rw (redo, new_entry)
        (λ h.
          let same = marked e.lsn (apply_entry e node) h in
          (omega (arith, same), ground (arith, same, new_entry)))
]

Reflects-later :
    (batch : List WalEntry) (node node' : BTreeNode)
    → get_last_lsn node ≤ get_last_lsn node'
    → Reflects batch node
    → Reflects batch node'
Reflects-later [] node node' le h = tt
Reflects-later (e ∷ batch) node node' le h =
    (omega (arith, h.0, le), Reflects-later batch node node' le h.1)

redo_all-Reflects :
    (batch : List WalEntry) (node node' : BTreeNode)
    → redo_all batch node ≡ (ok tt, node')
    → Reflects batch node' × (get_last_lsn node ≤ get_last_lsn node')
unfolding redo_all
redo_all-Reflects [] node node' run =
    (tt, omega (arith, ap (λ (r : Run BTreeNode Unit). get_last_lsn r.1) run))
redo_all-Reflects (e ∷ batch) node node' run =
    let (_, mid, step, rest) = go_on-ok (redo e node) (λ _. redo_all batch) tt node' run in
    let (reflected, le) = redo_all-Reflects batch mid node' rest in
    let at : (redo e node).1 ≡ mid = ap (λ (r : Run BTreeNode Unit). r.1) step in
    let (here, up) = redo-Reflects e node (ap (λ (r : Run BTreeNode Unit). r.0) step) in
    (
      (omega (arith, here, ap get_last_lsn at, le), reflected),
      omega (arith, up, ap get_last_lsn at, le),
    )

redo_all_skip :
    (batch : List WalEntry) (node : BTreeNode)
    → Reflects batch node
    → redo_all batch node ≡ (ok tt, node)
unfolding redo_all
redo_all_skip [] node h = refl
redo_all_skip (e ∷ batch) node h = rw (redo_skip e node h.0) (redo_all_skip batch node h.1)

pub redo_all-append :
    (xs ys : List WalEntry) (node : BTreeNode)
    → redo_all (xs ++ ys) node ≡ (redo_all xs >> redo_all ys) node
unfolding redo_all
redo_all-append [] ys node = refl
redo_all-append (e ∷ xs) ys node =
    (λ i. go_on (redo e node) (λ _ n. redo_all-append xs ys n i))
    ∙ go_on_assoc (redo e node) (λ _. redo_all xs) (λ _. redo_all ys)

-- A node that already has the changes of a beginning of the batch ends as one that has none of them,
-- whatever the order of the numbers: replaying the batch again, after a crash at any entry or after
-- the end, repeats no change.
pub redo_all-prefix :
    (xs ys : List WalEntry) (node node' : BTreeNode)
    → redo_all xs node ≡ (ok tt, node')
    → redo_all (xs ++ ys) node' ≡ redo_all (xs ++ ys) node
redo_all-prefix xs ys node node' run =
    let (reflected, _) = redo_all-Reflects xs node node' run in
    redo_all-append xs ys node'
    ∙ (ap (λ r. go_on r (λ _. redo_all ys)) (redo_all_skip xs node' reflected)
        ∙ sym (redo_all-append xs ys node ∙ ap (λ r. go_on r (λ _. redo_all ys)) run))
