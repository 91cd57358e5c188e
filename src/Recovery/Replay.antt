-- ===== src/Recovery/Replay.antt =====
-- The loop of `replay` (recovery.rs) over pages that are cached: page by page, it is the redo of the
-- entries of the page.
use smol_db.Common.{
  ℕ, ◌≡◌, refl, sym, ap, subst, ◌∙◌, inl, inr, Bool-cases, ◌==◌, if◌then◌else◌, List, [], ◌∷◌, some,
  Option-cases, All, arith, max,
}
use smol_db.HashMap
use smol_db.HashMap.{HashMap}
use smol_db.Error.Outcome.{ok, Run}
use smol_db.Error.Method.{go_on, go_on-ok}
use smol_db.Page.{PageId, BTreeNode}
use smol_db.Wal.Entry.{WalEntry}
use smol_db.Wal.Manager.{max_lsn_from}
use smol_db.Pool.{BufferPool, Frame, WalFlusher, with_frame}
use smol_db.Pool.State.{Pooled, held}
use smol_db.Pool.Use.{with_frame_hit}
use smol_db.Recovery.{redo, replay_loop}
use smol_db.Recovery.Redo.{redo_all}

-- the entries of a page, in order
abbrev pub entries_of : PageId → List WalEntry → List WalEntry
entries_of k [] = []
entries_of k (e ∷ batch) = if e.page_id == k then e ∷ entries_of k batch else entries_of k batch

-- every page of the batch is in the table
abbrev pub Cached : List WalEntry → HashMap Frame → Type 0
Cached batch table = All (λ e. held (HashMap.lookup e.page_id table) ≡ 1) batch

-- what became of the frame of a page
abbrev After : PageId → List WalEntry → HashMap Frame → Frame → Type 0
After k batch table' frame =
    (node : BTreeNode) × (redo_all (entries_of k batch) frame.node ≡ (ok tt, node))
    × (HashMap.lookup k table' ≡ some (record frame { node = node }))

-- the table after the batch: each frame has the entries of its page, the owners are as before
abbrev pub Redone : List WalEntry → HashMap Frame → HashMap Frame → Type 0
Redone batch table table' =
    (k : PageId) (frame : Frame) → HashMap.lookup k table ≡ some frame → After k batch table' frame

-- one frame of the table has a new node
abbrev Changed : PageId → Frame → HashMap Frame → HashMap Frame → Type 0
Changed k frame table table' =
    (j : PageId) → HashMap.lookup j table' ≡ (if k == j then some frame else HashMap.lookup j table)

some_injective : {A : Type 0} (a b : A) → some a ≡ some b → a ≡ b
some_injective a b e = cc e

held_frame_of :
    (k : PageId) (table : HashMap Frame)
    → held (HashMap.lookup k table) ≡ 1
    → (frame : Frame) × (HashMap.lookup k table ≡ some frame)
held_frame_of k table h = elim (Option-cases (HashMap.lookup k table)) [
  | inl absent ↦ absurd (omega (arith, h, ap held absent))
  | inr there ↦ there
]

Cached-Changed :
    (k : PageId) (frame : Frame) (table table' : HashMap Frame) (batch : List WalEntry)
    → Changed k frame table table'
    → Cached batch table
    → Cached batch table'
Cached-Changed k frame table table' [] change h = tt
Cached-Changed k frame table table' (e ∷ batch) change h = (
  elim (Bool-cases (k == e.page_id)) [
    | inl same ↦ rw (change e.page_id, same) refl
    | inr other ↦ rw (change e.page_id, other) h.0
  ],
  Cached-Changed k frame table table' batch change h.1,
)

-- an entry in front of a batch
Redone-step :
    (e : WalEntry) (batch : List WalEntry) (f : Frame) (node : BTreeNode)
    (table mid table' : HashMap Frame)
    → HashMap.lookup e.page_id table ≡ some f
    → redo e f.node ≡ (ok tt, node)
    → Changed e.page_id (record f { node = node }) table mid
    → Redone batch mid table'
    → Redone (e ∷ batch) table table'
unfolding redo_all
Redone-step e batch f node table mid table' at step change rest k frame there =
    elim (Bool-cases (e.page_id == k)) [
      | inl same ↦
          let here : e.page_id ≡ k = ground (arith, same) in
          let f≡frame =
            some_injective f frame (sym at ∙ (ap (λ i. HashMap.lookup i table) here ∙ there)) in
          let (node', run, at') = rest k (record f { node = node }) (change k ∙ rw same refl) in
          subst (After k (e ∷ batch) table') f≡frame (
            node',
            rw same (ap (λ r. go_on r (λ _. redo_all (entries_of k batch))) step ∙ run),
            at',
          )
      | inr other ↦
          let (node', run, at') = rest k frame (change k ∙ rw other there) in
          (node', rw other run, at')
    ]

module _ {W : Type 0} ⦃flusher : WalFlusher W⦄ where
  -- Where the pages of the batch are cached and the loop of `replay` returns, it returns the highest
  -- lsn, and each page of the pool has had the entries of the page redone, in their order, and no others.
  pub replay_loop-Redone :
      (batch : List WalEntry) (highest h : ℕ) (p p' : BufferPool W)
      → Pooled p
      → Cached batch p.page_table
      → replay_loop highest batch p ≡ (ok h, p')
      → (h ≡ max_lsn_from highest batch) × Pooled p' × Redone batch p.page_table p'.page_table
  unfolding replay_loop max_lsn_from redo_all
  replay_loop-Redone [] highest h p p' pooled cached run =
      let same : p ≡ p' = ap (λ (r : Run (BufferPool W) ℕ). r.1) run in
      let h≡highest : h ≡ highest = cc (ap (λ (r : Run (BufferPool W) ℕ). r.0) run) in
      (
        h≡highest,
        subst Pooled same pooled,
        λ k frame there. (
          frame.node,
          refl,
          subst (λ (x : BufferPool W). HashMap.lookup k x.page_table ≡ some frame) same there,
        ),
      )
  replay_loop-Redone (e ∷ batch) highest h p p' pooled cached run =
      let (f, at) = held_frame_of e.page_id p.page_table cached.0 in
      let (q, used, pooled_q, change) = with_frame_hit e.page_id (redo e) p f pooled at in
      let (_, s, step, rest) =
        go_on-ok (with_frame e.page_id (redo e) p) (λ _. replay_loop (max highest e.lsn) batch) h p'
          run in
      let both = sym used ∙ step in
      let q≡s : q ≡ s = ap (λ (r : Run (BufferPool W) Unit). r.1) both in
      let done : redo e f.node ≡ (ok tt, (redo e f.node).1) =
        ap (λ (r : Run (BufferPool W) Unit). (r.0, (redo e f.node).1)) both in
      let (top, pooled', after) =
        replay_loop-Redone batch (max highest e.lsn) h q p' pooled_q
          (Cached-Changed e.page_id (record f { node = (redo e f.node).1 }) p.page_table
            q.page_table batch change cached.1)
          (subst (λ x. replay_loop (max highest e.lsn) batch x ≡ (ok h, p')) (sym q≡s) rest) in
      (
        top,
        pooled',
        Redone-step e batch f (redo e f.node).1 p.page_table q.page_table p'.page_table at done
            change after,
      )
