-- ===== src/Tree/Relink.antt =====
-- `relink` of a split (bptree.rs): the old right sibling points back to the new leaf.
use smol_db.Common.{
  ℕ, ◌≡◌, ◌≢◌, refl, sym, ap, subst, ◌∙◌, inl, inr, Bool-cases, true, false, ◌==◌, ◌||◌,
  if◌then◌else◌, Option, none, some, arith,
}
use mathlib.Core.Option.{some-injective}
use smol_db.Error.Outcome.{ok, panic, Run}
use smol_db.Error.Method.{Method, lift, go_on-ok, Ends}
use smol_db.Page.{PageId, LeafNode, leaf}
use smol_db.Pool.{BufferPool, WalFlusher, release_handle, with_node, fetch_page}
use smol_db.Pool.Keep.{release_handle-Pooled}
use smol_db.Pool.Room.{Kept, Owned}
use smol_db.Pool.Fetch.{fetch_page-Ends}
use smol_db.Pool.Pinned.{again}
use smol_db.Pool.Latched.{
  Latched, latch, both, Latched-Others, with_node-Latched, release_handle-Cached,
  release_handle-Others,
}
use smol_db.Tree.{back_link, relink}
use smol_db.Tree.Wired.{back_link-PointsBack, Both, Linked, holding_ok}

module _ {W : Type 0} ⦃flusher : WalFlusher W⦄ (k j : PageId) (left right : LeafNode)
    (k≢j : k ≢ j) where
  -- a fetch leaves the two leaves as they are
  fetch_page-Both :
      (o : PageId) (p q : BufferPool W)
      → Both k j left right p
      → fetch_page o p ≡ (ok tt, q)
      → Both k j left right q × Owned o q
  fetch_page-Both o p q (pooled, hk, hj) e =
      let K : BufferPool W → Type 0 = λ q. Latched k (leaf left) q × Latched j (leaf right) q in
      let ((pooled', (hk', hj')), owned) = subst (Ends (Kept K) (λ _ q. Kept K q × Owned o q)) e (
        fetch_page-Ends K (λ i. (i ≢ k) × (i ≢ j))
          (both (latch k (leaf left)) (latch j (leaf right))) o p
          (λ now q there (a, b). (
            again k o (record { node = leaf left; handles = 1 }) now q there a,
            again j o (record { node = leaf right; handles = 1 }) now q there b,
          ))
          (pooled, (hk, hj))) in
      ((pooled', hk', hj'), owned)

  -- what `relink` does to the sibling that it has fetched
  abbrev latching : ℕ → PageId → Method (BufferPool W) Unit
  latching lsn o = if (o == k) || (o == j) then lift panic else with_node o (back_link j lsn)

  -- the sibling is linked while its frame is held, and the frame is dropped
  link :
      (lsn o : ℕ) (s u : BufferPool W)
      → k ≢ o
      → j ≢ o
      → Both k j left right s
      → Owned o s
      → with_node o (back_link j lsn) s ≡ (ok tt, u)
      → Both k j left right (release_handle o u).1 × Linked k j o (release_handle o u).1
  link lsn o s u k≢o j≢o (pooled, hk, hj) (frame, there, held) e =
      let (s1, run, pooled1, (now, at, kind, _), same) =
        with_node-Latched o (back_link j lsn) frame.node s pooled (frame, there, refl, held) in
      let s1≡u : s1 ≡ u = ap (λ (r : Run (BufferPool W) Unit). r.1) (sym run ∙ e) in
      let drop = release_handle-Others o s1 in
      let o≢k : o ≢ k = λ x. k≢o (sym x) in
      let o≢j : o ≢ j = λ x. j≢o (sym x) in
      subst (λ u. Both k j left right (release_handle o u).1 × Linked k j o (release_handle o u).1)
        s1≡u
        (
          (
            release_handle-Pooled o s1 pooled1,
            Latched-Others o k (leaf left) s1 (release_handle o s1).1 drop o≢k
                (Latched-Others o k (leaf left) s s1 same o≢k hk),
            Latched-Others o j (leaf right) s1 (release_handle o s1).1 drop o≢j
                (Latched-Others o j (leaf right) s s1 same o≢j hj),
          ),
          (
            k≢o,
            j≢o,
            (
              (back_link j lsn frame.node).1,
              release_handle-Cached o o (back_link j lsn frame.node).1 s1 (now, at, kind),
              back_link-PointsBack j lsn frame.node,
            ),
          ),
        )

  own_sibling :
      (lsn o : ℕ) (s u : BufferPool W)
      → (o == k) || (o == j) ≡ true
      → latching lsn o s ≡ (ok tt, u)
      → ⊥
  own_sibling lsn o s u own e = cc (
      ap (λ (r : Run (BufferPool W) Unit). r.0)
        (ap (λ b. (if b then lift panic else with_node o (back_link j lsn)) s) (sym own) ∙ e))

  other_sibling :
      (lsn o : ℕ) (s u : BufferPool W)
      → (o == k) || (o == j) ≡ false
      → latching lsn o s ≡ (ok tt, u)
      → with_node o (back_link j lsn) s ≡ (ok tt, u)
  other_sibling lsn o s u other e =
      ap (λ b. (if b then lift panic else with_node o (back_link j lsn)) s) (sym other) ∙ e

  -- `relink` leaves the two leaves as they are, and where there is an old sibling it points back to the
  -- new leaf.
  pub relink-Both :
      (lsn : ℕ) (next : Option PageId) (p q : BufferPool W)
      → Both k j left right p
      → relink k j lsn next p ≡ (ok tt, q)
      → Both k j left right q × ((o : PageId) → next ≡ some o → Linked k j o q)
  unfolding relink
  relink-Both lsn none p q h e = (
    subst (Both k j left right) (ap (λ (r : Run (BufferPool W) Unit). r.1) e) h,
    λ o clash. cc clash,
  )
  relink-Both lsn (some o) p q h e =
      let (_, s, run, rest) = go_on-ok (fetch_page o p) _ tt q e in
      let (there, owned) = fetch_page-Both o p s h run in
      let (u, inner, dropped) = holding_ok o (latching lsn o) s tt q rest in
      elim (Bool-cases ((o == k) || (o == j))) [
        | inl own ↦ absurd (own_sibling lsn o s u own inner)
        | inr other ↦
            let linked =
              link lsn o s u (ground (arith, other)) (ground (arith, other)) there owned
                (other_sibling lsn o s u other inner) in
            subst (λ q. Both k j left right q × ((i : PageId) → some o ≡ some i → Linked k j i q))
              dropped
              (
                linked.0,
                λ i e.
                    subst (λ i. Linked k j i (release_handle o u).1) (some-injective o i e)
                      linked.1,
              )
      ]
