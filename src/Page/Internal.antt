-- ===== src/Page/Internal.antt =====
-- `InternalNode::route_key` (page.rs), and the scan that it agrees with.
use smol_db.Common.{
  ne→==, ℕ, zero, suc, ◌≤◌, ◌<◌, ◌≡◌, refl, sym, le→leb, ◌∙◌, List, [], ◌∷◌, map, length-map, some,
  arith, leb, ◌==◌, if◌then◌else◌, length, get_elem?, get_elem?-some, ℕ_discrete, eq→==,
  IsAscending,
}
use smol_db.Error.Outcome.{Outcome, ok, ◌>>=◌, or_panic}
use smol_db.Slice.{partition_point}
use smol_db.Page.Slots.{Reads, length-Reads, Reads-get}
use smol_db.Slice.Partition.{IsCut, partition_point-IsCut}
use smol_db.Page.{PageId, IndexEntry, InternalNode}

-- the entry of the slot at an index
unfoldable pub entry_at : InternalNode → ℕ → Outcome IndexEntry
entry_at node i =
    or_panic (get_elem? node.slot_array i) >>= λ s. or_panic (get_elem? node.entries s)

unfoldable pub route_key : InternalNode → ℕ → Outcome PageId
route_key node target_key = do
  partition_idx ←
      partition_point (length node.slot_array)
        (λ i. entry_at node i >>= λ e. ok (leb e.key target_key))
  if partition_idx == length node.slot_array
      then ok node.rightmost_child_id
      else (entry_at node partition_idx >>= λ e. ok e.child_page_id)

abbrev pub keys : List IndexEntry → List ℕ
keys = map (λ e. e.key)

-- `es` is what the node stores, in slot order
pub record IsInternal (node : InternalNode) (es : List IndexEntry) : Type 0 where
  pub reads : Reads node.entries node.slot_array es
  pub ascending : IsAscending (keys es)

-- the child of the first entry whose key exceeds the target, else the rightmost
abbrev pub child_for : ℕ → PageId → List IndexEntry → PageId
child_for target rightmost [] = rightmost
child_for target rightmost (e ∷ es) =
    if leb e.key target then child_for target rightmost es else e.child_page_id

get-keys :
    (es : List IndexEntry) (i : ℕ) {k : ℕ}
    → get_elem? (keys es) i ≡ some k
    → (e : IndexEntry) × (get_elem? es i ≡ some e) × (e.key ≡ k)
get-keys [] i at = ground arith
get-keys (e ∷ es) zero at = (e, refl, ground arith)
get-keys (e ∷ es) (suc i) at = get-keys es i at

keys-get :
    (es : List IndexEntry) (i : ℕ) {e : IndexEntry}
    → get_elem? es i ≡ some e
    → get_elem? (keys es) i ≡ some e.key
keys-get [] i at = ground arith
keys-get (q ∷ es) zero at = ground arith
keys-get (q ∷ es) (suc i) at = keys-get es i at

-- behind the last entry that is at most the target
child_for-past :
    (target : ℕ) (rightmost : PageId) (es : List IndexEntry)
    → ((j k : ℕ) → j < length es → get_elem? (keys es) j ≡ some k → k ≤ target)
    → child_for target rightmost es ≡ rightmost
child_for-past target rightmost [] below = refl
child_for-past target rightmost (e ∷ es) below =
    let first : e.key ≤ target = below 0 e.key (omega arith) refl in
    rw (le→leb e.key target first)
      (child_for-past target rightmost es (λ j k lt at. below (suc j) k (omega arith) at))

child_for-at :
    (target : ℕ) (rightmost : PageId) (es : List IndexEntry) (i : ℕ) {e : IndexEntry}
    → get_elem? es i ≡ some e
    → target < e.key
    → ((j k : ℕ) → j < i → get_elem? (keys es) j ≡ some k → k ≤ target)
    → child_for target rightmost es ≡ e.child_page_id
child_for-at target rightmost [] i at gt below = ground arith
child_for-at target rightmost (q ∷ es) zero at gt below = ground arith
child_for-at target rightmost (q ∷ es) (suc i) at gt below =
    let first : q.key ≤ target = below 0 q.key (omega arith) refl in
    rw (le→leb q.key target first)
      (child_for-at target rightmost es i at gt (λ j k lt at'. below (suc j) k (omega arith) at'))

entry_at-row :
    (node : InternalNode) (es : List IndexEntry) (i : ℕ) {e : IndexEntry}
    → IsInternal node es
    → get_elem? es i ≡ some e
    → entry_at node i ≡ ok e
unfolding entry_at
entry_at-row node es i is at =
    let (s, slot, holds) = Reads-get node.entries node.slot_array es i is.reads at in
    rw (slot, holds) refl

-- where the search has parted the keys
routed :
    (node : InternalNode) (es : List IndexEntry) (target i : ℕ)
    → IsInternal node es
    → IsCut (keys es) target i
    → (if i == length (keys es)
        then ok node.rightmost_child_id
        else (entry_at node i >>= λ e. ok e.child_page_id))
      ≡ ok (child_for target node.rightmost_child_id es)
routed node es target i is cut =
    let size : length (keys es) ≡ length es = length-map es (λ e. e.key) in
    elim (ℕ_discrete i (length (keys es))) [
      | yes all ↦
          rw
            (
              eq→== i (length (keys es)) all,
              child_for-past target node.rightmost_child_id es
                  (λ j k lt. cut.below j k (omega arith)),
            )
            refl
      | no part ↦
          let (e, at) = get_elem?-some es i (omega (arith, cut.within)) in
          rw
            (
              ne→== i (length (keys es)) part,
              entry_at-row node es i is at,
              child_for-at target node.rightmost_child_id es i at
                  (cut.above i e.key (omega arith) (keys-get es i at)) cut.below,
            )
            refl
    ]

-- On a node whose entries have ascending keys in slot order, the binary search of `route_key` does
-- not panic and returns the child of the first entry whose key exceeds the target, or else the
-- rightmost child.
pub route_key-child_for :
    (node : InternalNode) (es : List IndexEntry) (target : ℕ)
    → IsInternal node es
    → route_key node target ≡ ok (child_for target node.rightmost_child_id es)
unfolding route_key
route_key-child_for node es target is =
    let (i, e, cut) =
      partition_point-IsCut (keys es) target is.ascending
        (λ i. entry_at node i >>= λ e. ok (leb e.key target))
        (λ i k at.
          let (e, row, same) = get-keys es i at in rw (entry_at-row node es i is row, same) refl) in
    let size : length node.slot_array ≡ length (keys es) =
      length-Reads node.entries node.slot_array es is.reads ∙ sym (length-map es (λ e. e.key)) in
    rw (size, e) (routed node es target i is cut)
