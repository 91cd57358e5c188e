-- ===== src/Tree/Split.antt =====
-- `insert_leaf` (bptree.rs) where the leaf splits: the whole call, in the pool.
use smol_db.Common.{
  ℕ, ◌≤◌, ◌≡◌, ◌≢◌, refl, sym, ap, subst, ◌∙◌, ◌⊎◌, inl, inr, Bool-cases, true, false, ltb,
  if◌then◌else◌, length, List, [], Option, none, some,
}
use smol_db.Error.Outcome.{ok, Run}
use smol_db.Error.Method.{Method, ◌>>=◌, ◌>>◌, return, go_on-ok, go_on-Always}
use smol_db.Page.{PageId, Record, LeafNode, leaf, page_size}
use smol_db.Page.Leaf.{insert_record, split, get_record, find_slot, record_at}
use smol_db.Page.Leaf.Rows.{IsLeaf, Reads}
use smol_db.Page.Leaf.Compaction.{net_size}
use smol_db.Page.Leaf.Links.{Links, links, insert_record-links, split-links}
use smol_db.Pool.{BufferPool, WalFlusher, release_handle, with_node}
use smol_db.Pool.State.{Pooled}
use smol_db.Pool.Latched.{Cached, release_handle-Cached}
use smol_db.Tree.{SplitResult, insert_half, split_insert, wire, mark, with_leaves, relink}
use smol_db.Tree.Halves.{Holds, get_record-split_insert}
use smol_db.Tree.Relink.{relink-Both}
use smol_db.Tree.Wired.{Both, Linked, marked, with_leaves_ok, mark_pair}

insert_half-links :
    (row_id key : ℕ) (payload : List ℕ) (left right : LeafNode)
    → links (insert_half row_id payload key (left, right)).1.0 ≡ links left
unfolding insert_half
insert_half-links row_id key payload left right = elim (Bool-cases (ltb row_id key)) [
  | inl below ↦
      rw (insert_half, below)
        (go_on-Always (λ l. links l ≡ links left) (insert_record row_id payload left)
          (λ _. return key) (insert_record-links row_id payload left) (λ _ s h. h))
  | inr above ↦ rw (insert_half, above) refl
]

split_insert-links :
    (row_id : ℕ) (payload : List ℕ) (left right : LeafNode)
    → links (split_insert row_id payload (left, right)).1.0 ≡ links left
unfolding split_insert
split_insert-links row_id payload left right =
    go_on-Always (λ s. links s.0 ≡ links left) (split left right) (insert_half row_id payload)
      (split-links left right) (λ key s h. insert_half-links row_id key payload s.0 s.1 ∙ h)

module _ {W : Type 0} where
  -- What a split leaves of the leaf `l` of the page `k` in the pool: two well-formed leaves that
  -- together hold the old rows and the new one, the new leaf between the old one and the old right
  -- sibling, which points back to it, and both leaves dirty since the change `lsn`.
  pub record Parted (l : LeafNode) (k row_id : ℕ) (payload : List ℕ) (lsn : ℕ) (r : SplitResult)
      (q : BufferPool W) : Type 0 where
    pub left : LeafNode
    pub right : LeafNode
    pub at_left : Cached k (leaf left) q
    pub at_right : Cached r.new_page_id (leaf right) q
    pub holds : Holds l row_id payload r.promoted_row_id left right
    pub left_links : links left ≡ record (links l) { has_next = true; next_page_id = r.new_page_id }
    pub right_back : (right.has_prev ≡ true) × (right.prev_page_id ≡ k)
    pub right_next : (right.has_next ≡ l.has_next) × (right.next_page_id ≡ l.next_page_id)
    pub left_dirty : (left.is_dirty ≡ true) × (left.last_lsn ≡ lsn)
    pub right_dirty : (right.is_dirty ≡ true) × (right.last_lsn ≡ lsn)
    pub sibling : (l.has_next ≡ false) ⊎ Linked k r.new_page_id l.next_page_id q

module _ {W : Type 0} ⦃flusher : WalFlusher W⦄ (k row_id : ℕ) (payload : List ℕ) (lsn : ℕ) where
  -- `split_leaf` behind `new_page`
  abbrev pub split_body : PageId → Method (BufferPool W) (Option SplitResult)
  split_body new_leaf_id = do
    promoted_row_id ← with_leaves k new_leaf_id (split_insert row_id payload)
    old_next ← with_leaves k new_leaf_id (wire k new_leaf_id)
    relink k new_leaf_id lsn old_next
    with_node k (mark lsn)
    with_node new_leaf_id (mark lsn)
    return (some (record { promoted_row_id = promoted_row_id; new_page_id = new_leaf_id }))

  split_body-ok :
      (j : PageId) (l empty : LeafNode) (p q : BufferPool W) (r : SplitResult)
      → k ≢ j
      → Both k j l empty p
      → split_body j p ≡ (ok (some r), q)
      → (promoted : ℕ) × (left : LeafNode) × (right : LeafNode) × (split_insert row_id payload
            (l, empty)
          ≡ (ok promoted, (left, right)))
        × (r ≡ record { promoted_row_id = promoted; new_page_id = j })
        × Both k j
            (marked lsn (record left { has_next = true; next_page_id = j }))
            (marked lsn (record right {
              has_prev = true;
              prev_page_id = k;
              has_next = left.has_next;
              next_page_id = left.next_page_id;
            }))
            q
        × ((left.has_next ≡ false) ⊎ Linked k j left.next_page_id q)
  unfolding wire
  split_body-ok j l empty p q r k≢j both e =
      let (promoted, p1, run1, e1) =
        go_on-ok (with_leaves k j (split_insert row_id payload) p) _ (some r) q e in
      let (split_run, both1) =
        with_leaves_ok k j k≢j (split_insert row_id payload) l empty p p1 promoted both run1 in
      let halves = (split_insert row_id payload (l, empty)).1 in
      let (next, p2, run2, e2) = go_on-ok (with_leaves k j (wire k j) p1) _ (some r) q e1 in
      let (wire_run, both2) =
        with_leaves_ok k j k≢j (wire k j) halves.0 halves.1 p1 p2 next both1 run2 in
      let (_, p3, run3, e3) = go_on-ok (relink k j lsn next p2) _ (some r) q e2 in
      let left = (wire k j halves).1.0 in
      let right = (wire k j halves).1.1 in
      let (both3, linked) = relink-Both k j left right k≢j lsn next p2 p3 both2 run3 in
      let (same, both4, later) =
        mark_pair k j k≢j lsn left right p3 q
          (some (record { promoted_row_id = promoted; new_page_id = j })) (some r) both3 e3 in
      let next_is : (if halves.0.has_next then some halves.0.next_page_id else none) ≡ next =
        cc (ap (λ (x : Run (LeafNode × LeafNode) (Option PageId)). x.0) wire_run) in
      (
        promoted,
        halves.0,
        halves.1,
        split_run,
        cc same,
        both4,
        elim (Bool-cases halves.0.has_next) [
          | inl has ↦ inr (
              later halves.0.next_page_id
                (linked halves.0.next_page_id (sym next_is ∙ rw has refl)))
          | inr last ↦ inl last
        ],
      )

-- the links and the marks of a leaf are no part of its rows
dressed-IsLeaf :
    {l : LeafNode} {rows : List Record} (l' : LeafNode)
    → IsLeaf l rows
    → l.records ≡ l'.records
    → l.slot_array ≡ l'.slot_array
    → IsLeaf l' rows
dressed-IsLeaf {l} {rows} l' is records slots = record {
  reads =
      subst (λ r. Reads r l'.slot_array rows) records
        (subst (λ s. Reads l.records s rows) slots is.reads);
  ascending = is.ascending;
  full = subst (λ (r : List Record). length r ≡ length rows) records is.full;
  small = is.small;
}

-- the leaves as the split leaves them: linked and marked
abbrev left_of : PageId → ℕ → LeafNode → LeafNode
left_of j lsn left = marked lsn (record left { has_next = true; next_page_id = j })

abbrev right_of : PageId → ℕ → LeafNode → LeafNode → LeafNode
right_of k lsn left right = marked lsn (record right {
  has_prev = true;
  prev_page_id = k;
  has_next = left.has_next;
  next_page_id = left.next_page_id;
})

dressed-Holds :
    (l : LeafNode) (row_id : ℕ) (payload : List ℕ) (promoted j k lsn : ℕ) (left right : LeafNode)
    → Holds l row_id payload promoted left right
    → Holds l row_id payload promoted (left_of j lsn left) (right_of k lsn left right)
unfolding get_record find_slot record_at
dressed-Holds l row_id payload promoted j k lsn left right ((lows, low), (highs, high), finds) = (
  (lows, dressed-IsLeaf (left_of j lsn left) low refl refl),
  (highs, dressed-IsLeaf (right_of k lsn left right) high refl refl),
  finds,
)

module _ {W : Type 0} ⦃flusher : WalFlusher W⦄ (k row_id : ℕ) (payload : List ℕ) (lsn : ℕ) where
  pub split_body-Parted :
      (j : PageId) (l empty : LeafNode) (rows : List Record) (p q : BufferPool W) (r : SplitResult)
      → IsLeaf l rows
      → net_size rows ≤ page_size
      → empty.records ≡ []
      → empty.slot_array ≡ []
      → k ≢ j
      → Both k j l empty p
      → split_body k row_id payload lsn j p ≡ (ok (some r), q)
      → Pooled q × Parted l k row_id payload lsn r q × (r.new_page_id ≡ j)
  unfolding links
  split_body-Parted j l empty rows p q r is fits no_records no_slots k≢j both e =
      let (
        promoted,
        left,
        right,
        run,
        same,
        (pooled, (fl, tl, nl, hl), (fr, tr, nr, hr)),
        sibling,
      ) =
        split_body-ok k row_id payload lsn j l empty p q r k≢j both e in
      let kept : links left ≡ links l =
        ap (λ (x : Run (LeafNode × LeafNode) ℕ). links x.1.0) (sym run)
        ∙ split_insert-links row_id payload l empty in
      let has : left.has_next ≡ l.has_next = ap (λ (x : Links). x.has_next) kept in
      let next : left.next_page_id ≡ l.next_page_id = ap (λ (x : Links). x.next_page_id) kept in
      let holds =
        get_record-split_insert l empty rows row_id promoted payload left right is fits no_records
          no_slots run in
      subst (λ r. Pooled q × Parted l k row_id payload lsn r q × (r.new_page_id ≡ j)) (sym same)
        (
          pooled,
          record {
            left = left_of j lsn left;
            right = right_of k lsn left right;
            at_left = (fl, tl, nl);
            at_right = (fr, tr, nr);
            holds = dressed-Holds l row_id payload promoted j k lsn left right holds;
            left_links = ap (λ (x : Links). record x { has_next = true; next_page_id = j }) kept;
            right_back = (refl, refl);
            right_next = (has, next);
            left_dirty = (refl, refl);
            right_dirty = (refl, refl);
            sibling = elim sibling [
              | inl last ↦ inl (sym has ∙ last)
              | inr linked ↦ inr (subst (λ o. Linked k j o q) next linked)
            ];
          },
          refl,
        )

module _ {W : Type 0} where
  -- a handle that is dropped changes none of it
  pub release_handle-Parted :
      (i k row_id lsn : ℕ) (payload : List ℕ) (l : LeafNode) (r : SplitResult) (p : BufferPool W)
      → Parted l k row_id payload lsn r p
      → Parted l k row_id payload lsn r (release_handle i p).1
  release_handle-Parted i k row_id lsn payload l r p h = record {
    left = h.left;
    right = h.right;
    at_left = release_handle-Cached i k (leaf h.left) p h.at_left;
    at_right = release_handle-Cached i r.new_page_id (leaf h.right) p h.at_right;
    holds = h.holds;
    left_links = h.left_links;
    right_back = h.right_back;
    right_next = h.right_next;
    left_dirty = h.left_dirty;
    right_dirty = h.right_dirty;
    sibling = elim h.sibling [
      | inl last ↦ inl last
      | inr (a, b, (node, cached, back)) ↦
          inr (a, b, (node, release_handle-Cached i l.next_page_id node p cached, back))
    ];
  }
