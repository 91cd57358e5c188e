-- ===== src/Page/Node.antt =====
-- The methods of `BTreeNode` on either kind of node (page.rs).
use smol_db.Common.{ℕ, ◌≡◌, refl, Bool, true, false, [], if◌then◌else◌}
use smol_db.Page.{PageId, BTreeNode, internal, leaf}

unfoldable pub new_empty : PageId → Bool → BTreeNode
new_empty page_id is_leaf =
    if is_leaf
    then leaf (record {
      page_id = page_id;
      last_lsn = 0;
      has_prev = false;
      has_next = false;
      prev_page_id = 0;
      next_page_id = 0;
      slot_array = [];
      records = [];
      free_size = 0;
      is_dirty = false;
    })
    else internal (record {
      page_id = page_id;
      last_lsn = 0;
      rightmost_child_id = 0;
      slot_array = [];
      entries = [];
      free_size = 0;
      is_dirty = false;
    })

unfoldable pub is_dirty : BTreeNode → Bool
is_dirty (internal node) = node.is_dirty
is_dirty (leaf node) = node.is_dirty

unfoldable pub clear_dirty : BTreeNode → BTreeNode
clear_dirty (internal node) = internal (record node { is_dirty = false })
clear_dirty (leaf node) = leaf (record node { is_dirty = false })

unfoldable pub mark_dirty : ℕ → BTreeNode → BTreeNode
mark_dirty lsn (internal node) = internal (record node { last_lsn = lsn; is_dirty = true })
mark_dirty lsn (leaf node) = leaf (record node { last_lsn = lsn; is_dirty = true })

unfoldable pub get_last_lsn : BTreeNode → ℕ
get_last_lsn (internal node) = node.last_lsn
get_last_lsn (leaf node) = node.last_lsn

unfoldable pub set_last_lsn : ℕ → BTreeNode → BTreeNode
set_last_lsn lsn (internal node) = internal (record node { last_lsn = lsn })
set_last_lsn lsn (leaf node) = leaf (record node { last_lsn = lsn })

pub clear_dirty-mark_dirty :
    (lsn : ℕ) (node : BTreeNode)
    → clear_dirty (mark_dirty lsn node) ≡ clear_dirty (set_last_lsn lsn node)
unfolding clear_dirty mark_dirty set_last_lsn
clear_dirty-mark_dirty lsn (internal node) = refl
clear_dirty-mark_dirty lsn (leaf node) = refl

-- A node that is marked dirty says so and has the number of the change; cleared, it is not dirty
-- and keeps the number.
pub mark_dirty-Tracked :
    (lsn : ℕ) (node : BTreeNode)
    → (is_dirty (mark_dirty lsn node) ≡ true)
      × (get_last_lsn (mark_dirty lsn node) ≡ lsn)
      × (is_dirty (clear_dirty (mark_dirty lsn node)) ≡ false)
      × (get_last_lsn (clear_dirty (mark_dirty lsn node)) ≡ lsn)
unfolding is_dirty mark_dirty clear_dirty get_last_lsn
mark_dirty-Tracked lsn (internal node) = (refl, refl, refl, refl)
mark_dirty-Tracked lsn (leaf node) = (refl, refl, refl, refl)
