-- ===== src/Conformance.antt =====
-- The unit tests of the repository (the `tests` modules of src/storage), run on the model. A test
-- returns, or panics where an assertion fails; the path of its temporary file has no counterpart, and a
-- file starts empty, with no call that fails.
mod Lru
mod Wal
pub mod Codec
mod Disk
mod Tree
mod Recovery
use smol_db.Common.{
  ℕ, Bool, true, false, List, [], ◌∷◌, Option, none, some, ◌==◌, ◌&&◌, not, if◌then◌else◌,
}
use smol_db.Error.Outcome.{Outcome, ok, err, panic, Run, or_panic, ◌>>=◌}
use smol_db.Page.{PageId, LeafNode, InternalNode, BTreeNode, leaf, internal}
use smol_db.Storage.{File}
use smol_db.HashMap
use smol_db.Pool.{BufferPool}

-- what a test ends in
abbrev Test : Type 0
Test = Outcome (Unit {0})

-- `assert!`
abbrev assert : Bool → Test
assert true = ok tt
assert false = panic

-- `assert_eq!` of numbers
abbrev assert_eq : ℕ → ℕ → Test
assert_eq a b = assert (a == b)

abbrev is_same : Option ℕ → Option ℕ → Bool
is_same none none = true
is_same (some a) (some b) = a == b
is_same none (some b) = false
is_same (some a) none = false

-- `assert_eq!` of options
abbrev assert_option : Option ℕ → Option ℕ → Test
assert_option a b = assert (is_same a b)

abbrev is_equal : List ℕ → List ℕ → Bool
is_equal [] [] = true
is_equal (a ∷ xs) (b ∷ ys) = if a == b then is_equal xs ys else false
is_equal [] (b ∷ ys) = false
is_equal (a ∷ xs) [] = false

-- `assert_eq!` of bytes and of slots
abbrev assert_bytes : List ℕ → List ℕ → Test
assert_bytes a b = assert (is_equal a b)

infixl 5 ◌>>◌
abbrev ◌>>◌ : {B : Type 0} → Test → Outcome B → Outcome B
ok done >> rest = rest
err e >> rest = err e
panic >> rest = panic

-- a file that has just been created
abbrev new_file : File
new_file = record { content = []; durable = []; faults = [] }

-- `unwrap` and `expect`: an error panics
abbrev unwrap : {A : Type 0} → Outcome A → Outcome A
unwrap (ok a) = ok a
unwrap (err e) = panic
unwrap panic = panic

-- the same for a call that changes its object
abbrev unwrap_run : {S A : Type 0} → Run S A → Outcome (A × S)
unwrap_run (ok a, s) = ok (a, s)
unwrap_run (err e, s) = panic
unwrap_run (panic, s) = panic

abbrev is_ok : {A : Type 0} → Outcome A → Bool
is_ok (ok a) = true
is_ok (err e) = false
is_ok panic = false

-- `assert!(result.is_err())`
abbrev assert_err : {A : Type 0} → Outcome A → Test
assert_err (ok a) = panic
assert_err (err e) = ok tt
assert_err panic = panic

-- `let BTreeNode::Leaf(node) = node`, or a panic
abbrev expect_leaf : BTreeNode → Outcome LeafNode
expect_leaf (leaf l) = ok l
expect_leaf (internal n) = panic

abbrev expect_internal : BTreeNode → Outcome InternalNode
expect_internal (internal n) = ok n
expect_internal (leaf l) = panic

-- `?` on a call that changes its object
abbrev through : {S A : Type 0} → Run S A → Outcome (A × S)
through (ok a, s) = ok (a, s)
through (err e, s) = err e
through (panic, s) = panic

-- what a test reads behind the latch of a frame that it holds
abbrev node_of : {W : Type 0} → PageId → BufferPool W → Outcome BTreeNode
node_of page_id p = or_panic (HashMap.lookup page_id p.page_table) >>= λ frame. ok frame.node
