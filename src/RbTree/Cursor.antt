-- ===== src/RbTree/Cursor.antt =====
-- data/rbtree.c: the cursor, a path from the root to the current node.
pub mod Forward
pub mod Backward
use Prim.Native.Nat.{Ordering}
use c_reusables.Prelude.{Option, some, none, List, [], ◌∷◌, ◌++◌, reverse}
use c_reusables.RbTree.Tree.{
  Color, Tree, null, node, left_of, right_of, TreePath, to_list, Walk, hit, miss, lookup_path,
}
use c_reusables.RbTree.Contents.{before, after}
use c_reusables.RbTree.Remove.{leftmost}

-- `cur->n == 0`, or the current node with its ancestors.
pub data Cursor {ℓ} (K : Type ℓ) : Type ℓ where
  nowhere : Cursor K
  at : Color → Tree K → K → Tree K → TreePath K → Cursor K

module _ {ℓ} {K : Type ℓ} where
  -- `rbtree_leftmost_path` from a node, as a cursor.
  unfoldable pub first_in : Tree K → TreePath K → Cursor K
  first_in null path = nowhere
  first_in (node c null k r) path = at c null k r path
  first_in (node c (node d a x b) k r) path = first_in (node d a x b) (left_of c k r ∷ path)

  -- `rbtree_rightmost_path` from a node, as a cursor.
  unfoldable pub last_in : Tree K → TreePath K → Cursor K
  last_in null path = nowhere
  last_in (node c l k null) path = at c l k null path
  last_in (node c l k (node d a x b)) path = last_in (node d a x b) (right_of c l k ∷ path)

  -- `rbtree_current`.
  unfoldable pub current : Cursor K → Option K
  current nowhere = none
  current (at c l k r path) = some k

  -- `rbtree_head` and `rbtree_tail`; the node that they return is the current one.
  unfoldable pub head : Tree K → Cursor K
  unfolding first_in
  head t = first_in t []

  unfoldable pub tail : Tree K → Cursor K
  unfolding last_in
  tail t = last_in t []

  -- Up while the node is the right, or the left, child.
  unfoldable pub climb_right : Tree K → TreePath K → Cursor K
  climb_right t [] = nowhere
  climb_right t (right_of c l k ∷ up) = climb_right (node c l k t) up
  climb_right t (left_of c k r ∷ up) = at c t k r up

  unfoldable pub climb_left : Tree K → TreePath K → Cursor K
  climb_left t [] = nowhere
  climb_left t (left_of c k r ∷ up) = climb_left (node c t k r) up
  climb_left t (right_of c l k ∷ up) = at c l k t up

  -- The returned node and the cursor: past the last node that is `NULL`, and the cursor stays.
  unfoldable pub moved : Cursor K → Cursor K → Option K × Cursor K
  moved stay nowhere = (none, stay)
  moved stay (at c l k r path) = (some k, at c l k r path)

  -- `rbtree_next`.
  unfoldable pub next : Cursor K → Option K × Cursor K
  unfolding first_in climb_right moved
  next nowhere = (none, nowhere)
  next (at c l k (node d a x b) path) =
      moved (at c l k (node d a x b) path) (first_in (node d a x b) (right_of c l k ∷ path))
  next (at c l k null path) = moved (at c l k null path) (climb_right (node c l k null) path)

  -- `rbtree_prev`.
  unfoldable pub prev : Cursor K → Option K × Cursor K
  unfolding last_in climb_left moved
  prev nowhere = (none, nowhere)
  prev (at c (node d a x b) k r path) =
      moved (at c (node d a x b) k r path) (last_in (node d a x b) (left_of c k r ∷ path))
  prev (at c null k r path) = moved (at c null k r path) (climb_left (node c null k r) path)

  -- `rbtree_lookup_ex`.
  unfoldable pub lookup_ex : (K → K → Ordering) → K → Tree K → Option K × Cursor K
  lookup_ex cmp key t = elim (lookup_path cmp key t []) [
    | hit c l k r path ↦ (some k, at c l k r path)
    | miss path ↦ (none, nowhere)
  ]

  -- The nodes from the current one on, and those before it.
  abbrev pub ahead : Cursor K → List K
  ahead nowhere = []
  ahead (at c l k r path) = k ∷ (to_list r ++ after path)

  abbrev pub passed : Cursor K → List K
  passed nowhere = []
  passed (at c l k r path) = before path ++ to_list l

  -- The cursor as a place in the sorted list: the nodes before it, nearest first, and the others.
  abbrev pub place : Cursor K → List K × List K
  place cur = (reverse (passed cur), ahead cur)
