-- ===== src/RbTree/Tree.antt =====
-- data/rbtree.c: nodes, the path array, rotations and lookups.
--
-- A node is its colour bit, its left child, the structure that embeds it, and its right child. The
-- nodes of a tree are distinct, so a subtree is a value. The C code keeps an array of pointers from
-- the root down to the node at hand; here the path is the list of the ancestors, nearest first, each
-- with the side on which the path leaves it (what C finds by `node == LEFT(parent)`) and with its
-- other subtree. A pointer that C would follow although it is `NULL` makes a function return `none`.
use Prim.Native.Nat.{Ordering}
use c_reusables.Prelude.{Bool, true, false, Option, none, some, List, [], ◌∷◌, ◌++◌}

pub data Color : Type 0 where
  red black : Color

pub data Tree {ℓ} (K : Type ℓ) : Type ℓ where
  null : Tree K
  node : Color → Tree K → K → Tree K → Tree K

-- The ancestor whose left, or right, child is the next node of the path.
pub data Frame {ℓ} (K : Type ℓ) : Type ℓ where
  left_of : Color → K → Tree K → Frame K
  right_of : Color → Tree K → K → Frame K

abbrev pub TreePath {ℓ} : Type ℓ → Type ℓ
TreePath K = List (Frame K)

module _ {ℓ} {K : Type ℓ} where
  -- `node != NULL && IS_RED(node)`
  unfoldable pub is_red : Tree K → Bool
  is_red (node red l k r) = true
  is_red _ = false

  unfoldable pub is_null : Tree K → Bool
  is_null null = true
  is_null (node c l k r) = false

  -- `MAKE_RED` and `MAKE_BLACK`; the pointer is known not to be `NULL` where the code calls them.
  unfoldable pub paint : Color → Tree K → Tree K
  paint c null = null
  paint c (node _ l k r) = node c l k r

  abbrev pub frame_color : Frame K → Color
  frame_color (left_of c k r) = c
  frame_color (right_of c l k) = c

  unfoldable pub paint_frame : Color → Frame K → Frame K
  paint_frame c (left_of _ k r) = left_of c k r
  paint_frame c (right_of _ l k) = right_of c l k

  -- The other child of the parent.
  abbrev pub sibling : Frame K → Tree K
  sibling (left_of c k r) = r
  sibling (right_of c l k) = l

  unfoldable pub paint_sibling : Color → Frame K → Frame K
  unfolding paint
  paint_sibling c (left_of d k r) = left_of d k (paint c r)
  paint_sibling c (right_of d l k) = right_of d (paint c l) k

  -- The parent with this subtree in the place that the path leaves.
  unfoldable pub attach : Tree K → Frame K → Tree K
  attach t (left_of c k r) = node c t k r
  attach t (right_of c l k) = node c l k t

  -- The whole tree, from the root down.
  unfoldable pub plug : Tree K → TreePath K → Tree K
  unfolding attach
  plug t [] = t
  plug t (f ∷ up) = plug (attach t f) up

  -- The rotations; each node keeps its colour, since `SET_LEFT` does.
  unfoldable pub rotate_left : Tree K → Option (Tree K)
  rotate_left (node c a x (node d b y e)) = some (node d (node c a x b) y e)
  rotate_left _ = none

  unfoldable pub rotate_right : Tree K → Option (Tree K)
  rotate_right (node c (node d a x b) y e) = some (node d a x (node c b y e))
  rotate_right _ = none

  -- The nodes in order.
  unfoldable pub to_list : Tree K → List K
  to_list null = []
  to_list (node c l k r) = to_list l ++ (k ∷ to_list r)

-- Where a walk down from the root ends: at a node that compares equal, or below a leaf.
pub data Walk {ℓ} (K : Type ℓ) : Type ℓ where
  hit : Color → Tree K → K → Tree K → TreePath K → Walk K
  miss : TreePath K → Walk K

module _ {ℓ} {K : Type ℓ} (cmp : K → K → Ordering) where
  -- `rbtree_lookup_path`; where the walk ends at `NULL` the nearest frame tells the last comparison.
  unfoldable pub lookup_path : K → Tree K → TreePath K → Walk K
  lookup_path key null path = miss path
  lookup_path key (node c l k r) path = elim (cmp key k) [
    | Ordering.lt ↦ lookup_path key l (left_of c k r ∷ path)
    | Ordering.eq ↦ hit c l k r path
    | Ordering.gt ↦ lookup_path key r (right_of c l k ∷ path)
  ]

  unfoldable pub lookup : K → Tree K → Option K
  lookup key null = none
  lookup key (node c l k r) = elim (cmp key k) [
    | Ordering.lt ↦ lookup key l
    | Ordering.eq ↦ some k
    | Ordering.gt ↦ lookup key r
  ]
