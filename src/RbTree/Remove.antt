-- ===== src/RbTree/Remove.antt =====
-- data/rbtree.c: `rbtree_remove_fixup` and `rbtree_remove`.
pub mod Level
pub mod Balance
pub mod Contents
pub mod Splice
pub mod Unlink
use Prim.Native.Nat.{Ordering}
use c_reusables.Prelude.{
  ℕ, zero, suc, ◌+◌, Bool, false, ◌||◌, Option, none, some, [], ◌∷◌, ◌++◌, if◌then◌else◌, ◌>>=◌,
  length,
}
use c_reusables.RbTree.Tree.{
  Color, red, black, Tree, null, node, Frame, left_of, right_of, TreePath, is_red, is_null, paint,
  sibling, paint_sibling, attach, plug, rotate_left, rotate_right, hit, miss, lookup_path,
}
use c_reusables.RbTree.Insert.{Round, done, again, stuck, done_if}

-- The node to unlink, when it stands at the bottom: its colour, its only child and its path.
pub record Bottom {ℓ} (K : Type ℓ) : Type ℓ where
  pub color : Color
  pub child : Tree K
  pub path : TreePath K

module _ {ℓ} {K : Type ℓ} where
  -- Red sibling: rotate it above the parent, and go on with the node two levels further down.
  unfoldable pub sibling_red : Tree K → Frame K → TreePath K → Round K
  sibling_red n (left_of c k s) up = elim (rotate_left (node c n k s)) [
    | some (node _ (node _ n' k' r') y b) ↦ again n' (left_of red k' r' ∷ left_of black y b ∷ up)
    | _ ↦ stuck
  ]
  sibling_red n (right_of c s k) up = elim (rotate_right (node c s k n)) [
    | some (node _ a y (node _ l' k' n')) ↦ again n' (right_of red l' k' ∷ right_of black a y ∷ up)
    | _ ↦ stuck
  ]

  -- Black sibling whose outer child is black: its inner child rises above it.
  unfoldable pub raise_inner_left : Tree K → Option (Tree K)
  raise_inner_left (node c l y r) =
      if is_red r then some (node c l y r) else rotate_right (node red (paint black l) y r)
  raise_inner_left null = none

  unfoldable pub raise_inner_right : Tree K → Option (Tree K)
  raise_inner_right (node c l y r) =
      if is_red l then some (node c l y r) else rotate_left (node red l y (paint black r))
  raise_inner_right null = none

  -- The sibling takes the parent's colour; parent and outer child become black.
  unfoldable pub take_color_left : Tree K → Color → K → Tree K → Option (Tree K)
  take_color_left n c k (node _ a y (node _ b z d)) =
      rotate_left (node black n k (node c a y (node black b z d)))
  take_color_left n c k _ = none

  unfoldable pub take_color_right : Tree K → Color → K → Tree K → Option (Tree K)
  take_color_right n c k (node _ (node _ a x b) y d) =
      rotate_right (node black (node c (node black a x b) y d) k n)
  take_color_right n c k _ = none

  -- Black sibling with a red child: the deficit ends here.
  unfoldable pub nephew_red : Tree K → Frame K → Option (Tree K)
  unfolding raise_inner_left raise_inner_right take_color_left take_color_right
  nephew_red n (left_of c k s) = do s' ← raise_inner_left s; take_color_left n c k s'
  nephew_red n (right_of c s k) = do s' ← raise_inner_right s; take_color_right n c k s'

  unfoldable pub has_red_child : Tree K → Bool
  has_red_child null = false
  has_red_child (node c l k r) = is_red l || is_red r

  -- The parent's level, for a node that is black or `NULL`. The sibling exists, since its subtree
  -- has more black nodes.
  unfoldable pub remove_deficit : Tree K → Frame K → TreePath K → Round K
  remove_deficit n p up =
      if is_null (sibling p)
      then stuck
      else if is_red (sibling p)
      then sibling_red n p up
      else if has_red_child (sibling p)
      then done_if (nephew_red n p) up
      else again (attach n (paint_sibling red p)) up

  -- One round of the loop in `rbtree_remove_fixup`.
  unfoldable pub remove_round : Tree K → TreePath K → Round K
  remove_round n [] = done (if is_red n then paint black n else n)
  remove_round n (p ∷ up) =
      if is_red n then done (plug (paint black n) (p ∷ up)) else remove_deficit n p up

  -- The loop, with fuel for its rounds.
  unfoldable pub remove_fixup : ℕ → Tree K → TreePath K → Option (Tree K)
  remove_fixup zero n path = none
  remove_fixup (suc fuel) n path = elim (remove_round n path) [
    | done t ↦ some t
    | again n' path' ↦ remove_fixup fuel n' path'
    | stuck ↦ none
  ]

  -- `rbtree_leftmost_path`, down from a node to the one that has no left child.
  unfoldable pub leftmost :
      Color
      → Tree K
      → K
      → Tree K
      → TreePath K
      → record { color : Color; key : K; right : Tree K; path : TreePath K }
  leftmost c null k r path = record { color = c; key = k; right = r; path = path }
  leftmost c (node d a x b) k r path = leftmost d a x b (left_of c k r ∷ path)

  -- The node changes places, and colours, with its successor unless it has one child at most.
  unfoldable pub swap_with_successor : Color → Tree K → Tree K → TreePath K → Bottom K
  unfolding leftmost
  swap_with_successor c l null path = record { color = c; child = l; path = path }
  swap_with_successor c l (node d (node e a x b) y z) path =
      let s = leftmost d (node e a x b) y z [] in
      record { color = s.color; child = s.right; path = s.path ++ (right_of c l s.key ∷ path) }
  swap_with_successor c null (node d null y z) path = record {
    color = c;
    child = node d null y z;
    path = path;
  }
  swap_with_successor c (node e a x b) (node d null y z) path = record {
    color = d;
    child = z;
    path = right_of c (node e a x b) y ∷ path;
  }

  -- The child takes the node's place; a black node leaves a deficit.
  unfoldable pub unlink : Bottom K → Option (Tree K)
  unlink b = elim b.color [
    | red ↦ some (plug b.child b.path)
    | black ↦ remove_fixup (length b.path + 3) b.child b.path
  ]

  -- `rbtree_remove`: the removed node or `NULL`, and the tree.
  unfoldable pub remove : (K → K → Ordering) → K → Tree K → Option (Option K × Tree K)
  remove cmp key t = elim (lookup_path cmp key t []) [
    | miss _ ↦ some (none, t)
    | hit c l k r path ↦ do t' ← unlink (swap_with_successor c l r path); some (some k, t')
  ]
