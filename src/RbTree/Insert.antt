-- ===== src/RbTree/Insert.antt =====
-- data/rbtree.c: `rbtree_insert_fixup` and `rbtree_insert`.
pub mod Balance
pub mod Contents
use Prim.Native.Nat.{Ordering}
use c_reusables.Prelude.{
  ℕ, zero, suc, ◌+◌, Option, none, some, [], ◌∷◌, Status, ok, failed, if◌then◌else◌, ◌>>=◌, length,
}
use c_reusables.RbTree.Tree.{
  red, black, Tree, null, node, Frame, left_of, right_of, TreePath, is_red, paint, frame_color,
  paint_frame, sibling, paint_sibling, attach, plug, rotate_left, rotate_right, hit, miss,
  lookup_path,
}

-- What one round of a fixup loop does: leave it with the tree, go on higher up, or follow `NULL`.
pub data Round {ℓ} (K : Type ℓ) : Type ℓ where
  done : Tree K → Round K
  again : Tree K → TreePath K → Round K
  stuck : Round K

module _ {ℓ} {K : Type ℓ} where
  abbrev pub done_if : Option (Tree K) → TreePath K → Round K
  done_if none path = stuck
  done_if (some t) path = done (plug t path)

  -- `MAKE_BLACK(parent); MAKE_RED(grandparent);` after the last rotation.
  unfoldable pub settle_right : Tree K → Option (Tree K)
  settle_right (node _ l k (node _ a x b)) = some (node black l k (node red a x b))
  settle_right _ = none

  unfoldable pub settle_left : Tree K → Option (Tree K)
  settle_left (node _ (node _ a x b) k r) = some (node black (node red a x b) k r)
  settle_left _ = none

  -- The black uncle: one or two rotations, by the sides of the node and of its parent.
  unfoldable pub insert_rotate : Tree K → Frame K → Frame K → Option (Tree K)
  unfolding settle_right settle_left
  insert_rotate n (right_of c l k) (left_of d g u) = do
    parent ← rotate_left (node c l k n)
    top ← rotate_right (node d parent g u)
    settle_right top
  insert_rotate n (left_of c k r) (right_of d u g) = do
    parent ← rotate_right (node c n k r)
    top ← rotate_left (node d u g parent)
    settle_left top
  insert_rotate n (left_of c k r) (left_of d g u) = do
    top ← rotate_right (node d (node c n k r) g u)
    settle_right top
  insert_rotate n (right_of c l k) (right_of d u g) = do
    top ← rotate_left (node d u g (node c l k n))
    settle_left top

  -- The double red: a red parent has a grandparent, else C reads before the array.
  unfoldable pub insert_red : Tree K → Frame K → TreePath K → Round K
  insert_red n p [] = stuck
  insert_red n p (g ∷ up) =
      if is_red (sibling g)
      then again (attach (attach n (paint_frame black p)) (paint_frame red (paint_sibling black g)))
          up
      else done_if (insert_rotate n p g) up

  -- One round of the loop in `rbtree_insert_fixup`.
  unfoldable pub insert_round : Tree K → TreePath K → Round K
  insert_round n [] = done (paint black n)
  insert_round n (p ∷ up) = elim (frame_color p) [
    | black ↦ done (plug n (p ∷ up))
    | red ↦ insert_red n p up
  ]

  -- The loop, with fuel for its rounds.
  unfoldable pub insert_fixup : ℕ → Tree K → TreePath K → Option (Tree K)
  insert_fixup zero n path = none
  insert_fixup (suc fuel) n path = elim (insert_round n path) [
    | done t ↦ some t
    | again n' path' ↦ insert_fixup fuel n' path'
    | stuck ↦ none
  ]

  -- `rbtree_insert`: the result is 0 or -1, and the tree.
  unfoldable pub insert : (K → K → Ordering) → K → Tree K → Option (Status × Tree K)
  insert cmp k t = elim (lookup_path cmp k t []) [
    | hit _ _ _ _ _ ↦ some (failed, t)
    | miss path ↦ do t' ← insert_fixup (length path + 1) (node red null k null) path; some (ok, t')
  ]
