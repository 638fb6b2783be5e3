-- ===== src/RbTree/Insert/Balance.antt =====
-- data/rbtree.c: `rbtree_insert_fixup` restores the red-black rules.
use Prim.Native.Nat.{Ordering}
use c_reusables.Prelude.{
  ℕ, zero, suc, ◌+◌, ◌<◌, ◌≡◌, refl, [], some, Status, ok, failed, length, arith,
}
use c_reusables.RbTree.Tree.{
  Color, red, Tree, TreePath, is_red, paint, paint_frame, paint_sibling, attach, rotate_left,
  rotate_right, Walk, hit, miss, lookup_path,
}
use c_reusables.RbTree.Balance.{
  Rb, rb_null, rb_red, rb_black, Above, top, red_left, red_right, black_left, black_right, Balances,
  IsRbTree, plug-IsRbTree, plug_black-IsRbTree,
}
use c_reusables.RbTree.Insert.{
  settle_left, settle_right, insert_rotate, insert_red, insert_round, insert_fixup, insert,
}
use c_reusables.RbTree.Walk.{IsWalked, walked_miss, root-IsWalked}

module _ {ℓ} {K : Type ℓ} where
  -- A red node with a path for its black height: the loop ends, and no pointer it follows is `NULL`.
  pub insert_fixup-Balances :
      (fuel : ℕ) {c : Color} {h : ℕ} {n : Tree K} {path : TreePath K}
      → Rb red h n
      → Above c h path
      → length path < fuel
      → Balances (insert_fixup fuel n path)
  unfolding insert_fixup insert_round insert_red insert_rotate settle_left settle_right is_red paint
      paint_frame paint_sibling attach rotate_left rotate_right
  insert_fixup-Balances zero n u enough = absurd (omega arith)
  insert_fixup-Balances (suc f) (rb_red a b) top enough = (_, refl, (_, rb_black a b))
  insert_fixup-Balances (suc f) (rb_red a b) (black_left s u) enough =
      (_, refl, plug_black-IsRbTree (rb_red a b) (black_left s u))
  insert_fixup-Balances (suc f) (rb_red a b) (black_right s u) enough =
      (_, refl, plug_black-IsRbTree (rb_red a b) (black_right s u))
  insert_fixup-Balances (suc f) (rb_red a b) (red_left s (black_left (rb_red v w) u)) enough =
      insert_fixup-Balances f (rb_red (rb_black (rb_red a b) s) (rb_black v w)) u (omega arith)
  insert_fixup-Balances (suc f) (rb_red a b) (red_left s (black_left rb_null u)) enough =
      (_, refl, plug-IsRbTree _ (rb_black (rb_red a b) (rb_red s rb_null)) u)
  insert_fixup-Balances (suc f) (rb_red a b) (red_left s (black_left (rb_black v w) u)) enough =
      (_, refl, plug-IsRbTree _ (rb_black (rb_red a b) (rb_red s (rb_black v w))) u)
  insert_fixup-Balances (suc f) (rb_red a b) (red_left s (black_right (rb_red v w) u)) enough =
      insert_fixup-Balances f (rb_red (rb_black v w) (rb_black (rb_red a b) s)) u (omega arith)
  insert_fixup-Balances (suc f) (rb_red a b) (red_left s (black_right rb_null u)) enough =
      (_, refl, plug-IsRbTree _ (rb_black (rb_red rb_null a) (rb_red b s)) u)
  insert_fixup-Balances (suc f) (rb_red a b) (red_left s (black_right (rb_black v w) u)) enough =
      (_, refl, plug-IsRbTree _ (rb_black (rb_red (rb_black v w) a) (rb_red b s)) u)
  insert_fixup-Balances (suc f) (rb_red a b) (red_right s (black_left (rb_red v w) u)) enough =
      insert_fixup-Balances f (rb_red (rb_black s (rb_red a b)) (rb_black v w)) u (omega arith)
  insert_fixup-Balances (suc f) (rb_red a b) (red_right s (black_left rb_null u)) enough =
      (_, refl, plug-IsRbTree _ (rb_black (rb_red s a) (rb_red b rb_null)) u)
  insert_fixup-Balances (suc f) (rb_red a b) (red_right s (black_left (rb_black v w) u)) enough =
      (_, refl, plug-IsRbTree _ (rb_black (rb_red s a) (rb_red b (rb_black v w))) u)
  insert_fixup-Balances (suc f) (rb_red a b) (red_right s (black_right (rb_red v w) u)) enough =
      insert_fixup-Balances f (rb_red (rb_black v w) (rb_black s (rb_red a b))) u (omega arith)
  insert_fixup-Balances (suc f) (rb_red a b) (red_right s (black_right rb_null u)) enough =
      (_, refl, plug-IsRbTree _ (rb_black (rb_red rb_null s) (rb_red a b)) u)
  insert_fixup-Balances (suc f) (rb_red a b) (red_right s (black_right (rb_black v w) u)) enough =
      (_, refl, plug-IsRbTree _ (rb_black (rb_red (rb_black v w) s) (rb_red a b)) u)

  -- From a red-black tree `rbtree_insert` follows no `NULL`, ends, and leaves a red-black tree.
  pub insert-IsRbTree :
      (cmp : K → K → Ordering) (k : K) (t : Tree K)
      → IsRbTree t
      → (r : Status × Tree K) × (insert cmp k t ≡ some r) × IsRbTree r.1
  unfolding insert
  insert-IsRbTree cmp k t h = go (lookup_path cmp k t []) refl (root-IsWalked cmp k h)
    where
      go :
          (w : Walk K)
          → lookup_path cmp k t [] ≡ w
          → IsWalked w
          → (r : Status × Tree K) × (insert cmp k t ≡ some r) × IsRbTree r.1
      go (hit c l x r p) e w = ((failed, t), rw (e, insert), h)
      go (miss p) e (walked_miss u) =
          let (t', runs, good) =
            insert_fixup-Balances (length p + 1) (rb_red {k = k} rb_null rb_null) u (omega arith) in
          ((ok, t'), rw (e, insert, runs), good)
