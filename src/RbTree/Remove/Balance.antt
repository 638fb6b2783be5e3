-- ===== src/RbTree/Remove/Balance.antt =====
-- data/rbtree.c: `rbtree_remove_fixup` restores the red-black rules.
use c_reusables.Prelude.{
  ℕ, zero, suc, ◌+◌, ◌<◌, ◌≡◌, refl, inl, inr, Bool-cases, [], ◌∷◌, true, false, length, arith,
}
use c_reusables.RbTree.Tree.{
  Color, red, black, Tree, null, node, Frame, TreePath, is_red, is_null, paint, paint_sibling,
  attach, plug, sibling, frame_color, rotate_left, rotate_right, left_of, right_of,
}
use c_reusables.RbTree.Balance.{
  Rb, rb_null, rb_red, rb_black, Above, top, red_left, red_right, black_left, black_right, Balances,
  IsRbTree, plug-IsRbTree,
}
use c_reusables.RbTree.Insert.{done, again}
use c_reusables.RbTree.Remove.{
  remove_fixup, remove_round, remove_deficit, has_red_child, sibling_red,
}
use c_reusables.RbTree.Remove.Level.{
  Level, Level-left, Level-right, is_red-black, round_red, round_nephew, round_no_nephew,
  deficit_red,
}

module _ {ℓ} {K : Type ℓ} where
  paint_black : (m : Tree K) → is_red m ≡ false → paint black m ≡ m
  unfolding paint is_red
  paint_black null e = refl
  paint_black (node black l k r) e = refl
  paint_black (node red l k r) e = cc

  round_top : (n : Tree K) → is_red n ≡ false → remove_round n [] ≡ done n
  unfolding remove_round
  round_top n e = rw e

  round_sibling_left :
      (n : Tree K) (up : TreePath K) (k y : K) (a b : Tree K)
      → is_red n ≡ false
      → remove_round n (left_of black k (node red a y b) ∷ up)
        ≡ again n (left_of red k a ∷ left_of black y b ∷ up)
  unfolding remove_round remove_deficit sibling_red rotate_left is_null is_red
  round_sibling_left n up k y a b e = rw e

  round_sibling_right :
      (n : Tree K) (up : TreePath K) (k y : K) (a b : Tree K)
      → is_red n ≡ false
      → remove_round n (right_of black (node red a y b) k ∷ up)
        ≡ again n (right_of red b k ∷ right_of black a y ∷ up)
  unfolding remove_round remove_deficit sibling_red rotate_right is_null is_red
  round_sibling_right n up k y a b e = rw e

  blackened :
      {h : ℕ} {n : Tree K} → Rb red h n → (is_red n ≡ true) × Rb black (suc h) (paint black n)
  unfolding is_red paint
  blackened (rb_red a b) = (refl, rb_black a b)

  ends :
      (fuel : ℕ) (n : Tree K) {t : Tree K} (path : TreePath K)
      → remove_round n path ≡ done t
      → IsRbTree t
      → Balances (remove_fixup (suc fuel) n path)
  unfolding remove_fixup
  ends fuel n {t} path e good = (t, rw (e, remove_fixup), good)

  goes_on :
      (fuel : ℕ) (n : Tree K) {n' : Tree K} (path : TreePath K) {path' : TreePath K}
      → remove_round n path ≡ again n' path'
      → Balances (remove_fixup fuel n' path')
      → Balances (remove_fixup (suc fuel) n path)
  unfolding remove_fixup
  goes_on fuel n path e rest = rw (e, remove_fixup) rest

  -- A black parent with a black sibling: the loop ends, or goes on at the parent.
  deficit_black :
      (fuel : ℕ) {n : Tree K} {p : Frame K} {d : Color} {h : ℕ} {up : TreePath K}
      → Level n p h
      → frame_color p ≡ black
      → Above d (suc (suc h)) up
      → ((m : Tree K) → Rb black (suc h) m → Balances (remove_fixup fuel m up))
      → Balances (remove_fixup (suc fuel) n (p ∷ up))
  unfolding remove_fixup
  deficit_black fuel {n} {p} {up} level parent u higher =
      elim (Bool-cases (has_red_child (sibling p))) [
        | inl has ↦
            let (t, e, r) = level.settles has in
            rw (round_nephew up level has e, remove_fixup)
              (plug t up, refl, plug-IsRbTree up (rw parent at r) u)
        | inr has ↦
            let (colored, r) = level.shrinks has in
            let m = attach n (paint_sibling red p) in
            rw (round_no_nephew up level has, remove_fixup)
              (higher m (rw (paint_black m (rw parent at colored)) at r))
      ]

  -- A subtree one black node short of what its path wants: the loop ends, within the fuel that
  -- `rbtree_remove` gives it, no pointer it follows is `NULL`, and the tree is red-black again.
  pub remove_fixup-Balances :
      (fuel : ℕ) {c d : Color} {h : ℕ} {n : Tree K} {path : TreePath K}
      → Rb c h n
      → Above d (suc h) path
      → length path + 2 < fuel
      → Balances (remove_fixup fuel n path)
  remove_fixup-Balances zero rn u enough = absurd (omega arith)
  remove_fixup-Balances (suc zero) rn u enough = absurd (omega arith)
  remove_fixup-Balances (suc (suc zero)) rn u enough = absurd (omega arith)
  remove_fixup-Balances (suc (suc (suc f))) {c = red} {n} {path} rn u enough =
      let (colored, r) = blackened rn in
      ends _ _ _ (round_red n path colored) (plug-IsRbTree path r u)
  remove_fixup-Balances (suc (suc (suc f))) {c = black} {n} rn top enough =
      ends _ _ _ (round_top n (is_red-black rn)) (_, rn)
  remove_fixup-Balances (suc (suc (suc f))) {c = black} rn (red_left s u) enough =
      deficit_red _ (Level-left red _ rn s) (suc f) refl u
  remove_fixup-Balances (suc (suc (suc f))) {c = black} rn (red_right s u) enough =
      deficit_red _ (Level-right red _ rn s) (suc f) refl u
  remove_fixup-Balances (suc (suc (suc f))) {c = black} rn (black_left rb_null u) enough =
      elim rn [ ]
  remove_fixup-Balances (suc (suc (suc f))) {c = black} rn (black_left (rb_red a b) u) enough =
      goes_on _ _ _ (round_sibling_left _ _ _ _ _ _ (is_red-black rn))
        (deficit_red _ (Level-left red _ rn a) f refl (black_left b u))
  remove_fixup-Balances (suc (suc (suc f))) {c = black} rn (black_left (rb_black a b) u) enough =
      deficit_black _ (Level-left black _ rn (rb_black a b)) refl u
        (λ m rm. remove_fixup-Balances (suc (suc f)) rm u (omega arith))
  remove_fixup-Balances (suc (suc (suc f))) {c = black} rn (black_right rb_null u) enough =
      elim rn [ ]
  remove_fixup-Balances (suc (suc (suc f))) {c = black} rn (black_right (rb_red a b) u) enough =
      goes_on _ _ _ (round_sibling_right _ _ _ _ _ _ (is_red-black rn))
        (deficit_red _ (Level-right red _ rn b) f refl (black_right a u))
  remove_fixup-Balances (suc (suc (suc f))) {c = black} rn (black_right (rb_black a b) u) enough =
      deficit_black _ (Level-right black _ rn (rb_black a b)) refl u
        (λ m rm. remove_fixup-Balances (suc (suc f)) rm u (omega arith))
