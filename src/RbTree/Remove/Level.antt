-- ===== src/RbTree/Remove/Level.antt =====
-- data/rbtree.c: one level of `rbtree_remove_fixup` under the red-black rules.
use c_reusables.Prelude.{
  Bool, inl, inr, Bool-cases, ℕ, suc, ◌<◌, ◌≡◌, refl, [], ◌∷◌, some, true, false, arith,
}
use c_reusables.RbTree.Tree.{
  Color, Frame, sibling, frame_color, red, black, Tree, node, TreePath, is_red, is_null, paint,
  paint_sibling, attach, plug, rotate_left, rotate_right, left_of, right_of,
}
use c_reusables.RbTree.Balance.{Rb, rb_null, rb_red, rb_black, Above, Balances, plug_black-IsRbTree}
use c_reusables.RbTree.Insert.{done, again}
use c_reusables.RbTree.Walk.{Rb-pos}
use c_reusables.RbTree.Remove.{
  remove_fixup, remove_round, remove_deficit, nephew_red, has_red_child,
}

-- The black height of a node of this colour over two subtrees of height `h`.
abbrev pub height : Color → ℕ → ℕ
height red h = h
height black h = suc h

abbrev pub is_color_red : Color → Bool
is_color_red red = true
is_color_red black = false

module _ {ℓ} {K : Type ℓ} where
  is_red-node :
      (c : Color) (l : Tree K) (k : K) (r : Tree K) → is_red (node c l k r) ≡ is_color_red c
  unfolding is_red
  is_red-node red l k r = refl
  is_red-node black l k r = refl

  pub is_red-black : {h : ℕ} {t : Tree K} → Rb black h t → is_red t ≡ false
  unfolding is_red
  is_red-black rb_null = refl
  is_red-black (rb_black l r) = refl

  Rb-node :
      (c : Color) {h : ℕ} {l r : Tree K} {k : K}
      → Rb black h l
      → Rb black h r
      → Rb c (height c h) (node c l k r)
  Rb-node red l r = rb_red l r
  Rb-node black l r = rb_black l r

  -- The sibling on the right has a red child: the level comes out with its colour and full height.
  nephew_left :
      (c : Color) (k : K) {h : ℕ} {n s : Tree K}
      → Rb black h n
      → Rb black (suc h) s
      → has_red_child s ≡ true
      → (t : Tree K) × (nephew_red n (left_of c k s) ≡ some t) × Rb c (height c (suc h)) t
  unfolding nephew_red has_red_child is_red rotate_left rotate_right paint
  nephew_left c k n rb_null has = cc
  nephew_left c k n (rb_black x (rb_red y z)) has =
      (_, refl, Rb-node c (rb_black n x) (rb_black y z))
  nephew_left c k n (rb_black (rb_red x y) rb_null) has =
      (_, refl, Rb-node c (rb_black n x) (rb_black y rb_null))
  nephew_left c k n (rb_black (rb_red x y) (rb_black z w)) has =
      (_, refl, Rb-node c (rb_black n x) (rb_black y (rb_black z w)))
  nephew_left c k n (rb_black rb_null rb_null) has = cc
  nephew_left c k n (rb_black rb_null (rb_black z w)) has = cc
  nephew_left c k n (rb_black (rb_black x y) rb_null) has = cc
  nephew_left c k n (rb_black (rb_black x y) (rb_black z w)) has = cc

  nephew_right :
      (c : Color) (k : K) {h : ℕ} {n s : Tree K}
      → Rb black h n
      → Rb black (suc h) s
      → has_red_child s ≡ true
      → (t : Tree K) × (nephew_red n (right_of c s k) ≡ some t) × Rb c (height c (suc h)) t
  unfolding nephew_red has_red_child is_red rotate_left rotate_right paint
  nephew_right c k n rb_null has = cc
  nephew_right c k n (rb_black (rb_red x y) z) has =
      (_, refl, Rb-node c (rb_black x y) (rb_black z n))
  nephew_right c k n (rb_black rb_null (rb_red x y)) has =
      (_, refl, Rb-node c (rb_black rb_null x) (rb_black y n))
  nephew_right c k n (rb_black (rb_black z w) (rb_red x y)) has =
      (_, refl, Rb-node c (rb_black (rb_black z w) x) (rb_black y n))
  nephew_right c k n (rb_black rb_null rb_null) has = cc
  nephew_right c k n (rb_black rb_null (rb_black z w)) has = cc
  nephew_right c k n (rb_black (rb_black x y) rb_null) has = cc
  nephew_right c k n (rb_black (rb_black x y) (rb_black z w)) has = cc

  -- A sibling with black children, made red, is one black node shorter.
  redden :
      {h : ℕ} {s : Tree K}
      → Rb black (suc h) s
      → 0 < h
      → has_red_child s ≡ false
      → Rb red h (paint red s)
  unfolding paint has_red_child is_red
  redden rb_null pos has = absurd (omega arith)
  redden (rb_black rb_null rb_null) pos has = rb_red rb_null rb_null
  redden (rb_black rb_null (rb_black x y)) pos has = rb_red rb_null (rb_black x y)
  redden (rb_black (rb_black x y) rb_null) pos has = rb_red (rb_black x y) rb_null
  redden (rb_black (rb_black x y) (rb_black z w)) pos has = rb_red (rb_black x y) (rb_black z w)
  redden (rb_black (rb_red x y) z) pos has = cc
  redden (rb_black rb_null (rb_red x y)) pos has = cc
  redden (rb_black (rb_black z w) (rb_red x y)) pos has = cc

  not_null : {h : ℕ} {s : Tree K} → Rb black (suc h) s → 0 < h → is_null s ≡ false
  unfolding is_null
  not_null rb_null pos = absurd (omega arith)
  not_null (rb_black x y) pos = refl

  -- What one level of the path offers to a black node of height `h` with a deficit, when its sibling
  -- is black: either the level comes out whole, or it is itself a node with the deficit.
  pub record Level (n : Tree K) (p : Frame K) (h : ℕ) : Type ℓ where
    pub is_black : is_red n ≡ false
    pub present : is_null (sibling p) ≡ false
    pub black_sibling : is_red (sibling p) ≡ false
    pub settles :
        has_red_child (sibling p) ≡ true
        → (t : Tree K) × (nephew_red n p ≡ some t)
          × Rb (frame_color p) (height (frame_color p) (suc h)) t
    pub shrinks :
        has_red_child (sibling p) ≡ false
        → (is_red (attach n (paint_sibling red p)) ≡ is_color_red (frame_color p))
          × Rb black (suc h) (paint black (attach n (paint_sibling red p)))

  pub Level-left :
      (c : Color) (k : K) {h : ℕ} {n s : Tree K}
      → Rb black h n
      → Rb black (suc h) s
      → Level n (left_of c k s) h
  unfolding attach paint_sibling is_red
  Level-left c k rn rs = record {
    is_black = is_red-black rn;
    present = not_null rs (Rb-pos rn);
    black_sibling = is_red-black rs;
    settles = nephew_left c k rn rs;
    shrinks = λ has. (is_red-node c _ _ _, rb_black rn (redden rs (Rb-pos rn) has));
  }

  pub Level-right :
      (c : Color) (k : K) {h : ℕ} {n s : Tree K}
      → Rb black h n
      → Rb black (suc h) s
      → Level n (right_of c s k) h
  unfolding attach paint_sibling is_red
  Level-right c k rn rs = record {
    is_black = is_red-black rn;
    present = not_null rs (Rb-pos rn);
    black_sibling = is_red-black rs;
    settles = nephew_right c k rn rs;
    shrinks = λ has. (is_red-node c _ _ _, rb_black (redden rs (Rb-pos rn) has) rn);
  }

  -- A red node takes the deficit in one round.
  pub round_red :
      (m : Tree K) (up : TreePath K)
      → is_red m ≡ true
      → remove_round m up ≡ done (plug (paint black m) up)
  unfolding remove_round plug
  round_red m [] e = rw e
  round_red m (p ∷ up) e = rw e

  module _ {n : Tree K} {p : Frame K} {h : ℕ} (up : TreePath K) (level : Level n p h) where
    pub round_nephew :
        {t : Tree K}
        → has_red_child (sibling p) ≡ true
        → nephew_red n p ≡ some t
        → remove_round n (p ∷ up) ≡ done (plug t up)
    unfolding remove_round remove_deficit
    round_nephew has e = rw (level.is_black, level.present, level.black_sibling, has, e)

    pub round_no_nephew :
        has_red_child (sibling p) ≡ false
        → remove_round n (p ∷ up) ≡ again (attach n (paint_sibling red p)) up
    unfolding remove_round remove_deficit
    round_no_nephew has = rw (level.is_black, level.present, level.black_sibling, has)

    -- Below a red parent two rounds are enough.
    pub deficit_red :
        (fuel : ℕ)
        → frame_color p ≡ red
        → Above black (suc h) up
        → Balances (remove_fixup (suc (suc fuel)) n (p ∷ up))
    unfolding remove_fixup
    deficit_red fuel is_red_parent u = elim (Bool-cases (has_red_child (sibling p))) [
      | inl has ↦
          let (t, e, r) = level.settles has in
          rw (round_nephew has e, remove_fixup)
            (plug t up, refl, plug_black-IsRbTree (rw is_red_parent at r) u)
      | inr has ↦
          let (colored, r) = level.shrinks has in
          rw (round_no_nephew has, round_red _ up (rw is_red_parent at colored), remove_fixup)
            (_, refl, plug_black-IsRbTree r u)
    ]
