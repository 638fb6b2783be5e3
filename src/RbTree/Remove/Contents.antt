-- ===== src/RbTree/Remove/Contents.antt =====
-- data/rbtree.c: `rbtree_remove_fixup` moves no node in the order.
use c_reusables.Prelude.{
  ℕ, zero, suc, ◌≡◌, refl, sym, ◌∙◌, ap, Option, some, none, inl, inr, Bool-cases, List, [], ◌∷◌,
  ◌++◌, append_assoc, append-nil, ◌>>=◌,
}
use c_reusables.RbTree.Tree.{
  Color, red, black, Tree, null, node, Frame, left_of, right_of, TreePath, paint, attach, to_list,
  is_red, is_null, sibling, paint_sibling, rotate_left, rotate_right,
}
use c_reusables.RbTree.Contents.{
  before, after, whole, Holds, to_list-attach, to_list-plug, to_list-paint,
}
use c_reusables.RbTree.Insert.{Round, done, again, stuck}
use c_reusables.RbTree.Insert.Contents.{Keeps, done_if-Keeps}
use c_reusables.RbTree.Remove.{
  sibling_red, raise_inner_left, raise_inner_right, take_color_left, take_color_right, nephew_red,
  has_red_child, remove_deficit, remove_round, remove_fixup,
}

module _ {ℓ} {K : Type ℓ} where
  Holds-bind :
      {xs : List K} (ys : List K) (m : Option (Tree K)) (f : Tree K → Option (Tree K))
      → Holds xs m
      → ((t : Tree K) → to_list t ≡ xs → Holds ys (f t))
      → Holds ys (m >>= f)
  Holds-bind ys none f h k = tt
  Holds-bind ys (some t) f h k = k t h

  raise_inner_left-Holds : (s : Tree K) → Holds (to_list s) (raise_inner_left s)
  unfolding raise_inner_left rotate_right paint to_list
  raise_inner_left-Holds null = tt
  raise_inner_left-Holds (node c l y r) = elim (Bool-cases (is_red r)) [
    | inl e ↦ rw e refl
    | inr e ↦ rw e (inner l)
  ]
    where
      inner :
          (l : Tree K)
          → Holds (to_list l ++ (y ∷ to_list r)) (rotate_right (node red (paint black l) y r))
      inner null = tt
      inner (node d a x b) = simp append_assoc

  raise_inner_right-Holds : (s : Tree K) → Holds (to_list s) (raise_inner_right s)
  unfolding raise_inner_right rotate_left paint to_list
  raise_inner_right-Holds null = tt
  raise_inner_right-Holds (node c l y r) = elim (Bool-cases (is_red l)) [
    | inl e ↦ rw e refl
    | inr e ↦ rw e (inner r)
  ]
    where
      inner :
          (r : Tree K)
          → Holds (to_list l ++ (y ∷ to_list r)) (rotate_left (node red l y (paint black r)))
      inner null = tt
      inner (node d a x b) = simp append_assoc

  take_color_left-Holds :
      (n : Tree K) (c : Color) (k : K) (s : Tree K)
      → Holds (to_list n ++ (k ∷ to_list s)) (take_color_left n c k s)
  unfolding take_color_left rotate_left to_list
  take_color_left-Holds n c k (node d a y (node e b z f)) = simp append_assoc
  take_color_left-Holds n c k (node d a y null) = tt
  take_color_left-Holds n c k null = tt

  take_color_right-Holds :
      (n : Tree K) (c : Color) (k : K) (s : Tree K)
      → Holds (to_list s ++ (k ∷ to_list n)) (take_color_right n c k s)
  unfolding take_color_right rotate_right to_list
  take_color_right-Holds n c k (node d (node e b z f) y a) = simp append_assoc
  take_color_right-Holds n c k (node d null y a) = tt
  take_color_right-Holds n c k null = tt

  nephew_red-Holds : (n : Tree K) (p : Frame K) → Holds (to_list (attach n p)) (nephew_red n p)
  unfolding nephew_red attach to_list
  nephew_red-Holds n (left_of c k s) =
      Holds-bind _ (raise_inner_left s) (take_color_left n c k) (raise_inner_left-Holds s)
        λ t e. rw e at (take_color_left-Holds n c k t)
  nephew_red-Holds n (right_of c s k) =
      Holds-bind _ (raise_inner_right s) (take_color_right n c k) (raise_inner_right-Holds s)
        λ t e. rw e at (take_color_right-Holds n c k t)

  sibling_red-Keeps :
      (n : Tree K) (p : Frame K) (up : TreePath K)
      → Keeps (whole (to_list n) (p ∷ up)) (sibling_red n p up)
  unfolding sibling_red rotate_left rotate_right before after to_list
  sibling_red-Keeps n (left_of c k null) up = tt
  sibling_red-Keeps n (left_of c k (node d a y b)) up = simp append_assoc
  sibling_red-Keeps (node e u x v) (right_of c null k) up = tt
  sibling_red-Keeps null (right_of c null k) up = tt
  sibling_red-Keeps n (right_of c (node d a y b) k) up = simp append_assoc

  to_list_reddened :
      (n : Tree K) (p : Frame K) → to_list (attach n (paint_sibling red p)) ≡ to_list (attach n p)
  unfolding attach paint_sibling to_list
  to_list_reddened n (left_of c k s) = rw to_list-paint
  to_list_reddened n (right_of c s k) = rw to_list-paint

  remove_deficit-Keeps :
      (n : Tree K) (p : Frame K) (up : TreePath K)
      → Keeps (whole (to_list n) (p ∷ up)) (remove_deficit n p up)
  unfolding remove_deficit
  remove_deficit-Keeps n p up = elim (Bool-cases (is_null (sibling p))) [
    | inl a ↦ rw a tt
    | inr a ↦ elim (Bool-cases (is_red (sibling p))) [
      | inl b ↦ rw (a, b) (sibling_red-Keeps n p up)
      | inr b ↦ elim (Bool-cases (has_red_child (sibling p))) [
        | inl c ↦
            rw (a, b, c, ← to_list-attach n p up) (done_if-Keeps _ _ up (nephew_red-Holds n p))
        | inr c ↦
            rw (a, b, c) (ap (λ ys. whole ys up) (to_list_reddened n p) ∙ to_list-attach n p up)
      ]
    ]
  ]

  whole_top : (n : Tree K) → to_list n ≡ whole (to_list n) []
  unfolding before after
  whole_top n = sym (append-nil _)

  remove_round-Keeps :
      (n : Tree K) (path : TreePath K) → Keeps (whole (to_list n) path) (remove_round n path)
  unfolding remove_round
  remove_round-Keeps n [] = elim (Bool-cases (is_red n)) [
    | inl e ↦ rw e (to_list-paint black n ∙ whole_top n)
    | inr e ↦ rw e (whole_top n)
  ]
  remove_round-Keeps n (p ∷ up) = elim (Bool-cases (is_red n)) [
    | inl e ↦ rw e (
        to_list-plug (paint black n) (p ∷ up)
        ∙ ap (λ ys. whole ys (p ∷ up)) (to_list-paint black n))
    | inr e ↦ rw e (remove_deficit-Keeps n p up)
  ]

  -- The loop rotates and recolours; the nodes and their order stay.
  pub remove_fixup-Holds :
      (fuel : ℕ) (n : Tree K) (path : TreePath K)
      → Holds (whole (to_list n) path) (remove_fixup fuel n path)
  unfolding remove_fixup
  remove_fixup-Holds zero n path = tt
  remove_fixup-Holds (suc f) n path =
      go (remove_round n path) (remove_round-Keeps n path) (remove_fixup-Holds f)
    where
      go :
          (r : Round K)
          → Keeps (whole (to_list n) path) r
          → ((n' : Tree K) (path' : TreePath K)
              → Holds (whole (to_list n') path') (remove_fixup f n' path'))
          → Holds
              (whole (to_list n) path)
              (elim r [ done t ↦ some t | again n' path' ↦ remove_fixup f n' path' | stuck ↦ none ])
      go (done t) h ih = h
      go (again n' path') h ih = rw (← h) (ih n' path')
      go stuck h ih = tt
