-- ===== src/RbTree/Insert/Contents.antt =====
-- data/rbtree.c: `rbtree_insert_fixup` moves no node in the order.
use c_reusables.Prelude.{
  ℕ, zero, suc, ◌≡◌, sym, ◌∙◌, ap, Option, some, none, inl, inr, Bool-cases, List, [], ◌∷◌,
  append_assoc, append-nil,
}
use c_reusables.RbTree.Tree.{
  red, black, Tree, null, node, Frame, left_of, right_of, TreePath, attach, to_list, is_red,
  sibling, paint_frame, paint_sibling, rotate_left, rotate_right,
}
use c_reusables.RbTree.Contents.{
  before, after, whole, Holds, to_list-attach, to_list-plug, to_list-paint,
}
use c_reusables.RbTree.Insert.{
  Round, done, again, stuck, done_if, settle_left, settle_right, insert_rotate, insert_red,
  insert_round, insert_fixup,
}

module _ {ℓ} {K : Type ℓ} where
  -- After a round the tree at hand, closed by the path at hand, holds these nodes in this order.
  abbrev pub Keeps : List K → Round K → Type ℓ
  Keeps xs (done t) = to_list t ≡ xs
  Keeps xs (again n path) = whole (to_list n) path ≡ xs
  Keeps xs stuck = Unit

  pub done_if-Keeps :
      (o : Option (Tree K)) (xs : List K) (up : TreePath K)
      → Holds xs o
      → Keeps (whole xs up) (done_if o up)
  done_if-Keeps none xs up h = tt
  done_if-Keeps (some t) xs up h = to_list-plug t up ∙ ap (λ ys. whole ys up) h

  insert_rotate-Holds :
      (n : Tree K) (p g : Frame K) → Holds (to_list (attach (attach n p) g)) (insert_rotate n p g)
  unfolding insert_rotate settle_left settle_right attach rotate_left rotate_right to_list
  insert_rotate-Holds n (left_of c k r) (left_of d g u) = simp append_assoc
  insert_rotate-Holds n (right_of c l k) (right_of d u g) = simp append_assoc
  insert_rotate-Holds null (right_of c l k) (left_of d g u) = tt
  insert_rotate-Holds (node e x m y) (right_of c l k) (left_of d g u) = simp append_assoc
  insert_rotate-Holds null (left_of c k r) (right_of d u g) = tt
  insert_rotate-Holds (node e x m y) (left_of c k r) (right_of d u g) = simp append_assoc

  to_list_recolored :
      (n : Tree K) (p g : Frame K)
      → to_list (attach (attach n (paint_frame black p)) (paint_frame red (paint_sibling black g)))
        ≡ to_list (attach (attach n p) g)
  unfolding attach paint_frame paint_sibling to_list
  to_list_recolored n (left_of c k r) (left_of d g u) = rw to_list-paint
  to_list_recolored n (right_of c l k) (right_of d u g) = rw to_list-paint
  to_list_recolored n (right_of c l k) (left_of d g u) = rw to_list-paint
  to_list_recolored n (left_of c k r) (right_of d u g) = rw to_list-paint

  whole-attach :
      (n : Tree K) (p g : Frame K) (up : TreePath K)
      → whole (to_list (attach (attach n p) g)) up ≡ whole (to_list n) (p ∷ g ∷ up)
  whole-attach n p g up = to_list-attach (attach n p) g up ∙ to_list-attach n p (g ∷ up)

  insert_red-Keeps :
      (n : Tree K) (p : Frame K) (up : TreePath K)
      → Keeps (whole (to_list n) (p ∷ up)) (insert_red n p up)
  unfolding insert_red
  insert_red-Keeps n p [] = tt
  insert_red-Keeps n p (g ∷ up) = elim (Bool-cases (is_red (sibling g))) [
    | inl e ↦
        rw (e, insert_red)
          (ap (λ ys. whole ys up) (to_list_recolored n p g) ∙ whole-attach n p g up)
    | inr e ↦
        rw (e, insert_red, ← whole-attach n p g up)
          (done_if-Keeps _ _ up (insert_rotate-Holds n p g))
  ]

  insert_round-Keeps :
      (n : Tree K) (path : TreePath K) → Keeps (whole (to_list n) path) (insert_round n path)
  unfolding insert_round before after
  insert_round-Keeps n [] = to_list-paint black n ∙ sym (append-nil _)
  insert_round-Keeps n (left_of black k r ∷ up) = to_list-plug n (left_of black k r ∷ up)
  insert_round-Keeps n (left_of red k r ∷ up) = insert_red-Keeps n (left_of red k r) up
  insert_round-Keeps n (right_of black l k ∷ up) = to_list-plug n (right_of black l k ∷ up)
  insert_round-Keeps n (right_of red l k ∷ up) = insert_red-Keeps n (right_of red l k) up

  -- The loop rotates and recolours; the nodes and their order stay.
  pub insert_fixup-Holds :
      (fuel : ℕ) (n : Tree K) (path : TreePath K)
      → Holds (whole (to_list n) path) (insert_fixup fuel n path)
  unfolding insert_fixup
  insert_fixup-Holds zero n path = tt
  insert_fixup-Holds (suc f) n path =
      go (insert_round n path) (insert_round-Keeps n path) (insert_fixup-Holds f)
    where
      go :
          (r : Round K)
          → Keeps (whole (to_list n) path) r
          → ((n' : Tree K) (path' : TreePath K)
              → Holds (whole (to_list n') path') (insert_fixup f n' path'))
          → Holds
              (whole (to_list n) path)
              (elim r [ done t ↦ some t | again n' path' ↦ insert_fixup f n' path' | stuck ↦ none ])
      go (done t) h ih = h
      go (again n' path') h ih = rw (← h) (ih n' path')
      go stuck h ih = tt
