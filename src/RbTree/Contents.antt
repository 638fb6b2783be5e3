-- ===== src/RbTree/Contents.antt =====
-- data/rbtree.c: what a tree holds, in order, and what the fixups leave of it.
use c_reusables.Prelude.{
  ◌≡◌, refl, sym, ◌∙◌, Option, some, none, List, [], ◌∷◌, ◌++◌, append_assoc, append-nil,
}
use c_reusables.RbTree.Tree.{
  Color, Tree, null, node, Frame, left_of, right_of, TreePath, paint, attach, plug, to_list,
}

module _ {ℓ} {K : Type ℓ} where
  -- What stands left, and right, of the end of the path.
  unfoldable pub before : TreePath K → List K
  before [] = []
  before (left_of c k r ∷ up) = before up
  before (right_of c l k ∷ up) = before up ++ (to_list l ++ (k ∷ []))

  unfoldable pub after : TreePath K → List K
  after [] = []
  after (left_of c k r ∷ up) = k ∷ (to_list r ++ after up)
  after (right_of c l k ∷ up) = after up

  abbrev pub whole : List K → TreePath K → List K
  whole xs path = before path ++ (xs ++ after path)

  pub to_list-attach :
      (t : Tree K) (f : Frame K) (up : TreePath K)
      → whole (to_list (attach t f)) up ≡ whole (to_list t) (f ∷ up)
  unfolding attach to_list before after
  to_list-attach t (left_of c k r) up = simp append_assoc
  to_list-attach t (right_of c l k) up = simp append_assoc

  -- The tree that a path closes to holds what stands left of its end, the subtree, and the rest.
  pub to_list-plug :
      (t : Tree K) (path : TreePath K) → to_list (plug t path) ≡ whole (to_list t) path
  unfolding plug before after
  to_list-plug t [] = sym (append-nil _)
  to_list-plug t (f ∷ up) = to_list-plug (attach t f) up ∙ to_list-attach t f up

  pub to_list-paint : (c : Color) (t : Tree K) → to_list (paint c t) ≡ to_list t
  unfolding paint to_list
  to_list-paint c null = refl
  to_list-paint c (node d l k r) = refl

  -- A tree, if there is one, holds these nodes in this order.
  abbrev pub Holds : List K → Option (Tree K) → Type ℓ
  Holds xs none = Unit
  Holds xs (some t) = to_list t ≡ xs
