-- ===== src/RbTree/Remove/Splice.antt =====
-- data/rbtree.c: `rbtree_remove` takes one node out and leaves the others in their order.
use c_reusables.Prelude.{◌≡◌, refl, sym, ◌∙◌, List, [], ◌∷◌, ◌++◌, append_assoc, append-nil}
use c_reusables.RbTree.Tree.{
  Color, red, black, Tree, null, node, left_of, right_of, TreePath, to_list,
}
use c_reusables.RbTree.Contents.{before, after, whole, Holds, to_list-plug}
use c_reusables.RbTree.Remove.{Bottom, leftmost, swap_with_successor, unlink}
use c_reusables.RbTree.Remove.Contents.{remove_fixup-Holds}

module _ {ℓ} {K : Type ℓ} where
  before-append : (p q : TreePath K) → before (p ++ q) ≡ before q ++ before p
  unfolding before
  before-append [] q = sym (append-nil _)
  before-append (left_of c k r ∷ p) q = before-append p q
  before-append (right_of c l k ∷ p) q = rw (before-append p q, append_assoc)

  after-append : (p q : TreePath K) → after (p ++ q) ≡ after p ++ after q
  unfolding after
  after-append [] q = refl
  after-append (left_of c k r ∷ p) q = simp (after-append p q, append_assoc)
  after-append (right_of c l k ∷ p) q = after-append p q

  before-leftmost :
      (c : Color) (l : Tree K) (k : K) (r : Tree K) (q : TreePath K)
      → before (leftmost c l k r q).path ≡ before q
  unfolding leftmost before
  before-leftmost c null k r q = refl
  before-leftmost c (node d a x b) k r q = before-leftmost d a x b (left_of c k r ∷ q)

  after-leftmost :
      (c : Color) (l : Tree K) (k : K) (r : Tree K) (q : TreePath K)
      → (leftmost c l k r q).key
          ∷ (to_list (leftmost c l k r q).right ++ after (leftmost c l k r q).path)
        ≡ to_list l ++ (k ∷ (to_list r ++ after q))
  unfolding leftmost after to_list
  after-leftmost c null k r q = refl
  after-leftmost c (node d a x b) k r q =
      after-leftmost d a x b (left_of c k r ∷ q) ∙ simp append_assoc

  splice-whole :
      (c : Color) (l : Tree K) (path q : TreePath K) {k : K} (t : Tree K) {xs : List K}
      → before q ≡ []
      → k ∷ (to_list t ++ after q) ≡ xs
      → whole (to_list t) (q ++ (right_of c l k ∷ path)) ≡ whole (to_list l ++ xs) path
  unfolding before after
  splice-whole c l path q t none_left e =
      simp (before-append, after-append, none_left, append_assoc, ← e)

  -- Without the node, the two subtrees stand where it stood.
  pub swap-whole :
      (c : Color) (l r : Tree K) (path : TreePath K)
      → let b = swap_with_successor c l r path in
        whole (to_list b.child) b.path ≡ whole (to_list l ++ to_list r) path
  unfolding swap_with_successor to_list before after
  swap-whole c l null path = simp append-nil
  swap-whole c null (node d null y z) path = refl
  swap-whole c (node e a x b) (node d null y z) path = simp append_assoc
  swap-whole c l (node d (node e a x b) y z) path =
      splice-whole c l path (leftmost e a x b (left_of d y z ∷ [])).path
        (leftmost e a x b (left_of d y z ∷ [])).right (before-leftmost e a x b (left_of d y z ∷ []))
        (after-leftmost e a x b (left_of d y z ∷ []) ∙ simp (append_assoc, append-nil))

  pub unlink-Holds : (b : Bottom K) → Holds (whole (to_list b.child) b.path) (unlink b)
  unfolding unlink
  unlink-Holds b = go b.color
    where
      go : (c : Color) → Holds (whole (to_list b.child) b.path) (unlink (record b { color = c }))
      go red = to_list-plug b.child b.path
      go black = remove_fixup-Holds _ b.child b.path
