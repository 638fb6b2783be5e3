-- ===== src/RbTree/Fini.antt =====
-- data/rbtree.c: `rbtree_fini_step` takes a tree apart, node by node.
use c_reusables.Prelude.{
  ℕ, zero, suc, ◌+◌, ◌≤◌, ◌≡◌, refl, sym, ◌∙◌, ap, Option, none, some, List, [], ◌∷◌, ◌++◌, length,
  arith,
}
use c_reusables.RbTree.Tree.{Color, black, Tree, null, node, to_list}

module _ {ℓ} {K : Type ℓ} where
  -- The node that has no left child, with the tree that its right child replaces it in. The pointer to
  -- it is written over as a whole: its parent loses its colour, which stands in the same word.
  unfoldable pub fini_from : Color → Tree K → K → Tree K → K × Tree K
  fini_from c null k r = (k, r)
  fini_from c (node d null j q) k r = (j, node black q k r)
  fini_from c (node d (node e l i p) j q) k r =
      let (leftmost, rest) = fini_from d (node e l i p) j q in (leftmost, node c rest k r)

  -- `rbtree_fini_step`: the node, or NULL, and the tree that is left.
  unfoldable pub fini_step : Tree K → Option K × Tree K
  unfolding fini_from
  fini_step null = (none, null)
  fini_step (node c l k r) = let (leftmost, rest) = fini_from c l k r in (some leftmost, rest)

  -- The loop of the header's example, with fuel: the nodes that it releases, and the tree.
  unfoldable pub fini_loop : ℕ → Tree K → List K × Tree K
  unfolding fini_step
  fini_loop zero t = ([], t)
  fini_loop (suc fuel) t =
      let (taken, rest) = fini_step t in
      let (others, left) = fini_loop fuel rest in
      elim taken [ none ↦ ([], rest) | some k ↦ (k ∷ others, left) ]

  to_list-fini_from :
      (c : Color) (l : Tree K) (k : K) (r : Tree K)
      → to_list (node c l k r) ≡ (fini_from c l k r).0 ∷ to_list ((fini_from c l k r).1)
  unfolding to_list fini_from
  to_list-fini_from c null k r = refl
  to_list-fini_from c (node d null j q) k r = refl
  to_list-fini_from c (node d (node e l i p) j q) k r =
      ap (λ xs. xs ++ (k ∷ to_list r)) (to_list-fini_from d (node e l i p) j q)

  -- The loop takes the nodes in their order, each once, and leaves an empty tree, with fuel for one
  -- step more than there are nodes.
  pub fini_loop-to_list :
      (fuel : ℕ) (t : Tree K)
      → length (to_list t) + 1 ≤ fuel
      → (fini_loop fuel t).0 ≡ to_list t × (fini_loop fuel t).1 ≡ null
  unfolding fini_loop fini_step to_list
  fini_loop-to_list zero t h = absurd (omega arith)
  fini_loop-to_list (suc fuel) null h = (refl, refl)
  fini_loop-to_list (suc fuel) (node c l k r) h =
      let e = to_list-fini_from c l k r in
      let (nodes, left) =
        fini_loop-to_list fuel ((fini_from c l k r).1) (omega (arith, ap length e)) in
      (ap (λ xs. (fini_from c l k r).0 ∷ xs) nodes ∙ sym e, left)
