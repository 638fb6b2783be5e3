-- ===== src/RbTree/Cursor/Backward.antt =====
-- data/rbtree.c: `rbtree_head`, `rbtree_tail` and `rbtree_prev` as places in the list.
use c_reusables.Prelude.{
  ◌≡◌, refl, ◌∙◌, ap, ◌≢◌, reverse, sym, subst, Option, some, none, List, [], ◌∷◌, ◌++◌,
  append_assoc, append-nil, reverse-append,
}
use c_reusables.RbTree.Tree.{Color, Tree, null, node, left_of, right_of, TreePath, to_list}
use c_reusables.RbTree.Contents.{before, after}
use c_reusables.RbTree.Cursor.{
  Cursor, nowhere, at, current, head, tail, last_in, climb_left, moved, prev, ahead, passed, place,
}
use c_reusables.RbTree.Cursor.Forward.{placed, first, place-head, current-ahead}

module _ {ℓ} {K : Type ℓ} where
  -- One place back in the list; before its first node the answer is none, and the place stays.
  abbrev pub retreat : List K × List K → Option K × (List K × List K)
  retreat ([], ys) = (none, ([], ys))
  retreat (x ∷ xs, ys) = (some x, (xs, x ∷ ys))

  -- A cursor at the last of the nodes `bs`, with `ys` behind it; nowhere if there is none.
  abbrev IsBack : List K → List K → Cursor K → Type ℓ
  IsBack bs ys nowhere = bs ≡ []
  IsBack bs ys (at c l x r path) =
      (bs ≡ passed (at c l x r path) ++ (x ∷ [])) × (ahead (at c l x r path) ≡ x ∷ ys)

  last_in-IsBack :
      (c : Color) (l : Tree K) (k : K) (r : Tree K) (path : TreePath K)
      → IsBack (before path ++ to_list (node c l k r)) (after path) (last_in (node c l k r) path)
  unfolding last_in to_list after before
  last_in-IsBack c l k null path = (sym (append_assoc (before path) (to_list l) (k ∷ [])), refl)
  last_in-IsBack c l k (node d a x b) path =
      subst (λ bs. IsBack bs (after path) (last_in (node d a x b) (right_of c l k ∷ path)))
        (simp append_assoc) (last_in-IsBack d a x b (right_of c l k ∷ path))

  climb_left-IsBack :
      (t : Tree K) (path : TreePath K)
      → IsBack (before path) (to_list t ++ after path) (climb_left t path)
  unfolding climb_left to_list after before
  climb_left-IsBack t [] = refl
  climb_left-IsBack t (left_of c k r ∷ up) =
      subst (λ ys. IsBack (before up) ys (climb_left (node c t k r) up)) (simp append_assoc)
        (climb_left-IsBack (node c t k r) up)
  climb_left-IsBack t (right_of c l k ∷ up) =
      (sym (append_assoc (before up) (to_list l) (k ∷ [])), refl)

  moved-retreat :
      (stay cur : Cursor K)
      → IsBack (passed stay) (ahead stay) cur
      → placed (moved stay cur) ≡ retreat (place stay)
  unfolding moved
  moved-retreat stay nowhere e = rw e
  moved-retreat stay (at c l x r path) (e, h) =
      rw (h, e, reverse-append (before path ++ to_list l) (x ∷ []))

  -- `rbtree_prev` moves the cursor one node back in the order, and returns that node; before the
  -- first node it returns `NULL` and the cursor stays.
  pub prev_refines : (cur : Cursor K) → placed (prev cur) ≡ retreat (place cur)
  unfolding prev to_list after before
  prev_refines nowhere = refl
  prev_refines (at c (node d a x b) k r path) =
      moved-retreat (at c (node d a x b) k r path) _ (last_in-IsBack d a x b (left_of c k r ∷ path))
  prev_refines (at c null k r path) =
      moved-retreat (at c null k r path) (climb_left (node c null k r) path)
        (rw append-nil (climb_left-IsBack (node c null k r) path))

  not_empty : (xs : List K) (k : K) (ys : List K) → xs ++ (k ∷ ys) ≢ []
  not_empty [] k ys e = cc
  not_empty (x ∷ xs) k ys e = cc

  last-retreat :
      (bs : List K) (cur : Cursor K)
      → bs ≢ []
      → IsBack bs [] cur
      → (current cur, place cur) ≡ retreat (reverse bs, [])
  unfolding current
  last-retreat bs nowhere h e = absurd (h e)
  last-retreat bs (at c l x r path) h (e, k) =
      rw (k, e, reverse-append (before path ++ to_list l) (x ∷ [])) refl

  tail-retreat :
      (c : Color) (l : Tree K) (k : K) (r : Tree K)
      → (current (tail (node c l k r)), place (tail (node c l k r)))
        ≡ retreat (reverse (to_list (node c l k r)), [])
  unfolding tail to_list before after
  tail-retreat c l k r =
      last-retreat (to_list (node c l k r)) (last_in (node c l k r) [])
        (not_empty (to_list l) k (to_list r)) (last_in-IsBack c l k r [])

  -- On a tree that is not empty `rbtree_head` returns the first node and puts the cursor before all
  -- nodes; `rbtree_tail` returns the last node and puts the cursor where a step back from behind all
  -- nodes leads.
  pub ends_refine :
      (c : Color) (l : Tree K) (k : K) (r : Tree K)
      → (current (head (node c l k r)) ≡ first (to_list (node c l k r)))
        × (place (head (node c l k r)) ≡ ([], to_list (node c l k r)))
        × ((current (tail (node c l k r)), place (tail (node c l k r)))
            ≡ retreat (reverse (to_list (node c l k r)), []))
  ends_refine c l k r =
      let e = place-head (node c l k r) in
      (current-ahead (head (node c l k r)) ∙ ap (λ p. first p.1) e, e, tail-retreat c l k r)
