-- ===== src/RbTree/Cursor/Forward.antt =====
-- data/rbtree.c: `rbtree_head` and `rbtree_next` go through the nodes in order.
use c_reusables.Prelude.{
  ℕ, zero, suc, ◌≤◌, ◌≡◌, refl, ◌∙◌, ap, ap₂, ◌≢◌, Option, some, none, List, [], ◌∷◌, ◌++◌,
  append_assoc, append-nil, reverse, reverse-append, length, arith,
}
use c_reusables.RbTree.Tree.{Color, Tree, null, node, left_of, right_of, TreePath, to_list}
use c_reusables.RbTree.Contents.{before, after}
use c_reusables.RbTree.Cursor.{
  Cursor, nowhere, at, first_in, head, current, climb_right, moved, next, ahead, passed, place,
}

module _ {ℓ} {K : Type ℓ} where
  -- One place further in the list; past its last node the answer is none, and the place stays.
  abbrev pub advance : List K × List K → Option K × (List K × List K)
  advance (xs, []) = (none, (xs, []))
  advance (xs, k ∷ []) = (none, (xs, k ∷ []))
  advance (xs, k ∷ y ∷ ys) = (some y, (k ∷ xs, y ∷ ys))

  abbrev pub placed : Option K × Cursor K → Option K × (List K × List K)
  placed (out, cur) = (out, place cur)

  reverse_snoc :
      (xs ys : List K) (k : K) → reverse (xs ++ (ys ++ (k ∷ []))) ≡ k ∷ reverse (xs ++ ys)
  reverse_snoc xs ys k = rw (← append_assoc) (reverse-append (xs ++ ys) (k ∷ []))

  moved-advance :
      (stay cur : Cursor K) (k : K) (ys : List K)
      → ahead stay ≡ k ∷ ys
      → ahead cur ≡ ys
      → (ys ≢ [] → reverse (passed cur) ≡ k ∷ reverse (passed stay))
      → placed (moved stay cur) ≡ advance (reverse (passed stay), k ∷ ys)
  unfolding moved
  moved-advance stay nowhere k [] here e back = ap (λ t. (none, (reverse (passed stay), t))) here
  moved-advance stay nowhere k (y ∷ ys) here e back = cc
  moved-advance stay (at c l x r path) k [] here e back = cc
  moved-advance stay (at c l x r path) k (y ∷ ys) here e back =
      let back' = back (λ (h : y ∷ ys ≡ []). cc) in cc

  ahead-first_in :
      (c : Color) (l : Tree K) (k : K) (r : Tree K) (path : TreePath K)
      → ahead (first_in (node c l k r) path) ≡ to_list (node c l k r) ++ after path
  unfolding first_in to_list after
  ahead-first_in c null k r path = refl
  ahead-first_in c (node d a x b) k r path =
      ahead-first_in d a x b (left_of c k r ∷ path) ∙ simp append_assoc

  passed-first_in :
      (c : Color) (l : Tree K) (k : K) (r : Tree K) (path : TreePath K)
      → passed (first_in (node c l k r) path) ≡ before path
  unfolding first_in to_list before
  passed-first_in c null k r path = append-nil _
  passed-first_in c (node d a x b) k r path = passed-first_in d a x b (left_of c k r ∷ path)

  ahead-climb_right : (t : Tree K) (path : TreePath K) → ahead (climb_right t path) ≡ after path
  unfolding climb_right after
  ahead-climb_right t [] = refl
  ahead-climb_right t (right_of c l k ∷ up) = ahead-climb_right (node c l k t) up
  ahead-climb_right t (left_of c k r ∷ up) = refl

  passed-climb_right :
      (t : Tree K) (path : TreePath K)
      → after path ≢ []
      → passed (climb_right t path) ≡ before path ++ to_list t
  unfolding climb_right after before to_list
  passed-climb_right t [] more = absurd (more refl)
  passed-climb_right t (right_of c l k ∷ up) more =
      passed-climb_right (node c l k t) up more ∙ simp append_assoc
  passed-climb_right t (left_of c k r ∷ up) more = refl

  -- `rbtree_next` moves the cursor one node further in the order, and returns that node; past the
  -- last node it returns `NULL` and the cursor stays.
  pub next_refines : (cur : Cursor K) → placed (next cur) ≡ advance (place cur)
  unfolding next to_list after before
  next_refines nowhere = refl
  next_refines (at c l k (node d a x b) path) =
      moved-advance (at c l k (node d a x b) path) _ k _ refl
        (ahead-first_in d a x b (right_of c l k ∷ path))
        (λ _.
          ap reverse (passed-first_in d a x b (right_of c l k ∷ path))
          ∙ reverse_snoc (before path) (to_list l) k)
  next_refines (at c l k null path) =
      moved-advance (at c l k null path) (climb_right (node c l k null) path) k _ refl
        (ahead-climb_right (node c l k null) path)
        (λ more.
          ap reverse (passed-climb_right (node c l k null) path more)
          ∙ reverse_snoc (before path) (to_list l) k)

  pub place-head : (t : Tree K) → place (head t) ≡ ([], to_list t)
  unfolding head to_list after before
  place-head null = refl
  place-head (node c l k r) =
      ap₂ (λ p q. (p, q)) (ap reverse (passed-first_in c l k r []))
        (ahead-first_in c l k r [] ∙ append-nil _)

  abbrev pub first : List K → Option K
  first [] = none
  first (k ∷ ks) = some k

  pub current-ahead : (cur : Cursor K) → current cur ≡ first (ahead cur)
  unfolding current
  current-ahead nowhere = refl
  current-ahead (at c l k r path) = refl

  visit : Option K → Option K × Cursor K → (Cursor K → List K) → List K
  visit none r rest = []
  visit (some k) (none, cur) rest = k ∷ []
  visit (some k) (some _, cur) rest = k ∷ rest cur

  -- The caller's loop: the current node, then `rbtree_next` until it returns `NULL`.
  unfoldable pub walk : ℕ → Cursor K → List K
  unfolding visit
  walk zero cur = []
  walk (suc fuel) cur = visit (current cur) (next cur) (walk fuel)

  visit-ahead :
      (k : K) (xs ys : List K) (r : Option K × Cursor K) (rest : Cursor K → List K)
      → placed r ≡ advance (xs, k ∷ ys)
      → ((cur : Cursor K) → ahead cur ≡ ys → rest cur ≡ ys)
      → visit (some k) r rest ≡ k ∷ ys
  unfolding visit
  visit-ahead k xs [] (none, cur) rest e h = refl
  visit-ahead k xs [] (some y, cur) rest e h = cc
  visit-ahead k xs (y ∷ ys) (none, cur) rest e h = cc
  visit-ahead k xs (y ∷ ys) (some z, cur) rest e h = ap (λ zs. k ∷ zs) (h cur (ap (λ r. r.1.1) e))

  -- The loop visits the current node and all after it, in order, if it may run once for each.
  pub walk-ahead :
      (fuel : ℕ) (cur : Cursor K) → length (ahead cur) ≤ fuel → walk fuel cur ≡ ahead cur
  unfolding walk current
  walk-ahead zero nowhere enough = refl
  walk-ahead zero (at c l k r path) enough = absurd (omega arith)
  walk-ahead (suc f) nowhere enough = refl
  walk-ahead (suc f) (at c l k r path) enough =
      visit-ahead k _ _ _ (walk f) (next_refines (at c l k r path))
        (λ cur e. walk-ahead f cur (rw e (omega arith)) ∙ e)

  -- From `rbtree_head` on, repeated `rbtree_next` visits each node of the tree once, in order.
  pub traverse :
      (fuel : ℕ) (t : Tree K) → length (to_list t) ≤ fuel → walk fuel (head t) ≡ to_list t
  traverse fuel t enough =
      let here : ahead (head t) ≡ to_list t = ap (λ p. p.1) (place-head t) in
      walk-ahead fuel (head t) (rw here enough) ∙ here
