-- ===== src/RbTree/Refine.antt =====
-- data/rbtree.c: the operations refine those of a sorted list.
use Prim.Native.Nat.{Ordering}
use c_reusables.Prelude.{
  ◌≡◌, refl, sym, ◌∙◌, ap, Status, ok, inl, inr, Option, some, none, List, [], ◌∷◌, ◌++◌,
  append_assoc, append-nil, length, ◌+◌, ◌>>=◌,
}
use c_reusables.RbTree.Tree.{
  red, Tree, null, node, TreePath, to_list, Walk, hit, miss, lookup_path, lookup,
}
use c_reusables.RbTree.Contents.{before, after, whole, Holds}
use c_reusables.RbTree.Walk.{Ordering-cases}
use c_reusables.RbTree.Insert.{insert, insert_fixup}
use c_reusables.RbTree.Insert.Contents.{insert_fixup-Holds}
use c_reusables.RbTree.Remove.{remove, unlink, swap_with_successor}
use c_reusables.RbTree.Remove.Splice.{unlink-Holds, swap-whole}
use c_reusables.RbTree.Order.{
  insert_status, IsOrder, IsSearchTree, find, insert_sorted, erase, find-Below, find-Beyond,
  insert_sorted-Below, insert_sorted-Beyond, erase-Below, erase-Beyond,
}
use c_reusables.RbTree.Search.{IsLocated, located_hit, located_miss, lookup_path-IsLocated}

module _ {ℓ} {K : Type ℓ} (cmp : K → K → Ordering) (o : IsOrder cmp) (key : K) where
  pub root-IsLocated :
      (t : Tree K) → IsSearchTree cmp t → IsLocated cmp key (to_list t) (lookup_path cmp key t [])
  unfolding before after
  root-IsLocated t s = lookup_path-IsLocated cmp key o t [] s tt tt (append-nil _)

  -- The node at which the walk ends, if it ends at one.
  abbrev found : Walk K → Option K
  found (hit c l k r path) = some k
  found (miss path) = none

  lookup-lookup_path :
      (t : Tree K) (path : TreePath K) → lookup cmp key t ≡ found (lookup_path cmp key t path)
  unfolding lookup lookup_path
  lookup-lookup_path null path = refl
  lookup-lookup_path (node c l k r) path = elim (Ordering-cases (cmp key k)) [
    | inl e ↦ rw (e, lookup, lookup_path) (lookup-lookup_path l _)
    | inr (inl e) ↦ rw (e, lookup, lookup_path)
    | inr (inr e) ↦ rw (e, lookup, lookup_path) (lookup-lookup_path r _)
  ]

  regroup :
      (l : Tree K) (k : K) (r : Tree K) (path : TreePath K)
      → (before path ++ to_list l) ++ (k ∷ (to_list r ++ after path))
        ≡ whole (to_list l ++ (k ∷ to_list r)) path
  regroup l k r path = simp append_assoc

  find-found : (xs : List K) (w : Walk K) → IsLocated cmp key xs w → find cmp key xs ≡ found w
  find-found xs (hit c l k r path) (located_hit b e a whole_list) = rw (
    ← whole_list,
    ← regroup l k r path,
    find-Below cmp key _ (k ∷ (to_list r ++ after path)) b,
    find,
    e,
  )
  find-found xs (miss path) (located_miss b a whole_list) =
      rw (← whole_list, find-Below cmp key _ (after path) b) (find-Beyond cmp key _ a)

  -- In a search tree `rbtree_lookup` finds what a search of the sorted list finds.
  pub lookup-find : (t : Tree K) → IsSearchTree cmp t → lookup cmp key t ≡ find cmp key (to_list t)
  lookup-find t s = lookup-lookup_path t [] ∙ sym (find-found _ _ (root-IsLocated t s))

  abbrev pub Inserts : List K → Option (Status × Tree K) → Type ℓ
  Inserts xs none = Unit
  Inserts xs (some (status, t)) =
      (to_list t ≡ insert_sorted cmp key xs) × (status ≡ insert_status (find cmp key xs))

  pub insert-Inserts :
      (t : Tree K) (w : Walk K)
      → IsLocated cmp key (to_list t) w
      → lookup_path cmp key t [] ≡ w
      → Inserts (to_list t) (insert cmp key t)
  unfolding insert to_list before
  insert-Inserts t (hit c l k r path) (located_hit b e a whole_list) walk =
      rw (walk, insert)
        (
          rw (
            ← whole_list,
            ← regroup l k r path,
            insert_sorted-Below cmp key _ (k ∷ (to_list r ++ after path)) b,
            insert_sorted,
            e,
          ),
          rw (find-found (to_list t) (hit c l k r path) (located_hit b e a whole_list)),
        )
  insert-Inserts t (miss path) (located_miss b a whole_list) walk =
      rw (walk, insert)
        (go (insert_fixup (length path + 1) (node red null key null) path)
          (insert_fixup-Holds _ _ _))
    where
      go :
          (m : Option (Tree K))
          → Holds (whole (to_list (node red null key null)) path) m
          → Inserts (to_list t) (m >>= λ t'. some (ok, t'))
      go none h = tt
      go (some t') h = (
        h
            ∙ sym (
                ap (insert_sorted cmp key) (sym whole_list)
                ∙ insert_sorted-Below cmp key _ (after path) b
                ∙ ap (λ ys. before path ++ ys) (insert_sorted-Beyond cmp key _ a)),
        rw (find-found (to_list t) (miss path) (located_miss b a whole_list)),
      )

  abbrev pub Removes : List K → Option (Option K × Tree K) → Type ℓ
  Removes xs none = Unit
  Removes xs (some (out, t)) = (to_list t ≡ erase cmp key xs) × (out ≡ find cmp key xs)

  pub remove-Removes :
      (t : Tree K) (w : Walk K)
      → IsLocated cmp key (to_list t) w
      → lookup_path cmp key t [] ≡ w
      → Removes (to_list t) (remove cmp key t)
  unfolding remove
  remove-Removes t (miss path) (located_miss b a whole_list) walk =
      rw (walk, remove)
        (
          sym (
              ap (erase cmp key) (sym whole_list)
              ∙ erase-Below cmp key _ (after path) b
              ∙ ap (λ ys. before path ++ ys) (erase-Beyond cmp key _ a)
              ∙ whole_list),
          rw (find-found (to_list t) (miss path) (located_miss b a whole_list)),
        )
  remove-Removes t (hit c l k r path) (located_hit b e a whole_list) walk =
      rw (walk, remove)
        (go (unlink (swap_with_successor c l r path))
          (unlink-Holds (swap_with_successor c l r path)))
    where
      erased : erase cmp key (to_list t) ≡ whole (to_list l ++ to_list r) path
      erased =
          rw
            (
              ← whole_list,
              ← regroup l k r path,
              erase-Below cmp key _ (k ∷ (to_list r ++ after path)) b,
              erase,
              e,
            )
            (simp append_assoc)

      go :
          (m : Option (Tree K))
          → Holds
              (whole
                (to_list (swap_with_successor c l r path).child)
                (swap_with_successor c l r path).path)
              m
          → Removes (to_list t) (m >>= λ t'. some (some k, t'))
      go none h = tt
      go (some t') h = (
        h ∙ swap-whole c l r path ∙ sym erased,
        sym (find-found (to_list t) (hit c l k r path) (located_hit b e a whole_list)),
      )
