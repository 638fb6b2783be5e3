-- ===== src/RbTree/Laws.antt =====
-- data/rbtree.c: insertion, removal and lookup on a red-black tree, against a sorted list.
use Prim.Native.Nat.{Ordering}
use c_reusables.Prelude.{◌≡◌, refl, ap, ◌∙◌, Status, Option, some, List, []}
use c_reusables.RbTree.Tree.{Tree, null, to_list, lookup}
use c_reusables.RbTree.Balance.{IsRbTree, rb_null}
use c_reusables.RbTree.Insert.{insert}
use c_reusables.RbTree.Insert.Balance.{insert-IsRbTree}
use c_reusables.RbTree.Remove.{remove}
use c_reusables.RbTree.Remove.Unlink.{remove-IsRbTree}
use c_reusables.RbTree.Order.{
  IsOrder, IsSorted, IsSearchTree, find, insert_status, insert_sorted, erase,
}
use c_reusables.RbTree.Sorted.{insert_sorted-IsSorted, erase-IsSorted}
use c_reusables.RbTree.Refine.{
  Inserts, Removes, root-IsLocated, lookup-find, insert-Inserts, remove-Removes,
}

-- A red-black search tree, and the sorted list that it stands for.
pub record Represents {ℓ} {K : Type ℓ} (cmp : K → K → Ordering) (xs : List K) (t : Tree K)
    : Type ℓ where
  pub balanced : IsRbTree t
  pub sorted : IsSorted cmp xs
  pub contents : to_list t ≡ xs

module _ {ℓ} {K : Type ℓ} (cmp : K → K → Ordering) (o : IsOrder cmp) where
  pub null-Represents : Represents cmp [] null
  unfolding to_list
  null-Represents = record { balanced = (_, rb_null); sorted = tt; contents = refl }

  module _ (key : K) {t : Tree K} {xs : List K} (rep : Represents cmp xs t) where
    search_tree : IsSearchTree cmp t
    search_tree = rw rep.contents rep.sorted

    -- If the comparator is an order, `rbtree_lookup` finds the node that a search of the sorted list
    -- finds, and `NULL` if none.
    pub lookup_refines : lookup cmp key t ≡ find cmp key xs
    lookup_refines = lookup-find cmp o key t search_tree ∙ ap (find cmp key) rep.contents

    inserted :
        (r : Status × Tree K) → insert cmp key t ≡ some r → Inserts cmp o key (to_list t) (some r)
    inserted r e =
        rw e at (insert-Inserts cmp o key t _ (root-IsLocated cmp o key t search_tree) refl)

    -- If the comparator is an order, then on a red-black search tree `rbtree_insert` follows no `NULL` and ends. The tree is a red-black
    -- search tree again and holds the key once more in its place in the order, unless an equal node
    -- was there: then it returns -1 and the nodes are those from before.
    pub insert_refines :
        (r : Status × Tree K) × (insert cmp key t ≡ some r)
        × Represents cmp (insert_sorted cmp key xs) r.1
        × (r.0 ≡ insert_status (find cmp key xs))
    insert_refines =
        let (r, e, good) = insert-IsRbTree cmp key t rep.balanced in
        let (list, status) = inserted r e in
        (
          r,
          e,
          record {
            balanced = good;
            sorted = insert_sorted-IsSorted cmp o key xs rep.sorted;
            contents = list ∙ ap (insert_sorted cmp key) rep.contents;
          },
          status ∙ ap (λ ys. insert_status (find cmp key ys)) rep.contents,
        )

    removed :
        (r : Option K × Tree K) → remove cmp key t ≡ some r → Removes cmp o key (to_list t) (some r)
    removed r e =
        rw e at (remove-Removes cmp o key t _ (root-IsLocated cmp o key t search_tree) refl)

    -- If the comparator is an order, then on a red-black search tree `rbtree_remove` follows no `NULL` and ends. It returns the node that
    -- compares equal to the key, or `NULL`; the tree is a red-black search tree again and holds the
    -- other nodes, in their order.
    pub remove_refines :
        (r : Option K × Tree K) × (remove cmp key t ≡ some r)
        × Represents cmp (erase cmp key xs) r.1
        × (r.0 ≡ find cmp key xs)
    remove_refines =
        let (r, e, good) = remove-IsRbTree cmp key t rep.balanced in
        let (list, out) = removed r e in
        (
          r,
          e,
          record {
            balanced = good;
            sorted = erase-IsSorted cmp o key xs rep.sorted;
            contents = list ∙ ap (erase cmp key) rep.contents;
          },
          out ∙ ap (find cmp key) rep.contents,
        )
