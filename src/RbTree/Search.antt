-- ===== src/RbTree/Search.antt =====
-- data/rbtree.c: a walk from the root splits the nodes at the key.
use Prim.Native.Nat.{Ordering}
use c_reusables.Prelude.{
  All, All-append, All-imp, ◌≡◌, ◌∙◌, inl, inr, List, ◌∷◌, ◌++◌, append_assoc,
}
use c_reusables.RbTree.Tree.{
  Color, Tree, null, node, left_of, right_of, TreePath, to_list, Walk, hit, miss, lookup_path,
}
use c_reusables.RbTree.Contents.{before, after, whole}
use c_reusables.RbTree.Walk.{Ordering-cases}
use c_reusables.RbTree.Order.{IsOrder, IsSearchTree, Below, Beyond, IsSorted-IsSplit}

module _ {ℓ} {K : Type ℓ} (cmp : K → K → Ordering) (key : K) where
  -- The nodes `xs` split where the walk ended.
  pub data IsLocated (xs : List K) : Walk K → Type ℓ where
    located_hit :
        {c : Color} {l r : Tree K} {k : K} {path : TreePath K}
        → Below cmp key (before path ++ to_list l)
        → cmp key k ≡ Ordering.eq
        → Beyond cmp key (to_list r ++ after path)
        → whole (to_list l ++ (k ∷ to_list r)) path ≡ xs
        → IsLocated xs (hit c l k r path)
    located_miss :
        {path : TreePath K}
        → Below cmp key (before path)
        → Beyond cmp key (after path)
        → before path ++ after path ≡ xs
        → IsLocated xs (miss path)

  module _ (o : IsOrder cmp) where
    less_of_gt :
        (k : K) (xs : List K)
        → cmp key k ≡ Ordering.gt
        → All (λ x. cmp x k ≡ Ordering.lt) xs
        → Below cmp key xs
    less_of_gt k xs e =
        All-imp (λ x. cmp x k ≡ Ordering.lt) (λ x. cmp key x ≡ Ordering.gt)
          (λ x h. o.gt_of_lt x key (o.lt_trans x k key h (o.lt_of_gt key k e))) xs

    less_of_eq :
        (k : K) (xs : List K)
        → cmp key k ≡ Ordering.eq
        → All (λ x. cmp x k ≡ Ordering.lt) xs
        → Below cmp key xs
    less_of_eq k xs e =
        All-imp (λ x. cmp x k ≡ Ordering.lt) (λ x. cmp key x ≡ Ordering.gt)
          (λ x h. o.eq_congr key k x e ∙ o.gt_of_lt x k h) xs

    greater_of_lt :
        (k : K) (ys : List K)
        → cmp key k ≡ Ordering.lt
        → All (λ y. cmp k y ≡ Ordering.lt) ys
        → Beyond cmp key ys
    greater_of_lt k ys e =
        All-imp (λ y. cmp k y ≡ Ordering.lt) (λ y. cmp key y ≡ Ordering.lt)
          (λ y h. o.lt_trans key k y e h) ys

    greater_of_eq :
        (k : K) (ys : List K)
        → cmp key k ≡ Ordering.eq
        → All (λ y. cmp k y ≡ Ordering.lt) ys
        → Beyond cmp key ys
    greater_of_eq k ys e =
        All-imp (λ y. cmp k y ≡ Ordering.lt) (λ y. cmp key y ≡ Ordering.lt)
          (λ y h. o.eq_congr key k y e ∙ h) ys

    pub lookup_path-IsLocated :
        (t : Tree K) (path : TreePath K) {xs : List K}
        → IsSearchTree cmp t
        → Below cmp key (before path)
        → Beyond cmp key (after path)
        → whole (to_list t) path ≡ xs
        → IsLocated xs (lookup_path cmp key t path)
    unfolding lookup_path to_list before after
    lookup_path-IsLocated null path s b a e = located_miss b a e
    lookup_path-IsLocated (node c l k r) path s b a e =
        let split = IsSorted-IsSplit cmp (to_list l) k (to_list r) s in
        elim (Ordering-cases (cmp key k)) [
          | inl lt ↦
              rw (lt, lookup_path)
                (lookup_path-IsLocated l (left_of c k r ∷ path) split.left_sorted b
                  (lt, All-append _ _ _ (greater_of_lt k _ lt split.greater) a)
                  (simp append_assoc at e))
          | inr (inl eq) ↦
              rw (eq, lookup_path)
                (located_hit (All-append _ _ _ b (less_of_eq k _ eq split.less)) eq
                  (All-append _ _ _ (greater_of_eq k _ eq split.greater) a) e)
          | inr (inr gt) ↦
              rw (gt, lookup_path)
                (lookup_path-IsLocated r (right_of c l k ∷ path) split.right_sorted
                  (All-append _ _ _ b (All-append _ _ _ (less_of_gt k _ gt split.less) (gt, tt))) a
                  (simp append_assoc (simp append_assoc at e)))
        ]
