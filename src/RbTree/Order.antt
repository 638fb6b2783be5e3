-- ===== src/RbTree/Order.antt =====
-- data/rbtree.h: what the library asks of `RBTREE_CMP_FUNC`, and the sorted list that a tree stands for.
use Prim.Native.Nat.{Ordering}
use c_reusables.Prelude.{
  All, Status, ok, failed, ◌≡◌, refl, Option, some, none, List, [], ◌∷◌, ◌++◌,
}
use c_reusables.RbTree.Tree.{Tree, to_list}

-- The order that the header asks for: the sign of `cmp` flips with its arguments, `eq` is a
-- congruence, and `lt` is transitive. Two nodes that compare `eq` may be different nodes.
pub record IsOrder {ℓ} {K : Type ℓ} (cmp : K → K → Ordering) : Type ℓ where
  pub gt_of_lt : (a b : K) → cmp a b ≡ Ordering.lt → cmp b a ≡ Ordering.gt
  pub lt_of_gt : (a b : K) → cmp a b ≡ Ordering.gt → cmp b a ≡ Ordering.lt
  pub eq_congr : (a b c : K) → cmp a b ≡ Ordering.eq → cmp a c ≡ cmp b c
  pub lt_trans : (a b c : K) → cmp a b ≡ Ordering.lt → cmp b c ≡ Ordering.lt → cmp a c ≡ Ordering.lt

-- 0 if the key was absent, -1 if not.
abbrev pub insert_status {ℓ} : {K : Type ℓ} → Option K → Status
insert_status none = ok
insert_status (some _) = failed

module _ {ℓ} {K : Type ℓ} (cmp : K → K → Ordering) where
  -- Strictly increasing: no two nodes compare equal.
  abbrev pub IsSorted : List K → Type ℓ
  IsSorted [] = Unit
  IsSorted (x ∷ xs) = All (λ y. cmp x y ≡ Ordering.lt) xs × IsSorted xs

  abbrev pub IsSearchTree : Tree K → Type ℓ
  IsSearchTree t = IsSorted (to_list t)

  -- The abstract container: a sorted list, searched from its head.
  abbrev pub find : K → List K → Option K
  find key [] = none
  find key (x ∷ xs) = elim (cmp key x) [ Ordering.eq ↦ some x | _ ↦ find key xs ]

  abbrev pub insert_sorted : K → List K → List K
  insert_sorted k [] = k ∷ []
  insert_sorted k (x ∷ xs) = elim (cmp k x) [
    | Ordering.lt ↦ k ∷ x ∷ xs
    | Ordering.eq ↦ x ∷ xs
    | Ordering.gt ↦ x ∷ insert_sorted k xs
  ]

  abbrev pub erase : K → List K → List K
  erase key [] = []
  erase key (x ∷ xs) = elim (cmp key x) [ Ordering.eq ↦ xs | _ ↦ x ∷ erase key xs ]

  module _ (key : K) where
    abbrev pub Below : List K → Type 0
    Below = All (λ x. cmp key x ≡ Ordering.gt)

    abbrev pub Beyond : List K → Type 0
    Beyond = All (λ x. cmp key x ≡ Ordering.lt)

    pub find-Below : (xs ys : List K) → Below xs → find key (xs ++ ys) ≡ find key ys
    find-Below [] ys b = refl
    find-Below (x ∷ xs) ys b = rw b.0 (find-Below xs ys b.1)

    pub find-Beyond : (xs : List K) → Beyond xs → find key xs ≡ none
    find-Beyond [] b = refl
    find-Beyond (x ∷ xs) b = rw (b.0, find) (find-Beyond xs b.1)

    pub insert_sorted-Below :
        (xs ys : List K) → Below xs → insert_sorted key (xs ++ ys) ≡ xs ++ insert_sorted key ys
    insert_sorted-Below [] ys b = refl
    insert_sorted-Below (x ∷ xs) ys b = rw (b.0, insert_sorted-Below xs ys b.1)

    pub insert_sorted-Beyond : (xs : List K) → Beyond xs → insert_sorted key xs ≡ key ∷ xs
    insert_sorted-Beyond [] b = refl
    insert_sorted-Beyond (x ∷ xs) b = rw (b.0, insert_sorted)

    pub erase-Below : (xs ys : List K) → Below xs → erase key (xs ++ ys) ≡ xs ++ erase key ys
    erase-Below [] ys b = refl
    erase-Below (x ∷ xs) ys b = rw (b.0, erase-Below xs ys b.1)

    pub erase-Beyond : (xs : List K) → Beyond xs → erase key xs ≡ xs
    erase-Beyond [] b = refl
    erase-Beyond (x ∷ xs) b = rw (b.0, erase, erase-Beyond xs b.1)

-- A sorted list, cut at one of its elements.
pub record IsSplit {ℓ} {K : Type ℓ} (cmp : K → K → Ordering) (xs : List K) (k : K) (ys : List K)
    : Type ℓ where
  pub less : All (λ x. cmp x k ≡ Ordering.lt) xs
  pub greater : All (λ y. cmp k y ≡ Ordering.lt) ys
  pub left_sorted : IsSorted cmp xs
  pub right_sorted : IsSorted cmp ys

module _ {ℓ} {K : Type ℓ} (cmp : K → K → Ordering) where
  All-middle :
      (P : K → Type 0) (xs : List K) (k : K) (ys : List K)
      → All P (xs ++ (k ∷ ys))
      → All P xs × P k × All P ys
  All-middle P [] k ys p = (tt, p.0, p.1)
  All-middle P (x ∷ xs) k ys p = let (a, b, c) = All-middle P xs k ys p.1 in ((p.0, a), b, c)

  pub IsSorted-IsSplit :
      (xs : List K) (k : K) (ys : List K) → IsSorted cmp (xs ++ (k ∷ ys)) → IsSplit cmp xs k ys
  IsSorted-IsSplit [] k ys s = record {
    less = tt;
    greater = s.0;
    left_sorted = tt;
    right_sorted = s.1;
  }
  IsSorted-IsSplit (x ∷ xs) k ys s =
      let m = All-middle (λ y. cmp x y ≡ Ordering.lt) xs k ys s.0 in
      let rest = IsSorted-IsSplit xs k ys s.1 in
      record {
        less = (m.1, rest.less);
        greater = rest.greater;
        left_sorted = (m.0, rest.left_sorted);
        right_sorted = rest.right_sorted;
      }
