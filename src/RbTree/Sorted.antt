-- ===== src/RbTree/Sorted.antt =====
-- The abstract container keeps its list strictly increasing.
use Prim.Native.Nat.{Ordering}
use c_reusables.Prelude.{All, All-imp, ◌≡◌, inl, inr, List, [], ◌∷◌}
use c_reusables.RbTree.Walk.{Ordering-cases}
use c_reusables.RbTree.Order.{IsOrder, IsSorted, insert_sorted, erase}

module _ {ℓ} {K : Type ℓ} (cmp : K → K → Ordering) (o : IsOrder cmp) (key : K) where
  All-insert_sorted :
      (P : K → Type 0) (xs : List K) → P key → All P xs → All P (insert_sorted cmp key xs)
  All-insert_sorted P [] p q = (p, tt)
  All-insert_sorted P (x ∷ xs) p q = elim (Ordering-cases (cmp key x)) [
    | inl e ↦ rw (e, insert_sorted) (p, q)
    | inr (inl e) ↦ rw (e, insert_sorted) q
    | inr (inr e) ↦ rw (e, insert_sorted) (q.0, All-insert_sorted P xs p q.1)
  ]

  pub insert_sorted-IsSorted :
      (xs : List K) → IsSorted cmp xs → IsSorted cmp (insert_sorted cmp key xs)
  insert_sorted-IsSorted [] s = (tt, tt)
  insert_sorted-IsSorted (x ∷ xs) s = elim (Ordering-cases (cmp key x)) [
    | inl e ↦
        rw (e, insert_sorted)
          (
            (
              e,
              All-imp (λ y. cmp x y ≡ Ordering.lt) (λ y. cmp key y ≡ Ordering.lt)
                  (λ y h. o.lt_trans key x y e h) xs s.0,
            ),
            s,
          )
    | inr (inl e) ↦ rw (e, insert_sorted) s
    | inr (inr e) ↦
        rw (e, insert_sorted)
          (
            All-insert_sorted (λ y. cmp x y ≡ Ordering.lt) xs (o.lt_of_gt key x e) s.0,
            insert_sorted-IsSorted xs s.1,
          )
  ]

  All-erase : (P : K → Type 0) (xs : List K) → All P xs → All P (erase cmp key xs)
  All-erase P [] q = tt
  All-erase P (x ∷ xs) q = elim (Ordering-cases (cmp key x)) [
    | inl e ↦ rw (e, erase) (q.0, All-erase P xs q.1)
    | inr (inl e) ↦ rw (e, erase) q.1
    | inr (inr e) ↦ rw (e, erase) (q.0, All-erase P xs q.1)
  ]

  pub erase-IsSorted : (xs : List K) → IsSorted cmp xs → IsSorted cmp (erase cmp key xs)
  erase-IsSorted [] s = tt
  erase-IsSorted (x ∷ xs) s = elim (Ordering-cases (cmp key x)) [
    | inl e ↦ rw (e, erase) (All-erase (λ y. cmp x y ≡ Ordering.lt) xs s.0, erase-IsSorted xs s.1)
    | inr (inl e) ↦ rw (e, erase) s.1
    | inr (inr e) ↦
        rw (e, erase) (All-erase (λ y. cmp x y ≡ Ordering.lt) xs s.0, erase-IsSorted xs s.1)
  ]
