-- ===== src/HashTable/Shrink.antt =====
-- data/htable.c: `htable_shrink` merges the largest plane into the one before it.
use c_reusables.Prelude.{
  ℕ, suc, ◌+◌, ◌*◌, ◌%◌, ◌<◌, ◌≡◌, refl, sym, ◌∙◌, ap, List, [], ◌∷◌, ◌++◌, length, get_or, set,
  subst, length-set, All, All-append, All-imp, arith,
}
use native.Mathlib.Nat.{mod-lt, mod-mod_of_dvd, dvd-mul_right, pow-suc}
use Prim.Native.Nat.{◌∣◌}
use c_reusables.HashTable.{Chain, Plane, plane_size, merge, shrink_planes}
use c_reusables.HashTable.Weight.{weigh, weigh_plane, weigh_planes, weigh_plane-set, weigh-append}
use c_reusables.HashTable.Valid.{plane_size_pos, IsPlane, ArePlanes, set-IsPlane}

module _ {ℓ} {K : Type ℓ} where
  pub length-merge : (size i : ℕ) (cs prev : Plane K) → length (merge size i cs prev) ≡ length prev
  unfolding merge
  length-merge size i [] prev = refl
  length-merge size i ([] ∷ cs) prev = length-merge size (i + 1) cs prev
  length-merge size i ((x ∷ c) ∷ cs) prev =
      length-merge size (i + 1) cs (set prev (i % size) ((x ∷ c) ++ get_or prev (i % size) []))
      ∙ length-set prev (i % size) _

  -- The merge keeps every node.
  weigh_plane-merge :
      (w : K → ℕ) (size i : ℕ) (cs prev : Plane K)
      → 0 < size
      → length prev ≡ size
      → weigh_plane w (merge size i cs prev) ≡ weigh_plane w cs + weigh_plane w prev
  unfolding merge weigh_plane weigh
  weigh_plane-merge w size i [] prev pos e = omega arith
  weigh_plane-merge w size i ([] ∷ cs) prev pos e =
      omega (arith, weigh_plane-merge w size (i + 1) cs prev pos e)
  weigh_plane-merge w size i ((x ∷ c) ∷ cs) prev pos e = omega (
    arith,
    weigh_plane-merge w size (i + 1) cs (set prev j joined) pos (rw length-set e),
    weigh_plane-set w prev j joined inside,
    weigh-append w (x ∷ c) (get_or prev j []),
  )
    where
      j : ℕ
      j = i % size

      joined : Chain K
      joined = (x ∷ c) ++ get_or prev j []

      inside : i % size < length prev
      inside = rw e (mod-lt i pos)

-- A place in the larger plane tells the place in the smaller one.
doubled : (m : ℕ) → plane_size m * 2 ≡ plane_size (suc m)
doubled m = omega (arith, pow-suc 2 m)

halves : (m : ℕ) → plane_size m ∣ plane_size (suc m)
halves m = subst (λ t. plane_size m ∣ t) (doubled m) (dvd-mul_right (plane_size m) 2)

narrow : (a m j : ℕ) → a % plane_size (suc m) ≡ j → a % plane_size m ≡ j % plane_size m
narrow a m j e = sym (mod-mod_of_dvd (plane_size m) a (halves m)) ∙ ap (λ t. t % plane_size m) e

module _ {ℓ} {K : Type ℓ} (hash : K → ℕ) (m : ℕ) where
  -- The slots from `i` on of the larger plane.
  IsTail : ℕ → Plane K → Type 0
  IsTail i cs = (k : ℕ) → All (λ x. hash x % plane_size (suc m) ≡ i + k) (get_or cs k [])

  later : (i : ℕ) (c : Chain K) (cs : Plane K) → IsTail i (c ∷ cs) → IsTail (i + 1) cs
  unfolding IsTail
  later i c cs t k =
      All-imp (λ x. hash x % plane_size (suc m) ≡ i + suc k)
        (λ x. hash x % plane_size (suc m) ≡ i + 1 + k) (λ x e. e ∙ omega arith) (get_or cs k [])
        (t (suc k))

  merge-IsPlane :
      (i : ℕ) (cs prev : Plane K)
      → IsTail i cs
      → IsPlane hash m prev
      → IsPlane hash m (merge (plane_size m) i cs prev)
  unfolding merge IsTail
  merge-IsPlane i [] prev t v = v
  merge-IsPlane i ([] ∷ cs) prev t v = merge-IsPlane (i + 1) cs prev (later i [] cs t) v
  merge-IsPlane i ((x ∷ c) ∷ cs) prev t v =
      merge-IsPlane (i + 1) cs (set prev j joined) (later i (x ∷ c) cs t) (
        set-IsPlane hash m j prev joined v (
          All-append (λ y. hash y % plane_size m ≡ j) (x ∷ c) (get_or prev j [])
            (All-imp (λ y. hash y % plane_size (suc m) ≡ i + 0) (λ y. hash y % plane_size m ≡ j)
              (λ y e. narrow (hash y) m i (e ∙ omega arith)) (x ∷ c) (t 0))
            (v.placed j)))
    where
      j : ℕ
      j = i % plane_size m

      joined : Chain K
      joined = (x ∷ c) ++ get_or prev j []

module _ {ℓ} {K : Type ℓ} where
  weigh_zero : (w : K → ℕ) (c : Chain K) → weigh (λ _. 1) c ≡ 0 → weigh w c ≡ 0
  unfolding weigh
  weigh_zero w [] e = refl
  weigh_zero w (x ∷ c) e = absurd (omega (arith, e))

  weigh_plane_zero : (w : K → ℕ) (p : Plane K) → weigh_plane (λ _. 1) p ≡ 0 → weigh_plane w p ≡ 0
  unfolding weigh_plane
  weigh_plane_zero w [] e = refl
  weigh_plane_zero w (c ∷ p) e =
      omega (arith, weigh_zero w c (omega (arith, e)), weigh_plane_zero w p (omega (arith, e)))

  -- Planes that hold no node have no weight.
  pub weigh_planes_zero :
      (w : K → ℕ) (ps : List (Plane K)) → weigh_planes (λ _. 1) ps ≡ 0 → weigh_planes w ps ≡ 0
  unfolding weigh_planes
  weigh_planes_zero w [] e = refl
  weigh_planes_zero w (p ∷ ps) e =
      omega
        (arith, weigh_plane_zero w p (omega (arith, e)), weigh_planes_zero w ps (omega (arith, e)))

module _ {ℓ} {K : Type ℓ} (hash : K → ℕ) where
  pub shrink_planes-ArePlanes :
      (ps : List (Plane K)) → ArePlanes hash ps → ArePlanes hash (shrink_planes ps)
  unfolding shrink_planes IsTail
  shrink_planes-ArePlanes [] v = v
  shrink_planes-ArePlanes (p ∷ []) v = v
  shrink_planes-ArePlanes (p ∷ q ∷ rest) v = (
    merge-IsPlane hash (length rest) 0 p q
        (λ k.
          All-imp (λ x. hash x % plane_size (suc (length rest)) ≡ k)
            (λ x. hash x % plane_size (suc (length rest)) ≡ 0 + k) (λ x e. e ∙ omega arith)
            (get_or p k []) (v.0.placed k))
        v.1.0,
    v.1.1,
  )

  pub weigh_planes-shrink :
      (w : K → ℕ) (ps : List (Plane K))
      → ArePlanes hash ps
      → weigh_planes w (shrink_planes ps) ≡ weigh_planes w ps
  unfolding shrink_planes weigh_planes
  weigh_planes-shrink w [] v = refl
  weigh_planes-shrink w (p ∷ []) v = refl
  weigh_planes-shrink w (p ∷ q ∷ rest) v =
      omega
        (arith, weigh_plane-merge w (plane_size (length rest)) 0 p q (plane_size_pos _) v.1.0.width)
