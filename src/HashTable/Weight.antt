-- ===== src/HashTable/Weight.antt =====
-- data/htable.c: the nodes that a table holds, as a multiset: by the sum of any weight over them.
use c_reusables.Prelude.{
  ℕ, zero, suc, ◌+◌, ◌<◌, ◌≡◌, refl, List, [], ◌∷◌, ◌++◌, length, get_or, set, replicate, arith,
}
use c_reusables.HashTable.{Chain, Plane}

module _ {ℓ} {K : Type ℓ} (w : K → ℕ) where
  unfoldable pub weigh : Chain K → ℕ
  weigh [] = 0
  weigh (x ∷ c) = w x + weigh c

  unfoldable pub weigh_plane : Plane K → ℕ
  unfolding weigh
  weigh_plane [] = 0
  weigh_plane (c ∷ p) = weigh c + weigh_plane p

  unfoldable pub weigh_planes : List (Plane K) → ℕ
  unfolding weigh_plane
  weigh_planes [] = 0
  weigh_planes (p ∷ ps) = weigh_plane p + weigh_planes ps

  pub weigh-append : (c d : Chain K) → weigh (c ++ d) ≡ weigh c + weigh d
  unfolding weigh
  weigh-append [] d = omega arith
  weigh-append (x ∷ c) d = omega (arith, weigh-append c d)

  -- A write to one slot exchanges the weight of its chain.
  pub weigh_plane-set :
      (p : Plane K) (i : ℕ) (c : Chain K)
      → i < length p
      → weigh_plane (set p i c) + weigh (get_or p i []) ≡ weigh_plane p + weigh c
  unfolding weigh_plane
  weigh_plane-set [] i c h = absurd (omega arith)
  weigh_plane-set (d ∷ p) zero c h = omega arith
  weigh_plane-set (d ∷ p) (suc i) c h = omega (arith, weigh_plane-set p i c (omega arith))

  pub weigh_plane-replicate : (n : ℕ) → weigh_plane (replicate n []) ≡ 0
  unfolding weigh_plane
  weigh_plane-replicate zero = refl
  weigh_plane-replicate (suc n) = omega (arith, weigh_plane-replicate n)
