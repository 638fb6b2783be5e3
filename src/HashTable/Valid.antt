-- ===== src/HashTable/Valid.antt =====
-- data/htable.c: where nodes stand, and what a lookup finds.
use c_reusables.Prelude.{
  ℕ, zero, suc, ◌+◌, ◌%◌, ◌<◌, ◌≡◌, ◌≢◌, refl, inl, inr, Bool, true, false, Bool-cases, ==_iff,
  Option, some, none, List, [], ◌∷◌, length, get_or, set, length-set, get_or-set_self,
  get_or-set_ne, All, ◌>>=◌, arith, ◌==◌, ltb, ltb→lt, set_beyond,
}
use native.Mathlib.Nat.{one-le-pow}
use c_reusables.HashTable.{Chain, Plane, plane_size, find_in}
use c_reusables.HashTable.Weight.{weigh, weigh_plane}

-- 1 for a node that the comparator calls equal to the key.
abbrev pub equal_to {ℓ} : {K : Type ℓ} → (K → K → Bool) → K → K → ℕ
equal_to same key x = elim (same key x) [ true ↦ 1 | false ↦ 0 ]

pub plane_size_pos : (i : ℕ) → 0 < plane_size i
plane_size_pos i = omega (arith, one-le-pow i 2)

module _ {ℓ} {K : Type ℓ} (hash : K → ℕ) where
  -- The plane with this index: its number of slots, and each node in the slot of its hash.
  pub record IsPlane (i : ℕ) (p : Plane K) : Type ℓ where
    pub width : length p ≡ plane_size i
    pub placed : (j : ℕ) → All (λ x. hash x % plane_size i ≡ j) (get_or p j [])

  abbrev pub ArePlanes : List (Plane K) → Type ℓ
  ArePlanes [] = Unit
  ArePlanes (p ∷ ps) = IsPlane (length ps) p × ArePlanes ps

  pub set-IsPlane :
      (i j : ℕ) (p : Plane K) (c : Chain K)
      → IsPlane i p
      → All (λ x. hash x % plane_size i ≡ j) c
      → IsPlane i (set p j c)
  set-IsPlane i j p c v h = record {
    width = rw length-set v.width;
    placed = λ j'. elim (Bool-cases (j == j')) [
      | inl e ↦ same_slot j' ((==_iff j j').0 e)
      | inr e ↦ rw (get_or-set_ne p j j' c [] (ground arith)) (v.placed j')
    ];
  }
    where
      same_slot :
          (j' : ℕ) → j ≡ j' → All (λ x. hash x % plane_size i ≡ j') (get_or (set p j c) j' [])
      same_slot j' e = elim (Bool-cases (ltb j (length p))) [
        | inl inside ↦ rw (← e, get_or-set_self p j c [] (ltb→lt _ _ inside)) h
        | inr outside ↦ rw (← e, set_beyond p j c (ground arith)) (v.placed j)
      ]

module _ {ℓ} {K : Type ℓ} (w : K → ℕ) where
  weigh_plane-zero : (p : Plane K) → ((j : ℕ) → weigh w (get_or p j []) ≡ 0) → weigh_plane w p ≡ 0
  unfolding weigh_plane
  weigh_plane-zero [] h = refl
  weigh_plane-zero (c ∷ p) h = omega (arith, h 0, weigh_plane-zero p (λ j. h (suc j)))

  -- If only one slot has weight, the plane weighs as much as its chain.
  pub weigh_plane_only :
      (p : Plane K) (i : ℕ)
      → ((j : ℕ) → j ≢ i → weigh w (get_or p j []) ≡ 0)
      → weigh_plane w p ≡ weigh w (get_or p i [])
  unfolding weigh_plane weigh
  weigh_plane_only [] i h = refl
  weigh_plane_only (c ∷ p) zero h = omega (arith, weigh_plane-zero p (λ j. h (suc j) (omega arith)))
  weigh_plane_only (c ∷ p) (suc i) h =
      omega (arith, h 0 (omega arith), weigh_plane_only p i (λ j n. h (suc j) (omega (arith, n))))

module _ {ℓ} {K : Type ℓ} (same : K → K → Bool) (key : K) where
  -- What is found is equal to the key, and the rest is what it was.
  pub record IsFound (x : K) (c rest : Chain K) : Type ℓ where
    pub equal : same key x ≡ true
    pub balance : (w : K → ℕ) → weigh w c ≡ weigh w rest + w x
    pub kept : (f : K → ℕ) (j : ℕ) → All (λ y. f y ≡ j) c → All (λ y. f y ≡ j) rest

  pub record IsAbsent (c : Chain K) : Type ℓ where
    pub weightless : weigh (equal_to same key) c ≡ 0

  abbrev pub FoundIn : Chain K → Option (K × Chain K) → Type ℓ
  FoundIn c none = IsAbsent c
  FoundIn c (some (x, rest)) = IsFound x c rest

  pub find_in-FoundIn : (c : Chain K) → FoundIn c (find_in same key c)
  unfolding find_in weigh
  find_in-FoundIn [] = record { weightless = refl }
  find_in-FoundIn (y ∷ c) = elim (Bool-cases (same key y)) [
    | inl here ↦
        rw (here, find_in)
          (record { equal = here; balance = λ w. omega arith; kept = λ f j h. h.1 })
    | inr elsewhere ↦
        rw (elsewhere, find_in) (go elsewhere (find_in same key c) (find_in-FoundIn c))
  ]
    where
      go :
          same key y ≡ false
          → (o : Option (K × Chain K)) → FoundIn c o
          → FoundIn (y ∷ c) (do (z, d) ← o; some (z, y ∷ d))
      go e none h = record { weightless = rw (e, equal_to) (omega (arith, h.weightless)) }
      go e (some (z, d)) h = record {
        equal = h.equal;
        balance = λ w. omega (arith, h.balance w);
        kept = λ f j a. (a.0, h.kept f j a.1);
      }
