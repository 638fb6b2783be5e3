-- ===== src/HashTable/Held.antt =====
-- data/htable.c: valid tables, and the multiset of the nodes that a table holds.
use c_reusables.Prelude.{
  ℕ, ◌+◌, ◌%◌, ◌≡◌, refl, sym, ◌∙◌, inl, inr, Bool, true, false, Bool-cases, ==_iff, ◌==◌, List, [],
  ◌∷◌, length, get_or, set, replicate, length-replicate, get_or-replicate, arith, Option, none,
  some,
}
use native.Mathlib.Nat.{mod-lt}
use c_reusables.HashTable.{Chain, Plane, plane_size, HashTable, place, shrink, free_all_planes}
use c_reusables.HashTable.Weight.{weigh, weigh_plane, weigh_planes, weigh_plane-set}
use c_reusables.HashTable.Valid.{plane_size_pos, IsPlane, ArePlanes, set-IsPlane}
use c_reusables.HashTable.Shrink.{weigh_planes_zero, shrink_planes-ArePlanes, weigh_planes-shrink}

-- The multiset of the nodes of a table, by the sum of a weight over them: two tables hold the same
-- nodes if this is the same for every weight.
abbrev pub held {ℓ} : {K : Type ℓ} → (K → ℕ) → HashTable K → ℕ
held w h = weigh_planes w h.planes

-- Equal nodes have equal hashes.
abbrev pub IsHash {ℓ} : {K : Type ℓ} → (K → K → Bool) → (K → ℕ) → Type ℓ
IsHash same hash = (key x : _) → same key x ≡ true → hash x ≡ hash key

module _ {ℓ} {K : Type ℓ} (hash : K → ℕ) where
  -- Every node stands in its slot, and `n` counts the nodes.
  pub record IsValid (h : HashTable K) : Type ℓ where
    pub in_place : ArePlanes hash h.planes
    pub counted : h.n ≡ held (λ _. 1) h

  -- The result of an operation that keeps the nodes.
  pub record IsKept (h h' : HashTable K) : Type ℓ where
    pub valid : IsValid h'
    pub nodes : (w : K → ℕ) → held w h' ≡ held w h

  -- Shrinking a valid table gives a valid table of the same nodes.
  pub shrink-IsKept : (h : HashTable K) → IsValid h → IsKept h (shrink h)
  unfolding shrink free_all_planes weigh_planes
  shrink-IsKept h v = elim (Bool-cases (h.n == 0)) [
    | inl e ↦
        rw (e, shrink)
          (record {
            valid = record { in_place = tt; counted = (==_iff h.n 0).0 e };
            nodes = λ w. sym (weigh_planes_zero w h.planes (sym v.counted ∙ (==_iff h.n 0).0 e));
          })
    | inr e ↦
        rw (e, shrink)
          (record {
            valid = record {
              in_place = shrink_planes-ArePlanes hash h.planes v.in_place;
              counted = v.counted ∙ sym (weigh_planes-shrink hash (λ _. 1) h.planes v.in_place);
            };
            nodes = λ w. weigh_planes-shrink hash w h.planes v.in_place;
          })
  ]

  -- An empty plane of the next size.
  pub IsPlane-replicate : (i : ℕ) → IsPlane hash i (replicate (plane_size i) [])
  IsPlane-replicate i = record {
    width = length-replicate (plane_size i) [];
    placed = λ j. rw (get_or-replicate {A = Chain K} (plane_size i) j []) tt;
  }

  -- Placing a node needs a plane, and adds the node.
  pub record IsPlaced (x : K) (h h' : HashTable K) : Type ℓ where
    pub valid : IsValid h'
    pub nodes : (w : K → ℕ) → held w h' ≡ held w h + w x

  unfoldable pub Placed : K → HashTable K → Option (HashTable K) → Type ℓ
  Placed x h none = h.planes ≡ []
  Placed x h (some h') = IsPlaced x h h'

  place_in :
      (x : K) (ps : List (Plane K)) (n : ℕ)
      → IsValid (record { planes = ps; n = n })
      → Placed x (record { planes = ps; n = n }) (place hash x (record { planes = ps; n = n }))
  unfolding Placed place weigh_planes weigh
  place_in x [] n v = refl
  place_in x (p ∷ ps) n v = record {
    valid = record {
      in_place = (
        set-IsPlane hash (length ps) index p (x ∷ get_or p index []) v.in_place.0
            (refl, v.in_place.0.placed index),
        v.in_place.1,
      );
      counted = omega (arith, v.counted, heavier (λ _. 1));
    };
    nodes = λ w. omega (arith, heavier w);
  }
    where
      index : ℕ
      index = hash x % plane_size (length ps)

      heavier :
          (w : K → ℕ) → weigh_plane w (set p index (x ∷ get_or p index [])) ≡ weigh_plane w p + w x
      heavier w = omega (
        arith,
        weigh_plane-set w p index (x ∷ get_or p index [])
            (rw v.in_place.0.width (mod-lt (hash x) (plane_size_pos (length ps)))),
      )

  pub place-Placed : (x : K) (h : HashTable K) → IsValid h → Placed x h (place hash x h)
  place-Placed x h v = place_in x h.planes h.n v

-- The allocations that `htable_grow` needs succeed.
abbrev pub can_grow {ℓ} : {K : Type ℓ} → Bool → Bool → HashTable K → Bool
can_grow realloc_ok malloc_ok h = elim realloc_ok [
  | true ↦ malloc_ok
  | false ↦ elim h.planes [ [] ↦ false | _ ∷ _ ↦ true ]
]
