-- ===== src/HashTable/RoundTrip.antt =====
-- data/htable.c: a lookup after an insertion.
use c_reusables.Prelude.{
  ℕ, ◌%◌, ◌≡◌, refl, inl, inr, if◌then◌else◌, Bool, true, false, Bool-cases, Option, some, none,
  List, [], ◌∷◌, length, get_or, subst, Option-cases, get_or-set_self, Status, ok, failed,
}
use native.Mathlib.Nat.{mod-lt}
use c_reusables.HashTable.{
  Plane, plane_size, HashTable, place_if_ok, grow, too_full, insert_absent, insert_internal,
  find_in, lookup_internal, lookup, place,
}
use c_reusables.HashTable.Valid.{plane_size_pos, ArePlanes}
use c_reusables.HashTable.Held.{IsValid, IsHash, IsPlane-replicate}

module _ {ℓ} {K : Type ℓ} (same : K → K → Bool) (hash : K → ℕ) where
  Finds : K → K → Option (Status × HashTable K) → Type ℓ
  Finds key x none = Unit
  Finds key x (some (failed, h')) = Unit
  Finds key x (some (ok, h')) = lookup same hash key h' ≡ some x

  -- A node in front of the slot of the largest plane is what a lookup meets first.
  place-Finds :
      (key x : K) (ps : List (Plane K)) (n : ℕ)
      → ArePlanes hash ps
      → same key x ≡ true
      → hash x ≡ hash key
      → Finds key x (place_if_ok hash x (ok, record { planes = ps; n = n }))
  unfolding place place_if_ok lookup lookup_internal find_in Finds
  place-Finds key x [] n v e c = tt
  place-Finds key x (p ∷ ps) n v e c =
      rw
        (
          ← c,
          lookup_internal,
          find_in,
          get_or-set_self p (hash x % plane_size (length ps))
              (x ∷ get_or p (hash x % plane_size (length ps)) []) []
              (rw v.0.width (mod-lt (hash x) (plane_size_pos (length ps)))),
          e,
          if◌then◌else◌,
        )
        refl

  grow-Finds :
      (key x : K) (r m : Bool) (h : HashTable K)
      → ArePlanes hash h.planes
      → same key x ≡ true
      → hash x ≡ hash key
      → Finds key x (place_if_ok hash x (grow r m h))
  unfolding grow place_if_ok Finds
  grow-Finds key x false m h v e c = go h.planes h.n v
    where
      go :
          (ps : List (Plane K)) (n : ℕ)
          → ArePlanes hash ps
          → Finds key x (place_if_ok hash x (grow false m (record { planes = ps; n = n })))
      go [] n v' = tt
      go (p ∷ ps) n v' = place-Finds key x (p ∷ ps) n v' e c
  grow-Finds key x true false h v e c = tt
  grow-Finds key x true true h v e c =
      place-Finds key x _ h.n (IsPlane-replicate hash (length h.planes), v) e c

  insert_absent-Finds :
      (key x : K) (r m : Bool) (h : HashTable K)
      → ArePlanes hash h.planes
      → same key x ≡ true
      → hash x ≡ hash key
      → Finds key x (insert_absent hash r m x h)
  unfolding insert_absent
  insert_absent-Finds key x r m h v e c = elim (Bool-cases (too_full h)) [
    | inl full ↦ rw (full, if◌then◌else◌) (grow-Finds key x r m h v e c)
    | inr room ↦ rw (room, if◌then◌else◌) (place-Finds key x h.planes h.n v e c)
  ]

  insert_internal-Finds :
      (skip r m : Bool) (key x : K) (h : HashTable K)
      → ArePlanes hash h.planes
      → same key x ≡ true
      → hash x ≡ hash key
      → Finds key x (insert_internal same hash skip r m x h)
  unfolding insert_internal Finds
  insert_internal-Finds true r m key x h v e c = insert_absent-Finds key x r m h v e c
  insert_internal-Finds false r m key x h v e c =
      elim (Option-cases (lookup_internal same (hash x) x h.planes)) [
        | inl none_there ↦ rw (none_there, if◌then◌else◌) (insert_absent-Finds key x r m h v e c)
        | inr (f, there) ↦ rw (there, if◌then◌else◌) tt
      ]

  -- If equal nodes have equal hashes and an insertion into a valid table succeeds, a lookup of an equal key gives the new node, also
  -- when the insertion skipped its lookup and other equal nodes are there.
  pub lookup-insert :
      (skip r m : Bool) (key x : K) (h : HashTable K)
      → IsHash same hash
      → IsValid hash h
      → same key x ≡ true
      → (h' : HashTable K) → insert_internal same hash skip r m x h ≡ some (ok, h')
      → lookup same hash key h' ≡ some x
  unfolding Finds
  lookup-insert skip r m key x h hashes v e h' done =
      subst (λ o. Finds key x o) done
        (insert_internal-Finds skip r m key x h v.in_place e (hashes key x e))
