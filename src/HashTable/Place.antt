-- ===== src/HashTable/Place.antt =====
-- data/htable.c: how `htable_insert_internal` grows a table and places a node.
use c_reusables.Prelude.{
  ℕ, ◌+◌, ◌≡◌, ◌≢◌, refl, ◌∙◌, inl, inr, ap, Bool, true, false, Bool-cases, if◌then◌else◌, List, [],
  ◌∷◌, length, replicate, arith, Option, none, some, Status, ok, failed, ◌>>=◌,
}
use mathlib.Core.List.{cons-ne-nil}
use c_reusables.HashTable.{
  Plane, plane_size, HashTable, place_if_ok, too_full, grow, place, insert_absent,
}
use c_reusables.HashTable.Weight.{weigh_planes, weigh_plane-replicate}
use c_reusables.HashTable.Held.{
  held, IsValid, IsPlane-replicate, IsPlaced, Placed, place-Placed, can_grow,
}

module _ {ℓ} {K : Type ℓ} (hash : K → ℕ) where
  -- The answer to placing a node: with it, or unchanged since the table is full and cannot grow.
  unfoldable pub Answer : Bool → Bool → K → HashTable K → Status → HashTable K → Type ℓ
  Answer r m x h ok h' = IsPlaced hash x h h'
  Answer r m x h failed h' = (h' ≡ h) × (too_full h ≡ true) × (can_grow r m h ≡ false)

  pub record Answers (r m : Bool) (x : K) (h : HashTable K) (o : Option (Status × HashTable K))
      : Type ℓ where
    pub status : Status
    pub after : HashTable K
    pub answers : o ≡ some (status, after)
    pub right : Answer r m x h status after

  place_grown :
      (r m : Bool) (x : K) (h g : HashTable K)
      → IsValid hash g
      → g.planes ≢ []
      → ((w : K → ℕ) → held w g ≡ held w h)
      → Answers r m x h (place_if_ok hash x (ok, g))
  unfolding place_if_ok Answer Placed
  place_grown r m x h g v filled same = go (place hash x g) (place-Placed hash x g v)
    where
      go :
          (o : Option (HashTable K))
          → Placed hash x g o
          → Answers r m x h (do h' ← o; some (ok, h'))
      go none p = absurd (filled p)
      go (some h') p = record {
        status = ok;
        after = h';
        answers = refl;
        right = record { valid = p.valid; nodes = λ w. p.nodes w ∙ ap (λ t. t + w x) (same w) };
      }

  grown-IsValid :
      (h : HashTable K)
      → IsValid hash h
      → IsValid hash (record h { planes = replicate (plane_size (length h.planes)) [] ∷ h.planes })
  unfolding weigh_planes
  grown-IsValid h v = record {
    in_place = (IsPlane-replicate hash (length h.planes), v.in_place);
    counted =
        omega
          (arith, v.counted, weigh_plane-replicate {K = K} (λ _. 1) (plane_size (length h.planes)));
  }

  -- Without memory for the array of planes, a table that has planes takes the node in them.
  place_unmoved :
      (m : Bool) (x : K) (ps : List (Plane K)) (n : ℕ)
      → IsValid hash (record { planes = ps; n = n })
      → too_full (record { planes = ps; n = n }) ≡ true
      → Answers false m x
          (record { planes = ps; n = n })
          (place_if_ok hash x (grow false m (record { planes = ps; n = n })))
  unfolding grow Answer place_if_ok
  place_unmoved m x [] n v full = record {
    status = failed;
    after = _;
    answers = refl;
    right = (refl, full, refl);
  }
  place_unmoved m x (p ∷ ps) n v full = place_grown false m x _ _ v (cons-ne-nil _ _) (λ w. refl)

  room_needs_plane :
      (ps : List (Plane K)) (n : ℕ) → too_full (record { planes = ps; n = n }) ≡ false → ps ≢ []
  room_needs_plane [] n room e = ground arith
  room_needs_plane (p ∷ ps) n room e = cons-ne-nil p ps e

  place_full :
      (r m : Bool) (x : K) (h : HashTable K)
      → IsValid hash h
      → too_full h ≡ true
      → Answers r m x h (place_if_ok hash x (grow r m h))
  unfolding grow Answer place_if_ok weigh_planes
  place_full true true x h v full =
      place_grown true true x h _ (grown-IsValid h v) (cons-ne-nil _ _)
        (λ w. omega (arith, weigh_plane-replicate w (plane_size (length h.planes))))
  place_full true false x h v full = record {
    status = failed;
    after = h;
    answers = refl;
    right = (refl, full, refl);
  }
  place_full false m x h v full = place_unmoved m x h.planes h.n v full

  pub insert_absent-Answers :
      (r m : Bool) (x : K) (h : HashTable K)
      → IsValid hash h
      → Answers r m x h (insert_absent hash r m x h)
  unfolding insert_absent
  insert_absent-Answers r m x h v = elim (Bool-cases (too_full h)) [
    | inl full ↦ rw (full, if◌then◌else◌) (place_full r m x h v full)
    | inr room ↦
        rw (room, if◌then◌else◌)
          (place_grown r m x h h v (room_needs_plane h.planes h.n room) (λ w. refl))
  ]
