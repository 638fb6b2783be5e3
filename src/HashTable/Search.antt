-- ===== src/HashTable/Search.antt =====
-- data/htable.c: what `htable_lookup_internal` finds in the planes.
use c_reusables.Prelude.{
  ℕ, suc, ◌+◌, ◌%◌, ◌<◌, ◌≡◌, ◌≢◌, refl, sym, ◌∙◌, inl, inr, ap, Bool, true, Bool-cases, Option,
  some, none, List, [], ◌∷◌, length, get_or, set, All, ◌>>=◌, arith,
}
use native.Mathlib.Nat.{mod-lt}
use c_reusables.HashTable.{Chain, Plane, plane_size, Found, find_in, lookup_internal}
use c_reusables.HashTable.Weight.{weigh, weigh_plane, weigh_planes, weigh_plane-set}
use c_reusables.HashTable.Valid.{
  equal_to, plane_size_pos, IsPlane, ArePlanes, set-IsPlane, weigh_plane_only, FoundIn,
  find_in-FoundIn,
}

module _ {ℓ} {K : Type ℓ} (same : K → K → Bool) (key : K) where
  module _ (hash : K → ℕ) (congr : (x : K) → same key x ≡ true → hash x ≡ hash key) where
    weigh_elsewhere :
        (size j : ℕ) (c : Chain K)
        → All (λ x. hash x % size ≡ j) c
        → j ≢ hash key % size
        → weigh (equal_to same key) c ≡ 0
    unfolding weigh
    weigh_elsewhere size j [] p n = refl
    weigh_elsewhere size j (x ∷ c) p n = elim (Bool-cases (same key x)) [
      | inl e ↦ absurd (n (sym p.0 ∙ ap (λ t. t % size) (congr x e)))
      | inr e ↦ rw (e, equal_to) (omega (arith, weigh_elsewhere size j c p.1 n))
    ]

    -- In a plane, all that equals the key stands in the slot of the key's hash.
    weigh_plane-slot :
        (i : ℕ) (p : Plane K)
        → IsPlane hash i p
        → weigh_plane (equal_to same key) p
          ≡ weigh (equal_to same key) (get_or p (hash key % plane_size i) [])
    weigh_plane-slot i p v =
        weigh_plane_only (equal_to same key) p (hash key % plane_size i)
          (λ j n. weigh_elsewhere (plane_size i) j _ (v.placed j) n)

    -- The same for the planes of a table.
    pub record IsFoundAmong (ps : List (Plane K)) (f : Found K) : Type ℓ where
      pub equal : same key f.node ≡ true
      pub balance : (w : K → ℕ) → weigh_planes w ps ≡ weigh_planes w f.spliced + w f.node
      pub kept : ArePlanes hash f.spliced
      pub as_many : length f.spliced ≡ length ps

    pub record IsAbsentFrom (ps : List (Plane K)) : Type ℓ where
      pub weightless : weigh_planes (equal_to same key) ps ≡ 0

    abbrev pub FoundAmong : List (Plane K) → Option (Found K) → Type ℓ
    FoundAmong ps none = IsAbsentFrom ps
    FoundAmong ps (some f) = IsFoundAmong ps f

    -- A lookup ends at a node that equals the key, and takes that node alone out of the planes if it
    -- is told to; it ends at none only if no plane holds such a node.
    pub lookup_internal-FoundAmong :
        (ps : List (Plane K))
        → ArePlanes hash ps
        → FoundAmong ps (lookup_internal same (hash key) key ps)
    unfolding lookup_internal weigh_planes
    lookup_internal-FoundAmong [] v = record { weightless = refl }
    lookup_internal-FoundAmong (p ∷ ps) v =
        go (find_in same key (get_or p index [])) (find_in-FoundIn same key (get_or p index []))
          (lookup_internal same (hash key) key ps) (lookup_internal-FoundAmong ps v.1)
      where
        index : ℕ
        index = hash key % plane_size (length ps)

        inside : IsPlane hash (length ps) p → index < length p
        inside u = rw u.width (mod-lt (hash key) (plane_size_pos (length ps)))

        go :
            (o : Option (K × Chain K))
            → FoundIn same key (get_or p index []) o
            → (further : Option (Found K)) → FoundAmong ps further
            → FoundAmong (p ∷ ps) (elim o [
              | some (x, c) ↦ some (record { node = x; spliced = set p index c ∷ ps })
              | none ↦ do f ← further; some (record f { spliced = p ∷ f.spliced })
            ])
        go (some (x, c)) h further g = record {
          equal = h.equal;
          balance = λ w. omega (arith, h.balance w, weigh_plane-set w p index c (inside v.0));
          kept = (
            set-IsPlane hash _ index p c v.0
                (h.kept (λ y. hash y % plane_size (length ps)) index (v.0.placed index)),
            v.1,
          );
          as_many = refl;
        }
        go none h none g = record {
          weightless =
              omega (arith, h.weightless, g.weightless, weigh_plane-slot (length ps) p v.0);
        }
        go none h (some f) g = record {
          equal = g.equal;
          balance = λ w. omega (arith, g.balance w);
          kept = (rw g.as_many v.0, g.kept);
          as_many = ap suc g.as_many;
        }
