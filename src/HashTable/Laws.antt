-- ===== src/HashTable/Laws.antt =====
-- data/htable.c: the operations against the multiset of the nodes that a table holds.
use c_reusables.Prelude.{
  ℕ, ◌+◌, ◌-◌, ◌≤◌, ◌<◌, ◌≡◌, refl, inl, inr, ◌⊎◌, Bool, true, false, Bool-cases, if◌then◌else◌,
  arith, Option, none, some, Status, ok, failed, ◌>>=◌,
}
use c_reusables.HashTable.{
  HashTable, Found, too_full, too_empty, insert_absent, insert_internal, remove, lookup,
  lookup_internal, shrink,
}
use c_reusables.HashTable.Valid.{equal_to}
use c_reusables.HashTable.Search.{FoundAmong, lookup_internal-FoundAmong}
use c_reusables.HashTable.Held.{held, IsHash, IsValid, IsKept, IsPlaced, can_grow, shrink-IsKept}
use c_reusables.HashTable.Place.{Answer, Answers, insert_absent-Answers}

module _ {ℓ} {K : Type ℓ} (same : K → K → Bool) (hash : K → ℕ) where
  -- What an insertion answers: the table with the node, none equal to it being there before, unless
  -- the lookup was skipped; or the table as it was, since an equal node is there, or since the
  -- table is full and cannot grow.
  unfoldable pub Inserted : Bool → Bool → Bool → K → HashTable K → Status → HashTable K → Type ℓ
  Inserted skip r m x h ok h' =
      IsPlaced hash x h h' × ((skip ≡ true) ⊎ (held (equal_to same x) h ≡ 0))
  Inserted skip r m x h failed h' =
      (h' ≡ h)
      × (((skip ≡ false) × (0 < held (equal_to same x) h))
          ⊎ ((too_full h ≡ true) × (can_grow r m h ≡ false)))

  pub record Inserts (skip r m : Bool) (x : K) (h : HashTable K) (o : Option (Status × HashTable K))
      : Type ℓ where
    pub status : Status
    pub after : HashTable K
    pub answers : o ≡ some (status, after)
    pub right : Inserted skip r m x h status after

  equal_weighs : (key x : K) → same key x ≡ true → equal_to same key x ≡ 1
  equal_weighs key x e = rw (e, equal_to) refl

  placed_answer :
      (skip r m : Bool) (x : K) (h : HashTable K)
      → (skip ≡ true) ⊎ (held (equal_to same x) h ≡ 0)
      → {o : Option (Status × HashTable K)} → Answers hash r m x h o
      → Inserts skip r m x h o
  unfolding Answer Inserted
  placed_answer skip r m x h fresh {o} a = record {
    status = a.status;
    after = a.after;
    answers = a.answers;
    right = go a.status a.right;
  }
    where
      go : (s : Status) → Answer hash r m x h s a.after → Inserted skip r m x h s a.after
      go ok p = (p, fresh)
      go failed p = (p.0, inr (p.1, p.2))

  -- If equal nodes have equal hashes, an insertion into a valid table answers, on every branch and
  -- whatever the allocations do, as `Inserted` says.
  pub insert_answers :
      (skip r m : Bool) (x : K) (h : HashTable K)
      → IsHash same hash
      → IsValid hash h
      → Inserts skip r m x h (insert_internal same hash skip r m x h)
  unfolding insert_internal Inserted
  insert_answers true r m x h hashes v =
      placed_answer true r m x h (inl refl) (insert_absent-Answers hash r m x h v)
  insert_answers false r m x h hashes v =
      go (lookup_internal same (hash x) x h.planes)
        (lookup_internal-FoundAmong same x hash (hashes x) h.planes v.in_place)
    where
      go :
          (o : Option (Found K))
          → FoundAmong same x hash (hashes x) h.planes o
          → Inserts false r m x h
              (elim o [ some _ ↦ some (failed, h) | none ↦ insert_absent hash r m x h ])
      go none f =
          placed_answer false r m x h (inr f.weightless) (insert_absent-Answers hash r m x h v)
      go (some g) f = record {
        status = failed;
        after = h;
        answers = refl;
        right = (
          refl,
          inl (refl, omega (arith, f.balance (equal_to same x), equal_weighs x g.node f.equal)),
        );
      }

  pub record Missing (key : K) (h : HashTable K) : Type ℓ where
    pub nowhere : held (equal_to same key) h ≡ 0

  -- What `htable_lookup` answers: null, and no node of the table equals the key; or a node of the
  -- table that does.
  unfoldable pub LooksUp : K → HashTable K → Option K → Type ℓ
  LooksUp key h none = Missing key h
  LooksUp key h (some x) = (same key x ≡ true) × ((w : K → ℕ) → w x ≤ held w h)

  -- If equal nodes have equal hashes, a lookup in a valid table answers as `LooksUp` says.
  pub lookup_answers :
      (key : K) (h : HashTable K)
      → IsHash same hash
      → IsValid hash h
      → LooksUp key h (lookup same hash key h)
  unfolding lookup LooksUp
  lookup_answers key h hashes v =
      go (lookup_internal same (hash key) key h.planes)
        (lookup_internal-FoundAmong same key hash (hashes key) h.planes v.in_place)
    where
      go :
          (o : Option (Found K))
          → FoundAmong same key hash (hashes key) h.planes o
          → LooksUp key h (do f ← o; some f.node)
      go none f = record { nowhere = f.weightless }
      go (some g) f = (f.equal, λ w. omega (arith, f.balance w))

  -- What `htable_remove` answers: null, and the table as it was, which holds no node equal to the
  -- key; or a node that equals the key, and a valid table of all nodes but that one.
  unfoldable pub Removes : K → HashTable K → Option K → HashTable K → Type ℓ
  Removes key h none h' = (h' ≡ h) × (held (equal_to same key) h ≡ 0)
  Removes key h (some x) h' =
      (same key x ≡ true) × IsValid hash h' × ((w : K → ℕ) → held w h ≡ held w h' + w x)

  -- If equal nodes have equal hashes, a removal from a valid table answers as `Removes` says, whether
  -- it shrinks the table or not.
  pub remove_answers :
      (key : K) (h : HashTable K)
      → IsHash same hash
      → IsValid hash h
      → Removes key h (remove same hash key h).0 (remove same hash key h).1
  unfolding remove Removes
  remove_answers key h hashes v =
      go (lookup_internal same (hash key) key h.planes)
        (lookup_internal-FoundAmong same key hash (hashes key) h.planes v.in_place)
    where
      taken : Found K → HashTable K
      taken f = record { planes = f.spliced; n = h.n - 1 }

      result : Option (Found K) → Option K × HashTable K
      result o = elim o [
        | none ↦ (none, h)
        | some f ↦ (some f.node, if too_empty (taken f) then shrink (taken f) else taken f)
      ]

      go :
          (o : Option (Found K))
          → FoundAmong same key hash (hashes key) h.planes o
          → Removes key h (result o).0 (result o).1
      go none f = (refl, f.weightless)
      go (some g) f = settle (shrink-IsKept hash (taken g) valid)
        where
          valid : IsValid hash (taken g)
          valid = record {
            in_place = f.kept;
            counted = omega (arith, v.counted, f.balance (λ _. 1));
          }

          settle :
              IsKept hash (taken g) (shrink (taken g))
              → Removes key h
                  (some g.node)
                  (if too_empty (taken g) then shrink (taken g) else taken g)
          settle k = elim (Bool-cases (too_empty (taken g))) [
            | inl e ↦
                rw (e, if◌then◌else◌)
                  ((f.equal, k.valid, λ w. omega (arith, f.balance w, k.nodes w)))
            | inr e ↦ rw (e, if◌then◌else◌) ((f.equal, valid, f.balance))
          ]
