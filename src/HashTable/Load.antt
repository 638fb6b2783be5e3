-- ===== src/HashTable/Load.antt =====
-- data/htable.c: the load of a table.
use c_reusables.Prelude.{
  ℕ, zero, suc, ◌+◌, ◌-◌, ◌*◌, ◌/◌, ◌^◌, ◌&&◌, all_below, below_all, refl, leb, ◌%◌, ◌≤◌, ◌<◌, ◌≡◌,
  inl, inr, ltb→lt, Bool, true, false, Bool-cases, ==_iff, ◌==◌, if◌then◌else◌, List, [], ◌∷◌,
  length, get_or, Option, Option-cases, subst, length-set, none, some, Status, ok, arith,
}
use c_reusables.HashTable.Shrink.{length-merge}
use c_reusables.HashTable.Search.{FoundAmong, lookup_internal-FoundAmong}
use c_reusables.HashTable.Held.{IsHash, IsValid}
use c_reusables.HashTable.Laws.{insert_answers}
use native.Mathlib.Nat.{pow-suc, one-le-pow}
use c_reusables.HashTable.{
  Plane, plane_size, slot_count, to_size_t, int_quarter, HashTable, Found, too_full, too_empty,
  grow, place, place_if_ok, insert_absent, insert_internal, remove, shrink, free_all_planes,
  shrink_planes, lookup_internal,
}

-- The slots of so many planes, which are 59, 118, 236 and so on
unfoldable pub slots : ℕ → ℕ
slots zero = 0
slots (suc n) = slots n + 59 * 2 ^ n

slots_closed : (n : ℕ) → slots n + 59 ≡ 59 * 2 ^ n
unfolding slots
slots_closed zero = refl
slots_closed (suc n) = omega (arith, slots_closed n, pow-suc 2 n)

counts_slots : ℕ → Bool
counts_slots n =
    (to_size_t (slot_count n) == slots n) && (to_size_t (int_quarter (slot_count n)) == slots n / 4)

few_planes : all_below 26 counts_slots ≡ true
unfolding all_below counts_slots slots
few_planes = refl

-- Up to 25 planes the `int` of the code is the number of slots.
slot_count-slots :
    (n : ℕ)
    → n ≤ 25
    → (to_size_t (slot_count n) ≡ slots n) × (to_size_t (int_quarter (slot_count n)) ≡ slots n / 4)
unfolding counts_slots
slot_count-slots n few =
    let both = below_all 26 counts_slots n few_planes (omega (arith, few)) in
    ground (
      arith,
      both,
      ==_iff (to_size_t (slot_count n)) (slots n),
      ==_iff (to_size_t (int_quarter (slot_count n))) (slots n / 4),
    )

-- A table holds no more nodes than its planes have slots.
abbrev pub IsRoomy {ℓ} : {K : Type ℓ} → HashTable K → Type 0
IsRoomy h = h.n ≤ slots (length h.planes)

module _ {ℓ} {K : Type ℓ} where
  -- A table that is too empty has room after it is shrunk.
  shrink_planes-quarter :
      (ps : List (Plane K)) (n : ℕ)
      → n ≤ slots (length ps)
      → n < slots (length ps) / 4
      → n ≤ slots (length (shrink_planes ps))
  unfolding shrink_planes
  shrink_planes-quarter [] n b l = b
  shrink_planes-quarter (p ∷ []) n b l = b
  shrink_planes-quarter (p ∷ q ∷ ps) n b l = omega (
    length-merge (plane_size (length ps)) 0 p q,
    arith,
    l,
    slots_closed (length ps),
    slots_closed (suc (length ps)),
    slots_closed (suc (suc (length ps))),
    pow-suc 2 (length ps),
    pow-suc 2 (suc (length ps)),
    one-le-pow (length ps) 2,
  )

  shrink-IsRoomy :
      (h : HashTable K) → length h.planes ≤ 25 → IsRoomy h → too_empty h ≡ true → IsRoomy (shrink h)
  unfolding shrink free_all_planes
  shrink-IsRoomy h few b e = elim (Bool-cases (h.n == 0)) [
    | inl z ↦ rw (z, if◌then◌else◌) (omega (arith, (==_iff h.n 0).0 z))
    | inr z ↦
        rw (z, if◌then◌else◌)
          (shrink_planes-quarter h.planes h.n b
            (subst (λ s. h.n < s) (slot_count-slots (length h.planes) few).1 (ltb→lt _ _ e)))
  ]

  RoomyAfter : Option (Status × HashTable K) → Type 0
  RoomyAfter none = Unit
  RoomyAfter (some (s, h')) = IsRoomy h'

module _ {ℓ} {K : Type ℓ} (hash : K → ℕ) where
  place-RoomyAfter :
      (x : K) (ps : List (Plane K)) (n : ℕ)
      → n < slots (length ps)
      → RoomyAfter (place_if_ok hash x (ok, record { planes = ps; n = n }))
  unfolding place place_if_ok RoomyAfter
  place-RoomyAfter x [] n l = tt
  place-RoomyAfter x (p ∷ ps) n l = omega (
    arith,
    l,
    length-set p (hash x % plane_size (length ps))
        (x ∷ get_or p (hash x % plane_size (length ps)) []),
  )

  grown-RoomyAfter :
      (m : Bool) (x : K) (h : HashTable K)
      → IsRoomy h
      → RoomyAfter (place_if_ok hash x (grow true m h))
  unfolding grow place_if_ok RoomyAfter
  grown-RoomyAfter false x h b = b
  grown-RoomyAfter true x h b = place-RoomyAfter x _ h.n (
      omega (
        arith,
        b,
        slots_closed (length h.planes),
        slots_closed (suc (length h.planes)),
        pow-suc 2 (length h.planes),
        one-le-pow (length h.planes) 2,
      ))

  room : (n s k : ℕ) → s ≡ k → leb s n ≡ false → n < k
  room n s k e f = ground (arith, e, f)

  insert_absent-RoomyAfter :
      (m : Bool) (x : K) (h : HashTable K)
      → length h.planes ≤ 25
      → IsRoomy h
      → RoomyAfter (insert_absent hash true m x h)
  unfolding insert_absent
  insert_absent-RoomyAfter m x h few b = elim (Bool-cases (too_full h)) [
    | inl e ↦ rw (e, if◌then◌else◌) (grown-RoomyAfter m x h b)
    | inr e ↦
        rw (e, if◌then◌else◌)
          (place-RoomyAfter x h.planes h.n
            (room h.n _ _ (slot_count-slots (length h.planes) few).0 e))
  ]

module _ {ℓ} {K : Type ℓ} (same : K → K → Bool) (hash : K → ℕ) where
  insert_internal-RoomyAfter :
      (skip m : Bool) (x : K) (h : HashTable K)
      → length h.planes ≤ 25
      → IsRoomy h
      → RoomyAfter (insert_internal same hash skip true m x h)
  unfolding insert_internal RoomyAfter
  insert_internal-RoomyAfter true m x h few b = insert_absent-RoomyAfter hash m x h few b
  insert_internal-RoomyAfter false m x h few b =
      elim (Option-cases (lookup_internal same (hash x) x h.planes)) [
        | inl e ↦ rw (e, if◌then◌else◌) (insert_absent-RoomyAfter hash m x h few b)
        | inr (f, e) ↦ rw (e, if◌then◌else◌) b
      ]

  -- If equal nodes have equal hashes and the array of planes can be reallocated, an insertion into a
  -- valid table that has at most 25 planes, and no more nodes than these have slots, leaves a table
  -- that has no more nodes than slots.
  pub insert-IsRoomy :
      (skip m : Bool) (x : K) (h : HashTable K)
      → (hashes : IsHash same hash) → (v : IsValid hash h) → length h.planes ≤ 25
      → IsRoomy h
      → IsRoomy (insert_answers same hash skip true m x h hashes v).after
  unfolding RoomyAfter
  insert-IsRoomy skip m x h hashes v few b =
      subst (λ o. RoomyAfter o) (insert_answers same hash skip true m x h hashes v).answers
        (insert_internal-RoomyAfter skip m x h few b)

  -- If equal nodes have equal hashes, a removal from a valid table that has at most 25 planes, and
  -- no more nodes than these have slots, leaves a table that has no more nodes than slots, also when
  -- it merges planes.
  pub remove-IsRoomy :
      (key : K) (h : HashTable K)
      → IsHash same hash
      → IsValid hash h
      → length h.planes ≤ 25
      → IsRoomy h
      → IsRoomy (remove same hash key h).1
  unfolding remove
  remove-IsRoomy key h hashes v few b =
      go (lookup_internal same (hash key) key h.planes)
        (lookup_internal-FoundAmong same key hash (hashes key) h.planes v.in_place)
    where
      taken : Found K → HashTable K
      taken f = record { planes = f.spliced; n = h.n - 1 }

      result : Option (Found K) → Option K × HashTable K
      result o = elim o [
        | none ↦ (none, h)
        | some f ↦ (some f.node, if too_empty (taken f) then shrink (taken f) else taken f)
      ]

      go :
          (o : Option (Found K))
          → FoundAmong same key hash (hashes key) h.planes o
          → IsRoomy (result o).1
      go none f = b
      go (some g) f = elim (Bool-cases (too_empty (taken g))) [
        | inl e ↦
            rw (e, if◌then◌else◌) (shrink-IsRoomy (taken g) (omega (arith, f.as_many, few)) roomy e)
        | inr e ↦ rw (e, if◌then◌else◌) roomy
      ]
        where
          roomy : IsRoomy (taken g)
          roomy = rw f.as_many (omega (arith, b))
