-- ===== src/HashTable.antt =====
-- data/htable.c, data/htable.h: the intrusive hash table.
--
-- A node is the structure that embeds it; a chain of nodes is a list, a plane is the list of its
-- slots. `htable->planes` is the list of the planes, the last and largest one first, so the plane in
-- front of `ps` has the index `length ps`, and `n_planes` is the length of the list. The comparator
-- says whether two nodes are equal, the hash function gives a `uint32_t`; both are parameters. What
-- `realloc` and `malloc` answer is an argument of the function that calls them.
pub mod Weight
pub mod Valid
pub mod Search
pub mod Shrink
pub mod Held
pub mod Place
pub mod Laws
pub mod Fini
pub mod Load
pub mod RoundTrip
use c_reusables.Prelude.{
  ℕ, zero, suc, ◌+◌, ◌-◌, ◌*◌, ◌/◌, ◌%◌, ◌^◌, Bool, true, false, Option, none, some, List, [], ◌∷◌,
  ◌++◌, ltb, leb, ◌&&◌, ◌==◌, if◌then◌else◌, length, get_or, set, replicate, Status, ok, failed,
  ◌>>=◌,
}

abbrev pub Chain {ℓ} : Type ℓ → Type ℓ
Chain K = List K

abbrev pub Plane {ℓ} : Type ℓ → Type ℓ
Plane K = List (Chain K)

-- `HTABLE_PLANE_SIZE`, which as an `int` is exact up to the index 25
abbrev pub plane_size : ℕ → ℕ
plane_size i = 59 * 2 ^ i

-- `HTABLE_SLOT_COUNT`, by the number of planes: the 32 bits of an `int`, which wraps around.
abbrev pub slot_count : ℕ → ℕ
slot_count n_planes = plane_size 0 * (2 ^ n_planes - 1) % 2 ^ 32

-- The `int` of these bits, as the `size_t` that `n` is compared with
abbrev pub to_size_t : ℕ → ℕ
to_size_t i = if ltb i (2 ^ 31) then i else i + (2 ^ 64 - 2 ^ 32)

-- The bits of the `int` divided by 4, toward zero
abbrev pub int_quarter : ℕ → ℕ
int_quarter i = if ltb i (2 ^ 31) then i / 4 else (2 ^ 32 - (2 ^ 32 - i) / 4) % 2 ^ 32

pub record HashTable {ℓ} (K : Type ℓ) : Type ℓ where
  pub planes : List (Plane K)
  pub n : ℕ

-- A node that was found, and the planes after `*p_ref = node->next`.
pub record Found {ℓ} (K : Type ℓ) : Type ℓ where
  pub node : K
  pub spliced : List (Plane K)

module _ {ℓ} {K : Type ℓ} where
  -- `HTABLE_TOO_FULL` and `HTABLE_TOO_EMPTY`
  abbrev pub too_full : HashTable K → Bool
  too_full h = leb (to_size_t (slot_count (length h.planes))) h.n

  abbrev pub too_empty : HashTable K → Bool
  too_empty h = ltb h.n (to_size_t (int_quarter (slot_count (length h.planes))))

  -- `htable_grow`: whether the array of planes, and the new plane, could be allocated.
  unfoldable pub grow : Bool → Bool → HashTable K → Status × HashTable K
  grow false _ h = elim h.planes [ [] ↦ (failed, h) | _ ∷ _ ↦ (ok, h) ]
  grow true false h = (failed, h)
  grow true true h =
      (ok, record h { planes = replicate (plane_size (length h.planes)) [] ∷ h.planes })

  -- `htable_free_all_planes`
  unfoldable pub free_all_planes : HashTable K → HashTable K
  free_all_planes h = record h { planes = [] }

  -- The loop of `htable_shrink` from slot `i` of the largest plane on: a chain that is not empty goes
  -- in front of the slot of the previous plane.
  unfoldable pub merge : ℕ → ℕ → Plane K → Plane K → Plane K
  merge size i [] prev = prev
  merge size i ([] ∷ cs) prev = merge size (i + 1) cs prev
  merge size i ((x ∷ c) ∷ cs) prev =
      merge size (i + 1) cs (set prev (i % size) ((x ∷ c) ++ get_or prev (i % size) []))

  unfoldable pub shrink_planes : List (Plane K) → List (Plane K)
  unfolding merge
  shrink_planes (plane ∷ prev ∷ rest) = merge (plane_size (length rest)) 0 plane prev ∷ rest
  shrink_planes planes = planes

  -- `htable_shrink`
  unfoldable pub shrink : HashTable K → HashTable K
  unfolding free_all_planes shrink_planes
  shrink h = if h.n == 0 then free_all_planes h else record h { planes = shrink_planes h.planes }

  -- The nodes that the destructor is called on in the next `count` slots of a plane: each chain is
  -- taken apart from its first node on. Without that many slots C would read behind the plane.
  unfoldable pub visit_slots : ℕ → Plane K → Option (List K)
  visit_slots zero plane = some []
  visit_slots (suc count) [] = none
  visit_slots (suc count) (chain ∷ plane) = do
    visited ← visit_slots count plane
    some (chain ++ visited)

  -- The planes, the smallest first.
  unfoldable pub visit_planes : List (Plane K) → Option (List K)
  unfolding visit_slots
  visit_planes [] = some []
  visit_planes (plane ∷ planes) = do
    visited ← visit_planes planes
    more ← visit_slots (plane_size (length planes)) plane
    some (visited ++ more)

  -- `htable_fini`: the nodes that the destructor, if there is one, is called on, and the table.
  unfoldable pub fini : Bool → HashTable K → Option (List K × HashTable K)
  unfolding visit_planes free_all_planes
  fini with_dtor h = do
    visited ← if with_dtor && ltb 0 h.n then visit_planes h.planes else some []
    some (visited, free_all_planes (record h { n = 0 }))

module _ {ℓ} {K : Type ℓ} (same : K → K → Bool) where
  -- The walk down a chain: the first equal node, and the chain without it.
  unfoldable pub find_in : K → Chain K → Option (K × Chain K)
  find_in key [] = none
  find_in key (x ∷ c) =
      let further = find_in key c in
      if same key x then some (x, c) else (do (y, c') ← further; some (y, x ∷ c'))

  -- `htable_lookup_internal`, from the largest plane down.
  unfoldable pub lookup_internal : ℕ → K → List (Plane K) → Option (Found K)
  lookup_internal code key [] = none
  lookup_internal code key (p ∷ ps) =
      let further = lookup_internal code key ps in
      let index = code % plane_size (length ps) in
      elim (find_in key (get_or p index [])) [
        | some (x, c) ↦ some (record { node = x; spliced = set p index c ∷ ps })
        | none ↦ do f ← further; some (record f { spliced = p ∷ f.spliced })
      ]

module _ {ℓ} {K : Type ℓ} (hash : K → ℕ) where
  -- The node goes in front of its slot in the largest plane; without a plane C would read
  -- `planes[-1]`.
  unfoldable pub place : K → HashTable K → Option (HashTable K)
  place x h = elim h.planes [
    | [] ↦ none
    | p ∷ ps ↦
        let index = hash x % plane_size (length ps) in
        some (record { planes = set p index (x ∷ get_or p index []) ∷ ps; n = h.n + 1 })
  ]

  -- After the lookup: grow if the table is too full, and place the node unless that failed.
  unfoldable pub place_if_ok : K → Status × HashTable K → Option (Status × HashTable K)
  place_if_ok x (failed, h) = some (failed, h)
  place_if_ok x (ok, h) = do h' ← place x h; some (ok, h')

  unfoldable pub insert_absent : Bool → Bool → K → HashTable K → Option (Status × HashTable K)
  unfolding place_if_ok
  insert_absent realloc_ok malloc_ok x h =
      place_if_ok x (if too_full h then grow realloc_ok malloc_ok h else (ok, h))

module _ {ℓ} {K : Type ℓ} (same : K → K → Bool) (hash : K → ℕ) where
  -- `htable_lookup`
  unfoldable pub lookup : K → HashTable K → Option K
  lookup key h = do f ← lookup_internal same (hash key) key h.planes; some f.node

  -- `htable_insert_internal`; `htable_insert` does not skip the lookup, `htable_insert_unsafe` does.
  unfoldable pub insert_internal :
      Bool → Bool → Bool → K → HashTable K → Option (Status × HashTable K)
  insert_internal skip_lookup realloc_ok malloc_ok x h =
      let absent = insert_absent hash realloc_ok malloc_ok x h in
      if skip_lookup then absent else elim (lookup_internal same (hash x) x h.planes) [
        | some _ ↦ some (failed, h)
        | none ↦ absent
      ]

  unfoldable pub insert : Bool → Bool → K → HashTable K → Option (Status × HashTable K)
  insert = insert_internal false

  unfoldable pub insert_unsafe : Bool → Bool → K → HashTable K → Option (Status × HashTable K)
  insert_unsafe = insert_internal true

  -- `htable_remove`
  unfoldable pub remove : K → HashTable K → Option K × HashTable K
  remove key h = elim (lookup_internal same (hash key) key h.planes) [
    | none ↦ (none, h)
    | some f ↦
        let h' : HashTable K = record { planes = f.spliced; n = h.n - 1 } in
        (some f.node, if too_empty h' then shrink h' else h')
  ]
