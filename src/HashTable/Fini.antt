-- ===== src/HashTable/Fini.antt =====
-- data/htable.c: `htable_fini` visits every node once.
use c_reusables.Prelude.{
  ℕ, zero, suc, ◌≡◌, refl, sym, inl, inr, Bool, true, false, Bool-cases, ltb, Option, some, List,
  [], ◌∷◌, ◌++◌, length, if◌then◌else◌, arith,
}
use c_reusables.HashTable.{
  Plane, plane_size, HashTable, visit_slots, visit_planes, fini, free_all_planes,
}
use c_reusables.HashTable.Weight.{weigh, weigh_plane, weigh_planes, weigh-append}
use c_reusables.HashTable.Valid.{ArePlanes}
use c_reusables.HashTable.Shrink.{weigh_planes_zero}
use c_reusables.HashTable.Held.{held, IsValid}

module _ {ℓ} {K : Type ℓ} where
  -- All nodes of a plane, or of all planes, are visited.
  record Visited (o : Option (List K)) (weight : (K → ℕ) → ℕ) : Type ℓ where
    visited : List K
    answers : o ≡ some visited
    nodes : (w : K → ℕ) → weigh w visited ≡ weight w

  visit_slots-Visited :
      (count : ℕ) (p : Plane K)
      → length p ≡ count
      → Visited (visit_slots count p) (λ w. weigh_plane w p)
  unfolding visit_slots weigh_plane weigh
  visit_slots-Visited zero [] e = record { visited = []; answers = refl; nodes = λ w. refl }
  visit_slots-Visited zero (c ∷ p) e = absurd (omega arith)
  visit_slots-Visited (suc count) [] e = absurd (omega arith)
  visit_slots-Visited (suc count) (c ∷ p) e =
      let r = visit_slots-Visited count p (omega arith) in
      record {
        visited = c ++ r.visited;
        answers = rw (r.answers) refl;
        nodes = λ w. omega (arith, weigh-append w c r.visited, r.nodes w);
      }

  visit_planes-Visited :
      (hash : K → ℕ) (ps : List (Plane K))
      → ArePlanes hash ps
      → Visited (visit_planes ps) (λ w. weigh_planes w ps)
  unfolding visit_planes weigh_planes weigh
  visit_planes-Visited hash [] v = record { visited = []; answers = refl; nodes = λ w. refl }
  visit_planes-Visited hash (p ∷ ps) v =
      let r = visit_planes-Visited hash ps v.1 in
      let q = visit_slots-Visited (plane_size (length ps)) p v.0.width in
      record {
        visited = r.visited ++ q.visited;
        answers = rw (r.answers, q.answers) refl;
        nodes = λ w. omega (arith, weigh-append w r.visited q.visited, r.nodes w, q.nodes w);
      }

  -- The destructor, if there is one, is called once on each node of the table.
  abbrev pub CalledOn : Bool → HashTable K → List K → Type ℓ
  CalledOn true h visited = (w : K → ℕ) → weigh w visited ≡ held w h
  CalledOn false h visited = visited ≡ []

  -- On a valid table `htable_fini` reads no slot outside a plane, calls the destructor once on each
  -- node, or on none if there is no destructor, and leaves the empty table.
  pub fini-visits :
      (hash : K → ℕ) (with_dtor : Bool) (h : HashTable K)
      → IsValid hash h
      → (visited : List K) × (fini with_dtor h ≡ some (visited, record { planes = []; n = 0 }))
        × CalledOn with_dtor h visited
  unfolding fini free_all_planes weigh
  fini-visits hash false h v = ([], refl, refl)
  fini-visits hash true h v = elim (Bool-cases (ltb 0 h.n)) [
    | inl some_in ↦
        let r = visit_planes-Visited hash h.planes v.in_place in
        (r.visited, rw (some_in, if◌then◌else◌, r.answers) refl, r.nodes)
    | inr none_in ↦ (
      [],
      rw (none_in, if◌then◌else◌) refl,
      λ w. sym (weigh_planes_zero w h.planes (ground (arith, v.counted))),
    )
  ]
