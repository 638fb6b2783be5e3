-- ===== src/Buffer/Valid.antt =====
-- data/buffer.c: well-formed buffers, and how they get room.
use c_reusables.Prelude.{
  ℕ, ◌+◌, ◌-◌, ◌^◌, ◌≤◌, ◌≡◌, refl, ◌∙◌, ap, Bool, true, false, Bool-cases, inl, inr, Option, none,
  some, List, ltb, ◌==◌, ==_iff, if◌then◌else◌, length, take, replicate, length-append, length-take,
  length-replicate, take-append_le, take-take, Status, ok, failed, ◌>>=◌, arith,
}
use c_reusables.Buffer.{Buffer, resized, realloc, reserve, make_room, good_alloc_size}
use c_reusables.Buffer.Growth.{IsEnough, good_alloc_size-IsEnough, wrap_small}

module _ {ℓ} {B : Type ℓ} where
  -- The block has as many cells as were allocated, and the bytes in use are in it.
  pub record IsValid (b : Buffer B) : Type 0 where
    pub allocated : length b.cells ≡ b.alloc
    pub within : b.size ≤ b.alloc

  -- The bytes in use.
  abbrev pub contents : Buffer B → List (Option B)
  contents b = take b.size b.cells

  -- A buffer with the same bytes and a block of at least `need` cells.
  pub record IsGrown (need : ℕ) (b b' : Buffer B) : Type ℓ where
    pub valid : IsValid b'
    pub same_size : b'.size ≡ b.size
    pub same : contents b' ≡ contents b
    pub room : need ≤ b'.alloc

  unfoldable pub Grown : Bool → ℕ → Buffer B → Status → Buffer B → Type ℓ
  Grown granted need b ok b' = IsGrown need b b'
  Grown granted need b failed b' = (b' ≡ b) × (granted ≡ false)

  length-resized : (n : ℕ) (cells : List (Option B)) → length (resized n cells) ≡ n
  length-resized n cells = omega (
    arith,
    length-append (take n cells) (replicate (n - length cells) none),
    length-take n cells,
    length-replicate {A = Option B} (n - length cells) none,
  )

  take-resized :
      (k n : ℕ) (cells : List (Option B))
      → k ≤ n
      → k ≤ length cells
      → take k (resized n cells) ≡ take k cells
  take-resized k n cells h l =
      take-append_le k (take n cells) (replicate (n - length cells) none)
        (omega (arith, length-take n cells))
      ∙ take-take k n cells h

  -- Reallocation to a size that holds the bytes in use.
  pub realloc-Grown :
      (granted : Bool) (alloc : ℕ) (b : Buffer B)
      → IsValid b
      → b.size ≤ alloc
      → Grown granted alloc b (realloc granted alloc b).0 (realloc granted alloc b).1
  unfolding realloc Grown
  realloc-Grown granted alloc b v h = elim (Bool-cases (alloc == b.alloc)) [
    | inl e ↦
        rw (e, if◌then◌else◌)
          (record {
            valid = v;
            same_size = refl;
            same = refl;
            room = omega (arith, (==_iff alloc b.alloc).0 e);
          })
    | inr other ↦
        rw (other, if◌then◌else◌)
          (elim (Bool-cases (alloc == 0)) [
            | inl z ↦
                rw (z, if◌then◌else◌)
                  (record {
                    valid = record { allocated = refl; within = omega arith };
                    same_size = nothing z;
                    same = ap (λ k. take k b.cells) (nothing z);
                    room = omega (arith, (==_iff alloc 0).0 z);
                  })
            | inr some_room ↦ rw (some_room, if◌then◌else◌) (moved granted)
          ])
  ]
    where
      nothing : (alloc == 0) ≡ true → 0 ≡ b.size
      nothing z = omega (arith, (==_iff alloc 0).0 z)

      kept : ltb alloc b.size ≡ false
      kept = ground arith

      larger : Buffer B
      larger = record {
        cells = resized alloc b.cells;
        size = if ltb alloc b.size then alloc else b.size;
        alloc = alloc;
      }

      result : Bool → Status × Buffer B
      result g = if g then (ok, larger) else (failed, b)

      moved : (g : Bool) → Grown g alloc b (result g).0 (result g).1
      moved false = (refl, refl)
      moved true = record {
        valid = record {
          allocated = length-resized alloc b.cells;
          within = rw (kept, if◌then◌else◌) h;
        };
        same_size = rw (kept, if◌then◌else◌) refl;
        same =
            rw (kept, if◌then◌else◌)
              (take-resized b.size alloc b.cells h (omega (arith, v.allocated, v.within)));
        room = omega arith;
      }

  -- An answer of one of the functions that may allocate.
  pub record GrownAnswer (granted : Bool) (need : ℕ) (b : Buffer B) (o : Option (Status × Buffer B))
      : Type ℓ where
    pub status : Status
    pub after : Buffer B
    pub answers : o ≡ some (status, after)
    pub right : Grown granted need b status after

  Grown-less :
      (granted : Bool) (need less : ℕ) (b : Buffer B) (s : Status) (b' : Buffer B)
      → less ≤ need
      → Grown granted need b s b'
      → Grown granted less b s b'
  unfolding Grown
  Grown-less granted need less b ok b' h g = record {
    valid = g.valid;
    same_size = g.same_size;
    same = g.same;
    room = omega (arith, h, g.room);
  }
  Grown-less granted need less b failed b' h g = g

  -- On a valid buffer, of at most 2 ^ 61 bytes with the `n` more, `buffer_reserve` keeps the bytes,
  -- and on success the block has room for the `n` more; on failure of `realloc` the buffer is as it
  -- was.
  pub reserve_grows :
      (granted : Bool) (n : ℕ) (b : Buffer B)
      → IsValid b
      → b.size + n ≤ 2 ^ 61
      → GrownAnswer granted (b.size + n) b (reserve granted n b)
  unfolding reserve Grown
  reserve_grows granted n b v small =
      rw (wrap_small (b.size + n) (omega arith)) (elim (Bool-cases (ltb (b.size + n) b.alloc)) [
        | inl e ↦
            rw (e, if◌then◌else◌)
              (record {
                status = ok;
                after = b;
                answers = refl;
                right = record {
                  valid = v;
                  same_size = refl;
                  same = refl;
                  room = ground (arith, e);
                };
              })
        | inr e ↦
            rw (e, if◌then◌else◌)
              (chosen (good_alloc_size (b.size + n)) (good_alloc_size-IsEnough (b.size + n) small))
      ])
    where
      chosen :
          (o : Option ℕ)
          → IsEnough 0 (b.size + n) o
          → GrownAnswer granted (b.size + n) b (do alloc ← o; some (realloc granted alloc b))
      chosen none e = absurd (ground (arith, e.found))
      chosen (some g) e =
          let same : g ≡ e.good = ground (arith, e.found) in
          record {
            status = _;
            after = _;
            answers = refl;
            right =
                Grown-less granted g (b.size + n) b _ _ (omega (arith, e.covers))
                  (realloc-Grown granted g b v (omega (arith, e.covers)));
          }

  -- The guard of `buffer_insert_raw` does the same.
  pub make_room_grows :
      (granted : Bool) (n : ℕ) (b : Buffer B)
      → IsValid b
      → b.size + n ≤ 2 ^ 61
      → GrownAnswer granted (b.size + n) b (make_room granted n b)
  unfolding make_room Grown
  make_room_grows granted n b v small =
      rw (wrap_small (b.size + n) (omega arith)) (elim (Bool-cases (ltb b.alloc (b.size + n))) [
        | inl e ↦ rw (e, if◌then◌else◌) (reserve_grows granted n b v small)
        | inr e ↦
            rw (e, if◌then◌else◌)
              (record {
                status = ok;
                after = b;
                answers = refl;
                right = record {
                  valid = v;
                  same_size = refl;
                  same = refl;
                  room = ground (arith, e);
                };
              })
      ])
