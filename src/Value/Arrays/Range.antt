-- ===== src/Value/Arrays/Range.antt =====
-- data/value.c: `value_array_remove_range` removes a range, and nothing else.
use c_reusables.Prelude.{
  ℕ, ◌+◌, ◌-◌, ◌*◌, ◌/◌, ◌^◌, ◌≤◌, ◌<◌, ◌≡◌, refl, sym, ◌∙◌, ap, Bool, true, false, Option, none,
  some, List, [], ◌++◌, ltb, leb, ltb→lt, if◌then◌else◌, Bool-cases, inl, inr, length, take, drop,
  length-take, length-append, length-replicate, replicate, take-append_le, take-take, take-drop,
  drop_all, append-nil, Status, ok, failed, ◌>>=◌, arith,
}
use c_reusables.Buffer.{wrap, resized}
use c_reusables.Buffer.Growth.{IsEnough, double_up-IsEnough, wrap_small, wrap_back}
use c_reusables.Buffer.Remove.{closed, memmove-closed, length-closed, take-closed}
use c_reusables.Value.Arrays.{
  ValueArray, value_array_good_alloc_size, value_array_realloc, close_range, shrink_array,
  value_array_remove_range,
}

less_two :
    (requested : ℕ) (o : Option ℕ)
    → IsEnough 2 requested o
    → IsEnough 0 requested (do good ← o; some (wrap (good + (2 ^ 64 - 2))))
less_two requested none e = absurd (ground (arith, e.found))
less_two requested (some g) e =
    let same : g ≡ e.good = ground (arith, e.found) in
    let less = wrap_back g 2 (omega (arith, e.covers)) (omega (arith, e.fits)) (omega arith) in
    record {
      good = wrap (g + (2 ^ 64 - 2));
      found = refl;
      covers = rw less (omega (arith, e.covers));
      fits = rw less (omega (arith, e.fits));
    }

value_array_good_alloc_size-IsEnough :
    (requested : ℕ)
    → requested ≤ 2 ^ 60
    → IsEnough 0 requested (value_array_good_alloc_size requested)
unfolding value_array_good_alloc_size
value_array_good_alloc_size-IsEnough requested bound = elim (Bool-cases (leb requested 16)) [
  | inl small ↦
      rw (small, if◌then◌else◌)
        (double_up-IsEnough 63 0 requested 1 (omega arith) (omega arith) (omega arith)
          (omega arith))
  | inr large ↦
      rw (large, if◌then◌else◌)
        (less_two requested _ (
          double_up-IsEnough 63 2 requested 16 (omega arith) (omega arith) (omega arith)
            (omega arith)))
]

module _ {ℓ} {B : Type ℓ} where
  pub record IsValidArray (a : ValueArray B) : Type ℓ where
    pub allocated : length a.value_buf ≡ a.alloc
    pub within : a.size ≤ a.alloc

  -- The cells of the values.
  abbrev pub values : ValueArray B → List (Option B)
  values a = take a.size a.value_buf

  -- The array after the values of another are held in a block of another size.
  record Kept (a : ValueArray B) (o : Option (ValueArray B)) : Type ℓ where
    after : ValueArray B
    answers : o ≡ some after
    valid : IsValidArray after
    size : after.size ≡ a.size
    same : values after ≡ values a

  unchanged : (a : ValueArray B) → IsValidArray a → Kept a (some a)
  unchanged a v = record { after = a; answers = refl; valid = v; size = refl; same = refl }

  realloc_keeps :
      (granted : Bool) (alloc : ℕ) (a : ValueArray B)
      → IsValidArray a
      → a.size ≤ alloc
      → Kept a (some ((value_array_realloc granted alloc a).1))
  unfolding value_array_realloc
  realloc_keeps false alloc a v h = unchanged a v
  realloc_keeps true alloc a v h =
      let k = length-take alloc a.value_buf in
      record {
        after = record { value_buf = resized alloc a.value_buf; size = a.size; alloc = alloc };
        answers = refl;
        valid = record {
          allocated =
              length-append (take alloc a.value_buf) (replicate (alloc - length a.value_buf) none)
              ∙ omega (arith, k, length-replicate {A = Option B} (alloc - length a.value_buf) none);
          within = h;
        };
        size = refl;
        same =
            take-append_le a.size (take alloc a.value_buf)
              (replicate (alloc - length a.value_buf) none)
              (omega (arith, k, v.allocated, v.within))
            ∙ take-take a.size alloc a.value_buf h;
      }

  shrink_keeps :
      (granted : Bool) (a : ValueArray B)
      → IsValidArray a
      → a.size ≤ 2 ^ 59
      → Kept a (shrink_array granted a)
  unfolding shrink_array
  shrink_keeps granted a v small = elim (Bool-cases (ltb a.size (a.alloc / 4))) [
    | inr e ↦ rw (e, if◌then◌else◌) (unchanged a v)
    | inl e ↦
        rw (e, wrap_small (a.size * 2) (omega arith), if◌then◌else◌)
          (go (value_array_good_alloc_size (a.size * 2))
            (value_array_good_alloc_size-IsEnough (a.size * 2) (omega arith)))
  ]
    where
      go :
          (o : Option ℕ)
          → IsEnough 0 (a.size * 2) o
          → Kept a (do alloc ← o; some ((value_array_realloc granted alloc a).1))
      go none e = absurd (ground (arith, e.found))
      go (some good) e =
          let same : good ≡ e.good = ground (arith, e.found) in
          realloc_keeps granted good a v (omega (arith, e.covers))

  -- The values without those of a range.
  record IsClosed (index count : ℕ) (a : ValueArray B) (o : Option (ValueArray B)) : Type ℓ where
    after : ValueArray B
    answers : o ≡ some after
    valid : IsValidArray after
    size : after.size ≡ a.size - count
    contents : values after ≡ take index (values a) ++ drop (index + count) (values a)

  close_range-IsClosed :
      (index count : ℕ) (a : ValueArray B)
      → IsValidArray a
      → index + count ≤ a.size
      → a.size < 2 ^ 64
      → IsClosed index count a (close_range index count a)
  unfolding close_range
  close_range-IsClosed index count a v h small =
      rw
        (
          wrap_small (index + count) (omega arith),
          wrap_back a.size count (omega arith) small (omega arith),
        )
        (elim (Bool-cases (ltb (index + count) a.size)) [
          | inl e ↦
              let below : index + count < a.size = ltb→lt _ _ e in
              rw
                (
                  e,
                  if◌then◌else◌,
                  memmove-closed a.value_buf index (index + count) a.size (omega arith) h
                      (omega (arith, v.allocated, v.within)),
                )
                (record {
                  after = record {
                    value_buf = closed a.value_buf index (index + count) a.size;
                    size = a.size - count;
                    alloc = a.alloc;
                  };
                  answers = refl;
                  valid = record {
                    allocated =
                        length-closed a.value_buf index (index + count) a.size (omega arith) h
                          (omega (arith, v.allocated, v.within))
                        ∙ v.allocated;
                    within = omega (arith, v.within);
                  };
                  size = refl;
                  contents =
                      ap (λ k. take k (closed a.value_buf index (index + count) a.size))
                        (let q : a.size - count ≡ index + (a.size - (index + count)) =
                            omega arith in
                          q)
                      ∙ take-closed a.value_buf index (index + count) a.size (omega arith) h
                          (omega (arith, v.allocated, v.within));
                })
          | inr e ↦
              let at_end : index + count ≡ a.size = ground (arith, e, h) in
              rw (e, if◌then◌else◌)
                (record {
                  after = record {
                    value_buf = a.value_buf;
                    size = a.size - count;
                    alloc = a.alloc;
                  };
                  answers = refl;
                  valid = record { allocated = v.allocated; within = omega (arith, v.within) };
                  size = refl;
                  contents =
                      ap (λ k. take k a.value_buf)
                        (let q : a.size - count ≡ index = omega (arith, at_end) in q)
                      ∙ sym (take-take index a.size a.value_buf (omega (arith, at_end)))
                      ∙ sym (append-nil (take index (values a)))
                      ∙ ap (λ xs. take index (values a) ++ xs)
                          (sym (
                            drop_all (index + count) (values a)
                              (omega (arith, at_end, length-take a.size a.value_buf))));
                })
        ])

  -- The range is removed, its values are finished, and the others are kept in their order.
  pub record IsRemoved (index count : ℕ) (a : ValueArray B)
      (o : Option (Status × ValueArray B × List (Option B))) : Type ℓ where
    pub after : ValueArray B
    pub answers : o ≡ some (ok, after, take count (drop index (values a)))
    pub valid : IsValidArray after
    pub size : after.size ≡ a.size - count
    pub contents : values after ≡ take index (values a) ++ drop (index + count) (values a)

  shrunk :
      (index count : ℕ) (a : ValueArray B) (removed : List (Option B))
      → removed ≡ take count (drop index (values a))
      → (closed : ValueArray B) → closed.size ≡ a.size - count
      → values closed ≡ take index (values a) ++ drop (index + count) (values a)
      → (o : Option (ValueArray B)) → Kept closed o
      → IsRemoved index count a (do after ← o; some (ok, after, removed))
  shrunk index count a removed r closed size contents o k = rw (k.answers) (record {
    after = k.after;
    answers = ap (λ xs. some (ok, k.after, xs)) r;
    valid = k.valid;
    size = k.size ∙ size;
    contents = k.same ∙ contents;
  })

  closed_and_shrunk :
      (granted : Bool) (index count : ℕ) (a : ValueArray B) (removed : List (Option B))
      → removed ≡ take count (drop index (values a))
      → a.size ≤ 2 ^ 59
      → (o : Option (ValueArray B)) → IsClosed index count a o
      → IsRemoved index count a
          (do closed ← o; after ← shrink_array granted closed; some (ok, after, removed))
  closed_and_shrunk granted index count a removed r small o c = rw (c.answers) (
      shrunk index count a removed r c.after c.size c.contents (shrink_array granted c.after)
        (shrink_keeps granted c.after c.valid (omega (arith, c.size))))

  finished :
      (index count : ℕ) (a : ValueArray B)
      → index + count ≤ a.size
      → take (index + count - index) (drop index a.value_buf) ≡ take count (drop index (values a))
  finished index count a h =
      ap (λ k. take k (drop index a.value_buf))
        (let q : index + count - index ≡ count = omega arith in q)
      ∙ take-drop count index (index + count) a.value_buf refl
      ∙ ap (drop index) (sym (take-take (index + count) a.size a.value_buf h))
      ∙ sym (take-drop count index (index + count) (values a) refl)

  removes_from :
      (granted : Bool) (index count end : ℕ) (a : ValueArray B)
      → IsValidArray a
      → index + count ≤ a.size
      → a.size ≤ 2 ^ 59
      → end ≡ index + count
      → IsRemoved index count a (
          if ltb a.size end then some (failed, a, []) else (do
            closed ← close_range index count a
            after ← shrink_array granted closed
            some (ok, after, take (end - index) (drop index a.value_buf))))
  removes_from granted index count end a v h small e =
      let inside : ltb a.size end ≡ false = ground (arith, h, e) in
      rw (inside, if◌then◌else◌)
        (closed_and_shrunk granted index count a (take (end - index) (drop index a.value_buf))
          (ap (λ k. take (k - index) (drop index a.value_buf)) e ∙ finished index count a h) small
          (close_range index count a) (close_range-IsClosed index count a v h (omega arith)))

  -- Removing a range that lies in a valid array of at most 2 ^ 59 values never leaves its block and
  -- ends: the values of the range, and only they, are finished, in their order, the others are kept in
  -- theirs, also when memory is given back, and the array is valid.
  pub value_array_remove_range_removes :
      (granted : Bool) (index count : ℕ) (a : ValueArray B)
      → IsValidArray a
      → index + count ≤ a.size
      → a.size ≤ 2 ^ 59
      → IsRemoved index count a (value_array_remove_range granted index count a)
  unfolding value_array_remove_range
  value_array_remove_range_removes granted index count a v h small =
      removes_from granted index count (wrap (index + count)) a v h small
        (wrap_small (index + count) (omega arith))
