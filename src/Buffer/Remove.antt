-- ===== src/Buffer/Remove.antt =====
-- data/buffer.c: removal from a buffer takes the bytes out, and may give memory back.
use c_reusables.Prelude.{
  ℕ, ◌+◌, ◌-◌, ◌*◌, ◌/◌, ◌^◌, ◌≤◌, ◌<◌, ◌≡◌, refl, sym, ◌∙◌, ap, ap₂, Bool, true, false, Bool-cases,
  inl, inr, Option, none, some, List, ◌++◌, append-nil, ltb, leb, ◌==◌, ==_iff, if◌then◌else◌,
  length, take, drop, length-take, length-drop, take-append_le, take-append_ge, take-take,
  take-drop, take_all, drop_all, overlay, memmove, Status, ok, failed, ◌>>=◌, arith,
}
use c_reusables.Buffer.{wrap, Buffer, empty, close_gap, give_back, good_alloc_size, realloc, remove}
use c_reusables.Buffer.Growth.{IsEnough, good_alloc_size-IsEnough, wrap_small, wrap_back}
use c_reusables.Buffer.Valid.{IsValid, contents, Grown, realloc-Grown}
use c_reusables.Buffer.Insert.{length-overlaid}

module _ {ℓ} {A : Type ℓ} where
  length-tail :
      (cells : List A) (src size : ℕ)
      → src ≤ size
      → size ≤ length cells
      → length (take (size - src) (drop src cells)) ≡ size - src
  length-tail cells src size h l =
      omega (arith, length-take (size - src) (drop src cells), length-drop src cells)

  pub closed : List A → (off src size : ℕ) → List A
  closed cells off src size =
      take off cells ++ (take (size - src) (drop src cells) ++ drop (off + (size - src)) cells)

  pub memmove-closed :
      (cells : List A) (off src size : ℕ)
      → off ≤ src
      → src ≤ size
      → size ≤ length cells
      → memmove cells off src (size - src) ≡ some (closed cells off src size)
  unfolding memmove overlay closed
  memmove-closed cells off src size h k l =
      let inside : leb (src + (size - src)) (length cells) ≡ true = ground arith in
      let still : leb (off + (size - src)) (length cells) ≡ true = ground arith in
      rw (inside, length-tail cells src size k l, still, if◌then◌else◌) refl

  pub length-closed :
      (cells : List A) (off src size : ℕ)
      → off ≤ src
      → src ≤ size
      → size ≤ length cells
      → length (closed cells off src size) ≡ length cells
  unfolding closed
  length-closed cells off src size h k l =
      length-overlaid cells (take (size - src) (drop src cells)) off (size - src)
        (length-tail cells src size k l) (omega arith)

  pub take-closed :
      (cells : List A) (off src size : ℕ)
      → off ≤ src
      → src ≤ size
      → size ≤ length cells
      → take (off + (size - src)) (closed cells off src size)
        ≡ take off (take size cells) ++ drop src (take size cells)
  unfolding closed
  take-closed cells off src size h k l =
      take-append_ge (off + (size - src)) (take off cells) (tail ++ rest) (size - src)
        (omega (arith, length-take off cells))
      ∙ ap₂ (λ a b. a ++ b) (sym (take-take off size cells (omega arith)))
          (take-append_le (size - src) tail rest (omega (arith, length-tail cells src size k l))
            ∙ take_all (size - src) tail (omega (arith, length-tail cells src size k l))
            ∙ take-drop (size - src) src size cells (omega arith))
    where
      tail : List A
      tail = take (size - src) (drop src cells)

      rest : List A
      rest = drop (off + (size - src)) cells

module _ {ℓ} {B : Type ℓ} where
  -- The bytes from the offset on are gone, up to `n` of them.
  pub record IsRemoved (off n : ℕ) (b b' : Buffer B) : Type ℓ where
    pub valid : IsValid b'
    pub size : b'.size ≡ off + (b.size - (off + n))
    pub contents : contents b' ≡ take off (contents b) ++ drop (off + n) (contents b)

  pub record RemoveAnswer (off n : ℕ) (b : Buffer B) (o : Option (Buffer B)) : Type ℓ where
    pub after : Buffer B
    pub answers : o ≡ some after
    pub right : IsRemoved off n b after

  close_gap_removes :
      (off n : ℕ) (b : Buffer B)
      → IsValid b
      → off ≤ b.size
      → off + n < 2 ^ 64
      → b.size < 2 ^ 64
      → RemoveAnswer off n b (close_gap off n b)
  unfolding close_gap
  close_gap_removes off n b v h small bounded =
      rw (wrap_small (off + n) small) (elim (Bool-cases (ltb (off + n) b.size)) [
        | inl e ↦
            rw
              (
                e,
                if◌then◌else◌,
                memmove-closed b.cells off (off + n) b.size (omega arith) (ground (arith, e))
                    (omega (arith, v.allocated, v.within)),
              )
              (record {
                after = _;
                answers = refl;
                right = record {
                  valid = record {
                    allocated =
                        length-closed b.cells off (off + n) b.size (omega arith) (ground (arith, e))
                          (omega (arith, v.allocated, v.within))
                        ∙ v.allocated;
                    within =
                        rw (lower e)
                          (let l : off + n < b.size = ground arith in omega (arith, v.within));
                  };
                  size = lower e;
                  contents =
                      ap (λ k. take k (closed b.cells off (off + n) b.size)) (lower e)
                      ∙ take-closed b.cells off (off + n) b.size (omega arith) (ground (arith, e))
                          (omega (arith, v.allocated, v.within));
                };
              })
        | inr e ↦
            rw (e, if◌then◌else◌)
              (record {
                after = _;
                answers = refl;
                right = record {
                  valid = record { allocated = v.allocated; within = omega (arith, v.within) };
                  size = higher e;
                  contents = sym (
                      ap₂ (λ x y. x ++ y) (take-take off b.size b.cells h)
                        (drop_all (off + n) (take b.size b.cells) (beyond e))
                      ∙ append-nil (take off b.cells));
                };
              })
      ])
    where
      lower :
          ltb (off + n) b.size ≡ true → wrap (b.size + (2 ^ 64 - n)) ≡ off + (b.size - (off + n))
      lower e =
          let l : off + n < b.size = ground arith in
          wrap_back b.size n (omega arith) bounded (omega arith) ∙ omega arith

      higher : ltb (off + n) b.size ≡ false → off ≡ off + (b.size - (off + n))
      higher e = let l : b.size ≤ off + n = ground arith in omega arith

      beyond : ltb (off + n) b.size ≡ false → length (take b.size b.cells) ≤ off + n
      beyond e =
          let l : b.size ≤ off + n = ground arith in omega (arith, length-take b.size b.cells)

  -- A buffer with the same bytes.
  pub record IsSame (b b' : Buffer B) : Type ℓ where
    pub valid : IsValid b'
    pub same_size : b'.size ≡ b.size
    pub same : contents b' ≡ contents b

  record SameAnswer (b : Buffer B) (o : Option (Buffer B)) : Type ℓ where
    after : Buffer B
    answers : o ≡ some after
    right : IsSame b after

  smaller :
      (granted : Bool) (b : Buffer B) (o : Option ℕ)
      → IsValid b
      → IsEnough 0 (b.size * 2) o
      → SameAnswer b (do
        new_alloc ← o
        some (if ltb new_alloc (b.alloc / 2) then (realloc granted new_alloc b).1 else b))
  unfolding Grown
  smaller granted b none v e = absurd (ground (arith, e.found))
  smaller granted b (some g) v e =
      let same : g ≡ e.good = ground (arith, e.found) in
      elim (Bool-cases (ltb g (b.alloc / 2))) [
        | inl l ↦
            rw (l, if◌then◌else◌)
              (record {
                after = _;
                answers = refl;
                right = from_grown _ _ (realloc-Grown granted g b v (omega (arith, e.covers)));
              })
        | inr l ↦
            rw (l, if◌then◌else◌)
              (record {
                after = b;
                answers = refl;
                right = record { valid = v; same_size = refl; same = refl };
              })
      ]
    where
      from_grown : (s : Status) (b' : Buffer B) → Grown granted g b s b' → IsSame b b'
      from_grown ok b' k = record { valid = k.valid; same_size = k.same_size; same = k.same }
      from_grown failed b' k = rw (k.0) (record { valid = v; same_size = refl; same = refl })

  give_back_keeps :
      (granted : Bool) (b : Buffer B)
      → IsValid b
      → b.size ≤ 2 ^ 60
      → SameAnswer b (give_back granted b)
  unfolding give_back Grown
  give_back_keeps granted b v small = elim (Bool-cases (b.size == 0)) [
    | inl z ↦
        rw (z, if◌then◌else◌)
          (record {
            after = empty;
            answers = refl;
            right = record {
              valid = record { allocated = refl; within = omega arith };
              same_size = sym ((==_iff b.size 0).0 z);
              same = ap (λ k. take k b.cells) (sym ((==_iff b.size 0).0 z));
            };
          })
    | inr used ↦
        rw (used, wrap_small (b.size * 2) (omega arith), if◌then◌else◌)
          (elim (Bool-cases (ltb b.size (b.alloc / 4))) [
            | inl large ↦
                rw (large, if◌then◌else◌)
                  (smaller granted b (good_alloc_size (b.size * 2)) v
                    (good_alloc_size-IsEnough (b.size * 2) (omega arith)))
            | inr fitting ↦
                rw (fitting, if◌then◌else◌)
                  (record {
                    after = b;
                    answers = refl;
                    right = record { valid = v; same_size = refl; same = refl };
                  })
          ])
  ]

  -- Removing from a valid buffer of at most 2 ^ 60 bytes, at an offset within it and with an end below
  -- 2 ^ 64, never leaves the
  -- block and ends, whatever `realloc` answers: the bytes from the offset on, up to `n` of them, are
  -- gone, and the others are kept.
  pub remove_removes :
      (granted : Bool) (off n : ℕ) (b : Buffer B)
      → IsValid b
      → off ≤ b.size
      → b.size ≤ 2 ^ 60
      → off + n < 2 ^ 64
      → RemoveAnswer off n b (remove granted off n b)
  unfolding remove
  remove_removes granted off n b v h small fits =
      let gone = close_gap_removes off n b v h fits (omega arith) in
      let kept =
        give_back_keeps granted gone.after gone.right.valid (omega (arith, gone.right.size)) in
      rw (gone.answers) (record {
        after = kept.after;
        answers = kept.answers;
        right = record {
          valid = kept.right.valid;
          size = kept.right.same_size ∙ gone.right.size;
          contents = kept.right.same ∙ gone.right.contents;
        };
      })
