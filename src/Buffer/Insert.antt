-- ===== src/Buffer/Insert.antt =====
-- data/buffer.c: insertion into a buffer puts the bytes in their place, and stays in the block.
use c_reusables.Prelude.{
  ℕ, ◌+◌, ◌-◌, ◌^◌, ◌≤◌, ◌<◌, ◌≡◌, refl, sym, ◌∙◌, ap, ap₂, Bool, true, false, Bool-cases, inl, inr,
  Option, some, List, ◌++◌, append-nil, map, ltb, leb, ◌==◌, if◌then◌else◌, length, take, drop,
  length-append, length-take, length-drop, length-map, take-append_le, take-append_ge,
  drop-append_ge, take-take, take-drop, take_all, drop_all, overlay, memmove, Status, ok, failed,
  ◌>>=◌, arith,
}
use c_reusables.Buffer.{wrap, Buffer, open_gap, after_room, data_at, insert_raw, write, insert}
use c_reusables.Buffer.Growth.{wrap_small}
use c_reusables.Buffer.Valid.{IsValid, contents, Grown, make_room_grows}

module _ {ℓ} {A : Type ℓ} where
  -- The cells after `memmove` and `memcpy`.
  abbrev gap : List A → (off n size : ℕ) → List A
  gap cells off n size =
      take (off + n) cells
      ++ (take (size - off) (drop off cells) ++ drop (off + n + (size - off)) cells)

  length-moved :
      (cells : List A) (off size : ℕ)
      → off ≤ size
      → size ≤ length cells
      → length (take (size - off) (drop off cells)) ≡ size - off
  length-moved cells off size h l =
      omega (arith, length-take (size - off) (drop off cells), length-drop off cells)

  -- A write keeps the length of the block.
  pub length-overlaid :
      (cells mid : List A) (at n : ℕ)
      → length mid ≡ n
      → at + n ≤ length cells
      → length (take at cells ++ (mid ++ drop (at + n) cells)) ≡ length cells
  length-overlaid cells mid at n e h = omega (
    arith,
    length-append (take at cells) (mid ++ drop (at + n) cells),
    length-append mid (drop (at + n) cells),
    length-take at cells,
    length-drop (at + n) cells,
  )

  length-gap :
      (cells : List A) (off n size : ℕ)
      → off ≤ size
      → size + n ≤ length cells
      → length (gap cells off n size) ≡ length cells
  length-gap cells off n size h l =
      length-overlaid cells (take (size - off) (drop off cells)) (off + n) (size - off)
        (length-moved cells off size h (omega arith)) (omega arith)

  memmove-gap :
      (cells : List A) (off n size : ℕ)
      → off ≤ size
      → size + n ≤ length cells
      → memmove cells (off + n) off (size - off) ≡ some (gap cells off n size)
  unfolding memmove overlay
  memmove-gap cells off n size h l =
      let inside : leb (off + (size - off)) (length cells) ≡ true = ground arith in
      let still : leb (off + n + (size - off)) (length cells) ≡ true = ground arith in
      rw (inside, length-moved cells off size h (omega arith), still, if◌then◌else◌) refl

  -- What stands in the block after the bytes are written into the gap.
  take-written :
      (cells xs : List A) (off size : ℕ)
      → off ≤ size
      → size + length xs ≤ length cells
      → take (size + length xs) (
          take off (gap cells off (length xs) size)
          ++ (xs ++ drop (off + length xs) (gap cells off (length xs) size)))
        ≡ take off (take size cells) ++ (xs ++ drop off (take size cells))
  take-written cells xs off size h l =
      ap₂ (λ a b. take (size + length xs) (a ++ (xs ++ b))) front back
      ∙ take-append_ge (size + length xs) (take off cells) (xs ++ (tail ++ rest))
          (length xs + (size - off)) (omega (arith, length-take off cells))
      ∙ ap₂ (λ a b. a ++ b) (sym (take-take off size cells h))
          (take-append_ge (length xs + (size - off)) xs (tail ++ rest) (size - off) refl
            ∙ ap (λ t. xs ++ t) end)
    where
      tail : List A
      tail = take (size - off) (drop off cells)

      rest : List A
      rest = drop (off + length xs + (size - off)) cells

      front : take off (gap cells off (length xs) size) ≡ take off cells
      front =
          take-append_le off (take (off + length xs) cells) (tail ++ rest)
            (omega (arith, length-take (off + length xs) cells))
          ∙ take-take off (off + length xs) cells (omega arith)

      back : drop (off + length xs) (gap cells off (length xs) size) ≡ tail ++ rest
      back =
          drop-append_ge (off + length xs) (take (off + length xs) cells) (tail ++ rest) 0
            (omega (arith, length-take (off + length xs) cells))

      end : take (size - off) (tail ++ rest) ≡ drop off (take size cells)
      end =
          take-append_le (size - off) tail rest
            (omega (arith, length-moved cells off size h (omega arith)))
          ∙ take_all (size - off) tail (omega (arith, length-moved cells off size h (omega arith)))
          ∙ take-drop (size - off) off size cells (omega arith)

  -- The same at the end, where nothing moves.
  take-appended :
      (cells xs : List A) (size : ℕ)
      → size + length xs ≤ length cells
      → take (size + length xs) (take size cells ++ (xs ++ drop (size + length xs) cells))
        ≡ take size (take size cells) ++ (xs ++ drop size (take size cells))
  take-appended cells xs size l =
      take-append_ge (size + length xs) (take size cells) (xs ++ rest) (length xs)
        (omega (arith, length-take size cells))
      ∙ ap₂ (λ a b. a ++ b) (sym (take-take size size cells (omega arith)))
          (take-append_le (length xs) xs rest (omega arith)
            ∙ take_all (length xs) xs (omega arith)
            ∙ sym (append-nil xs)
            ∙ ap (λ t. xs ++ t)
                (sym (drop_all size (take size cells) (omega (arith, length-take size cells)))))
    where
      rest : List A
      rest = drop (size + length xs) cells

module _ {ℓ} {B : Type ℓ} where
  -- The bytes stand at the offset; those before it and those after it are kept.
  pub record IsInserted (off : ℕ) (xs : List B) (b b' : Buffer B) : Type ℓ where
    pub valid : IsValid b'
    pub size : b'.size ≡ b.size + length xs
    pub contents : contents b' ≡ take off (contents b) ++ (map some xs ++ drop off (contents b))

  -- Success, or a failure of `realloc`, which changes nothing.
  unfoldable pub Inserted : Bool → ℕ → List B → Buffer B → Status → Buffer B → Type ℓ
  Inserted granted off xs b ok b' = IsInserted off xs b b'
  Inserted granted off xs b failed b' = (b' ≡ b) × (granted ≡ false)

  pub record InsertAnswer (granted : Bool) (off : ℕ) (xs : List B) (b : Buffer B)
      (o : Option (Status × Buffer B)) : Type ℓ where
    pub status : Status
    pub after : Buffer B
    pub answers : o ≡ some (status, after)
    pub right : Inserted granted off xs b status after

  pub record Filled (off : ℕ) (xs : List B) (b : Buffer B) (o : Option (Status × Buffer B))
      : Type ℓ where
    pub after : Buffer B
    pub answers : o ≡ some (ok, after)
    pub right : IsInserted off xs b after

  -- In a buffer with room and a gap, the bytes are written.
  filled :
      (off : ℕ) (xs : List B) (b : Buffer B) (cells : List (Option B))
      → IsValid b
      → off ≤ b.size
      → 0 < length xs
      → b.size + length xs ≤ b.alloc
      → b.size + length xs < 2 ^ 64
      → length cells ≡ b.alloc
      → take (b.size + length xs) (take off cells ++ (map some xs ++ drop (off + length xs) cells))
        ≡ take off (contents b) ++ (map some xs ++ drop off (contents b))
      → Filled off xs b (do
        b' ← some (record b { cells = cells; size = wrap (b.size + length xs) })
        r ← some (data_at off b', b')
        write xs r)
  unfolding write overlay
  filled off xs b cells v h pos room small e put =
      let present : (b.alloc == 0) ≡ false = ground arith in
      let inside : leb (off + length xs) (length cells) ≡ true = ground (arith, e) in
      rw
        (
          present,
          if◌then◌else◌,
          length-map xs (λ x. some x),
          inside,
          wrap_small (b.size + length xs) small,
        )
        (record {
          after = _;
          answers = refl;
          right = record {
            valid = record {
              allocated =
                  length-overlaid cells (map (λ x. some x) xs) off (length xs)
                    (length-map xs (λ x. some x)) (omega (arith, e))
                  ∙ e;
              within = room;
            };
            size = refl;
            contents = put;
          };
        })

  -- In a buffer with room, the gap and the bytes.
  fill :
      (off : ℕ) (xs : List B) (b : Buffer B)
      → IsValid b
      → off ≤ b.size
      → 0 < length xs
      → b.size + length xs ≤ b.alloc
      → b.size + length xs < 2 ^ 64
      → Filled off xs b (do r ← after_room off (length xs) (ok, b); write xs r)
  unfolding after_room open_gap
  fill off xs b v h pos room small = elim (Bool-cases (ltb off b.size)) [
    | inl e ↦
        rw
          (
            e,
            if◌then◌else◌,
            memmove-gap b.cells off (length xs) b.size h (omega (arith, v.allocated)),
          )
          (filled off xs b (gap b.cells off (length xs) b.size) v h pos room small
            (length-gap b.cells off (length xs) b.size h (omega (arith, v.allocated)) ∙ v.allocated)
            (rw (length-map xs (λ x. some x)) at
              (take-written b.cells (map (λ x. some x) xs) off b.size h enough)))
    | inr e ↦
        rw (e, if◌then◌else◌)
          (let same : off ≡ b.size = ground arith in
            filled off xs b b.cells v h pos room small v.allocated (at_end same))
  ]
    where
      enough : b.size + length (map (λ x. some x) xs) ≤ length b.cells
      enough = rw (length-map xs (λ x. some x)) (omega (arith, v.allocated))

      at_end :
          off ≡ b.size
          → take
              (b.size + length xs)
              (take off b.cells ++ (map some xs ++ drop (off + length xs) b.cells))
            ≡ take off (contents b) ++ (map some xs ++ drop off (contents b))
      at_end same = rw same (
          rw (length-map xs (λ x. some x)) at
            (take-appended b.cells (map (λ x. some x) xs) b.size enough))

  -- Inserting at least one byte at an offset within a valid buffer, of at most 2 ^ 61 bytes with
  -- them, never leaves the block and ends: the bytes stand at the offset between those before it and
  -- those after it, or `realloc` failed and the buffer is as it was.
  pub insert_inserts :
      (granted : Bool) (off : ℕ) (xs : List B) (b : Buffer B)
      → IsValid b
      → off ≤ b.size
      → 0 < length xs
      → b.size + length xs ≤ 2 ^ 61
      → InsertAnswer granted off xs b (insert granted off xs b)
  unfolding insert insert_raw Grown Inserted after_room write
  insert_inserts granted off xs b v h pos small =
      let room = make_room_grows granted (length xs) b v small in
      rw (room.answers) (then_fill room.status room.after room.right)
    where
      then_fill :
          (s : Status) (g : Buffer B)
          → Grown granted (b.size + length xs) b s g
          → InsertAnswer granted off xs b (do r ← after_room off (length xs) (s, g); write xs r)
      then_fill failed g k = record { status = failed; after = g; answers = refl; right = k }
      then_fill ok g k =
          let f =
            fill off xs g k.valid (omega (arith, k.same_size)) pos
              (omega (arith, k.same_size, k.room)) (omega (arith, k.same_size, small)) in
          record {
            status = ok;
            after = f.after;
            answers = f.answers;
            right = record {
              valid = f.right.valid;
              size = f.right.size ∙ ap (λ t. t + length xs) k.same_size;
              contents =
                  f.right.contents ∙ ap (λ t. take off t ++ (map some xs ++ drop off t)) k.same;
            };
          }
