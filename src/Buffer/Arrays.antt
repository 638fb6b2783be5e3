-- ===== src/Buffer/Arrays.antt =====
-- data/buffer.h: the typed arrays on top of a buffer, for elements of `w` bytes.
--
-- The header has nine copies of each function, for `int8_t` (`w` is 1), `uint8_t` (1), `int16_t` (2),
-- `uint16_t` (2), `int32_t` (4), `uint32_t` (4), `int64_t` (8), `uint64_t` (8) and `void*` (8). An
-- element is the list of its bytes.
use c_reusables.Prelude.{
  ℕ, suc, ◌+◌, ◌*◌, ◌/◌, ◌^◌, ◌≤◌, ◌<◌, ◌≡◌, sym, ◌∙◌, ap, Bool, true, false, Option, none, some,
  List, map, leb, if◌then◌else◌, length, length-take, length-map, overlay, Status, ok, failed,
  ◌>>=◌, arith, piece, piece-take, piece-before, piece_self, piece-after,
}
use native.Mathlib.Nat.{mul-le-mul_right, suc-mul}
use c_reusables.Buffer.{wrap, Buffer, empty, insert, insert_raw, append, remove}
use c_reusables.Buffer.Growth.{wrap_small}
use c_reusables.Buffer.Valid.{IsValid, contents}
use c_reusables.Buffer.Insert.{IsInserted, Inserted, insert_inserts}

module _ {ℓ} {B : Type ℓ} (w : ℕ) where
  -- `array_int8_size` and so on.
  abbrev pub array_size : Buffer B → ℕ
  array_size b = b.size / w

  unfoldable pub array_get : ℕ → Buffer B → Option (List (Option B))
  array_get index b =
      if leb (index * w + w) (length b.cells) then some (piece w (index * w) b.cells) else none

  unfoldable pub array_set : ℕ → List B → Buffer B → Option (Buffer B)
  array_set index x b = do
    cells ← overlay b.cells (index * w) (map some x)
    some (record b { cells = cells })

  -- The pointer that `buffer_insert_raw` returns is written through, if it is not null.
  unfoldable pub array_insert : Bool → ℕ → List B → Buffer B → Option (Status × Buffer B)
  array_insert granted index x b = insert granted (wrap (index * w)) x b

  not_null : Option ℕ × Buffer B → Status × Buffer B
  not_null (none, b) = (failed, b)
  not_null (some _, b) = (ok, b)

  unfoldable pub array_insert_raw : Bool → ℕ → Buffer B → Option (Status × Buffer B)
  unfolding not_null
  array_insert_raw granted index b = do
    r ← insert_raw granted (wrap (index * w)) w b
    some (not_null r)

  unfoldable pub array_append_raw : Bool → Buffer B → Option (Status × Buffer B)
  unfolding not_null
  array_append_raw granted b = do r ← insert_raw granted b.size w b; some (not_null r)

  unfoldable pub array_insert_n_raw : Bool → ℕ → ℕ → Buffer B → Option (Status × Buffer B)
  unfolding not_null
  array_insert_n_raw granted index n b = do
    r ← insert_raw granted (wrap (index * w)) (wrap (n * w)) b
    some (not_null r)

  unfoldable pub array_append : Bool → List B → Buffer B → Option (Status × Buffer B)
  array_append granted x b = append granted x b

  unfoldable pub array_append_n : Bool → ℕ → Buffer B → Option (Status × Buffer B)
  unfolding not_null
  array_append_n granted n b = do r ← insert_raw granted b.size (wrap (n * w)) b; some (not_null r)

  unfoldable pub array_remove : Bool → ℕ → Buffer B → Option (Buffer B)
  array_remove granted index b = remove granted (wrap (index * w)) w b

  unfoldable pub array_remove_n : Bool → ℕ → ℕ → Buffer B → Option (Buffer B)
  array_remove_n granted index n b = remove granted (wrap (index * w)) (wrap (n * w)) b

  unfoldable pub array_acquire : Buffer B → List (Option B) × ℕ × Buffer B
  array_acquire b = (b.cells, b.size / w, empty)

  -- An element within the bytes in use.
  array_get-contents :
      (index : ℕ) (b : Buffer B)
      → IsValid b
      → index * w + w ≤ b.size
      → array_get index b ≡ some (piece w (index * w) (contents b))
  unfolding array_get
  array_get-contents index b v h =
      let inside : leb (index * w + w) (length b.cells) ≡ true =
        ground (arith, v.allocated, v.within) in
      rw (inside, if◌then◌else◌) (ap some (sym (piece-take w (index * w) b.size b.cells h)))

  -- The new element stands at its index; those before it stay, those after it move up by one, and
  -- there are no others.
  pub record IsInsertedAt (index : ℕ) (x : List B) (b b' : Buffer B) : Type ℓ where
    pub longer : b'.size ≡ b.size + w
    pub here : array_get index b' ≡ some (map some x)
    pub before : (j : ℕ) → j < index → array_get j b' ≡ array_get j b
    pub after : (j : ℕ) → index ≤ j → j * w + w ≤ b.size → array_get (suc j) b' ≡ array_get j b

  unfoldable pub InsertedAt : Bool → ℕ → List B → Buffer B → Status → Buffer B → Type ℓ
  InsertedAt granted index x b ok b' = IsInsertedAt index x b b'
  InsertedAt granted index x b failed b' = (b' ≡ b) × (granted ≡ false)

  pub record ArrayAnswer (granted : Bool) (index : ℕ) (x : List B) (b : Buffer B)
      (o : Option (Status × Buffer B)) : Type ℓ where
    pub status : Status
    pub after : Buffer B
    pub answers : o ≡ some (status, after)
    pub right : InsertedAt granted index x b status after

  inserted_at :
      (index : ℕ) (x : List B) (b b' : Buffer B)
      → IsValid b
      → index * w ≤ b.size
      → length x ≡ w
      → IsInserted (index * w) x b b'
      → IsInsertedAt index x b b'
  inserted_at index x b b' v h e i = record {
    longer = omega (arith, i.size, e);
    here =
        array_get-contents index b' i.valid (omega (arith, i.size))
        ∙ ap some (
            ap (piece w (index * w)) i.contents
            ∙ piece_self (index * w) w (contents b) (map some x) wide inside);
    before = λ j l.
        let le : suc j * w ≤ index * w = mul-le-mul_right w (omega arith) in
        let le' : j * w + w ≤ index * w = rw (← suc-mul j w) le in
        array_get-contents j b' i.valid (omega (arith, i.size))
        ∙ ap some (
            ap (piece w (j * w)) i.contents
            ∙ piece-before w (j * w) (index * w) (contents b) (map some x) le' inside)
        ∙ sym (array_get-contents j b v (omega arith));
    after = λ j l k.
        let le : index * w ≤ j * w = mul-le-mul_right w l in
        array_get-contents (suc j) b' i.valid (rw (suc-mul j w) (omega (arith, i.size)))
        ∙ ap some (
            ap (λ off. piece w off (contents b')) (suc-mul j w)
            ∙ ap (piece w (j * w + w)) i.contents
            ∙ piece-after w (j * w) (index * w) w (contents b) (map some x) wide le inside)
        ∙ sym (array_get-contents j b v k);
  }
    where
      wide : length (map (λ (y : B). some y) x) ≡ w
      wide = length-map x (λ y. some y) ∙ e

      inside : index * w ≤ length (contents b)
      inside = omega (arith, length-take b.size b.cells, v.allocated, v.within)

  -- An insertion of an element of `w` bytes, `w` not being 0, into a valid array of at most 2 ^ 61 bytes with the new element, at an index within
  -- it, puts the element there, keeps the others in their order and makes the array longer by `w` bytes, or `realloc` failed and the
  -- array is as it was.
  pub array_insert_inserts :
      (granted : Bool) (index : ℕ) (x : List B) (b : Buffer B)
      → IsValid b
      → index * w ≤ b.size
      → length x ≡ w
      → 0 < w
      → b.size + w ≤ 2 ^ 61
      → ArrayAnswer granted index x b (array_insert granted index x b)
  unfolding array_insert Inserted InsertedAt
  array_insert_inserts granted index x b v h e pos small =
      let a = insert_inserts granted (index * w) x b v h (omega arith) (omega arith) in
      rw (wrap_small (index * w) (omega arith)) (record {
        status = a.status;
        after = a.after;
        answers = a.answers;
        right = go a.status a.after a.right;
      })
    where
      go :
          (s : Status) (b' : Buffer B)
          → Inserted granted (index * w) x b s b'
          → InsertedAt granted index x b s b'
      go ok b' i = inserted_at index x b b' v h e i
      go failed b' i = i
