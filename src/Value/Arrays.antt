-- ===== src/Value/Arrays.antt =====
-- data/value.c: the arrays of values.
--
-- The allocated block is the list of its cells, a cell that was never written being `none`. A value
-- in a cell is of any type; finishing it is noted in a list. Whether realloc succeeds is an argument.
-- An access outside the block makes a function return `none`, and so does the loop of
-- `value_array_good_alloc_size` when its fuel ends. `size_t` has 64 bits.
pub mod Range
use c_reusables.Prelude.{
  ℕ, ◌+◌, ◌-◌, ◌*◌, ◌/◌, ◌^◌, Bool, true, false, Option, none, some, List, [], ◌∷◌, ltb, leb,
  if◌then◌else◌, take, drop, get_or, overlay, memmove, Status, ok, failed, ◌>>=◌,
}
use c_reusables.Buffer.{wrap, double_up, resized}

-- `value_array_good_alloc_size`
unfoldable pub value_array_good_alloc_size : ℕ → Option ℕ
unfolding double_up
value_array_good_alloc_size alloc =
    if leb alloc 16
    then double_up 64 0 alloc 1
    else (do good_alloc ← double_up 64 2 alloc 16; some (wrap (good_alloc + (2 ^ 64 - 2))))

-- `ARRAY`
pub record ValueArray {ℓ} (B : Type ℓ) : Type ℓ where
  pub value_buf : List (Option B)
  pub size : ℕ
  pub alloc : ℕ

module _ {ℓ} {B : Type ℓ} where
  -- `value_array_realloc`
  unfoldable pub value_array_realloc : Bool → ℕ → ValueArray B → Status × ValueArray B
  value_array_realloc granted alloc a =
      if granted
      then (ok, record { value_buf = resized alloc a.value_buf; size = a.size; alloc = alloc })
      else (failed, a)

  -- `value_array_get`, of a value that is an array
  unfoldable pub value_array_get : ℕ → ValueArray B → Option B
  value_array_get index a = if ltb index a.size then get_or a.value_buf index none else none

  -- The new value of `value_array_insert`, once there is room.
  unfoldable pub put_new : B → ℕ → Status × ValueArray B → Option (Option ℕ × ValueArray B)
  put_new new index (failed, a) = some (none, a)
  put_new new index (ok, a) = do
    moved ←
        if ltb index a.size
        then memmove a.value_buf (index + 1) index (a.size - index)
        else some a.value_buf
    cells ← overlay moved index (some new ∷ [])
    some (some index, record { value_buf = cells; size = wrap (a.size + 1); alloc = a.alloc })

  -- `value_array_insert`, of a value that is an array: the index of the new value, or null.
  unfoldable pub value_array_insert : B → Bool → ℕ → ValueArray B → Option (Option ℕ × ValueArray B)
  unfolding value_array_realloc put_new value_array_good_alloc_size
  value_array_insert new granted index a =
      if ltb a.size index
      then some (none, a)
      else if leb a.alloc a.size
      then (do
        alloc ← value_array_good_alloc_size (wrap (a.alloc + 1))
        put_new new index (value_array_realloc granted alloc a))
      else put_new new index (ok, a)

  -- `value_array_append`
  unfoldable pub value_array_append : B → Bool → ValueArray B → Option (Option ℕ × ValueArray B)
  unfolding value_array_insert
  value_array_append new granted a = value_array_insert new granted a.size a

  -- The moving of the values behind a range that is removed.
  unfoldable pub close_range : ℕ → ℕ → ValueArray B → Option (ValueArray B)
  close_range index count a = do
    cells ←
        if ltb (wrap (index + count)) a.size
        then memmove a.value_buf index (wrap (index + count)) (a.size - wrap (index + count))
        else some a.value_buf
    some (record { value_buf = cells; size = wrap (a.size + (2 ^ 64 - count)); alloc = a.alloc })

  -- The memory that is given back at the end of `value_array_remove_range`.
  unfoldable pub shrink_array : Bool → ValueArray B → Option (ValueArray B)
  unfolding value_array_realloc value_array_good_alloc_size
  shrink_array granted a =
      if ltb a.size (a.alloc / 4)
      then (do
        alloc ← value_array_good_alloc_size (wrap (a.size * 2))
        some ((value_array_realloc granted alloc a).1))
      else some a

  -- `value_array_remove_range`, of a value that is an array, with the values that it finishes.
  unfoldable pub value_array_remove_range :
      Bool → ℕ → ℕ → ValueArray B → Option (Status × ValueArray B × List (Option B))
  unfolding close_range shrink_array
  value_array_remove_range granted index count a =
      if ltb a.size (wrap (index + count)) then some (failed, a, []) else (do
        closed ← close_range index count a
        after ← shrink_array granted closed
        some (ok, after, take (wrap (index + count) - index) (drop index a.value_buf)))

  -- `value_array_remove`
  unfoldable pub value_array_remove :
      Bool → ℕ → ValueArray B → Option (Status × ValueArray B × List (Option B))
  unfolding value_array_remove_range
  value_array_remove granted index a = value_array_remove_range granted index 1 a

  -- `value_array_clean`, of a value that is an array, with the values that it finishes.
  unfoldable pub value_array_clean : ValueArray B → ValueArray B × List (Option B)
  value_array_clean a = (record { value_buf = []; size = 0; alloc = 0 }, take a.size a.value_buf)
