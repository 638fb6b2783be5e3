-- ===== src/Buffer.antt =====
-- data/buffer.c, data/buffer.h: the growing buffer of bytes.
--
-- The allocated block is the list of its cells, a cell that was never written being `none`; a null
-- `data` is the empty block. `size_t` has 64 bits. An access outside the block makes a function
-- return `none`, and so does the loop of `buffer_good_alloc_size` when its fuel ends. Whether
-- `realloc` succeeds is an argument.
pub mod Growth
pub mod Valid
pub mod Insert
pub mod Remove
pub mod Stack
pub mod Arrays
use c_reusables.Prelude.{
  ℕ, zero, suc, ◌+◌, ◌-◌, ◌*◌, ◌/◌, ◌%◌, ◌^◌, Bool, true, false, ◌&&◌, ◌||◌, Option, none, some,
  List, [], ◌∷◌, ◌++◌, map, ltb, leb, ◌==◌, if◌then◌else◌, length, take, drop, replicate, overlay,
  memmove, Status, ok, failed, ◌>>=◌,
}

abbrev pub wrap : ℕ → ℕ
wrap x = x % 2 ^ 64

-- `while(good_alloc - slack < requested) good_alloc *= 2`, with fuel for its rounds.
unfoldable pub double_up : ℕ → ℕ → ℕ → ℕ → Option ℕ
double_up zero slack requested good = none
double_up (suc fuel) slack requested good =
    let rest = double_up fuel slack requested (wrap (good * 2)) in
    if ltb (wrap (good + (2 ^ 64 - slack))) requested then rest else some good

-- `buffer_good_alloc_size`
unfoldable pub good_alloc_size : ℕ → Option ℕ
good_alloc_size requested =
    if leb requested 256
    then double_up 64 0 requested 16
    else (do good ← double_up 64 32 requested 512; some (wrap (good + (2 ^ 64 - 32))))

pub record Buffer {ℓ} (B : Type ℓ) : Type ℓ where
  pub cells : List (Option B)
  pub size : ℕ
  pub alloc : ℕ

module _ {ℓ} {B : Type ℓ} where
  -- `buffer_init`
  abbrev pub empty : Buffer B
  empty = record { cells = []; size = 0; alloc = 0 }

  -- What `realloc` makes of a block: its cells, up to the new size, and cells never written.
  abbrev pub resized : ℕ → List (Option B) → List (Option B)
  resized n cells = take n cells ++ replicate (n - length cells) none

  -- `buffer_realloc`
  unfoldable pub realloc : Bool → ℕ → Buffer B → Status × Buffer B
  realloc granted alloc b =
      if alloc == b.alloc
      then (ok, b)
      else if alloc == 0
      then (ok, empty)
      else if granted
      then (
        ok,
        record {
          cells = resized alloc b.cells;
          size = if ltb alloc b.size then alloc else b.size;
          alloc = alloc;
        },
      )
      else (failed, b)

  -- `buffer_reserve`
  unfoldable pub reserve : Bool → ℕ → Buffer B → Option (Status × Buffer B)
  reserve granted n b =
      if ltb (wrap (b.size + n)) b.alloc
      then some (ok, b)
      else (do alloc ← good_alloc_size (wrap (b.size + n)); some (realloc granted alloc b))

  -- `buffer_shrink`
  unfoldable pub shrink : Bool → Buffer B → Buffer B
  shrink granted b =
      if ltb 0 b.alloc && ltb b.alloc 8 || ltb (b.alloc / 8) (b.size / 7)
      then b
      else (realloc granted b.size b).1

  -- The guard of `buffer_insert_raw`.
  unfoldable pub make_room : Bool → ℕ → Buffer B → Option (Status × Buffer B)
  make_room granted n b =
      if ltb b.alloc (wrap (b.size + n)) then reserve granted n b else some (ok, b)

  -- The bytes from the offset on move up by `n`.
  unfoldable pub open_gap : ℕ → ℕ → Buffer B → Option (Buffer B)
  open_gap off n b = do
    cells ← if ltb off b.size then memmove b.cells (off + n) off (b.size - off) else some b.cells
    some (record b { cells = cells; size = wrap (b.size + n) })

  -- `buffer_data_at`: the offset, or `none` for a null pointer.
  abbrev pub data_at : ℕ → Buffer B → Option ℕ
  data_at off b = if b.alloc == 0 then none else some off

  unfoldable pub after_room : ℕ → ℕ → Status × Buffer B → Option (Option ℕ × Buffer B)
  after_room off n (failed, b) = some (none, b)
  after_room off n (ok, b) = do b' ← open_gap off n b; some (data_at off b', b')

  -- `buffer_insert_raw`: the address for the bytes, or null.
  unfoldable pub insert_raw : Bool → ℕ → ℕ → Buffer B → Option (Option ℕ × Buffer B)
  unfolding after_room
  insert_raw granted off n b = do r ← make_room granted n b; after_room off n r

  unfoldable pub write : List B → Option ℕ × Buffer B → Option (Status × Buffer B)
  write xs (none, b) = some (failed, b)
  write xs (some off, b) = do
    cells ← overlay b.cells off (map some xs)
    some (ok, record b { cells = cells })

  -- `buffer_insert`
  unfoldable pub insert : Bool → ℕ → List B → Buffer B → Option (Status × Buffer B)
  unfolding write
  insert granted off xs b = do r ← insert_raw granted off (length xs) b; write xs r

  -- `buffer_append`
  unfoldable pub append : Bool → List B → Buffer B → Option (Status × Buffer B)
  append granted xs b = insert granted b.size xs b

  -- The first part of `buffer_remove`.
  unfoldable pub close_gap : ℕ → ℕ → Buffer B → Option (Buffer B)
  close_gap off n b =
      if ltb (wrap (off + n)) b.size
      then (do
        cells ← memmove b.cells off (wrap (off + n)) (b.size - wrap (off + n))
        some (record b { cells = cells; size = wrap (b.size + (2 ^ 64 - n)) }))
      else some (record b { size = off })

  -- The second part: a buffer that got too large gives memory back.
  unfoldable pub give_back : Bool → Buffer B → Option (Buffer B)
  give_back granted b =
      if b.size == 0
      then some empty
      else if ltb b.size (b.alloc / 4)
      then (do
        new_alloc ← good_alloc_size (wrap (b.size * 2))
        some (if ltb new_alloc (b.alloc / 2) then (realloc granted new_alloc b).1 else b))
      else some b

  -- `buffer_remove`
  unfoldable pub remove : Bool → ℕ → ℕ → Buffer B → Option (Buffer B)
  remove granted off n b = do b' ← close_gap off n b; give_back granted b'

  -- `buffer_clear`
  unfoldable pub clear : Bool → Buffer B → Option (Buffer B)
  clear granted b = remove granted 0 b.size b

  -- `buffer_is_empty`, `buffer_append_raw` and `buffer_swap`
  abbrev pub is_empty : Buffer B → Bool
  is_empty b = b.size == 0

  unfoldable pub append_raw : Bool → ℕ → Buffer B → Option (Option ℕ × Buffer B)
  append_raw granted n b = insert_raw granted b.size n b

  abbrev pub swap : Buffer B → Buffer B → Buffer B × Buffer B
  swap b b' = (b', b)

  -- `buffer_acquire`: the block, the size, and the buffer that is left.
  unfoldable pub acquire : Buffer B → List (Option B) × ℕ × Buffer B
  acquire b = (b.cells, b.size, empty)

  -- `stack_peek`: the last `n` bytes.
  unfoldable pub stack_peek : ℕ → Buffer B → Option (List (Option B))
  stack_peek n b =
      let off = wrap (b.size + (2 ^ 64 - n)) in
      if leb (off + n) (length b.cells) then some (take n (drop off b.cells)) else none

  -- `stack_push`
  unfoldable pub stack_push : Bool → List B → Buffer B → Option (Status × Buffer B)
  stack_push = append

  -- `stack_pop`
  unfoldable pub stack_pop : Bool → ℕ → Buffer B → Option (List (Option B) × Buffer B)
  stack_pop granted n b = do
    out ← stack_peek n b
    b' ← remove granted (wrap (b.size + (2 ^ 64 - n))) n b
    some (out, b')

  -- `stack_pop_raw`: the address of the bytes, which stay in the block.
  unfoldable pub stack_pop_raw : ℕ → Buffer B → Option ℕ × Buffer B
  stack_pop_raw n b =
      let off = wrap (b.size + (2 ^ 64 - n)) in (data_at off b, record b { size = off })
