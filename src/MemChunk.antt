-- ===== src/MemChunk.antt =====
-- mem/memchunk.c, mem/memchunk.h: the chunk allocator.
--
-- A block is the identity that `malloc` gave it and the number of bytes after its header; the chain
-- from `chunk->head` on is a list. The identities are handed out in turn, since a block that `malloc`
-- returns is none of those in use. A pointer is a block and an offset in it. `size_t` has 64 bits.
pub mod Pieces
use c_reusables.Prelude.{
  ℕ, ◌+◌, ◌*◌, Bool, true, false, ◌||◌, Option, none, some, List, [], ◌∷◌, ltb, ◌==◌, if◌then◌else◌,
}
use c_reusables.Buffer.{wrap}

pub record Block : Type 0 where
  pub id : ℕ
  pub capacity : ℕ

pub record MemChunk : Type 0 where
  pub chain : List Block
  pub block_size : ℕ
  pub free_off : ℕ
  pub next_id : ℕ

pub record Pointer : Type 0 where
  pub block : ℕ
  pub off : ℕ

-- `memchunk_init`; 1024 is `MEMCHUNK_DEFAULT_BLOCK_SIZE`.
unfoldable pub init : ℕ → ℕ → MemChunk
init block_size next_id =
    let size = if block_size == 0 then 1024 else block_size in
    record { chain = []; block_size = size; free_off = size; next_id = next_id }

-- What `malloc` gives: a block that was never there.
abbrev new_block : ℕ → MemChunk → Block
new_block capacity c = record { id = c.next_id; capacity = capacity }

-- A block of its own for a big request, behind the head.
unfoldable pub alloc_big : Bool → ℕ → MemChunk → Option Pointer × MemChunk
alloc_big false size c = (none, c)
alloc_big true size c = (
  some (record { block = c.next_id; off = 0 }),
  elim c.chain [
    | [] ↦ record c {
      chain = new_block size c ∷ [];
      free_off = c.block_size;
      next_id = c.next_id + 1;
    }
    | h ∷ rest ↦ record c { chain = h ∷ new_block size c ∷ rest; next_id = c.next_id + 1 }
  ],
)

-- The allocation itself, from the head.
unfoldable pub take_from_head : ℕ → MemChunk → Option Pointer × MemChunk
take_from_head size c = elim c.chain [
  | [] ↦ (none, c)
  | h ∷ _ ↦ (
    some (record { block = h.id; off = c.free_off }),
    record c { free_off = wrap (c.free_off + size) },
  )
]

-- A new standard block becomes the head.
unfoldable pub alloc_standard : Bool → ℕ → MemChunk → Option Pointer × MemChunk
unfolding take_from_head
alloc_standard false size c = (none, c)
alloc_standard true size c =
    take_from_head size (record c {
      chain = new_block c.block_size c ∷ c.chain;
      free_off = 0;
      next_id = c.next_id + 1;
    })

-- `chunk->head == NULL`
abbrev no_head : MemChunk → Bool
no_head c = elim c.chain [ [] ↦ true | _ ∷ _ ↦ false ]

-- `memchunk_alloc`; the first argument says whether `malloc` succeeds.
unfoldable pub alloc : Bool → ℕ → MemChunk → Option Pointer × MemChunk
alloc granted size c =
    if no_head c || ltb c.block_size (wrap (c.free_off + size))
    then (if ltb c.block_size (wrap (4 * size))
        then alloc_big granted size c
        else alloc_standard granted size c)
    else take_from_head size c

-- `memchunk_fini`: the blocks that are freed, in turn, and the chunk.
unfoldable pub fini : MemChunk → List Block × MemChunk
fini c = (c.chain, record c { chain = [] })
