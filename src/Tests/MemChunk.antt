-- ===== src/Tests/MemChunk.antt =====
-- mem/memchunk.c, with blocks of 64 bytes.
use c_reusables.Prelude.{◌-◌, ◌^◌, ◌≡◌, refl, inl, true, some, [], ◌∷◌, arith}
use c_reusables.MemChunk.{MemChunk, alloc, take_from_head}
use c_reusables.MemChunk.Pieces.{Piece, IsValid, Allocated, alloc-Allocated}

-- A chunk from which one piece of 16 bytes was handed out.
abbrev used : MemChunk
used = record {
  chain = record { id = 0; capacity = 64 } ∷ [];
  block_size = 64;
  free_off = 16;
  next_id = 1;
}

abbrev first : Piece
first = record { start = record { block = 0; off = 0 }; size = 16 }

used-IsValid : IsValid used (first ∷ [])
used-IsValid = record {
  inside = ((64, inl (refl, refl), omega arith), tt);
  known = (omega arith, tt);
  apart = (tt, tt);
  head = (omega arith, inl (refl, ((λ _. omega arith), tt)));
  small = omega arith;
}

-- A request near the largest `size_t` wraps around, and `free_off` goes back into the first piece.
wrap_run :
    alloc true (2 ^ 64 - 1) used
    ≡ (some (record { block = 0; off = 16 }), record used { free_off = 15 })
unfolding alloc take_from_head
wrap_run = refl

alloc-Allocated_example : Allocated true 8 used (first ∷ []) (alloc true 8 used)
alloc-Allocated_example =
    alloc-Allocated true 8 used (first ∷ []) used-IsValid (omega arith) (omega arith) (omega arith)
