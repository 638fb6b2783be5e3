-- ===== src/MemChunk/Pieces.antt =====
-- mem/memchunk.c: the pieces of memory that were handed out lie in their blocks, and apart.
use c_reusables.Prelude.{
  ℕ, ◌+◌, ◌*◌, ◌^◌, ◌≤◌, ◌<◌, ◌≡◌, ◌≢◌, ◌⊎◌, refl, inl, inr, Bool, true, false, Bool-cases, Option,
  none, some, List, [], ◌∷◌, ltb, ◌==◌, ==_iff, if◌then◌else◌, All, All-imp, arith,
}
use c_reusables.Buffer.{wrap}
use c_reusables.Buffer.Growth.{wrap_small}
use c_reusables.MemChunk.{
  Block, MemChunk, Pointer, init, alloc_big, take_from_head, alloc_standard, alloc,
}

-- A piece that was handed out, of `size` bytes.
pub record Piece : Type 0 where
  pub start : Pointer
  pub size : ℕ

abbrev pub end : Piece → ℕ
end p = p.start.off + p.size

-- A block with this identity and capacity is in the chain.
abbrev pub Has : ℕ → ℕ → List Block → Type 0
Has id capacity [] = ⊥
Has id capacity (h ∷ rest) = ((h.id ≡ id) × (h.capacity ≡ capacity)) ⊎ Has id capacity rest

abbrev pub LiesIn : List Block → Piece → Type 0
LiesIn chain p = (capacity : ℕ) × Has p.start.block capacity chain × (end p ≤ capacity)

abbrev pub Apart : Piece → Piece → Type 0
Apart p q = (p.start.block ≢ q.start.block) ⊎ ((end p ≤ q.start.off) ⊎ (end q ≤ p.start.off))

abbrev pub AllApart : List Piece → Type 0
AllApart [] = Unit
AllApart (p ∷ ps) = All (Apart p) ps × AllApart ps

-- In the head: standard and used up to `free_off`, or a block of its own, with `free_off` at its end.
abbrev pub HeadUsed : MemChunk → List Block → List Piece → Type 0
HeadUsed c [] ps = Unit
HeadUsed c (h ∷ _) ps =
    (h.id < c.next_id)
    × (((h.capacity ≡ c.block_size) × All (λ p. p.start.block ≡ h.id → end p ≤ c.free_off) ps)
        ⊎ (c.block_size ≤ c.free_off))

-- A chunk from which these pieces were handed out.
pub record IsValid (c : MemChunk) (ps : List Piece) : Type 0 where
  pub inside : All (LiesIn c.chain) ps
  pub known : All (λ p. p.start.block < c.next_id) ps
  pub apart : AllApart ps
  pub head : HeadUsed c c.chain ps
  pub small : c.free_off ≤ c.block_size

-- What an allocation answers: null and nothing changed, `malloc` having failed; or a piece more.
unfoldable pub Allocated : Bool → ℕ → MemChunk → List Piece → Option Pointer × MemChunk → Type 0
Allocated granted size c ps (none, c') = (c' ≡ c) × (granted ≡ false)
Allocated granted size c ps (some at, c') = IsValid c' (record { start = at; size = size } ∷ ps)

-- A block that no piece is in yet is apart from all.
Apart-new :
    (id off size : ℕ) (ps : List Piece)
    → All (λ p. p.start.block < id) ps
    → All (Apart (record { start = record { block = id; off = off }; size = size })) ps
Apart-new id off size =
    All-imp (λ p. p.start.block < id) (Apart _) (λ p l. inl (λ e. omega (arith, l, e)))

-- A piece at the end of what is used of the head.
abbrev next_piece : Block → ℕ → ℕ → Piece
next_piece h free_off size = record { start = record { block = h.id; off = free_off }; size = size }

Apart-head :
    (h : Block) (free_off size : ℕ) (ps : List Piece)
    → All (λ p. p.start.block ≡ h.id → end p ≤ free_off) ps
    → All (Apart (next_piece h free_off size)) ps
Apart-head h free_off size =
    All-imp (λ p. p.start.block ≡ h.id → end p ≤ free_off) (Apart (next_piece h free_off size))
      (λ p before. elim (Bool-cases (p.start.block == h.id)) [
        | inl e ↦ inr (inr (before ((==_iff p.start.block h.id).0 e)))
        | inr e ↦ inl (λ same. ground (arith, e))
      ])

-- Taking a piece from a standard head that has room.
take_standard :
    (size : ℕ) (h : Block) (c : MemChunk) (rest : List Block) (ps : List Piece)
    → All (LiesIn (h ∷ rest)) ps
    → All (λ p. p.start.block < c.next_id) ps
    → AllApart ps
    → h.id < c.next_id
    → h.capacity ≡ c.block_size
    → All (λ p. p.start.block ≡ h.id → end p ≤ c.free_off) ps
    → c.free_off + size ≤ c.block_size
    → c.block_size < 2 ^ 64
    → IsValid
        (record c { chain = h ∷ rest; free_off = wrap (c.free_off + size) })
        (next_piece h c.free_off size ∷ ps)
take_standard size h c rest ps ins known apart id cap used room bound =
    rw (wrap_small (c.free_off + size) (omega arith)) (record {
      inside = ((h.capacity, inl (refl, refl), omega arith), ins);
      known = (id, known);
      apart = (Apart-head h c.free_off size ps used, apart);
      head = (
        id,
        inl (
          cap,
          (
            (λ _. omega arith),
            All-imp (λ p. p.start.block ≡ h.id → end p ≤ c.free_off)
                (λ p. p.start.block ≡ h.id → end p ≤ c.free_off + size)
                (λ p before e. omega (arith, before e)) ps used,
          ),
        ),
      );
      small = room;
    })

-- A chain with one more block, at its head or behind it, has the pieces that it had.
more_blocks :
    (before after : List Block)
    → ((id capacity : ℕ) → Has id capacity before → Has id capacity after)
    → (ps : List Piece) → All (LiesIn before) ps
    → All (LiesIn after) ps
more_blocks before after f =
    All-imp (LiesIn before) (LiesIn after) (λ p (cap, has, le). (cap, f p.start.block cap has, le))

more_known :
    (n : ℕ) (ps : List Piece)
    → All (λ p. p.start.block < n) ps
    → All (λ p. p.start.block < n + 1) ps
more_known n =
    All-imp (λ p. p.start.block < n) (λ p. p.start.block < n + 1) (λ p l. omega (arith, l))

alloc_standard-Allocated :
    (granted : Bool) (size : ℕ) (c : MemChunk) (ps : List Piece)
    → IsValid c ps
    → size ≤ c.block_size
    → c.block_size < 2 ^ 64
    → Allocated granted size c ps (alloc_standard granted size c)
unfolding alloc_standard take_from_head Allocated
alloc_standard-Allocated false size c ps v fits bound = (refl, refl)
alloc_standard-Allocated true size c ps v fits bound =
    take_standard size (record { id = c.next_id; capacity = c.block_size })
      (record c { free_off = 0; next_id = c.next_id + 1 }) c.chain ps
      (more_blocks c.chain (record { id = c.next_id; capacity = c.block_size } ∷ c.chain)
        (λ id cap has. inr has) ps v.inside)
      (more_known c.next_id ps v.known) v.apart (omega arith) refl
      (All-imp (λ p. p.start.block < c.next_id) (λ p. p.start.block ≡ c.next_id → end p ≤ 0)
        (λ p l e. absurd (omega (arith, l, e))) ps v.known)
      (omega arith) bound

alloc_big-Allocated :
    (granted : Bool) (size : ℕ) (chain : List Block) (block_size free_off next_id : ℕ)
    (ps : List Piece)
    → IsValid
        (record { chain = chain; block_size = block_size; free_off = free_off; next_id = next_id })
        ps
    → Allocated granted size
        (record { chain = chain; block_size = block_size; free_off = free_off; next_id = next_id })
        ps
        (alloc_big granted size (record {
          chain = chain;
          block_size = block_size;
          free_off = free_off;
          next_id = next_id;
        }))
unfolding alloc_big Allocated
alloc_big-Allocated false size chain block_size free_off next_id ps v = (refl, refl)
alloc_big-Allocated true size [] block_size free_off next_id ps v = record {
  inside = (
    (size, inl (refl, refl), omega arith),
    more_blocks [] (record { id = next_id; capacity = size } ∷ []) (λ id cap has. inr has) ps
        v.inside,
  );
  known = (omega arith, more_known next_id ps v.known);
  apart = (Apart-new next_id 0 size ps v.known, v.apart);
  head = (omega arith, inr (omega arith));
  small = omega arith;
}
alloc_big-Allocated true size (h ∷ rest) block_size free_off next_id ps v = record {
  inside = (
    (size, inr (inl (refl, refl)), omega arith),
    more_blocks (h ∷ rest) (h ∷ record { id = next_id; capacity = size } ∷ rest)
        (λ id cap has. elim has [ inl a ↦ inl a | inr b ↦ inr (inr b) ]) ps v.inside,
  );
  known = (omega arith, more_known next_id ps v.known);
  apart = (Apart-new next_id 0 size ps v.known, v.apart);
  head = (
    omega (arith, v.head.0),
    elim v.head.1 [
      | inl (cap, used) ↦ inl (cap, ((λ e. absurd (omega (arith, e, v.head.0))), used))
      | inr full ↦ inr full
    ],
  );
  small = v.small;
}

take_from_head-Allocated :
    (granted : Bool) (size : ℕ) (h : Block) (rest : List Block) (block_size free_off next_id : ℕ)
    (ps : List Piece)
    → IsValid
        (record {
          chain = h ∷ rest;
          block_size = block_size;
          free_off = free_off;
          next_id = next_id;
        })
        ps
    → 0 < size
    → free_off + size ≤ block_size
    → block_size < 2 ^ 64
    → Allocated granted size
        (record {
          chain = h ∷ rest;
          block_size = block_size;
          free_off = free_off;
          next_id = next_id;
        })
        ps
        (take_from_head size (record {
          chain = h ∷ rest;
          block_size = block_size;
          free_off = free_off;
          next_id = next_id;
        }))
unfolding take_from_head Allocated
take_from_head-Allocated granted size h rest block_size free_off next_id ps v pos room bound =
    elim v.head.1 [
      | inl (cap, used) ↦
          take_standard size h
            (record {
              chain = h ∷ rest;
              block_size = block_size;
              free_off = free_off;
              next_id = next_id;
            })
            rest ps v.inside v.known v.apart v.head.0 cap used room bound
      | inr full ↦ absurd (omega (arith, full))
    ]

-- Where the head has no room: a block of its own if four times the size exceed a block's.
alloc_block :
    (granted : Bool) (size : ℕ) (c : MemChunk) (ps : List Piece)
    → IsValid c ps
    → size ≤ 2 ^ 60
    → c.block_size ≤ 2 ^ 60
    → Allocated granted size c ps (
        if ltb c.block_size (wrap (4 * size))
        then alloc_big granted size c
        else alloc_standard granted size c)
alloc_block granted size c ps v small bound =
    rw (wrap_small (4 * size) (omega arith)) (elim (Bool-cases (ltb c.block_size (4 * size))) [
      | inl e ↦
          rw (e, if◌then◌else◌)
            (alloc_big-Allocated granted size c.chain c.block_size c.free_off c.next_id ps v)
      | inr e ↦
          rw (e, if◌then◌else◌)
            (alloc_standard-Allocated granted size c ps v (ground (arith, e)) (omega arith))
    ])

alloc_in :
    (granted : Bool) (size : ℕ) (chain : List Block) (block_size free_off next_id : ℕ)
    (ps : List Piece)
    → IsValid
        (record { chain = chain; block_size = block_size; free_off = free_off; next_id = next_id })
        ps
    → 0 < size
    → size ≤ 2 ^ 60
    → block_size ≤ 2 ^ 60
    → Allocated granted size
        (record { chain = chain; block_size = block_size; free_off = free_off; next_id = next_id })
        ps
        (alloc granted size (record {
          chain = chain;
          block_size = block_size;
          free_off = free_off;
          next_id = next_id;
        }))
unfolding alloc
alloc_in granted size [] block_size free_off next_id ps v pos small bound =
    alloc_block granted size _ ps v small bound
alloc_in granted size (h ∷ rest) block_size free_off next_id ps v pos small bound =
    rw (wrap_small (free_off + size) (omega (arith, v.small)))
      (elim (Bool-cases (ltb block_size (free_off + size))) [
        | inl e ↦ rw (e, if◌then◌else◌) (alloc_block granted size _ ps v small bound)
        | inr e ↦
            rw (e, if◌then◌else◌)
              (take_from_head-Allocated granted size h rest block_size free_off next_id ps v pos
                (ground (arith, e)) (omega arith))
      ])

-- From a chunk whose pieces lie in their blocks and apart, an allocation of at least one byte
-- answers null, `malloc` having failed, and changes nothing; or it answers a further piece, of the
-- size that was asked for, that lies in one of the blocks and apart from all others. Sizes of the
-- request and of a block are at most 2 ^ 60.
pub alloc-Allocated :
    (granted : Bool) (size : ℕ) (c : MemChunk) (ps : List Piece)
    → IsValid c ps
    → 0 < size
    → size ≤ 2 ^ 60
    → c.block_size ≤ 2 ^ 60
    → Allocated granted size c ps (alloc granted size c)
alloc-Allocated granted size c ps v =
    alloc_in granted size c.chain c.block_size c.free_off c.next_id ps v

-- A new chunk has no pieces.
pub init-IsValid : (block_size next_id : ℕ) → IsValid (init block_size next_id) []
unfolding init
init-IsValid block_size next_id = record {
  inside = tt;
  known = tt;
  apart = tt;
  head = tt;
  small = omega arith;
}
