-- ===== src/Lib.antt =====
-- c-reusables: the C library of data structures, encoders and hashes.
--
-- The parts of the library do not call each other: each is one header and at most one source file.
-- Modelled are the intrusive red-black tree, the intrusive hash table, the intrusive linked lists,
-- the buffer with the stack and the arrays on top of it, the chunk allocator, the hash functions,
-- hexadecimal notation, Base64, the parser of command line options, and the integers, strings and
-- arrays of the tagged value.
--
-- Red-black tree (data/rbtree.c, data/rbtree.h), module RbTree. A node is its colour bit, its left
-- child, the structure that embeds it, and its right child; a tree is a value, since no two pointers
-- of a tree lead to one node. The path array of C is a list of frames, nearest ancestor first, each
-- with the side on which the path leaves it (RbTree/Tree). A pointer that C would follow although it
-- is NULL, or an array element before the first, makes a function return `none`.
--   RbTree/Tree     MAKE_RED, MAKE_BLACK, rotations, rbtree_lookup_path, rbtree_lookup
--   RbTree/Insert   rbtree_insert_fixup, rbtree_insert
--   RbTree/Remove   rbtree_remove_fixup, rbtree_leftmost_path, rbtree_remove
--   RbTree/Cursor   rbtree_lookup_ex, rbtree_current, rbtree_head, rbtree_tail, rbtree_next,
--                   rbtree_prev
--   RbTree/Verify   rbtree_verify; RbTree/Fini rbtree_fini_step and the loop that calls it
-- Their theorems stand in the other modules: RbTree/Balance says what a red-black tree is and
-- RbTree/Order what the comparator has to satisfy and which sorted list a tree stands for;
-- RbTree/Laws brings both together, and RbTree/Depth bounds the path array. The loop of
-- rbtree_insert_fixup has fuel for one round more than the path has nodes, each round going up by two
-- of them or ending; the loop of rbtree_remove_fixup has fuel for three rounds more, since a round
-- with a red sibling first goes down by one. RbTree/Laws shows that both are enough.
--
-- Hash table (data/htable.c, data/htable.h), module HashTable. A chain is a list, a plane the list
-- of its slots, and the planes are a list, largest plane first. The hash and the comparator are
-- parameters, and whether realloc and malloc succeed are arguments. Without a plane C would read
-- `planes[-1]`, for which a function returns `none`. The size of a plane is a natural number, which
-- the `int` expression `59 << i` of C is up to the plane of index 25. HTABLE_SLOT_COUNT is the 32 bits
-- of its `int`, and wraps around from 26 planes on; where the load matters the planes are at most 25.
--   HashTable          the operations
--   HashTable/Weight   the nodes as a multiset: the sum of any weight over them
--   HashTable/Valid    what a valid plane is, and the search in a chain
--   HashTable/Search   htable_lookup_internal
--   HashTable/Shrink   htable_shrink
--   HashTable/Held     valid tables
--   HashTable/Place    htable_grow and the placing of a node
--   HashTable/Laws     lookups, insertions and removals; Fini, Load and RoundTrip beside it
--
-- Buffer (data/buffer.c, data/buffer.h), module Buffer. The allocated block is the list of its cells,
-- so an access outside it makes a function return `none`; `size_t` has 64 bits, and whether realloc
-- succeeds is an argument. The loop of buffer_good_alloc_size has fuel for 64 rounds, one for each
-- bit of a size, which is enough for a request of at most 2 ^ 61 bytes (Buffer/Growth).
--   Buffer           the functions of data/buffer.c, and the stack of data/buffer.h
--   Buffer/Growth    buffer_good_alloc_size
--   Buffer/Valid     valid buffers, buffer_realloc and buffer_reserve
--   Buffer/Insert    buffer_insert; Buffer/Remove buffer_remove
--   Buffer/Stack     stack_push and stack_pop
--   Buffer/Arrays    the nine typed arrays, by the width of an element
--
-- Chunk allocator (mem/memchunk.c, mem/memchunk.h), module MemChunk. A block is an identity and a
-- capacity, a pointer a block and an offset. MemChunk/Pieces keeps the pieces that were handed out
-- beside the state, to say that they lie apart.
--
-- Hashes (hash/crc32.c, hash/fnv1a.c), modules Hash/Crc32 and Hash/Fnv1a. A byte is a number; the
-- wrap-around of the multiplication is written out.
--
-- Hexadecimal (encode/hex.c), module Hex. The loops count the space that is left in the output buffer.
--
-- Linked lists (data/list.h), module LinkedList. The nodes live in a store: a pointer is a number and
-- each field a function from pointers, so that the writes of the code are updates of these functions
-- and nodes can be the same. The pointer to a list is the one to its `main` structure.
--   LinkedList          LIST, SLIST and QLIST, and the loop of the header's example, with fuel
--   LinkedList/Chain    what a field that leads through a sequence of nodes is
--   LinkedList/Double   LIST: the sequence forward, and the reverse backward
--   LinkedList/Single   SLIST and QLIST
--
-- Base64 (encode/base64.c, encode/base64.h), module Base64. A character is a byte; `char` is signed,
-- so that one from 128 up is a negative index, and the answer says that the table is left. The loops
-- take three bytes, or four characters, at a time. The offset of the loop that decodes wraps around at
-- 2 ^ 32, as in C, and the answer says that the input is left; the offset of the loop that encodes does
-- not wrap around for fewer than 2 ^ 32 - 3 bytes, and more are not modelled.
--   Base64             both functions
--   Base64/Digits      the two tables are inverse; shifts and masks as arithmetic
--   Base64/Loop        the loop that decodes, by groups, where its offset does not wrap around
--   Base64/Groups      the groups of a text that is encoded
--   Base64/Canonical   the groups of a text that is accepted
--   Base64/RoundTrip   base64_decode after base64_encode; Base64/Answers each answer of the former
--
-- Command line (misc/cmdline.c, misc/cmdline.h), module CommandLine. A text is a list of characters
-- without its zero, the options are a list, and the callback with its user data is a parameter.
--   CommandLine           both functions
--   CommandLine/Reports   a callback is called as one that only notes its calls
--   CommandLine/Total     no NULL is followed
--   CommandLine/Run       cmdline_read as a whole
--   CommandLine/Names     long names as texts; CommandLine/Long the matching of long options
--
-- Value (data/value.c, data/value.h), module Value. A value is its first byte with type and flags, its
-- other 15 bytes, and its block from malloc, which is a parameter. The conversions of floating-point
-- numbers are parameters. The loop that writes the bytes of a length has fuel for ten, enough for
-- 64 bits; the loop of value_array_good_alloc_size has fuel for 64 rounds (Value/Arrays/Range).
--   Value             integers and strings
--   Value/Bytes       what a value holds after value_init
--   Value/Integers    conversions; Value/Strings the length and the text of a string
--   Value/Arrays      the arrays, with the block as the list of its cells, as in Buffer
--
-- Prelude holds what the parts share; Tests holds runs and the theorems at concrete inputs.
--
-- Not modelled: of data/value.c the dictionary, the paths, value_fini, value_is_new, value_bool,
-- value_init_array and value_array_get_all, and the values of floating point with their comparisons;
-- what hex_decode leaves in the buffer after an error; malloca.h and defs.h, which are macros;
-- memstream.c, which is the Windows API; the unit tests.
pub mod Prelude
pub mod RbTree
pub mod HashTable
pub mod Buffer
pub mod MemChunk
pub mod Hash
pub mod LinkedList
pub mod Base64
pub mod CommandLine
pub mod Value
pub mod Hex
pub mod Tests
