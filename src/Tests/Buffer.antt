-- ===== src/Tests/Buffer.antt =====
-- data/buffer.c and data/buffer.h, with numbers for bytes.
use c_reusables.Prelude.{
  ℕ, ◌+◌, ◌≡◌, refl, true, false, some, none, [], ◌∷◌, replicate, ok, overlay, memmove, arith,
}
use c_reusables.Buffer.{
  Buffer, double_up, good_alloc_size, reserve, make_room, insert_raw, open_gap, after_room, write,
  insert, append, remove, stack_push, stack_pop,
}
use c_reusables.Buffer.Growth.{IsEnough, good_alloc_size-IsEnough}
use c_reusables.Buffer.Valid.{IsValid, contents, GrownAnswer, reserve_grows}
use c_reusables.Buffer.Insert.{InsertAnswer, insert_inserts}
use c_reusables.Buffer.Remove.{RemoveAnswer, remove_removes}
use c_reusables.Buffer.Stack.{stack_pop-push}
use c_reusables.Buffer.Arrays.{array_insert, ArrayAnswer, array_insert_inserts}

-- Four bytes in a block of 16.
abbrev four : Buffer ℕ
four = record {
  cells = some 1 ∷ some 2 ∷ some 3 ∷ some 4 ∷ replicate 12 none;
  size = 4;
  alloc = 16;
}

four-IsValid : IsValid four
four-IsValid = record { allocated = refl; within = omega arith }

-- The header leaves the size of a block open: 256 bytes fit a block of 256, one more needs 480.
sizes_run : (good_alloc_size 256 ≡ some 256) × (good_alloc_size 257 ≡ some 480)
unfolding good_alloc_size double_up
sizes_run = (refl, refl)

abbrev six : Buffer ℕ
six = record {
  cells = some 1 ∷ some 8 ∷ some 9 ∷ some 2 ∷ some 3 ∷ some 4 ∷ replicate 10 none;
  size = 6;
  alloc = 16;
}

insert_run : insert false 1 (8 ∷ 9 ∷ []) four ≡ some (ok, six)
unfolding insert insert_raw make_room after_room open_gap write overlay memmove
insert_run = refl

push_run :
    stack_push false (8 ∷ 9 ∷ []) four
    ≡ some (
      ok,
      record {
        cells = some 1 ∷ some 2 ∷ some 3 ∷ some 4 ∷ some 8 ∷ some 9 ∷ replicate 10 none;
        size = 6;
        alloc = 16;
      },
    )
unfolding stack_push append insert insert_raw make_room after_room open_gap write overlay memmove
push_run = refl

good_alloc_size-IsEnough_example : IsEnough 0 257 (good_alloc_size 257)
good_alloc_size-IsEnough_example = good_alloc_size-IsEnough 257 (omega arith)

reserve_grows_example : GrownAnswer true (4 + 100) four (reserve true 100 four)
reserve_grows_example = reserve_grows true 100 four four-IsValid (omega arith)

insert_inserts_example : InsertAnswer true 1 (8 ∷ 9 ∷ []) four (insert true 1 (8 ∷ 9 ∷ []) four)
insert_inserts_example =
    insert_inserts true 1 (8 ∷ 9 ∷ []) four four-IsValid (omega arith) (omega arith) (omega arith)

remove_removes_example : RemoveAnswer 1 2 four (remove true 1 2 four)
remove_removes_example =
    remove_removes true 1 2 four four-IsValid (omega arith) (omega arith) (omega arith)

stack_pop-push_example :
    (b'' : Buffer ℕ) × (stack_pop true 2 (record {
      cells = some 1 ∷ some 2 ∷ some 3 ∷ some 4 ∷ some 8 ∷ some 9 ∷ replicate 10 none;
      size = 6;
      alloc = 16;
    })
      ≡ some (some 8 ∷ some 9 ∷ [], b''))
    × IsValid b''
    × (contents b'' ≡ some 1 ∷ some 2 ∷ some 3 ∷ some 4 ∷ [])
stack_pop-push_example =
    stack_pop-push false true (8 ∷ 9 ∷ []) four _ four-IsValid (omega arith) (omega arith) push_run

array_insert_inserts_example :
    ArrayAnswer 2 true 1 (8 ∷ 9 ∷ []) four (array_insert 2 true 1 (8 ∷ 9 ∷ []) four)
array_insert_inserts_example =
    array_insert_inserts 2 true 1 (8 ∷ 9 ∷ []) four four-IsValid (omega arith) refl (omega arith)
      (omega arith)
