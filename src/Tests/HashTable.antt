-- ===== src/Tests/HashTable.antt =====
-- data/htable.c, with numbers for nodes that are their own hashes.
use c_reusables.Prelude.{
  ℕ, ◌-◌, ◌^◌, ◌≡◌, refl, ◌==◌, ==_iff, sym, Bool, true, false, some, List, [], ◌∷◌, ok, set,
  replicate, arith,
}
use c_reusables.HashTable.{
  HashTable, insert_internal, insert_absent, lookup_internal, find_in, place, place_if_ok, remove,
  lookup, fini, shrink, slot_count, to_size_t, int_quarter,
}
use c_reusables.HashTable.Weight.{weigh, weigh_plane, weigh_planes}
use c_reusables.HashTable.Valid.{set-IsPlane}
use c_reusables.HashTable.Held.{IsHash, IsValid, IsKept, IsPlane-replicate, shrink-IsKept}
use c_reusables.HashTable.Laws.{
  Inserts, insert_answers, LooksUp, lookup_answers, Removes, remove_answers,
}
use c_reusables.HashTable.Fini.{CalledOn, fini-visits}
use c_reusables.HashTable.Load.{slots, IsRoomy, insert-IsRoomy, remove-IsRoomy}
use c_reusables.HashTable.RoundTrip.{lookup-insert}

abbrev own : ℕ → ℕ
own x = x

abbrev equals : ℕ → ℕ → Bool
equals a b = a == b

equals-IsHash : IsHash equals own
equals-IsHash key x e = sym ((==_iff key x).0 e)

-- One plane, with a node in slot 7.
abbrev one : HashTable ℕ
one = record { planes = set (replicate 59 []) 7 (66 ∷ []) ∷ []; n = 1 }

one-IsValid : IsValid own one
unfolding weigh_planes weigh_plane weigh
one-IsValid = record {
  in_place =
      (set-IsPlane own 0 7 (replicate 59 []) (66 ∷ []) (IsPlane-replicate own 0) (refl, tt), tt);
  counted = refl;
}

insert_answers_example :
    Inserts equals own false true true 125 one (insert_internal equals own false true true 125 one)
insert_answers_example = insert_answers equals own false true true 125 one equals-IsHash one-IsValid

lookup_answers_example : LooksUp equals own 66 one (lookup equals own 66 one)
lookup_answers_example = lookup_answers equals own 66 one equals-IsHash one-IsValid

remove_answers_example :
    Removes equals own 66 one (remove equals own 66 one).0 (remove equals own 66 one).1
remove_answers_example = remove_answers equals own 66 one equals-IsHash one-IsValid

shrink-IsKept_example : IsKept own one (shrink one)
shrink-IsKept_example = shrink-IsKept own one one-IsValid

fini-visits_example :
    (visited : List ℕ) × (fini true one ≡ some (visited, record { planes = []; n = 0 }))
    × CalledOn true one visited
fini-visits_example = fini-visits own true one one-IsValid

insert-IsRoomy_example :
    IsRoomy (insert_answers equals own false true true 125 one equals-IsHash one-IsValid).after
unfolding slots
insert-IsRoomy_example =
    insert-IsRoomy equals own false true 125 one equals-IsHash one-IsValid (omega arith)
      (omega arith)

remove-IsRoomy_example : IsRoomy (remove equals own 66 one).1
unfolding slots
remove-IsRoomy_example =
    remove-IsRoomy equals own 66 one equals-IsHash one-IsValid (omega arith) (omega arith)

-- With 26 planes the slot count is a negative `int`.
slot_count_overflow_test : to_size_t (slot_count 26) ≡ 2 ^ 64 - 335544379
slot_count_overflow_test = refl

quarter_overflow_test : to_size_t (int_quarter (slot_count 26)) ≡ 2 ^ 64 - 83886094
quarter_overflow_test = refl

-- 125 goes in front of 66, into the same slot.
abbrev two : HashTable ℕ
two = record { planes = set (replicate 59 []) 7 (125 ∷ 66 ∷ []) ∷ []; n = 2 }

insert_run : insert_internal equals own false true true 125 one ≡ some (ok, two)
unfolding insert_internal insert_absent lookup_internal find_in place place_if_ok
insert_run = refl

lookup-insert_example : lookup equals own 125 two ≡ some 125
lookup-insert_example =
    lookup-insert equals own false true true 125 125 one equals-IsHash one-IsValid refl two
      insert_run
