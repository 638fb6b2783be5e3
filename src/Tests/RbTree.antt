-- ===== src/Tests/RbTree.antt =====
-- data/rbtree.c, with numbers for nodes.
use Prim.Native.Nat.{compare}
use c_reusables.Prelude.{
  ℕ, ◌+◌, ◌≤◌, ◌≡◌, refl, ◌↔◌, Option, some, reverse, [], ◌∷◌, Status, ok, arith,
}
use c_reusables.RbTree.Tree.{
  red, black, Tree, null, node, to_list, lookup_path, left_of, lookup, is_red, paint, attach,
  paint_frame, paint_sibling, plug,
}
use c_reusables.RbTree.Balance.{rb_null, rb_red, rb_black, IsRbTree}
use c_reusables.RbTree.Order.{IsOrder}
use c_reusables.RbTree.Insert.{insert, insert_fixup, insert_round, insert_red}
use c_reusables.RbTree.Remove.{remove, unlink, swap_with_successor}
use c_reusables.RbTree.Laws.{Represents, lookup_refines, insert_refines, remove_refines}
use c_reusables.RbTree.Verify.{verify, verify_iff}
use c_reusables.RbTree.Cursor.{Cursor, nowhere, current, tail, at, head, next, prev, place}
use c_reusables.RbTree.Cursor.Forward.{next_refines, first, traverse, walk, placed, advance}
use c_reusables.RbTree.Cursor.Backward.{prev_refines, retreat, ends_refine}
use c_reusables.RbTree.Fini.{fini_loop, fini_loop-to_list}
use c_reusables.RbTree.Depth.{size, on_path, stack_capacity, walk_fits}

compare-IsOrder : IsOrder compare
compare-IsOrder = record {
  gt_of_lt = λ a b e. ground arith;
  lt_of_gt = λ a b e. ground arith;
  eq_congr = λ a b c e. ground arith;
  lt_trans = λ a b c e f. ground arith;
}

abbrev three : Tree ℕ
three = node black (node red null 2 null) 4 (node red null 6 null)

three-IsRbTree : IsRbTree three
three-IsRbTree = (_, rb_black (rb_red rb_null rb_null) (rb_red rb_null rb_null))

three-Represents : Represents compare (2 ∷ 4 ∷ 6 ∷ []) three
unfolding to_list
three-Represents = record {
  balanced = three-IsRbTree;
  sorted = ((refl, (refl, tt)), ((refl, tt), (tt, tt)));
  contents = refl;
}

-- The new node is red below a red parent, whose sibling is red.
insert_run :
    insert compare 5 three
    ≡ some (ok, node black (node black null 2 null) 4 (node black (node red null 5 null) 6 null))
unfolding insert lookup_path insert_fixup insert_round insert_red is_red paint attach paint_frame
    paint_sibling
insert_run = refl

-- The node has two children, and its successor takes its place.
remove_run : remove compare 4 three ≡ some (some 4, node black (node red null 2 null) 6 null)
unfolding remove lookup_path unlink swap_with_successor plug
remove_run = refl

lookup_refines_example : lookup compare 6 three ≡ some 6
lookup_refines_example = lookup_refines compare compare-IsOrder 6 three-Represents

insert_refines_example :
    (r : Status × Tree ℕ) × (insert compare 5 three ≡ some r)
    × Represents compare (2 ∷ 4 ∷ 5 ∷ 6 ∷ []) r.1
    × (r.0 ≡ ok)
insert_refines_example = insert_refines compare compare-IsOrder 5 three-Represents

remove_refines_example :
    (r : Option ℕ × Tree ℕ) × (remove compare 4 three ≡ some r)
    × Represents compare (2 ∷ 6 ∷ []) r.1
    × (r.0 ≡ some 4)
remove_refines_example = remove_refines compare compare-IsOrder 4 three-Represents

verify_iff_example : (verify three ≡ ok) ↔ IsRbTree three
verify_iff_example = verify_iff three

abbrev at_two : Cursor ℕ
at_two = at red null 2 null (left_of black 4 (node red null 6 null) ∷ [])

next_refines_example : placed (next at_two) ≡ advance (place at_two)
next_refines_example = next_refines at_two

prev_refines_example : placed (prev at_two) ≡ retreat (place at_two)
prev_refines_example = prev_refines at_two

abbrev no_nodes : Tree ℕ
no_nodes = null

head_null_test : head no_nodes ≡ nowhere
unfolding head
head_null_test = refl

ends_refine_example :
    (current (head three) ≡ first (to_list three))
    × (place (head three) ≡ ([], to_list three))
    × ((current (tail three), place (tail three)) ≡ retreat (reverse (to_list three), []))
ends_refine_example = ends_refine black (node red null 2 null) 4 (node red null 6 null)

traverse_example : walk 3 (head three) ≡ to_list three
traverse_example = traverse 3 three (unfold to_list in omega arith)

walk_fits_example : on_path (lookup_path compare 7 three []) + 2 ≤ stack_capacity
walk_fits_example = walk_fits compare 7 three three-IsRbTree (unfold size in omega arith)

fini_loop-to_list_example : (fini_loop 4 three).0 ≡ to_list three × (fini_loop 4 three).1 ≡ null
unfolding to_list
fini_loop-to_list_example = fini_loop-to_list 4 three (omega arith)
