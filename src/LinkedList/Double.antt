-- ===== src/LinkedList/Double.antt =====
-- data/list.h: the doubly linked list stands for a sequence of nodes.
use c_reusables.Prelude.{
  ℕ, ◌≡◌, ◌≤◌, ◌+◌, refl, sym, ◌∙◌, ap, subst, true, List, [], ◌∷◌, ◌++◌, reverse, reverse-append,
  append-nil, length, drop, ◌↔◌, length-reverse, arith,
}
use c_reusables.LinkedList.{
  update, Nodes, list_init, list_is_empty, list_head, list_tail, list_insert_after,
  list_insert_before, list_append, list_prepend, list_remove, list_remove_head, list_remove_tail,
  list_next, list_prev, walk_my_list,
}
use c_reusables.LinkedList.Chain.{
  Chain, Avoids, Distinct, last_of, first_of, update_self, update_ne, Avoids-last, Avoids-first,
  Chain-next, Chain-first, Chain-insert, Chain-remove, Avoids-reverse, Distinct-reverse,
  Distinct-insert, Distinct-remove, Distinct-remove, last_of-reverse, last_of-snoc,
  first_of-reverse, reverse_around, walk-Chain, empty-Chain,
}

-- Forward from the list through `xs` and back to it, backward the same in reverse.
pub record IsList (list : ℕ) (xs : List ℕ) (s : Nodes) : Type 0 where
  pub forward : Chain s.n list xs list
  pub backward : Chain s.p list (reverse xs) list
  pub distinct : Distinct (list ∷ xs)

pub list_init-IsList : (list : ℕ) (s : Nodes) → IsList list [] (list_init list s)
unfolding list_init
list_init-IsList list s = record {
  forward = update_self s.n list list;
  backward = update_self s.p list list;
  distinct = (tt, tt);
}

-- Between two nodes that follow each other, `w` and `y`, that the code reads in two places each.
insert_between :
    (list : ℕ) (xs ys : List ℕ) (node : ℕ) (s : Nodes)
    → IsList list (xs ++ ys) s
    → Avoids node (list ∷ (xs ++ ys))
    → (w w' y y' : ℕ) → w ≡ last_of list xs
    → w' ≡ last_of list xs
    → y ≡ first_of ys list
    → y' ≡ first_of ys list
    → IsList list
        (xs ++ (node ∷ ys))
        (record { p = update (update s.p node w') y' node; n = update (update s.n node y) w node })
insert_between list xs ys node s v h w w' y y' ew ew' ey ey' = record {
  forward =
      rw (ew, ey ∙ sym (Chain-first s.n list xs ys list v.forward))
        (Chain-insert s.n list xs ys list node v.forward v.distinct h);
  backward =
      rw
        (
          reverse_around xs node ys,
          ey' ∙ sym (last_of-reverse list ys),
          ew'
              ∙ sym (first_of-reverse list xs)
              ∙ sym (Chain-first s.p list (reverse ys) (reverse xs) list back),
        )
        (Chain-insert s.p list (reverse ys) (reverse xs) list node back
          (
            rw (reverse-append xs ys) at (Avoids-reverse list (xs ++ ys) v.distinct.0),
            rw (reverse-append xs ys) at (Distinct-reverse (xs ++ ys) v.distinct.1),
          )
          (h.0, rw (reverse-append xs ys) at (Avoids-reverse node (xs ++ ys) h.1)));
  distinct = Distinct-insert (list ∷ xs) ys node v.distinct h;
}
  where
    back : Chain s.p list (reverse ys ++ reverse xs) list
    back = rw (reverse-append xs ys) at v.backward

-- What the list leads to backward from the node behind a part of it.
Chain-last :
    (list : ℕ) (xs ys : List ℕ) (s : Nodes)
    → IsList list (xs ++ ys) s
    → s.p (first_of ys list) ≡ last_of list xs
Chain-last list xs ys s v =
    ap s.p (sym (last_of-reverse list ys))
    ∙ Chain-first s.p list (reverse ys) (reverse xs) list (rw (reverse-append xs ys) at v.backward)
    ∙ first_of-reverse list xs

list_insert_after-IsList :
    (list : ℕ) (xs ys : List ℕ) (node : ℕ) (s : Nodes)
    → IsList list (xs ++ ys) s
    → Avoids node (list ∷ (xs ++ ys))
    → IsList list (xs ++ (node ∷ ys)) (list_insert_after (last_of list xs) node s)
unfolding list_insert_after
list_insert_after-IsList list xs ys node s v h =
    let w = last_of list xs in
    let next = Chain-first s.n list xs ys list v.forward in
    insert_between list xs ys node s v h w w (s.n w) _ refl refl next (
      update_ne (update s.n node (s.n w)) w node node (λ e. Avoids-last node list xs ys h (sym e))
      ∙ update_self s.n node (s.n w)
      ∙ next)

list_insert_before-IsList :
    (list : ℕ) (xs ys : List ℕ) (node : ℕ) (s : Nodes)
    → IsList list (xs ++ ys) s
    → Avoids node (list ∷ (xs ++ ys))
    → IsList list (xs ++ (node ∷ ys)) (list_insert_before (first_of ys list) node s)
unfolding list_insert_before
list_insert_before-IsList list xs ys node s v h =
    let y = first_of ys list in
    let previous = Chain-last list xs ys s v in
    insert_between list xs ys node s v h _ (s.p y) y y
      (update_ne (update s.p node (s.p y)) y node node (λ e. Avoids-first node list xs ys h (sym e))
        ∙ update_self s.p node (s.p y)
        ∙ previous)
      previous refl refl

-- Linking a node into a list of which it is none, behind a node of the list or before one, or at
-- the ends, by the list's own node, puts it there in the order, forward and backward.
pub insertion-IsList :
    (list : ℕ) (xs ys : List ℕ) (node : ℕ) (s : Nodes)
    → IsList list (xs ++ ys) s
    → Avoids node (list ∷ (xs ++ ys))
    → IsList list (xs ++ (node ∷ ys)) (list_insert_after (last_of list xs) node s)
      × IsList list (xs ++ (node ∷ ys)) (list_insert_before (first_of ys list) node s)
insertion-IsList list xs ys node s v h = (
  list_insert_after-IsList list xs ys node s v h,
  list_insert_before-IsList list xs ys node s v h,
)

pub list_prepend-IsList :
    (list : ℕ) (xs : List ℕ) (node : ℕ) (s : Nodes)
    → IsList list xs s
    → Avoids node (list ∷ xs)
    → IsList list (node ∷ xs) (list_prepend list node s)
unfolding list_prepend
list_prepend-IsList list xs node s v h = list_insert_after-IsList list [] xs node s v h

pub list_append-IsList :
    (list : ℕ) (xs : List ℕ) (node : ℕ) (s : Nodes)
    → IsList list xs s
    → Avoids node (list ∷ xs)
    → IsList list (xs ++ (node ∷ [])) (list_append list node s)
unfolding list_append
list_append-IsList list xs node s v h =
    list_insert_before-IsList list xs [] node s (rw (append-nil xs) v) (rw (append-nil xs) h)

-- Disconnecting a node of a list takes it, and only it, out of the order, forward and backward.
pub list_remove-IsList :
    (list : ℕ) (xs : List ℕ) (node : ℕ) (ys : List ℕ) (s : Nodes)
    → IsList list (xs ++ (node ∷ ys)) s
    → IsList list (xs ++ ys) (list_remove node s)
unfolding list_remove
list_remove-IsList list xs node ys s v =
    let back : Chain s.p list (reverse ys ++ (node ∷ reverse xs)) list =
      rw (reverse_around xs node ys) at v.backward in
    let previous = Chain-last list xs (node ∷ ys) s v in
    let next = Chain-next s.n list xs node ys list v.forward in
    let same : update s.n (s.p node) (s.n node) node ≡ s.n node = ground arith in
    record {
      forward = rw previous (Chain-remove s.n list xs node ys list v.forward v.distinct);
      backward =
          rw (same, next ∙ sym (last_of-reverse list ys), reverse-append xs ys)
            (Chain-remove s.p list (reverse ys) node (reverse xs) list back (
              rw (reverse_around xs node ys) at
                  (Avoids-reverse list (xs ++ (node ∷ ys)) v.distinct.0),
              rw (reverse_around xs node ys) at (Distinct-reverse (xs ++ (node ∷ ys)) v.distinct.1),
            ));
      distinct = Distinct-remove (list ∷ xs) node ys v.distinct;
    }

-- Removing the head, also of the empty list, which stays as it is.
pub list_remove_head-IsList :
    (list : ℕ) (xs : List ℕ) (s : Nodes)
    → IsList list xs s
    → IsList list (drop 1 xs) (list_remove_head list s)
unfolding list_remove_head list_remove
list_remove_head-IsList list [] s v = record {
  forward = ground (arith, v.forward);
  backward = ground (arith, v.forward, v.backward);
  distinct = (tt, tt);
}
list_remove_head-IsList list (node ∷ xs) s v =
    subst (λ x. IsList list xs (list_remove x s)) (sym (v.forward.0))
      (list_remove-IsList list [] node xs s v)

pub list_remove_tail-IsList :
    (list : ℕ) (xs : List ℕ) (node : ℕ) (s : Nodes)
    → IsList list (xs ++ (node ∷ [])) s
    → IsList list xs (list_remove_tail list s)
unfolding list_remove_tail
list_remove_tail-IsList list xs node s v =
    let last : s.p list ≡ node =
      Chain-last list (xs ++ (node ∷ [])) [] s (rw (append-nil (xs ++ (node ∷ []))) v)
      ∙ last_of-snoc list xs node in
    subst (λ x. IsList list xs (list_remove x s)) (sym last)
      (rw (append-nil xs) at (list_remove-IsList list xs node [] s v))

-- A list is empty exactly if `list_is_empty` says so.
pub list_is_empty-IsList :
    (list : ℕ) (xs : List ℕ) (s : Nodes)
    → IsList list xs s
    → (list_is_empty list s ≡ true) ↔ (xs ≡ [])
unfolding list_is_empty
list_is_empty-IsList list xs s v = empty-Chain s.n list xs v.forward v.distinct.0

-- The loop from the head by `list_next` visits the nodes of a list in their order and ends, and the
-- loop from the tail by `list_prev` visits them in reverse, with fuel for one test more than nodes.
pub walk-IsList :
    (fuel list : ℕ) (xs : List ℕ) (s : Nodes)
    → IsList list xs s
    → length xs + 1 ≤ fuel
    → (walk_my_list fuel (λ q. list_next q s) list (list_head list s) ≡ xs)
      × (walk_my_list fuel (λ q. list_prev q s) list (list_tail list s) ≡ reverse xs)
unfolding list_head list_tail list_next list_prev
walk-IsList fuel list xs s v enough = (
  walk-Chain fuel s.n list list xs v.forward v.distinct.0 enough,
  walk-Chain fuel s.p list list (reverse xs) v.backward (Avoids-reverse list xs v.distinct.0)
      (omega (arith, length-reverse xs)),
)
