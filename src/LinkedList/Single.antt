-- ===== src/LinkedList/Single.antt =====
-- data/list.h: the singly linked lists, without and with a tail, stand for a sequence of nodes.
use c_reusables.Prelude.{
  ℕ, ◌≡◌, ◌≤◌, ◌+◌, refl, sym, ◌∙◌, ap, subst, true, List, [], ◌∷◌, ◌++◌, append-nil, append_assoc,
  length, drop, ◌==◌, if◌then◌else◌, ◌↔◌, arith,
}
use c_reusables.LinkedList.{
  slist_init, slist_is_empty, slist_head, slist_next, slist_insert_after, slist_remove,
  slist_remove_head, Queue, qlist_init, qlist_is_empty, qlist_head, qlist_tail, qlist_next,
  qlist_insert_after, qlist_append, qlist_remove, qlist_remove_head, walk_my_list,
}
use c_reusables.LinkedList.Chain.{
  Chain, Avoids, Distinct, last_of, update_self, Chain-first, Chain-insert, Chain-remove,
  Distinct-insert, Distinct-remove, last_of-append, last_of-snoc, last_of_ne, walk-Chain,
  empty-Chain,
}

pub record IsSlist (list : ℕ) (xs : List ℕ) (n : ℕ → ℕ) : Type 0 where
  pub chain : Chain n list xs list
  pub distinct : Distinct (list ∷ xs)

pub record IsQueue (list : ℕ) (xs : List ℕ) (s : Queue) : Type 0 where
  pub chain : IsSlist list xs s.n
  pub tail : s.tail ≡ last_of list xs

pub slist_init-IsSlist : (list : ℕ) (n : ℕ → ℕ) → IsSlist list [] (slist_init list n)
unfolding slist_init
slist_init-IsSlist list n = record { chain = update_self n list list; distinct = (tt, tt) }

pub slist_insert_after-IsSlist :
    (list : ℕ) (xs ys : List ℕ) (node : ℕ) (n : ℕ → ℕ)
    → IsSlist list (xs ++ ys) n
    → Avoids node (list ∷ (xs ++ ys))
    → IsSlist list (xs ++ (node ∷ ys)) (slist_insert_after (last_of list xs) node n)
unfolding slist_insert_after
slist_insert_after-IsSlist list xs ys node n v h = record {
  chain = Chain-insert n list xs ys list node v.chain v.distinct h;
  distinct = Distinct-insert (list ∷ xs) ys node v.distinct h;
}

pub slist_remove-IsSlist :
    (list : ℕ) (xs : List ℕ) (node : ℕ) (ys : List ℕ) (n : ℕ → ℕ)
    → IsSlist list (xs ++ (node ∷ ys)) n
    → IsSlist list (xs ++ ys) (slist_remove (last_of list xs) node n)
unfolding slist_remove
slist_remove-IsSlist list xs node ys n v = record {
  chain = Chain-remove n list xs node ys list v.chain v.distinct;
  distinct = Distinct-remove (list ∷ xs) node ys v.distinct;
}

-- Removing the head, also of the empty list.
pub slist_remove_head-IsSlist :
    (list : ℕ) (xs : List ℕ) (n : ℕ → ℕ)
    → IsSlist list xs n
    → IsSlist list (drop 1 xs) (slist_remove_head list n)
unfolding slist_remove_head slist_remove
slist_remove_head-IsSlist list [] n v = record {
  chain = ground (arith, v.chain);
  distinct = (tt, tt);
}
slist_remove_head-IsSlist list (node ∷ xs) n v =
    subst (λ x. IsSlist list xs (slist_remove list x n)) (sym (v.chain.0))
      (slist_remove-IsSlist list [] node xs n v)

pub qlist_init-IsQueue : (list : ℕ) (s : Queue) → IsQueue list [] (qlist_init list s)
unfolding qlist_init
qlist_init-IsQueue list s = record {
  chain = record { chain = update_self s.n list list; distinct = (tt, tt) };
  tail = refl;
}

pub qlist_insert_after-IsQueue :
    (list : ℕ) (xs ys : List ℕ) (node : ℕ) (s : Queue)
    → IsQueue list (xs ++ ys) s
    → Avoids node (list ∷ (xs ++ ys))
    → IsQueue list (xs ++ (node ∷ ys)) (qlist_insert_after (last_of list xs) node s)
unfolding qlist_insert_after slist_insert_after
qlist_insert_after-IsQueue list xs ys node s v h = record {
  chain = slist_insert_after-IsSlist list xs ys node s.n v.chain h;
  tail = rw (last_of-append list xs (node ∷ ys)) (tail_after ys v);
}
  where
    tail_after :
        (ys : List ℕ)
        → IsQueue list (xs ++ ys) s
        → (if s.tail == last_of list xs then node else s.tail) ≡ last_of node ys
    tail_after [] v = let e = v.tail ∙ ap (last_of list) (append-nil xs) in ground (arith, e)
    tail_after (y ∷ ys) v =
        let e = v.tail ∙ last_of-append list xs (y ∷ ys) in
        let ne = last_of_ne list xs y ys v.chain.distinct in ground (arith, e, ne)

pub qlist_append-IsQueue :
    (list : ℕ) (xs : List ℕ) (node : ℕ) (s : Queue)
    → IsQueue list xs s
    → Avoids node (list ∷ xs)
    → IsQueue list (xs ++ (node ∷ [])) (qlist_append list node s)
unfolding qlist_append slist_insert_after
qlist_append-IsQueue list xs node s v h = record {
  chain = rw (v.tail) (
      rw (Chain-first s.n list xs [] list (rw (append-nil xs) v.chain.chain)) at (
        slist_insert_after-IsSlist list xs [] node s.n (rw (append-nil xs) v.chain)
          (rw (append-nil xs) h)));
  tail = sym (last_of-append list xs (node ∷ []));
}

-- In a singly linked list with a tail, linking in a node that is none of its nodes, behind one of
-- them or the list's own, puts it there in the order, and `qlist_append` puts it behind all of
-- them; the tail is the last node then.
pub qlist_insert-IsQueue :
    (list : ℕ) (xs ys : List ℕ) (node : ℕ) (s : Queue)
    → IsQueue list (xs ++ ys) s
    → Avoids node (list ∷ (xs ++ ys))
    → IsQueue list (xs ++ (node ∷ ys)) (qlist_insert_after (last_of list xs) node s)
      × IsQueue list ((xs ++ ys) ++ (node ∷ [])) (qlist_append list node s)
qlist_insert-IsQueue list xs ys node s v h = (
  qlist_insert_after-IsQueue list xs ys node s v h,
  qlist_append-IsQueue list (xs ++ ys) node s v h,
)

-- Disconnecting a node, given the node before it, takes it, and only it, out of the order, and the
-- tail still is the last node, or the list's own if none is left.
pub qlist_remove-IsQueue :
    (list : ℕ) (xs : List ℕ) (node : ℕ) (ys : List ℕ) (s : Queue)
    → IsQueue list (xs ++ (node ∷ ys)) s
    → IsQueue list (xs ++ ys) (qlist_remove (last_of list xs) node s)
unfolding qlist_remove slist_remove
qlist_remove-IsQueue list xs node ys s v = record {
  chain = slist_remove-IsSlist list xs node ys s.n v.chain;
  tail = rw (last_of-append list xs ys) (tail_after ys v);
}
  where
    tail_after :
        (ys : List ℕ)
        → IsQueue list (xs ++ (node ∷ ys)) s
        → (if s.tail == node then last_of list xs else s.tail) ≡ last_of (last_of list xs) ys
    tail_after [] v = let e = v.tail ∙ last_of-append list xs (node ∷ []) in ground (arith, e)
    tail_after (y ∷ ys) v =
        let e = v.tail ∙ last_of-append list xs (node ∷ y ∷ ys) in
        let ne = rw (last_of-snoc list xs node) at (
          last_of_ne list (xs ++ (node ∷ [])) y ys
            (rw (append_assoc xs (node ∷ []) (y ∷ ys)) v.chain.distinct)) in
        ground (arith, e, ne)

-- Removing the head, also of the empty list.
pub qlist_remove_head-IsQueue :
    (list : ℕ) (xs : List ℕ) (s : Queue)
    → IsQueue list xs s
    → IsQueue list (drop 1 xs) (qlist_remove_head list s)
unfolding qlist_remove_head qlist_remove
qlist_remove_head-IsQueue list [] s v = record {
  chain = record { chain = ground (arith, v.chain.chain); distinct = (tt, tt) };
  tail = ground (arith, v.tail, v.chain.chain);
}
qlist_remove_head-IsQueue list (node ∷ xs) s v =
    subst (λ x. IsQueue list xs (qlist_remove list x s)) (sym (v.chain.chain.0))
      (qlist_remove-IsQueue list [] node xs s v)

pub walk-IsSlist :
    (fuel list : ℕ) (xs : List ℕ) (n : ℕ → ℕ)
    → IsSlist list xs n
    → length xs + 1 ≤ fuel
    → (walk_my_list fuel (λ q. slist_next q n) list (slist_head list n) ≡ xs)
      × ((slist_is_empty list n ≡ true) ↔ (xs ≡ []))
unfolding slist_next slist_head slist_is_empty
walk-IsSlist fuel list xs n v enough = (
  walk-Chain fuel n list list xs v.chain v.distinct.0 enough,
  empty-Chain n list xs v.chain v.distinct.0,
)

pub walk-IsQueue :
    (fuel list : ℕ) (xs : List ℕ) (s : Queue)
    → IsQueue list xs s
    → length xs + 1 ≤ fuel
    → (walk_my_list fuel (λ q. qlist_next q s) list (qlist_head list s) ≡ xs)
      × (qlist_tail s ≡ last_of list xs)
      × ((qlist_is_empty list s ≡ true) ↔ (xs ≡ []))
unfolding qlist_next qlist_head qlist_is_empty qlist_tail
walk-IsQueue fuel list xs s v enough = (
  walk-Chain fuel s.n list list xs v.chain.chain v.chain.distinct.0 enough,
  v.tail,
  empty-Chain s.n list xs v.chain.chain v.chain.distinct.0,
)
