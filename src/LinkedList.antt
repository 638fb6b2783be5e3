-- ===== src/LinkedList.antt =====
-- data/list.h: the three intrusive linked lists.
--
-- The node structures live in a store: a pointer is a number, and each field is a function from
-- pointers. A list is the pointer to its `main` structure, which also is `list_end`. `list_remove`
-- and the other inserting functions get the list but do not look at it.
pub mod Chain
pub mod Double
pub mod Single
use c_reusables.Prelude.{ℕ, zero, suc, Bool, List, [], ◌∷◌, ◌==◌, if◌then◌else◌}

-- A write through a pointer.
abbrev pub update : (ℕ → ℕ) → ℕ → ℕ → ℕ → ℕ
update f at v q = if at == q then v else f q

-- The nodes of doubly linked lists: `p` and `n`.
pub record Nodes : Type 0 where
  pub p : ℕ → ℕ
  pub n : ℕ → ℕ

abbrev pub set_p : ℕ → ℕ → Nodes → Nodes
set_p node v s = record s { p = update s.p node v }

abbrev pub set_n : ℕ → ℕ → Nodes → Nodes
set_n node v s = record s { n = update s.n node v }

unfoldable pub list_init : ℕ → Nodes → Nodes
list_init list s = set_p list list (set_n list list s)

unfoldable pub list_is_empty : ℕ → Nodes → Bool
list_is_empty list s = s.n list == list

unfoldable pub list_head : ℕ → Nodes → ℕ
list_head list s = s.n list

unfoldable pub list_tail : ℕ → Nodes → ℕ
list_tail list s = s.p list

unfoldable pub list_prev : ℕ → Nodes → ℕ
list_prev node s = s.p node

unfoldable pub list_next : ℕ → Nodes → ℕ
list_next node s = s.n node

abbrev pub list_end : ℕ → ℕ
list_end list = list

unfoldable pub list_insert_after : ℕ → ℕ → Nodes → Nodes
list_insert_after node_where node s =
    let s1 = set_p node node_where s in
    let s2 = set_n node (s1.n node_where) s1 in
    let s3 = set_n node_where node s2 in set_p (s3.n node) node s3

unfoldable pub list_insert_before : ℕ → ℕ → Nodes → Nodes
list_insert_before node_where node s =
    let s1 = set_p node (s.p node_where) s in
    let s2 = set_n node node_where s1 in
    let s3 = set_p node_where node s2 in set_n (s3.p node) node s3

unfoldable pub list_append : ℕ → ℕ → Nodes → Nodes
unfolding list_insert_before
list_append list node s = list_insert_before list node s

unfoldable pub list_prepend : ℕ → ℕ → Nodes → Nodes
unfolding list_insert_after
list_prepend list node s = list_insert_after list node s

unfoldable pub list_remove : ℕ → Nodes → Nodes
list_remove node s = let s1 = set_n (s.p node) (s.n node) s in set_p (s1.n node) (s1.p node) s1

unfoldable pub list_remove_head : ℕ → Nodes → Nodes
unfolding list_remove
list_remove_head list s = list_remove (s.n list) s

unfoldable pub list_remove_tail : ℕ → Nodes → Nodes
unfolding list_remove
list_remove_tail list s = list_remove (s.p list) s

-- The loop of the header's example from a node, by `next`, until `list_end`; with fuel. The nodes
-- that it processes.
unfoldable pub walk_my_list : ℕ → (ℕ → ℕ) → ℕ → ℕ → List ℕ
walk_my_list zero next list node = []
walk_my_list (suc fuel) next list node =
    let rest = walk_my_list fuel next list (next node) in
    if node == list_end list then [] else node ∷ rest

-- Singly linked lists: the store of the `n` fields.
unfoldable pub slist_init : ℕ → (ℕ → ℕ) → ℕ → ℕ
slist_init list n = update n list list

unfoldable pub slist_is_empty : ℕ → (ℕ → ℕ) → Bool
slist_is_empty list n = n list == list

unfoldable pub slist_head : ℕ → (ℕ → ℕ) → ℕ
slist_head list n = n list

unfoldable pub slist_next : ℕ → (ℕ → ℕ) → ℕ
slist_next node n = n node

unfoldable pub slist_insert_after : ℕ → ℕ → (ℕ → ℕ) → ℕ → ℕ
slist_insert_after node_where node n =
    let n1 = update n node (n node_where) in update n1 node_where node

unfoldable pub slist_prepend : ℕ → ℕ → (ℕ → ℕ) → ℕ → ℕ
unfolding slist_insert_after
slist_prepend list node n = slist_insert_after list node n

unfoldable pub slist_remove : ℕ → ℕ → (ℕ → ℕ) → ℕ → ℕ
slist_remove node_prev node n = update n node_prev (n node)

unfoldable pub slist_remove_head : ℕ → (ℕ → ℕ) → ℕ → ℕ
unfolding slist_remove
slist_remove_head list n = slist_remove list (n list) n

-- Singly linked lists with their tail: the store, and the `tail` field of the one list.
pub record Queue : Type 0 where
  pub n : ℕ → ℕ
  pub tail : ℕ

unfoldable pub qlist_init : ℕ → Queue → Queue
qlist_init list s = record { n = update s.n list list; tail = list }

unfoldable pub qlist_is_empty : ℕ → Queue → Bool
qlist_is_empty list s = s.n list == list

unfoldable pub qlist_head : ℕ → Queue → ℕ
qlist_head list s = s.n list

unfoldable pub qlist_tail : Queue → ℕ
qlist_tail s = s.tail

unfoldable pub qlist_next : ℕ → Queue → ℕ
qlist_next node s = s.n node

unfoldable pub qlist_insert_after : ℕ → ℕ → Queue → Queue
qlist_insert_after node_where node s = record {
  n = update (update s.n node (s.n node_where)) node_where node;
  tail = if s.tail == node_where then node else s.tail;
}

unfoldable pub qlist_append : ℕ → ℕ → Queue → Queue
qlist_append list node s = record { n = update (update s.n node list) s.tail node; tail = node }

unfoldable pub qlist_prepend : ℕ → ℕ → Queue → Queue
unfolding qlist_insert_after
qlist_prepend list node s = qlist_insert_after list node s

unfoldable pub qlist_remove : ℕ → ℕ → Queue → Queue
qlist_remove node_prev node s = record {
  n = update s.n node_prev (s.n node);
  tail = if s.tail == node then node_prev else s.tail;
}

unfoldable pub qlist_remove_head : ℕ → Queue → Queue
unfolding qlist_remove
qlist_remove_head list s = qlist_remove list (s.n list) s
