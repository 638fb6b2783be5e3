-- ===== src/Tests/LinkedList.antt =====
-- The linked lists at concrete inputs: the list 0 of the nodes 1 and 2.
use c_reusables.Prelude.{◌≡◌, [], ◌∷◌, arith}
use c_reusables.LinkedList.{
  Nodes, list_init, list_append, list_insert_after, list_insert_before, list_remove, list_head,
  list_tail, list_next, list_prev, walk_my_list, Queue, qlist_init, qlist_append,
  qlist_insert_after, qlist_remove,
}
use c_reusables.LinkedList.Double.{
  IsList, list_init-IsList, list_append-IsList, insertion-IsList, list_remove-IsList, walk-IsList,
}
use c_reusables.LinkedList.Single.{
  IsQueue, qlist_init-IsQueue, qlist_append-IsQueue, qlist_insert-IsQueue, qlist_remove-IsQueue,
}

abbrev two_nodes : Nodes
two_nodes = list_append 0 2 (list_append 0 1 (list_init 0 (record { p = λ _. 9; n = λ _. 9 })))

two_nodes-IsList : IsList 0 (1 ∷ 2 ∷ []) two_nodes
two_nodes-IsList =
    list_append-IsList 0 (1 ∷ []) 2
      (list_append 0 1 (list_init 0 (record { p = λ _. 9; n = λ _. 9 })))
      (list_append-IsList 0 [] 1 (list_init 0 (record { p = λ _. 9; n = λ _. 9 }))
        (list_init-IsList 0 (record { p = λ _. 9; n = λ _. 9 })) (omega arith, tt))
      (omega arith, (omega arith, tt))

insertion-IsList_example :
    IsList 0 (1 ∷ 3 ∷ 2 ∷ []) (list_insert_after 1 3 two_nodes)
    × IsList 0 (1 ∷ 3 ∷ 2 ∷ []) (list_insert_before 2 3 two_nodes)
insertion-IsList_example =
    insertion-IsList 0 (1 ∷ []) (2 ∷ []) 3 two_nodes two_nodes-IsList
      (omega arith, (omega arith, (omega arith, tt)))

list_remove-IsList_example : IsList 0 (2 ∷ []) (list_remove 1 two_nodes)
list_remove-IsList_example = list_remove-IsList 0 [] 1 (2 ∷ []) two_nodes two_nodes-IsList

walk-IsList_example :
    (walk_my_list 3 (λ q. list_next q two_nodes) 0 (list_head 0 two_nodes) ≡ 1 ∷ 2 ∷ [])
    × (walk_my_list 3 (λ q. list_prev q two_nodes) 0 (list_tail 0 two_nodes) ≡ 2 ∷ 1 ∷ [])
walk-IsList_example = walk-IsList 3 0 (1 ∷ 2 ∷ []) two_nodes two_nodes-IsList (omega arith)

abbrev two_queued : Queue
two_queued = qlist_append 0 2 (qlist_append 0 1 (qlist_init 0 (record { n = λ _. 9; tail = 9 })))

one_queued-IsQueue :
    IsQueue 0 (1 ∷ []) (qlist_append 0 1 (qlist_init 0 (record { n = λ _. 9; tail = 9 })))
one_queued-IsQueue =
    qlist_append-IsQueue 0 [] 1 (qlist_init 0 (record { n = λ _. 9; tail = 9 }))
      (qlist_init-IsQueue 0 (record { n = λ _. 9; tail = 9 })) (omega arith, tt)

two_queued-IsQueue : IsQueue 0 (1 ∷ 2 ∷ []) two_queued
two_queued-IsQueue =
    qlist_append-IsQueue 0 (1 ∷ []) 2
      (qlist_append 0 1 (qlist_init 0 (record { n = λ _. 9; tail = 9 }))) one_queued-IsQueue
      (omega arith, (omega arith, tt))

qlist_insert-IsQueue_example :
    IsQueue 0 (1 ∷ 3 ∷ 2 ∷ []) (qlist_insert_after 1 3 two_queued)
    × IsQueue 0 (1 ∷ 2 ∷ 3 ∷ []) (qlist_append 0 3 two_queued)
qlist_insert-IsQueue_example =
    qlist_insert-IsQueue 0 (1 ∷ []) (2 ∷ []) 3 two_queued two_queued-IsQueue
      (omega arith, (omega arith, (omega arith, tt)))

qlist_remove-IsQueue_example : IsQueue 0 (1 ∷ []) (qlist_remove 1 2 two_queued)
qlist_remove-IsQueue_example = qlist_remove-IsQueue 0 (1 ∷ []) 2 [] two_queued two_queued-IsQueue
