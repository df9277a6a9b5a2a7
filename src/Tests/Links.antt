-- ===== src/Tests/Links.antt =====
-- A list with the head 1 and the nodes 2 and 3.
use mos_moody_hunter.Base.{
  ℕ, ◌+◌, ◌≡◌, ◌↔◌, refl, Returns, Bool, true, List, [], ◌∷◌, ◌++◌, length, ◌==◌, arith,
}
use mos_moody_hunter.LinkedList.{
  Heap, set_prev, set_next, linked_list_init, list_is_empty, list_node_remove, list_node_insert,
  list_node_pop, list_node_prepend, list_node_append, list_node_insert_before,
  list_node_insert_after, list_node_foreach,
}
use mos_moody_hunter.LinkedList.Chain.{Holds, linked_list_init-Holds, list_is_empty_iff}
use mos_moody_hunter.LinkedList.Insert.{prepend_append-Holds, insert_before_after-Holds}
use mos_moody_hunter.LinkedList.Remove.{list_node_remove-Holds}
use mos_moody_hunter.LinkedList.Loop.{note_and_remove, kept, list_node_foreach-Holds}

-- Every node is a list of its own.
abbrev apart : Heap
apart = record { prev = λ k. k; next = λ k. k }

abbrev two_nodes : Heap
two_nodes = list_node_append (list_node_append apart 1 2) 1 3

abbrev nodes : List ℕ
nodes = 2 ∷ 3 ∷ []

abbrev is_two : ℕ → Bool
is_two k = k == 2

two_nodes-Holds : Holds two_nodes 1 nodes
unfolding list_node_append list_node_insert set_prev set_next
two_nodes-Holds = record {
  linked = (refl, refl, (refl, refl, (refl, refl)));
  distinct = ((λ e. omega (arith, e), tt), (tt, tt));
  apart = (λ e. omega (arith, e), (λ e. omega (arith, e), tt));
}

list_node_pop-two_nodes : (list_node_pop two_nodes 1).0 ≡ 2
unfolding list_node_pop list_node_append list_node_insert set_prev set_next
list_node_pop-two_nodes = refl

linked_list_init_example : Holds (linked_list_init two_nodes 9) 9 []
linked_list_init_example = linked_list_init-Holds two_nodes 9

list_is_empty_example : (list_is_empty two_nodes 1 ≡ true) ↔ (nodes ≡ [])
list_is_empty_example = list_is_empty_iff two_nodes 1 nodes two_nodes-Holds

prepend_append_example :
    Holds (list_node_prepend two_nodes 1 4) 1 (4 ∷ 2 ∷ 3 ∷ [])
    × Holds (list_node_append two_nodes 1 4) 1 (nodes ++ 4 ∷ [])
prepend_append_example =
    prepend_append-Holds two_nodes 1 4 nodes two_nodes-Holds (λ e. omega (arith, e))
      (λ e. omega (arith, e), (λ e. omega (arith, e), tt))

insert_before_after_example :
    Holds (list_node_insert_before two_nodes 3 4) 1 ((2 ∷ []) ++ 4 ∷ 3 ∷ [])
    × Holds (list_node_insert_after two_nodes 3 4) 1 ((2 ∷ []) ++ 3 ∷ 4 ∷ [])
insert_before_after_example =
    insert_before_after-Holds two_nodes 1 4 3 (2 ∷ []) [] two_nodes-Holds (λ e. omega (arith, e))
      (λ e. omega (arith, e), (λ e. omega (arith, e), tt))

list_node_remove_example :
    Holds (list_node_remove two_nodes 2) 1 ([] ++ 3 ∷ [])
    × Holds (list_node_remove two_nodes 2) 2 []
list_node_remove_example = list_node_remove-Holds two_nodes 1 2 [] (3 ∷ []) two_nodes-Holds

list_node_foreach_example :
    Returns
      (list_node_foreach (length nodes + 1) 1 (note_and_remove is_two) two_nodes [])
      (λ r. (r.1 ≡ nodes) × Holds r.0 1 (kept is_two nodes))
list_node_foreach_example = list_node_foreach-Holds is_two two_nodes 1 nodes two_nodes-Holds
