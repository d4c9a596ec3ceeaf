-- ===== src/Client/LinkedList/Tests.antt =====
-- Runs of a doubly linked list of numbers, and the theorems of the other modules at them.
use node_redis.Base.{arith, ℕ, ◌≡◌, refl, none, some, List, [], ◌∷◌}
use node_redis.Base.Sets.{includes}
use node_redis.Client.LinkedList.{Nodes, new_node, empty_list, remove, iterate, nodes_from}
use node_redis.Client.LinkedList.Contents.{
  Operation, pushed, unshifted, inserted, shifted, removed, meant, may, put_behind, take_out,
}
use node_redis.Client.LinkedList.Runs.{
  run_all, meant_all, may_all, new_contents, run_all_lem, remove_twice,
}

abbrev blank : Nodes ℕ
unfolding new_node
blank i = new_node 0 none none

abbrev operations : List (Operation ℕ)
operations =
    pushed 10
    ∷ pushed 20
    ∷ unshifted 5
    ∷ inserted 0 15
    ∷ removed 1
    ∷ shifted
    ∷ removed 2
    ∷ pushed 30
    ∷ []

run_all_lem_example :
    let d = (run_all operations (empty_list blank)).1 in
    ((run_all operations (empty_list blank)).0
      ≡ none ∷ none ∷ none ∷ none ∷ none ∷ some 5 ∷ none ∷ none ∷ [])
    × (iterate 7 d.head d.nodes ≡ 10 ∷ 15 ∷ 30 ∷ [])
    × (nodes_from 7 d.head d.nodes ≡ 0 ∷ 3 ∷ 4 ∷ [])
    × (d.length ≡ 3)
unfolding meant_all meant may_all may new_contents put_behind take_out includes
run_all_lem_example = run_all_lem blank operations 7 refl (omega arith)

remove_twice_example :
    let d = (run_all operations (empty_list blank)).1 in remove 3 (remove 3 d) ≡ remove 3 d
unfolding meant_all meant may_all may new_contents put_behind take_out includes
remove_twice_example = remove_twice blank operations 3 refl refl
