-- ===== src/Client/LinkedList/Singly/Tests.antt =====
-- A singly linked list of two numbers.
use node_redis.Base.{ℕ, ◌≡◌, refl, false, none, some, [], ◌∷◌, arith}
use node_redis.Base.Sets.{includes}
use node_redis.Client.LinkedList.Segment.{Distinct}
use node_redis.Client.LinkedList.Singly.{SinglyLinkedList, push, remove}
use node_redis.Client.LinkedList.Singly.Chain.{Linked, IsList}
use node_redis.Client.LinkedList.Singly.Runs.{Leads, run-Leads}
use node_redis.Client.LinkedList.Contents.{Contents}
use node_redis.Client.LinkedList.Singly.Meant.{
  pushed, shifted, removed, shifted_value, finished, run, may, meant, Represents,
}

abbrev no_nodes : SinglyLinkedList ℕ
no_nodes = record {
  nodes = λ i. record { value = 0; next = none; removed = false };
  made = 0;
  length = 0;
  head = none;
  tail = none;
}

no_nodes-IsList : IsList no_nodes [] []
unfolding Linked Distinct includes
no_nodes-IsList = record {
  linked = tt;
  distinct = tt;
  below = λ i m. absurd (cc);
  length = refl;
  head = refl;
  tail = refl;
  present = λ i m. absurd (cc);
  absent = λ i out free lt. absurd (omega arith);
}

no_nodes-Represents : Represents no_nodes (record { made = 0; items = []; released = [] })
no_nodes-Represents = record { list = no_nodes-IsList; made = refl; held = tt }

abbrev two_nodes : SinglyLinkedList ℕ
unfolding run push
two_nodes = (run (pushed 8) (run (pushed 7) no_nodes).1).1

abbrev two_values : Contents ℕ
two_values = record { made = 2; items = (0, 7) ∷ (1, 8) ∷ []; released = [] }

two_nodes-Represents : Represents two_nodes two_values
unfolding two_nodes run push may meant
two_nodes-Represents =
    (run-Leads (pushed 8) (run (pushed 7) no_nodes).1
      (record { made = 1; items = (0, 7) ∷ []; released = [] })
      (run-Leads (pushed 7) no_nodes (record { made = 0; items = []; released = [] })
        no_nodes-Represents refl).after
      refl).after

run-Leads_example :
    Leads two_nodes two_values
      (run shifted two_nodes)
      (shifted_value (some 7), record { made = 2; items = (1, 8) ∷ []; released = [] })
unfolding two_nodes run push may meant
run-Leads_example = run-Leads shifted two_nodes two_values two_nodes-Represents refl

last_removed : (run (removed 1 (some 0)) two_nodes).0 ≡ finished
unfolding two_nodes run push remove
last_removed = refl
