-- ===== src/Client/LinkedList/Runs.antt =====
-- Whole runs of a doubly linked list, from a new one.
use node_redis.Base.{
  ◌≤◌, ℕ, suc, ◌<◌, ◌≡◌, refl, subst, ap, ◌∙◌, ==_iff, Bool, true, false, not, ◌&&◌, ltb, ltb→lt,
  ◌==◌, Option, none, List, [], ◌∷◌, map, arith, length, Bool-cases, inl, inr,
}
use node_redis.Base.Sets.{includes}
use node_redis.Client.LinkedList.{Nodes, DoublyLinkedList, empty_list, remove, iterate, nodes_from}
use node_redis.Client.LinkedList.Segment.{last, Distinct, Linked}
use node_redis.Client.LinkedList.Remove.{remove-Loose}
use node_redis.Client.LinkedList.Values.{iterate_lem, nodes_from_lem}
use node_redis.Client.LinkedList.Contents.{
  Operation, removed, Contents, ids, run, take_out, meant, may, Represents, Held,
}
use node_redis.Client.LinkedList.Refinement.{Related, step_lem}

module _ {A : Type 0} where
  length-ids : (xs : List (ℕ × A)) → length (ids xs) ≡ length xs
  length-ids [] = refl
  length-ids (x ∷ xs) = ap suc (length-ids xs)

  Held-values :
      (d : DoublyLinkedList A) (xs : List (ℕ × A))
      → Held d xs
      → map (λ i. (d.nodes i).value) (ids xs) ≡ map (λ x. x.1) xs
  Held-values d [] h = refl
  Held-values d (x ∷ xs) h = rw (h.0, Held-values d xs h.1) refl

  iterations_lem :
      (fuel : ℕ) (d : DoublyLinkedList A) (s : Contents A)
      → Represents d s
      → length s.items ≤ fuel
      → (iterate fuel d.head d.nodes ≡ map (λ x. x.1) s.items)
        × (nodes_from fuel d.head d.nodes ≡ ids s.items)
  iterations_lem fuel d s h enough =
      let enough' : length (ids s.items) ≤ fuel = omega (arith, enough, length-ids s.items) in
      (
        ap (λ p. iterate fuel p d.nodes) h.list.head
            ∙ iterate_lem fuel d.nodes none (ids s.items) h.list.linked enough'
            ∙ Held-values d s.items h.held,
        ap (λ p. nodes_from fuel p d.nodes) h.list.head
            ∙ nodes_from_lem fuel d.nodes none (ids s.items) h.list.linked enough',
      )

  unfoldable pub new_contents : Contents A
  new_contents = record { made = 0; items = []; released = [] }

  -- The results of `shift` are in the order of the calls.
  unfoldable pub run_all :
      List (Operation A) → DoublyLinkedList A → List (Option A) × DoublyLinkedList A
  unfolding run
  run_all [] d = ([], d)
  run_all (o ∷ os) d = let r = run o d in let rest = run_all os r.1 in (r.0 ∷ rest.0, rest.1)

  unfoldable pub meant_all : List (Operation A) → Contents A → List (Option A) × Contents A
  unfolding meant
  meant_all [] s = ([], s)
  meant_all (o ∷ os) s = let r = meant o s in let rest = meant_all os r.1 in (r.0 ∷ rest.0, rest.1)

  unfoldable pub may_all : List (Operation A) → Contents A → Bool
  unfolding may meant
  may_all [] s = true
  may_all (o ∷ os) s = may o s && may_all os (meant o s).1

  run_all-Represents :
      (os : List (Operation A)) (d : DoublyLinkedList A) (s : Contents A)
      → may_all os s ≡ true
      → Represents d s
      → ((run_all os d).0 ≡ (meant_all os s).0) × Represents (run_all os d).1 (meant_all os s).1
  unfolding run_all meant_all may_all Related
  run_all-Represents [] d s allowed h = (refl, h)
  run_all-Represents (o ∷ os) d s allowed h =
      let (same, next) = step_lem o d s (ground (arith, allowed)) h in
      let (same', last) =
        run_all-Represents os (run o d).1 (meant o s).1 (ground (arith, allowed)) next in
      (rw (same, same') refl, last)

  new_list : (nodes : Nodes A) → Represents (empty_list nodes) new_contents
  unfolding empty_list new_contents Linked Distinct includes
  new_list nodes = record {
    list = record {
      linked = tt;
      distinct = tt;
      below = λ i m. absurd (cc);
      length = refl;
      head = refl;
      tail = refl;
      loose = λ i out free lt. absurd (omega arith);
    };
    made = refl;
    held = tt;
  }

  -- Whatever is done to a new doubly linked list, its two iterations end, after a round for each node,
  -- and give the values and the nodes that a plain list holds after the same operations, in the same
  -- order; `length` is their number, and each `shift` returned what it took off the plain list.
  -- `insertAfter` is called with a node of the list, and `remove` with any node that was made, also one
  -- that was removed or shifted before, but not one that was in the list when it was reset.
  pub run_all_lem :
      (nodes : Nodes A) (os : List (Operation A)) (fuel : ℕ)
      → may_all os new_contents ≡ true
      → length (meant_all os new_contents).1.items ≤ fuel
      → let r = run_all os (empty_list nodes) in
        let m = meant_all os new_contents in
        (r.0 ≡ m.0)
        × (iterate fuel r.1.head r.1.nodes ≡ map (λ x. x.1) m.1.items)
        × (nodes_from fuel r.1.head r.1.nodes ≡ ids m.1.items)
        × (r.1.length ≡ length m.1.items)
  run_all_lem nodes os fuel allowed enough =
      let (same, last) =
        run_all-Represents os (empty_list nodes) new_contents allowed (new_list nodes) in
      let both =
        iterations_lem fuel (run_all os (empty_list nodes)).1 (meant_all os new_contents).1 last
          enough in
      (same, both.0, both.1, last.list.length ∙ length-ids (meant_all os new_contents).1.items)

  includes-take_out :
      (i : ℕ) (xs : List (ℕ × A)) → Distinct (ids xs) → includes i (ids (take_out i xs)) ≡ false
  unfolding take_out includes Distinct
  includes-take_out i [] h = refl
  includes-take_out i (x ∷ xs) h = elim (Bool-cases (x.0 == i)) [
    | inl e ↦ rw e (subst (λ (j : ℕ). includes j (ids xs) ≡ false) ((==_iff x.0 i).0 e) h.0)
    | inr e ↦ rw e (rw e (includes-take_out i xs h.1))
  ]

  removed_again :
      (d : DoublyLinkedList A) (s : Contents A) (i : ℕ)
      → (ltb i s.made && not (includes i s.released)) ≡ true
      → Represents d s
      → remove i (remove i d) ≡ remove i d
  unfolding may run meant Related
  removed_again d s i here h =
      let next : Represents (remove i d) (meant (removed i) s).1 =
        (step_lem (removed i) d s here h).1 in
      let out : includes i (ids (take_out i s.items)) ≡ false =
        includes-take_out i s.items h.list.distinct in
      let lt : i < (remove i d).made = ground (arith, here, ltb→lt i s.made, next.made) in
      remove-Loose i (remove i d) (ids (take_out i s.items)) s.released next.list out
        (next.list.loose i out (ground (arith, here)) lt)

  -- After any operations on a new list, `remove` of a node, called again, changes nothing: of any node
  -- that was made, in the list or not, but not left behind by a reset.
  pub remove_twice :
      (nodes : Nodes A) (os : List (Operation A)) (i : ℕ)
      → may_all os new_contents ≡ true
      → let d = (run_all os (empty_list nodes)).1 in
        let m = (meant_all os new_contents).1 in
        may (removed i) m ≡ true → remove i (remove i d) ≡ remove i d
  unfolding may
  remove_twice nodes os i allowed here =
      let (same, last) =
        run_all-Represents os (empty_list nodes) new_contents allowed (new_list nodes) in
      removed_again (run_all os (empty_list nodes)).1 (meant_all os new_contents).1 i here last
