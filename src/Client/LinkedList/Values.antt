-- ===== src/Client/LinkedList/Values.antt =====
-- The values that the nodes of a doubly linked list hold: no operation changes one.
use node_redis.Base.{
  ℕ, zero, suc, ◌-◌, ◌≤◌, ◌≡◌, refl, ◌∙◌, ◌==◌, if◌then◌else◌, Option, none, some, List, [], ◌∷◌,
  arith, length, map, Option-cases, inl, inr,
}
use node_redis.Client.LinkedList.{
  Nodes, DoublyLinkedList, new_node, set_previous, set_next, push, unshift, insert_after, shift,
  remove, unlink_previous, unlink_next, clear_links, iterate, nodes_from,
}
use node_redis.Client.LinkedList.Segment.{first, Linked}

module _ {A : Type 0} where
  set_next-value :
      (i : ℕ) (n : Option ℕ) (nodes : Nodes A) (j : ℕ)
      → (set_next i n nodes j).value ≡ (nodes j).value
  unfolding set_next
  set_next-value i n nodes j = ground arith

  set_previous-value :
      (i : ℕ) (n : Option ℕ) (nodes : Nodes A) (j : ℕ)
      → (set_previous i n nodes j).value ≡ (nodes j).value
  unfolding set_previous
  set_previous-value i n nodes j = ground arith

  pub push-value :
      (v : A) (d : DoublyLinkedList A) (j : ℕ)
      → ((push v d).nodes j).value ≡ (if j == d.made then v else (d.nodes j).value)
  unfolding push new_node
  push-value v d j = elim (Option-cases d.tail) [
    | inl e ↦ rw (push, e) (ground arith)
    | inr (t, e) ↦ rw (push, e, set_next-value) (ground arith)
  ]

  pub unshift-value :
      (v : A) (d : DoublyLinkedList A) (j : ℕ)
      → ((unshift v d).nodes j).value ≡ (if j == d.made then v else (d.nodes j).value)
  unfolding unshift new_node
  unshift-value v d j = elim (Option-cases d.head) [
    | inl e ↦ rw (unshift, e) (ground arith)
    | inr (t, e) ↦ rw (unshift, e, set_previous-value) (ground arith)
  ]

  pub insert_after-value :
      (i : ℕ) (v : A) (d : DoublyLinkedList A) (j : ℕ)
      → ((insert_after i v d).nodes j).value ≡ (if j == d.made then v else (d.nodes j).value)
  unfolding insert_after new_node
  insert_after-value i v d j = elim (Option-cases (d.nodes i).next) [
    | inl e ↦ rw (insert_after, e) (push-value v d j)
    | inr (t, e) ↦ rw (insert_after, e, set_next-value, set_previous-value) (ground arith)
  ]

  pub shift-value :
      (d : DoublyLinkedList A) (j : ℕ) → ((shift d).1.nodes j).value ≡ (d.nodes j).value
  unfolding shift
  shift-value d j = elim (Option-cases d.head) [
    | inl e ↦ rw (shift, e) refl
    | inr (h, e) ↦ elim (Option-cases (d.nodes h).next) [
      | inl l ↦ rw (shift, e, l) refl
      | inr (n, l) ↦ rw (shift, e, l, set_next-value, set_previous-value) refl
    ]
  ]

  unlink_previous-value :
      (i : ℕ) (d : DoublyLinkedList A) (j : ℕ)
      → ((unlink_previous i d).nodes j).value ≡ (d.nodes j).value
  unfolding unlink_previous
  unlink_previous-value i d j = elim (Option-cases (d.nodes i).previous) [
    | inl e ↦ rw (unlink_previous, e) refl
    | inr (t, e) ↦ rw (unlink_previous, e, set_next-value) refl
  ]

  unlink_next-value :
      (i : ℕ) (d : DoublyLinkedList A) (j : ℕ)
      → ((unlink_next i d).nodes j).value ≡ (d.nodes j).value
  unfolding unlink_next
  unlink_next-value i d j = elim (Option-cases (d.nodes i).next) [
    | inl e ↦ rw (unlink_next, e) refl
    | inr (t, e) ↦ rw (unlink_next, e, set_previous-value) refl
  ]

  clear_links-value :
      (i : ℕ) (d : DoublyLinkedList A) (j : ℕ)
      → ((clear_links i d).nodes j).value ≡ (d.nodes j).value
  unfolding clear_links
  clear_links-value i d j = rw (set_next-value, set_previous-value) refl

  pub remove-value :
      (i : ℕ) (d : DoublyLinkedList A) (j : ℕ) → ((remove i d).nodes j).value ≡ (d.nodes j).value
  unfolding remove
  remove-value i d j =
      let d' : DoublyLinkedList A = record d { length = d.length - 1 } in
      let e =
        clear_links-value i (unlink_next i (unlink_previous i d')) j
        ∙ unlink_next-value i (unlink_previous i d') j
        ∙ unlink_previous-value i d' j in
      ground (arith, e)

  pub push-made : (v : A) (d : DoublyLinkedList A) → (push v d).made ≡ suc d.made
  unfolding push
  push-made v d = elim (Option-cases d.tail) [
    | inl e ↦ rw (push, e) refl
    | inr (t, e) ↦ rw (push, e) refl
  ]

  pub unshift-made : (v : A) (d : DoublyLinkedList A) → (unshift v d).made ≡ suc d.made
  unfolding unshift
  unshift-made v d = elim (Option-cases d.head) [
    | inl e ↦ rw (unshift, e) refl
    | inr (t, e) ↦ rw (unshift, e) refl
  ]

  pub insert_after-made :
      (i : ℕ) (v : A) (d : DoublyLinkedList A) → (insert_after i v d).made ≡ suc d.made
  unfolding insert_after
  insert_after-made i v d = elim (Option-cases (d.nodes i).next) [
    | inl e ↦ rw (insert_after, e) (push-made v d)
    | inr (t, e) ↦ rw (insert_after, e) refl
  ]

  pub shift-made : (d : DoublyLinkedList A) → (shift d).1.made ≡ d.made
  unfolding shift
  shift-made d = elim (Option-cases d.head) [
    | inl e ↦ rw (shift, e) refl
    | inr (h, e) ↦ elim (Option-cases (d.nodes h).next) [
      | inl l ↦ rw (shift, e, l) refl
      | inr (n, l) ↦ rw (shift, e, l) refl
    ]
  ]

  unlink_previous-made : (i : ℕ) (d : DoublyLinkedList A) → (unlink_previous i d).made ≡ d.made
  unfolding unlink_previous
  unlink_previous-made i d = elim (Option-cases (d.nodes i).previous) [
    | inl e ↦ rw (unlink_previous, e) refl
    | inr (t, e) ↦ rw (unlink_previous, e) refl
  ]

  unlink_next-made : (i : ℕ) (d : DoublyLinkedList A) → (unlink_next i d).made ≡ d.made
  unfolding unlink_next
  unlink_next-made i d = elim (Option-cases (d.nodes i).next) [
    | inl e ↦ rw (unlink_next, e) refl
    | inr (t, e) ↦ rw (unlink_next, e) refl
  ]

  pub remove-made : (i : ℕ) (d : DoublyLinkedList A) → (remove i d).made ≡ d.made
  unfolding remove clear_links
  remove-made i d =
      let d' : DoublyLinkedList A = record d { length = d.length - 1 } in
      let e = unlink_next-made i (unlink_previous i d') ∙ unlink_previous-made i d' in
      ground (arith, e)

  -- Both iterations end when every node was met, whatever fuel is left.
  pub iterate_lem :
      (fuel : ℕ) (nodes : Nodes A) (p : Option ℕ) (is : List ℕ)
      → Linked nodes p is none
      → length is ≤ fuel
      → iterate fuel (first is none) nodes ≡ map (λ i. (nodes i).value) is
  unfolding iterate Linked
  iterate_lem fuel nodes p [] h enough = refl
  iterate_lem zero nodes p (i ∷ is) h enough = absurd (omega arith)
  iterate_lem (suc fuel) nodes p (i ∷ is) h enough =
      rw (h.1, iterate_lem fuel nodes (some i) is h.2 (omega arith)) refl

  pub nodes_from_lem :
      (fuel : ℕ) (nodes : Nodes A) (p : Option ℕ) (is : List ℕ)
      → Linked nodes p is none
      → length is ≤ fuel
      → nodes_from fuel (first is none) nodes ≡ is
  unfolding nodes_from Linked
  nodes_from_lem fuel nodes p [] h enough = refl
  nodes_from_lem zero nodes p (i ∷ is) h enough = absurd (omega arith)
  nodes_from_lem (suc fuel) nodes p (i ∷ is) h enough =
      rw (h.1, nodes_from_lem fuel nodes (some i) is h.2 (omega arith)) refl
