-- ===== src/Client/LinkedList/Remove.antt =====
-- The removal of a node from a doubly linked list.
use node_redis.Base.{
  ℕ, ◌-◌, ◌<◌, ◌≡◌, refl, sym, subst, ap, ◌∙◌, ==_refl, true, false, ◌==◌, Option, none, some, List,
  [], ◌∷◌, ◌++◌, arith, length-append, Bool-cases, inl, inr,
}
use node_redis.Base.Sets.{includes, includes-append}
use node_redis.Client.LinkedList.{
  Nodes, DoublyLinkedList, set_previous, set_next, remove, is_detached, unlink_previous,
  unlink_next, clear_links, is_node,
}
use node_redis.Client.LinkedList.Apart.{
  snoc-cases, Distinct-append, Distinct-parts, outside, outside-append, outside_first,
}
use node_redis.Client.LinkedList.Segment.{
  first, last, first-append, last-append, Distinct, Linked, Linked-append, Linked-front,
  Linked-back, Linked-frame, Linked-at,
}
use node_redis.Client.LinkedList.Ends.{IsList, Loose}
use node_redis.Client.LinkedList.Unlink.{
  FrontUnlinked, BackUnlinked, unlink_previous_lem, unlink_next_lem,
}

pub split_out :
    (i j : ℕ) (is js : List ℕ)
    → (i == j) ≡ false
    → includes j (is ++ js) ≡ false
    → includes j (is ++ i ∷ js) ≡ false
split_out i j is js e out =
    let o = outside j is js out in outside-append j is (i ∷ js) o.0 (outside_first i j js e o.1)

pub split_in :
    (i j : ℕ) (is js : List ℕ) → includes j (is ++ js) ≡ true → includes j (is ++ i ∷ js) ≡ true
unfolding includes
split_in i j is js m = ground (arith, includes-append j is js, includes-append j is (i ∷ js))

-- A list with node `i` between `is` and `js`.
module _ {A : Type 0} (i : ℕ) (d : DoublyLinkedList A) (is js released : List ℕ)
    (h : IsList d (is ++ i ∷ js) released) where
  parts :
      Distinct is
      × Distinct (i ∷ js)
      × ((j : ℕ) → includes j is ≡ true → includes j (i ∷ js) ≡ false)
  parts = Distinct-parts is (i ∷ js) h.distinct

  not_behind : includes i js ≡ false
  unfolding Distinct
  not_behind = parts.1.0

  not_before : includes i is ≡ false
  unfolding includes
  not_before = ground (arith, parts.2 i)

  apart_parts : (j : ℕ) → includes j is ≡ true → includes j js ≡ false
  unfolding includes
  apart_parts j m = ground (arith, parts.2 j m)

  apart_back : (j : ℕ) → includes j js ≡ true → includes j is ≡ false
  unfolding includes
  apart_back j m = ground (arith, parts.2 j)

  front : Linked d.nodes none is (some i)
  front = Linked-front d.nodes none is (i ∷ js) none h.linked

  node_links :
      ((d.nodes i).previous ≡ last none is)
      × ((d.nodes i).next ≡ first js none)
      × Linked d.nodes (some i) js none
  unfolding Linked
  node_links = Linked-back d.nodes none is (i ∷ js) none h.linked

  attached : is_detached i d ≡ false
  unfolding is_detached
  attached = elim (snoc-cases is) [
    | inl e ↦
        let at_head : d.head ≡ some i =
          h.head ∙ ap (λ (ks : List ℕ). first (ks ++ i ∷ js) none) e in
        rw (at_head, ==_refl i) refl
    | inr (ks, t, e) ↦
        let behind : (d.nodes i).previous ≡ some t =
          node_links.0 ∙ ap (last none) e ∙ last-append none ks (t ∷ []) in
        rw behind (ground arith)
  ]

  unlinked : DoublyLinkedList A
  unlinked = unlink_previous i (record d { length = d.length - 1 })

  front_unlinked : FrontUnlinked (record d { length = d.length - 1 }) unlinked is (d.nodes i).next
  unfolding unlinked
  front_unlinked =
      unlink_previous_lem i (record d { length = d.length - 1 }) is parts.0 front node_links.0
        (h.head ∙ first-append is (i ∷ js) none)

  same_node : unlinked.nodes i ≡ d.nodes i
  same_node = front_unlinked.same i not_before

  back_unlinked : BackUnlinked unlinked (unlink_next i unlinked) (unlinked.nodes i).previous js
  unfolding Distinct
  back_unlinked =
      unlink_next_lem i unlinked js parts.1.1
        (Linked-frame d.nodes unlinked.nodes (some i) js none
          (λ j m. front_unlinked.same j (apart_back j m)) node_links.2)
        (ap (λ n. n.next) same_node ∙ node_links.1)
        (front_unlinked.tail ∙ h.tail ∙ last-append none is (i ∷ js))

  cleared_linked :
      (nodes : Nodes A) (p : Option ℕ) (ks : List ℕ) (q : Option ℕ)
      → includes i ks ≡ false
      → Linked nodes p ks q
      → Linked (set_next i none (set_previous i none nodes)) p ks q
  unfolding set_next set_previous
  cleared_linked nodes p ks q out k =
      Linked-at (set_previous i none nodes) i _ p ks q out (Linked-at nodes i _ p ks q out k)

  removed : DoublyLinkedList A
  removed = clear_links i (unlink_next i unlinked)

  removed_linked : Linked removed.nodes none (is ++ js) none
  unfolding removed clear_links
  removed_linked =
      let d2 = unlink_next i unlinked in
      Linked-append removed.nodes none is js none
        (cleared_linked d2.nodes none is (first js none) not_before (
          Linked-frame unlinked.nodes d2.nodes none is (first js none)
            (λ j m. back_unlinked.same j (apart_parts j m))
            (subst (λ (q : Option ℕ). Linked unlinked.nodes none is q) node_links.1
              front_unlinked.linked)))
        (cleared_linked d2.nodes (last none is) js none not_behind (
          subst (λ (p : Option ℕ). Linked d2.nodes p js none)
            (ap (λ n. n.previous) same_node ∙ node_links.0) back_unlinked.linked))

  removed-Loose :
      (j : ℕ)
      → includes j (is ++ js) ≡ false
      → includes j released ≡ false
      → j < d.made
      → Loose removed j
  unfolding removed clear_links set_next set_previous
  removed-Loose j out free lt = elim (Bool-cases (j == i)) [
    | inl e ↦ rw (e, ==_refl i) (refl, refl)
    | inr e ↦
        let o = outside j is js out in
        rw (e, back_unlinked.same j o.1, front_unlinked.same j o.0)
          (h.loose j (split_out i j is js (ground (arith, e)) out) free lt)
  ]

  removed_made : removed.made ≡ d.made
  unfolding removed clear_links
  removed_made = back_unlinked.made ∙ front_unlinked.made

  removed-IsList : IsList removed (is ++ js) released
  unfolding removed clear_links Distinct
  removed-IsList = record {
    linked = removed_linked;
    distinct = Distinct-append is js parts.0 parts.1.1 apart_parts;
    below = λ j m. rw removed_made (h.below j (split_in i j is js m));
    length =
        back_unlinked.length
        ∙ front_unlinked.length
        ∙ omega (arith, h.length, length-append is js, length-append is (i ∷ js));
    head =
        back_unlinked.head
        ∙ front_unlinked.head
        ∙ ap (first is) node_links.1
        ∙ sym (first-append is js none);
    tail =
        back_unlinked.tail
        ∙ ap (λ n. last n.previous js) same_node
        ∙ ap (λ p. last p js) node_links.0
        ∙ sym (last-append none is js);
    loose = λ j out free lt. removed-Loose j out free (subst (λ (m : ℕ). j < m) removed_made lt);
  }

  removed_lem : remove i d ≡ removed
  unfolding remove removed unlinked
  removed_lem =
      let nonempty : (d.length == 0) ≡ false =
        ground (arith, h.length, length-append is (i ∷ js)) in
      rw (nonempty, attached) refl

  pub remove-IsList : IsList (remove i d) (is ++ js) released
  remove-IsList = rw removed_lem removed-IsList

not_last :
    (i : ℕ) (p : Option ℕ) (is : List ℕ)
    → is_node i p ≡ false
    → includes i is ≡ false
    → is_node i (last p is) ≡ false
unfolding includes
not_last i p [] h out = h
not_last i p (j ∷ is) h out = not_last i (some j) is (ground (arith, out)) (ground (arith, out))

not_first : (i : ℕ) (is : List ℕ) → includes i is ≡ false → is_node i (first is none) ≡ false
unfolding includes
not_first i [] out = refl
not_first i (j ∷ is) out = ground (arith, out)

module _ {A : Type 0} where
  -- A node that is linked to nothing, and not in the list.
  pub remove-Loose :
      (i : ℕ) (d : DoublyLinkedList A) (is released : List ℕ)
      → IsList d is released
      → includes i is ≡ false
      → Loose d i
      → remove i d ≡ d
  unfolding remove is_detached
  remove-Loose i d is released h out l =
      let first_lem : is_node i d.head ≡ false = ap (is_node i) h.head ∙ not_first i is out in
      let last_lem : is_node i d.tail ≡ false =
        ap (is_node i) h.tail ∙ not_last i none is refl out in
      elim (Bool-cases (d.length == 0)) [
        | inl e ↦ rw e refl
        | inr e ↦ rw (e, first_lem, last_lem, l.0, l.1) refl
      ]
