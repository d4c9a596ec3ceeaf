-- ===== src/Client/LinkedList/Insert.antt =====
-- `insertAfter` of a doubly linked list.
use node_redis.Base.{
  ℕ, ◌≡◌, refl, sym, subst, ◌∙◌, ==_refl, true, false, ◌==◌, none, some, List, [], ◌∷◌, ◌++◌, arith,
  length-append, append_assoc,
}
use node_redis.Base.Sets.{includes, includes-append}
use node_redis.Client.LinkedList.{
  Nodes, DoublyLinkedList, new_node, at, set_previous, set_next, push, insert_after,
}
use node_redis.Client.LinkedList.Apart.{
  Distinct-append, Distinct-parts, outside, outside-append, ne, below-append, before, ne_first,
  later, outside_first, below_made, below_other, apart,
}
use node_redis.Client.LinkedList.Segment.{
  last, first-append, last-append, Distinct, Linked, Linked-append, Linked-front, Linked-back,
  Linked-at, Linked-set_next, Linked-set_previous,
}
use node_redis.Client.LinkedList.Ends.{IsList, made_fresh, push-IsList}

last_in : (i : ℕ) (is : List ℕ) → includes i (is ++ i ∷ []) ≡ true
unfolding includes
last_in i is = ground (arith, includes-append i is (i ∷ []))

first_out :
    (is : List ℕ) (n : ℕ) (js : List ℕ)
    → ((j : ℕ) → includes j is ≡ true → includes j (n ∷ js) ≡ false)
    → includes n is ≡ false
unfolding includes
first_out is n js h = ground (arith, h n)

==_sym : (i j : ℕ) → (i == j) ≡ false → (j == i) ≡ false
==_sym i j h = ground arith

in_front : (j : ℕ) (is js : List ℕ) → includes j is ≡ true → includes j (is ++ js) ≡ true
in_front j is js m = ground (arith, includes-append j is js)

in_back : (j : ℕ) (is js : List ℕ) → includes j js ≡ true → includes j (is ++ js) ≡ true
in_back j is js m = ground (arith, includes-append j is js)

module _ {A : Type 0} where
  insert_between :
      (i : ℕ) (v : A) (d : DoublyLinkedList A) (is : List ℕ) (n : ℕ) (js released : List ℕ)
      → IsList d ((is ++ i ∷ []) ++ n ∷ js) released
      → IsList (insert_after i v d) ((is ++ i ∷ []) ++ d.made ∷ n ∷ js) released
  unfolding insert_after Linked Distinct set_next set_previous
  insert_between i v d is n js released h =
      let ks : List ℕ = is ++ i ∷ [] in
      let fresh = outside d.made ks (n ∷ js) (made_fresh d (ks ++ n ∷ js) released h) in
      let parts = Distinct-parts ks (n ∷ js) h.distinct in
      let nodes' : Nodes A = at d.made (new_node v (some i) (some n)) d.nodes in
      let front = Linked-front d.nodes none ks (n ∷ js) none h.linked in
      let back = Linked-back d.nodes none ks (n ∷ js) none h.linked in
      let behind : (d.nodes i).next ≡ some n =
        (Linked-back d.nodes none is (i ∷ []) (some n) front).1 in
      let not_i : (d.made == i) ≡ false = ne d.made i (outside d.made is (i ∷ []) fresh.0).1 in
      let not_n : (d.made == n) ≡ false = ne_first d.made n js fresh.1 in
      rw (insert_after, behind)
        record {
          linked =
              Linked-append (set_next i (some d.made) (set_previous n (some d.made) nodes')) none ks
                (d.made ∷ n ∷ js) none
                (Linked-set_next (set_previous n (some d.made) nodes') none is i (some n)
                  (some d.made) (before is i parts.0)
                  (Linked-at nodes' n _ none ks (some n) (first_out ks n js parts.2)
                    (Linked-at d.nodes d.made _ none ks (some n) fresh.0 front)))
                (
                  rw (not_i, not_n, ==_refl d.made, last-append none is (i ∷ [])) refl,
                  rw (not_i, not_n, ==_refl d.made) refl,
                  Linked-at (set_previous n (some d.made) nodes') i _ (some d.made) (n ∷ js) none
                      (parts.2 i (last_in i is))
                      (Linked-set_previous nodes' (last none ks) (some d.made) n js none parts.1.0
                        (Linked-at d.nodes d.made _ (last none ks) (n ∷ js) none fresh.1 back)),
                );
          distinct =
              Distinct-append ks (d.made ∷ n ∷ js) parts.0 (fresh.1, parts.1)
                λ j m.
                  outside_first d.made j (n ∷ js)
                    (==_sym j d.made (ne j d.made (apart ks d.made fresh.0 j m))) (parts.2 j m);
          below =
              below-append ks (d.made ∷ n ∷ js) d.made
                (λ j m. later d.made (ks ++ n ∷ js) h.below j (in_front j ks (n ∷ js) m))
                (below-append (d.made ∷ []) (n ∷ js) d.made (below_made d.made)
                  λ j m. later d.made (ks ++ n ∷ js) h.below j (in_back j ks (n ∷ js) m));
          length =
              omega
                (arith, h.length, length-append ks (n ∷ js), length-append ks (d.made ∷ n ∷ js));
          head =
              h.head
              ∙ first-append ks (n ∷ js) none
              ∙ first-append is (i ∷ []) (some n)
              ∙ sym (first-append is (i ∷ []) (some d.made))
              ∙ sym (first-append ks (d.made ∷ n ∷ js) none);
          tail =
              h.tail ∙ last-append none ks (n ∷ js) ∙ sym (last-append none ks (d.made ∷ n ∷ js));
          loose = λ j out free lt.
              let o = outside j ks (d.made ∷ n ∷ js) out in
              let o' = outside j (d.made ∷ []) (n ∷ js) o.1 in
              rw (ne j i (outside j is (i ∷ []) o.0).1, ne_first j n js o'.1, ne j d.made o'.0)
                (h.loose j (outside-append j ks (n ∷ js) o.0 o'.1) free
                  (below_other d.made j o'.0 lt));
        }

  pub insert_after-IsList :
      (i : ℕ) (v : A) (d : DoublyLinkedList A) (is js released : List ℕ)
      → IsList d (is ++ i ∷ js) released
      → IsList (insert_after i v d) (is ++ i ∷ d.made ∷ js) released
  unfolding insert_after Linked
  insert_after-IsList i v d is [] released h =
      let last_node : (d.nodes i).next ≡ none =
        (Linked-back d.nodes none is (i ∷ []) none h.linked).1 in
      rw (insert_after, last_node)
        (subst (λ (ks : List ℕ). IsList (push v d) ks released)
          (append_assoc is (i ∷ []) (d.made ∷ [])) (push-IsList v d (is ++ i ∷ []) released h))
  insert_after-IsList i v d is (n ∷ js) released h =
      subst (λ (ks : List ℕ). IsList (insert_after i v d) ks released)
        (append_assoc is (i ∷ []) (d.made ∷ n ∷ js))
        (insert_between i v d is n js released (
          subst (λ (ks : List ℕ). IsList d ks released) (sym (append_assoc is (i ∷ []) (n ∷ js)))
            h))
