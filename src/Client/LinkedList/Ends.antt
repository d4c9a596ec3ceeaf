-- ===== src/Client/LinkedList/Ends.antt =====
-- Lists of distinct nodes, and the operations at the ends of a doubly linked list.
use node_redis.Base.{
  ℕ, ◌<◌, ◌≡◌, refl, sym, subst, ==_refl, ==_iff, ◌∙◌, true, false, ◌==◌, none, some, List, [], ◌∷◌,
  ◌++◌, arith, length, length-append, Bool-cases, inl, inr,
}
use node_redis.Base.Sets.{includes}
use node_redis.Client.LinkedList.{
  Nodes, DoublyLinkedList, new_node, at, set_previous, set_next, push, unshift, shift,
}
use node_redis.Client.LinkedList.Apart.{
  later, below-append, one, apart, below_made, below_other, snoc-cases, Distinct-append, outside,
  ne, before, ne_first, outside_first, inside_rest,
}
use node_redis.Client.LinkedList.Segment.{
  first, last, first-append, last-append, Distinct, Linked, Linked-append, Linked-at,
  Linked-set_next, Linked-set_previous,
}

-- `d` holds the nodes `is`. Every other node that was made is linked to nothing, but for those in
-- `released`, that `reset` left behind.
pub record IsList {A : Type 0} (d : DoublyLinkedList A) (is released : List ℕ) : Type 0 where
  pub linked : Linked d.nodes none is none
  pub distinct : Distinct is
  pub below : (i : ℕ) → includes i is ≡ true → i < d.made
  pub length : d.length ≡ length is
  pub head : d.head ≡ first is none
  pub tail : d.tail ≡ last none is
  pub loose :
      (i : ℕ)
      → includes i is ≡ false
      → includes i released ≡ false
      → i < d.made
      → ((d.nodes i).previous ≡ none) × ((d.nodes i).next ≡ none)

abbrev pub Loose : {A : Type 0} → DoublyLinkedList A → ℕ → Type 0
Loose d i = ((d.nodes i).previous ≡ none) × ((d.nodes i).next ≡ none)

module _ {A : Type 0} (d : DoublyLinkedList A) (is released : List ℕ)
    (h : IsList d is released) where
  pub made_fresh : includes d.made is ≡ false
  made_fresh = ground (arith, h.below d.made)

module _ {A : Type 0} where
  push_empty :
      (v : A) (d : DoublyLinkedList A) (released : List ℕ)
      → IsList d [] released
      → IsList (push v d) (d.made ∷ []) released
  unfolding push new_node Linked Distinct includes
  push_empty v d released h =
      rw (h.tail, h.head)
        record {
          linked = (ground arith, ground arith, tt);
          distinct = (refl, tt);
          below = λ i m. ground (arith, m);
          length = omega (arith, h.length);
          head = refl;
          tail = refl;
          loose = λ i out free lt. ground (arith, h.loose i);
        }

  push_behind :
      (v : A) (d : DoublyLinkedList A) (is : List ℕ) (t : ℕ) (released : List ℕ)
      → IsList d (is ++ t ∷ []) released
      → IsList (push v d) ((is ++ t ∷ []) ++ d.made ∷ []) released
  unfolding push Linked Distinct set_next
  push_behind v d is t released h =
      let ts : List ℕ = is ++ t ∷ [] in
      let fresh : includes d.made ts ≡ false = made_fresh d ts released h in
      let other : (d.made == t) ≡ false = ne d.made t (outside d.made is (t ∷ []) fresh).1 in
      let nodes' : Nodes A = at d.made (new_node v (some t) none) d.nodes in
      let e : d.tail ≡ some t = h.tail ∙ last-append none is (t ∷ []) in
      rw e record {
        linked =
            Linked-append (set_next t (some d.made) nodes') none ts (d.made ∷ []) none
              (Linked-set_next nodes' none is t none (some d.made) (before is t h.distinct)
                (Linked-at d.nodes d.made _ none ts none fresh h.linked))
              (
                rw (other, ==_refl d.made, last-append none is (t ∷ [])) refl,
                rw (other, ==_refl d.made) refl,
                tt,
              );
        distinct = Distinct-append ts (d.made ∷ []) h.distinct (one d.made) (apart ts d.made fresh);
        below = below-append ts (d.made ∷ []) d.made (later d.made ts h.below) (below_made d.made);
        length = omega (arith, h.length, length-append ts (d.made ∷ []));
        head = h.head ∙ simp (first-append);
        tail = sym (last-append none ts (d.made ∷ []));
        loose = λ i out free lt.
            let o = outside i ts (d.made ∷ []) out in
            rw (ne i t (outside i is (t ∷ []) o.0).1, ne i d.made o.1)
              (h.loose i o.0 free (below_other d.made i o.1 lt));
      }

  pub push-IsList :
      (v : A) (d : DoublyLinkedList A) (is released : List ℕ)
      → IsList d is released
      → IsList (push v d) (is ++ d.made ∷ []) released
  push-IsList v d is released h = elim (snoc-cases is) [
    | inl e ↦ rw e (push_empty v d released (subst (λ (js : List ℕ). IsList d js released) e h))
    | inr (js, t, e) ↦
        rw e (push_behind v d js t released (subst (λ (js : List ℕ). IsList d js released) e h))
  ]

  pub unshift-IsList :
      (v : A) (d : DoublyLinkedList A) (is released : List ℕ)
      → IsList d is released
      → IsList (unshift v d) (d.made ∷ is) released
  unfolding unshift new_node Linked Distinct set_previous includes
  unshift-IsList v d [] released h = rw h.head record {
    linked = (ground arith, ground arith, tt);
    distinct = (refl, tt);
    below = λ i m. ground (arith, m);
    length = omega (arith, h.length);
    head = refl;
    tail = refl;
    loose = λ i out free lt. ground (arith, h.loose i);
  }
  unshift-IsList v d (t ∷ is) released h =
      let fresh : includes d.made (t ∷ is) ≡ false = made_fresh d (t ∷ is) released h in
      let other : (d.made == t) ≡ false = ground (arith, fresh) in
      let nodes' : Nodes A = at d.made (new_node v none (some t)) d.nodes in
      rw h.head record {
        linked = (
          rw (other, ==_refl d.made) refl,
          rw (other, ==_refl d.made) refl,
          Linked-set_previous nodes' none (some d.made) t is none h.distinct.0
              (Linked-at d.nodes d.made _ none (t ∷ is) none fresh h.linked),
        );
        distinct = (fresh, h.distinct);
        below =
            below-append (d.made ∷ []) (t ∷ is) d.made (below_made d.made)
              (later d.made (t ∷ is) h.below);
        length = omega (arith, h.length);
        head = refl;
        tail = h.tail;
        loose = λ i out free lt.
            let o = outside i (d.made ∷ []) (t ∷ is) out in
            rw (ne_first i t is o.1, ne i d.made o.0)
              (h.loose i o.1 free (below_other d.made i o.0 lt));
      }

  -- The first node is unlinked.
  pub shift-IsList :
      (d : DoublyLinkedList A) (i : ℕ) (is released : List ℕ)
      → IsList d (i ∷ is) released
      → IsList (shift d).1 is released
  unfolding shift Linked Distinct set_previous set_next includes
  shift-IsList d i [] released h =
      rw (h.head, h.linked.1)
        record {
          linked = tt;
          distinct = tt;
          below = λ j m. absurd (cc);
          length = omega (arith, h.length);
          head = refl;
          tail = refl;
          loose = λ j out free lt. elim (Bool-cases (i == j)) [
            | inl e ↦ subst (λ (k : ℕ). Loose d k) ((==_iff i j).0 e) (h.linked.0, h.linked.1)
            | inr e ↦ h.loose j (outside_first i j [] e refl) free lt
          ];
        }
  shift-IsList d i (n ∷ is) released h =
      let other : (n == i) ≡ false = ground (arith, h.distinct.0) in
      rw (h.head, h.linked.1)
        record {
          linked =
              Linked-at (set_previous n none d.nodes) i _ none (n ∷ is) none h.distinct.0
                (Linked-set_previous d.nodes (some i) none n is none h.distinct.1.0 h.linked.2);
          distinct = h.distinct.1;
          below = λ j m. h.below j (inside_rest i j (n ∷ is) m);
          length = omega (arith, h.length);
          head = refl;
          tail = h.tail;
          loose = λ j out free lt. elim (Bool-cases (j == i)) [
            | inl e ↦ rw (e, ne_first i n is h.distinct.0) (h.linked.0, refl)
            | inr e ↦
                rw (e, ne_first j n is out)
                  (h.loose j (outside_first i j (n ∷ is) (ground (arith, e)) out) free lt)
          ];
        }
