-- ===== src/Client/LinkedList/Unlink.antt =====
-- The two halves of `remove`: the links of the neighbours of a node.
use node_redis.Base.{
  ℕ, ◌≡◌, refl, sym, subst, ap, ◌∙◌, false, Option, none, some, List, [], ◌∷◌, ◌++◌, inl, inr,
}
use node_redis.Base.Sets.{includes}
use node_redis.Client.LinkedList.{
  DoublyLinkedList, set_previous, set_next, unlink_previous, unlink_next,
}
use node_redis.Client.LinkedList.Apart.{snoc-cases, outside, ne, before, ne_first}
use node_redis.Client.LinkedList.Segment.{
  first, last, first-append, last-append, Distinct, Linked, Linked-set_next, Linked-set_previous,
}

module _ {A : Type 0} where
  -- The nodes in front of node `i`, when it is taken out, and those behind it.
  pub record FrontUnlinked (d d' : DoublyLinkedList A) (is : List ℕ) (q : Option ℕ) : Type 0 where
    pub linked : Linked d'.nodes none is q
    pub head : d'.head ≡ first is q
    pub tail : d'.tail ≡ d.tail
    pub length : d'.length ≡ d.length
    pub made : d'.made ≡ d.made
    pub same : (j : ℕ) → includes j is ≡ false → d'.nodes j ≡ d.nodes j

  pub record BackUnlinked (d d' : DoublyLinkedList A) (p : Option ℕ) (is : List ℕ) : Type 0 where
    pub linked : Linked d'.nodes p is none
    pub head : d'.head ≡ d.head
    pub tail : d'.tail ≡ last p is
    pub length : d'.length ≡ d.length
    pub made : d'.made ≡ d.made
    pub same : (j : ℕ) → includes j is ≡ false → d'.nodes j ≡ d.nodes j

  pub unlink_previous_lem :
      (i : ℕ) (d : DoublyLinkedList A) (is : List ℕ)
      → Distinct is
      → Linked d.nodes none is (some i)
      → (d.nodes i).previous ≡ last none is
      → d.head ≡ first is (some i)
      → FrontUnlinked d (unlink_previous i d) is (d.nodes i).next
  unfolding unlink_previous set_next Linked
  unlink_previous_lem i d is u h prev head = elim (snoc-cases is) [
    | inl e ↦
        let none_before : (d.nodes i).previous ≡ none = prev ∙ ap (last none) e in
        rw (unlink_previous, none_before, e)
          record {
            linked = tt;
            head = refl;
            tail = refl;
            length = refl;
            made = refl;
            same = λ j out. refl;
          }
    | inr (js, t, e) ↦
        let q : Option ℕ = (d.nodes i).next in
        let some_before : (d.nodes i).previous ≡ some t =
          prev ∙ ap (last none) e ∙ last-append none js (t ∷ []) in
        let u' : Distinct (js ++ t ∷ []) = subst (λ (ks : List ℕ). Distinct ks) e u in
        rw (unlink_previous, some_before, e)
          record {
            linked =
                Linked-set_next d.nodes none js t (some i) q (before js t u')
                  (subst (λ (ks : List ℕ). Linked d.nodes none ks (some i)) e h);
            head =
                head
                ∙ ap (λ (ks : List ℕ). first ks (some i)) e
                ∙ first-append js (t ∷ []) (some i)
                ∙ sym (first-append js (t ∷ []) q);
            tail = refl;
            length = refl;
            made = refl;
            same = λ j out. rw (ne j t (outside j js (t ∷ []) out).1) refl;
          }
  ]

  pub unlink_next_lem :
      (i : ℕ) (d : DoublyLinkedList A) (is : List ℕ)
      → Distinct is
      → Linked d.nodes (some i) is none
      → (d.nodes i).next ≡ first is none
      → d.tail ≡ last (some i) is
      → BackUnlinked d (unlink_next i d) (d.nodes i).previous is
  unfolding unlink_next set_previous Linked Distinct
  unlink_next_lem i d [] u h next tail =
      rw (unlink_next, next)
        record {
          linked = tt;
          head = refl;
          tail = refl;
          length = refl;
          made = refl;
          same = λ j out. refl;
        }
  unlink_next_lem i d (t ∷ is) u h next tail =
      rw (unlink_next, next)
        record {
          linked = Linked-set_previous d.nodes (some i) (d.nodes i).previous t is none u.0 h;
          head = refl;
          tail = tail;
          length = refl;
          made = refl;
          same = λ j out. rw (ne_first j t is out) refl;
        }
