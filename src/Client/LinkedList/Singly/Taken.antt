-- ===== src/Client/LinkedList/Singly/Taken.antt =====
-- `remove` and `shift` of a singly linked list.
use node_redis.Base.{
  ℕ, ◌-◌, ◌<◌, ◌≡◌, refl, sym, subst, true, false, ◌==◌, ==_refl, if◌then◌else◌, Option, none, some,
  List, [], ◌∷◌, ◌++◌, arith, Option-cases, inl, inr,
}
use node_redis.Base.Sets.{includes, includes-append}
use node_redis.Client.LinkedList.Segment.{last, Distinct}
use node_redis.Client.LinkedList.Singly.{
  SinglyLinkedList, set_next, set_removed, set_parent_next, unlink, shift, remove,
}
use node_redis.Client.LinkedList.Singly.Chain.{Linked, IsList}
use node_redis.Client.LinkedList.Singly.Unlink.{removed-IsList, unlink_lem}

module _ {A : Type 0} where
  value-unlink :
      (i j : ℕ) (parent : Option ℕ) (l l' : SinglyLinkedList A)
      → unlink i parent l ≡ some l'
      → ((l'.nodes j).value ≡ (l.nodes j).value) × (l'.made ≡ l.made)
  unfolding unlink set_parent_next set_next
  value-unlink i j parent l l' e = (ground arith, ground arith)

  pub value-remove :
      (i : ℕ) (parent : Option ℕ) (l l' : SinglyLinkedList A)
      → remove i parent l ≡ some l'
      → (j : ℕ) → ((l'.nodes j).value ≡ (l.nodes j).value) × (l'.made ≡ l.made)
  unfolding remove set_removed
  value-remove i parent l l' e j =
      let l0 : SinglyLinkedList A = record l { length = l.length - 1 } in
      elim (Option-cases (unlink i parent l0)) [
        | inl thrown ↦ absurd (ground (arith, thrown))
        | inr (l1, found) ↦
            let u = value-unlink i j parent l0 l1 found in
            (ground (arith, found, u), ground (arith, found, u))
      ]

  pub value-shift :
      (l : SinglyLinkedList A) (j : ℕ)
      → (((shift l).1.nodes j).value ≡ (l.nodes j).value) × ((shift l).1.made ≡ l.made)
  unfolding shift set_removed
  value-shift l j = (ground arith, ground arith)

  -- A node of a singly linked list, removed with the node in front of it as the parent, or without
  -- one in front, is taken out, and the others keep their order.
  pub remove-IsList :
      (i : ℕ) (l : SinglyLinkedList A) (is js released : List ℕ)
      → IsList l (is ++ i ∷ js) released
      → (l' : SinglyLinkedList A) × (remove i (last none is) l ≡ some l')
        × IsList l' (is ++ js) released
  unfolding remove Distinct includes
  remove-IsList i l is js released h =
      let l0 : SinglyLinkedList A = record l { length = l.length - 1 } in
      let flag : (l.nodes i).removed ≡ false =
        h.present i (ground (arith, includes-append i is (i ∷ js), ==_refl i)) in
      let (l', e, u) = unlink_lem i l0 js is h.linked h.distinct h.head h.tail in
      (
        record l' { nodes = set_removed i l'.nodes },
        rw (remove, flag, e) refl,
        removed-IsList i l l' is js released h u,
      )

  -- A node that is not in the list any more cannot be removed again, whatever the parent: it throws.
  pub remove-removed :
      (i : ℕ) (parent : Option ℕ) (l : SinglyLinkedList A) (is released : List ℕ)
      → IsList l is released
      → includes i is ≡ false
      → includes i released ≡ false
      → i < l.made
      → remove i parent l ≡ none
  unfolding remove
  remove-removed i parent l is released h out free lt = rw (remove, h.absent i out free lt) refl

  -- `shift` takes the first node off, and returns its value.
  pub shift-IsList :
      (l : SinglyLinkedList A) (i : ℕ) (is released : List ℕ)
      → IsList l (i ∷ is) released
      → ((shift l).0 ≡ some (l.nodes i).value) × IsList (shift l).1 is released
  unfolding shift Linked
  shift-IsList l i [] released h =
      let l' : SinglyLinkedList A = record l { length = l.length - 1; head = none; tail = none } in
      let single : (l.length - 1 == 0) ≡ true = ground (arith, h.length) in
      (
        rw (shift, h.head) refl,
        rw (shift, h.head, single)
            (removed-IsList i l l' [] [] released h record {
              linked = tt;
              head = refl;
              tail = refl;
              length = refl;
              made = refl;
              flags = λ j. refl;
            }),
      )
  shift-IsList l i (n ∷ is) released h =
      let l' : SinglyLinkedList A = record l { length = l.length - 1; head = (l.nodes i).next } in
      let several : (l.length - 1 == 0) ≡ false = ground (arith, h.length) in
      (
        rw (shift, h.head) refl,
        rw (shift, h.head, several)
            (removed-IsList i l l' [] (n ∷ is) released h record {
              linked = h.linked.1;
              head = h.linked.0;
              tail = h.tail;
              length = refl;
              made = refl;
              flags = λ j. refl;
            }),
      )

  pub shift-none : (l : SinglyLinkedList A) → l.head ≡ none → (shift l).0 ≡ none
  unfolding shift
  shift-none l h = ground arith

  -- Of an empty list it changes nothing.
  pub shift-empty :
      (l : SinglyLinkedList A) (released : List ℕ)
      → IsList l [] released
      → IsList (shift l).1 [] released
  unfolding shift
  shift-empty l released h =
      subst
        (λ (q : Option ℕ).
          IsList
            (elim q as (λ r. Option A × SinglyLinkedList A) [
              | none ↦ (none, l)
              | some i ↦ (
                some (l.nodes i).value,
                if l.length - 1 == 0
                    then record l {
                      nodes = set_removed i l.nodes;
                      length = l.length - 1;
                      head = none;
                      tail = none;
                    }
                    else record l {
                      nodes = set_removed i l.nodes;
                      length = l.length - 1;
                      head = (l.nodes i).next;
                    },
              )
            ]).1
            [] released)
        (sym h.head) h
