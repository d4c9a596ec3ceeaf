-- ===== src/Client/LinkedList/Singly/Runs.antt =====
-- Whole runs of a singly linked list.
use node_redis.Base.{
  ℕ, suc, All, ◌<◌, ◌≡◌, refl, sym, subst, ap, ◌∙◌, Bool, true, false, not, ◌&&◌, ltb→lt, Option,
  none, some, List, [], ◌∷◌, ◌++◌, arith, length, Bool-cases, inl, inr,
}
use node_redis.Base.Sets.{includes}
use node_redis.Client.LinkedList.Contents.{Contents, ids, ids-append, take_out}
use node_redis.Client.LinkedList.Apart.{outside}
use node_redis.Client.LinkedList.Segment.{last, Distinct}
use node_redis.Client.LinkedList.Singly.{SinglyLinkedList, shift, remove, reset, emits_empty}
use node_redis.Client.LinkedList.Singly.Chain.{Linked, IsList}
use node_redis.Client.LinkedList.Singly.Order.{push-IsList}
use node_redis.Client.LinkedList.Singly.Taken.{
  remove-IsList, remove-removed, shift-IsList, shift-empty, value-remove, value-shift, shift-none,
}
use node_redis.Client.LinkedList.Singly.Meant.{
  Operation, pushed, shifted, cleared, removed, Result, shifted_value, finished, threw, parent_of,
  run, meant, may, Represents,
}
use node_redis.Client.LinkedList.Singly.Held.{
  split_ids, same_node_lem, Held-kept, Held-made, Held-without, ids-take_out,
}

abbrev pub is_nil : List ℕ → Bool
is_nil [] = true
is_nil (i ∷ is) = false

module _ {A : Type 0} where
  -- What an operation leads to.
  pub record Leads (l : SinglyLinkedList A) (s : Contents A) (r : Result A × SinglyLinkedList A)
      (m : Result A × Contents A) : Type 0 where
    pub after : Represents r.1 m.1
    pub result : r.0 ≡ m.0
    pub event : emits_empty l r.1 ≡ (not (is_nil (ids s.items)) && is_nil (ids m.1.items))

  emits_lem :
      (l l' : SinglyLinkedList A) (is is' : List ℕ)
      → l.length ≡ length is
      → l'.length ≡ length is'
      → emits_empty l l' ≡ (not (is_nil is) && is_nil is')
  unfolding emits_empty
  emits_lem l l' [] [] h k = ground (arith, h, k)
  emits_lem l l' [] (j ∷ is') h k = ground (arith, h, k)
  emits_lem l l' (i ∷ is) [] h k = ground (arith, h, k)
  emits_lem l l' (i ∷ is) (j ∷ is') h k = ground (arith, h, k)

  leads :
      (l : SinglyLinkedList A) (s : Contents A) (r : Result A × SinglyLinkedList A)
      (m : Result A × Contents A)
      → Represents l s
      → Represents r.1 m.1
      → r.0 ≡ m.0
      → Leads l s r m
  leads l s r m h k e = record {
    after = k;
    result = e;
    event = emits_lem l r.1 (ids s.items) (ids m.1.items) h.list.length k.list.length;
  }

  pushed_lem :
      (v : A) (l : SinglyLinkedList A) (s : Contents A)
      → Represents l s
      → Leads l s (run (pushed v) l) (meant (pushed v) s)
  unfolding run meant
  pushed_lem v l s h =
      let (l', e, values, made, list) = push-IsList v l (ids s.items) s.released h.list in
      let at_end : ids s.items ++ l.made ∷ [] ≡ ids (s.items ++ (s.made, v) ∷ []) =
        ap (λ (m : ℕ). ids s.items ++ m ∷ []) h.made
        ∙ sym (ids-append s.items ((s.made, v) ∷ [])) in
      let after : Represents l' (meant (pushed v) s).1 = record {
        list = subst (λ (js : List ℕ). IsList l' js s.released) at_end list;
        made = made ∙ ap suc h.made;
        held =
            subst (λ (m : ℕ). All (λ x. (l'.nodes x.0).value ≡ x.1) (s.items ++ (m, v) ∷ [])) h.made
              (Held-made l l' v s.items values h.list.below h.held);
      } in
      rw (run, e) (leads l s (finished, l') (meant (pushed v) s) h after refl)

  abbrev contents : ℕ → List ℕ → List (ℕ × A) → Contents A
  contents m rs xs = record { made = m; items = xs; released = rs }

  shifted_lem :
      (l : SinglyLinkedList A) (s : Contents A)
      → Represents l s
      → Leads l s (run shifted l) (meant shifted s)
  unfolding run meant
  shifted_lem l s h = go s.made s.released s.items h
    where
      go :
          (m : ℕ) (rs : List ℕ) (xs : List (ℕ × A))
          → Represents l (contents m rs xs)
          → Leads l (contents m rs xs) (run shifted l) (meant shifted (contents m rs xs))
      go m rs [] h =
          leads l (contents m rs []) (run shifted l) (meant shifted (contents m rs [])) h
            (record {
              list = shift-empty l rs h.list;
              made = (value-shift l 0).1 ∙ h.made;
              held = tt;
            })
            (ap shifted_value (shift-none l h.list.head))
      go m rs (x ∷ xs) h =
          let (value, list) = shift-IsList l x.0 (ids xs) rs h.list in
          leads l (contents m rs (x ∷ xs)) (run shifted l) (meant shifted (contents m rs (x ∷ xs)))
            h
            (record {
              list = list;
              made = (value-shift l 0).1 ∙ h.made;
              held = Held-kept l (shift l).1 xs (λ j. (value-shift l j).0) h.held.1;
            })
            (ap shifted_value (value ∙ ap some h.held.0))

  cleared_lem :
      (l : SinglyLinkedList A) (is rs : List ℕ) → IsList l is rs → IsList (reset l) [] (is ++ rs)
  unfolding reset Linked Distinct includes
  cleared_lem l is rs h = record {
    linked = tt;
    distinct = tt;
    below = λ i m. absurd (cc);
    length = refl;
    head = refl;
    tail = refl;
    present = λ i m. absurd (cc);
    absent = λ i out free lt. let o = outside i is rs free in h.absent i o.0 o.1 lt;
  }

  removed_lem :
      (i : ℕ) (p : Option ℕ) (l : SinglyLinkedList A) (s : Contents A)
      → Represents l s
      → may (removed i p) s ≡ true
      → Leads l s (run (removed i p) l) (meant (removed i p) s)
  unfolding run meant may
  removed_lem i p l s h allowed = elim (Bool-cases (includes i (ids s.items))) [
    | inl e ↦
        let (js, ks, split, parent, rest) = split_ids none i (ids s.items) e h.list.distinct in
        let front : p ≡ last none js =
          same_node_lem p (parent_of none i (ids s.items)) (ground (arith, allowed, e)) ∙ parent in
        let (l', done, k) =
          remove-IsList i l js ks s.released
            (subst (λ (qs : List ℕ). IsList l qs s.released) split h.list) in
        let taken : remove i p l ≡ some l' = ap (λ q. remove i q l) front ∙ done in
        let s' : Contents A = record s { items = take_out i s.items } in
        let after : Represents l' s' = record {
          list =
              subst (λ (qs : List ℕ). IsList l' qs s.released)
                (sym (ids-take_out i s.items h.list.distinct ∙ rest)) k;
          made = (value-remove i p l l' taken 0).1 ∙ h.made;
          held =
              Held-kept l l' (take_out i s.items) (λ j. (value-remove i p l l' taken j).0)
                (Held-without l i s.items h.held);
        } in
        rw (run, taken, e) (leads l s (finished, l') (finished, s') h after refl)
    | inr e ↦
        let lt : i < l.made = rw h.made (ltb→lt i s.made (ground (arith, allowed, e))) in
        let thrown : remove i p l ≡ none =
          remove-removed i p l (ids s.items) s.released h.list e (ground (arith, allowed, e)) lt in
        rw (run, thrown, e) (leads l s (threw, l) (threw, s) h h refl)
  ]

  -- An operation on a singly linked list that holds nodes with values does what it is meant to do,
  -- where `remove` is called with the node in front as the parent, or with a node that is gone, but not
  -- with one that a reset left behind. The list then holds the nodes that it should, in order and each
  -- with its value: a pushed value is last, a shift takes the first node and returns its value, or
  -- undefined of an empty list, and a removal takes that node. A push never throws, and a removal
  -- exactly where the node is gone. `EmptyAwareSinglyLinkedList` emits `empty` exactly when a list that
  -- was not empty becomes so.
  pub run-Leads :
      (o : Operation A) (l : SinglyLinkedList A) (s : Contents A)
      → Represents l s
      → may o s ≡ true
      → Leads l s (run o l) (meant o s)
  run-Leads (pushed v) l s h allowed = pushed_lem v l s h
  run-Leads shifted l s h allowed = shifted_lem l s h
  run-Leads cleared l s h allowed =
      unfold run meant reset in
      leads l s (finished, reset l)
        (finished, record s { items = []; released = ids s.items ++ s.released }) h
        (record { list = cleared_lem l (ids s.items) s.released h.list; made = h.made; held = tt })
        refl
  run-Leads (removed i p) l s h allowed = removed_lem i p l s h allowed
