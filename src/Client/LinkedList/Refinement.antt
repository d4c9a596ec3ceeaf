-- ===== src/Client/LinkedList/Refinement.antt =====
-- The doubly linked list against its contents: every operation has the effect that it is meant to have.
use node_redis.Base.{
  ℕ, suc, ◌<◌, ◌≡◌, refl, sym, subst, ap, ◌∙◌, true, not, ◌&&◌, ltb, ltb→lt, Option, some, List, [],
  ◌∷◌, ◌++◌, arith, Bool-cases, inl, inr,
}
use node_redis.Base.Sets.{includes}
use node_redis.Client.LinkedList.{
  DoublyLinkedList, push, unshift, insert_after, shift, remove, reset,
}
use node_redis.Client.LinkedList.Apart.{outside}
use node_redis.Client.LinkedList.Segment.{Distinct, Linked}
use node_redis.Client.LinkedList.Ends.{IsList, push-IsList, unshift-IsList, shift-IsList}
use node_redis.Client.LinkedList.Remove.{remove-IsList, remove-Loose}
use node_redis.Client.LinkedList.Values.{
  push-value, unshift-value, insert_after-value, shift-value, remove-value, push-made, unshift-made,
  insert_after-made, shift-made, remove-made,
}
use node_redis.Client.LinkedList.Insert.{insert_after-IsList}
use node_redis.Client.LinkedList.Contents.{
  Operation, pushed, unshifted, inserted, shifted, cleared, removed, Contents, ids, run, put_behind,
  take_out, meant, may, Represents, ids-append, split_items, put_behind-append, take_out-append,
  take_out-absent, Held, Held-append, Held-parts, Held-kept, Held-made, made_value,
}

module _ {A : Type 0} where
  unfoldable pub Related : Option A × DoublyLinkedList A → Option A × Contents A → Type 0
  Related r s = (r.0 ≡ s.0) × Represents r.1 s.1

  pushed-Related :
      (v : A) (d : DoublyLinkedList A) (s : Contents A)
      → Represents d s
      → Related (run (pushed v) d) (meant (pushed v) s)
  unfolding run meant Related
  pushed-Related v d s h = (
    refl,
    record {
      list =
          rw (ids-append s.items ((s.made, v) ∷ []), sym h.made)
            (push-IsList v d (ids s.items) s.released h.list);
      made = push-made v d ∙ ap suc h.made;
      held =
          Held-append (push v d) s.items ((s.made, v) ∷ [])
            (Held-made d (push v d) v s.items (push-value v d) h.list.below h.held)
            (
              ap (λ m. ((push v d).nodes m).value) (sym h.made)
                  ∙ made_value d (push v d) v (push-value v d),
              tt,
            );
    },
  )

  unshifted-Related :
      (v : A) (d : DoublyLinkedList A) (s : Contents A)
      → Represents d s
      → Related (run (unshifted v) d) (meant (unshifted v) s)
  unfolding run meant Related
  unshifted-Related v d s h = (
    refl,
    record {
      list = rw (sym h.made) (unshift-IsList v d (ids s.items) s.released h.list);
      made = unshift-made v d ∙ ap suc h.made;
      held = (
        ap (λ m. ((unshift v d).nodes m).value) (sym h.made)
            ∙ made_value d (unshift v d) v (unshift-value v d),
        Held-made d (unshift v d) v s.items (unshift-value v d) h.list.below h.held,
      );
    },
  )

  inserted-Related :
      (i : ℕ) (v : A) (d : DoublyLinkedList A) (s : Contents A)
      → includes i (ids s.items) ≡ true
      → Represents d s
      → Related (run (inserted i v) d) (meant (inserted i v) s)
  unfolding run meant Related
  inserted-Related i v d s m h =
      let (ys, w, zs, split, out) = split_items i s.items m in
      let y : ℕ × A = (s.made, v) in
      let behind : put_behind i y s.items ≡ ys ++ (i, w) ∷ y ∷ zs =
        ap (put_behind i y) split ∙ put_behind-append i w y ys zs out in
      let ids_lem : ids s.items ≡ ids ys ++ i ∷ ids zs =
        ap ids split ∙ ids-append ys ((i, w) ∷ zs) in
      (
        refl,
        record {
          list =
              rw (behind, ids-append ys ((i, w) ∷ y ∷ zs), sym h.made)
                (insert_after-IsList i v d (ids ys) (ids zs) s.released
                  (subst (λ (is : List ℕ). IsList d is s.released) ids_lem h.list));
          made = insert_after-made i v d ∙ ap suc h.made;
          held =
              let d' : DoublyLinkedList A = insert_after i v d in
              let (front, back) = Held-parts d' ys ((i, w) ∷ zs) (
                subst (Held d') split
                  (Held-made d d' v s.items (insert_after-value i v d) h.list.below h.held)) in
              rw behind (
                Held-append d' ys ((i, w) ∷ y ∷ zs) front (
                  back.0,
                  (
                    ap (λ m. (d'.nodes m).value) (sym h.made)
                        ∙ made_value d d' v (insert_after-value i v d),
                    back.1,
                  ),
                ));
        },
      )

  shifted_items :
      (d : DoublyLinkedList A) (made : ℕ) (xs : List (ℕ × A)) (released : List ℕ)
      → let s : Contents A = record { made = made; items = xs; released = released } in
        Represents d s → Related (run shifted d) (meant shifted s)
  unfolding run meant Related shift
  shifted_items d made [] released h = rw (shift, h.list.head) (refl, h)
  shifted_items d made (x ∷ xs) released h = (
    rw (shift, h.list.head) (ap some h.held.0),
    record {
      list = shift-IsList d x.0 (ids xs) released h.list;
      made = shift-made d ∙ h.made;
      held = Held-kept d (shift d).1 xs (shift-value d) h.held.1;
    },
  )

  removed_in :
      (i : ℕ) (d : DoublyLinkedList A) (s : Contents A)
      → includes i (ids s.items) ≡ true
      → Represents d s
      → Related (run (removed i) d) (meant (removed i) s)
  unfolding run meant Related
  removed_in i d s m h =
      let (ys, w, zs, split, out) = split_items i s.items m in
      let without : take_out i s.items ≡ ys ++ zs =
        ap (take_out i) split ∙ take_out-append i w ys zs out in
      let ids_lem : ids s.items ≡ ids ys ++ i ∷ ids zs =
        ap ids split ∙ ids-append ys ((i, w) ∷ zs) in
      let (front, back) = Held-parts (remove i d) ys ((i, w) ∷ zs) (
        subst (Held (remove i d)) split
          (Held-kept d (remove i d) s.items (remove-value i d) h.held)) in
      (
        refl,
        record {
          list =
              rw (without, ids-append ys zs)
                (remove-IsList i d (ids ys) (ids zs) s.released
                  (subst (λ (is : List ℕ). IsList d is s.released) ids_lem h.list));
          made = remove-made i d ∙ h.made;
          held = rw without (Held-append (remove i d) ys zs front back.1);
        },
      )

  removed-Related :
      (i : ℕ) (d : DoublyLinkedList A) (s : Contents A)
      → (ltb i s.made && not (includes i s.released)) ≡ true
      → Represents d s
      → Related (run (removed i) d) (meant (removed i) s)
  unfolding run meant Related
  removed-Related i d s allowed h = elim (Bool-cases (includes i (ids s.items))) [
    | inl e ↦ removed_in i d s e h
    | inr e ↦
        let lt : i < d.made = ground (arith, allowed, ltb→lt i s.made, h.made) in
        rw
          (
            remove-Loose i d (ids s.items) s.released h.list e
                (h.list.loose i e (ground (arith, allowed)) lt),
            take_out-absent i s.items e,
          )
          (refl, h)
  ]

  cleared-Related :
      (d : DoublyLinkedList A) (s : Contents A)
      → Represents d s
      → Related (run cleared d) (meant cleared s)
  unfolding run meant Related reset Linked Distinct includes
  cleared-Related d s h = (
    refl,
    record {
      list = record {
        linked = tt;
        distinct = tt;
        below = λ i m. absurd (cc);
        length = refl;
        head = refl;
        tail = refl;
        loose = λ i out free lt.
            let o = outside i (ids s.items) s.released free in h.list.loose i o.0 o.1 lt;
      };
      made = h.made;
      held = tt;
    },
  )

  pub step_lem :
      (o : Operation A) (d : DoublyLinkedList A) (s : Contents A)
      → may o s ≡ true
      → Represents d s
      → Related (run o d) (meant o s)
  unfolding may
  step_lem (pushed v) d s allowed h = pushed-Related v d s h
  step_lem (unshifted v) d s allowed h = unshifted-Related v d s h
  step_lem (inserted i v) d s allowed h = inserted-Related i v d s allowed h
  step_lem shifted d s allowed h = shifted_items d s.made s.items s.released h
  step_lem cleared d s allowed h = cleared-Related d s h
  step_lem (removed i) d s allowed h = removed-Related i d s allowed h
