-- ===== src/Client/LinkedList/Singly/Order.antt =====
-- What the operations of a singly linked list do to the nodes it holds.
use node_redis.Base.{
  ℕ, suc, if◌then◌else◌, ◌≡◌, refl, sym, subst, ap, ◌∙◌, true, false, ◌==◌, ==_refl, Option, none,
  some, List, [], ◌∷◌, ◌++◌, arith, length-append, inl, inr,
}
use node_redis.Base.Sets.{includes, includes-append}
use node_redis.Client.LinkedList.Apart.{
  snoc-cases, Distinct-append, before, below-append, below_made, below_other, later, one, apart, ne,
  outside,
}
use node_redis.Client.LinkedList.Segment.{first, first-append, last-append, Distinct}
use node_redis.Client.LinkedList.Singly.{SinglyLinkedNode, SinglyLinkedList, put, set_next, push}
use node_redis.Client.LinkedList.Singly.Chain.{
  Linked, Linked-append, Linked-put, Linked-set_next, IsList,
}

first-snoc : (is : List ℕ) (t : ℕ) → (f : ℕ) × (first (is ++ t ∷ []) none ≡ some f)
first-snoc [] t = (t, refl)
first-snoc (i ∷ is) t = (i, refl)

module _ {A : Type 0} where
  fresh :
      (l : SinglyLinkedList A) (is released : List ℕ)
      → IsList l is released
      → includes l.made is ≡ false
  fresh l is released h = ground (arith, h.below l.made)

  pub set_next-removed :
      (i : ℕ) (n : Option ℕ) (nodes : ℕ → SinglyLinkedNode A) (j : ℕ)
      → (set_next i n nodes j).removed ≡ (nodes j).removed
  unfolding set_next
  set_next-removed i n nodes j = ground arith

  made_present :
      (nodes : ℕ → SinglyLinkedNode A) (m : ℕ) (n : SinglyLinkedNode A) (is : List ℕ)
      → n.removed ≡ false
      → ((i : ℕ) → includes i is ≡ true → (nodes i).removed ≡ false)
      → (i : ℕ) → includes i (is ++ m ∷ []) ≡ true
      → (put m n nodes i).removed ≡ false
  unfolding includes
  made_present nodes m n is e h i b = ground (arith, e, h i, b, includes-append i is (m ∷ []))

  -- What a push of `v` comes to: a new node with the value, and a list of the nodes `is`.
  abbrev pub Pushes : A → SinglyLinkedList A → List ℕ → List ℕ → Type 0
  Pushes v l is released =
      (l' : SinglyLinkedList A) × (push v l ≡ some l')
      × ((j : ℕ) → (l'.nodes j).value ≡ (if j == l.made then v else (l.nodes j).value))
      × (l'.made ≡ suc l.made)
      × IsList l' is released

  push_empty :
      (v : A) (l : SinglyLinkedList A) (released : List ℕ)
      → IsList l [] released
      → Pushes v l (l.made ∷ []) released
  unfolding push Linked Distinct includes
  push_empty v l released h =
      let node : SinglyLinkedNode A = record { value = v; next = none; removed = false } in
      (
        record {
          nodes = put l.made node l.nodes;
          made = suc l.made;
          length = suc l.length;
          head = some l.made;
          tail = some l.made;
        },
        rw (push, h.head) refl,
        λ j. ground arith,
        refl,
        record {
          linked = (ground arith, tt);
          distinct = (refl, tt);
          below = λ i m. ground (arith, m);
          length = omega (arith, h.length);
          head = refl;
          tail = refl;
          present = λ i m. ground (arith, m);
          absent = λ i out free lt. ground (arith, h.absent i);
        },
      )

  push_behind :
      (v : A) (l : SinglyLinkedList A) (is : List ℕ) (t : ℕ) (released : List ℕ)
      → IsList l (is ++ t ∷ []) released
      → Pushes v l ((is ++ t ∷ []) ++ l.made ∷ []) released
  unfolding push Linked set_next
  push_behind v l is t released h =
      let ts : List ℕ = is ++ t ∷ [] in
      let out : includes l.made ts ≡ false = fresh l ts released h in
      let other : (l.made == t) ≡ false = ne l.made t (outside l.made is (t ∷ []) out).1 in
      let node : SinglyLinkedNode A = record { value = v; next = none; removed = false } in
      let e : l.tail ≡ some t = h.tail ∙ last-append none is (t ∷ []) in
      let (f, at_head) = first-snoc is t in
      let l' : SinglyLinkedList A = record l {
        nodes = set_next t (some l.made) (put l.made node l.nodes);
        made = suc l.made;
        length = suc l.length;
        head = some f;
        tail = some l.made;
      } in
      (
        l',
        rw (push, h.head ∙ at_head, e) (ap (λ q. some (record l' { head = q })) (h.head ∙ at_head)),
        λ j. ground arith,
        refl,
        record {
          linked =
              Linked-append (set_next t (some l.made) (put l.made node l.nodes)) ts (l.made ∷ [])
                none
                (Linked-set_next (put l.made node l.nodes) is t none (some l.made)
                  (before is t h.distinct)
                  (Linked-put l.nodes l.made node ts none (λ m. absurd (ground (arith, out, m)))
                    h.linked))
                (rw (other, ==_refl l.made) refl, tt);
          distinct = Distinct-append ts (l.made ∷ []) h.distinct (one l.made) (apart ts l.made out);
          below =
              below-append ts (l.made ∷ []) l.made (later l.made ts h.below) (below_made l.made);
          length = omega (arith, h.length, length-append ts (l.made ∷ []));
          head =
              sym at_head
              ∙ first-append is (t ∷ []) none
              ∙ sym (first-append is (t ∷ []) (some l.made))
              ∙ sym (first-append ts (l.made ∷ []) none);
          tail = sym (last-append none ts (l.made ∷ []));
          present = λ i m.
              set_next-removed t (some l.made) (put l.made node l.nodes) i
              ∙ made_present l.nodes l.made node ts refl h.present i m;
          absent = λ i out' free lt.
              let o = outside i ts (l.made ∷ []) out' in
              rw (ne i t (outside i is (t ∷ []) o.0).1, ne i l.made o.1)
                (h.absent i o.0 free (below_other l.made i o.1 lt));
        },
      )

  -- `push` puts a node behind the others.
  pub push-IsList :
      (v : A) (l : SinglyLinkedList A) (is released : List ℕ)
      → IsList l is released
      → Pushes v l (is ++ l.made ∷ []) released
  push-IsList v l is released h = elim (snoc-cases is) [
    | inl e ↦ rw e (push_empty v l released (subst (λ (js : List ℕ). IsList l js released) e h))
    | inr (js, t, e) ↦
        rw e (push_behind v l js t released (subst (λ (js : List ℕ). IsList l js released) e h))
  ]
