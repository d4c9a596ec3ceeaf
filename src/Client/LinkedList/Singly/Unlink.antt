-- ===== src/Client/LinkedList/Singly/Unlink.antt =====
-- A singly linked list without one of its nodes.
use node_redis.Base.{
  ℕ, ◌-◌, ◌<◌, ◌≡◌, refl, sym, subst, ap, ◌∙◌, true, false, ◌==◌, ==_refl, ==_iff, Option, none,
  some, List, [], ◌∷◌, ◌++◌, arith, length-append, Bool-cases, inl, inr, append-nil,
}
use node_redis.Base.Sets.{includes, includes-append}
use node_redis.Client.LinkedList.{is_node}
use node_redis.Client.LinkedList.Apart.{
  snoc-cases, Distinct-append, Distinct-parts, before, outside-append,
}
use node_redis.Client.LinkedList.Segment.{first, last, first-append, last-append, Distinct}
use node_redis.Client.LinkedList.Remove.{split_out, split_in}
use node_redis.Client.LinkedList.Singly.{
  SinglyLinkedList, set_next, set_removed, set_parent_next, unlink,
}
use node_redis.Client.LinkedList.Singly.Chain.{
  Linked, Linked-append, Linked-front, Linked-back, Linked-put, Linked-set_next, IsList,
}
use node_redis.Client.LinkedList.Singly.Order.{set_next-removed}

last_is : (i : ℕ) (p : Option ℕ) (is : List ℕ) → is_node i (last p (is ++ i ∷ [])) ≡ true
last_is i p is = ap (is_node i) (last-append p is (i ∷ [])) ∙ ==_refl i

not_last :
    (i : ℕ) (p : Option ℕ) (is : List ℕ)
    → is_node i p ≡ false
    → includes i is ≡ false
    → is_node i (last p is) ≡ false
unfolding includes
not_last i p [] h out = h
not_last i p (j ∷ is) h out = not_last i (some j) is (ground (arith, out)) (ground (arith, out))

not_first : (i : ℕ) (is : List ℕ) → includes i is ≡ false → is_node i (first is none) ≡ false
unfolding includes
not_first i [] out = refl
not_first i (j ∷ is) out = ground (arith, out)

first_apart :
    (i n : ℕ) (js : List ℕ) → Distinct (i ∷ n ∷ js) → ((i == n) ≡ false) × (includes i js ≡ false)
unfolding Distinct includes
first_apart i n js h = (ground (arith, h.0), ground (arith, h.0))

module _ {A : Type 0} where
  -- The list without node `i`, whose flag is not set yet.
  pub record Unlinked (l l' : SinglyLinkedList A) (is : List ℕ) : Type 0 where
    pub linked : Linked l'.nodes is none
    pub head : l'.head ≡ first is none
    pub tail : l'.tail ≡ last none is
    pub length : l'.length ≡ l.length
    pub made : l'.made ≡ l.made
    pub flags : (j : ℕ) → (l'.nodes j).removed ≡ (l.nodes j).removed

  pub removed-IsList :
      (i : ℕ) (l l' : SinglyLinkedList A) (is js released : List ℕ)
      → IsList l (is ++ i ∷ js) released
      → Unlinked (record l { length = l.length - 1 }) l' (is ++ js)
      → IsList (record l' { nodes = set_removed i l'.nodes }) (is ++ js) released
  unfolding set_removed Distinct includes
  removed-IsList i l l' is js released h u =
      let parts = Distinct-parts is (i ∷ js) h.distinct in
      let gone : includes i (is ++ js) ≡ false =
        outside-append i is js (ground (arith, parts.2 i)) parts.1.0 in
      record {
        linked = Linked-put l'.nodes i _ (is ++ js) none (λ m. refl) u.linked;
        distinct = Distinct-append is js parts.0 parts.1.1 (λ j m. ground (arith, parts.2 j m));
        below = λ j m. rw u.made (h.below j (split_in i j is js m));
        length = u.length ∙ omega (arith, h.length, length-append is js, length-append is (i ∷ js));
        head = u.head;
        tail = u.tail;
        present = λ j m. elim (Bool-cases (j == i)) [
          | inl e ↦
              let m' : includes i (is ++ js) ≡ true =
                subst (λ (k : ℕ). includes k (is ++ js) ≡ true) ((==_iff j i).0 e) m in
              absurd (ground (arith, gone, m'))
          | inr e ↦ rw e (u.flags j ∙ h.present j (split_in i j is js m))
        ];
        absent = λ j out free lt. elim (Bool-cases (j == i)) [
          | inl e ↦ rw e refl
          | inr e ↦ rw e (
              u.flags j
              ∙ h.absent j (split_out i j is js (ground (arith, e)) out) free
                  (subst (λ (m : ℕ). j < m) u.made lt))
        ];
      }

  -- The node is in front: it has no parent.
  unlink_front :
      (i : ℕ) (l : SinglyLinkedList A) (js : List ℕ)
      → Linked l.nodes (i ∷ js) none
      → includes i js ≡ false
      → l.head ≡ some i
      → l.tail ≡ last none (i ∷ js)
      → (l' : SinglyLinkedList A) × (unlink i none l ≡ some l') × Unlinked l l' js
  unfolding unlink Linked includes
  unlink_front i l [] h out head tail =
      let l' = record l { head = none; tail = none } in
      (
        l',
        rw (unlink, head, tail, ==_refl i) refl,
        record {
          linked = tt;
          head = refl;
          tail = refl;
          length = refl;
          made = refl;
          flags = λ j. refl;
        },
      )
  unlink_front i l (n ∷ js) h out head tail =
      let l' = record l { head = (l.nodes i).next } in
      let other : is_node i l.tail ≡ false =
        ap (is_node i) tail ∙ not_last i (some n) js (ground (arith, out)) (ground (arith, out)) in
      (
        l',
        rw (unlink, head, ==_refl i) (rw other refl),
        record {
          linked = h.1;
          head = h.0;
          tail = tail;
          length = refl;
          made = refl;
          flags = λ j. refl;
        },
      )

  -- The node is behind its parent `p`.
  unlink_behind :
      (i : ℕ) (l : SinglyLinkedList A) (is : List ℕ) (p : ℕ) (js : List ℕ)
      → Linked l.nodes ((is ++ p ∷ []) ++ i ∷ js) none
      → Distinct ((is ++ p ∷ []) ++ i ∷ js)
      → l.head ≡ first (is ++ p ∷ []) none
      → l.tail ≡ last none ((is ++ p ∷ []) ++ i ∷ js)
      → (l' : SinglyLinkedList A) × (unlink i (some p) l ≡ some l')
        × Unlinked l l' ((is ++ p ∷ []) ++ js)
  unfolding unlink set_parent_next Linked includes
  unlink_behind i l is p [] h u head tail =
      let ps : List ℕ = is ++ p ∷ [] in
      let parts = Distinct-parts ps (i ∷ []) u in
      let out : includes i ps ≡ false = ground (arith, parts.2 i, ==_refl i) in
      let not_head : is_node i l.head ≡ false = ap (is_node i) head ∙ not_first i ps out in
      let at_tail : is_node i l.tail ≡ true = ap (is_node i) tail ∙ last_is i none ps in
      (
        record l { nodes = set_next p none l.nodes; tail = some p },
        rw (unlink, not_head, at_tail) refl,
        rw (append-nil ps) record {
          linked =
              Linked-set_next l.nodes is p (some i) none (before is p parts.0)
                (Linked-front l.nodes ps (i ∷ []) none h);
          head = head;
          tail = sym (last-append none is (p ∷ []));
          length = refl;
          made = refl;
          flags = set_next-removed p none l.nodes;
        },
      )
  unlink_behind i l is p (n ∷ js) h u head tail =
      let ps : List ℕ = is ++ p ∷ [] in
      let parts = Distinct-parts ps (i ∷ n ∷ js) u in
      let out : includes i ps ≡ false = ground (arith, parts.2 i, ==_refl i) in
      let p_out : includes p (n ∷ js) ≡ false =
        ground (arith, parts.2 p, ==_refl p, includes-append p is (p ∷ [])) in
      let back = Linked-back l.nodes ps (i ∷ n ∷ js) none h in
      let ends : l.tail ≡ last (some n) js = tail ∙ last-append none ps (i ∷ n ∷ js) in
      let not_head : is_node i l.head ≡ false = ap (is_node i) head ∙ not_first i ps out in
      let not_tail : is_node i l.tail ≡ false =
        ap (is_node i) ends
        ∙ not_last i (some n) js (ground (arith, first_apart i n js parts.1))
            (ground (arith, first_apart i n js parts.1)) in
      (
        record l { nodes = set_next p (some n) l.nodes },
        rw (unlink, not_head, not_tail, back.0) refl,
        record {
          linked =
              Linked-append (set_next p (some n) l.nodes) ps (n ∷ js) none
                (Linked-set_next l.nodes is p (some i) (some n) (before is p parts.0)
                  (Linked-front l.nodes ps (i ∷ n ∷ js) none h))
                (Linked-put l.nodes p _ (n ∷ js) none (λ m. absurd (ground (arith, p_out, m)))
                  back.1);
          head =
              head
              ∙ first-append is (p ∷ []) none
              ∙ sym (first-append is (p ∷ []) (some n))
              ∙ sym (first-append ps (n ∷ js) none);
          tail = ends ∙ sym (last-append none ps (n ∷ js));
          length = refl;
          made = refl;
          flags = set_next-removed p (some n) l.nodes;
        },
      )

  abbrev pub Unlinks : ℕ → SinglyLinkedList A → List ℕ → List ℕ → Type 0
  Unlinks i l js is =
      Linked l.nodes (is ++ i ∷ js) none
      → Distinct (is ++ i ∷ js)
      → l.head ≡ first (is ++ i ∷ js) none
      → l.tail ≡ last none (is ++ i ∷ js)
      → (l' : SinglyLinkedList A) × (unlink i (last none is) l ≡ some l') × Unlinked l l' (is ++ js)

  Unlinks-front : (i : ℕ) (l : SinglyLinkedList A) (js : List ℕ) → Unlinks i l js []
  unfolding Distinct
  Unlinks-front i l js h u head tail = unlink_front i l js h u.0 head tail

  Unlinks-behind :
      (i : ℕ) (l : SinglyLinkedList A) (js is : List ℕ) (p : ℕ) → Unlinks i l js (is ++ p ∷ [])
  Unlinks-behind i l js is p h u head tail =
      let ps : List ℕ = is ++ p ∷ [] in
      let front =
        head
        ∙ first-append ps (i ∷ js) none
        ∙ first-append is (p ∷ []) (some i)
        ∙ sym (first-append is (p ∷ []) none) in
      let (l', e, r) = unlink_behind i l is p js h u front tail in
      (l', ap (λ q. unlink i q l) (last-append none is (p ∷ [])) ∙ e, r)

  pub unlink_lem : (i : ℕ) (l : SinglyLinkedList A) (js is : List ℕ) → Unlinks i l js is
  unlink_lem i l js is = elim (snoc-cases is) [
    | inl e ↦ subst (Unlinks i l js) (sym e) (Unlinks-front i l js)
    | inr (ks, p, e) ↦ subst (Unlinks i l js) (sym e) (Unlinks-behind i l js ks p)
  ]
