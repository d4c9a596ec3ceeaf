-- ===== src/Client/LinkedList/Singly/Held.antt =====
-- The nodes of a singly linked list with their values, and one of them in its place.
use node_redis.Base.{
  ℕ, All, ==_refl, ◌<◌, ◌≡◌, refl, sym, subst, ap, ◌∙◌, true, false, ◌==◌, ==_iff, if◌then◌else◌,
  Option, none, some, List, [], ◌∷◌, ◌++◌, arith, Bool-cases, inl, inr,
}
use node_redis.Base.Sets.{includes, discard}
use node_redis.Client.LinkedList.Contents.{ids, take_out}
use node_redis.Client.LinkedList.Segment.{last, Distinct}
use node_redis.Client.LinkedList.Singly.{SinglyLinkedList}
use node_redis.Client.LinkedList.Singly.Meant.{parent_of, same_node}

pub discard_absent : (i : ℕ) (is : List ℕ) → includes i is ≡ false → discard i is ≡ is
unfolding includes discard
discard_absent i [] h = refl
discard_absent i (j ∷ is) h = ground (arith, h, discard_absent i is)

pub split_ids :
    (p : Option ℕ) (i : ℕ) (is : List ℕ)
    → includes i is ≡ true
    → Distinct is
    → (js : List ℕ) × (ks : List ℕ) × (is ≡ js ++ i ∷ ks)
      × (parent_of p i is ≡ last p js)
      × (discard i is ≡ js ++ ks)
unfolding includes parent_of discard Distinct
split_ids p i [] m u = absurd (cc)
split_ids p i (j ∷ is) m u = elim (Bool-cases (j == i)) [
  | inl e ↦
      let same : j ≡ i = (==_iff j i).0 e in
      (
        [],
        is,
        ap (λ (k : ℕ). k ∷ is) same,
        rw (parent_of, e) refl,
        rw (discard, e) (discard_absent i is (subst (λ (k : ℕ). includes k is ≡ false) same u.0)),
      )
  | inr e ↦
      let (js, ks, split, parent, rest) = split_ids (some j) i is (ground (arith, m, e)) u.1 in
      (j ∷ js, ks, ap (◌∷◌ j) split, rw (parent_of, e) parent, rw (discard, e) (ap (◌∷◌ j) rest))
]

pub same_node_lem : (p q : Option ℕ) → same_node p q ≡ true → p ≡ q
unfolding same_node
same_node_lem none none h = refl
same_node_lem none (some j) h = absurd (cc)
same_node_lem (some i) none h = absurd (cc)
same_node_lem (some i) (some j) h = ap some ((==_iff i j).0 h)

module _ {A : Type 0} where
  pub Held-kept :
      (l l' : SinglyLinkedList A) (xs : List (ℕ × A))
      → ((j : ℕ) → (l'.nodes j).value ≡ (l.nodes j).value)
      → All (λ x. (l.nodes x.0).value ≡ x.1) xs
      → All (λ x. (l'.nodes x.0).value ≡ x.1) xs
  Held-kept l l' [] same h = tt
  Held-kept l l' (x ∷ xs) same h = (same x.0 ∙ h.0, Held-kept l l' xs same h.1)

  pub Held-made :
      (l l' : SinglyLinkedList A) (v : A) (xs : List (ℕ × A))
      → ((j : ℕ) → (l'.nodes j).value ≡ (if j == l.made then v else (l.nodes j).value))
      → ((j : ℕ) → includes j (ids xs) ≡ true → j < l.made)
      → All (λ x. (l.nodes x.0).value ≡ x.1) xs
      → All (λ x. (l'.nodes x.0).value ≡ x.1) (xs ++ (l.made, v) ∷ [])
  unfolding includes
  Held-made l l' v [] same below h = (same l.made ∙ rw (==_refl l.made) refl, tt)
  Held-made l l' v (x ∷ xs) same below h = (
    same x.0 ∙ (ground (arith, below x.0, ==_refl x.0, h.0)),
    Held-made l l' v xs same (λ j m. below j (ground (arith, m))) h.1,
  )

  pub Held-without :
      (l : SinglyLinkedList A) (i : ℕ) (xs : List (ℕ × A))
      → All (λ x. (l.nodes x.0).value ≡ x.1) xs
      → All (λ x. (l.nodes x.0).value ≡ x.1) (take_out i xs)
  unfolding take_out
  Held-without l i [] h = tt
  Held-without l i (x ∷ xs) h = elim (Bool-cases (x.0 == i)) [
    | inl e ↦ rw (take_out, e) (h.1)
    | inr e ↦ rw (take_out, e) (h.0, Held-without l i xs h.1)
  ]

  pub ids-take_out :
      (i : ℕ) (xs : List (ℕ × A)) → Distinct (ids xs) → ids (take_out i xs) ≡ discard i (ids xs)
  unfolding take_out discard Distinct
  ids-take_out i [] u = refl
  ids-take_out i (x ∷ xs) u = elim (Bool-cases (x.0 == i)) [
    | inl e ↦
        let same : x.0 ≡ i = (==_iff x.0 i).0 e in
        rw (take_out, discard, e)
          (sym
            (discard_absent i (ids xs) (subst (λ (k : ℕ). includes k (ids xs) ≡ false) same u.0)))
    | inr e ↦ rw (take_out, discard, e) (ap (◌∷◌ x.0) (ids-take_out i xs u.1))
  ]
