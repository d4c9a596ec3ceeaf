-- ===== src/Client/LinkedList/Segment.antt =====
-- Segments of linked nodes: what a doubly linked list is, and what a write to a node does to it.
use node_redis.Base.{ℕ, ◌≡◌, refl, true, false, Option, some, List, [], ◌∷◌, ◌++◌, arith}
use node_redis.Base.Sets.{includes}
use node_redis.Client.LinkedList.{Nodes, at, set_previous, set_next}

-- The first of `is`, or `q`; the last of `is`, or `p`.
abbrev pub first : List ℕ → Option ℕ → Option ℕ
first [] q = q
first (i ∷ is) q = some i

abbrev pub last : Option ℕ → List ℕ → Option ℕ
last p [] = p
last p (i ∷ is) = last (some i) is

unfoldable pub Distinct : List ℕ → Type 0
Distinct [] = Unit {0}
Distinct (i ∷ is) = (includes i is ≡ false) × Distinct is

pub first-append : (is js : List ℕ) (q : Option ℕ) → first (is ++ js) q ≡ first is (first js q)
first-append [] js q = refl
first-append (i ∷ is) js q = refl

pub last-append : (p : Option ℕ) (is js : List ℕ) → last p (is ++ js) ≡ last (last p is) js
last-append p [] js = refl
last-append p (i ∷ is) js = last-append (some i) is js

module _ {A : Type 0} where
  -- The nodes `is` are linked in this order, behind `p` and in front of `q`.
  unfoldable pub Linked : Nodes A → Option ℕ → List ℕ → Option ℕ → Type 0
  Linked nodes p [] q = Unit {0}
  Linked nodes p (i ∷ is) q =
      ((nodes i).previous ≡ p) × ((nodes i).next ≡ first is q) × Linked nodes (some i) is q

  pub Linked-append :
      (nodes : Nodes A) (p : Option ℕ) (is js : List ℕ) (q : Option ℕ)
      → Linked nodes p is (first js q)
      → Linked nodes (last p is) js q
      → Linked nodes p (is ++ js) q
  unfolding Linked
  Linked-append nodes p [] js q h k = k
  Linked-append nodes p (i ∷ []) js q h k = (h.0, h.1, k)
  Linked-append nodes p (i ∷ j ∷ is) js q h k =
      (h.0, h.1, Linked-append nodes (some i) (j ∷ is) js q h.2 k)

  pub Linked-front :
      (nodes : Nodes A) (p : Option ℕ) (is js : List ℕ) (q : Option ℕ)
      → Linked nodes p (is ++ js) q
      → Linked nodes p is (first js q)
  unfolding Linked
  Linked-front nodes p [] js q h = tt
  Linked-front nodes p (i ∷ []) js q h = (h.0, h.1, tt)
  Linked-front nodes p (i ∷ j ∷ is) js q h =
      (h.0, h.1, Linked-front nodes (some i) (j ∷ is) js q h.2)

  pub Linked-back :
      (nodes : Nodes A) (p : Option ℕ) (is js : List ℕ) (q : Option ℕ)
      → Linked nodes p (is ++ js) q
      → Linked nodes (last p is) js q
  unfolding Linked
  Linked-back nodes p [] js q h = h
  Linked-back nodes p (i ∷ is) js q h = Linked-back nodes (some i) is js q h.2

  -- The links of the nodes of `is` are those of other nodes.
  pub Linked-frame :
      (nodes nodes' : Nodes A) (p : Option ℕ) (is : List ℕ) (q : Option ℕ)
      → ((i : ℕ) → includes i is ≡ true → nodes' i ≡ nodes i)
      → Linked nodes p is q
      → Linked nodes' p is q
  unfolding Linked includes
  Linked-frame nodes nodes' p [] q same h = tt
  Linked-frame nodes nodes' p (i ∷ is) q same h =
      let e : nodes' i ≡ nodes i = same i (ground arith) in
      (
        rw e h.0,
        rw e h.1,
        Linked-frame nodes nodes' (some i) is q (λ j m. same j (ground (arith, m))) h.2,
      )

  pub Linked-at :
      (nodes : Nodes A) (a : ℕ) (n : _) (p : Option ℕ) (is : List ℕ) (q : Option ℕ)
      → includes a is ≡ false
      → Linked nodes p is q
      → Linked (at a n nodes) p is q
  Linked-at nodes a n p is q out h =
      Linked-frame nodes (at a n nodes) p is q (λ i m. ground (arith, out, m)) h

  -- A new last link, and a new first link.
  pub Linked-set_next :
      (nodes : Nodes A) (p : Option ℕ) (is : List ℕ) (i : ℕ) (q q' : Option ℕ)
      → includes i is ≡ false
      → Linked nodes p (is ++ i ∷ []) q
      → Linked (set_next i q' nodes) p (is ++ i ∷ []) q'
  unfolding Linked set_next includes
  Linked-set_next nodes p [] i q q' out h = (ground (arith, h.0), ground arith, tt)
  Linked-set_next nodes p (j ∷ is) i q q' out h = (
    ground (arith, h.0, out),
    ground (arith, h.1, out, first-append is (i ∷ []) q, first-append is (i ∷ []) q'),
    Linked-set_next nodes (some j) is i q q' (ground (arith, out)) h.2,
  )

  pub Linked-set_previous :
      (nodes : Nodes A) (p p' : Option ℕ) (i : ℕ) (is : List ℕ) (q : Option ℕ)
      → includes i is ≡ false
      → Linked nodes p (i ∷ is) q
      → Linked (set_previous i p' nodes) p' (i ∷ is) q
  unfolding Linked set_previous
  Linked-set_previous nodes p p' i is q out h =
      (ground arith, ground (arith, h.1), Linked-at nodes i _ (some i) is q out h.2)
