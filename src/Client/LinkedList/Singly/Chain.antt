-- ===== src/Client/LinkedList/Singly/Chain.antt =====
-- What a singly linked list holds.
use node_redis.Base.{ℕ, ◌<◌, ◌≡◌, true, false, Option, none, List, [], ◌∷◌, ◌++◌, arith, length}
use node_redis.Base.Sets.{includes}
use node_redis.Client.LinkedList.Segment.{first, last, first-append, Distinct}
use node_redis.Client.LinkedList.Singly.{SinglyLinkedNode, SinglyLinkedList, put, set_next}

module _ {A : Type 0} where
  -- The nodes `is` are linked in this order, in front of `q`.
  unfoldable pub Linked : (ℕ → SinglyLinkedNode A) → List ℕ → Option ℕ → Type 0
  Linked nodes [] q = Unit {0}
  Linked nodes (i ∷ is) q = ((nodes i).next ≡ first is q) × Linked nodes is q

  pub Linked-append :
      (nodes : ℕ → SinglyLinkedNode A) (is js : List ℕ) (q : Option ℕ)
      → Linked nodes is (first js q)
      → Linked nodes js q
      → Linked nodes (is ++ js) q
  unfolding Linked
  Linked-append nodes [] js q h k = k
  Linked-append nodes (i ∷ []) js q h k = (h.0, k)
  Linked-append nodes (i ∷ j ∷ is) js q h k = (h.0, Linked-append nodes (j ∷ is) js q h.1 k)

  pub Linked-front :
      (nodes : ℕ → SinglyLinkedNode A) (is js : List ℕ) (q : Option ℕ)
      → Linked nodes (is ++ js) q
      → Linked nodes is (first js q)
  unfolding Linked
  Linked-front nodes [] js q h = tt
  Linked-front nodes (i ∷ []) js q h = (h.0, tt)
  Linked-front nodes (i ∷ j ∷ is) js q h = (h.0, Linked-front nodes (j ∷ is) js q h.1)

  pub Linked-back :
      (nodes : ℕ → SinglyLinkedNode A) (is js : List ℕ) (q : Option ℕ)
      → Linked nodes (is ++ js) q
      → Linked nodes js q
  unfolding Linked
  Linked-back nodes [] js q h = h
  Linked-back nodes (i ∷ is) js q h = Linked-back nodes is js q h.1

  -- A node outside is written, or only what `Linked` does not read.
  pub Linked-put :
      (nodes : ℕ → SinglyLinkedNode A) (a : ℕ) (n : SinglyLinkedNode A) (is : List ℕ) (q : Option ℕ)
      → (includes a is ≡ true → n.next ≡ (nodes a).next)
      → Linked nodes is q
      → Linked (put a n nodes) is q
  unfolding Linked includes
  Linked-put nodes a n [] q same h = tt
  Linked-put nodes a n (i ∷ is) q same h =
      (ground (arith, h.0, same), Linked-put nodes a n is q (λ m. same (ground (arith, m))) h.1)

  pub Linked-set_next :
      (nodes : ℕ → SinglyLinkedNode A) (is : List ℕ) (i : ℕ) (q q' : Option ℕ)
      → includes i is ≡ false
      → Linked nodes (is ++ i ∷ []) q
      → Linked (set_next i q' nodes) (is ++ i ∷ []) q'
  unfolding Linked set_next includes
  Linked-set_next nodes [] i q q' out h = (ground arith, tt)
  Linked-set_next nodes (j ∷ is) i q q' out h = (
    ground (arith, h.0, out, first-append is (i ∷ []) q, first-append is (i ∷ []) q'),
    Linked-set_next nodes is i q q' (ground (arith, out)) h.1,
  )

  -- `l` holds the nodes `is`, and they are those that are not removed, apart from nodes `released` by
  -- a reset.
  pub record IsList (l : SinglyLinkedList A) (is released : List ℕ) : Type 0 where
    pub linked : Linked l.nodes is none
    pub distinct : Distinct is
    pub below : (i : ℕ) → includes i is ≡ true → i < l.made
    pub length : l.length ≡ length is
    pub head : l.head ≡ first is none
    pub tail : l.tail ≡ last none is
    pub present : (i : ℕ) → includes i is ≡ true → (l.nodes i).removed ≡ false
    pub absent :
        (i : ℕ)
        → includes i is ≡ false
        → includes i released ≡ false
        → i < l.made
        → (l.nodes i).removed ≡ true
