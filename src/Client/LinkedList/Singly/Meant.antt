-- ===== src/Client/LinkedList/Singly/Meant.antt =====
-- What the operations of a singly linked list are meant to do.
use node_redis.Base.{
  ℕ, suc, All, ◌≡◌, Bool, true, false, not, ◌&&◌, ltb, ◌==◌, if◌then◌else◌, Option, none, some,
  List, [], ◌∷◌, ◌++◌,
}
use node_redis.Base.Sets.{includes}
use node_redis.Client.LinkedList.Contents.{Contents, ids, take_out}
use node_redis.Client.LinkedList.Singly.{SinglyLinkedList, push, shift, remove, reset}
use node_redis.Client.LinkedList.Singly.Chain.{IsList}

pub data Operation (A : Type 0) : Type 0 where
  pushed : A → Operation A
  shifted cleared : Operation A
  removed : (node : ℕ) (parent : Option ℕ) → Operation A

-- What an operation comes to: the value that `shift` returns, or nothing, or an error.
pub data Result (A : Type 0) : Type 0 where
  shifted_value : Option A → Result A
  finished threw : Result A

-- The node in front of `i`, or `p`.
unfoldable pub parent_of : Option ℕ → ℕ → List ℕ → Option ℕ
parent_of p i [] = p
parent_of p i (j ∷ is) = let rest = parent_of (some j) i is in if j == i then p else rest

unfoldable pub same_node : Option ℕ → Option ℕ → Bool
same_node none none = true
same_node (some i) (some j) = i == j
same_node p q = false

module _ {A : Type 0} where
  -- The result, and the list afterwards.
  unfoldable pub run : Operation A → SinglyLinkedList A → Result A × SinglyLinkedList A
  run (pushed v) l = elim (push v l) [ none ↦ (threw, l) | some l' ↦ (finished, l') ]
  run shifted l = (shifted_value (shift l).0, (shift l).1)
  run cleared l = (finished, reset l)
  run (removed i p) l = elim (remove i p l) [ none ↦ (threw, l) | some l' ↦ (finished, l') ]

  -- What it is meant to do to the nodes with their values, in order.
  unfoldable pub meant : Operation A → Contents A → Result A × Contents A
  unfolding take_out
  meant (pushed v) s =
      (finished, record s { made = suc s.made; items = s.items ++ (s.made, v) ∷ [] })
  meant shifted s = elim s.items [
    | [] ↦ (shifted_value none, s)
    | x ∷ xs ↦ (shifted_value (some x.1), record s { items = xs })
  ]
  meant cleared s = (finished, record s { items = []; released = ids s.items ++ s.released })
  meant (removed i p) s =
      if includes i (ids s.items)
      then (finished, record s { items = take_out i s.items })
      else (threw, s)

  -- `remove` is called with the node in front as the parent, or with a node that is gone, but not with
  -- one that a reset left behind.
  unfoldable pub may : Operation A → Contents A → Bool
  unfolding parent_of same_node
  may (removed i p) s =
      if includes i (ids s.items)
      then same_node p (parent_of none i (ids s.items))
      else ltb i s.made && not (includes i s.released)
  may o s = true

module _ {A : Type 0} where
  -- The list holds these nodes, in this order, with these values.
  pub record Represents (l : SinglyLinkedList A) (s : Contents A) : Type 0 where
    pub list : IsList l (ids s.items) s.released
    pub made : l.made ≡ s.made
    pub held : All (λ x. (l.nodes x.0).value ≡ x.1) s.items
