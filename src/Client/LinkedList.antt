-- ===== src/Client/LinkedList.antt =====
-- packages/client/lib/client/linked-list.ts: the doubly linked list, on a store of nodes.
-- A node is named by its number, in the order in which the nodes are made: `made` is the number of the
-- next one. A node that was taken off a list is still in the store, since the caller may hold it.
pub mod Segment
pub mod Apart
pub mod Ends
pub mod Unlink
pub mod Remove
pub mod Insert
pub mod Values
pub mod Contents
pub mod Refinement
pub mod Runs
pub mod Singly
mod Tests
use node_redis.Base.{
  ℕ, zero, suc, ◌+◌, ◌-◌, Bool, true, false, not, ◌&&◌, ◌==◌, if◌then◌else◌, Option, none, some,
  List, [], ◌∷◌,
}

pub record DoublyLinkedNode (A : Type 0) : Type 0 where
  pub value : A
  pub previous : Option ℕ
  pub next : Option ℕ

unfoldable pub new_node : {A : Type 0} → A → Option ℕ → Option ℕ → DoublyLinkedNode A
new_node v p n = record { value = v; previous = p; next = n }

abbrev pub Nodes : Type 0 → Type 0
Nodes A = ℕ → DoublyLinkedNode A

pub record DoublyLinkedList (A : Type 0) : Type 0 where
  pub nodes : Nodes A
  pub made : ℕ
  pub length : ℕ
  pub head : Option ℕ
  pub tail : Option ℕ

abbrev pub is_undefined : {A : Type 0} → Option A → Bool
is_undefined none = true
is_undefined (some a) = false

-- `a === b`, of a node and of what may be undefined.
abbrev pub is_node : ℕ → Option ℕ → Bool
is_node i none = false
is_node i (some j) = i == j

module _ {A : Type 0} where
  abbrev pub at : ℕ → DoublyLinkedNode A → Nodes A → Nodes A
  at i n nodes j = if j == i then n else nodes j

  -- `node.previous = p` and `node.next = n`
  unfoldable pub set_previous : ℕ → Option ℕ → Nodes A → Nodes A
  set_previous i p nodes = at i (record (nodes i) { previous = p }) nodes

  unfoldable pub set_next : ℕ → Option ℕ → Nodes A → Nodes A
  set_next i n nodes = at i (record (nodes i) { next = n }) nodes

  unfoldable pub empty_list : Nodes A → DoublyLinkedList A
  empty_list nodes = record { nodes = nodes; made = 0; length = 0; head = none; tail = none }

  unfoldable pub push : A → DoublyLinkedList A → DoublyLinkedList A
  unfolding new_node set_next
  push v d = elim d.tail [
    | none ↦ record {
      nodes = at d.made (new_node v d.head none) d.nodes;
      made = suc d.made;
      length = suc d.length;
      head = some d.made;
      tail = some d.made;
    }
    | some t ↦ record d {
      nodes = set_next t (some d.made) (at d.made (new_node v (some t) none) d.nodes);
      made = suc d.made;
      length = suc d.length;
      tail = some d.made;
    }
  ]

  unfoldable pub unshift : A → DoublyLinkedList A → DoublyLinkedList A
  unfolding new_node set_previous
  unshift v d = elim d.head [
    | none ↦ record {
      nodes = at d.made (new_node v none none) d.nodes;
      made = suc d.made;
      length = suc d.length;
      head = some d.made;
      tail = some d.made;
    }
    | some h ↦ record d {
      nodes = set_previous h (some d.made) (at d.made (new_node v none (some h)) d.nodes);
      made = suc d.made;
      length = suc d.length;
      head = some d.made;
    }
  ]

  unfoldable pub insert_after : ℕ → A → DoublyLinkedList A → DoublyLinkedList A
  unfolding new_node set_previous set_next push
  insert_after i v d = elim (d.nodes i).next [
    | none ↦ push v d
    | some n ↦ record d {
      nodes =
          set_next i (some d.made)
            (set_previous n (some d.made) (at d.made (new_node v (some i) (some n)) d.nodes));
      made = suc d.made;
      length = suc d.length;
    }
  ]

  unfoldable pub add : A → (prepend : Bool) → DoublyLinkedList A → DoublyLinkedList A
  unfolding push unshift
  add v prepend d = if prepend then unshift v d else push v d

  unfoldable pub shift : DoublyLinkedList A → Option A × DoublyLinkedList A
  unfolding set_previous set_next
  shift d = elim d.head [
    | none ↦ (none, d)
    | some h ↦ (
      some (d.nodes h).value,
      elim (d.nodes h).next [
        | some n ↦ record d {
          nodes = set_next h none (set_previous n none d.nodes);
          length = d.length - 1;
          head = some n;
        }
        | none ↦ record d { length = d.length - 1; head = none; tail = none }
      ],
    )
  ]

  -- The two tests of `remove` that return at once.
  unfoldable pub is_detached : ℕ → DoublyLinkedList A → Bool
  is_detached i d =
      not (is_node i d.head)
      && not (is_node i d.tail)
      && is_undefined (d.nodes i).previous
      && is_undefined (d.nodes i).next

  unfoldable pub unlink_previous : ℕ → DoublyLinkedList A → DoublyLinkedList A
  unfolding set_next
  unlink_previous i d = elim (d.nodes i).previous [
    | some p ↦ record d { nodes = set_next p (d.nodes i).next d.nodes }
    | none ↦ record d { head = (d.nodes i).next }
  ]

  unfoldable pub unlink_next : ℕ → DoublyLinkedList A → DoublyLinkedList A
  unfolding set_previous
  unlink_next i d = elim (d.nodes i).next [
    | some n ↦ record d { nodes = set_previous n (d.nodes i).previous d.nodes }
    | none ↦ record d { tail = (d.nodes i).previous }
  ]

  unfoldable pub clear_links : ℕ → DoublyLinkedList A → DoublyLinkedList A
  unfolding set_previous set_next
  clear_links i d = record d { nodes = set_next i none (set_previous i none d.nodes) }

  unfoldable pub remove : ℕ → DoublyLinkedList A → DoublyLinkedList A
  unfolding is_detached unlink_previous unlink_next clear_links
  remove i d =
      if d.length == 0
      then d
      else if is_detached i d
      then d
      else clear_links i (unlink_next i (unlink_previous i (record d { length = d.length - 1 })))

  unfoldable pub reset : DoublyLinkedList A → DoublyLinkedList A
  reset d = record d { length = 0; head = none; tail = none }

  -- `*[Symbol.iterator]` and `*nodes`, whose loops take at most `fuel` rounds.
  unfoldable pub iterate : ℕ → Option ℕ → Nodes A → List A
  iterate fuel none nodes = []
  iterate zero (some i) nodes = []
  iterate (suc fuel) (some i) nodes = (nodes i).value ∷ iterate fuel (nodes i).next nodes

  unfoldable pub nodes_from : ℕ → Option ℕ → Nodes A → List ℕ
  nodes_from fuel none nodes = []
  nodes_from zero (some i) nodes = []
  nodes_from (suc fuel) (some i) nodes = i ∷ nodes_from fuel (nodes i).next nodes
