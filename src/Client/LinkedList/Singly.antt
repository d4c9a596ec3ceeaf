-- ===== src/Client/LinkedList/Singly.antt =====
-- client/linked-list.ts: the singly linked list, on a store of nodes, and the one that tells when it
-- becomes empty.
pub mod Chain
pub mod Order
pub mod Unlink
pub mod Taken
pub mod Meant
pub mod Held
pub mod Runs
mod Tests
use node_redis.Base.{
  ℕ, suc, ◌-◌, Bool, true, false, not, ◌&&◌, ◌==◌, if◌then◌else◌, Option, none, some,
}
use node_redis.Client.LinkedList.{is_node}

pub record SinglyLinkedNode (A : Type 0) : Type 0 where
  pub value : A
  pub next : Option ℕ
  pub removed : Bool

pub record SinglyLinkedList (A : Type 0) : Type 0 where
  pub nodes : ℕ → SinglyLinkedNode A
  pub made : ℕ
  pub length : ℕ
  pub head : Option ℕ
  pub tail : Option ℕ

module _ {A : Type 0} where
  abbrev pub put : ℕ → SinglyLinkedNode A → (ℕ → SinglyLinkedNode A) → ℕ → SinglyLinkedNode A
  put i n nodes j = if j == i then n else nodes j

  unfoldable pub set_next : ℕ → Option ℕ → (ℕ → SinglyLinkedNode A) → ℕ → SinglyLinkedNode A
  set_next i n nodes = put i (record (nodes i) { next = n }) nodes

  unfoldable pub set_removed : ℕ → (ℕ → SinglyLinkedNode A) → ℕ → SinglyLinkedNode A
  set_removed i nodes = put i (record (nodes i) { removed = true }) nodes

  -- `none` where `this.#tail!.next` throws: at a head without a tail.
  unfoldable pub push : A → SinglyLinkedList A → Option (SinglyLinkedList A)
  unfolding set_next
  push v l =
      let nodes = put l.made (record { value = v; next = none; removed = false }) l.nodes in
      elim l.head [
        | none ↦ some (record {
          nodes = nodes;
          made = suc l.made;
          length = suc l.length;
          head = some l.made;
          tail = some l.made;
        })
        | some h ↦ elim l.tail [
          | none ↦ none
          | some t ↦ some (record l {
            nodes = set_next t (some l.made) nodes;
            made = suc l.made;
            length = suc l.length;
            tail = some l.made;
          })
        ]
      ]

  unfoldable pub shift : SinglyLinkedList A → Option A × SinglyLinkedList A
  unfolding set_removed
  shift l = elim l.head [
    | none ↦ (none, l)
    | some h ↦ (
      some (l.nodes h).value,
      if l.length - 1 == 0
          then record l {
            nodes = set_removed h l.nodes;
            length = l.length - 1;
            head = none;
            tail = none;
          }
          else record l {
            nodes = set_removed h l.nodes;
            length = l.length - 1;
            head = (l.nodes h).next;
          },
    )
  ]

  -- `parent!.next = n`, which throws where there is no parent.
  unfoldable pub set_parent_next :
      Option ℕ → Option ℕ → SinglyLinkedList A → Option (SinglyLinkedList A)
  unfolding set_next
  set_parent_next none n l = none
  set_parent_next (some p) n l = some (record l { nodes = set_next p n l.nodes })

  unfoldable pub unlink : ℕ → (parent : Option ℕ) → SinglyLinkedList A → Option (SinglyLinkedList A)
  unfolding set_parent_next
  unlink i parent l =
      if is_node i l.head
      then (if is_node i l.tail
          then some (record l { head = none; tail = none })
          else some (record l { head = (l.nodes i).next }))
      else if is_node i l.tail
      then set_parent_next parent none (record l { tail = parent })
      else set_parent_next parent (l.nodes i).next l

  -- `none` where it throws. A length is not below 0 here: the code comes to -1 where it removes, from an
  -- empty list, a node that a reset left behind.
  unfoldable pub remove : ℕ → (parent : Option ℕ) → SinglyLinkedList A → Option (SinglyLinkedList A)
  unfolding unlink set_removed
  remove i parent l =
      if (l.nodes i).removed
      then none
      else elim (unlink i parent (record l { length = l.length - 1 })) [
        | none ↦ none
        | some l' ↦ some (record l' { nodes = set_removed i l'.nodes })
      ]

  unfoldable pub reset : SinglyLinkedList A → SinglyLinkedList A
  reset l = record l { length = 0; head = none; tail = none }

  -- Whether `EmptyAwareSinglyLinkedList` emits `empty` between two states of the list.
  unfoldable pub emits_empty : SinglyLinkedList A → SinglyLinkedList A → Bool
  emits_empty old l = not (old.length == l.length) && (l.length == 0)
