-- ===== src/Client/Queue.antt =====
-- packages/client/lib/client/commands-queue.ts: the commands of a client, from the call to the reply.
-- A promise and the node of its command are the command's `id`. What the code does to promises and
-- callbacks (`resolve`, `reject`, `onReply`, `onCancel`) is the list of settlements of an operation.
-- The model has the commands and batches of users; the commands of PubSub, MONITOR and RESET, whose
-- callbacks change other objects, and the decoder's own state are not part of it.
pub mod Admit
pub mod Write
pub mod Move
pub mod Steps
pub mod Order
pub mod Replies
pub mod Batches
pub mod Capacity
pub mod Reconnect
mod Tests
use node_redis.Base.{
  ℕ, zero, suc, ◌+◌, Bool, true, false, ◌&&◌, not, leb, ◌==◌, if◌then◌else◌, Option, none, some,
  List, [], ◌∷◌, ◌++◌, length,
}
use node_redis.Resp.Argument.{RedisArgument}
use node_redis.Resp.Reply.{Reply, TypeMapping}

-- The errors that reject a promise. `given` is an error that the caller passes.
pub data QueueError : Type 0 where
  queue_full abort_error timeout_error range_error : QueueError
  timeout_during_maintenance : ℕ → QueueError
  argument_type : (index : ℕ) → QueueError
  error_reply : Reply → QueueError
  given : ℕ → QueueError

pub data Settlement : Type 0 where
  resolved : (id : ℕ) → Reply → Settlement
  rejected : (id : ℕ) → QueueError → Settlement
  prelude_replied : (id : ℕ) → Option QueueError → Settlement
  cancelled : (id : ℕ) → Settlement

pub data Batch : Type 0 where
  head member : Batch

pub record Timeout : Type 0 where
  pub original : Option ℕ
  pub effective : ℕ
  pub was_in_maintenance : Bool

-- `abort` and `timeout` hold while the command listens to a signal.
pub record Command : Type 0 where
  pub id : ℕ
  pub args : List RedisArgument
  pub chain_id : Option ℕ
  pub abort : Bool
  pub timeout : Option Timeout
  pub type_mapping : Option TypeMapping
  pub is_rejected : Bool
  pub slot_number : Option ℕ
  pub prelude : Option (List RedisArgument)
  pub batch : Option Batch
  pub on_cancel : Bool

pub data Waiting : Type 0 where
  command : (id : ℕ) → Option TypeMapping → Waiting
  prelude : (id : ℕ) → Waiting

-- `unwritable` are the commands that could not be encoded. They are off every list, but their
-- listeners are still on; the code has them in the closures of those listeners.
pub record Queue : Type 0 where
  pub max_length : Option ℕ
  pub to_write : List Command
  pub waiting_for_reply : List Waiting
  pub chain_in_execution : Option ℕ
  pub maintenance_command_timeout : Option ℕ
  pub unwritable : List Command

unfoldable pub new_queue : Option ℕ → Queue
new_queue max_length = record {
  max_length = max_length;
  to_write = [];
  waiting_for_reply = [];
  chain_in_execution = none;
  maintenance_command_timeout = none;
  unwritable = [];
}

unfoldable pub pending_count : Queue → ℕ
pending_count q = length q.to_write + length q.waiting_for_reply

-- `!this.#maxLength` holds of undefined, null and 0.
unfoldable pub within : Option ℕ → ℕ → Bool
within none n = true
within (some zero) n = true
within (some (suc m)) n = leb n (suc m)

unfoldable pub has_capacity : Queue → ℕ → Bool
unfolding within pending_count
has_capacity q size = within q.max_length (pending_count q + size)

unfoldable pub is_empty : Queue → Bool
is_empty q = (length q.to_write == 0) && (length q.waiting_for_reply == 0)

unfoldable pub is_waiting_to_write : Queue → Bool
is_waiting_to_write q = not (length q.to_write == 0)

-- `chainId === ...` where neither is undefined, and where both may be.
unfoldable pub in_chain : ℕ → Command → Bool
in_chain i c = elim c.chain_id [ none ↦ false | some j ↦ i == j ]

unfoldable pub same_chain : Option ℕ → Option ℕ → Bool
same_chain none none = true
same_chain (some i) (some j) = i == j
same_chain _ _ = false

-- The commands behind the unwritten tail of chain `i`, and `v` between the two.
unfoldable pub insert_after_chain : (i : ℕ) (v : Command) → List Command → List Command
unfolding in_chain
insert_after_chain i v [] = v ∷ []
insert_after_chain i v (c ∷ cs) =
    let rest = insert_after_chain i v cs in if in_chain i c then c ∷ rest else v ∷ c ∷ cs

unfoldable pub insert_at_front : Option ℕ → Command → List Command → List Command
unfolding insert_after_chain
insert_at_front none v cs = v ∷ cs
insert_at_front (some i) v cs = insert_after_chain i v cs

unfoldable pub add_to_write : Queue → Command → (asap : Bool) → Queue
unfolding insert_at_front
add_to_write q v asap = record q {
  to_write =
      if asap then insert_at_front q.chain_in_execution v q.to_write else q.to_write ++ v ∷ [];
}

-- The members of chain `i` right behind the first command of a batch are removed.
unfoldable pub reject_members :
    Option ℕ → QueueError → List Command → List Command × List Settlement
unfolding same_chain
reject_members i err [] = ([], [])
reject_members i err (c ∷ cs) =
    let rest = reject_members i err cs in
    elim c.batch [
      | some member ↦
          if same_chain c.chain_id i then (rest.0, rejected c.id err ∷ rest.1) else (c ∷ cs, [])
      | _ ↦ (c ∷ cs, [])
    ]

unfoldable pub cancellation : Command → List Settlement
cancellation c = if c.on_cancel then cancelled c.id ∷ [] else []

-- The node of `c` is removed, where `cs` are the commands behind it.
unfoldable pub reject_node : Command → QueueError → List Command → List Command × List Settlement
unfolding reject_members cancellation
reject_node c err cs =
    let members = reject_members c.chain_id err cs in
    if c.is_rejected then (c ∷ cs, []) else elim c.batch [
      | some head ↦ (members.0, members.1 ++ (cancellation c ++ rejected c.id err ∷ []))
      | _ ↦ (cs, rejected c.id err ∷ [])
    ]

unfoldable pub reject_in : ℕ → QueueError → List Command → List Command × List Settlement
unfolding reject_node
reject_in id err [] = ([], [])
reject_in id err (c ∷ cs) =
    let rest = reject_in id err cs in
    if c.id == id then reject_node c err cs else (c ∷ rest.0, rest.1)

unfoldable pub reject_command : Queue → (id : ℕ) → QueueError → Queue × List Settlement
unfolding reject_in
reject_command q id err =
    (record q { to_write = (reject_in id err q.to_write).0 }, (reject_in id err q.to_write).1)

-- `#rejectCommand` on a command that could not be encoded: its node is in no list and has none behind
-- it, and `rejected` is not set yet.
unfoldable pub reject_unwritable_in : ℕ → QueueError → List Command → List Command × List Settlement
unfolding cancellation
reject_unwritable_in id err [] = ([], [])
reject_unwritable_in id err (c ∷ cs) =
    let rest = reject_unwritable_in id err cs in
    if c.id == id
    then (if c.is_rejected then (c ∷ cs, []) else elim c.batch [
      | some head ↦ (cs, cancellation c ++ rejected c.id err ∷ [])
      | _ ↦ (cs, rejected c.id err ∷ [])
    ])
    else (c ∷ rest.0, rest.1)

unfoldable pub reject_unwritable : Queue → (id : ℕ) → QueueError → Queue × List Settlement
unfolding reject_unwritable_in
reject_unwritable q id err = (
  record q { unwritable = (reject_unwritable_in id err q.unwritable).0 },
  (reject_unwritable_in id err q.unwritable).1,
)
