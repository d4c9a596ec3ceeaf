-- ===== src/Client/Queue/Admit.antt =====
-- commands-queue.ts: addCommand and addBatch, and the listeners of timeouts and abort signals.
-- A listener runs for a command that is still to be written, or that could not be encoded: every
-- other way out of the queue removes it.
use node_redis.Base.{
  ℕ, zero, suc, Bool, true, false, not, ◌&&◌, ◌==◌, if◌then◌else◌, Option, none, some, List, [],
  ◌∷◌, ◌++◌,
}
use node_redis.Resp.Argument.{RedisArgument}
use node_redis.Resp.Reply.{TypeMapping}
use node_redis.Client.Queue.{
  QueueError, queue_full, abort_error, timeout_error, range_error, timeout_during_maintenance,
  Settlement, rejected, Batch, head, member, Timeout, Command, Queue, has_capacity, add_to_write,
  reject_command, reject_unwritable,
}

-- The `abortSignal`, when given, by what `aborted` reads.
pub record CommandOptions : Type 0 where
  pub chain_id : Option ℕ
  pub asap : Bool
  pub abort_signal : Option Bool
  pub timeout : Option ℕ
  pub type_mapping : Option TypeMapping
  pub slot_number : Option ℕ
  pub prelude : Option (List RedisArgument)

pub record BatchCommand : Type 0 where
  pub id : ℕ
  pub args : List RedisArgument
  pub type_mapping : Option TypeMapping

pub record BatchOptions : Type 0 where
  pub chain_id : ℕ
  pub slot_number : Option ℕ
  pub timeout : Option ℕ
  pub abort_signal : Option Bool
  pub on_cancel : Bool

-- A batch whose chain is already partly written is not removed.
unfoldable pub is_batch_started : Queue → Command → Bool
is_batch_started q c = elim c.batch [
  | some head ↦ elim c.chain_id [
    | none ↦ false
    | some i ↦ elim q.chain_in_execution [ none ↦ false | some j ↦ i == j ]
  ]
  | _ ↦ false
]

unfoldable pub find_command : ℕ → List Command → Option Command
find_command id [] = none
find_command id (c ∷ cs) = let rest = find_command id cs in if c.id == id then some c else rest

-- The error of a timeout's listener, and of a timeout that has passed.
unfoldable pub timeout_rejection : Timeout → QueueError
timeout_rejection t =
    if t.was_in_maintenance then timeout_during_maintenance t.effective else timeout_error

unfoldable pub abort_listener : Queue → (id : ℕ) → Queue × List Settlement
unfolding find_command is_batch_started reject_command reject_unwritable
abort_listener q id = elim (find_command id q.to_write) [
  | none ↦ elim (find_command id q.unwritable) [
    | none ↦ (q, [])
    | some c ↦
        if c.abort && not (is_batch_started q c)
        then reject_unwritable q id abort_error
        else (q, [])
  ]
  | some c ↦
      if c.abort && not (is_batch_started q c) then reject_command q id abort_error else (q, [])
]

unfoldable pub timeout_listener : Queue → (id : ℕ) → Queue × List Settlement
unfolding find_command is_batch_started reject_command reject_unwritable
timeout_listener q id = elim (find_command id q.to_write) [
  | none ↦ elim (find_command id q.unwritable) [
    | none ↦ (q, [])
    | some c ↦ elim c.timeout [
      | none ↦ (q, [])
      | some t ↦
          if not (is_batch_started q c)
          then reject_unwritable q id (timeout_rejection t)
          else (q, [])
    ]
  ]
  | some c ↦ elim c.timeout [
    | none ↦ (q, [])
    | some t ↦
        if not (is_batch_started q c) then reject_command q id (timeout_rejection t) else (q, [])
  ]
]

-- `AbortSignal.timeout` throws on a time that it does not take.
module _ (valid_timeout : ℕ → Bool) where
  -- `if (timeout)` holds of neither undefined nor 0.
  unfoldable pub arm_timeout :
      (timeout original : Option ℕ) (was_in_maintenance : Bool)
      → Command
      → Command × Option QueueError
  arm_timeout none original was c = (c, none)
  arm_timeout (some zero) original was c = (c, none)
  arm_timeout (some (suc t)) original was c =
      if valid_timeout (suc t)
      then (
        record c {
          timeout =
              some (record { original = original; effective = suc t; was_in_maintenance = was });
        },
        none,
      )
      else (c, some range_error)

  unfoldable pub arm_abort : Option Bool → Command → Command × Option QueueError
  arm_abort none c = (c, none)
  arm_abort (some true) c = (c, some abort_error)
  arm_abort (some false) c = (record c { abort = true }, none)

  unfoldable pub arm :
      Queue → Command → (original : Option ℕ) → Option Bool → Command × Option QueueError
  unfolding arm_timeout arm_abort
  arm q c original signal =
      let timed : Command × Option QueueError = elim q.maintenance_command_timeout [
        | none ↦ arm_timeout original original false c
        | some ms ↦ arm_timeout (some ms) original true c
      ] in
      elim timed.1 [ none ↦ arm_abort signal timed.0 | some err ↦ timed ]

  unfoldable pub new_command : ℕ → List RedisArgument → CommandOptions → Command
  new_command id args o = record {
    id = id;
    args = args;
    chain_id = o.chain_id;
    abort = false;
    timeout = none;
    type_mapping = o.type_mapping;
    is_rejected = false;
    slot_number = o.slot_number;
    prelude = o.prelude;
    batch = none;
    on_cancel = false;
  }

  -- A prelude and its command are admitted together.
  unfoldable pub admission_size : CommandOptions → ℕ
  admission_size o = elim o.prelude [ none ↦ 1 | some p ↦ 2 ]

  -- The node that the code queues before it arms the command, and removes again when that throws,
  -- is queued here when it does not.
  unfoldable pub add_command :
      Queue → (id : ℕ) → List RedisArgument → CommandOptions → Queue × List Settlement
  unfolding arm new_command admission_size has_capacity add_to_write
  add_command q id args o =
      let armed = arm q (new_command id args o) o.timeout o.abort_signal in
      if not (has_capacity q (admission_size o))
      then (q, rejected id queue_full ∷ [])
      else elim o.abort_signal [
        | some true ↦ (q, rejected id abort_error ∷ [])
        | _ ↦ elim armed.1 [
          | none ↦ (add_to_write q armed.0 o.asap, [])
          | some err ↦ (q, rejected id err ∷ [])
        ]
      ]

  unfoldable pub batch_command : Batch → BatchOptions → BatchCommand → Command
  batch_command role o b = record {
    id = b.id;
    args = b.args;
    chain_id = some o.chain_id;
    abort = false;
    timeout = none;
    type_mapping = b.type_mapping;
    is_rejected = false;
    slot_number = o.slot_number;
    prelude = none;
    batch = some role;
    on_cancel = false;
  }

  -- `commands.map(...)`, where `first` says whether the batch has no head yet.
  unfoldable pub push_batch :
      Queue → BatchOptions → (first : Bool) → List BatchCommand → Queue × List Settlement
  unfolding has_capacity batch_command add_to_write
  push_batch q o first [] = (q, [])
  push_batch q o first (b ∷ bs) =
      let role = if first then head else member in
      let full = push_batch q o first bs in
      let rest = push_batch (add_to_write q (batch_command role o b) false) o false bs in
      if has_capacity q 1 then rest else (full.0, rejected b.id queue_full ∷ full.1)

  -- The node `head`, which is that of the first command that is admitted.
  unfoldable pub batch_head : Queue → BatchOptions → List BatchCommand → Option Command
  unfolding has_capacity batch_command
  batch_head q o [] = none
  batch_head q o (b ∷ bs) =
      let rest = batch_head q o bs in
      if has_capacity q 1 then some (batch_command head o b) else rest

  -- The fields of a queued command are assigned.
  unfoldable pub set_command : Command → List Command → List Command
  set_command c [] = []
  set_command c (d ∷ ds) = let rest = set_command c ds in if d.id == c.id then c ∷ ds else d ∷ rest

  unfoldable pub add_batch : Queue → List BatchCommand → BatchOptions → Queue × List Settlement
  unfolding push_batch batch_head arm set_command reject_command
  add_batch q bs o =
      let pushed = push_batch q o true bs in
      elim (batch_head q o bs) [
        | none ↦ pushed
        | some h ↦
            let armed =
              arm pushed.0 (record h { on_cancel = o.on_cancel }) o.timeout o.abort_signal in
            let q' = record (pushed.0) { to_write = set_command armed.0 pushed.0.to_write } in
            elim armed.1 [
              | none ↦ (q', pushed.1)
              | some err ↦ let r = reject_command q' h.id err in (r.0, pushed.1 ++ r.1)
            ]
      ]
