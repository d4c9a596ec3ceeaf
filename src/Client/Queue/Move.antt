-- ===== src/Client/Queue/Move.antt =====
-- commands-queue.ts: the flushes, and the moves of commands from one queue to another.
use node_redis.Base.{
  ℕ, Bool, true, false, ◌&&◌, if◌then◌else◌, Option, none, some, List, [], ◌∷◌, ◌++◌, map, ◌==◌,
}
use node_redis.Client.Queue.{
  QueueError, abort_error, Settlement, rejected, prelude_replied, member, Command, Waiting, command,
  prelude, Queue, in_chain, insert_at_front, reject_command,
}
use node_redis.Client.Queue.Admit.{is_batch_started, timeout_rejection}

unfoldable pub flush_waiting : QueueError → Waiting → Settlement
flush_waiting err (command id m) = rejected id err
flush_waiting err (prelude id) = prelude_replied id (some err)

unfoldable pub flush_to_write : QueueError → Command → Settlement
flush_to_write err c = rejected c.id err

-- The `while` loop of flushWaitingForReply: the unwritten tail of chain `i` is rejected.
unfoldable pub flush_chain : ℕ → QueueError → List Command → List Command × List Settlement
unfolding in_chain flush_to_write
flush_chain i err [] = ([], [])
flush_chain i err (c ∷ cs) =
    let rest = flush_chain i err cs in
    if in_chain i c then (rest.0, flush_to_write err c ∷ rest.1) else (c ∷ cs, [])

unfoldable pub flush_waiting_for_reply : Queue → QueueError → Queue × List Settlement
unfolding flush_waiting flush_chain
flush_waiting_for_reply q err =
    let flushed = map (flush_waiting err) q.waiting_for_reply in
    elim q.chain_in_execution [
      | none ↦ (record q { waiting_for_reply = [] }, flushed)
      | some i ↦
          let tail = flush_chain i err q.to_write in
          (
            record q { waiting_for_reply = []; to_write = tail.0; chain_in_execution = none },
            flushed ++ tail.1,
          )
    ]

unfoldable pub flush_all : Queue → QueueError → Queue × List Settlement
unfolding flush_waiting flush_to_write
flush_all q err = (
  record q { waiting_for_reply = []; to_write = [] },
  map (flush_waiting err) q.waiting_for_reply ++ map (flush_to_write err) q.to_write,
)

-- `slotNumber !== undefined && slots.has(slotNumber)`.
unfoldable pub targets : (ℕ → Bool) → Command → Bool
targets slots c = elim c.slot_number [ none ↦ false | some n ↦ slots n ]

unfoldable pub in_execution : Option ℕ → Command → Bool
unfolding in_chain
in_execution none c = false
in_execution (some i) c = in_chain i c

-- The commands taken, and those that stay.
unfoldable pub extract_in : Option ℕ → (ℕ → Bool) → List Command → List Command × List Command
unfolding targets in_execution
extract_in chain slots [] = ([], [])
extract_in chain slots (c ∷ cs) =
    let rest = extract_in chain slots cs in
    if targets slots c
    then (if in_execution chain c then ([], c ∷ cs) else (c ∷ rest.0, rest.1))
    else (rest.0, c ∷ rest.1)

unfoldable pub extract_commands_for_slots : Queue → (ℕ → Bool) → Queue × List Command
unfolding extract_in
extract_commands_for_slots q slots =
    let r = extract_in q.chain_in_execution slots q.to_write in (record q { to_write = r.1 }, r.0)

unfoldable pub extract_all_commands : Queue → Queue × List Command
extract_all_commands q = (record q { to_write = [] }, q.to_write)

-- Extracted commands that could not be moved: the same commands after the call, and the rejections.
unfoldable pub reject_commands : List Command → QueueError → List Command × List Settlement
reject_commands [] err = ([], [])
reject_commands (c ∷ cs) err =
    let rest = reject_commands cs err in
    if c.is_rejected then (c ∷ rest.0, rest.1) else (
      record c { is_rejected = true; abort = false; timeout = none } ∷ rest.0,
      rejected c.id err ∷ rest.1,
    )

-- `timed_out` and `aborted` say which commands' signals have fired while they were in no queue.
module _ (timed_out aborted : ℕ → Bool) where
  unfoldable pub expired : Command → Option QueueError
  unfolding timeout_rejection
  expired c =
      let by_signal = if c.abort && aborted c.id then some abort_error else none in
      elim c.timeout [
        | none ↦ by_signal
        | some t ↦ if timed_out c.id then some (timeout_rejection t) else by_signal
      ]

  -- The turn of the loop for `c`. The node of a rejected command is inserted and removed at once.
  unfoldable pub prepend_command : Queue → Command → Queue × List Settlement
  unfolding insert_at_front expired reject_command
  prepend_command q c =
      let q' = record q { to_write = insert_at_front q.chain_in_execution c q.to_write } in
      if c.is_rejected
      then (q, [])
      else elim (expired c) [ none ↦ (q', []) | some err ↦ reject_command q' c.id err ]

  -- In reverse, so the order of the commands is kept.
  unfoldable pub prepend_commands_to_write : Queue → List Command → Queue × List Settlement
  unfolding prepend_command
  prepend_commands_to_write q [] = (q, [])
  prepend_commands_to_write q (c ∷ cs) =
      let later = prepend_commands_to_write q cs in
      let turn = prepend_command later.0 c in (turn.0, later.1 ++ turn.1)

-- The timers of the commands that are still to be written are set anew. A batch has the timer of its
-- first command, and a started one is not cancelled any more. `AbortSignal.timeout` takes `ms`.
unfoldable pub retime : Queue → ℕ → Command → Command
unfolding is_batch_started
retime q ms c =
    let timed = record c {
      timeout = some (record {
        original = elim c.timeout [ none ↦ none | some t ↦ t.original ];
        effective = ms;
        was_in_maintenance = true;
      });
    } in
    elim c.batch [ some member ↦ c | _ ↦ if is_batch_started q c then c else timed ]

unfoldable pub set_maintenance_command_timeout : Queue → Option ℕ → Queue
unfolding retime
set_maintenance_command_timeout q none = record q { maintenance_command_timeout = none }
set_maintenance_command_timeout q (some ms) =
    let again : Bool = elim q.maintenance_command_timeout [ none ↦ false | some n ↦ n == ms ] in
    if again
    then q
    else record q { maintenance_command_timeout = some ms; to_write = map (retime q ms) q.to_write }
