-- ===== src/Client/Queue/Tests.antt =====
-- Queues of commands-queue.ts, and the theorems of the other modules at them.
use node_redis.Base.{
  ℕ, ◌+◌, ◌≤◌, ◌≡◌, refl, ap, Bool, true, false, ◌==◌, Option, none, some, List, [], ◌∷◌, arith,
}
use node_redis.Base.Decimal.{to_string}
use node_redis.Resp.Argument.{RedisArgument, string, other}
use node_redis.Resp.Reply.{text, null}
use node_redis.Client.Queue.{
  abort_error, argument_type, given, resolved, rejected, cancelled, Command, command, Queue,
  new_queue, pending_count, has_capacity, same_chain,
}
use node_redis.Client.Queue.Admit.{
  CommandOptions, BatchCommand, BatchOptions, new_command, add_command, add_batch, abort_listener,
}
use node_redis.Client.Queue.Write.{
  commands_to_write, on_reply, write_next, encode_unit, waiting_for, settle_waiting,
}
use node_redis.Client.Queue.Move.{
  flush_waiting_for_reply, extract_commands_for_slots, prepend_commands_to_write, targets,
  in_execution, expired,
}
use node_redis.Client.Queue.Steps.{
  Operation, abort_fires, add, batch, write, reply, extract, flush, History, step, steps,
}
use node_redis.Client.Queue.Steps.Counts.{settlements, queued, refused}
use node_redis.Client.Queue.Steps.Promises.{start, steps-settle_once}
use node_redis.Client.Queue.Order.{prepend_commands_to_write-order, extract_commands_for_slots_lem}
use node_redis.Client.Queue.Replies.{on_replies, commands_to_write-order}
use node_redis.Client.Queue.Batches.{add_batch-abort}
use node_redis.Client.Queue.Capacity.{admission-within}
use node_redis.Client.Queue.Reconnect.{flush_waiting_for_reply_lem}

-- For keys of ASCII characters.
abbrev ascii : List ℕ → List ℕ
ascii s = s

abbrev any_timeout : ℕ → Bool
any_timeout t = true

abbrev never : ℕ → Bool
never id = false

abbrev plain : (chain slot : Option ℕ) → CommandOptions
plain chain slot = record {
  chain_id = chain;
  asap = false;
  abort_signal = some false;
  timeout = some 1000;
  type_mapping = none;
  slot_number = slot;
  prelude = none;
}

abbrev ping : List RedisArgument
ping = string (b'P' ∷ b'I' ∷ b'N' ∷ b'G' ∷ []) ∷ []

abbrev sample : ℕ → (chain slot : Option ℕ) → Command
sample id chain slot = new_command any_timeout id ping (plain chain slot)

-- The tail of chain 7 is not written yet, and two commands are behind it.
abbrev busy : Queue
busy = record {
  max_length = some 6;
  to_write = sample 2 (some 7) (some 5) ∷ sample 3 none (some 5) ∷ sample 4 none (some 9) ∷ [];
  waiting_for_reply = command 1 none ∷ [];
  chain_in_execution = some 7;
  maintenance_command_timeout = none;
  unwritable = [];
}

abbrev multi : BatchOptions
multi = record {
  chain_id = 8;
  slot_number = none;
  timeout = some 50;
  abort_signal = some false;
  on_cancel = true;
}

abbrev get : ℕ → BatchCommand
get id = record { id = id; args = ping; type_mapping = none }

-- A command, a batch, a write of two commands, a reply, and an extraction of slot 5.
abbrev run : List Operation
run =
    add 1 ping (plain none (some 5))
    ∷ batch (get 2 ∷ get 3 ∷ []) multi
    ∷ add 4 ping (plain none (some 5))
    ∷ write
    ∷ write
    ∷ reply null
    ∷ extract (λ n. n == 5)
    ∷ []

abbrev after_run : History
after_run = steps ascii any_timeout (start (some 6)) run

-- The first was answered, the fourth went away, and the batch is on its way.
run_lem :
    (after_run.settled ≡ resolved 1 null ∷ [])
    × (queued 4 after_run.extracted ≡ 1)
    × (after_run.queue.waiting_for_reply ≡ command 2 none ∷ [])
unfolding steps new_queue on_reply write_next add_command add_batch extract_commands_for_slots
run_lem = (refl, refl, refl)

steps-settle_once_example :
    let flushed = step ascii any_timeout after_run (flush (given 0)) in
    let found = settlements 3 flushed.settled + queued 3 flushed.extracted in
    (settlements 3 after_run.settled ≤ 1 + refused 3 after_run.settled)
    × (1 ≤ found)
    × (found ≤ 1 + refused 3 after_run.settled)
steps-settle_once_example = steps-settle_once 3 ascii any_timeout (some 6) run (given 0) refl

-- The first command of the batch cannot be encoded; the signal fires when the rest is written.
refused_head : History
refused_head = steps ascii any_timeout (start none) (
    batch (record { id = 1; args = other ∷ []; type_mapping = none } ∷ get 2 ∷ []) multi
    ∷ write
    ∷ reply null
    ∷ add 3 ping (plain none none)
    ∷ write
    ∷ abort_fires 1
    ∷ [])

refused_rejected_again :
    refused_head.settled
    ≡ rejected 1 (argument_type 0) ∷ resolved 2 null ∷ cancelled 1 ∷ rejected 1 abort_error ∷ []
unfolding refused_head steps new_queue on_reply write_next add_command add_batch abort_listener
refused_rejected_again = refl

prepend_commands_to_write-order_example :
    prepend_commands_to_write never never busy (sample 5 none none ∷ sample 6 (some 9) none ∷ [])
    ≡ (
      record busy {
        to_write =
            sample 2 (some 7) (some 5)
            ∷ sample 5 none none
            ∷ sample 6 (some 9) none
            ∷ sample 3 none (some 5)
            ∷ sample 4 none (some 9)
            ∷ [];
      },
      [],
    )
unfolding new_command expired in_execution
prepend_commands_to_write-order_example =
    prepend_commands_to_write-order never never busy
      (sample 5 none none ∷ sample 6 (some 9) none ∷ [])
      ((refl, refl, refl), ((refl, refl, refl), tt))

extract_commands_for_slots_lem_example :
    (extract_commands_for_slots busy (λ n. n == 9)).1 ≡ sample 4 none (some 9) ∷ []
unfolding targets new_command in_execution
extract_commands_for_slots_lem_example = (extract_commands_for_slots_lem busy (λ n. n == 9)).0

commands_to_write-order_example :
    on_replies (commands_to_write ascii busy).0 (null ∷ text [] ∷ null ∷ text [] ∷ [])
    ≡ some (
      record busy { to_write = []; waiting_for_reply = []; chain_in_execution = none },
      resolved 1 null ∷ resolved 2 (text []) ∷ resolved 3 null ∷ resolved 4 (text []) ∷ [],
    )
unfolding encode_unit new_command waiting_for settle_waiting to_string
commands_to_write-order_example =
    (commands_to_write-order ascii busy (null ∷ text [] ∷ null ∷ text [] ∷ []) refl).2

add_batch-abort_example :
    abort_listener (add_batch any_timeout busy (get 5 ∷ get 6 ∷ []) multi).0 5
    ≡ (busy, rejected 6 abort_error ∷ cancelled 5 ∷ rejected 5 abort_error ∷ [])
unfolding has_capacity new_command same_chain
add_batch-abort_example =
    (add_batch-abort any_timeout busy (get 5) (get 6 ∷ []) multi (λ t. refl) refl refl
      (refl, (refl, (refl, tt))) refl).1

admission-within_example :
    pending_count (add_batch any_timeout busy (get 5 ∷ get 6 ∷ get 8 ∷ []) multi).0 ≤ 6
unfolding pending_count
admission-within_example =
    (admission-within any_timeout 5 busy refl (omega arith)).1 (get 5 ∷ get 6 ∷ get 8 ∷ []) multi

flush_waiting_for_reply_lem_example :
    (flush_waiting_for_reply busy (given 0)).0.to_write
    ≡ sample 3 none (some 5) ∷ sample 4 none (some 9) ∷ []
unfolding new_command in_execution
flush_waiting_for_reply_lem_example =
    ap (λ r. r.0.to_write) (flush_waiting_for_reply_lem busy (given 0))
