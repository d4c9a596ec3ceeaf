-- ===== src/Client/Queue/Steps.antt =====
-- commands-queue.ts: the operations as the steps of one queue, and what they settle.
pub mod Counts
pub mod Kept
pub mod Listeners
pub mod Admits
pub mod Settles
pub mod Promises
use node_redis.Base.{
  ℕ, zero, suc, ◌+◌, Bool, true, false, ◌==◌, if◌then◌else◌, Option, none, some, List, [], ◌∷◌,
  ◌++◌,
}
use node_redis.Resp.Argument.{RedisArgument}
use node_redis.Resp.Reply.{Reply}
use node_redis.Client.Queue.{
  QueueError, Settlement, resolved, rejected, Command, Waiting, command, Queue, new_queue,
}
use node_redis.Client.Queue.Admit.{
  CommandOptions, BatchCommand, BatchOptions, add_command, add_batch, abort_listener,
  timeout_listener,
}
use node_redis.Client.Queue.Write.{write_next, on_reply, on_error_reply}
use node_redis.Client.Queue.Move.{
  flush_waiting_for_reply, flush_all, extract_commands_for_slots, extract_all_commands,
  prepend_commands_to_write, set_maintenance_command_timeout,
}

pub data Operation : Type 0 where
  add : (id : ℕ) → List RedisArgument → CommandOptions → Operation
  batch : List BatchCommand → BatchOptions → Operation
  abort_fires timeout_fires : (id : ℕ) → Operation
  write : Operation
  reply error : Reply → Operation
  flush_waiting flush : QueueError → Operation
  extract : (ℕ → Bool) → Operation
  extract_all : Operation
  prepend : (timed_out aborted : ℕ → Bool) → List Command → Operation
  set_timeout : Option ℕ → Operation

-- A queue with all that was settled, and all the commands that were extracted.
pub record History : Type 0 where
  pub queue : Queue
  pub settled : List Settlement
  pub extracted : List Command

unfoldable pub grow : History → Queue × List Settlement → History
grow h r = record h { queue = r.0; settled = h.settled ++ r.1 }

unfoldable pub take_out : History → Queue × List Command → History
take_out h r = record h { queue = r.0; extracted = h.extracted ++ r.1 }

-- A reply when nothing waits for one throws, and leaves all as it is.
unfoldable pub received : History → Option (Queue × List Settlement) → History
unfolding grow
received h none = h
received h (some r) = grow h r

module _ (utf8 : List ℕ → List ℕ) (valid_timeout : ℕ → Bool) where
  unfoldable pub step : History → Operation → History
  unfolding grow take_out received
  step h (add id args o) = grow h (add_command valid_timeout h.queue id args o)
  step h (batch bs o) = grow h (add_batch valid_timeout h.queue bs o)
  step h (abort_fires id) = grow h (abort_listener h.queue id)
  step h (timeout_fires id) = grow h (timeout_listener h.queue id)
  step h write = let r = write_next utf8 h.queue in grow h (r.0, r.1)
  step h (reply x) = received h (on_reply h.queue x)
  step h (error x) = received h (on_error_reply h.queue x)
  step h (flush_waiting err) = grow h (flush_waiting_for_reply h.queue err)
  step h (flush err) = grow h (flush_all h.queue err)
  step h (extract slots) = take_out h (extract_commands_for_slots h.queue slots)
  step h extract_all = take_out h (extract_all_commands h.queue)
  step h (prepend timed_out aborted cs) =
      grow h (prepend_commands_to_write timed_out aborted h.queue cs)
  step h (set_timeout ms) = record h { queue = set_maintenance_command_timeout h.queue ms }

  unfoldable pub steps : History → List Operation → History
  unfolding step
  steps h [] = h
  steps h (o ∷ os) = steps (step h o) os
