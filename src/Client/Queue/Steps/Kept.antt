-- ===== src/Client/Queue/Steps/Kept.antt =====
-- Which operations of commands-queue.ts leave the commands that could not be encoded as they are.
use node_redis.Base.{
  ℕ, ◌≡◌, refl, ◌∙◌, Bool, true, false, if◌then◌else◌, Option, none, some, List, [], ◌∷◌, arith,
}
use node_redis.Resp.Argument.{RedisArgument}
use node_redis.Client.Queue.{QueueError, head, member, Command, Queue, add_to_write, reject_command}
use node_redis.Client.Queue.Admit.{
  CommandOptions, BatchCommand, BatchOptions, batch_command, push_batch, add_command, add_batch,
}
use node_redis.Client.Queue.Move.{
  flush_waiting_for_reply, prepend_command, prepend_commands_to_write,
  set_maintenance_command_timeout,
}

module _ (valid_timeout : ℕ → Bool) where
  pub unwritable-add_command :
      (q : Queue) (id : ℕ) (args : List RedisArgument) (o : CommandOptions)
      → (add_command valid_timeout q id args o).0.unwritable ≡ q.unwritable
  unfolding add_command add_to_write
  unwritable-add_command q id args o = ground arith

  unwritable-push_batch :
      (q : Queue) (o : BatchOptions) (first : Bool) (bs : List BatchCommand)
      → (push_batch valid_timeout q o first bs).0.unwritable ≡ q.unwritable
  unfolding push_batch add_to_write
  unwritable-push_batch q o first [] = refl
  unwritable-push_batch q o first (b ∷ bs) =
      let c = batch_command valid_timeout (if first then head else member) o b in
      ground (
        arith,
        unwritable-push_batch (add_to_write q c false) o false bs,
        unwritable-push_batch q o first bs,
      )

  pub unwritable-add_batch :
      (q : Queue) (bs : List BatchCommand) (o : BatchOptions)
      → (add_batch valid_timeout q bs o).0.unwritable ≡ q.unwritable
  unfolding add_batch reject_command
  unwritable-add_batch q bs o = ground (arith, unwritable-push_batch q o true bs)

pub unwritable-flush_waiting_for_reply :
    (q : Queue) (err : QueueError) → (flush_waiting_for_reply q err).0.unwritable ≡ q.unwritable
unfolding flush_waiting_for_reply
unwritable-flush_waiting_for_reply q err = ground arith

module _ (timed_out aborted : ℕ → Bool) where
  unwritable-prepend_command :
      (q : Queue) (c : Command)
      → (prepend_command timed_out aborted q c).0.unwritable ≡ q.unwritable
  unfolding prepend_command reject_command
  unwritable-prepend_command q c = ground arith

  pub unwritable-prepend_commands_to_write :
      (q : Queue) (cs : List Command)
      → (prepend_commands_to_write timed_out aborted q cs).0.unwritable ≡ q.unwritable
  unfolding prepend_commands_to_write
  unwritable-prepend_commands_to_write q [] = refl
  unwritable-prepend_commands_to_write q (c ∷ cs) =
      unwritable-prepend_command (prepend_commands_to_write timed_out aborted q cs).0 c
      ∙ unwritable-prepend_commands_to_write q cs

pub unwritable-set_maintenance_command_timeout :
    (q : Queue) (ms : Option ℕ) → (set_maintenance_command_timeout q ms).unwritable ≡ q.unwritable
unfolding set_maintenance_command_timeout
unwritable-set_maintenance_command_timeout q none = refl
unwritable-set_maintenance_command_timeout q (some ms) = ground arith
