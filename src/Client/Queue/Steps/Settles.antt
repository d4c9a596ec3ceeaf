-- ===== src/Client/Queue/Steps/Settles.antt =====
-- The other operations of commands-queue.ts account for the promises: what leaves the queue is settled
-- or handed out, and nothing else is.
use node_redis.Base.{
  ℕ, ◌+◌, ◌≡◌, refl, Bool, if◌then◌else◌, Option, none, some, List, [], ◌∷◌, arith, map,
  Option-cases, inl, inr,
}
use node_redis.Resp.Reply.{Reply}
use node_redis.Client.Queue.{
  QueueError, Settlement, Command, Waiting, command, prelude, Queue, insert_at_front,
}
use node_redis.Client.Queue.Write.{
  waiting_for, write_one, write_until, write_next, settle_waiting, shift_waiting,
}
use node_redis.Client.Queue.Move.{
  flush_waiting, flush_to_write, flush_chain, flush_waiting_for_reply, flush_all, extract_in,
  prepend_command, prepend_commands_to_write, retime, set_maintenance_command_timeout, expired,
}
use node_redis.Client.Queue.Steps.{Operation, add, batch, prepend}
use node_redis.Client.Queue.Steps.Admits.{batch_ids}
use node_redis.Client.Queue.Steps.Counts.{
  one, settlements, refused, queued, late, awaiting, pending, settlements-append, refused-append,
  queued-append, awaiting-append, queued-insert_at_front, counts-reject_command, Accounts,
}

-- Commands that were rejected while they were in no queue are not queued again.
abbrev pub live : ℕ → List Command → ℕ
live x [] = 0
live x (c ∷ cs) = (if c.is_rejected then 0 else one x c.id) + live x cs

-- How often an operation submits the promise `x`.
abbrev pub submitted : ℕ → Operation → ℕ
submitted x (add id args o) = one x id
submitted x (batch bs o) = batch_ids x bs
submitted x (prepend timed_out aborted cs) = live x cs
submitted x _ = 0

abbrev pub all_submitted : ℕ → List Operation → ℕ
all_submitted x [] = 0
all_submitted x (o ∷ os) = submitted x o + all_submitted x os

module _ (x : ℕ) where
  awaiting-waiting_for : (c : Command) → awaiting x (waiting_for c) ≡ one x c.id
  unfolding waiting_for
  awaiting-waiting_for c = ground arith

  counts-write_until :
      (utf8 : List ℕ → List ℕ) (cs : List Command) (q : Queue)
      → let r = write_until utf8 cs q in
        pending x r.0 + settlements x r.1 ≡ queued x cs + awaiting x q.waiting_for_reply
  unfolding write_until write_one
  counts-write_until utf8 [] q = omega arith
  counts-write_until utf8 (c ∷ cs) q =
      let q' = record q { to_write = cs } in
      let turn = write_one utf8 c q' in
      ground (
        arith,
        counts-write_until utf8 cs turn.0,
        settlements-append x turn.1 (write_until utf8 cs turn.0).1,
        awaiting-append x q.waiting_for_reply (waiting_for c),
        awaiting-waiting_for c,
      )

  late-write_until :
      (utf8 : List ℕ → List ℕ) (cs : List Command) (q : Queue)
      → let r = write_until utf8 cs q in late x r.0 ≡ late x q + refused x r.1
  unfolding write_until write_one
  late-write_until utf8 [] q = omega arith
  late-write_until utf8 (c ∷ cs) q =
      let q' = record q { to_write = cs } in
      let turn = write_one utf8 c q' in
      ground (
        arith,
        late-write_until utf8 cs turn.0,
        refused-append x turn.1 (write_until utf8 cs turn.0).1,
        queued-append x q.unwritable (c ∷ []),
      )

  pub write_next-Accounts :
      (utf8 : List ℕ → List ℕ) (q : Queue)
      → Accounts x 0 q ((write_next utf8 q).0, (write_next utf8 q).1)
  unfolding write_next
  write_next-Accounts utf8 q =
      let e = counts-write_until utf8 q.to_write q in
      let l = late-write_until utf8 q.to_write q in
      record { kept = omega (arith, e); bounded = omega (arith, e, l) }

  pub counts-shift_waiting :
      (q : Queue) (err : Option QueueError) (y : Reply) (r : Queue × List Settlement)
      → shift_waiting q err y ≡ some r
      → (pending x r.0 + settlements x r.1 ≡ pending x q) × (r.0.unwritable ≡ q.unwritable)
  unfolding shift_waiting settle_waiting
  counts-shift_waiting q err y r h = (ground arith, ground arith)

  settlements-flush_waiting :
      (err : QueueError) (ws : List Waiting)
      → settlements x (map (flush_waiting err) ws) ≡ awaiting x ws
  unfolding flush_waiting
  settlements-flush_waiting err [] = refl
  settlements-flush_waiting err (command id m ∷ ws) =
      omega (arith, settlements-flush_waiting err ws)
  settlements-flush_waiting err (prelude id ∷ ws) = settlements-flush_waiting err ws

  settlements-flush_to_write :
      (err : QueueError) (cs : List Command)
      → settlements x (map (flush_to_write err) cs) ≡ queued x cs
  unfolding flush_to_write
  settlements-flush_to_write err [] = refl
  settlements-flush_to_write err (c ∷ cs) = omega (arith, settlements-flush_to_write err cs)

  counts-flush_chain :
      (i : ℕ) (err : QueueError) (cs : List Command)
      → let r = flush_chain i err cs in queued x r.0 + settlements x r.1 ≡ queued x cs
  unfolding flush_chain flush_to_write
  counts-flush_chain i err [] = refl
  counts-flush_chain i err (c ∷ cs) = ground (arith, counts-flush_chain i err cs)

  pub counts-flush_waiting_for_reply :
      (q : Queue) (err : QueueError)
      → let r = flush_waiting_for_reply q err in pending x r.0 + settlements x r.1 ≡ pending x q
  unfolding flush_waiting_for_reply
  counts-flush_waiting_for_reply q err = elim (Option-cases q.chain_in_execution) [
    | inl idle ↦ ground (arith, settlements-flush_waiting err q.waiting_for_reply)
    | inr (i, executing) ↦ ground (
      arith,
      settlements-flush_waiting err q.waiting_for_reply,
      counts-flush_chain i err q.to_write,
      settlements-append x (map (flush_waiting err) q.waiting_for_reply)
          (flush_chain i err q.to_write).1,
    )
  ]

  pub counts-flush_all :
      (q : Queue) (err : QueueError)
      → let r = flush_all q err in pending x r.0 + settlements x r.1 ≡ pending x q
  unfolding flush_all
  counts-flush_all q err = omega (
    arith,
    settlements-flush_waiting err q.waiting_for_reply,
    settlements-flush_to_write err q.to_write,
    settlements-append x (map (flush_waiting err) q.waiting_for_reply)
        (map (flush_to_write err) q.to_write),
  )

  pub counts-extract_in :
      (i : Option ℕ) (slots : ℕ → Bool) (cs : List Command)
      → let r = extract_in i slots cs in queued x r.0 + queued x r.1 ≡ queued x cs
  unfolding extract_in
  counts-extract_in i slots [] = refl
  counts-extract_in i slots (c ∷ cs) = ground (arith, counts-extract_in i slots cs)

  counts-prepend_command :
      (timed_out aborted : ℕ → Bool) (q : Queue) (c : Command)
      → let r = prepend_command timed_out aborted q c in
        pending x r.0 + settlements x r.1 ≡ live x (c ∷ []) + pending x q
  unfolding prepend_command
  counts-prepend_command timed_out aborted q c =
      let q' = record q { to_write = insert_at_front q.chain_in_execution c q.to_write } in
      elim (Option-cases (expired timed_out aborted c)) [
        | inl fine ↦ ground (arith, queued-insert_at_front x q.chain_in_execution c q.to_write)
        | inr (err, late) ↦ ground (
          arith,
          queued-insert_at_front x q.chain_in_execution c q.to_write,
          counts-reject_command x q' c.id err,
        )
      ]

  pub counts-prepend_commands_to_write :
      (timed_out aborted : ℕ → Bool) (q : Queue) (cs : List Command)
      → let r = prepend_commands_to_write timed_out aborted q cs in
        pending x r.0 + settlements x r.1 ≡ live x cs + pending x q
  unfolding prepend_commands_to_write
  counts-prepend_commands_to_write timed_out aborted q [] = omega arith
  counts-prepend_commands_to_write timed_out aborted q (c ∷ cs) =
      let later = prepend_commands_to_write timed_out aborted q cs in
      omega (
        arith,
        counts-prepend_commands_to_write timed_out aborted q cs,
        counts-prepend_command timed_out aborted later.0 c,
        settlements-append x later.1 (prepend_command timed_out aborted later.0 c).1,
      )

  queued-retime :
      (q : Queue) (ms : ℕ) (cs : List Command) → queued x (map (retime q ms) cs) ≡ queued x cs
  unfolding retime
  queued-retime q ms [] = refl
  queued-retime q ms (c ∷ cs) = ground (arith, queued-retime q ms cs)

  pub pending-set_maintenance_command_timeout :
      (q : Queue) (ms : Option ℕ) → pending x (set_maintenance_command_timeout q ms) ≡ pending x q
  unfolding set_maintenance_command_timeout
  pending-set_maintenance_command_timeout q none = refl
  pending-set_maintenance_command_timeout q (some ms) =
      ground (arith, queued-retime q ms q.to_write)
