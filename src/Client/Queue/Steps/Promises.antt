-- ===== src/Client/Queue/Steps/Promises.antt =====
-- What becomes of the promises of commands-queue.ts, over any sequence of its operations.
use node_redis.Base.{
  ℕ, ◌+◌, ◌≤◌, ◌≡◌, refl, ap, Bool, Option, none, List, [], ◌∷◌, arith, Option-cases, inl, inr,
}
use node_redis.Resp.Reply.{Reply}
use node_redis.Client.Queue.{QueueError, Queue, Settlement, Command, new_queue}
use node_redis.Client.Queue.Admit.{add_command, add_batch, abort_listener, timeout_listener}
use node_redis.Client.Queue.Write.{shift_waiting, on_reply, on_error_reply}
use node_redis.Client.Queue.Move.{
  flush_waiting_for_reply, flush_all, extract_commands_for_slots, extract_all_commands,
  prepend_commands_to_write, set_maintenance_command_timeout,
}
use node_redis.Client.Queue.Steps.{
  Operation, add, batch, abort_fires, timeout_fires, write, reply, error, flush_waiting, flush,
  extract, extract_all, prepend, set_timeout, History, grow, take_out, received, step, steps,
}
use node_redis.Client.Queue.Steps.Counts.{
  settlements, refused, queued, late, pending, settlements-append, refused-append, queued-append,
  Accounts, accounts,
}
use node_redis.Client.Queue.Steps.Admits.{counts-add_command, counts-add_batch}
use node_redis.Client.Queue.Steps.Kept.{
  unwritable-add_command, unwritable-add_batch, unwritable-flush_waiting_for_reply,
  unwritable-prepend_commands_to_write, unwritable-set_maintenance_command_timeout,
}
use node_redis.Client.Queue.Steps.Listeners.{abort_listener-Accounts, timeout_listener-Accounts}
use node_redis.Client.Queue.Steps.Settles.{
  submitted, all_submitted, write_next-Accounts, counts-shift_waiting,
  counts-flush_waiting_for_reply, counts-flush_all, counts-extract_in,
  counts-prepend_commands_to_write, pending-set_maintenance_command_timeout,
}

abbrev pub start : Option ℕ → History
start max_length = record { queue = new_queue max_length; settled = []; extracted = [] }

-- The places of the promise `x`: in the queue, among the settled, among the extracted.
abbrev pub places : ℕ → History → ℕ
places x h = pending x h.queue + (settlements x h.settled + queued x h.extracted)

module _ (x : ℕ) where
  -- What an operation that takes `x` in `n` times makes of a history.
  record Grows (n : ℕ) (h h' : History) : Type 0 where
    kept : n + places x h ≤ places x h'
    bounded :
        places x h' + late x h'.queue + refused x h.settled
        ≤ n + places x h + late x h.queue + refused x h'.settled

  grow-Grows :
      (h : History) (r : Queue × List Settlement) (n : ℕ)
      → Accounts x n h.queue r
      → Grows n h (grow h r)
  unfolding grow
  grow-Grows h r n a =
      let s = settlements-append x h.settled r.1 in
      let f = refused-append x h.settled r.1 in
      record { kept = omega (arith, a.kept, s); bounded = omega (arith, a.bounded, s, f) }

  counted :
      (h : History) (r : Queue × List Settlement) (n : ℕ)
      → pending x r.0 + settlements x r.1 ≡ n + pending x h.queue
      → r.0.unwritable ≡ h.queue.unwritable
      → Grows n h (grow h r)
  counted h r n e same = grow-Grows h r n (accounts x n h.queue r e same)

  take_out-Grows :
      (h : History) (r : Queue × List Command)
      → pending x r.0 + queued x r.1 ≡ pending x h.queue
      → r.0.unwritable ≡ h.queue.unwritable
      → Grows 0 h (take_out h r)
  unfolding take_out
  take_out-Grows h r e same =
      let l : late x r.0 ≡ late x h.queue = ap (queued x) same in
      let q = queued-append x h.extracted r.1 in
      record { kept = omega (arith, e, q); bounded = omega (arith, e, q, l) }

  received-Grows :
      (h : History) (err : Option QueueError) (y : Reply)
      → Grows 0 h (received h (shift_waiting h.queue err y))
  unfolding received
  received-Grows h err y = elim (Option-cases (shift_waiting h.queue err y)) [
    | inl empty ↦ rw empty (record { kept = omega arith; bounded = omega arith })
    | inr (r, shifted) ↦
        let c = counts-shift_waiting x h.queue err y r shifted in
        rw shifted (counted h r 0 (omega (arith, c.0)) c.1)
  ]

  module _ (utf8 : List ℕ → List ℕ) (valid_timeout : ℕ → Bool) where
    step-Grows :
        (h : History) (o : Operation) → Grows (submitted x o) h (step utf8 valid_timeout h o)
    unfolding step
    step-Grows h (add id args o) =
        counted h (add_command valid_timeout h.queue id args o) _
          (counts-add_command x valid_timeout h.queue id args o)
          (unwritable-add_command valid_timeout h.queue id args o)
    step-Grows h (batch bs o) =
        counted h (add_batch valid_timeout h.queue bs o) _
          (counts-add_batch x valid_timeout h.queue bs o)
          (unwritable-add_batch valid_timeout h.queue bs o)
    step-Grows h (abort_fires id) =
        grow-Grows h (abort_listener h.queue id) 0 (abort_listener-Accounts x h.queue id)
    step-Grows h (timeout_fires id) =
        grow-Grows h (timeout_listener h.queue id) 0 (timeout_listener-Accounts x h.queue id)
    step-Grows h write = grow-Grows h _ 0 (write_next-Accounts x utf8 h.queue)
    step-Grows h (reply y) = unfold on_reply in received-Grows h none y
    step-Grows h (error y) = unfold on_error_reply in received-Grows h _ y
    step-Grows h (flush_waiting err) =
        counted h (flush_waiting_for_reply h.queue err) 0
          (omega (arith, counts-flush_waiting_for_reply x h.queue err))
          (unwritable-flush_waiting_for_reply h.queue err)
    step-Grows h (flush err) =
        counted h (flush_all h.queue err) 0 (omega (arith, counts-flush_all x h.queue err))
          (unfold flush_all in refl)
    step-Grows h (extract slots) =
        take_out-Grows h (extract_commands_for_slots h.queue slots)
          (unfold extract_commands_for_slots in
            omega (arith, counts-extract_in x h.queue.chain_in_execution slots h.queue.to_write))
          (unfold extract_commands_for_slots in refl)
    step-Grows h extract_all =
        take_out-Grows h (extract_all_commands h.queue) (unfold extract_all_commands in omega arith)
          (unfold extract_all_commands in refl)
    step-Grows h (prepend timed_out aborted cs) =
        counted h (prepend_commands_to_write timed_out aborted h.queue cs) _
          (counts-prepend_commands_to_write x timed_out aborted h.queue cs)
          (unwritable-prepend_commands_to_write timed_out aborted h.queue cs)
    step-Grows h (set_timeout ms) =
        let p = pending-set_maintenance_command_timeout x h.queue ms in
        let l : late x (set_maintenance_command_timeout h.queue ms) ≡ late x h.queue =
          ap (queued x) (unwritable-set_maintenance_command_timeout h.queue ms) in
        record { kept = omega (arith, p); bounded = omega (arith, p, l) }

    steps-Grows :
        (h : History) (os : List Operation)
        → Grows (all_submitted x os) h (steps utf8 valid_timeout h os)
    unfolding steps
    steps-Grows h [] = record { kept = omega arith; bounded = omega arith }
    steps-Grows h (o ∷ os) =
        let first = step-Grows h o in
        let rest = steps-Grows (step utf8 valid_timeout h o) os in
        record {
          kept = omega (arith, first.kept, rest.kept);
          bounded = omega (arith, first.bounded, rest.bounded);
        }

    start-late :
        (max_length : Option ℕ)
        → (places x (start max_length) ≡ 0) × (late x (start max_length).queue ≡ 0)
    unfolding new_queue
    start-late max_length = (refl, refl)

    flushed_lem :
        (h : History) (err : QueueError)
        → let f = step utf8 valid_timeout h (flush err) in
          (pending x f.queue ≡ 0)
          × (f.extracted ≡ h.extracted)
          × (settlements x f.settled ≡ settlements x h.settled + pending x h.queue)
    unfolding step grow flush_all
    flushed_lem h err = (
      refl,
      refl,
      omega (
        arith,
        settlements-append x h.settled (flush_all h.queue err).1,
        counts-flush_all x h.queue err,
      ),
    )

    -- From an empty queue, over any operations, let a promise be submitted once. It is settled at most
    -- once, and once more for each time that the encoder refuses its command, which leaves the
    -- listeners of the command on. When the queue is then flushed, it is settled, or it was handed out
    -- to another queue; and if the encoder never refused its command, just one of these holds, and
    -- once.
    pub steps-settle_once :
        (max_length : Option ℕ) (os : List Operation) (err : QueueError)
        → all_submitted x os ≡ 1
        → let h = steps utf8 valid_timeout (start max_length) os in
          let flushed = step utf8 valid_timeout h (flush err) in
          let found = settlements x flushed.settled + queued x flushed.extracted in
          (settlements x h.settled ≤ 1 + refused x h.settled)
          × (1 ≤ found)
          × (found ≤ 1 + refused x h.settled)
    steps-settle_once max_length os err once =
        let h = steps utf8 valid_timeout (start max_length) os in
        let all = steps-Grows (start max_length) os in
        let (empty, idle) = start-late max_length in
        let (gone, same, more) = flushed_lem h err in
        let out = ap (queued x) same in
        (
          omega (arith, all.bounded, once, empty, idle),
          omega (arith, all.kept, once, empty, out, more),
          omega (arith, all.bounded, once, empty, idle, out, more),
        )
