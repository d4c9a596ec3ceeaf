-- ===== src/Client/Queue/Capacity.antt =====
-- The bound commandsQueueMaxLength of commands-queue.ts.
use node_redis.Base.{
  if◌then◌else◌, Bool-cases, ℕ, suc, ◌≤◌, ◌≡◌, refl, Bool, true, false, Option, some, List, [], ◌∷◌,
  arith, length, length-append, Option-cases, inl, inr,
}
use node_redis.Resp.Argument.{RedisArgument}
use node_redis.Client.Queue.{
  QueueError, Command, Queue, head, member, within, pending_count, has_capacity, insert_after_chain,
  insert_at_front, add_to_write, reject_members, reject_node, reject_in, reject_command,
}
use node_redis.Client.Queue.Admit.{
  BatchCommand, BatchOptions, CommandOptions, batch_command, push_batch, batch_head, set_command,
  arm, add_batch, add_command, admission_size, new_command,
}

length-insert_after_chain :
    (i : ℕ) (v : Command) (cs : List Command) → length (insert_after_chain i v cs) ≡ suc (length cs)
unfolding insert_after_chain
length-insert_after_chain i v [] = refl
length-insert_after_chain i v (c ∷ cs) = ground (arith, length-insert_after_chain i v cs)

pending_count-add_to_write :
    (q : Queue) (v : Command) (asap : Bool)
    → pending_count (add_to_write q v asap) ≡ suc (pending_count q)
unfolding pending_count add_to_write insert_at_front
pending_count-add_to_write q v asap = elim (Option-cases q.chain_in_execution) [
  | inl idle ↦ ground (arith, length-append q.to_write (v ∷ []))
  | inr (i, executing) ↦
      ground (arith, length-append q.to_write (v ∷ []), length-insert_after_chain i v q.to_write)
]

length-reject_members :
    (i : Option ℕ) (err : QueueError) (cs : List Command)
    → length (reject_members i err cs).0 ≤ length cs
unfolding reject_members
length-reject_members i err [] = omega arith
length-reject_members i err (c ∷ cs) = ground (arith, length-reject_members i err cs)

length-reject_in :
    (x : ℕ) (err : QueueError) (cs : List Command) → length (reject_in x err cs).0 ≤ length cs
unfolding reject_in reject_node
length-reject_in x err [] = omega arith
length-reject_in x err (c ∷ cs) =
    ground (arith, length-reject_in x err cs, length-reject_members c.chain_id err cs)

module _ (valid_timeout : ℕ → Bool) where
  length-set_command :
      (c : Command) (cs : List Command) → length (set_command valid_timeout c cs) ≡ length cs
  unfolding set_command
  length-set_command c [] = refl
  length-set_command c (d ∷ ds) = ground (arith, length-set_command c ds)

  room-lt :
      (m : ℕ) (q : Queue)
      → q.max_length ≡ some (suc m)
      → has_capacity q 1 ≡ true
      → suc (pending_count q) ≤ suc m
  unfolding has_capacity within
  room-lt m q limit room = ground arith

  push_batch-within :
      (m : ℕ) (q : Queue) (o : BatchOptions) (first : Bool) (bs : List BatchCommand)
      → q.max_length ≡ some (suc m)
      → pending_count q ≤ suc m
      → pending_count (push_batch valid_timeout q o first bs).0 ≤ suc m
  unfolding push_batch
  push_batch-within m q o first [] limit h = h
  push_batch-within m q o first (b ∷ bs) limit h =
      let c = batch_command valid_timeout (if first then head else member) o b in
      elim (Bool-cases (has_capacity q 1)) [
        | inl room ↦ rw room (
            push_batch-within m (add_to_write q c false) o false bs (unfold add_to_write in limit)
              (omega (arith, room-lt m q limit room, pending_count-add_to_write q c false)))
        | inr full ↦ rw full (push_batch-within m q o first bs limit h)
      ]

  -- With a bound on the queue, neither a command nor a batch, with or without room for it, makes the
  -- commands that are pending more than the bound, when they were not more before.
  pub admission-within :
      (m : ℕ) (q : Queue)
      → q.max_length ≡ some (suc m)
      → pending_count q ≤ suc m
      → ((id : ℕ) (args : List RedisArgument) (o : CommandOptions)
          → pending_count (add_command valid_timeout q id args o).0 ≤ suc m)
        × ((bs : List BatchCommand) (o : BatchOptions)
            → pending_count (add_batch valid_timeout q bs o).0 ≤ suc m)
  admission-within m q limit h =
      (λ id args o. add_command-within id args o, λ bs o. add_batch-within bs o)
    where
      add_command-within :
          (id : ℕ) (args : List RedisArgument) (o : CommandOptions)
          → pending_count (add_command valid_timeout q id args o).0 ≤ suc m
      add_command-within id args o =
          let c =
            (arm valid_timeout q (new_command valid_timeout id args o) o.timeout
              o.abort_signal).0 in
          unfold add_command has_capacity within admission_size in
          ground (arith, limit, h, pending_count-add_to_write q c o.asap)

      add_batch-within :
          (bs : List BatchCommand) (o : BatchOptions)
          → pending_count (add_batch valid_timeout q bs o).0 ≤ suc m
      add_batch-within bs o =
          let pushed = push_batch valid_timeout q o true bs in
          let most = push_batch-within m q o true bs limit h in
          elim (Option-cases (batch_head valid_timeout q o bs)) [
            | inl none_admitted ↦ unfold add_batch pending_count in ground (arith, most)
            | inr (c, first) ↦
                let c' = record c { on_cancel = o.on_cancel } in
                let armed = arm valid_timeout pushed.0 c' o.timeout o.abort_signal in
                let ds = set_command valid_timeout armed.0 pushed.0.to_write in
                unfold add_batch pending_count reject_command in
                elim (Option-cases armed.1) [
                  | inl fine ↦ ground (arith, most, length-set_command armed.0 pushed.0.to_write)
                  | inr (err, thrown) ↦ ground (
                    arith,
                    most,
                    length-set_command armed.0 pushed.0.to_write,
                    length-reject_in c.id err ds,
                  )
                ]
          ]
