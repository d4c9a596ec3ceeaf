-- ===== src/Client/Queue/Steps/Admits.antt =====
-- addCommand and addBatch of commands-queue.ts account for the promises that they are given.
use node_redis.Base.{
  ℕ, ◌+◌, ◌≡◌, refl, Bool, true, false, if◌then◌else◌, Option, List, [], ◌∷◌, arith, Option-cases,
  inl, inr,
}
use node_redis.Resp.Argument.{RedisArgument}
use node_redis.Client.Queue.{head, member, Command, Queue, reject_command, add_to_write}
use node_redis.Client.Queue.Admit.{
  CommandOptions, BatchCommand, BatchOptions, arm_timeout, arm_abort, arm, new_command, add_command,
  batch_command, push_batch, batch_head, set_command, add_batch,
}
use node_redis.Client.Queue.Steps.Counts.{
  one, settlements, queued, pending, settlements-append, pending-add_to_write,
  counts-reject_command,
}

abbrev pub batch_ids : ℕ → List BatchCommand → ℕ
batch_ids x [] = 0
batch_ids x (b ∷ bs) = one x b.id + batch_ids x bs

module _ (x : ℕ) (valid_timeout : ℕ → Bool) where
  arm-id :
      (q : Queue) (c : Command) (t : Option ℕ) (signal : Option Bool)
      → (arm valid_timeout q c t signal).0.id ≡ c.id
  unfolding arm arm_timeout arm_abort
  arm-id q c t signal = ground arith

  pub counts-add_command :
      (q : Queue) (id : ℕ) (args : List RedisArgument) (o : CommandOptions)
      → let r = add_command valid_timeout q id args o in
        pending x r.0 + settlements x r.1 ≡ one x id + pending x q
  unfolding add_command new_command
  counts-add_command q id args o =
      let c = new_command valid_timeout id args o in
      let armed = arm valid_timeout q c o.timeout o.abort_signal in
      ground (arith, pending-add_to_write x q armed.0 o.asap, arm-id q c o.timeout o.abort_signal)

  counts-push_batch :
      (q : Queue) (o : BatchOptions) (first : Bool) (bs : List BatchCommand)
      → let r = push_batch valid_timeout q o first bs in
        pending x r.0 + settlements x r.1 ≡ batch_ids x bs + pending x q
  unfolding push_batch batch_command
  counts-push_batch q o first [] = omega arith
  counts-push_batch q o first (b ∷ bs) =
      let c = batch_command valid_timeout (if first then head else member) o b in
      ground (
        arith,
        counts-push_batch (add_to_write q c false) o false bs,
        counts-push_batch q o first bs,
        pending-add_to_write x q c false,
      )

  queued-set_command :
      (c : Command) (cs : List Command) → queued x (set_command valid_timeout c cs) ≡ queued x cs
  unfolding set_command
  queued-set_command c [] = refl
  queued-set_command c (d ∷ ds) = ground (arith, queued-set_command c ds)

  pub counts-add_batch :
      (q : Queue) (bs : List BatchCommand) (o : BatchOptions)
      → let r = add_batch valid_timeout q bs o in
        pending x r.0 + settlements x r.1 ≡ batch_ids x bs + pending x q
  unfolding add_batch
  counts-add_batch q bs o = elim (Option-cases (batch_head valid_timeout q o bs)) [
    | inl none_admitted ↦ ground (arith, counts-push_batch q o true bs)
    | inr (h, first) ↦
        let pushed = push_batch valid_timeout q o true bs in
        let h' = record h { on_cancel = o.on_cancel } in
        let armed = arm valid_timeout pushed.0 h' o.timeout o.abort_signal in
        let q' = record (pushed.0) {
          to_write = set_command valid_timeout armed.0 pushed.0.to_write;
        } in
        elim (Option-cases armed.1) [
          | inl fine ↦
              ground
                (arith, counts-push_batch q o true bs, queued-set_command armed.0 pushed.0.to_write)
          | inr (err, thrown) ↦ ground (
            arith,
            counts-push_batch q o true bs,
            queued-set_command armed.0 pushed.0.to_write,
            counts-reject_command x q' h.id err,
            settlements-append x pushed.1 (reject_command q' h.id err).1,
          )
        ]
  ]
