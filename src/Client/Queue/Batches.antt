-- ===== src/Client/Queue/Batches.antt =====
-- A batch of commands-queue.ts from addBatch to its abort signal.
use node_redis.Base.{
  ℕ, zero, suc, ◌≡◌, refl, ap, ◌∙◌, Bool, true, false, ◌==◌, if◌then◌else◌, Option, none, some,
  List, [], ◌∷◌, ◌++◌, append_assoc, append-nil, arith, map, length, length-append, All,
  Option-cases, inl, inr,
}
use node_redis.Client.Queue.{
  QueueError, abort_error, rejected, cancelled, head, member, Command, Queue, within, has_capacity,
  add_to_write, reject_members, reject_node, reject_in, reject_command, cancellation, same_chain,
}
use node_redis.Client.Queue.Admit.{
  BatchCommand, BatchOptions, batch_command, push_batch, batch_head, set_command, arm, arm_timeout,
  arm_abort, add_batch, abort_listener, is_batch_started, find_command,
}

module _ (valid_timeout : ℕ → Bool) where
  abbrev pub members : BatchOptions → List BatchCommand → List Command
  members o [] = []
  members o (b ∷ bs) = batch_command valid_timeout member o b ∷ members o bs

  capacity-one : (q : Queue) (n : ℕ) → has_capacity q (suc n) ≡ true → has_capacity q 1 ≡ true
  unfolding has_capacity within
  capacity-one q n h = ground arith

  capacity-rest :
      (q : Queue) (c : Command) (n : ℕ)
      → has_capacity q (suc n) ≡ true
      → has_capacity (add_to_write q c false) n ≡ true
  unfolding has_capacity within add_to_write
  capacity-rest q c n h = ground (arith, length-append q.to_write (c ∷ []))

  push_batch-members :
      (q : Queue) (o : BatchOptions) (bs : List BatchCommand)
      → has_capacity q (length bs) ≡ true
      → push_batch valid_timeout q o false bs
        ≡ (record q { to_write = q.to_write ++ members o bs }, [])
  unfolding push_batch
  push_batch-members q o [] h = simp (append-nil q.to_write)
  push_batch-members q o (b ∷ bs) h =
      let q' = add_to_write q (batch_command valid_timeout member o b) false in
      rw (capacity-one q (length bs) h) (
        push_batch-members q' o bs (capacity-rest q _ (length bs) h)
        ∙ unfold add_to_write in
          simp
            (append_assoc q.to_write (batch_command valid_timeout member o b ∷ []) (members o bs)))

  push_batch-head :
      (q : Queue) (o : BatchOptions) (b : BatchCommand) (bs : List BatchCommand)
      → has_capacity q (length (b ∷ bs)) ≡ true
      → push_batch valid_timeout q o true (b ∷ bs) ≡ (
        record q { to_write = q.to_write ++ batch_command valid_timeout head o b ∷ members o bs },
        [],
      )
  unfolding push_batch
  push_batch-head q o b bs h =
      let c = batch_command valid_timeout head o b in
      rw (capacity-one q (length bs) h) (
        push_batch-members (add_to_write q c false) o bs (capacity-rest q c (length bs) h)
        ∙ unfold add_to_write in simp (append_assoc q.to_write (c ∷ []) (members o bs)))

  batch_head-some :
      (q : Queue) (o : BatchOptions) (b : BatchCommand) (bs : List BatchCommand)
      → has_capacity q (length (b ∷ bs)) ≡ true
      → batch_head valid_timeout q o (b ∷ bs) ≡ some (batch_command valid_timeout head o b)
  unfolding batch_head
  batch_head-some q o b bs h = rw (capacity-one q (length bs) h) refl

  reject_members-members :
      (o : BatchOptions) (bs : List BatchCommand) (err : QueueError)
      → reject_members (some o.chain_id) err (members o bs) ≡ ([], map (λ b. rejected b.id err) bs)
  unfolding reject_members batch_command same_chain
  reject_members-members o [] err = refl
  reject_members-members o (b ∷ bs) err = ground (arith, reject_members-members o bs err)

  abbrev pub Fresh : ℕ → List Command → Type 0
  Fresh x cs = All (λ c. (c.id == x) ≡ false) cs

  reject_in-append :
      (x : ℕ) (err : QueueError) (cs ds : List Command)
      → Fresh x cs
      → reject_in x err (cs ++ ds) ≡ (cs ++ (reject_in x err ds).0, (reject_in x err ds).1)
  unfolding reject_in
  reject_in-append x err [] ds h = refl
  reject_in-append x err (c ∷ cs) ds h =
      let rest = reject_in-append x err cs ds h.1 in rw (h.0) (simp rest)

  find_command-append :
      (x : ℕ) (cs ds : List Command) → Fresh x cs → find_command x (cs ++ ds) ≡ find_command x ds
  unfolding find_command
  find_command-append x [] ds h = refl
  find_command-append x (c ∷ cs) ds h = ground (arith, h.0, find_command-append x cs ds h.1)

  set_command-head :
      (b : BatchCommand) (o : BatchOptions) (d : Command) (cs ds : List Command)
      → d.id ≡ b.id
      → Fresh b.id cs
      → set_command valid_timeout d (cs ++ batch_command valid_timeout head o b ∷ ds) ≡ cs ++ d ∷ ds
  unfolding set_command batch_command
  set_command-head b o d [] ds same h = ground arith
  set_command-head b o d (c ∷ cs) ds same h =
      ground (arith, same, h.0, set_command-head b o d cs ds same h.1)

  abbrev Kept : Command → Command → Type 0
  Kept c d =
      (d.id ≡ c.id)
      × (d.batch ≡ c.batch)
      × (d.chain_id ≡ c.chain_id)
      × (d.is_rejected ≡ c.is_rejected)
      × (d.on_cancel ≡ c.on_cancel)

  arm_timeout_lem :
      (t original : Option ℕ) (was : Bool) (c : Command)
      → ((t : ℕ) → valid_timeout t ≡ true)
      → (d : Command) × (arm_timeout valid_timeout t original was c ≡ (d, none)) × Kept c d
  unfolding arm_timeout
  arm_timeout_lem none original was c valid = (c, refl, (refl, refl, refl, refl, refl))
  arm_timeout_lem (some zero) original was c valid = (c, refl, (refl, refl, refl, refl, refl))
  arm_timeout_lem (some (suc t)) original was c valid = (
    record c {
      timeout = some (record { original = original; effective = suc t; was_in_maintenance = was });
    },
    simp (valid (suc t)),
    (refl, refl, refl, refl, refl),
  )

  arm_lem :
      (q : Queue) (c : Command) (t : Option ℕ)
      → ((t : ℕ) → valid_timeout t ≡ true)
      → (d : Command) × (arm valid_timeout q c t (some false) ≡ (d, none))
        × Kept c d
        × (d.abort ≡ true)
  unfolding arm arm_abort
  arm_lem q c t valid = elim (Option-cases q.maintenance_command_timeout) [
    | inl normal ↦
        let r = arm_timeout_lem t t false c valid in
        (record (r.0) { abort = true }, simp (arm, normal, r.1), r.2, refl)
    | inr (ms, maintenance) ↦
        let r = arm_timeout_lem (some ms) t true c valid in
        (record (r.0) { abort = true }, simp (arm, maintenance, r.1), r.2, refl)
  ]

  -- The commands of a batch that has room, the first of them as `arm` leaves it.
  add_batch_lem :
      (q : Queue) (b : BatchCommand) (bs : List BatchCommand) (o : BatchOptions)
      → ((t : ℕ) → valid_timeout t ≡ true)
      → o.abort_signal ≡ some false
      → has_capacity q (length (b ∷ bs)) ≡ true
      → Fresh b.id q.to_write
      → (d : Command) × (add_batch valid_timeout q (b ∷ bs) o
          ≡ (record q { to_write = q.to_write ++ d ∷ members o bs }, []))
        × Kept (record (batch_command valid_timeout head o b) { on_cancel = o.on_cancel }) d
        × (d.abort ≡ true)
  unfolding add_batch
  add_batch_lem q b bs o valid signal room fresh =
      let c = record (batch_command valid_timeout head o b) { on_cancel = o.on_cancel } in
      let q' = record q {
        to_write = q.to_write ++ batch_command valid_timeout head o b ∷ members o bs;
      } in
      let r = arm_lem q' c o.timeout valid in
      (
        r.0,
        simp (
          add_batch,
          batch_head-some q o b bs room,
          push_batch-head q o b bs room,
          signal,
          r.1,
          set_command-head b o r.0 q.to_write (members o bs) r.2.0 fresh,
        ),
        r.2,
        r.3,
      )

  reject_node-head :
      (o : BatchOptions) (b : BatchCommand) (bs : List BatchCommand) (d : Command)
      → Kept (record (batch_command valid_timeout head o b) { on_cancel = o.on_cancel }) d
      → reject_node d abort_error (members o bs) ≡ (
        [],
        map (λ c. rejected c.id abort_error) bs
            ++ ((if o.on_cancel then cancelled b.id ∷ [] else [])
                ++ rejected b.id abort_error ∷ []),
      )
  unfolding batch_command reject_node cancellation
  reject_node-head o b bs d (same, role, chain, live, caller) = simp (
    reject_node,
    cancellation,
    role,
    chain,
    live,
    caller,
    same,
    reject_members-members o bs abort_error,
  )

  undone :
      (q : Queue) (o : BatchOptions) (b : BatchCommand) (bs : List BatchCommand) (d : Command)
      → Fresh b.id q.to_write
      → Kept (record (batch_command valid_timeout head o b) { on_cancel = o.on_cancel }) d
      → d.abort ≡ true
      → same_chain (some o.chain_id) q.chain_in_execution ≡ false
      → abort_listener (record q { to_write = q.to_write ++ d ∷ members o bs }) b.id ≡ (
        q,
        map (λ c. rejected c.id abort_error) bs
            ++ ((if o.on_cancel then cancelled b.id ∷ [] else [])
                ++ rejected b.id abort_error ∷ []),
      )
  unfolding batch_command abort_listener reject_command
  undone q o b bs d fresh (same, role, chain, live, caller) armed other =
      let q' = record q { to_write = q.to_write ++ d ∷ members o bs } in
      let own : (d.id == b.id) ≡ true = ground (arith, same) in
      let idle : is_batch_started q' d ≡ false =
        unfold is_batch_started in
        rw role (rw chain (not_started q.chain_in_execution o.chain_id other)) in
      simp (
        abort_listener,
        reject_command,
        find_command-append b.id q.to_write (d ∷ members o bs) fresh,
        armed,
        idle,
        reject_in-append b.id abort_error q.to_write (d ∷ members o bs) fresh,
        own,
        reject_node-head o b bs d (same, role, chain, live, caller),
        append-nil q.to_write,
      )
    where
      not_started :
          (i : Option ℕ) (j : ℕ)
          → same_chain (some j) i ≡ false
          → elim i [ none ↦ false | some k ↦ j == k ] ≡ false
      not_started none j h = refl
      not_started (some k) j h = unfold same_chain in h

  -- Where a batch has room, its signal is not aborted yet, every timeout is valid, the promise of its
  -- first command is in no queued command and its chain is not in execution, then the signal undoes
  -- it: the queue is as it was before the batch, each of its promises is rejected once, and the
  -- caller is told before the first one's rejection.
  pub add_batch-abort :
      (q : Queue) (b : BatchCommand) (bs : List BatchCommand) (o : BatchOptions)
      → ((t : ℕ) → valid_timeout t ≡ true)
      → o.abort_signal ≡ some false
      → has_capacity q (length (b ∷ bs)) ≡ true
      → Fresh b.id q.to_write
      → same_chain (some o.chain_id) q.chain_in_execution ≡ false
      → let added = add_batch valid_timeout q (b ∷ bs) o in
        (added.1 ≡ [])
        × (abort_listener added.0 b.id ≡ (
          q,
          map (λ c. rejected c.id abort_error) bs
              ++ ((if o.on_cancel then cancelled b.id ∷ [] else [])
                  ++ rejected b.id abort_error ∷ []),
        ))
  unfolding abort_listener
  add_batch-abort q b bs o valid signal room fresh other =
      let r = add_batch_lem q b bs o valid signal room fresh in
      (
        ap (λ s. s.1) r.1,
        ap (λ s. abort_listener s.0 b.id) r.1 ∙ undone q o b bs r.0 fresh r.2 r.3 other,
      )
