-- ===== src/Client/Queue/Steps/Counts.antt =====
-- How often a promise stands in a queue of commands-queue.ts and in a list of settlements, and what
-- the operations on the lists do to that number.
use node_redis.Base.{
  ℕ, ◌+◌, ◌≤◌, ◌≡◌, refl, ap, Bool, true, false, ◌==◌, if◌then◌else◌, Option, none, some, List, [],
  ◌∷◌, ◌++◌, arith,
}
use node_redis.Client.Queue.{
  QueueError, argument_type, Settlement, resolved, rejected, prelude_replied, cancelled, Command,
  Waiting, command, prelude, Queue, insert_after_chain, insert_at_front, add_to_write,
  reject_members, reject_node, reject_in, reject_command, reject_unwritable_in, reject_unwritable,
  cancellation,
}

abbrev pub one : ℕ → ℕ → ℕ
one x id = if id == x then 1 else 0

abbrev pub settlements : ℕ → List Settlement → ℕ
settlements x [] = 0
settlements x (resolved id r ∷ ss) = one x id + settlements x ss
settlements x (rejected id e ∷ ss) = one x id + settlements x ss
settlements x (prelude_replied id e ∷ ss) = settlements x ss
settlements x (cancelled id ∷ ss) = settlements x ss

abbrev pub queued : ℕ → List Command → ℕ
queued x [] = 0
queued x (c ∷ cs) = one x c.id + queued x cs

abbrev pub awaiting : ℕ → List Waiting → ℕ
awaiting x [] = 0
awaiting x (command id m ∷ ws) = one x id + awaiting x ws
awaiting x (prelude id ∷ ws) = awaiting x ws

-- How often the encoder refused the command of the promise `x`.
abbrev pub refusals : ℕ → Settlement → ℕ
refusals x (rejected id (argument_type i)) = one x id
refusals x _ = 0

abbrev pub refused : ℕ → List Settlement → ℕ
refused x [] = 0
refused x (s ∷ ss) = refusals x s + refused x ss

-- The listeners of `x` that are on although its command is in no list.
abbrev pub late : ℕ → Queue → ℕ
late x q = queued x q.unwritable

-- The places of the promise `x` in the queue.
abbrev pub pending : ℕ → Queue → ℕ
pending x q = queued x q.to_write + awaiting x q.waiting_for_reply

module _ (x : ℕ) where
  pub settlements-append :
      (s t : List Settlement) → settlements x (s ++ t) ≡ settlements x s + settlements x t
  settlements-append [] t = omega arith
  settlements-append (resolved id r ∷ s) t = omega (arith, settlements-append s t)
  settlements-append (rejected id e ∷ s) t = omega (arith, settlements-append s t)
  settlements-append (prelude_replied id e ∷ s) t = settlements-append s t
  settlements-append (cancelled id ∷ s) t = settlements-append s t

  pub refused-append : (s t : List Settlement) → refused x (s ++ t) ≡ refused x s + refused x t
  refused-append [] t = omega arith
  refused-append (r ∷ s) t = omega (arith, refused-append s t)

  pub queued-append : (s t : List Command) → queued x (s ++ t) ≡ queued x s + queued x t
  queued-append [] t = omega arith
  queued-append (c ∷ s) t = omega (arith, queued-append s t)

  pub awaiting-append : (s t : List Waiting) → awaiting x (s ++ t) ≡ awaiting x s + awaiting x t
  awaiting-append [] t = omega arith
  awaiting-append (command id m ∷ s) t = omega (arith, awaiting-append s t)
  awaiting-append (prelude id ∷ s) t = awaiting-append s t

  queued-insert_after_chain :
      (i : ℕ) (v : Command) (cs : List Command)
      → queued x (insert_after_chain i v cs) ≡ one x v.id + queued x cs
  unfolding insert_after_chain
  queued-insert_after_chain i v [] = refl
  queued-insert_after_chain i v (c ∷ cs) = ground (arith, queued-insert_after_chain i v cs)

  pub queued-insert_at_front :
      (i : Option ℕ) (v : Command) (cs : List Command)
      → queued x (insert_at_front i v cs) ≡ one x v.id + queued x cs
  unfolding insert_at_front
  queued-insert_at_front none v cs = refl
  queued-insert_at_front (some i) v cs = queued-insert_after_chain i v cs

  pub pending-add_to_write :
      (q : Queue) (v : Command) (asap : Bool)
      → pending x (add_to_write q v asap) ≡ one x v.id + pending x q
  unfolding add_to_write
  pending-add_to_write q v true =
      omega (arith, queued-insert_at_front q.chain_in_execution v q.to_write)
  pending-add_to_write q v false = omega (arith, queued-append q.to_write (v ∷ []))

  counts-reject_members :
      (i : Option ℕ) (err : QueueError) (cs : List Command)
      → let r = reject_members i err cs in queued x r.0 + settlements x r.1 ≡ queued x cs
  unfolding reject_members
  counts-reject_members i err [] = refl
  counts-reject_members i err (c ∷ cs) = ground (arith, counts-reject_members i err cs)

  settlements-cancellation : (c : Command) → settlements x (cancellation c) ≡ 0
  unfolding cancellation
  settlements-cancellation c = ground arith

  counts-reject_node :
      (c : Command) (err : QueueError) (cs : List Command)
      → let r = reject_node c err cs in queued x r.0 + settlements x r.1 ≡ one x c.id + queued x cs
  unfolding reject_node
  counts-reject_node c err cs =
      let ms = reject_members c.chain_id err cs in
      ground (
        arith,
        counts-reject_members c.chain_id err cs,
        settlements-append ms.1 (cancellation c ++ rejected c.id err ∷ []),
        settlements-append (cancellation c) (rejected c.id err ∷ []),
        settlements-cancellation c,
      )

  counts-reject_in :
      (id : ℕ) (err : QueueError) (cs : List Command)
      → let r = reject_in id err cs in queued x r.0 + settlements x r.1 ≡ queued x cs
  unfolding reject_in
  counts-reject_in id err [] = refl
  counts-reject_in id err (c ∷ cs) =
      ground (arith, counts-reject_in id err cs, counts-reject_node c err cs)

  pub counts-reject_command :
      (q : Queue) (id : ℕ) (err : QueueError)
      → let r = reject_command q id err in pending x r.0 + settlements x r.1 ≡ pending x q
  unfolding reject_command
  counts-reject_command q id err = omega (arith, counts-reject_in id err q.to_write)

  counts-reject_unwritable_in :
      (id : ℕ) (err : QueueError) (cs : List Command)
      → let r = reject_unwritable_in id err cs in queued x r.0 + settlements x r.1 ≡ queued x cs
  unfolding reject_unwritable_in
  counts-reject_unwritable_in id err [] = refl
  counts-reject_unwritable_in id err (c ∷ cs) = ground (
    arith,
    counts-reject_unwritable_in id err cs,
    settlements-append (cancellation c) (rejected c.id err ∷ []),
    settlements-cancellation c,
  )

  pub late-reject_unwritable :
      (q : Queue) (id : ℕ) (err : QueueError)
      → let r = reject_unwritable q id err in late x r.0 + settlements x r.1 ≡ late x q
  unfolding reject_unwritable
  late-reject_unwritable q id err = counts-reject_unwritable_in id err q.unwritable

  -- An operation that takes the promise `x` in `n` times: none of its places is lost, and it comes to
  -- no new one but where the encoder refuses its command.
  pub record Accounts (n : ℕ) (q : Queue) (r : Queue × List Settlement) : Type 0 where
    pub kept : n + pending x q ≤ pending x r.0 + settlements x r.1
    pub bounded :
        pending x r.0 + late x r.0 + settlements x r.1 ≤ n + pending x q + late x q + refused x r.1

  -- Where no listener is left on and none fires late.
  pub accounts :
      (n : ℕ) (q : Queue) (r : Queue × List Settlement)
      → pending x r.0 + settlements x r.1 ≡ n + pending x q
      → r.0.unwritable ≡ q.unwritable
      → Accounts n q r
  accounts n q r e same =
      let l : late x r.0 ≡ late x q = ap (queued x) same in
      record { kept = omega (arith, e); bounded = omega (arith, e, l) }

  pub reject_unwritable-Accounts :
      (q : Queue) (id : ℕ) (err : QueueError) → Accounts 0 q (reject_unwritable q id err)
  unfolding reject_unwritable
  reject_unwritable-Accounts q id err =
      let e = late-reject_unwritable q id err in
      record { kept = omega arith; bounded = omega (arith, e) }
