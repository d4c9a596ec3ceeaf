-- ===== src/Client/Queue/Steps/Listeners.antt =====
-- The listeners of timeouts and abort signals of commands-queue.ts account for the promises.
use node_redis.Base.{
  ℕ, refl, Bool, true, false, if◌then◌else◌, List, [], arith, Option-cases, inl, inr,
}
use node_redis.Client.Queue.{
  QueueError, Settlement, abort_error, Queue, reject_command, reject_unwritable,
}
use node_redis.Client.Queue.Admit.{
  abort_listener, timeout_listener, find_command, timeout_rejection,
}
use node_redis.Client.Queue.Steps.Counts.{
  counts-reject_command, Accounts, accounts, reject_unwritable-Accounts,
}

module _ (x : ℕ) where
  nothing-Accounts : (q : Queue) → Accounts x 0 q (q, [])
  nothing-Accounts q = accounts x 0 q (q, []) (omega arith) refl

  reject_command-Accounts :
      (q : Queue) (id : ℕ) (err : QueueError) → Accounts x 0 q (reject_command q id err)
  reject_command-Accounts q id err =
      accounts x 0 q (reject_command q id err) (omega (arith, counts-reject_command x q id err))
        (unfold reject_command in refl)

  -- An operation that is done where `b` holds, and otherwise nothing.
  when-Accounts :
      (b : Bool) (q : Queue) (r : Queue × List Settlement)
      → Accounts x 0 q r
      → Accounts x 0 q (if b then r else (q, []))
  when-Accounts true q r h = h
  when-Accounts false q r h = nothing-Accounts q

  pub abort_listener-Accounts : (q : Queue) (id : ℕ) → Accounts x 0 q (abort_listener q id)
  unfolding abort_listener
  abort_listener-Accounts q id = elim (Option-cases (find_command id q.to_write)) [
    | inl absent ↦ elim (Option-cases (find_command id q.unwritable)) [
      | inl gone ↦ rw (abort_listener, absent, gone) (nothing-Accounts q)
      | inr (c, found) ↦
          rw (abort_listener, absent, found)
            (when-Accounts _ q (reject_unwritable q id abort_error)
              (reject_unwritable-Accounts x q id abort_error))
    ]
    | inr (c, found) ↦
        rw (abort_listener, found)
          (when-Accounts _ q (reject_command q id abort_error)
            (reject_command-Accounts q id abort_error))
  ]

  pub timeout_listener-Accounts : (q : Queue) (id : ℕ) → Accounts x 0 q (timeout_listener q id)
  unfolding timeout_listener
  timeout_listener-Accounts q id = elim (Option-cases (find_command id q.to_write)) [
    | inl absent ↦ elim (Option-cases (find_command id q.unwritable)) [
      | inl gone ↦ rw (timeout_listener, absent, gone) (nothing-Accounts q)
      | inr (c, found) ↦ elim (Option-cases c.timeout) [
        | inl untimed ↦ rw (timeout_listener, absent, found, untimed) (nothing-Accounts q)
        | inr (t, timed) ↦
            rw (timeout_listener, absent, found, timed)
              (when-Accounts _ q (reject_unwritable q id (timeout_rejection t))
                (reject_unwritable-Accounts x q id (timeout_rejection t)))
      ]
    ]
    | inr (c, found) ↦ elim (Option-cases c.timeout) [
      | inl untimed ↦ rw (timeout_listener, found, untimed) (nothing-Accounts q)
      | inr (t, timed) ↦
          rw (timeout_listener, found, timed)
            (when-Accounts _ q (reject_command q id (timeout_rejection t))
              (reject_command-Accounts q id (timeout_rejection t)))
    ]
  ]
