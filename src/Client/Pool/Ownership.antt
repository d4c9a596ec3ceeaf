-- ===== src/Client/Pool/Ownership.antt =====
-- The clients of a pool, whatever is done to it.
use node_redis.Base.{
  ℕ, ◌≤◌, ◌≡◌, refl, Bool, true, not, ◌&&◌, ◌||◌, ◌==◌, List, [], ◌∷◌, ◌++◌, arith, Bool-cases, inl,
  inr, filter,
}
use node_redis.Base.Sets.{includes, add, discard}
use node_redis.Client.Pool.{
  PoolError, Options, Environment, Pool, new_pool, is_nil, is_closing, total_clients, resolve_drain,
}
use node_redis.Client.Pool.Operations.{
  acquire_timed_out, connected, task_resolved, task_rejected, create_failed, scale_up_failed,
  connect_failed, terminate, reject_queued, add_each, any,
}
use node_redis.Client.Pool.Steps.{
  can, can_all, Step, connects, destroys, closes, cleans_up, executes, times_out, connects_client,
  resolves, rejects, fails_to_connect, fails_to_scale_up, fails_to_open, terminates, rejects_queued,
  does_close, drains, finishes_close, step, run,
}
use node_redis.Client.Pool.Tasks.{times}
use node_redis.Client.Pool.Clients.{limit, IsSound, Handed, length-discard}
use node_redis.Client.Pool.Sound.{
  open-IsSound, drained-IsSound, in_use_lem, Handed-in_use, retired-Fits, gone-IsSound,
}
use node_redis.Client.Pool.Returned.{changed-IsSound, return_in_use-IsSound}
use node_redis.Client.Pool.Capacity.{execute-IsSound, handed_lem}
use node_redis.Client.Pool.Invariant.{
  connect-IsSound, destroy-IsSound, cleanup-IsSound, close-IsSound, do_close-IsSound,
  after_drain-IsSound, finish_close-IsSound,
}

create_failed-IsSound :
    (o : Options) (p : Pool) (c : ℕ) (r : Bool) (err : PoolError)
    → includes c p.pending ≡ true
    → IsSound o p
    → IsSound o (create_failed p c r err).0
unfolding create_failed total_clients
create_failed-IsSound o p c r err waits h =
    let p0 = record p { pending = discard c p.pending } in
    let handed : Handed o p0 c = handed_lem o p c waits h in
    let p' = record p0 { in_use = discard c p.in_use } in
    let fits = λ (d : ℕ). retired-Fits p0 c d (handed.0.fits d) handed.1 in
    let few : total_clients p' ≤ limit o = omega (arith, h.bound, length-discard c p.in_use) in
    elim (Bool-cases (includes c p.destroyed)) [
      | inl e ↦ rw (create_failed, e) (gone-IsSound o p0 c handed e)
      | inr e ↦
          let used = Handed-in_use o p0 c handed e in
          let working = in_use_lem o p h used.2 in
          elim (Bool-cases ((is_closing p' || r) && is_nil p'.in_use)) [
            | inl last ↦
                rw (create_failed, e, last)
                  (changed-IsSound o (resolve_drain p') [] p.abandoned p.terminated p.submitted
                    (drained-IsSound o p' fits working.0 (ground (arith, last)) few))
            | inr more ↦
                rw (create_failed, e, more) (open-IsSound o p' fits working.0 working.1 few)
          ]
    ]

reject_queued-IsSound :
    (o : Options) (env : Environment) (p : Pool) (err : PoolError)
    → IsSound o p
    → IsSound o (reject_queued env p err).0
unfolding reject_queued
reject_queued-IsSound o env p err h =
    let marked = add_each (filter (λ c. not (env.is_ready c)) p.in_use) p.abandoned in
    elim (Bool-cases (any env.is_ready (p.in_use ++ p.idle))) [
      | inl e ↦
          rw (reject_queued, e) (changed-IsSound o p p.tasks marked p.terminated p.submitted h)
      | inr e ↦ rw (reject_queued, e) (changed-IsSound o p [] marked p.terminated p.submitted h)
    ]

step-IsSound :
    (o : Options) (s : Step) (p : Pool) → can s p ≡ true → IsSound o p → IsSound o (step o s p).0
unfolding step can connected task_resolved task_rejected acquire_timed_out scale_up_failed terminate
step-IsSound o connects p may h = connect-IsSound o p h
step-IsSound o destroys p may h = destroy-IsSound o p h
step-IsSound o closes p may h = close-IsSound o p h
step-IsSound o cleans_up p may h = cleanup-IsSound o p h
step-IsSound o (executes env) p may h = execute-IsSound env o p h
step-IsSound o (times_out t) p may h =
    changed-IsSound o p (discard t p.tasks) p.abandoned p.terminated p.submitted h
step-IsSound o (connects_client env c) p may h =
    return_in_use-IsSound env o (record p { pending = discard c p.pending }) c
      (handed_lem o p c may h)
step-IsSound o (resolves env t c) p may h =
    return_in_use-IsSound env o (record p { pending = discard c p.pending }) c
      (handed_lem o p c may h)
step-IsSound o (rejects env t c) p may h =
    return_in_use-IsSound env o (record p { pending = discard c p.pending }) c
      (handed_lem o p c may h)
step-IsSound o (fails_to_connect c r err) p may h = create_failed-IsSound o p c r err may h
step-IsSound o (fails_to_scale_up t err) p may h =
    changed-IsSound o p (discard t p.tasks) p.abandoned p.terminated p.submitted h
step-IsSound o (fails_to_open n) p may h = elim (Bool-cases (p.destroy_count == n)) [
  | inl e ↦ rw (connect_failed, e) (destroy-IsSound o p h)
  | inr e ↦ rw (connect_failed, e) h
]
step-IsSound o (terminates c) p may h =
    changed-IsSound o p p.tasks p.abandoned (add c p.terminated) p.submitted h
step-IsSound o (rejects_queued env err) p may h = reject_queued-IsSound o env p err h
step-IsSound o (does_close n) p may h = do_close-IsSound o p n may h
step-IsSound o (drains n) p may h = after_drain-IsSound o p n may h
step-IsSound o (finishes_close n) p may h = finish_close-IsSound o p n may h

new_pool-IsSound : (o : Options) → IsSound o new_pool
unfolding new_pool total_clients times includes
new_pool-IsSound o = record {
  fits = λ c. record {
    used = refl;
    once = omega arith;
    free = λ m. refl;
    fresh = λ le. (refl, refl, refl);
  };
  tidy = refl;
  over = refl;
  bound = omega arith;
}

steps-IsSound :
    (o : Options) (ss : List Step) (p : Pool)
    → can_all o ss p ≡ true
    → IsSound o p
    → IsSound o (run o ss p).0
unfolding run can_all
steps-IsSound o [] p may h = h
steps-IsSound o (s ∷ ss) p may h =
    steps-IsSound o ss (step o s p).0 (ground (arith, may))
      (step-IsSound o s p (ground (arith, may)) h)

-- However the operations of a new pool follow each other, where a promise is settled that the pool
-- waits for and the parts of a `close` come in order: its clients, connecting, idle and in use, are at
-- most `maximum`, or `minimum` where that is more; no client is in two lists, or twice in one; a client
-- that was not destroyed is in use exactly while the pool waits for the promise it was kept for, and
-- so never stays in use for nothing; one that was destroyed in use is in no list; and a pool that is
-- not open has none.
pub run-IsSound :
    (o : Options) (ss : List Step) → can_all o ss new_pool ≡ true → IsSound o (run o ss new_pool).0
run-IsSound o ss may = steps-IsSound o ss new_pool may (new_pool-IsSound o)
