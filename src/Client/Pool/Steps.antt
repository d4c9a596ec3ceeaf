-- ===== src/Client/Pool/Steps.antt =====
-- The operations of the pool as steps, and when a step can come.
use node_redis.Base.{ℕ, Bool, true, false, not, ◌&&◌, ◌||◌, ◌==◌, List, [], ◌∷◌, ◌++◌}
use node_redis.Base.Sets.{includes}
use node_redis.Client.Pool.{
  PoolError, thrown, Effect, Options, Environment, called, drained, finishing, Closing, Pool,
}
use node_redis.Client.Pool.Operations.{
  execute, acquire_timed_out, connected, task_resolved, task_rejected, create_failed,
  scale_up_failed, connect, connect_failed, terminate, cleanup, reject_queued, close, do_close,
  after_drain, finish_close, destroy,
}

-- `env` is what the environment answers during the step.
pub data Step : Type 0 where
  connects destroys closes cleans_up : Step
  executes : (env : Environment) → Step
  times_out : (task : ℕ) → Step
  connects_client : (env : Environment) (client : ℕ) → Step
  resolves rejects : (env : Environment) (task client : ℕ) → Step
  fails_to_connect : (client : ℕ) (replacement : Bool) → PoolError → Step
  fails_to_scale_up : (task : ℕ) → PoolError → Step
  fails_to_open : (count : ℕ) → Step
  terminates : (client : ℕ) → Step
  rejects_queued : (env : Environment) → PoolError → Step
  does_close drains finishes_close : (count : ℕ) → Step

unfoldable pub step : Options → Step → Pool → Pool × List Effect
unfolding execute acquire_timed_out connected task_resolved task_rejected create_failed
    scale_up_failed connect connect_failed terminate cleanup reject_queued close do_close
    after_drain finish_close destroy
step o connects p = connect o p
step o destroys p = destroy p
step o closes p = (close p, [])
step o cleans_up p = cleanup o p
step o (executes env) p = execute env o p
step o (times_out t) p = acquire_timed_out p t
step o (connects_client env c) p = connected env o p c
step o (resolves env t c) p = task_resolved env o p t c
step o (rejects env t c) p = task_rejected env o p t c thrown
step o (fails_to_connect c r err) p = create_failed p c r err
step o (fails_to_scale_up t err) p = scale_up_failed p t err
step o (fails_to_open n) p = connect_failed p n
step o (terminates c) p = (terminate p c, [])
step o (rejects_queued env err) p = reject_queued env p err
step o (does_close n) p = do_close p n
step o (drains n) p = after_drain p n
step o (finishes_close n) p = (finish_close p n, [])

unfoldable pub run : Options → List Step → Pool → Pool × List Effect
unfolding step
run o [] p = (p, [])
run o (s ∷ ss) p = let r = step o s p in let rest = run o ss r.0 in (rest.0, r.1 ++ rest.1)

abbrev pub is_called : Closing → Bool
is_called called = true
is_called c = false

abbrev pub is_drained : Closing → Bool
is_drained drained = true
is_drained c = false

abbrev pub is_finishing : Closing → Bool
is_finishing finishing = true
is_finishing c = false

-- When a step can come: behind a promise that the pool waits for, and a `close` takes its parts in
-- order, unless `destroy` took over from it.
unfoldable pub can : Step → Pool → Bool
can (connects_client env c) p = includes c p.pending
can (resolves env t c) p = includes c p.pending
can (rejects env t c) p = includes c p.pending
can (fails_to_connect c r err) p = includes c p.pending
can (does_close n) p = not (p.destroy_count == n) || is_called p.closing
can (drains n) p = not (p.destroy_count == n) || is_drained p.closing
can (finishes_close n) p = not (p.destroy_count == n) || is_finishing p.closing
can s p = true

unfoldable pub can_all : Options → List Step → Pool → Bool
unfolding can step
can_all o [] p = true
can_all o (s ∷ ss) p = can s p && can_all o ss (step o s p).0
