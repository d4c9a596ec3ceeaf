-- ===== src/Client/Pool/Idle.antt =====
-- Tasks that wait, and clients that are idle.
use node_redis.Base.{
  ℕ, zero, suc, ◌≡◌, refl, ◌∙◌, Bool, true, false, not, ◌&&◌, ◌||◌, List, [], ◌∷◌, ◌++◌, length,
  arith, drop,
}
use node_redis.Base.Sets.{includes, discard}
use node_redis.Client.Pool.{
  Effect, Options, Environment, Pool, is_nil, resolve_drain, create, schedule_cleanup, to_idle,
  retire, execute_task, skips, task_taken, serve, return_client, return_in_use,
}
use node_redis.Client.Pool.Operations.{
  cleanup_count, enqueue, execute_on, execute, acquire_timed_out, connected, task_resolved,
  task_rejected, create_failed, scale_up_failed, create_each, connect, connect_failed, terminate,
  cleanup, close, close_idle, do_close, after_drain, finish_close, destroy,
}
use node_redis.Client.Pool.Steps.{
  Step, connects, destroys, closes, cleans_up, executes, times_out, connects_client, resolves,
  rejects, fails_to_connect, fails_to_scale_up, fails_to_open, terminates, rejects_queued,
  does_close, drains, finishes_close, step, run,
}

-- A task waits while a client is idle, or a client in use was flushed.
unfoldable pub is_wasteful : Pool → Bool
is_wasteful p = not (is_nil p.abandoned) || (not (is_nil p.tasks) && not (is_nil p.idle))

unfoldable pub any_rejects_queued : List Step → Bool
any_rejects_queued [] = false
any_rejects_queued (rejects_queued env err ∷ ss) = true
any_rejects_queued (s ∷ ss) = any_rejects_queued ss

nothing_abandoned :
    (c : ℕ) (cs : List ℕ)
    → is_nil cs ≡ true
    → (includes c cs ≡ false) × (is_nil (discard c cs) ≡ true)
unfolding includes discard
nothing_abandoned c [] h = (refl, refl)
nothing_abandoned c (d ∷ cs) h = absurd (cc)

nothing_discarded : (t : ℕ) (ts : List ℕ) → is_nil ts ≡ true → is_nil (discard t ts) ≡ true
unfolding discard
nothing_discarded t [] h = refl
nothing_discarded t (u ∷ ts) h = absurd (cc)

create_lem : (p : Pool) → is_wasteful (create p).0 ≡ is_wasteful p
unfolding is_wasteful create
create_lem p = refl

retire_lem : (p : Pool) (c : ℕ) → is_wasteful (retire p c).0 ≡ is_wasteful p
unfolding is_wasteful retire resolve_drain create
retire_lem p c = ground arith

to_idle_lem :
    (o : Options) (p : Pool) (c : ℕ)
    → is_nil p.tasks ≡ true
    → is_nil p.abandoned ≡ true
    → is_wasteful (to_idle o p c).0 ≡ false
unfolding is_wasteful to_idle resolve_drain schedule_cleanup
to_idle_lem o p c h k = ground (arith, h, k)

task_taken_lem : (p : Pool) (c : ℕ) → is_wasteful p ≡ false → is_wasteful (task_taken p c) ≡ false
unfolding is_wasteful task_taken
task_taken_lem p c h = ground (arith, h, nothing_abandoned c p.abandoned)

serve_lem :
    (env : Environment) (o : Options) (p : Pool) (c : ℕ) (rest : Pool × List Effect)
    → is_wasteful p ≡ false
    → is_wasteful rest.0 ≡ false
    → is_wasteful (serve env o p c rest).0 ≡ false
unfolding is_wasteful serve execute_task skips
serve_lem env o p c rest h k = ground (
  arith,
  h,
  k,
  retire_lem p c,
  to_idle_lem o (record p { abandoned = discard c p.abandoned }) c,
  nothing_abandoned c p.abandoned,
  task_taken_lem p c,
)

return_client_lem :
    (fuel : ℕ) (env : Environment) (o : Options) (p : Pool) (c : ℕ)
    → is_wasteful p ≡ false
    → is_wasteful (return_client fuel env o p c).0 ≡ false
unfolding return_client
return_client_lem zero env o p c h = h
return_client_lem (suc fuel) env o p c h =
    serve_lem env o p c (return_client fuel env o (task_taken p c) c) h
      (return_client_lem fuel env o (task_taken p c) c (task_taken_lem p c h))

return_in_use_lem :
    (env : Environment) (o : Options) (p : Pool) (c : ℕ)
    → is_wasteful p ≡ false
    → is_wasteful (return_in_use env o p c).0 ≡ false
unfolding return_in_use
return_in_use_lem env o p c h = return_client_lem (suc (length p.tasks)) env o p c h

execute_on_lem :
    (env : Environment) (o : Options) (p : Pool) (t : ℕ) (cs : List ℕ)
    → is_wasteful (record p { idle = cs }) ≡ false
    → is_wasteful (execute_on env o p t cs).0 ≡ false
unfolding execute_on enqueue execute_task is_wasteful create
execute_on_lem env o p t [] h = ground (arith, h)
execute_on_lem env o p t (c ∷ cs) h =
    let p' = record p { idle = cs; in_use = p.in_use ++ c ∷ [] } in
    let fine : is_wasteful p' ≡ false = ground (arith, h) in
    ground (arith, fine, return_in_use_lem env o p' c fine, execute_on_lem env o p t cs)

create_each_lem : (n : ℕ) (p : Pool) → is_wasteful (create_each n p).0 ≡ is_wasteful p
unfolding create_each
create_each_lem zero p = refl
create_each_lem (suc n) p = create_each_lem n (create p).0 ∙ create_lem p

cleanup_lem : (n : ℕ) (cs : List ℕ) → is_nil cs ≡ true → is_nil (drop n cs) ≡ true
cleanup_lem zero cs h = h
cleanup_lem (suc n) [] h = refl
cleanup_lem (suc n) (c ∷ cs) h = absurd (cc)

step_lem :
    (o : Options) (s : Step) (ss : List Step) (p : Pool)
    → any_rejects_queued (s ∷ ss) ≡ false
    → is_wasteful p ≡ false
    → is_wasteful (step o s p).0 ≡ false
unfolding step is_wasteful any_rejects_queued connect connect_failed destroy close cleanup execute
    acquire_timed_out connected task_resolved task_rejected create_failed scale_up_failed terminate
    do_close close_idle after_drain finish_close resolve_drain
step_lem o connects ss p calm h =
    ground (arith, h, create_each_lem o.minimum (record p { is_open = true }))
step_lem o destroys ss p calm h = ground (arith, h)
step_lem o closes ss p calm h = ground (arith, h)
step_lem o cleans_up ss p calm h = ground (arith, h, cleanup_lem (cleanup_count o p) p.idle)
step_lem o (executes env) ss p calm h =
    ground
      (arith, h, execute_on_lem env o (record p { submitted = suc p.submitted }) p.submitted p.idle)
step_lem o (times_out t) ss p calm h = ground (arith, h, nothing_discarded t p.tasks)
step_lem o (connects_client env c) ss p calm h =
    return_in_use_lem env o (record p { pending = discard c p.pending }) c h
step_lem o (resolves env t c) ss p calm h =
    return_in_use_lem env o (record p { pending = discard c p.pending }) c h
step_lem o (rejects env t c) ss p calm h =
    return_in_use_lem env o (record p { pending = discard c p.pending }) c h
step_lem o (fails_to_connect c r err) ss p calm h = ground (arith, h)
step_lem o (fails_to_scale_up t err) ss p calm h = ground (arith, h, nothing_discarded t p.tasks)
step_lem o (fails_to_open n) ss p calm h = ground (arith, h)
step_lem o (terminates c) ss p calm h = h
step_lem o (rejects_queued env err) ss p calm h = absurd (cc)
step_lem o (does_close n) ss p calm h = ground (arith, h)
step_lem o (drains n) ss p calm h = ground (arith, h)
step_lem o (finishes_close n) ss p calm h = ground (arith, h)

steps_behind :
    (s : Step) (ss : List Step)
    → any_rejects_queued (s ∷ ss) ≡ false
    → any_rejects_queued ss ≡ false
unfolding any_rejects_queued
steps_behind s ss h = ground (arith, h)

-- Where the commands of no client were flushed by `_rejectQueued`, no task waits while a client is
-- idle, however the operations of the pool follow each other: a client that comes free takes the
-- first task before it is idle, and a task takes an idle client before it waits.
pub run-is_wasteful :
    (o : Options) (ss : List Step) (p : Pool)
    → any_rejects_queued ss ≡ false
    → is_wasteful p ≡ false
    → is_wasteful (run o ss p).0 ≡ false
unfolding run
run-is_wasteful o [] p calm h = h
run-is_wasteful o (s ∷ ss) p calm h =
    run-is_wasteful o ss (step o s p).0 (steps_behind s ss calm) (step_lem o s ss p calm h)
