-- ===== src/Client/Pool/Drain.antt =====
-- A close that waits for the drain.
use node_redis.Base.{
  ℕ, zero, suc, ◌≡◌, refl, Bool, true, false, ◌&&◌, List, [], ◌∷◌, ◌++◌, length, arith,
}
use node_redis.Base.Sets.{discard}
use node_redis.Client.Pool.{
  Effect, Options, Environment, waiting, Pool, is_nil, resolve_drain, create, schedule_cleanup,
  to_idle, retire, execute_task, task_taken, serve, return_client, return_in_use,
}
use node_redis.Client.Pool.Operations.{
  enqueue, execute_on, execute, acquire_timed_out, connected, task_resolved, task_rejected,
  create_failed, scale_up_failed, create_each, connect, connect_failed, terminate, cleanup,
  reject_queued, close, close_idle, do_close, after_drain, finish_close, destroy,
}
use node_redis.Client.Pool.Steps.{
  Step, connects, destroys, closes, cleans_up, executes, times_out, connects_client, resolves,
  rejects, fails_to_connect, fails_to_scale_up, fails_to_open, terminates, rejects_queued,
  does_close, drains, finishes_close, step, run,
}

abbrev pub is_waiting : Pool → Bool
is_waiting p = elim p.closing [ waiting ↦ true | _ ↦ false ]

-- A close waits, and no client is left that could end its wait.
unfoldable pub is_stuck : Pool → Bool
is_stuck p = is_waiting p && is_nil p.in_use

is_nil-append : (xs : List ℕ) (c : ℕ) → is_nil (xs ++ c ∷ []) ≡ false
is_nil-append [] c = refl
is_nil-append (x ∷ xs) c = refl

create_lem : (p : Pool) → is_stuck (create p).0 ≡ false
unfolding is_stuck create
create_lem p = ground (arith, is_nil-append p.in_use p.clients)

to_idle_lem : (o : Options) (p : Pool) (c : ℕ) → is_stuck (to_idle o p c).0 ≡ false
unfolding is_stuck to_idle resolve_drain schedule_cleanup
to_idle_lem o p c = ground arith

retire_lem : (p : Pool) (c : ℕ) → is_stuck (retire p c).0 ≡ false
unfolding is_stuck retire resolve_drain
retire_lem p c = ground (arith, create_lem (record p { in_use = discard c p.in_use }))

serve_lem :
    (env : Environment) (o : Options) (p : Pool) (c : ℕ) (rest : Pool × List Effect)
    → is_stuck p ≡ false
    → is_stuck rest.0 ≡ false
    → is_stuck (serve env o p c rest).0 ≡ false
unfolding is_stuck serve execute_task task_taken
serve_lem env o p c rest h k =
    ground (
      arith,
      h,
      k,
      retire_lem p c,
      to_idle_lem o (record p { abandoned = discard c p.abandoned }) c,
    )

return_client_lem :
    (fuel : ℕ) (env : Environment) (o : Options) (p : Pool) (c : ℕ)
    → is_stuck p ≡ false
    → is_stuck (return_client fuel env o p c).0 ≡ false
unfolding return_client
return_client_lem zero env o p c h = h
return_client_lem (suc fuel) env o p c h =
    serve_lem env o p c (return_client fuel env o (task_taken p c) c) h
      (return_client_lem fuel env o (task_taken p c) c (unfold task_taken is_stuck in h))

return_in_use_lem :
    (env : Environment) (o : Options) (p : Pool) (c : ℕ)
    → is_stuck p ≡ false
    → is_stuck (return_in_use env o p c).0 ≡ false
unfolding return_in_use
return_in_use_lem env o p c h = return_client_lem (suc (length p.tasks)) env o p c h

execute_on_lem :
    (env : Environment) (o : Options) (p : Pool) (t : ℕ) (cs : List ℕ)
    → is_stuck p ≡ false
    → is_stuck (execute_on env o p t cs).0 ≡ false
unfolding execute_on enqueue execute_task is_stuck
execute_on_lem env o p t [] h =
    let p' = record p { idle = []; tasks = p.tasks ++ t ∷ [] } in ground (arith, h, create_lem p')
execute_on_lem env o p t (c ∷ cs) h =
    let p' = record p { idle = cs; in_use = p.in_use ++ c ∷ [] } in
    let used : is_stuck p' ≡ false = ground (arith, is_nil-append p.in_use c) in
    ground (arith, used, return_in_use_lem env o p' c used, execute_on_lem env o p t cs h)

create_each_lem : (n : ℕ) (p : Pool) → is_stuck p ≡ false → is_stuck (create_each n p).0 ≡ false
unfolding create_each
create_each_lem zero p h = h
create_each_lem (suc n) p h = create_each_lem n (create p).0 (create_lem p)

step_lem :
    (o : Options) (s : Step) (p : Pool) → is_stuck p ≡ false → is_stuck (step o s p).0 ≡ false
unfolding step is_stuck connect connect_failed destroy close cleanup execute acquire_timed_out
    connected task_resolved task_rejected create_failed scale_up_failed terminate reject_queued
    do_close close_idle after_drain finish_close resolve_drain
step_lem o connects p h = ground (arith, h, create_each_lem o.minimum (record p { is_open = true }))
step_lem o destroys p h = refl
step_lem o closes p h = ground (arith, h)
step_lem o cleans_up p h = h
step_lem o (executes env) p h =
    ground
      (arith, h, execute_on_lem env o (record p { submitted = suc p.submitted }) p.submitted p.idle)
step_lem o (times_out t) p h = h
step_lem o (connects_client env c) p h =
    return_in_use_lem env o (record p { pending = discard c p.pending }) c h
step_lem o (resolves env t c) p h =
    return_in_use_lem env o (record p { pending = discard c p.pending }) c h
step_lem o (rejects env t c) p h =
    return_in_use_lem env o (record p { pending = discard c p.pending }) c h
step_lem o (fails_to_connect c r err) p h = ground (arith, h)
step_lem o (fails_to_scale_up t err) p h = h
step_lem o (fails_to_open n) p h = ground (arith, h)
step_lem o (terminates c) p h = h
step_lem o (rejects_queued env err) p h = ground (arith, h)
step_lem o (does_close n) p h = ground (arith, h)
step_lem o (drains n) p h = ground (arith, h)
step_lem o (finishes_close n) p h = ground (arith, h)

-- However the operations of a pool follow each other, a `close` that waits for the tasks is never left
-- without a client in use: the last client that leaves the list ends the wait, whether it returns, is
-- retired, fails to connect or is destroyed.
pub run-is_stuck :
    (o : Options) (ss : List Step) (p : Pool) → is_stuck p ≡ false → is_stuck (run o ss p).0 ≡ false
unfolding run
run-is_stuck o [] p h = h
run-is_stuck o (s ∷ ss) p h = run-is_stuck o ss (step o s p).0 (step_lem o s p h)
