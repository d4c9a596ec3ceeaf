-- ===== src/Client/Pool/Settled.antt =====
-- The parts of the operations of the pool, and the tasks they start and reject.
use node_redis.Base.{ℕ, zero, suc, refl, List, [], ◌∷◌, ◌++◌, length, arith}
use node_redis.Base.Sets.{discard}
use node_redis.Client.Pool.{
  Effect, Options, Environment, Pool, resolve_drain, create, schedule_cleanup, to_idle, retire,
  execute_task, task_taken, serve, return_client, return_in_use,
}
use node_redis.Client.Pool.Operations.{enqueue, execute_on, execute, create_each}
use node_redis.Client.Pool.Tasks.{
  times, starts, rejections, unstarted, times-append, Balanced, unmoved, behind,
}

create_lem : (t : ℕ) (p : Pool) → Balanced t p (create p)
unfolding create unstarted starts rejections
create_lem t p = record { started_once = omega arith; not_lost = λ h. omega arith }

retire_lem : (t : ℕ) (p : Pool) (c : ℕ) → Balanced t p (retire p c)
unfolding retire create resolve_drain unstarted starts rejections
retire_lem t p c = record { started_once = ground arith; not_lost = λ h. ground arith }

to_idle_lem : (t : ℕ) (o : Options) (p : Pool) (c : ℕ) → Balanced t p (to_idle o p c)
unfolding to_idle schedule_cleanup resolve_drain unstarted starts rejections
to_idle_lem t o p c = record { started_once = ground arith; not_lost = λ h. ground arith }

serve_lem :
    (t : ℕ) (env : Environment) (o : Options) (p : Pool) (c : ℕ) (rest : Pool × List Effect)
    → Balanced t (task_taken p c) rest
    → Balanced t p (serve env o p c rest)
unfolding serve execute_task task_taken unstarted starts rejections times
serve_lem t env o p c rest h =
    let retired = retire_lem t p c in
    let idle = to_idle_lem t o (record p { abandoned = discard c p.abandoned }) c in
    record {
      started_once = ground (arith, h.started_once, retired.started_once, idle.started_once);
      not_lost =
          λ few. ground (arith, few, h.started_once, h.not_lost, retired.not_lost, idle.not_lost);
    }

return_client_lem :
    (t : ℕ) (fuel : ℕ) (env : Environment) (o : Options) (p : Pool) (c : ℕ)
    → Balanced t p (return_client fuel env o p c)
unfolding return_client
return_client_lem t zero env o p c = unmoved t p p [] refl (unfold starts in refl)
return_client_lem t (suc fuel) env o p c =
    serve_lem t env o p c (return_client fuel env o (task_taken p c) c)
      (return_client_lem t fuel env o (task_taken p c) c)

pub return_in_use_lem :
    (t : ℕ) (env : Environment) (o : Options) (p : Pool) (c : ℕ)
    → Balanced t p (return_in_use env o p c)
unfolding return_in_use
return_in_use_lem t env o p c = return_client_lem t (suc (length p.tasks)) env o p c

enqueue_lem :
    (t : ℕ) (o : Options) (p : Pool) (u : ℕ)
    → Balanced t (record p { tasks = p.tasks ++ u ∷ [] }) (enqueue o (record p { idle = [] }) u)
unfolding enqueue create unstarted starts rejections
enqueue_lem t o p u = record { started_once = ground arith; not_lost = λ h. ground arith }

execute_on_lem :
    (t : ℕ) (env : Environment) (o : Options) (p : Pool) (u : ℕ) (cs : List ℕ)
    → Balanced t (record p { tasks = p.tasks ++ u ∷ [] }) (execute_on env o p u cs)
unfolding execute_on execute_task unstarted starts rejections times
execute_on_lem t env o p u [] = enqueue_lem t o p u
execute_on_lem t env o p u (c ∷ cs) =
    let later = execute_on_lem t env o p u cs in
    let back = return_in_use_lem t env o (record p { idle = cs; in_use = p.in_use ++ c ∷ [] }) c in
    record {
      started_once =
          ground (arith, later.started_once, back.started_once, times-append t p.tasks (u ∷ []));
      not_lost = λ few. ground (
        arith,
        few,
        later.not_lost few,
        back.started_once,
        back.not_lost,
        times-append t p.tasks (u ∷ []),
      );
    }

pub execute_lem :
    (t : ℕ) (env : Environment) (o : Options) (p : Pool) → Balanced t p (execute env o p)
unfolding execute unstarted starts rejections times
execute_lem t env o p =
    let u = p.submitted in
    let r = execute_on_lem t env o (record p { submitted = suc u }) u p.idle in
    record {
      started_once = ground (arith, r.started_once, times-append t p.tasks (u ∷ []));
      not_lost =
          λ few. ground (arith, few, r.started_once, r.not_lost, times-append t p.tasks (u ∷ []));
    }

pub create_each_lem : (t n : ℕ) (p : Pool) → Balanced t p (create_each n p)
unfolding create_each
create_each_lem t zero p = unmoved t p p [] refl (unfold starts in refl)
create_each_lem t (suc n) p =
    behind t p (create p) (create_each n (create p).0) (create_lem t p)
      (create_each_lem t n (create p).0)
