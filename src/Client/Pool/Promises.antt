-- ===== src/Client/Pool/Promises.antt =====
-- Each task is started at most once, and none is lost.
use node_redis.Base.{
  append-nil, subst, ℕ, ◌+◌, ◌≤◌, ◌<◌, ◌≡◌, refl, Bool, true, not, ◌&&◌, ◌||◌, leb, ◌==◌,
  if◌then◌else◌, List, [], ◌∷◌, ◌++◌, map, arith, Bool-cases, inl, inr, take, filter,
}
use node_redis.Base.Sets.{includes, discard}
use node_redis.Client.Pool.{
  PoolError, client_closed, timed_out, thrown, Effect, resolved, rejected, timer_cleared,
  client_closing, client_destroyed, queue_flushed, Options, Environment, waiting, finishing, Pool,
  new_pool, is_nil, is_closing, resolve_drain, return_in_use,
}
use node_redis.Client.Pool.Operations.{
  cleanup_count, acquire_timed_out, connected, task_resolved, task_rejected, create_failed,
  scale_up_failed, connect, connect_failed, terminate, cleanup, reject_queued, close, close_idle,
  do_close, after_drain, finish_close, destroy, reject_tasks, add_each, any,
}
use node_redis.Client.Pool.Steps.{
  Step, connects, destroys, closes, cleans_up, executes, times_out, connects_client, resolves,
  rejects, fails_to_connect, fails_to_scale_up, fails_to_open, terminates, rejects_queued,
  does_close, drains, finishes_close, step, run,
}
use node_redis.Client.Pool.Tasks.{
  times, starts, rejections, unstarted, times-discard, starts-append, rejections-append,
  reject_tasks_lem, about_clients, Balanced, unmoved, behind,
}
use node_redis.Client.Pool.Settled.{return_in_use_lem, execute_lem, create_each_lem}

back_lem :
    (t : ℕ) (env : Environment) (o : Options) (p : Pool) (c : ℕ) (es : List Effect)
    → starts t es ≡ 0
    → let r = return_in_use env o (record p { pending = discard c p.pending }) c in
      Balanced t p (r.0, es ++ r.1)
back_lem t env o p c es none_started =
    let p' = record p { pending = discard c p.pending } in
    behind t p (p', es) (return_in_use env o p' c)
      (unmoved t p p' es (unfold unstarted in refl) none_started) (return_in_use_lem t env o p' c)

-- All the tasks are rejected, behind effects on clients and in front of others.
all_rejected :
    (t : ℕ) (p p' : Pool) (err : PoolError) (ds es : List Effect)
    → (p'.tasks ≡ []) × (p'.submitted ≡ p.submitted)
    → (starts t ds ≡ 0) × (rejections t ds ≡ 0)
    → (starts t es ≡ 0) × (rejections t es ≡ 0)
    → Balanced t p (p', ds ++ (reject_tasks err p.tasks ++ es))
unfolding unstarted times
all_rejected t p p' err ds es same before after =
    let each = reject_tasks_lem t err p.tasks in
    let rs = reject_tasks err p.tasks in
    let none_left : unstarted t p' ≡ (if leb p.submitted t then 1 else 0) =
      rw (same.0, same.1) (omega arith) in
    record {
      started_once = ground (
        arith,
        none_left,
        before,
        after,
        each,
        starts-append t ds (rs ++ es),
        starts-append t rs es,
      );
      not_lost = λ few. ground (
        arith,
        none_left,
        before,
        after,
        each,
        rejections-append t ds (rs ++ es),
        rejections-append t rs es,
      );
    }

-- One task is rejected, whether it waits or not.
one_rejected :
    (t : ℕ) (p : Pool) (u : ℕ) (es : List Effect)
    → (starts t es ≡ 0) × (rejections t es ≡ (if u == t then 1 else 0))
    → Balanced t p (record p { tasks = discard u p.tasks }, es)
unfolding unstarted
one_rejected t p u es h = record {
  started_once = ground (arith, h, times-discard t u p.tasks);
  not_lost = λ few. ground (arith, few, h, times-discard t u p.tasks);
}

destroy_lem : (t : ℕ) (p : Pool) → Balanced t p (destroy p)
unfolding destroy starts rejections
destroy_lem t p =
    all_rejected t p (destroy p).0 client_closed [] (map client_destroyed (p.idle ++ p.in_use))
      (refl, refl) (refl, refl)
      (about_clients t client_destroyed (p.idle ++ p.in_use) (λ c. (refl, refl)))

last_rejected :
    (t : ℕ) (p p' : Pool) (err : PoolError) (ds : List Effect)
    → (p'.tasks ≡ []) × (p'.submitted ≡ p.submitted)
    → (starts t ds ≡ 0) × (rejections t ds ≡ 0)
    → Balanced t p (p', ds ++ reject_tasks err p.tasks)
unfolding starts rejections
last_rejected t p p' err ds same before =
    subst (λ (rs : List Effect). Balanced t p (p', ds ++ rs))
      (append-nil (reject_tasks err p.tasks))
      (all_rejected t p p' err ds [] same before (refl, refl))

create_failed_lem :
    (t : ℕ) (p : Pool) (c : ℕ) (r : Bool) (err : PoolError) → Balanced t p (create_failed p c r err)
unfolding create_failed resolve_drain unstarted starts rejections
create_failed_lem t p c r err =
    let p' = record p { in_use = discard c p.in_use; pending = discard c p.pending } in
    elim (Bool-cases (includes c p.destroyed)) [
      | inl e ↦
          rw (create_failed, e)
            (unmoved t p (record p { pending = discard c p.pending }) [] refl refl)
      | inr e ↦ elim (Bool-cases ((is_closing p' || r) && is_nil p'.in_use)) [
        | inl last ↦
            rw (create_failed, e, last)
              (last_rejected t p (resolve_drain (record p' { tasks = [] })) err [] (refl, refl)
                (refl, refl))
        | inr more ↦ rw (create_failed, e, more) (unmoved t p p' [] refl refl)
      ]
    ]

reject_queued_lem :
    (t : ℕ) (env : Environment) (p : Pool) (err : PoolError)
    → Balanced t p (reject_queued env p err)
unfolding reject_queued unstarted starts rejections
reject_queued_lem t env p err =
    let unready = filter (λ c. not (env.is_ready c)) p.in_use in
    let all = unready ++ filter (λ c. not (env.is_ready c)) p.idle in
    let p' = record p { abandoned = add_each unready p.abandoned } in
    let flushed = about_clients t queue_flushed all (λ c. (refl, refl)) in
    elim (Bool-cases (any env.is_ready (p.in_use ++ p.idle))) [
      | inl e ↦ rw (reject_queued, e) (unmoved t p p' (map queue_flushed all) refl flushed.0)
      | inr e ↦
          rw (reject_queued, e)
            (last_rejected t p (record p' { tasks = [] }) err (map queue_flushed all) (refl, refl)
              flushed)
    ]

close_idle_lem : (t : ℕ) (p : Pool) → Balanced t p (close_idle p)
unfolding close_idle unstarted starts rejections
close_idle_lem t p =
    let ends =
      λ (c : ℕ). if includes c p.terminated then client_destroyed c else client_closing c in
    unmoved t p (record p { closing = finishing }) (map ends p.idle) refl
      (about_clients t ends p.idle (λ c. (ground arith, ground arith))).0

do_close_lem : (t : ℕ) (p : Pool) (n : ℕ) → Balanced t p (do_close p n)
unfolding do_close unstarted starts
do_close_lem t p n = elim (Bool-cases (not (p.destroy_count == n))) [
  | inl e ↦ rw (do_close, e) (unmoved t p p [] refl refl)
  | inr e ↦ elim (Bool-cases (not (is_nil p.in_use))) [
    | inl busy ↦ rw (do_close, e, busy) (unmoved t p (record p { closing = waiting }) [] refl refl)
    | inr free ↦ rw (do_close, e, free) (close_idle_lem t p)
  ]
]

after_drain_lem : (t : ℕ) (p : Pool) (n : ℕ) → Balanced t p (after_drain p n)
unfolding after_drain unstarted starts
after_drain_lem t p n = elim (Bool-cases (not (p.destroy_count == n))) [
  | inl e ↦ rw (after_drain, e) (unmoved t p p [] refl refl)
  | inr e ↦ rw (after_drain, e) (close_idle_lem t p)
]

step_lem : (t : ℕ) (o : Options) (s : Step) (p : Pool) → Balanced t p (step o s p)
unfolding step connect connect_failed close cleanup acquire_timed_out connected task_resolved
    task_rejected create_failed scale_up_failed terminate reject_queued do_close close_idle
    after_drain finish_close resolve_drain unstarted starts rejections
step_lem t o connects p =
    let r = create_each_lem t o.minimum (record p { is_open = true }) in
    record {
      started_once = ground (arith, r.started_once);
      not_lost = λ few. ground (arith, few, r.not_lost);
    }
step_lem t o destroys p = destroy_lem t p
step_lem t o closes p = unmoved t p (close p) [] (ground arith) refl
step_lem t o cleans_up p =
    unmoved t p (cleanup o p).0 (cleanup o p).1 refl
      (about_clients t client_destroyed (take (cleanup_count o p) p.idle) (λ c. (refl, refl))).0
step_lem t o (executes env) p = execute_lem t env o p
step_lem t o (times_out u) p = one_rejected t p u (rejected u timed_out ∷ []) (refl, refl)
step_lem t o (connects_client env c) p = back_lem t env o p c [] refl
step_lem t o (resolves env u c) p = back_lem t env o p c (resolved u ∷ []) refl
step_lem t o (rejects env u c) p = back_lem t env o p c (rejected u thrown ∷ []) refl
step_lem t o (fails_to_connect c r err) p = create_failed_lem t p c r err
step_lem t o (fails_to_scale_up u err) p =
    one_rejected t p u (timer_cleared u ∷ rejected u err ∷ []) (refl, refl)
step_lem t o (fails_to_open n) p = elim (Bool-cases (p.destroy_count == n)) [
  | inl e ↦ rw (connect_failed, e) (destroy_lem t p)
  | inr e ↦ rw (connect_failed, e) (unmoved t p p [] refl refl)
]
step_lem t o (terminates c) p = unmoved t p (terminate p c) [] refl refl
step_lem t o (rejects_queued env err) p = reject_queued_lem t env p err
step_lem t o (does_close n) p = do_close_lem t p n
step_lem t o (drains n) p = after_drain_lem t p n
step_lem t o (finishes_close n) p = unmoved t p (finish_close p n) [] (ground arith) refl

run_lem : (t : ℕ) (o : Options) (ss : List Step) (p : Pool) → Balanced t p (run o ss p)
unfolding run starts
run_lem t o [] p = unmoved t p p [] refl refl
run_lem t o (s ∷ ss) p =
    behind t p (step o s p) (run o ss (step o s p).0) (step_lem t o s p)
      (run_lem t o ss (step o s p).0)

new_pool_lem : (t : ℕ) → unstarted t new_pool ≡ 1
unfolding unstarted new_pool times
new_pool_lem t = ground arith

unstarted_lem :
    (t : ℕ) (p : Pool)
    → (times t p.tasks ≤ unstarted t p) × (t < p.submitted → unstarted t p ≡ times t p.tasks)
unfolding unstarted
unstarted_lem t p = (ground arith, λ lt. ground arith)

-- However the operations of a new pool follow each other, a task is started at most once, and not
-- while it still waits; and one that was submitted and does not wait any more was started, or its
-- promise was rejected.
pub run-starts :
    (t : ℕ) (o : Options) (ss : List Step)
    → let r = run o ss new_pool in
      (times t r.0.tasks + starts t r.1 ≤ 1)
      × (t < r.0.submitted → 1 ≤ times t r.0.tasks + starts t r.1 + rejections t r.1)
run-starts t o ss =
    let h = run_lem t o ss new_pool in
    let (most, exactly) = unstarted_lem t (run o ss new_pool).0 in
    (
      omega (arith, h.started_once, most, new_pool_lem t),
      λ lt. omega (arith, h.not_lost (omega (arith, new_pool_lem t)), exactly lt, new_pool_lem t),
    )
