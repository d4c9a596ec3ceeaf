-- ===== src/Client/Pool/Tests.antt =====
-- Pools of small size, and the theorems of the other modules at them.
use node_redis.Base.{◌+◌, ◌≤◌, ◌<◌, ◌≡◌, refl, true, false, List, [], ◌∷◌, ◌++◌, arith}
use node_redis.Base.Sets.{includes, add, discard}
use node_redis.Client.Pool.{
  connecting, started, resolved, rejected, given, timer_cleared, connect_error, promised, returned,
  Options, Environment, Pool, new_pool, create, total_clients, resolve_drain, schedule_cleanup,
  to_idle, execute_task, skips, task_taken, serve, return_client, return_in_use,
}
use node_redis.Client.Pool.Operations.{
  enqueue, execute_on, execute, connected, task_resolved, task_rejected, create_failed,
  scale_up_failed, create_each, connect, terminate, reject_queued, close, close_idle, do_close,
  after_drain, finish_close,
}
use node_redis.Client.Pool.Steps.{
  Step, connects, closes, executes, connects_client, resolves, rejects, fails_to_connect,
  fails_to_scale_up, terminates, rejects_queued, does_close, drains, finishes_close, step, run, can,
  can_all,
}
use node_redis.Client.Pool.Tasks.{times, starts, rejections}
use node_redis.Client.Pool.Clients.{IsSound}
use node_redis.Client.Pool.Drain.{is_stuck, run-is_stuck}
use node_redis.Client.Pool.Idle.{is_wasteful, any_rejects_queued, run-is_wasteful}
use node_redis.Client.Pool.Promises.{run-starts}
use node_redis.Client.Pool.Fuel.{started_tasks, started_tasks-return_client}
use node_redis.Client.Pool.Ownership.{run-IsSound}

abbrev options : Options
options = record { minimum = 1; maximum = 2; acquire_timeout = 0 }

abbrev one_client : Options
one_client = record { minimum = 1; maximum = 1; acquire_timeout = 0 }

abbrev ready : Environment
ready = record { is_ready = λ c. true; call = λ t. promised }

abbrev unready : Environment
unready = record { is_ready = λ c. false; call = λ t. promised }

abbrev at_once : Environment
at_once = record { is_ready = λ c. true; call = λ t. returned }

-- Task 1 waits for client 1, which then fails to connect; but client 0 has taken the task.
abbrev scale_up : List Step
scale_up =
    connects
    ∷ connects_client ready 0
    ∷ executes ready
    ∷ executes ready
    ∷ resolves ready 0 0
    ∷ fails_to_connect 1 false (connect_error 7)
    ∷ fails_to_scale_up 1 (connect_error 7)
    ∷ resolves ready 1 0
    ∷ []

-- Client 0 was flushed when it was not ready, and comes back while task 1 waits and the pool closes.
abbrev closing_early : List Step
closing_early =
    connects
    ∷ connects_client ready 0
    ∷ executes ready
    ∷ rejects_queued unready (given 1)
    ∷ executes ready
    ∷ closes
    ∷ does_close 0
    ∷ rejects unready 0 0
    ∷ drains 0
    ∷ finishes_close 0
    ∷ []

-- Client 0 was terminated, client 1 fails to connect for task 0, and task 1 waits for it too.
abbrev stranding : List Step
stranding =
    connects
    ∷ connects_client ready 0
    ∷ terminates 0
    ∷ executes ready
    ∷ executes ready
    ∷ fails_to_connect 1 false (connect_error 7)
    ∷ fails_to_scale_up 0 (connect_error 7)
    ∷ []

running_task_rejected :
    (run options scale_up new_pool).1
    ≡ connecting 0
      ∷ started 0 0
      ∷ connecting 1
      ∷ resolved 0
      ∷ timer_cleared 1
      ∷ started 1 0
      ∷ timer_cleared 1
      ∷ rejected 1 (connect_error 7)
      ∷ resolved 1
      ∷ []
unfolding run step connect create_each create connected return_in_use return_client serve new_pool
    execute execute_on enqueue execute_task task_resolved create_failed scale_up_failed
    total_clients to_idle schedule_cleanup resolve_drain skips task_taken includes discard
running_task_rejected = refl

waiting_task_forgotten :
    let p = (run one_client closing_early new_pool).0 in
    (p.tasks ≡ 1 ∷ []) × (p.is_open ≡ false) × (total_clients p ≡ 0)
unfolding run step connect create_each create connected return_in_use return_client serve new_pool
    execute execute_on enqueue execute_task task_rejected reject_queued close do_close close_idle
    after_drain finish_close total_clients to_idle schedule_cleanup resolve_drain skips task_taken
    includes discard add
waiting_task_forgotten = (refl, refl, refl)

waiting_task_stranded :
    let p = (run one_client stranding new_pool).0 in
    (p.tasks ≡ 1 ∷ []) × (p.is_open ≡ true) × (total_clients p ≡ 0)
unfolding run step connect create_each create connected return_in_use return_client serve new_pool
    execute execute_on enqueue execute_task create_failed scale_up_failed terminate total_clients
    to_idle schedule_cleanup resolve_drain skips task_taken includes discard add
waiting_task_stranded = (refl, refl, refl)

run-is_stuck_example : is_stuck (run one_client closing_early new_pool).0 ≡ false
run-is_stuck_example =
    run-is_stuck one_client closing_early new_pool (unfold is_stuck new_pool in refl)

run-is_wasteful_example : is_wasteful (run options scale_up new_pool).0 ≡ false
unfolding any_rejects_queued
run-is_wasteful_example =
    run-is_wasteful options scale_up new_pool refl (unfold is_wasteful new_pool in refl)

run-starts_example :
    let r = run options scale_up new_pool in
    (times 1 r.0.tasks + starts 1 r.1 ≤ 1)
    × (1 < r.0.submitted → 1 ≤ times 1 r.0.tasks + starts 1 r.1 + rejections 1 r.1)
run-starts_example = run-starts 1 options scale_up

-- Client 0 of a pool with two waiting tasks, whose functions return at once.
abbrev two_tasks : Pool
unfolding new_pool
two_tasks = record new_pool { in_use = 0 ∷ []; tasks = 4 ∷ 5 ∷ []; is_open = true; clients = 1 }

started_tasks-return_client_example :
    (started_tasks (return_client 3 at_once options two_tasks 0).1
        ++ (return_client 3 at_once options two_tasks 0).0.tasks
      ≡ two_tasks.tasks)
    × (return_client 3 at_once options two_tasks 0 ≡ return_client 100 at_once options two_tasks 0)
unfolding two_tasks
started_tasks-return_client_example =
    started_tasks-return_client 3 100 at_once options two_tasks 0 (omega arith) (omega arith)

run-IsSound_example : IsSound options (run options scale_up new_pool).0
unfolding run step connect create_each create connected return_in_use return_client serve new_pool
    execute execute_on enqueue execute_task task_resolved create_failed scale_up_failed
    total_clients to_idle schedule_cleanup resolve_drain skips task_taken includes discard can
    can_all
run-IsSound_example = run-IsSound options scale_up refl
