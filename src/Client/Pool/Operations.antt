-- ===== src/Client/Pool/Operations.antt =====
-- The operations of client/pool.ts, from one wait to the next: `connect`, `execute`, the timer of a
-- task, what follows the promises of `connect` and of a task, `#cleanup`, `_rejectQueued`, `close` and
-- `destroy`. The functions of the tasks do not call the pool before they return.
use node_redis.Base.{
  ℕ, zero, suc, ◌-◌, Bool, true, false, not, ◌&&◌, ◌||◌, ltb, leb, ◌==◌, if◌then◌else◌, List, [],
  ◌∷◌, ◌++◌, map, length, filter, take, drop,
}
use node_redis.Base.Sets.{includes, add, discard}
use node_redis.Client.Pool.{
  PoolError, client_closed, timed_out, Effect, client_closing, client_destroyed, queue_flushed,
  resolved, rejected, timer_set, timer_cleared, Options, Environment, not_closing, called, waiting,
  finishing, Pool, is_nil, is_closing, total_clients, resolve_drain, create, execute_task,
  return_in_use,
}

-- `new Promise` of `execute`, with no idle client.
unfoldable pub enqueue : Options → Pool → ℕ → Pool × List Effect
unfolding total_clients create
enqueue o p t =
    let p' = record p { tasks = p.tasks ++ t ∷ [] } in
    let timer = if ltb 0 o.acquire_timeout then timer_set t ∷ [] else [] in
    if ltb (total_clients p') o.maximum
    then ((create p').0, timer ++ (create p').1)
    else (p', timer)

-- The first idle client that was not terminated takes the task; the others are destroyed.
unfoldable pub execute_on : Environment → Options → Pool → (task : ℕ) → List ℕ → Pool × List Effect
unfolding enqueue execute_task return_in_use
execute_on env o p t [] = enqueue o (record p { idle = [] }) t
execute_on env o p t (c ∷ cs) =
    let later = execute_on env o p t cs in
    let p' = record p { idle = cs; in_use = p.in_use ++ c ∷ [] } in
    if includes c p.terminated
    then (later.0, client_destroyed c ∷ later.1)
    else execute_task (env.call t) p' c t (return_in_use env o p' c)

unfoldable pub execute : Environment → Options → Pool → Pool × List Effect
unfolding execute_on
execute env o p =
    let t = p.submitted in
    let p' = record p { submitted = suc t } in
    if is_closing p || not p.is_open
    then (p', rejected t client_closed ∷ [])
    else execute_on env o p' t p.idle

unfoldable pub acquire_timed_out : Pool → (task : ℕ) → Pool × List Effect
acquire_timed_out p t = (record p { tasks = discard t p.tasks }, rejected t timed_out ∷ [])

-- The promise of `connect`, or that of a task, that client `c` was kept for.
unfoldable pub connected : Environment → Options → Pool → (client : ℕ) → Pool × List Effect
unfolding return_in_use
connected env o p c = return_in_use env o (record p { pending = discard c p.pending }) c

unfoldable pub task_resolved : Environment → Options → Pool → (task client : ℕ) → Pool × List Effect
unfolding return_in_use
task_resolved env o p t c =
    let r = return_in_use env o (record p { pending = discard c p.pending }) c in
    (r.0, resolved t ∷ r.1)

unfoldable pub task_rejected :
    Environment → Options → Pool → (task client : ℕ) → PoolError → Pool × List Effect
unfolding return_in_use
task_rejected env o p t c err =
    let r = return_in_use env o (record p { pending = discard c p.pending }) c in
    (r.0, rejected t err ∷ r.1)

abbrev pub reject_tasks : PoolError → List ℕ → List Effect
reject_tasks err [] = []
reject_tasks err (t ∷ ts) = timer_cleared t ∷ rejected t err ∷ reject_tasks err ts

-- The catch of `#create`.
unfoldable pub create_failed :
    Pool → (client : ℕ) → (replacement : Bool) → PoolError → Pool × List Effect
unfolding resolve_drain
create_failed p c replacement err =
    let p' = record p { in_use = discard c p.in_use; pending = discard c p.pending } in
    if includes c p.destroyed
    then (record p { pending = discard c p.pending }, [])
    else if (is_closing p' || replacement) && is_nil p'.in_use
    then (resolve_drain (record p' { tasks = [] }), reject_tasks err p'.tasks)
    else (p', [])

-- The catch of the scale-up in `execute`, which follows that of `#create`.
unfoldable pub scale_up_failed : Pool → (task : ℕ) → PoolError → Pool × List Effect
scale_up_failed p t err =
    (record p { tasks = discard t p.tasks }, timer_cleared t ∷ rejected t err ∷ [])

unfoldable pub create_each : ℕ → Pool → Pool × List Effect
unfolding create
create_each zero p = (p, [])
create_each (suc n) p = let r = create_each n (create p).0 in (r.0, (create p).1 ++ r.1)

unfoldable pub connect : Options → Pool → Pool × List Effect
unfolding create_each
connect o p = if p.is_open then (p, []) else create_each o.minimum (record p { is_open = true })

unfoldable pub terminate : Pool → (client : ℕ) → Pool
terminate p c = record p { terminated = add c p.terminated }

unfoldable pub cleanup_count : Options → Pool → ℕ
unfolding total_clients
cleanup_count o p =
    let extra = total_clients p - o.minimum in
    if leb (length p.idle) extra then length p.idle else extra

-- A negative `toDestroy` is 0 here: the loop takes no round in both.
unfoldable pub cleanup : Options → Pool → Pool × List Effect
unfolding cleanup_count
cleanup o p = (
  record p { idle = drop (cleanup_count o p) p.idle },
  map client_destroyed (take (cleanup_count o p) p.idle),
)

abbrev pub any : (ℕ → Bool) → List ℕ → Bool
any f [] = false
any f (c ∷ cs) = f c || any f cs

abbrev pub add_each : List ℕ → List ℕ → List ℕ
add_each [] js = js
add_each (i ∷ is) js = add_each is (add i js)

unfoldable pub reject_queued : Environment → Pool → PoolError → Pool × List Effect
reject_queued env p err =
    let unready = filter (λ c. not (env.is_ready c)) p.in_use in
    let flushed = map queue_flushed (unready ++ filter (λ c. not (env.is_ready c)) p.idle) in
    let p' = record p { abandoned = add_each unready p.abandoned } in
    if any env.is_ready (p.in_use ++ p.idle)
    then (p', flushed)
    else (record p' { tasks = [] }, flushed ++ reject_tasks err p.tasks)

unfoldable pub close : Pool → Pool
close p = if is_closing p || not p.is_open then p else record p { closing = called }

-- What `#doClose` does to the idle clients.
unfoldable pub close_idle : Pool → Pool × List Effect
close_idle p = (
  record p { closing = finishing },
  map (λ c. if includes c p.terminated then client_destroyed c else client_closing c) p.idle,
)

-- `#doClose`, called by a `close` that read `count`, up to its first wait, and behind that of the
-- drain. `finish_close` is its end, with whatever errors.
unfoldable pub do_close : Pool → (count : ℕ) → Pool × List Effect
unfolding close_idle
do_close p count =
    if not (p.destroy_count == count)
    then (p, [])
    else if not (is_nil p.in_use)
    then (record p { closing = waiting }, [])
    else close_idle p

unfoldable pub after_drain : Pool → (count : ℕ) → Pool × List Effect
unfolding close_idle
after_drain p count = if not (p.destroy_count == count) then (p, []) else close_idle p

unfoldable pub finish_close : Pool → (count : ℕ) → Pool
finish_close p count =
    if not (p.destroy_count == count)
    then p
    else record p { idle = []; in_use = []; is_open = false; closing = not_closing }

unfoldable pub destroy : Pool → Pool × List Effect
destroy p = (
  record p {
    destroy_count = suc p.destroy_count;
    destroyed = add_each p.in_use p.destroyed;
    idle = [];
    in_use = [];
    tasks = [];
    is_open = false;
    closing = not_closing;
  },
  reject_tasks client_closed p.tasks ++ map client_destroyed (p.idle ++ p.in_use),
)

-- The catch of `connect`, that read `count`.
unfoldable pub connect_failed : Pool → (count : ℕ) → Pool × List Effect
unfolding destroy
connect_failed p count = if p.destroy_count == count then destroy p else (p, [])
