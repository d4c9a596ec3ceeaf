-- ===== src/Client/Pool.antt =====
-- packages/client/lib/client/pool.ts: the pool of clients, and the tasks that wait for one.
-- A client is a number, and its node in the list of clients in use is the client itself, which is in
-- that list at most once. A task is a number, which stands for its promise. What an operation does to
-- clients, timers and promises is a list of effects that it returns. `pending` are the clients with a
-- promise that the pool waits for: that of `connect`, or that of a task.
pub mod Operations
pub mod Steps
pub mod Drain
pub mod Idle
pub mod Tasks
pub mod Fuel
pub mod Clients
pub mod Sound
pub mod Returned
pub mod Capacity
pub mod Invariant
pub mod Ownership
mod Tests
pub mod Settled
pub mod Promises
use node_redis.Base.{
  ℕ, zero, suc, ◌+◌, ◌-◌, Bool, true, false, not, ◌&&◌, ◌||◌, ltb, leb, ◌==◌, if◌then◌else◌, Option,
  none, some, List, [], ◌∷◌, ◌++◌, map, length,
}
use node_redis.Base.Sets.{includes, add, discard}

pub data PoolError : Type 0 where
  client_closed timed_out thrown : PoolError
  connect_error : ℕ → PoolError
  given : ℕ → PoolError

pub data Effect : Type 0 where
  connecting client_closing client_destroyed queue_flushed : (client : ℕ) → Effect
  started : (task client : ℕ) → Effect
  resolved : (task : ℕ) → Effect
  rejected : (task : ℕ) → PoolError → Effect
  timer_set timer_cleared : (task : ℕ) → Effect
  cleanup_scheduled : Effect

-- What the function of a task does when it is called.
pub data Outcome : Type 0 where
  returned threw promised : Outcome

pub record Options : Type 0 where
  pub minimum : ℕ
  pub maximum : ℕ
  pub acquire_timeout : ℕ

-- How far a `close` is: `#closePromise` is there but in `not_closing`; `#drainResolve` resolves a
-- promise in `waiting`.
pub data Closing : Type 0 where
  not_closing called waiting drained finishing : Closing

pub record Pool : Type 0 where
  pub idle : List ℕ
  pub in_use : List ℕ
  pub tasks : List ℕ
  pub abandoned : List ℕ
  pub terminated : List ℕ
  pub destroyed : List ℕ
  pub pending : List ℕ
  pub is_open : Bool
  pub closing : Closing
  pub destroy_count : ℕ
  pub clients : ℕ
  pub submitted : ℕ

-- What the pool asks of others: `client.isReady`, and the functions of the tasks.
pub record Environment : Type 0 where
  pub is_ready : (client : ℕ) → Bool
  pub call : (task : ℕ) → Outcome

unfoldable pub new_pool : Pool
new_pool = record {
  idle = [];
  in_use = [];
  tasks = [];
  abandoned = [];
  terminated = [];
  destroyed = [];
  pending = [];
  is_open = false;
  closing = not_closing;
  destroy_count = 0;
  clients = 0;
  submitted = 0;
}

abbrev pub is_nil : {A : Type 0} → List A → Bool
is_nil [] = true
is_nil (x ∷ xs) = false

abbrev pub is_closing : Pool → Bool
is_closing p = elim p.closing [ not_closing ↦ false | _ ↦ true ]

unfoldable pub total_clients : Pool → ℕ
total_clients p = length p.idle + length p.in_use

-- `this.#drainResolve?.()`
unfoldable pub resolve_drain : Pool → Pool
resolve_drain p = record p { closing = elim p.closing [ waiting ↦ drained | c ↦ c ] }

-- `#create`, up to its wait for `connect`.
unfoldable pub create : Pool → Pool × List Effect
create p = (
  record p {
    in_use = p.in_use ++ p.clients ∷ [];
    pending = p.clients ∷ p.pending;
    clients = suc p.clients;
  },
  connecting p.clients ∷ [],
)

unfoldable pub schedule_cleanup : Options → Pool → List Effect
unfolding total_clients
schedule_cleanup o p = if leb (total_clients p) o.minimum then [] else cleanup_scheduled ∷ []

-- The end of `#returnClient`.
unfoldable pub to_idle : Options → Pool → ℕ → Pool × List Effect
unfolding resolve_drain schedule_cleanup
to_idle o p c =
    let p' = record p { in_use = discard c p.in_use; idle = p.idle ++ c ∷ [] } in
    if is_closing p' && is_nil p'.in_use
    then (resolve_drain p', [])
    else (p', schedule_cleanup o p')

-- A client that was terminated is replaced where a task waits.
unfoldable pub retire : Pool → ℕ → Pool × List Effect
unfolding create resolve_drain
retire p c =
    let p' = record p { in_use = discard c p.in_use } in
    if not (is_nil p'.tasks) then ((create p').0, client_destroyed c ∷ (create p').1) else (
      if is_closing p' && is_nil p'.in_use then resolve_drain p' else p',
      client_destroyed c ∷ [],
    )

-- `#executeTask`, where `rest` is what `#returnClient` does when the function is over at once.
unfoldable pub execute_task :
    Outcome → Pool → (client task : ℕ) → (rest : Pool × List Effect) → Pool × List Effect
execute_task promised p c t rest = (record p { pending = c ∷ p.pending }, started t c ∷ [])
execute_task threw p c t rest = (rest.0, started t c ∷ rejected t thrown ∷ rest.1)
execute_task returned p c t rest = (rest.0, started t c ∷ resolved t ∷ rest.1)

unfoldable pub skips : Environment → Pool → ℕ → Bool
skips env p c = includes c p.abandoned && not (env.is_ready c)

abbrev pub behind_first : List ℕ → List ℕ
behind_first [] = []
behind_first (t ∷ ts) = ts

-- The pool when the first task was taken for `c`.
unfoldable pub task_taken : Pool → ℕ → Pool
task_taken p c = record p { abandoned = discard c p.abandoned; tasks = behind_first p.tasks }

unfoldable pub serve :
    Environment → Options → Pool → (client : ℕ) → (rest : Pool × List Effect) → Pool × List Effect
unfolding to_idle retire execute_task skips task_taken
serve env o p c rest =
    let unmarked = record p { abandoned = discard c p.abandoned } in
    if includes c p.destroyed
    then (p, [])
    else if includes c p.terminated
    then retire p c
    else if skips env p c
    then to_idle o unmarked c
    else elim p.tasks [
      | [] ↦ to_idle o unmarked c
      | t ∷ ts ↦
          let r = execute_task (env.call t) (task_taken p c) c t rest in
          (r.0, timer_cleared t ∷ r.1)
    ]

-- `#returnClient`, for at most `fuel` tasks whose function is over at once.
unfoldable pub return_client : ℕ → Environment → Options → Pool → ℕ → Pool × List Effect
unfolding serve task_taken
return_client zero env o p c = (p, [])
return_client (suc fuel) env o p c = serve env o p c (return_client fuel env o (task_taken p c) c)

-- As many as there are tasks, and one more.
unfoldable pub return_in_use : Environment → Options → Pool → ℕ → Pool × List Effect
unfolding return_client
return_in_use env o p c = return_client (suc (length p.tasks)) env o p c
