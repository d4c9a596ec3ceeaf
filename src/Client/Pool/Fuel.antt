-- ===== src/Client/Pool/Fuel.antt =====
-- The loop of `#returnClient` and `#executeTask`.
use node_redis.Base.{
  ℕ, zero, suc, ◌<◌, ◌≡◌, refl, ap, true, false, List, [], ◌∷◌, ◌++◌, length, arith, Bool-cases,
  inl, inr,
}
use node_redis.Base.Sets.{discard}
use node_redis.Client.Pool.{
  Effect, started, Outcome, returned, threw, promised, Options, Environment, Pool, is_nil,
  resolve_drain, create, schedule_cleanup, to_idle, retire, execute_task, task_taken, serve,
  return_client, behind_first,
}

serve_no_task :
    (env : Environment) (o : Options) (p : Pool) (c : ℕ) (rest rest' : Pool × List Effect)
    → is_nil p.tasks ≡ true
    → serve env o p c rest ≡ serve env o p c rest'
unfolding serve
serve_no_task env o p c rest rest' h = ground (arith, h)

pub length-behind_first :
    (ts : List ℕ) → is_nil ts ≡ false → suc (length (behind_first ts)) ≡ length ts
length-behind_first [] h = absurd (cc)
length-behind_first (t ∷ ts) h = refl

return_client-fuel :
    (m n : ℕ) (env : Environment) (o : Options) (p : Pool) (c : ℕ)
    → length p.tasks < m
    → length p.tasks < n
    → return_client m env o p c ≡ return_client n env o p c
unfolding return_client
return_client-fuel zero n env o p c h k = absurd (omega arith)
return_client-fuel (suc m) zero env o p c h k = absurd (omega arith)
return_client-fuel (suc m) (suc n) env o p c h k = elim (Bool-cases (is_nil p.tasks)) [
  | inl e ↦ serve_no_task env o p c _ _ e
  | inr e ↦
      let shorter : suc (length (task_taken p c).tasks) ≡ length p.tasks =
        (unfold task_taken in length-behind_first p.tasks e) in
      ap (serve env o p c) (
        return_client-fuel m n env o (task_taken p c) c (omega (arith, shorter))
          (omega (arith, shorter)))
]

-- The tasks whose functions are called, in order.
abbrev pub started_tasks : List Effect → List ℕ
started_tasks [] = []
started_tasks (started t c ∷ es) = t ∷ started_tasks es
started_tasks (e ∷ es) = started_tasks es

-- What is started and what still waits are together the tasks `ts`, in order.
abbrev Serves : Pool × List Effect → List ℕ → Type 0
Serves r ts = started_tasks r.1 ++ r.0.tasks ≡ ts

to_idle-Serves : (o : Options) (p : Pool) (c : ℕ) → Serves (to_idle o p c) p.tasks
unfolding to_idle resolve_drain schedule_cleanup
to_idle-Serves o p c = ground arith

retire-Serves : (p : Pool) (c : ℕ) → Serves (retire p c) p.tasks
unfolding retire create resolve_drain
retire-Serves p c = ground arith

execute_task-Serves :
    (u : Outcome) (p : Pool) (c t : ℕ) (rest : Pool × List Effect)
    → Serves rest p.tasks
    → Serves (execute_task u p c t rest) (t ∷ p.tasks)
unfolding execute_task
execute_task-Serves promised p c t rest h = refl
execute_task-Serves threw p c t rest h = ap (λ ts. t ∷ ts) h
execute_task-Serves returned p c t rest h = ap (λ ts. t ∷ ts) h

serve-Serves :
    (env : Environment) (o : Options) (p : Pool) (c : ℕ) (rest : Pool × List Effect)
    → Serves rest (task_taken p c).tasks
    → Serves (serve env o p c rest) p.tasks
unfolding serve task_taken
serve-Serves env o p c rest h =
    let unmarked = record p { abandoned = discard c p.abandoned } in
    ground (
      arith,
      h,
      retire-Serves p c,
      to_idle-Serves o unmarked c,
      λ (t : ℕ). execute_task-Serves (env.call t) (task_taken p c) c t rest h,
    )

return_client-Serves :
    (m : ℕ) (env : Environment) (o : Options) (p : Pool) (c : ℕ)
    → Serves (return_client m env o p c) p.tasks
unfolding return_client
return_client-Serves zero env o p c = refl
return_client-Serves (suc m) env o p c =
    serve-Serves env o p c _ (return_client-Serves m env o (task_taken p c) c)

-- A client that is returned serves the waiting tasks first come, first served: the tasks whose
-- functions it calls, in the order of the calls, and behind them those that wait afterwards, are
-- the tasks that waited, so that none is started twice, left out or passed over. It comes to an
-- end: more rounds than there are tasks change nothing.
pub started_tasks-return_client :
    (m n : ℕ) (env : Environment) (o : Options) (p : Pool) (c : ℕ)
    → length p.tasks < m
    → length p.tasks < n
    → (started_tasks (return_client m env o p c).1 ++ (return_client m env o p c).0.tasks ≡ p.tasks)
      × (return_client m env o p c ≡ return_client n env o p c)
started_tasks-return_client m n env o p c h k =
    (return_client-Serves m env o p c, return_client-fuel m n env o p c h k)
