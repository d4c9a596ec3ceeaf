-- ===== src/Client/Pool/Returned.antt =====
-- A client that comes back finds its place.
use node_redis.Base.{
  ℕ, zero, suc, ◌<◌, ◌≡◌, refl, false, List, [], ◌∷◌, length, arith, Bool-cases, inl, inr,
}
use node_redis.Base.Sets.{includes, discard}
use node_redis.Client.Pool.{
  Effect, timer_cleared, Options, Environment, Outcome, returned, threw, promised, Pool, is_nil,
  total_clients, to_idle, execute_task, skips, task_taken, serve, return_client, return_in_use,
  behind_first,
}
use node_redis.Client.Pool.Fuel.{length-behind_first}
use node_redis.Client.Pool.Clients.{IsSound, Handed}
use node_redis.Client.Pool.Sound.{to_idle-IsSound, retire-IsSound, gone-IsSound}

-- What `IsSound` does not read: the tasks and the marks of the clients.
pub changed-IsSound :
    (o : Options) (p : Pool) (ts us vs : List ℕ) (n : ℕ)
    → IsSound o p
    → IsSound o (record p { tasks = ts; abandoned = us; terminated = vs; submitted = n })
unfolding total_clients
changed-IsSound o p ts us vs n h = record {
  fits = λ c.
      let f = h.fits c in record { used = f.used; once = f.once; free = f.free; fresh = f.fresh };
  tidy = h.tidy;
  over = h.over;
  bound = h.bound;
}

pub execute_task-IsSound :
    (o : Options) (outcome : Outcome) (p : Pool) (c t : ℕ) (rest : Pool × List Effect)
    → IsSound o (record p { pending = c ∷ p.pending })
    → IsSound o rest.0
    → IsSound o (execute_task outcome p c t rest).0
unfolding execute_task
execute_task-IsSound o promised p c t rest h k = h
execute_task-IsSound o threw p c t rest h k = k
execute_task-IsSound o returned p c t rest h k = k

taken-Handed : (o : Options) (p : Pool) (c : ℕ) → Handed o p c → Handed o (task_taken p c) c
unfolding task_taken
taken-Handed o p c h = (
  changed-IsSound o (record p { pending = c ∷ p.pending }) (behind_first p.tasks)
      (discard c p.abandoned) p.terminated p.submitted h.0,
  h.1,
)

pub serve-IsSound :
    (env : Environment) (o : Options) (p : Pool) (c : ℕ) (rest : Pool × List Effect)
    → Handed o p c
    → (is_nil p.tasks ≡ false → IsSound o rest.0)
    → IsSound o (serve env o p c rest).0
unfolding serve
serve-IsSound env o p c rest h k =
    let unmarked = record p { abandoned = discard c p.abandoned } in
    let h' : Handed o unmarked c = (
      changed-IsSound o (record p { pending = c ∷ p.pending }) p.tasks (discard c p.abandoned)
          p.terminated p.submitted h.0,
      h.1,
    ) in
    elim (Bool-cases (includes c p.destroyed)) [
      | inl e ↦ rw (serve, e) (gone-IsSound o p c h e)
      | inr e ↦ elim (Bool-cases (includes c p.terminated)) [
        | inl e' ↦ rw (serve, e, e') (retire-IsSound o p c h e)
        | inr e' ↦ elim (Bool-cases (skips env p c)) [
          | inl e'' ↦ rw (serve, e, e', e'') (to_idle-IsSound o unmarked c h' e)
          | inr e'' ↦
              rw (serve, e, e', e'')
                ((elim p.tasks
                    as (λ ts.
                      (is_nil ts ≡ false → IsSound o rest.0)
                      → IsSound o
                          (elim ts as (λ us. Pool × List Effect) [
                            | [] ↦ to_idle o unmarked c
                            | t ∷ us ↦
                                let r = execute_task (env.call t) (task_taken p c) c t rest in
                                (r.0, timer_cleared t ∷ r.1)
                          ]).0) [
                            | [] ↦ λ k. to_idle-IsSound o unmarked c h' e
                            | t ∷ us ↦ λ k.
                                execute_task-IsSound o (env.call t) (task_taken p c) c t rest
                                  (taken-Handed o p c h).0 (k refl)
                          ])
                  k)
        ]
      ]
    ]

return_client-IsSound :
    (fuel : ℕ) (env : Environment) (o : Options) (p : Pool) (c : ℕ)
    → Handed o p c
    → length p.tasks < fuel
    → IsSound o (return_client fuel env o p c).0
unfolding return_client
return_client-IsSound zero env o p c h enough = absurd (omega arith)
return_client-IsSound (suc fuel) env o p c h enough =
    serve-IsSound env o p c (return_client fuel env o (task_taken p c) c) h λ more.
      return_client-IsSound fuel env o (task_taken p c) c (taken-Handed o p c h)
        (unfold task_taken in omega (arith, length-behind_first p.tasks more))

pub return_in_use-IsSound :
    (env : Environment) (o : Options) (p : Pool) (c : ℕ)
    → Handed o p c
    → IsSound o (return_in_use env o p c).0
unfolding return_in_use
return_in_use-IsSound env o p c h =
    return_client-IsSound (suc (length p.tasks)) env o p c h (omega arith)
