-- ===== src/Client/Pool/Capacity.antt =====
-- A task and the clients: `execute`, and the promise that a client was kept for.
use node_redis.Base.{
  ℕ, suc, ◌≤◌, ◌≡◌, refl, ap, true, false, not, ◌||◌, ltb, if◌then◌else◌, List, [], ◌∷◌, ◌++◌,
  length, arith, Bool-cases, inl, inr, length-append, ==_refl, ==_iff,
}
use node_redis.Base.Sets.{includes, discard, includes-discard}
use node_redis.Client.Pool.{
  client_destroyed, Options, Environment, Pool, is_closing, total_clients, execute_task,
  return_in_use,
}
use node_redis.Client.Pool.Operations.{enqueue, execute_on, execute}
use node_redis.Client.Pool.Tasks.{times, times-append}
use node_redis.Client.Pool.Clients.{Fits, is_done, IsSound, Handed}
use node_redis.Client.Pool.Sound.{create-IsSound, open-IsSound}
use node_redis.Client.Pool.Returned.{changed-IsSound, execute_task-IsSound, return_in_use-IsSound}

-- An idle client that is taken for a task, and one that is dropped.
taken-Fits :
    (p : Pool) (c : ℕ) (cs : List ℕ) (d : ℕ)
    → p.idle ≡ c ∷ cs
    → Fits p d
    → Fits (record p { idle = cs; in_use = p.in_use ++ c ∷ []; pending = c ∷ p.pending }) d
unfolding includes times
taken-Fits p c cs d e h =
    let split : times d p.idle ≡ times d (c ∷ cs) = ap (times d) e in
    record {
      used = ground (arith, split, h.used, h.once, h.free, times-append d p.in_use (c ∷ []));
      once = ground (arith, split, h.once, times-append d p.in_use (c ∷ []));
      free = λ m. ground (arith, split, m, h.once, h.free);
      fresh = λ le. ground (arith, split, le, h.fresh);
    }

pub dropped-Fits :
    (p : Pool) (cs : List ℕ) (d : ℕ)
    → times d cs ≤ times d p.idle
    → Fits p d
    → Fits (record p { idle = cs }) d
dropped-Fits p cs d le h = record {
  used = h.used;
  once = omega (arith, le, h.once);
  free = λ m. omega (arith, le, h.free m);
  fresh = λ few. let f = h.fresh few in (f.0, f.1, omega (arith, le, f.2));
}

enqueue-IsSound :
    (o : Options) (p : Pool) (t : ℕ)
    → IsSound o p
    → p.is_open ≡ true
    → is_done p ≡ false
    → IsSound o (enqueue o p t).0
unfolding enqueue total_clients
enqueue-IsSound o p t h is_open busy =
    let p' = record p { tasks = p.tasks ++ t ∷ [] } in
    let h' : IsSound o p' =
      changed-IsSound o p (p.tasks ++ t ∷ []) p.abandoned p.terminated p.submitted h in
    elim (Bool-cases (ltb (total_clients p') o.maximum)) [
      | inl e ↦ rw (enqueue, e) (create-IsSound o p' h' is_open busy (ground (arith, e)))
      | inr e ↦ rw (enqueue, e) h'
    ]

execute_on-IsSound :
    (env : Environment) (o : Options) (p : Pool) (t : ℕ) (cs : List ℕ)
    → IsSound o (record p { idle = cs })
    → p.is_open ≡ true
    → is_done p ≡ false
    → IsSound o (execute_on env o p t cs).0
unfolding execute_on total_clients times
execute_on-IsSound env o p t [] h is_open busy =
    enqueue-IsSound o (record p { idle = [] }) t h is_open busy
execute_on-IsSound env o p t (c ∷ cs) h is_open busy =
    let p0 = record p { idle = c ∷ cs } in
    let p' = record p { idle = cs; in_use = p.in_use ++ c ∷ [] } in
    let len : length (p.in_use ++ c ∷ []) ≡ suc (length p.in_use) =
      omega (arith, length-append p.in_use (c ∷ [])) in
    let later = execute_on env o p t cs in
    let settled : includes c p.pending ≡ false = ground (arith, (h.fits c).free, ==_refl c) in
    let handed : Handed o p' c = (
      open-IsSound o (record p' { pending = c ∷ p.pending })
          (λ d. taken-Fits p0 c cs d refl (h.fits d)) is_open busy (omega (arith, h.bound, len)),
      settled,
    ) in
    elim (includes c p.terminated)
      as (λ b.
        IsSound o
          (if b
            then (later.0, client_destroyed c ∷ later.1)
            else execute_task (env.call t) p' c t (return_in_use env o p' c)).0) [
              | true ↦
                  execute_on-IsSound env o p t cs
                    (open-IsSound o (record p { idle = cs })
                      (λ d. dropped-Fits p0 cs d (ground arith) (h.fits d)) is_open busy
                      (omega (arith, h.bound)))
                    is_open busy
              | false ↦
                  execute_task-IsSound o (env.call t) p' c t (return_in_use env o p' c) handed.0
                    (return_in_use-IsSound env o p' c handed)
            ]

pub execute-IsSound :
    (env : Environment) (o : Options) (p : Pool) → IsSound o p → IsSound o (execute env o p).0
unfolding execute
execute-IsSound env o p h =
    let p' = record p { submitted = suc p.submitted } in
    let h' : IsSound o p' =
      changed-IsSound o p p.tasks p.abandoned p.terminated (suc p.submitted) h in
    elim (Bool-cases (is_closing p || not p.is_open)) [
      | inl e ↦ rw (execute, e) h'
      | inr e ↦
          rw (execute, e)
            (execute_on-IsSound env o p' p.submitted p.idle h' (ground (arith, e))
              (ground (arith, e)))
    ]

-- A promise that the pool waited for is settled.
pub handed_lem :
    (o : Options) (p : Pool) (c : ℕ)
    → includes c p.pending ≡ true
    → IsSound o p
    → Handed o (record p { pending = discard c p.pending }) c
unfolding includes total_clients
handed_lem o p c e h =
    let same = λ (d : ℕ). includes-discard d c p.pending in
    (
      record {
        fits = λ d.
            let f = h.fits d in
            record {
              used = ground (arith, f.used, same d, e, ==_iff c d);
              once = f.once;
              free = λ m. ground (arith, m, f.free, same d, e, ==_iff c d);
              fresh = λ le. ground (arith, le, f.fresh, same d, e, ==_iff c d);
            };
        tidy = h.tidy;
        over = h.over;
        bound = h.bound;
      },
      ground (arith, same c, ==_refl c),
    )
