-- ===== src/Client/Pool/Tasks.antt =====
-- What becomes of a task: how often it is started, and how often its promise is rejected.
use node_redis.Base.{
  ℕ, suc, ◌+◌, ◌≤◌, ◌≡◌, refl, leb, ◌==◌, if◌then◌else◌, List, [], ◌∷◌, ◌++◌, map, arith,
}
use node_redis.Base.Sets.{discard}
use node_redis.Client.Pool.{PoolError, Effect, started, rejected, Pool}
use node_redis.Client.Pool.Operations.{reject_tasks}

-- How often `t` is in a list, and how many effects start it, and reject it.
unfoldable pub times : ℕ → List ℕ → ℕ
times t [] = 0
times t (u ∷ us) = let rest = times t us in if u == t then suc rest else rest

unfoldable pub starts : ℕ → List Effect → ℕ
starts t [] = 0
starts t (started u c ∷ es) = let rest = starts t es in if u == t then suc rest else rest
starts t (e ∷ es) = starts t es

unfoldable pub rejections : ℕ → List Effect → ℕ
rejections t [] = 0
rejections t (rejected u err ∷ es) = let rest = rejections t es in if u == t then suc rest else rest
rejections t (e ∷ es) = rejections t es

-- A task that is not submitted yet counts as one that waits.
unfoldable pub unstarted : ℕ → Pool → ℕ
unstarted t p = times t p.tasks + (if leb p.submitted t then 1 else 0)

pub times-append : (t : ℕ) (us vs : List ℕ) → times t (us ++ vs) ≡ times t us + times t vs
unfolding times
times-append t [] vs = omega arith
times-append t (u ∷ us) vs = ground (arith, times-append t us vs)

pub times-discard :
    (t u : ℕ) (us : List ℕ) → times t (discard u us) ≡ (if u == t then 0 else times t us)
unfolding times discard
times-discard t u [] = ground arith
times-discard t u (v ∷ us) = ground (arith, times-discard t u us)

pub starts-append : (t : ℕ) (ds es : List Effect) → starts t (ds ++ es) ≡ starts t ds + starts t es
unfolding starts
starts-append t [] es = omega arith
starts-append t (started u c ∷ ds) es = ground (arith, starts-append t ds es)
starts-append t (e ∷ ds) es = starts-append t ds es

pub rejections-append :
    (t : ℕ) (ds es : List Effect) → rejections t (ds ++ es) ≡ rejections t ds + rejections t es
unfolding rejections
rejections-append t [] es = omega arith
rejections-append t (rejected u err ∷ ds) es = ground (arith, rejections-append t ds es)
rejections-append t (e ∷ ds) es = rejections-append t ds es

pub reject_tasks_lem :
    (t : ℕ) (err : PoolError) (ts : List ℕ)
    → (starts t (reject_tasks err ts) ≡ 0) × (rejections t (reject_tasks err ts) ≡ times t ts)
unfolding starts rejections times
reject_tasks_lem t err [] = (refl, refl)
reject_tasks_lem t err (u ∷ ts) =
    let rest = reject_tasks_lem t err ts in (rest.0, ground (arith, rest.1))

-- Effects that are not about tasks.
pub about_clients :
    (t : ℕ) (f : ℕ → Effect) (cs : List ℕ)
    → ((c : ℕ) → (starts t (f c ∷ []) ≡ 0) × (rejections t (f c ∷ []) ≡ 0))
    → (starts t (map f cs) ≡ 0) × (rejections t (map f cs) ≡ 0)
unfolding starts rejections
about_clients t f [] h = (refl, refl)
about_clients t f (c ∷ cs) h =
    let rest = about_clients t f cs h in
    (
      ground (arith, starts-append t (f c ∷ []) (map f cs), (h c).0, rest.0),
      ground (arith, rejections-append t (f c ∷ []) (map f cs), (h c).1, rest.1),
    )

-- No task is started that did not wait, and none stops waiting that was not started or rejected.
pub record Balanced (t : ℕ) (p : Pool) (r : Pool × List Effect) : Type 0 where
  pub started_once : unstarted t r.0 + starts t r.1 ≤ unstarted t p
  pub not_lost :
      unstarted t p ≤ 1 → unstarted t p ≤ unstarted t r.0 + starts t r.1 + rejections t r.1

-- The tasks are the same, and no effect starts one.
pub unmoved :
    (t : ℕ) (p p' : Pool) (es : List Effect)
    → unstarted t p' ≡ unstarted t p
    → starts t es ≡ 0
    → Balanced t p (p', es)
unmoved t p p' es h k = record {
  started_once = omega (arith, h, k);
  not_lost = λ few. omega (arith, h, k);
}

-- One after the other.
pub behind :
    (t : ℕ) (p : Pool) (r r' : Pool × List Effect)
    → Balanced t p r
    → Balanced t r.0 r'
    → Balanced t p (r'.0, r.1 ++ r'.1)
behind t p r r' h k = record {
  started_once = omega (arith, h.started_once, k.started_once, starts-append t r.1 r'.1);
  not_lost = λ few.
      let few' : unstarted t r.0 ≤ 1 = omega (arith, h.started_once, few) in
      omega (
        arith,
        h.not_lost few,
        k.not_lost few',
        starts-append t r.1 r'.1,
        rejections-append t r.1 r'.1,
      );
}
