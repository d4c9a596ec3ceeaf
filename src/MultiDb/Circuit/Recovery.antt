-- ===== src/MultiDb/Circuit/Recovery.antt =====
-- How a tripped circuit of circuit.ts comes back: the grace period and the recovery probes.
use node_redis.Base.{
  ℕ, ◌+◌, ◌≤◌, ◌<◌, ◌≡◌, refl, false, not, List, [], ◌∷◌, arith, leb, leb→le, if◌then◌else◌, length,
  All, Bool-cases, inl, inr,
}
use node_redis.MultiDb.Circuit.{
  Circuit, opened, half_open, Stored, state, is_opened, is_half_open, trip, probe_succeeded,
  probe_failed,
}

-- Calls of `open`, with the two readings of the clock of each.
pub trips : Circuit → List (ℕ × ℕ) → Circuit
trips c [] = c
trips c ((t, t') ∷ ts) = trips (trip c t t').0 ts

-- Calls of `probeSucceeded`, likewise.
pub successes : Circuit → List (ℕ × ℕ) → Circuit
successes c [] = c
successes c ((t, t') ∷ ts) = successes (probe_succeeded c t t').0 ts

abbrev pub deadline : Circuit → ℕ
deadline c = c.opened_at + c.grace_period

-- `open` reports true exactly when the circuit was not OPEN, and then the state read at any time
-- is OPEN up to a full grace period after the reading that it stored, and HALF_OPEN from there;
-- on an OPEN circuit it reports false and changes nothing.
trip_restarts :
    (c : Circuit) (now now' : ℕ)
    → ((trip c now now').1 ≡ not (is_opened (state c now)))
      × ((t : ℕ)
          → state (trip c now now').0 t ≡ (
              if is_opened (state c now)
              then state c t
              else (if leb (now' + c.grace_period) t then half_open else opened)))
unfolding trip state
trip_restarts c now now' = (ground arith, λ t. ground arith)

trip_opened :
    (c : Circuit) (now now' : ℕ)
    → c.stored ≡ Stored.opened
    → now < deadline c
    → (trip c now now').0 ≡ c
unfolding trip state
trip_opened c now now' h lt = ground arith

trips_opened :
    (c : Circuit) (ts : List (ℕ × ℕ))
    → c.stored ≡ Stored.opened
    → All (λ r. r.0 < deadline c) ts
    → trips c ts ≡ c
unfolding trips
trips_opened c [] h a = refl
trips_opened c ((t, t') ∷ ts) h a = rw (trip_opened c t t' h a.0) (trips_opened c ts h a.1)

state_elapsed :
    (c : Circuit) (t : ℕ) → c.stored ≡ Stored.opened → deadline c ≤ t → state c t ≡ half_open
unfolding state
state_elapsed c t h le = ground arith

-- However often `open` is called during the grace period, the circuit is left as it was: the
-- grace period is not extended, so it is HALF_OPEN at every time from the first deadline on.
trips_keep_deadline :
    (c : Circuit) (ts : List (ℕ × ℕ)) (t : ℕ)
    → c.stored ≡ Stored.opened
    → All (λ r. r.0 < deadline c) ts
    → deadline c ≤ t
    → (trips c ts ≡ c) × (state (trips c ts) t ≡ half_open)
trips_keep_deadline c ts t h a le =
    (trips_opened c ts h a, rw (trips_opened c ts h a) (state_elapsed c t h le))

-- One success below the threshold is counted, and the one that reaches it closes.
success_counts :
    (c : Circuit) (t t' : ℕ)
    → c.stored ≡ Stored.opened
    → deadline c ≤ t
    → c.consecutive_successful_probes + 1 < c.num_probes
    → probe_succeeded c t t'
      ≡ (record c { consecutive_successful_probes = c.consecutive_successful_probes + 1 }, false)
unfolding probe_succeeded state
success_counts c t t' h le lt = ground arith

success_closes :
    (c : Circuit) (t t' : ℕ)
    → c.stored ≡ Stored.opened
    → deadline c ≤ t
    → c.num_probes ≤ c.consecutive_successful_probes + 1
    → (probe_succeeded c t t').0
      ≡ record c { stored = Stored.closed; consecutive_successful_probes = 0 }
unfolding probe_succeeded state
success_closes c t t' h le lt = ground arith

closed_ignores : (c : Circuit) (ts : List (ℕ × ℕ)) → c.stored ≡ Stored.closed → successes c ts ≡ c
unfolding successes
closed_ignores c [] h = refl
closed_ignores c ((t, t') ∷ ts) h = rw (one c t t' h) (closed_ignores c ts h)
  where
    one : (d : Circuit) (t t' : ℕ) → d.stored ≡ Stored.closed → (probe_succeeded d t t').0 ≡ d
    one d t t' h = unfold probe_succeeded state in ground arith

-- On a circuit whose grace period is over, successful probes are counted one by one while they
-- stay below `numProbes`, and the circuit is still HALF_OPEN; the first that reaches the number
-- closes it and clears the count, and further successes change nothing.
pub successes_recover :
    (c : Circuit) (ts : List (ℕ × ℕ))
    → c.stored ≡ Stored.opened
    → c.consecutive_successful_probes < c.num_probes
    → All (λ r. deadline c ≤ r.0) ts
    → successes c ts ≡ (
        let n = c.consecutive_successful_probes + length ts in
        if leb c.num_probes n
        then record c { stored = Stored.closed; consecutive_successful_probes = 0 }
        else record c { consecutive_successful_probes = n })
unfolding successes
successes_recover c [] h lt a = ground arith
successes_recover c ((t, t') ∷ ts) h lt a = elim (Bool-cases (leb c.num_probes (s + 1))) [
  | inl last ↦
      let shut = record c { stored = Stored.closed; consecutive_successful_probes = 0 } in
      ground (arith, success_closes c t t' h a.0 (leb→le _ _ last), closed_ignores shut ts refl)
  | inr more ↦ ground (
    arith,
    success_counts c t t' h a.0 (ground arith),
    successes_recover (record c { consecutive_successful_probes = s + 1 }) ts h (ground arith) a.1,
  )
]
  where
    open c use {consecutive_successful_probes as s}

-- A failed probe counts only while HALF_OPEN: then, under a clock that does not run backwards, it
-- reports true and a new grace period starts at the time stored; otherwise it reports false and
-- the circuit is left as it was.
probe_failed_restarts :
    (c : Circuit) (now now' now'' t : ℕ)
    → now ≤ now'
    → let r = probe_failed c now now' now'' in
      (r.1 ≡ is_half_open (state c now))
      × (state r.0 t ≡ (
          if is_half_open (state c now)
          then (if leb (now'' + c.grace_period) t then half_open else opened)
          else state c t))
unfolding probe_failed state
probe_failed_restarts c now now' now'' t le = (ground arith, ground arith)
