-- ===== src/MultiDb/Circuit.antt =====
-- packages/client/lib/multi-db/circuit.ts: the circuit breaker of one member.
-- Times are whole milliseconds. Each reading of the clock is an argument of its own, in the order
-- in which the code reads, so nothing is assumed of two readings within one call.

pub mod Recovery
pub mod Tests
use node_redis.Base.{ℕ, ◌+◌, Bool, true, false, not, leb, if◌then◌else◌}

pub data CircuitState : Type 0 where
  closed opened half_open : CircuitState

-- The stored `#state`, which is never HALF_OPEN.
pub data Stored : Type 0 where
  closed opened : Stored

pub record Circuit : Type 0 where
  pub grace_period : ℕ
  pub num_probes : ℕ
  pub stored : Stored
  pub opened_at : ℕ
  pub consecutive_successful_probes : ℕ

unfoldable pub new_circuit : ℕ → ℕ → Circuit
new_circuit grace_period num_probes = record {
  grace_period = grace_period;
  num_probes = num_probes;
  stored = Stored.closed;
  opened_at = 0;
  consecutive_successful_probes = 0;
}

-- `clock - openedAt >= gracePeriod`, with the subtraction moved over.
stored_state : Stored → Bool → CircuitState
stored_state Stored.closed elapsed = closed
stored_state Stored.opened elapsed = if elapsed then half_open else opened

unfoldable pub state : Circuit → ℕ → CircuitState
unfolding stored_state
state c now = stored_state c.stored (leb (c.opened_at + c.grace_period) now)

abbrev pub is_opened : CircuitState → Bool
is_opened opened = true
is_opened _ = false

abbrev pub is_half_open : CircuitState → Bool
is_half_open half_open = true
is_half_open _ = false

abbrev pub is_closed : CircuitState → Bool
is_closed closed = true
is_closed _ = false

-- `now` is read by the `state` getter, `now'` for `#openedAt`.
unfoldable pub trip : Circuit → (now now' : ℕ) → Circuit × Bool
unfolding state
trip c now now' = if is_opened (state c now) then (c, false) else (
  record c { stored = Stored.opened; opened_at = now'; consecutive_successful_probes = 0 },
  true,
)

unfoldable pub close : Circuit → (now : ℕ) → Circuit × Bool
unfolding state
close c now = (
  record c { stored = Stored.closed; consecutive_successful_probes = 0 },
  not (is_closed (state c now)),
)

-- `now` is read here and `now'` by `close`.
unfoldable pub probe_succeeded : Circuit → (now now' : ℕ) → Circuit × Bool
unfolding close
probe_succeeded c now now' =
    let n = c.consecutive_successful_probes + 1 in
    let counted = record c { consecutive_successful_probes = n } in
    if is_half_open (state c now)
    then (if leb c.num_probes n then close counted now' else (counted, false))
    else (c, false)

-- `now` is read here, `now'` and `now''` by `open`.
unfoldable pub probe_failed : Circuit → (now now' now'' : ℕ) → Circuit × Bool
unfolding trip
probe_failed c now now' now'' = if is_half_open (state c now) then trip c now' now'' else (c, false)
