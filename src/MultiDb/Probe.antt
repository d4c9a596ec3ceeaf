-- ===== src/MultiDb/Probe.antt =====
-- packages/client/lib/multi-db/health-check.ts: the probes of a member and their round.
-- What a check answers, whether the chain of checks overruns its timeout, and whether the delay in
-- front of a probe is aborted, come from outside, and are the data of a probe.
pub mod Policy
mod Tests
use node_redis.Base.{
  ℕ, zero, suc, ◌+◌, ◌-◌, ◌*◌, ◌/◌, Bool, true, false, ◌&&◌, ltb, leb, if◌then◌else◌, Option, none,
  some, List, [], ◌∷◌,
}

pub data ProbePolicy : Type 0 where
  all any majority : ProbePolicy

-- What awaiting a check leads to.
pub data Answer : Type 0 where
  healthy unhealthy rejected : Answer

pub record Probe : Type 0 where
  pub delay_aborted : Bool
  pub checks : List Answer
  pub overrun : Bool

-- `none` is a rejection.
unfoldable pub run_check_chain : List Answer → Option Bool
run_check_chain [] = some true
run_check_chain (healthy ∷ checks) = run_check_chain checks
run_check_chain (unhealthy ∷ checks) = some false
run_check_chain (rejected ∷ checks) = none

unfoldable pub run_single_probe : Probe → Bool
unfolding run_check_chain
run_single_probe p =
    if p.overrun then false else elim (run_check_chain p.checks) [ none ↦ false | some ok ↦ ok ]

unfoldable pub probe_round_budget : (num_probes timeout delay : ℕ) → ℕ
probe_round_budget num_probes timeout delay = num_probes * timeout + (num_probes - 1) * delay

-- The outcome that a policy has decided on after a probe, if it has.
unfoldable pub decided : ProbePolicy → (num_probes passed failed : ℕ) → Option Bool
decided all n passed failed = if ltb 0 failed then some false else none
decided any n passed failed = if ltb 0 passed then some true else none
decided majority n passed failed =
    if leb (n / 2 + 1) passed
    then some true
    else (if ltb (n - (n / 2 + 1)) failed then some false else none)

unfoldable pub is_all : ProbePolicy → Bool
is_all all = true
is_all _ = false

-- `i > 0 && delayBetweenProbes > 0`, and the delay is aborted.
unfoldable pub is_cut : (delay i : ℕ) → Probe → Bool
is_cut delay i p = ltb 0 i && ltb 0 delay && p.delay_aborted

-- The loop, on the probes that are left.
unfoldable pub round_loop : ProbePolicy → (num_probes delay i passed failed : ℕ) → List Probe → Bool
unfolding run_single_probe decided is_all is_cut
round_loop policy n delay i passed failed [] = is_all policy
round_loop policy n delay i passed failed (p ∷ ps) =
    let passed' = if run_single_probe p then passed + 1 else passed in
    let failed' = if run_single_probe p then failed else failed + 1 in
    let rest = round_loop policy n delay (i + 1) passed' failed' ps in
    if is_cut delay i p
    then false
    else elim (decided policy n passed' failed') [ some outcome ↦ outcome | none ↦ rest ]

-- A round makes `num_probes` probes: it is run on a list of that length.
unfoldable pub run_probe_round : ProbePolicy → (num_probes delay : ℕ) → List Probe → Bool
unfolding round_loop
run_probe_round policy n delay ps = round_loop policy n delay 0 0 0 ps
