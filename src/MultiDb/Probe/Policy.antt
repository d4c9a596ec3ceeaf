-- ===== src/MultiDb/Probe/Policy.antt =====
-- The early exits of health-check.ts against the count of all the probes of a round.
use node_redis.Base.{
  ◌∙◌, ℕ, ◌+◌, ◌-◌, ◌*◌, ◌/◌, ◌≤◌, ◌<◌, ◌≡◌, Bool, false, ◌==◌, ltb, if◌then◌else◌, List, [], ◌∷◌,
  length, All, arith,
}
use node_redis.MultiDb.Probe.{
  ProbePolicy, all, any, majority, Probe, run_single_probe, decided, is_all, is_cut, round_loop,
  run_probe_round,
}

abbrev pub healthy_count : List Probe → ℕ
healthy_count [] = 0
healthy_count (p ∷ ps) = (if run_single_probe p then 1 else 0) + healthy_count ps

-- The policy on the counts of a whole round.
abbrev pub aggregate : ProbePolicy → (num_probes healthy : ℕ) → Bool
aggregate all n healthy = healthy == n
aggregate any n healthy = ltb 0 healthy
aggregate majority n healthy = ltb n (healthy * 2)

abbrev pub Uncut : List Probe → Type 0
Uncut ps = All (λ p. p.delay_aborted ≡ false) ps

healthy_count-le : (ps : List Probe) → healthy_count ps ≤ length ps
healthy_count-le [] = omega arith
healthy_count-le (p ∷ ps) = ground (arith, healthy_count-le ps)

uncut : (delay i : ℕ) (p : Probe) → p.delay_aborted ≡ false → is_cut delay i p ≡ false
unfolding is_cut
uncut delay i p h = ground (arith, h)

all-count :
    (n delay i passed : ℕ) (ps : List Probe)
    → Uncut ps
    → passed + length ps ≡ n
    → round_loop all n delay i passed 0 ps ≡ aggregate all n (passed + healthy_count ps)
unfolding round_loop decided is_all
all-count n delay i passed [] u e = ground (arith, e)
all-count n delay i passed (p ∷ ps) u e = ground (
  arith,
  uncut delay i p u.0,
  all-count n delay (i + 1) (passed + 1) ps u.1,
  e,
  healthy_count-le ps,
)

any-count :
    (n delay i failed : ℕ) (ps : List Probe)
    → Uncut ps
    → round_loop any n delay i 0 failed ps ≡ aggregate any n (healthy_count ps)
unfolding round_loop decided is_all
any-count n delay i failed [] u = ground arith
any-count n delay i failed (p ∷ ps) u =
    ground (arith, uncut delay i p u.0, any-count n delay (i + 1) (failed + 1) ps u.1)

majority-count :
    (n delay i passed failed : ℕ) (ps : List Probe)
    → Uncut ps
    → passed + (failed + length ps) ≡ n
    → passed < n / 2 + 1
    → failed ≤ n - (n / 2 + 1)
    → 0 < n
    → round_loop majority n delay i passed failed ps
      ≡ aggregate majority n (passed + healthy_count ps)
unfolding round_loop decided is_all
majority-count n delay i passed failed [] u e lt le pos = ground (arith, e)
majority-count n delay i passed failed (p ∷ ps) u e lt le pos = ground (
  arith,
  uncut delay i p u.0,
  majority-count n delay (i + 1) (passed + 1) failed ps u.1,
  majority-count n delay (i + 1) passed (failed + 1) ps u.1,
  e,
  lt,
  le,
  pos,
  healthy_count-le ps,
)

-- A round none of whose delays is aborted, with as many probes as it makes, gives what its policy
-- says of the number of healthy probes, whichever of its early exits is taken: all of them, at
-- least one, or more than half.
pub run_probe_round-aggregate :
    (policy : ProbePolicy) (delay : ℕ) (ps : List Probe)
    → Uncut ps
    → run_probe_round policy (length ps) delay ps ≡ aggregate policy (length ps) (healthy_count ps)
unfolding run_probe_round
run_probe_round-aggregate all delay ps u =
    all-count (length ps) delay 0 0 ps u (omega arith) ∙ ground arith
run_probe_round-aggregate any delay ps u = any-count (length ps) delay 0 0 ps u
run_probe_round-aggregate majority delay [] u = unfold round_loop is_all in ground arith
run_probe_round-aggregate majority delay (p ∷ ps) u =
    majority-count (length (p ∷ ps)) delay 0 0 0 (p ∷ ps) u (omega arith) (omega arith)
      (omega arith) (omega arith)
    ∙ ground arith
