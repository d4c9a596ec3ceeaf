-- ===== src/MultiDb/Probe/Tests.antt =====
-- Rounds of health-check.ts, and the theorem of Policy at them.
use node_redis.Base.{◌≡◌, refl, true, false, [], ◌∷◌}
use node_redis.MultiDb.Probe.{
  Probe, healthy, unhealthy, rejected, majority, run_probe_round, run_single_probe,
}
use node_redis.MultiDb.Probe.Policy.{run_probe_round-aggregate}

abbrev good : Probe
good = record { delay_aborted = false; checks = healthy ∷ healthy ∷ []; overrun = false }

abbrev bad : Probe
bad = record {
  delay_aborted = false;
  checks = healthy ∷ rejected ∷ unhealthy ∷ [];
  overrun = false;
}

run_probe_round-aggregate_example : run_probe_round majority 3 10 (good ∷ bad ∷ good ∷ []) ≡ true
unfolding run_single_probe
run_probe_round-aggregate_example =
    run_probe_round-aggregate majority 10 (good ∷ bad ∷ good ∷ []) (refl, (refl, (refl, tt)))
