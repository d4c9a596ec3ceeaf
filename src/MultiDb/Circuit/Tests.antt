-- ===== src/MultiDb/Circuit/Tests.antt =====
-- Concrete circuits of circuit.ts, and the theorems of Recovery at them.
use node_redis.Base.{◌≡◌, refl, [], ◌∷◌, arith}
use node_redis.MultiDb.Circuit.{Circuit, Stored, trip, new_circuit}
use node_redis.MultiDb.Circuit.Recovery.{successes, successes_recover}

-- Tripped at time 100, with a grace period of 50 and two probes to recover.
abbrev tripped : Circuit
tripped = record {
  grace_period = 50;
  num_probes = 2;
  stored = Stored.opened;
  opened_at = 100;
  consecutive_successful_probes = 0;
}

tripped_lem : (trip (new_circuit 50 2) 99 100).0 ≡ tripped
unfolding trip new_circuit
tripped_lem = refl

successes_recover_example :
    successes tripped ((150, 151) ∷ (160, 161) ∷ (170, 171) ∷ [])
    ≡ record tripped { stored = Stored.closed }
successes_recover_example =
    successes_recover tripped ((150, 151) ∷ (160, 161) ∷ (170, 171) ∷ []) refl (omega arith)
      (omega arith)
