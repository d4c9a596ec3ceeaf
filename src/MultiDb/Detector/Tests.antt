-- ===== src/MultiDb/Detector/Tests.antt =====
-- A detector of failure-detector.ts, and the theorems of Window at it.
use node_redis.Base.{ℕ, ◌*◌, ◌≡◌, refl, Bool, true, false, leb, some, List, [], ◌∷◌, arith}
use node_redis.MultiDb.Detector.{Outcome, Detector, on_command_result, is_failure, is_faulty}
use node_redis.MultiDb.Detector.Window.{Represents, on_command_result-Represents, is_faulty-verdict}

abbrev exact_rate : (failures total threshold : ℕ) → Bool
exact_rate failures total threshold = leb (threshold * total) (failures * 100)

-- Two failures and a success within the last 100 milliseconds, behind one that is cut off.
abbrev watching : Detector
watching = record {
  min_num_of_failures = 2;
  failure_rate_threshold = 50;
  window_size = 100;
  outcomes =
      record { ts = 1; failed = true }
      ∷ record { ts = 150; failed = true }
      ∷ record { ts = 160; failed = false }
      ∷ record { ts = 170; failed = true }
      ∷ [];
  head = 1;
  failures = 2;
}

abbrev window : List Outcome
window =
    record { ts = 150; failed = true }
    ∷ record { ts = 160; failed = false }
    ∷ record { ts = 170; failed = true }
    ∷ []

watching-window : Represents watching window
watching-window = (refl, omega arith, refl)

on_command_result-Represents_example :
    Represents (on_command_result watching false (some false) 250 251) (
      record { ts = 160; failed = false }
      ∷ record { ts = 170; failed = true }
      ∷ record { ts = 250; failed = false }
      ∷ [])
unfolding is_failure
on_command_result-Represents_example =
    on_command_result-Represents watching window false (some false) 250 251 watching-window

is_faulty-verdict_example : (is_faulty exact_rate watching 200).1 ≡ true
is_faulty-verdict_example = (is_faulty-verdict exact_rate watching window 200 watching-window).1
