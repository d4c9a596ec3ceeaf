-- ===== src/MultiDb/Detector.antt =====
-- packages/client/lib/multi-db/failure-detector.ts: the sliding window of outcomes.
-- Times are whole milliseconds, and each reading of the clock is an argument of its own. The rate
-- test, in floating point, is a parameter; nothing is assumed of it.
pub mod Window
mod Tests
use node_redis.Base.{
  ℕ, zero, suc, ◌+◌, ◌-◌, ◌*◌, Bool, true, false, not, ◌&&◌, ◌||◌, ◌==◌, ltb, leb, if◌then◌else◌,
  Option, none, some, List, [], ◌∷◌, ◌++◌, length, drop,
}

pub record Outcome : Type 0 where
  pub ts : ℕ
  pub failed : Bool

pub record Detector : Type 0 where
  pub min_num_of_failures : ℕ
  pub failure_rate_threshold : ℕ
  pub window_size : ℕ
  pub outcomes : List Outcome
  pub head : ℕ
  pub failures : ℕ

unfoldable pub new_detector :
    (min_num_of_failures failure_rate_threshold window_size : ℕ) → Detector
new_detector min rate window = record {
  min_num_of_failures = min;
  failure_rate_threshold = rate;
  window_size = window;
  outcomes = [];
  head = 0;
  failures = 0;
}

-- The loop of #evict, on the outcomes from `head` on. `ts <= clock() - windowSize` is the same
-- comparison of whole numbers, with the subtraction moved over.
unfoldable pub evict_loop : (window now : ℕ) → List Outcome → (head failures : ℕ) → ℕ × ℕ
evict_loop window now [] head failures = (head, failures)
evict_loop window now (o ∷ os) head failures =
    let fewer = evict_loop window now os (head + 1) (failures - 1) in
    let same = evict_loop window now os (head + 1) failures in
    if leb (o.ts + window) now then (if o.failed then fewer else same) else (head, failures)

-- The outcomes in front of `head` are cut off once they are many.
unfoldable pub compact : Detector → Detector
compact d =
    if ltb 1024 d.head && ltb (length d.outcomes) (d.head * 2)
    then record d { outcomes = drop d.head d.outcomes; head = 0 }
    else d

unfoldable pub evict : Detector → (now : ℕ) → Detector
unfolding evict_loop compact
evict d now =
    let r = evict_loop d.window_size now (drop d.head d.outcomes) d.head d.failures in
    compact (record d { head = r.0; failures = r.1 })

-- `now` is read for the outcome, and `now'` by #evict. The error, if any, is what `errorFilter`
-- says of it.
unfoldable pub is_failure : (ok : Bool) → (error_filter : Option Bool) → Bool
is_failure ok none = not ok
is_failure ok (some counts) = not ok && counts

unfoldable pub on_command_result :
    Detector → (ok : Bool) → (error_filter : Option Bool) → (now now' : ℕ) → Detector
unfolding is_failure evict
on_command_result d ok error_filter now now' =
    let failed = is_failure ok error_filter in
    evict
      (record d {
        outcomes = d.outcomes ++ record { ts = now; failed = failed } ∷ [];
        failures = if failed then d.failures + 1 else d.failures;
      })
      now'

unfoldable pub reset : Detector → Detector
reset d = record d { outcomes = []; head = 0; failures = 0 }

-- `(failures / total) * 100 >= threshold`.
module _ (rate_reaches : (failures total threshold : ℕ) → Bool) where
  unfoldable pub is_faulty : Detector → (now : ℕ) → Detector × Bool
  unfolding evict
  is_faulty d now =
      let e = evict d now in
      let total = length e.outcomes - e.head in
      let count_reached = (e.min_num_of_failures == 0) || leb e.min_num_of_failures e.failures in
      let rate_reached =
        (e.failure_rate_threshold == 0) || rate_reaches e.failures total e.failure_rate_threshold in
      (e, if (total == 0) || (e.failures == 0) then false else count_reached && rate_reached)
