-- ===== src/MultiDb/Detector/Window.antt =====
-- failure-detector.ts against the window that it stands for: a plain list of outcomes.
use node_redis.Base.{
  ℕ, zero, suc, ◌+◌, ◌-◌, ◌*◌, ◌≤◌, ◌≡◌, refl, ap, ◌∙◌, sym, Bool, not, ◌&&◌, ◌||◌, ◌==◌, ltb, leb,
  if◌then◌else◌, Option, List, [], ◌∷◌, ◌++◌, length, drop, arith, Bool-cases, inl, inr,
  length-append, length-drop, drop-append_short,
}
use node_redis.MultiDb.Detector.{
  Outcome, Detector, evict_loop, compact, evict, is_failure, on_command_result, is_faulty,
}

abbrev pub failed_count : List Outcome → ℕ
failed_count [] = 0
failed_count (o ∷ os) = (if o.failed then 1 else 0) + failed_count os

-- The outcomes at the front whose age has reached the window are dropped.
abbrev pub recent : (window now : ℕ) → List Outcome → List Outcome
recent window now [] = []
recent window now (o ∷ os) =
    let rest = recent window now os in if leb (o.ts + window) now then rest else o ∷ os

-- The verdict on a window.
module _ (rate_reaches : (failures total threshold : ℕ) → Bool) where
  abbrev pub verdict : (min_num_of_failures threshold : ℕ) → List Outcome → Bool
  verdict min threshold w =
      let failures = failed_count w in
      not (failures == 0)
      && ((min == 0) || leb min failures)
      && ((threshold == 0) || rate_reaches failures (length w) threshold)

-- The detector's array from `head` on is the window, and `failures` counts its failures.
abbrev pub Represents : Detector → List Outcome → Type 0
Represents d w =
    (drop d.head d.outcomes ≡ w) × (d.head ≤ length d.outcomes) × (d.failures ≡ failed_count w)

dropped : (window now : ℕ) → List Outcome → ℕ
dropped window now [] = 0
dropped window now (o ∷ os) =
    let rest = dropped window now os in if leb (o.ts + window) now then suc rest else 0

drop-dropped :
    (window now : ℕ) (os : List Outcome)
    → (drop (dropped window now os) os ≡ recent window now os) × (dropped window now os ≤ length os)
unfolding dropped
drop-dropped window now [] = (refl, omega arith)
drop-dropped window now (o ∷ os) =
    let rest = drop-dropped window now os in (ground (arith, rest.0), ground (arith, rest.1))

failed_count-recent :
    (window now : ℕ) (os : List Outcome) → failed_count (recent window now os) ≤ failed_count os
failed_count-recent window now [] = omega arith
failed_count-recent window now (o ∷ os) = ground (arith, failed_count-recent window now os)

evict_loop_lem :
    (window now : ℕ) (os : List Outcome) (head failures : ℕ)
    → failures ≡ failed_count os
    → evict_loop window now os head failures
      ≡ (head + dropped window now os, failed_count (recent window now os))
unfolding evict_loop dropped
evict_loop_lem window now [] head failures e = ground arith
evict_loop_lem window now (o ∷ os) head failures e = ground (
  arith,
  e,
  evict_loop_lem window now os (head + 1) (failures - 1),
  evict_loop_lem window now os (head + 1) failures,
)

drop_nil : (k : ℕ) → drop {A = Outcome} k [] ≡ []
drop_nil zero = refl
drop_nil (suc k) = refl

drop-add : (m n : ℕ) (os : List Outcome) → drop (m + n) os ≡ drop n (drop m os)
drop-add zero n os = ap (λ (t : ℕ). drop t os) (omega arith)
drop-add (suc m) n [] = drop_nil (suc m + n) ∙ sym (drop_nil n)
drop-add (suc m) n (o ∷ os) = ap (λ (t : ℕ). drop t (o ∷ os)) (shift m n) ∙ drop-add m n os
  where
    shift : (m n : ℕ) → suc m + n ≡ suc (m + n)
    shift m n = omega arith

compact-Represents : (d : Detector) (w : List Outcome) → Represents d w → Represents (compact d) w
unfolding compact
compact-Represents d w r =
    elim (Bool-cases (ltb 1024 d.head && ltb (length d.outcomes) (d.head * 2))) [
      | inl many ↦ rw many (r.0, omega arith, r.2)
      | inr few ↦ rw few r
    ]

evict-Represents :
    (d : Detector) (w : List Outcome) (now : ℕ)
    → Represents d w
    → Represents (evict d now) (recent d.window_size now w)
unfolding evict
evict-Represents d w now (live, le, count) =
    let os = drop d.head d.outcomes in
    let e = evict_loop d.window_size now os d.head d.failures in
    let counted : d.failures ≡ failed_count os = count ∙ ap failed_count (sym live) in
    let eq = evict_loop_lem d.window_size now os d.head d.failures counted in
    let cut = drop-dropped d.window_size now os in
    compact-Represents (record d { head = e.0; failures = e.1 }) (recent d.window_size now w)
      (
        ap (λ r. drop r.0 d.outcomes) eq
            ∙ drop-add d.head (dropped d.window_size now os) d.outcomes
            ∙ cut.0
            ∙ ap (recent d.window_size now) live,
        omega (arith, ap (λ r. r.0) eq, cut.1, length-drop d.head d.outcomes, le),
        ap (λ r. r.1) eq ∙ ap (λ v. failed_count (recent d.window_size now v)) live,
      )

failed_count-append : (v w : List Outcome) → failed_count (v ++ w) ≡ failed_count v + failed_count w
failed_count-append [] w = omega arith
failed_count-append (o ∷ v) w = omega (arith, failed_count-append v w)

-- An outcome is put behind the window, and then those that are too old are dropped from its front:
-- the detector stands for the plain window whatever it has cut off its array.
pub on_command_result-Represents :
    (d : Detector) (w : List Outcome) (ok : Bool) (error_filter : Option Bool) (now now' : ℕ)
    → Represents d w
    → Represents (on_command_result d ok error_filter now now') (
        recent d.window_size now'
          (w ++ record { ts = now; failed = is_failure ok error_filter } ∷ []))
unfolding on_command_result
on_command_result-Represents d w ok error_filter now now' (live, le, count) =
    let failed = is_failure ok error_filter in
    let o : Outcome = record { ts = now; failed = failed } in
    let d' = record d {
      outcomes = d.outcomes ++ o ∷ [];
      failures = if failed then d.failures + 1 else d.failures;
    } in
    evict-Represents d' (w ++ o ∷ []) now' (
      drop-append_short d.head d.outcomes (o ∷ []) le ∙ ap (λ v. v ++ o ∷ []) live,
      omega (arith, length-append d.outcomes (o ∷ []), le),
      ground (arith, count, failed_count-append w (o ∷ [])),
    )

failed_count-le : (w : List Outcome) → failed_count w ≤ length w
failed_count-le [] = omega arith
failed_count-le (o ∷ w) = ground (arith, failed_count-le w)

evict-settings :
    (d : Detector) (now : ℕ)
    → ((evict d now).min_num_of_failures ≡ d.min_num_of_failures)
      × ((evict d now).failure_rate_threshold ≡ d.failure_rate_threshold)
unfolding evict compact
evict-settings d now = (ground arith, ground arith)

-- The verdict is that of the plain window without the outcomes that are too old: at least one
-- failure, as many as the minimum, and the rate, where a minimum or a threshold of 0 asks nothing.
-- The detector then stands for that window.
pub is_faulty-verdict :
    (rate_reaches : (failures total threshold : ℕ) → Bool) (d : Detector) (w : List Outcome)
    (now : ℕ)
    → Represents d w
    → let r = is_faulty rate_reaches d now in
      let w' = recent d.window_size now w in
      Represents r.0 w'
      × (r.1 ≡ verdict rate_reaches d.min_num_of_failures d.failure_rate_threshold w')
unfolding is_faulty
is_faulty-verdict rate_reaches d w now r =
    let e = evict d now in
    let w' = recent d.window_size now w in
    let kept = evict-Represents d w now r in
    let size : length e.outcomes - e.head ≡ length w' =
      sym (length-drop e.head e.outcomes) ∙ ap length kept.0 in
    (
      kept,
      simp ((evict-settings d now).0, (evict-settings d now).1, size, kept.2)
          (ground (arith, failed_count-le w')),
    )
