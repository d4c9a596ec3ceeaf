-- ===== src/Resp/Run/Fuel.antt =====
-- Running never makes the input longer, so fuel above the number of bytes at hand is enough for
-- every nested value of decoder.ts.
use node_redis.Base.{
  ℕ, zero, suc, ◌≤◌, ◌<◌, ◌≡◌, refl, ap, ◌∙◌, Bool, true, false, List, [], ◌∷◌, ◌++◌, arith, leb,
  ◌==◌, length, drop, length-drop, Bool-cases, inl, inr,
}
use node_redis.Base.Int.{ℤ}
use node_redis.Resp.Reply.{Reply, TypeMapping}
use node_redis.Resp.Program.{
  Program, ret, and_then, fail, await, peek, advance, unsigned_number, until_cr, with_length,
  nested, map_key,
}
use node_redis.Resp.Run.{
  Input, at, beyond, skip, Outcome, done, more, fault, out_of_fuel, push_digit, scan_number,
  scan_cr, scan_length, bind_outcome, run_with, value_program, run_nested, run,
}

abbrev pub size : Input → ℕ
size (at r) = length r
size (beyond k) = 0

-- What a run leaves has at most `n` bytes.
abbrev pub Within : {A : Type 0} → ℕ → Outcome A → Type 0
Within n (done a i) = size i ≤ n
Within n (more q i) = size i ≡ 0
Within n (fault e) = Unit {0}
Within n out_of_fuel = Unit {0}

pub Within-mono : {A : Type 0} {m n : ℕ} (o : Outcome A) → m ≤ n → Within m o → Within n o
Within-mono (done a i) h w = omega arith
Within-mono (more q i) h w = w
Within-mono (fault e) h w = tt
Within-mono out_of_fuel h w = tt

pub skip-le : (k : ℕ) (i : Input) → size (skip k i) ≤ size i
unfolding skip
skip-le zero i = omega arith
skip-le (suc k) (at []) = omega arith
skip-le (suc k) (at (x ∷ r)) = omega (arith, skip-le k (at r))
skip-le (suc k) (beyond j) = omega arith

scan_number-Within : (z : ℤ) (r : List ℕ) (n : ℕ) → length r ≤ n → Within n (scan_number z r)
unfolding scan_number
scan_number-Within z [] n h = refl
scan_number-Within z (b ∷ r) n h = elim (Bool-cases (b == 13)) [
  | inl e ↦ rw e (omega (arith, skip-le 1 (at r)))
  | inr e ↦ rw e (scan_number-Within (push_digit z b) r n (omega arith))
]

scan_cr-Within : (c : List ℕ) (r : List ℕ) (n : ℕ) → length r ≤ n → Within n (scan_cr c r)
unfolding scan_cr
scan_cr-Within c [] n h = refl
scan_cr-Within c (b ∷ r) n h = elim (Bool-cases (b == 13)) [
  | inl e ↦ rw e (omega (arith, skip-le 1 (at r)))
  | inr e ↦ rw e (scan_cr-Within (c ++ b ∷ []) r n (omega arith))
]

scan_length-Within :
    (m : ℕ) (c : List ℕ) (s : ℕ) (r : List ℕ) (n : ℕ)
    → length r ≤ n
    → Within n (scan_length m c s r)
unfolding scan_length
scan_length-Within m c s r n h = elim (Bool-cases (leb (length r) m)) [
  | inl e ↦ rw e refl
  | inr e ↦ rw e (omega (arith, skip-le s (at (drop m r)), length-drop m r))
]

abbrev pub Nest : Type 1
Nest = Bool → ℕ → TypeMapping → Input → Outcome Reply

bind_outcome-Within :
    {A B : Type 0} (k : B → Program A) (go : B → Input → Outcome A) (o : Outcome B) (n : ℕ)
    → Within n o
    → ((b : B) (j : Input) → size j ≤ n → Within n (go b j))
    → Within n (bind_outcome k go o)
bind_outcome-Within k go (done b j) n w h = h b j w
bind_outcome-Within k go (more q j) n w h = w
bind_outcome-Within k go (fault e) n w h = tt
bind_outcome-Within k go out_of_fuel n w h = tt

run_with-Within :
    {A : Type 0} (nest : Nest) (p : Program A) (i : Input) (n : ℕ)
    → ((key : Bool) (x : ℕ) (m : TypeMapping) (j : Input) → size j ≤ n → Within n (nest key x m j))
    → size i ≤ n
    → Within n (run_with nest p i)
unfolding run_with
run_with-Within nest (ret a) i n hn h = h
run_with-Within nest (fail e) i n hn h = tt
run_with-Within nest (advance k) i n hn h = omega (arith, skip-le k i)
run_with-Within nest (and_then p k) i n hn h =
    bind_outcome-Within k (λ b j. run_with nest (k b) j) (run_with nest p i) n
      (run_with-Within nest p i n hn h) (λ b j hj. run_with-Within nest (k b) j n hn hj)
run_with-Within nest await (at []) n hn h = refl
run_with-Within nest await (at (x ∷ r)) n hn h = h
run_with-Within nest await (beyond k) n hn h = refl
run_with-Within nest peek (at []) n hn h = refl
run_with-Within nest peek (at (x ∷ r)) n hn h = h
run_with-Within nest peek (beyond k) n hn h = refl
run_with-Within nest (unsigned_number z) (at r) n hn h = scan_number-Within z r n h
run_with-Within nest (unsigned_number z) (beyond k) n hn h = refl
run_with-Within nest (until_cr c) (at r) n hn h = scan_cr-Within c r n h
run_with-Within nest (until_cr c) (beyond k) n hn h = refl
run_with-Within nest (with_length m c s) (at r) n hn h = scan_length-Within m c s r n h
run_with-Within nest (with_length m c s) (beyond k) n hn h = refl
run_with-Within nest (nested m) (at []) n hn h = refl
run_with-Within nest (nested m) (at (x ∷ r)) n hn h = hn false x m (at r) (omega arith)
run_with-Within nest (nested m) (beyond k) n hn h = refl
run_with-Within nest (map_key m) (at []) n hn h = refl
run_with-Within nest (map_key m) (at (x ∷ r)) n hn h = hn true x m (at r) (omega arith)
run_with-Within nest (map_key m) (beyond k) n hn h = refl

pub run_nested-Within :
    (f : ℕ) (key : Bool) (x : ℕ) (m : TypeMapping) (i : Input) (n : ℕ)
    → size i ≤ n
    → Within n (run_nested f key x m i)
unfolding run_nested
run_nested-Within zero key x m i n h = tt
run_nested-Within (suc f) key x m i n h =
    run_with-Within (run_nested f) (value_program key x m) i n
      (λ key' x' m' j hj. run_nested-Within f key' x' m' j n hj) h

pub run-Within : {A : Type 0} (f : ℕ) (p : Program A) (i : Input) → Within (size i) (run f p i)
unfolding run
run-Within f p i =
    run_with-Within (run_nested f) p i (size i)
      (λ key x m j h. run_nested-Within f key x m j (size i) h) (omega arith)

-- A run came to an end of the code's own.
abbrev pub Ends : {A : Type 0} → Outcome A → Type 0
Ends out_of_fuel = ⊥
Ends _ = Unit {0}

pub bind_outcome-agree :
    {A B : Type 0} (k : B → Program A) (go go' : B → Input → Outcome A) (o : Outcome B) (n : ℕ)
    → Within n o
    → ((b : B) (j : Input) → size j ≤ n → go b j ≡ go' b j)
    → bind_outcome k go o ≡ bind_outcome k go' o
bind_outcome-agree k go go' (done b j) n w h = h b j w
bind_outcome-agree k go go' (more q j) n w h = refl
bind_outcome-agree k go go' (fault e) n w h = refl
bind_outcome-agree k go go' out_of_fuel n w h = refl

bind_outcome-Ends :
    {A B : Type 0} (k : B → Program A) (go : B → Input → Outcome A) (o : Outcome B) (n : ℕ)
    → Within n o
    → Ends o
    → ((b : B) (j : Input) → size j ≤ n → Ends (go b j))
    → Ends (bind_outcome k go o)
bind_outcome-Ends k go (done b j) n w e h = h b j w
bind_outcome-Ends k go (more q j) n w e h = tt
bind_outcome-Ends k go (fault _) n w e h = tt
bind_outcome-Ends k go out_of_fuel n w e h = e

scan_number-Ends : (z : ℤ) (r : List ℕ) → Ends (scan_number z r)
unfolding scan_number
scan_number-Ends z [] = tt
scan_number-Ends z (b ∷ r) = elim (Bool-cases (b == 13)) [
  | inl e ↦ rw e tt
  | inr e ↦ rw e (scan_number-Ends (push_digit z b) r)
]

scan_cr-Ends : (c r : List ℕ) → Ends (scan_cr c r)
unfolding scan_cr
scan_cr-Ends c [] = tt
scan_cr-Ends c (b ∷ r) = elim (Bool-cases (b == 13)) [
  | inl e ↦ rw e tt
  | inr e ↦ rw e (scan_cr-Ends (c ++ b ∷ []) r)
]

scan_length-Ends : (m : ℕ) (c : List ℕ) (s : ℕ) (r : List ℕ) → Ends (scan_length m c s r)
unfolding scan_length
scan_length-Ends m c s r = elim (Bool-cases (leb (length r) m)) [
  | inl e ↦ rw e tt
  | inr e ↦ rw e tt
]

-- On an input of at most `n` bytes only shorter ones reach a nested value.
module _ (nest : Nest) (n : ℕ)
    (within : (key : Bool) (x : ℕ) (m : TypeMapping) (j : Input)
      → size j ≤ n
      → Within n (nest key x m j)) where
  run_with-Ends :
      {A : Type 0} (p : Program A) (i : Input)
      → ((key : Bool) (x : ℕ) (m : TypeMapping) (j : Input) → size j < n → Ends (nest key x m j))
      → size i ≤ n
      → Ends (run_with nest p i)
  unfolding run_with
  run_with-Ends (and_then p k) i hn h =
      bind_outcome-Ends k (λ b j. run_with nest (k b) j) (run_with nest p i) n
        (run_with-Within nest p i n within h) (run_with-Ends p i hn h)
        (λ b j hj. run_with-Ends (k b) j hn hj)
  run_with-Ends (unsigned_number z) (at r) hn h = scan_number-Ends z r
  run_with-Ends (until_cr c) (at r) hn h = scan_cr-Ends c r
  run_with-Ends (with_length m c s) (at r) hn h = scan_length-Ends m c s r
  run_with-Ends (nested m) (at (x ∷ r)) hn h = hn false x m (at r) (omega arith)
  run_with-Ends (map_key m) (at (x ∷ r)) hn h = hn true x m (at r) (omega arith)
  run_with-Ends await (at (x ∷ r)) hn h = tt
  run_with-Ends await (at []) hn h = tt
  run_with-Ends peek (at (x ∷ r)) hn h = tt
  run_with-Ends peek (at []) hn h = tt
  run_with-Ends _ _ hn h = tt

  run_with-agree :
      {A : Type 0} (nest' : Nest) (p : Program A) (i : Input)
      → ((key : Bool) (x : ℕ) (m : TypeMapping) (j : Input)
          → size j < n
          → nest key x m j ≡ nest' key x m j)
      → size i ≤ n
      → run_with nest p i ≡ run_with nest' p i
  unfolding run_with
  run_with-agree nest' (and_then p k) i hn h =
      bind_outcome-agree k (λ b j. run_with nest (k b) j) (λ b j. run_with nest' (k b) j)
        (run_with nest p i) n (run_with-Within nest p i n within h)
        (λ b j hj. run_with-agree nest' (k b) j hn hj)
      ∙ ap (bind_outcome k (λ b j. run_with nest' (k b) j)) (run_with-agree nest' p i hn h)
  run_with-agree nest' (nested m) (at (x ∷ r)) hn h = hn false x m (at r) (omega arith)
  run_with-agree nest' (map_key m) (at (x ∷ r)) hn h = hn true x m (at r) (omega arith)
  run_with-agree nest' (ret a) i hn h = refl
  run_with-agree nest' (fail e) i hn h = refl
  run_with-agree nest' (advance k) i hn h = refl
  run_with-agree nest' _ (at []) hn h = refl
  run_with-agree nest' _ (at (x ∷ r)) hn h = refl
  run_with-agree nest' _ (beyond k) hn h = refl

run_nested-Ends :
    (f : ℕ) (key : Bool) (x : ℕ) (m : TypeMapping) (i : Input)
    → size i < f
    → Ends (run_nested f key x m i)
unfolding run_nested
run_nested-Ends zero key x m i h = elim h [ ]
run_nested-Ends (suc f) key x m i h =
    run_with-Ends (run_nested f) (size i)
      (λ key' x' m' j hj. run_nested-Within f key' x' m' j (size i) hj) (value_program key x m) i
      (λ key' x' m' j hj. run_nested-Ends f key' x' m' j (omega arith)) (omega arith)

run_nested-agree :
    (f g : ℕ) (key : Bool) (x : ℕ) (m : TypeMapping) (i : Input)
    → size i < f
    → size i < g
    → run_nested f key x m i ≡ run_nested g key x m i
unfolding run_nested
run_nested-agree zero g key x m i h h' = elim h [ ]
run_nested-agree (suc f) zero key x m i h h' = elim h' [ ]
run_nested-agree (suc f) (suc g) key x m i h h' =
    run_with-agree (run_nested f) (size i)
      (λ key' x' m' j hj. run_nested-Within f key' x' m' j (size i) hj) (run_nested g)
      (value_program key x m) i
      (λ key' x' m' j hj. run_nested-agree f g key' x' m' j (omega arith) (omega arith))
      (omega arith)

-- Fuel for the bytes at hand is enough: the run ends as the code does, by a value, a function of
-- the next chunk or a fault, and no other such amount of fuel changes how.
pub run-Ends : {A : Type 0} (f : ℕ) (p : Program A) (i : Input) → size i ≤ f → Ends (run f p i)
unfolding run
run-Ends f p i h =
    run_with-Ends (run_nested f) (size i)
      (λ key x m j hj. run_nested-Within f key x m j (size i) hj) p i
      (λ key x m j hj. run_nested-Ends f key x m j (omega arith)) (omega arith)

pub run-agree :
    {A : Type 0} (f g : ℕ) (p : Program A) (i : Input)
    → size i ≤ f
    → size i ≤ g
    → run f p i ≡ run g p i
unfolding run
run-agree f g p i h h' =
    run_with-agree (run_nested f) (size i)
      (λ key x m j hj. run_nested-Within f key x m j (size i) hj) (run_nested g) p i
      (λ key x m j hj. run_nested-agree f g key x m j (omega arith) (omega arith)) (omega arith)
