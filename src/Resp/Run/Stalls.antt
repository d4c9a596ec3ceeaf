-- ===== src/Resp/Run/Stalls.antt =====
-- A function of the next chunk that decoder.ts keeps waits for a byte: on a chunk that is used up
-- before it starts, it is returned as it is.
use node_redis.Base.{
  ℕ, zero, suc, ◌≡◌, refl, ap, Bool, true, false, List, [], ◌∷◌, ◌++◌, arith, leb, ◌==◌, append-nil,
  length, Bool-cases, inl, inr,
}
use mathlib.Core.Path.{ap₂}
use node_redis.Base.Int.{ℤ}
use node_redis.Resp.Reply.{TypeMapping}
use node_redis.Resp.Program.{
  Program, ret, and_then, fail, await, peek, advance, unsigned_number, until_cr, with_length,
  nested, map_key,
}
use node_redis.Resp.Run.{
  Input, at, beyond, Outcome, done, more, fault, out_of_fuel, push_digit, scan_number, scan_cr,
  scan_length, bind_outcome, run_with, value_program, run_nested, run,
}
use node_redis.Resp.Run.Fuel.{size, Nest}

abbrev pub Waits : {A : Type 0} → Program A → Type 1
Waits q = (g : ℕ) (j : Input) → size j ≡ 0 → run g q j ≡ more q j

abbrev pub Stalls : {A : Type 0} → Outcome A → Type 1
Stalls (more q j) = Waits q
Stalls _ = Unit {1}

await-Waits : Waits await
unfolding run
await-Waits g (at []) h = refl
await-Waits g (at (x ∷ r)) h = absurd (omega arith)
await-Waits g (beyond k) h = refl

peek-Waits : Waits peek
unfolding run
peek-Waits g (at []) h = refl
peek-Waits g (at (x ∷ r)) h = absurd (omega arith)
peek-Waits g (beyond k) h = refl

unsigned_number-Waits : (z : ℤ) → Waits (unsigned_number z)
unfolding run
unsigned_number-Waits z g (at []) h = refl
unsigned_number-Waits z g (at (x ∷ r)) h = absurd (omega arith)
unsigned_number-Waits z g (beyond k) h = refl

until_cr-Waits : (c : List ℕ) → Waits (until_cr c)
unfolding run
until_cr-Waits c g (at []) h = refl
until_cr-Waits c g (at (x ∷ r)) h = absurd (omega arith)
until_cr-Waits c g (beyond k) h = refl

with_length-Waits : (n : ℕ) (c : List ℕ) (s : ℕ) → Waits (with_length n c s)
unfolding run scan_length
with_length-Waits n c s g (at []) h =
    let all : leb 0 n ≡ true = ground arith in
    rw all
      (ap₂ (λ (t : ℕ) (u : List ℕ). more (with_length t u s) (at [])) (omega arith) (append-nil c))
with_length-Waits n c s g (at (x ∷ r)) h = absurd (omega arith)
with_length-Waits n c s g (beyond k) h = refl

nested-Waits : (m : TypeMapping) → Waits (nested m)
unfolding run
nested-Waits m g (at []) h = refl
nested-Waits m g (at (x ∷ r)) h = absurd (omega arith)
nested-Waits m g (beyond k) h = refl

map_key-Waits : (m : TypeMapping) → Waits (map_key m)
unfolding run
map_key-Waits m g (at []) h = refl
map_key-Waits m g (at (x ∷ r)) h = absurd (omega arith)
map_key-Waits m g (beyond k) h = refl

and_then-Waits : {A B : Type 0} (q : Program B) (k : B → Program A) → Waits q → Waits (and_then q k)
unfolding run
and_then-Waits q k w g j h = ap (bind_outcome k (λ b i. run g (k b) i)) (w g j h)

scan_number-Stalls : (z : ℤ) (r : List ℕ) → Stalls (scan_number z r)
unfolding scan_number
scan_number-Stalls z [] = unsigned_number-Waits z
scan_number-Stalls z (b ∷ r) = elim (Bool-cases (b == 13)) [
  | inl e ↦ rw e tt
  | inr e ↦ rw e (scan_number-Stalls (push_digit z b) r)
]

scan_cr-Stalls : (c r : List ℕ) → Stalls (scan_cr c r)
unfolding scan_cr
scan_cr-Stalls c [] = until_cr-Waits c
scan_cr-Stalls c (b ∷ r) = elim (Bool-cases (b == 13)) [
  | inl e ↦ rw e tt
  | inr e ↦ rw e (scan_cr-Stalls (c ++ b ∷ []) r)
]

scan_length-Stalls : (n : ℕ) (c : List ℕ) (s : ℕ) (r : List ℕ) → Stalls (scan_length n c s r)
unfolding scan_length
scan_length-Stalls n c s r = elim (Bool-cases (leb (length r) n)) [
  | inl e ↦ rw e (with_length-Waits _ _ s)
  | inr e ↦ rw e tt
]

bind_outcome-Stalls :
    {A B : Type 0} (k : B → Program A) (go : B → Input → Outcome A) (o : Outcome B)
    → Stalls o
    → ((b : B) (j : Input) → Stalls (go b j))
    → Stalls (bind_outcome k go o)
bind_outcome-Stalls k go (done b j) w h = h b j
bind_outcome-Stalls k go (more q j) w h = and_then-Waits q k w
bind_outcome-Stalls k go (fault _) w h = tt
bind_outcome-Stalls k go out_of_fuel w h = tt

module _ (nest : Nest)
    (stalls : (key : Bool) (x : ℕ) (m : TypeMapping) (j : Input) → Stalls (nest key x m j)) where
  run_with-Stalls : {A : Type 0} (p : Program A) (i : Input) → Stalls (run_with nest p i)
  unfolding run_with
  run_with-Stalls (ret a) i = tt
  run_with-Stalls (fail e) i = tt
  run_with-Stalls (advance k) i = tt
  run_with-Stalls (and_then p k) i =
      bind_outcome-Stalls k (λ b j. run_with nest (k b) j) (run_with nest p i) (run_with-Stalls p i)
        (λ b j. run_with-Stalls (k b) j)
  run_with-Stalls await (at []) = await-Waits
  run_with-Stalls await (at (x ∷ r)) = tt
  run_with-Stalls await (beyond k) = await-Waits
  run_with-Stalls peek (at []) = peek-Waits
  run_with-Stalls peek (at (x ∷ r)) = tt
  run_with-Stalls peek (beyond k) = peek-Waits
  run_with-Stalls (unsigned_number z) (at r) = scan_number-Stalls z r
  run_with-Stalls (unsigned_number z) (beyond k) = unsigned_number-Waits z
  run_with-Stalls (until_cr c) (at r) = scan_cr-Stalls c r
  run_with-Stalls (until_cr c) (beyond k) = until_cr-Waits c
  run_with-Stalls (with_length n c s) (at r) = scan_length-Stalls n c s r
  run_with-Stalls (with_length n c s) (beyond k) = with_length-Waits n c s
  run_with-Stalls (nested m) (at []) = nested-Waits m
  run_with-Stalls (nested m) (at (x ∷ r)) = stalls false x m (at r)
  run_with-Stalls (nested m) (beyond k) = nested-Waits m
  run_with-Stalls (map_key m) (at []) = map_key-Waits m
  run_with-Stalls (map_key m) (at (x ∷ r)) = stalls true x m (at r)
  run_with-Stalls (map_key m) (beyond k) = map_key-Waits m

run_nested-Stalls :
    (f : ℕ) (key : Bool) (x : ℕ) (m : TypeMapping) (i : Input) → Stalls (run_nested f key x m i)
unfolding run_nested
run_nested-Stalls zero key x m i = tt
run_nested-Stalls (suc f) key x m i =
    run_with-Stalls (run_nested f) (run_nested-Stalls f) (value_program key x m) i

pub run-Stalls : {A : Type 0} (f : ℕ) (p : Program A) (i : Input) → Stalls (run f p i)
unfolding run
run-Stalls f p i = run_with-Stalls (run_nested f) (run_nested-Stalls f) p i
