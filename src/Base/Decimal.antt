-- ===== src/Base/Decimal.antt =====
-- Natural numbers in decimal, as `toString` writes them: a list of character codes.
use Prim.Native.Nat.{ℕ, zero, suc, ◌+◌, ◌-◌, ◌*◌, ◌/◌, ◌%◌, ◌≤◌, ◌<◌}
use mathlib.Core.Path.{◌≡◌, refl}
use mathlib.Core.Logic.{inl, inr}
use mathlib.Core.List.{List, [], ◌∷◌, ◌++◌}
use native.Mathlib.Omega.{arith}
use node_redis.Base.Tests.{ltb, ltb→lt, if◌then◌else◌, Bool-cases}
use node_redis.Base.Lists.{All, All-append, length, length-append}

-- The digits of `n`, with a unit of fuel for each.
digits : ℕ → ℕ → List ℕ
digits zero n = []
digits (suc f) n =
    let rest = digits f (n / 10) ++ (48 + n % 10) ∷ [] in if ltb n 10 then (48 + n) ∷ [] else rest

unfoldable pub to_string : ℕ → List ℕ
unfolding digits
to_string n = digits (suc n) n

abbrev pub IsDigit : ℕ → Type 0
IsDigit c = (48 ≤ c) × (c < 58)

-- Reading back: `number * 10 + (byte - 48)`.
abbrev pub read_digits : ℕ → List ℕ → ℕ
read_digits z [] = z
read_digits z (b ∷ r) = read_digits (10 * z + (b - 48)) r

read_digits-append :
    (z : ℕ) (r s : List ℕ) → read_digits z (r ++ s) ≡ read_digits (read_digits z r) s
read_digits-append z [] s = refl
read_digits-append z (b ∷ r) s = read_digits-append (10 * z + (b - 48)) r s

digits-IsDigit : (f n : ℕ) → All IsDigit (digits f n)
unfolding digits
digits-IsDigit zero n = tt
digits-IsDigit (suc f) n = elim (Bool-cases (ltb n 10)) [
  | inl e ↦ rw e (let lt = ltb→lt n 10 e in omega arith)
  | inr e ↦
      rw e (All-append IsDigit (digits f (n / 10)) _ (digits-IsDigit f (n / 10)) (omega arith))
]

read_digits-digits : (f n : ℕ) → n < f → read_digits 0 (digits f n) ≡ n
unfolding digits
read_digits-digits zero n h = elim h [ ]
read_digits-digits (suc f) n h = elim (Bool-cases (ltb n 10)) [
  | inl e ↦ rw e (omega arith)
  | inr e ↦
      rw (e, read_digits-append 0 (digits f (n / 10)) ((48 + n % 10) ∷ []))
        (omega (arith, read_digits-digits f (n / 10) (ground arith)))
]

length-digits_pos : (f n : ℕ) → 0 < length (digits (suc f) n)
unfolding digits
length-digits_pos f n = elim (Bool-cases (ltb n 10)) [
  | inl e ↦ rw e (omega arith)
  | inr e ↦ rw e (omega (arith, length-append (digits f (n / 10)) ((48 + n % 10) ∷ [])))
]

pub to_string-IsDigit : (n : ℕ) → All IsDigit (to_string n)
unfolding to_string
to_string-IsDigit n = digits-IsDigit (suc n) n

pub read_digits-to_string : (n : ℕ) → read_digits 0 (to_string n) ≡ n
unfolding to_string
read_digits-to_string n = read_digits-digits (suc n) n (omega arith)

pub length-to_string_pos : (n : ℕ) → 0 < length (to_string n)
unfolding to_string
length-to_string_pos n = length-digits_pos n n
