-- ===== src/Base/Lists.antt =====
-- Lists measured and indexed by native numbers, under the library's names.
use Prim.Native.Nat.{ℕ, zero, suc, ◌+◌, ◌-◌, ◌≤◌}
use mathlib.Core.Path.{◌≡◌, refl, ap, ◌∙◌}
use mathlib.Core.Bool.{Bool}
use mathlib.Core.List.{List, [], ◌∷◌, ◌++◌, map}
use mathlib.Core.Option.{Option, none, some}
use native.Mathlib.Omega.{arith}
use node_redis.Base.Tests.{if◌then◌else◌}

module _ {ℓ} {A : Type ℓ} where
  abbrev pub length : List A → ℕ
  length [] = 0
  length (x ∷ xs) = suc (length xs)

  abbrev pub get_elem? : List A → ℕ → Option A
  get_elem? [] i = none
  get_elem? (x ∷ xs) zero = some x
  get_elem? (x ∷ xs) (suc i) = get_elem? xs i

  abbrev pub get_or : List A → ℕ → A → A
  get_or [] i d = d
  get_or (x ∷ xs) zero d = x
  get_or (x ∷ xs) (suc i) d = get_or xs i d

  abbrev pub take : ℕ → List A → List A
  take zero xs = []
  take (suc n) [] = []
  take (suc n) (x ∷ xs) = x ∷ take n xs

  abbrev pub drop : ℕ → List A → List A
  drop zero xs = xs
  drop (suc n) [] = []
  drop (suc n) (x ∷ xs) = drop n xs

  -- The library's `filter` takes a decision; the code filters by Boolean tests.
  abbrev pub filter : (A → Bool) → List A → List A
  filter p [] = []
  filter p (x ∷ xs) = if p x then x ∷ filter p xs else filter p xs

  abbrev pub All {κ} : (A → Type κ) → List A → Type κ
  All P [] = Unit {κ}
  All P (x ∷ xs) = P x × All P xs

  pub length-append : (xs ys : List A) → length (xs ++ ys) ≡ length xs + length ys
  length-append [] ys = omega arith
  length-append (x ∷ xs) ys = omega (arith, length-append xs ys)

  pub length-drop : (n : ℕ) (xs : List A) → length (drop n xs) ≡ length xs - n
  length-drop zero xs = omega arith
  length-drop (suc n) [] = omega arith
  length-drop (suc n) (x ∷ xs) = omega (arith, length-drop n xs)

  pub take-append-drop : (n : ℕ) (xs : List A) → take n xs ++ drop n xs ≡ xs
  take-append-drop zero xs = refl
  take-append-drop (suc n) [] = refl
  take-append-drop (suc n) (x ∷ xs) = ap (◌∷◌ x) (take-append-drop n xs)

  pub length-filter-le : (p : A → Bool) (xs : List A) → length (filter p xs) ≤ length xs
  length-filter-le p [] = omega arith
  length-filter-le p (x ∷ xs) = ground (arith, length-filter-le p xs)

  pub filter-append :
      (p : A → Bool) (xs ys : List A) → filter p (xs ++ ys) ≡ filter p xs ++ filter p ys
  filter-append p [] ys = refl
  filter-append p (x ∷ xs) ys = ground (arith, filter-append p xs ys)

  pub All-append {κ} : (P : A → Type κ) (xs ys : List A) → All P xs → All P ys → All P (xs ++ ys)
  All-append P [] ys hx hy = hy
  All-append P (x ∷ xs) ys hx hy = (hx.0, All-append P xs ys hx.1 hy)

pub take-append {ℓ} :
    {A : Type ℓ} (n : ℕ) (r s : List A)
    → length r ≤ n
    → take n (r ++ s) ≡ r ++ take (n - length r) s
take-append n [] s h = ap (λ (t : ℕ). take t s) (omega arith)
take-append zero (x ∷ r) s h = absurd (omega arith)
take-append {A} (suc n) (x ∷ r) s h =
    ap (◌∷◌ x) (take-append n r s (omega arith))
    ∙ ap (λ (t : ℕ). x ∷ (r ++ take {A = A} t s)) (omega arith)

pub drop-append {ℓ} :
    {A : Type ℓ} (n : ℕ) (r s : List A) → length r ≤ n → drop n (r ++ s) ≡ drop (n - length r) s
drop-append n [] s h = ap (λ (t : ℕ). drop t s) (omega arith)
drop-append zero (x ∷ r) s h = absurd (omega arith)
drop-append {A} (suc n) (x ∷ r) s h =
    drop-append n r s (omega arith) ∙ ap (λ (t : ℕ). drop {A = A} t s) (omega arith)

pub take-append_short {ℓ} :
    {A : Type ℓ} (n : ℕ) (r s : List A) → n ≤ length r → take n (r ++ s) ≡ take n r
take-append_short zero r s h = refl
take-append_short (suc n) [] s h = absurd (omega arith)
take-append_short (suc n) (x ∷ r) s h = ap (◌∷◌ x) (take-append_short n r s (omega arith))

pub drop-append_short {ℓ} :
    {A : Type ℓ} (n : ℕ) (r s : List A) → n ≤ length r → drop n (r ++ s) ≡ drop n r ++ s
drop-append_short zero r s h = refl
drop-append_short (suc n) [] s h = absurd (omega arith)
drop-append_short (suc n) (x ∷ r) s h = drop-append_short n r s (omega arith)

pub length-map {ℓ κ} :
    {A : Type ℓ} {B : Type κ} (f : A → B) (xs : List A) → length (map f xs) ≡ length xs
length-map f [] = refl
length-map f (x ∷ xs) = ap suc (length-map f xs)
