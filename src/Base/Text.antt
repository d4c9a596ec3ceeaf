-- ===== src/Base/Text.antt =====
-- Strings as lists of numbers (code units or bytes), with their equality as a test.
use Prim.Native.Nat.{ℕ}
use mathlib.Core.Path.{◌≡◌, refl}
use mathlib.Core.Logic.{◌↔◌}
use mathlib.Core.Bool.{Bool, true, false, ◌&&◌, ◌||◌, not}
use mathlib.Core.List.{List, [], ◌∷◌, ◌++◌}
use native.Mathlib.Omega.{arith}
use node_redis.Base.Tests.{◌==◌, if◌then◌else◌, ==_iff}

abbrev pub Text : Type 0
Text = List ℕ

unfoldable pub same : Text → Text → Bool
same [] [] = true
same (x ∷ s) (y ∷ t) = (x == y) && same s t
same _ _ = false

pub same_iff : (s t : Text) → (same s t ≡ true) ↔ (s ≡ t)
unfolding same
same_iff [] [] = (λ h. refl, λ h. refl)
same_iff [] (y ∷ t) = (λ h. cc, λ h. cc)
same_iff (x ∷ s) [] = (λ h. cc, λ h. cc)
same_iff (x ∷ s) (y ∷ t) =
    (λ h. ground (arith, ==_iff x y, same_iff s t), λ h. ground (arith, ==_iff x y, same_iff s t))

pub same_refl : (s : Text) → same s s ≡ true
same_refl s = (same_iff s s).1 refl

-- A Set of strings, in the order of insertion: `has`, `add` and `delete`.
unfoldable pub contains : Text → List Text → Bool
contains s [] = false
contains s (t ∷ ts) = same t s || contains s ts

unfoldable pub insert : Text → List Text → List Text
unfolding contains
insert s ts = if contains s ts then ts else ts ++ s ∷ []

unfoldable pub without : Text → List Text → List Text
without s [] = []
without s (t ∷ ts) = if same t s then without s ts else t ∷ without s ts

pub contains-append :
    (s : Text) (ts us : List Text) → contains s (ts ++ us) ≡ (contains s ts || contains s us)
unfolding contains
contains-append s [] us = refl
contains-append s (t ∷ ts) us = ground (arith, contains-append s ts us)

pub contains-insert :
    (s t : Text) (ts : List Text) → contains s (insert t ts) ≡ (same t s || contains s ts)
unfolding insert
contains-insert s t ts = ground (arith, contains-append s ts (t ∷ []), same_iff t s)

pub contains-without :
    (s t : Text) (ts : List Text) → contains s (without t ts) ≡ (not (same t s) && contains s ts)
unfolding contains without
contains-without s t [] = ground arith
contains-without s t (u ∷ ts) =
    ground (arith, contains-without s t ts, same_iff t s, same_iff u t, same_iff u s)
