-- ===== src/Base/Sets.antt =====
-- Sets of numbers, that stand for objects, in the order of insertion: `has`, `add` and `delete`.
use Prim.Native.Nat.{ℕ}
use mathlib.Core.Path.{◌≡◌, refl}
use mathlib.Core.Bool.{Bool, false, ◌&&◌, ◌||◌, not}
use mathlib.Core.List.{List, [], ◌∷◌, ◌++◌}
use native.Mathlib.Omega.{arith}
use node_redis.Base.Tests.{◌==◌, if◌then◌else◌}

unfoldable pub includes : ℕ → List ℕ → Bool
includes i [] = false
includes i (j ∷ js) = (j == i) || includes i js

unfoldable pub add : ℕ → List ℕ → List ℕ
unfolding includes
add i js = if includes i js then js else js ++ i ∷ []

unfoldable pub discard : ℕ → List ℕ → List ℕ
discard i [] = []
discard i (j ∷ js) = if j == i then discard i js else j ∷ discard i js

pub includes-append :
    (i : ℕ) (js ks : List ℕ) → includes i (js ++ ks) ≡ (includes i js || includes i ks)
unfolding includes
includes-append i [] ks = refl
includes-append i (j ∷ js) ks = ground (arith, includes-append i js ks)

pub includes-add : (i j : ℕ) (js : List ℕ) → includes i (add j js) ≡ ((j == i) || includes i js)
unfolding add includes
includes-add i j js = ground (arith, includes-append i js (j ∷ []))

pub includes-discard :
    (i j : ℕ) (js : List ℕ) → includes i (discard j js) ≡ (not (j == i) && includes i js)
unfolding discard includes
includes-discard i j [] = ground arith
includes-discard i j (k ∷ js) = ground (arith, includes-discard i j js)
