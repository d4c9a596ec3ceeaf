-- ===== src/Base/Map.antt =====
-- A Map with strings as keys: the entries in the order of insertion. `put` is `set`, which keeps the
-- place of a key that is there; `remove` is `delete`.
use Prim.Native.Nat.{suc, ◌≤◌}
use mathlib.Core.Path.{◌≡◌, refl}
use mathlib.Core.Bool.{Bool, false, ◌||◌}
use mathlib.Core.Option.{Option, none, some}
use mathlib.Core.List.{List, [], ◌∷◌}
use native.Mathlib.Omega.{arith}
use node_redis.Base.Tests.{if◌then◌else◌}
use node_redis.Base.Lists.{length}
use node_redis.Base.Text.{Text, same, same_iff}

module _ {ℓ} {V : Type ℓ} where
  unfoldable pub find : Text → List (Text × V) → Option V
  find k [] = none
  find k ((j, v) ∷ m) = if same j k then some v else find k m

  unfoldable pub has : Text → List (Text × V) → Bool
  has k [] = false
  has k ((j, v) ∷ m) = same j k || has k m

  unfoldable pub put : Text → V → List (Text × V) → List (Text × V)
  put k v [] = (k, v) ∷ []
  put k v ((j, w) ∷ m) = if same j k then (j, v) ∷ m else (j, w) ∷ put k v m

  unfoldable pub remove : Text → List (Text × V) → List (Text × V)
  remove k [] = []
  remove k ((j, w) ∷ m) = if same j k then remove k m else (j, w) ∷ remove k m

  pub find-put :
      (k j : Text) (v : V) (m : List (Text × V))
      → find j (put k v m) ≡ (if same k j then some v else find j m)
  unfolding find put
  find-put k j v [] = refl
  find-put k j v ((i, w) ∷ m) =
      ground (arith, find-put k j v m, same_iff k j, same_iff i k, same_iff i j)

  pub find-remove :
      (k j : Text) (m : List (Text × V))
      → find j (remove k m) ≡ (if same k j then none else find j m)
  unfolding find remove
  find-remove k j [] = ground arith
  find-remove k j ((i, w) ∷ m) =
      ground (arith, find-remove k j m, same_iff k j, same_iff i k, same_iff i j)

  pub length-remove-le : (k : Text) (m : List (Text × V)) → length (remove k m) ≤ length m
  unfolding remove
  length-remove-le k [] = omega arith
  length-remove-le k ((i, w) ∷ m) = ground (arith, length-remove-le k m)

  pub length-remove-lt :
      (k : Text) (v : V) (m : List (Text × V))
      → find k m ≡ some v
      → suc (length (remove k m)) ≤ length m
  unfolding find remove
  length-remove-lt k v [] h = absurd (cc)
  length-remove-lt k v ((i, w) ∷ m) h = ground (arith, length-remove-lt k v m, length-remove-le k m)

  pub length-put_replace :
      (k : Text) (v w : V) (m : List (Text × V)) → find k m ≡ some w → length (put k v m) ≡ length m
  unfolding find put
  length-put_replace k v w [] h = absurd (cc)
  length-put_replace k v w ((i, u) ∷ m) h = ground (arith, length-put_replace k v w m)

  pub length-put-le : (k : Text) (v : V) (m : List (Text × V)) → length (put k v m) ≤ suc (length m)
  unfolding put
  length-put-le k v [] = omega arith
  length-put-le k v ((i, u) ∷ m) = ground (arith, length-put-le k v m)
