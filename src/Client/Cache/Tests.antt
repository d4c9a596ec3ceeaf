-- ===== src/Client/Cache/Tests.antt =====
-- A client-side cache of at most one reply, and the theorems of the other modules at it.
use node_redis.Base.{ℕ, ◌≡◌, ◌≤◌, refl, true, none, List, [], ◌∷◌, arith, inr}
use node_redis.Base.Text.{Text, contains, same}
use node_redis.Base.Map.{find, put, remove}
use node_redis.Client.Cache.{Entry, promise, Cache, new_cache, record_misses, expiry}
use node_redis.Client.Cache.Operations.{size, invalidate, invalidate_all}
use node_redis.Client.Cache.Key.{string, buffer}
use node_redis.Client.Cache.Key.Distinct.{generate_cache_key-injective}
use node_redis.Client.Cache.Calls.{
  hit, loads, begin, finish, Operation, call, loaded, store, key_changed, step, steps,
}
use node_redis.Client.Cache.Stats.{request_count, snapshot, calls_since_reset}
use node_redis.Client.Cache.Counted.{request_count-steps}
use node_redis.Client.Cache.Consistency.{IsConsistent}
use node_redis.Client.Cache.Invariant.{steps-IsConsistent, invalidate_iff}
use node_redis.Client.Cache.Bound.{size-steps-le}
use node_redis.Client.Cache.Induction.{any_clears}
use node_redis.Client.Cache.Staleness.{finish_stale}
use node_redis.Client.Cache.Loads.{begin-finish, begin-invalidate_all-finish}

abbrev key_a : Text
key_a = b'a' ∷ []

abbrev key_b : Text
key_b = b'b' ∷ []

abbrev get_a : Text
get_a = b'G' ∷ b'a' ∷ []

abbrev get_b : Text
get_b = b'G' ∷ b'b' ∷ []

-- The entry of the first call.
abbrev first : Entry ℕ
first = record { id = 0; expire_time = 60; content = promise }

-- A call that loads its reply, 7, another that takes the only place, and a third, in vain.
abbrev run : List (Operation ℕ)
run =
    call get_a (key_a ∷ []) 10 10
    ∷ loaded 3
    ∷ store get_a (key_a ∷ []) first 7 true 13 13
    ∷ call get_b (key_b ∷ []) 14 14
    ∷ call get_a (key_a ∷ []) 15 15
    ∷ []

abbrev start : Cache ℕ
start = new_cache 50 1 true true

run_lem : size (steps start run) ≡ 1
unfolding steps step new_cache size find record_misses put same remove
run_lem = refl

steps-IsConsistent_example : IsConsistent (steps start run)
steps-IsConsistent_example = steps-IsConsistent 50 1 true true run

-- The third call has an entry again, which goes when the key changes.
invalidate_iff_example : find get_a (invalidate (steps start run) key_a).entries ≡ none
unfolding steps step new_cache find record_misses put same remove contains
invalidate_iff_example =
    invalidate_iff (steps start run) key_a get_a (steps-IsConsistent 50 1 true true run)

size-steps-le_example : size (steps start run) ≤ 1
size-steps-le_example = size-steps-le 50 1 true true run (omega arith)

loading_lem : (begin (steps start []) get_a (key_a ∷ []) 10 10).1 ≡ loads first
unfolding steps begin new_cache find record_misses
loading_lem = refl

-- The entry of a value would expire at 63.
expiry_lem :
    let d = (begin (steps start []) get_a (key_a ∷ []) 10 10).0 in
    (expiry d 13 ≡ 63) × (expiry (invalidate_all d) 13 ≡ 63)
unfolding steps begin new_cache find record_misses put same remove expiry invalidate_all
expiry_lem = (refl, refl)

finish_stale_example :
    let d =
      steps
        (step
          (steps (begin (steps start []) get_a (key_a ∷ []) 10 10).0 (loaded 3 ∷ []))
          (key_changed key_a))
        [] in
    finish d get_a (key_a ∷ []) first 7 true 13 13 ≡ d
finish_stale_example =
    finish_stale 50 1 true true [] get_a (key_a ∷ []) 10 10 first loading_lem (loaded 3 ∷ [])
      (unfold any_clears in refl) key_a (unfold contains same in refl) [] 7 true 13 13

begin-finish_example :
    let d = (begin (steps start []) get_a (key_a ∷ []) 10 10).0 in
    (begin (finish d get_a (key_a ∷ []) first 7 true 13 13) get_a (key_a ∷ []) 20 20).1 ≡ hit 7
begin-finish_example =
    begin-finish 50 1 true true [] get_a (key_a ∷ []) 10 10 first 7 13 13 loading_lem
      (inr (omega arith)) (key_a ∷ []) 20 20 (inr (omega (arith, expiry_lem.0)))

begin-invalidate_all-finish_example :
    let d = invalidate_all (begin (steps start []) get_a (key_a ∷ []) 10 10).0 in
    (begin (finish d get_a (key_a ∷ []) first 7 true 13 13) get_a (key_a ∷ []) 20 20).1 ≡ hit 7
begin-invalidate_all-finish_example =
    begin-invalidate_all-finish 50 1 true true [] get_a (key_a ∷ []) 10 10 first 7 13 13 loading_lem
      (inr (omega arith)) (key_a ∷ []) 20 20 (inr (omega (arith, expiry_lem.1)))

request_count-steps_example : request_count (snapshot (steps start run)) ≡ 3
unfolding calls_since_reset
request_count-steps_example = request_count-steps 50 1 true run

generate_cache_key-injective_example :
    string key_a ∷ buffer key_b ∷ [] ≡ string key_a ∷ buffer key_b ∷ []
generate_cache_key-injective_example =
    generate_cache_key-injective (string key_a ∷ buffer key_b ∷ [])
      (string key_a ∷ buffer key_b ∷ []) refl
