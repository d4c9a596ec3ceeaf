-- ===== src/Client/Parser/Tests.antt =====
-- A SET parsed with a prefix, and the theorems of the other modules at it.
use node_redis.Base.{true, false, ◌≡◌, refl, none, some, [], ◌∷◌}
use node_redis.Base.Text.{Text}
use node_redis.Client.Cache.Key.{KeyArgument, string, buffer}
use node_redis.Client.Parser.{Parser, new_parser, perform_each, first_key, add_key}
use node_redis.Client.Parser.Keys.{IsWithin, perform_each-IsWithin}
use node_redis.Commands.Set.{timed, ex, SetOptions, set_actions}

-- For ASCII characters.
abbrev ascii : Text → Text
ascii s = s

abbrev tenant : KeyArgument
tenant = buffer (b't' ∷ [])

abbrev for_a_minute : SetOptions
for_a_minute = record {
  expiration = some (timed ex 60);
  ex_seconds = none;
  px_millis = none;
  exat_seconds = none;
  pxat_millis = none;
  keeps_ttl = false;
  condition = none;
  match_value = none;
  only_new = true;
  only_old = false;
  gets = false;
}

abbrev parsed : Parser
parsed =
    perform_each ascii (new_parser ascii (some tenant))
      (set_actions (string (b'k' ∷ [])) (string (b'v' ∷ [])) (some for_a_minute))

first_key_lem : first_key ascii parsed ≡ some (buffer (b't' ∷ b'k' ∷ []))
unfolding first_key perform_each new_parser set_actions add_key
first_key_lem = refl

perform_each-IsWithin_example : IsWithin parsed.keys parsed.redis_args
perform_each-IsWithin_example =
    perform_each-IsWithin ascii (some tenant)
      (set_actions (string (b'k' ∷ [])) (string (b'v' ∷ [])) (some for_a_minute))
