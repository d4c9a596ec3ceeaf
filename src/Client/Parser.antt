-- ===== src/Client/Parser.antt =====
-- packages/client/lib/client/parser.ts: the arguments and the keys of a command.
-- A command calls the parser; its calls are a list of Action, in their order. `utf8` is Buffer.from of
-- a string. Numbers are natural numbers.
pub mod Keys
mod Tests
use node_redis.Base.{
  ℕ, Bool, true, false, ◌==◌, if◌then◌else◌, Option, none, some, List, [], ◌∷◌, ◌++◌, length, map,
}
use node_redis.Base.Decimal.{to_string}
use node_redis.Base.Text.{Text}
use node_redis.Client.Cache.Key.{KeyArgument, string, buffer, text_part}

-- RedisVariadicArgument.
pub data Variadic : Type 0 where
  one : KeyArgument → Variadic
  many : List KeyArgument → Variadic

pub record Parser : Type 0 where
  pub redis_args : List KeyArgument
  pub keys : List KeyArgument
  pub key_prefix : Option KeyArgument

unfoldable pub values : Variadic → List KeyArgument
values (one a) = a ∷ []
values (many as_list) = as_list

module _ (utf8 : Text → Text) where
  unfoldable pub bytes_of : KeyArgument → Text
  bytes_of (string s) = utf8 s
  bytes_of (buffer b) = b

  unfoldable pub prefix_key : (key_prefix : Option KeyArgument) → KeyArgument → KeyArgument
  unfolding bytes_of
  prefix_key none key = key
  prefix_key (some (string s)) (string t) = string (s ++ t)
  prefix_key (some (string s)) (buffer c) = buffer (utf8 s ++ c)
  prefix_key (some (buffer b)) key = buffer (b ++ bytes_of key)

  unfoldable pub prefix_keys : (key_prefix : Option KeyArgument) → Variadic → List KeyArgument
  unfolding prefix_key values
  prefix_keys prefix v = map (prefix_key prefix) (values v)

  -- An empty prefix is none.
  unfoldable pub new_parser : (key_prefix : Option KeyArgument) → Parser
  unfolding text_part
  new_parser none = record { redis_args = []; keys = []; key_prefix = none }
  new_parser (some prefix) = record {
    redis_args = [];
    keys = [];
    key_prefix = if length (text_part prefix) == 0 then none else some prefix;
  }

  unfoldable pub first_key : Parser → Option KeyArgument
  first_key p = elim p.keys [ [] ↦ none | k ∷ ks ↦ some k ]

  unfoldable pub push : Parser → List KeyArgument → Parser
  push p args = record p { redis_args = p.redis_args ++ args }

  unfoldable pub push_variadic : Parser → Variadic → Parser
  unfolding push values
  push_variadic p v = push p (values v)

  unfoldable pub push_variadic_with_length : Parser → Variadic → Parser
  unfolding push push_variadic values
  push_variadic_with_length p v =
      push_variadic (push p (string (to_string (length (values v))) ∷ [])) v

  unfoldable pub push_variadic_number : Parser → List ℕ → Parser
  unfolding push
  push_variadic_number p ns = push p (map (λ n. string (to_string n)) ns)

  unfoldable pub add_key : Parser → KeyArgument → (apply_prefix : Bool) → Parser
  unfolding prefix_key
  add_key p key apply_prefix =
      let final_key = if apply_prefix then prefix_key p.key_prefix key else key in
      record p { keys = p.keys ++ final_key ∷ []; redis_args = p.redis_args ++ final_key ∷ [] }

  unfoldable pub add_keys : Parser → List KeyArgument → Parser
  unfolding add_key
  add_keys p [] = p
  add_keys p (k ∷ ks) = add_keys (add_key p k true) ks

  unfoldable pub push_keys : Parser → Variadic → Parser
  unfolding add_keys values
  push_keys p v = add_keys p (values v)

  unfoldable pub push_keys_length : Parser → Variadic → Parser
  unfolding push push_keys values
  push_keys_length p v = push_keys (push p (string (to_string (length (values v))) ∷ [])) v

  unfoldable pub mark_routing_key : Parser → KeyArgument → Parser
  mark_routing_key p key = record p { keys = p.keys ++ key ∷ [] }

-- The calls of a command; not markRoutingKey, which is for commands that are not parsed.
pub data Action : Type 0 where
  pushes : List KeyArgument → Action
  pushes_variadic pushes_variadic_with_length pushes_keys pushes_keys_length : Variadic → Action
  pushes_numbers : List ℕ → Action
  pushes_key : KeyArgument → (apply_prefix : Bool) → Action

module _ (utf8 : Text → Text) where
  unfoldable pub perform : Parser → Action → Parser
  unfolding push push_variadic push_variadic_with_length push_keys push_keys_length
      push_variadic_number add_key
  perform p (pushes args) = push utf8 p args
  perform p (pushes_variadic v) = push_variadic utf8 p v
  perform p (pushes_variadic_with_length v) = push_variadic_with_length utf8 p v
  perform p (pushes_keys v) = push_keys utf8 p v
  perform p (pushes_keys_length v) = push_keys_length utf8 p v
  perform p (pushes_numbers ns) = push_variadic_number utf8 p ns
  perform p (pushes_key key apply_prefix) = add_key utf8 p key apply_prefix

  unfoldable pub perform_each : Parser → List Action → Parser
  unfolding perform
  perform_each p [] = p
  perform_each p (a ∷ actions) = perform_each (perform p a) actions
