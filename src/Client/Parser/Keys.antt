-- ===== src/Client/Parser/Keys.antt =====
-- The keys of a parsed command stand in its arguments, in their order.
use node_redis.Base.{true, false, Option, none, some, List, [], ◌∷◌, ◌++◌, length, map}
use node_redis.Base.Decimal.{to_string}
use node_redis.Base.Text.{Text}
use node_redis.Client.Cache.Key.{KeyArgument, string}
use node_redis.Client.Parser.{
  Parser, values, prefix_key, new_parser, push, push_variadic, push_variadic_with_length,
  push_variadic_number, add_key, add_keys, push_keys, push_keys_length, Action, pushes,
  pushes_variadic, pushes_variadic_with_length, pushes_keys, pushes_keys_length, pushes_numbers,
  pushes_key, perform, perform_each,
}

-- The first list is what is left of the second when some of its members are struck out.
pub data IsWithin : List KeyArgument → List KeyArgument → Type 0 where
  done : IsWithin [] []
  struck :
      {ks args : List KeyArgument} (a : KeyArgument) → IsWithin ks args → IsWithin ks (a ∷ args)
  kept :
      {ks args : List KeyArgument} (a : KeyArgument)
      → IsWithin ks args
      → IsWithin (a ∷ ks) (a ∷ args)

push-IsWithin :
    {ks args : List KeyArgument} (more : List KeyArgument)
    → IsWithin ks args
    → IsWithin ks (args ++ more)
push-IsWithin [] done = done
push-IsWithin (a ∷ more) done = struck a (push-IsWithin more done)
push-IsWithin more (struck a w) = struck a (push-IsWithin more w)
push-IsWithin more (kept a w) = kept a (push-IsWithin more w)

add-IsWithin :
    {ks args : List KeyArgument} (k : KeyArgument)
    → IsWithin ks args
    → IsWithin (ks ++ k ∷ []) (args ++ k ∷ [])
add-IsWithin k done = kept k done
add-IsWithin k (struck a w) = struck a (add-IsWithin k w)
add-IsWithin k (kept a w) = kept a (add-IsWithin k w)

module _ (utf8 : Text → Text) where
  abbrev Sound : Parser → Type 0
  Sound p = IsWithin p.keys p.redis_args

  add_keys-Sound : (ks : List KeyArgument) (p : Parser) → Sound p → Sound (add_keys utf8 p ks)
  unfolding add_keys add_key
  add_keys-Sound [] p w = w
  add_keys-Sound (k ∷ ks) p w =
      add_keys-Sound ks (add_key utf8 p k true) (add-IsWithin (prefix_key utf8 p.key_prefix k) w)

  perform-Sound : (p : Parser) (a : Action) → Sound p → Sound (perform utf8 p a)
  unfolding perform push push_variadic push_variadic_with_length push_variadic_number push_keys
      push_keys_length add_key
  perform-Sound p (pushes args) w = push-IsWithin args w
  perform-Sound p (pushes_variadic v) w = push-IsWithin (values v) w
  perform-Sound p (pushes_variadic_with_length v) w =
      push-IsWithin (values v) (push-IsWithin (string (to_string (length (values v))) ∷ []) w)
  perform-Sound p (pushes_keys v) w = add_keys-Sound (values v) p w
  perform-Sound p (pushes_keys_length v) w =
      add_keys-Sound (values v) (push utf8 p (string (to_string (length (values v))) ∷ []))
        (push-IsWithin (string (to_string (length (values v))) ∷ []) w)
  perform-Sound p (pushes_numbers ns) w = push-IsWithin (map (λ n. string (to_string n)) ns) w
  perform-Sound p (pushes_key key true) w = add-IsWithin (prefix_key utf8 p.key_prefix key) w
  perform-Sound p (pushes_key key false) w = add-IsWithin key w

  perform_each-Sound :
      (actions : List Action) (p : Parser) → Sound p → Sound (perform_each utf8 p actions)
  unfolding perform_each
  perform_each-Sound [] p w = w
  perform_each-Sound (a ∷ actions) p w =
      perform_each-Sound actions (perform utf8 p a) (perform-Sound p a w)

  -- Whatever a command calls on a new parser, with a prefix or without, its routing keys are among the
  -- arguments that are sent, prefix included, in their order.
  pub perform_each-IsWithin :
      (prefix : Option KeyArgument) (actions : List Action)
      → let p = perform_each utf8 (new_parser utf8 prefix) actions in IsWithin p.keys p.redis_args
  unfolding new_parser
  perform_each-IsWithin none actions = perform_each-Sound actions (new_parser utf8 none) done
  perform_each-IsWithin (some prefix) actions =
      perform_each-Sound actions (new_parser utf8 (some prefix)) done
