-- ===== src/Commands/Set.antt =====
-- commands/SET.ts.
use node_redis.Base.{ℕ, Bool, true, if◌then◌else◌, Option, none, some, List, [], ◌∷◌, ◌++◌}
use node_redis.Base.Text.{Text}
use node_redis.Client.Cache.Key.{KeyArgument}
use node_redis.Client.Parser.{Action, pushes, pushes_key}
use node_redis.Commands.{word, option}

pub data ExpirationType : Type 0 where
  ex px exat pxat : ExpirationType

-- The string 'KEEPTTL' and the object of that type are both `keep_ttl`.
pub data Expiration : Type 0 where
  timed : ExpirationType → (value : ℕ) → Expiration
  keep_ttl : Expiration

pub data Condition : Type 0 where
  nx xx ifeq ifne ifdeq ifdne : Condition

pub record SetOptions : Type 0 where
  pub expiration : Option Expiration
  pub ex_seconds : Option ℕ
  pub px_millis : Option ℕ
  pub exat_seconds : Option ℕ
  pub pxat_millis : Option ℕ
  pub keeps_ttl : Bool
  pub condition : Option Condition
  pub match_value : Option KeyArgument
  pub only_new : Bool
  pub only_old : Bool
  pub gets : Bool

unfoldable pub expiration_name : ExpirationType → Text
expiration_name ex = b'E' ∷ b'X' ∷ []
expiration_name px = b'P' ∷ b'X' ∷ []
expiration_name exat = b'E' ∷ b'X' ∷ b'A' ∷ b'T' ∷ []
expiration_name pxat = b'P' ∷ b'X' ∷ b'A' ∷ b'T' ∷ []

unfoldable pub condition_name : Condition → Text
condition_name nx = b'N' ∷ b'X' ∷ []
condition_name xx = b'X' ∷ b'X' ∷ []
condition_name ifeq = b'I' ∷ b'F' ∷ b'E' ∷ b'Q' ∷ []
condition_name ifne = b'I' ∷ b'F' ∷ b'N' ∷ b'E' ∷ []
condition_name ifdeq = b'I' ∷ b'F' ∷ b'D' ∷ b'E' ∷ b'Q' ∷ []
condition_name ifdne = b'I' ∷ b'F' ∷ b'D' ∷ b'N' ∷ b'E' ∷ []

abbrev keep_ttl_word : Action
keep_ttl_word = word (b'K' ∷ b'E' ∷ b'E' ∷ b'P' ∷ b'T' ∷ b'T' ∷ b'L' ∷ [])

unfoldable pub expiration_actions : SetOptions → List Action
unfolding expiration_name
expiration_actions o = elim o.expiration [
  | some (timed t v) ↦ option (expiration_name t) v ∷ []
  | some keep_ttl ↦ keep_ttl_word ∷ []
  | none ↦ elim o.ex_seconds [
    | some n ↦ option (expiration_name ex) n ∷ []
    | none ↦ elim o.px_millis [
      | some n ↦ option (expiration_name px) n ∷ []
      | none ↦ elim o.exat_seconds [
        | some n ↦ option (expiration_name exat) n ∷ []
        | none ↦ elim o.pxat_millis [
          | some n ↦ option (expiration_name pxat) n ∷ []
          | none ↦ if o.keeps_ttl then keep_ttl_word ∷ [] else []
        ]
      ]
    ]
  ]
]

unfoldable pub condition_actions : SetOptions → List Action
unfolding condition_name
condition_actions o = elim o.condition [
  | some c ↦
      word (condition_name c) ∷ elim o.match_value [ none ↦ [] | some v ↦ pushes (v ∷ []) ∷ [] ]
  | none ↦
      if o.only_new
      then word (condition_name nx) ∷ []
      else if o.only_old
      then word (condition_name xx) ∷ []
      else []
]

-- `value` is a RedisArgument, or a number as its string.
unfoldable pub set_actions : (key value : KeyArgument) → Option SetOptions → List Action
unfolding expiration_actions condition_actions
set_actions key value options =
    word (b'S' ∷ b'E' ∷ b'T' ∷ []) ∷ pushes_key key true ∷ pushes (value ∷ []) ∷ elim options [
      | none ↦ []
      | some o ↦
          expiration_actions o
          ++ condition_actions o
          ++ (if o.gets then word (b'G' ∷ b'E' ∷ b'T' ∷ []) ∷ [] else [])
    ]
