-- ===== src/Commands/Scan.antt =====
-- commands/SCAN.ts.
use node_redis.Base.{ℕ, ◌==◌, if◌then◌else◌, Option, none, some, List, [], ◌∷◌, ◌++◌}
use node_redis.Base.Text.{Text}
use node_redis.Client.Cache.Key.{KeyArgument, string}
use node_redis.Client.Parser.{Action, pushes}
use node_redis.Commands.{word, option}

-- An empty string for `type` is none.
pub record ScanOptions : Type 0 where
  pub match : Option Text
  pub count : Option ℕ
  pub type : Option KeyArgument

-- A count of 0 is not sent.
unfoldable pub scan_arguments : (cursor : KeyArgument) → Option ScanOptions → List Action
scan_arguments cursor options = pushes (cursor ∷ []) ∷ elim options [
  | none ↦ []
  | some o ↦
      elim o.match [
        | none ↦ []
        | some p ↦ pushes (string (b'M' ∷ b'A' ∷ b'T' ∷ b'C' ∷ b'H' ∷ []) ∷ string p ∷ []) ∷ []
      ]
      ++ elim o.count [
        | none ↦ []
        | some n ↦ if n == 0 then [] else option (b'C' ∷ b'O' ∷ b'U' ∷ b'N' ∷ b'T' ∷ []) n ∷ []
      ]
]

unfoldable pub scan_actions : (cursor : KeyArgument) → Option ScanOptions → List Action
unfolding scan_arguments
scan_actions cursor options =
    word (b'S' ∷ b'C' ∷ b'A' ∷ b'N' ∷ []) ∷ scan_arguments cursor options ++ elim options [
      | none ↦ []
      | some o ↦ elim o.type [
        | none ↦ []
        | some t ↦ pushes (string (b'T' ∷ b'Y' ∷ b'P' ∷ b'E' ∷ []) ∷ t ∷ []) ∷ []
      ]
    ]
