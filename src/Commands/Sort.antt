-- ===== src/Commands/Sort.antt =====
-- commands/SORT.ts and commands/LPOS.ts.
use node_redis.Base.{ℕ, Bool, true, false, if◌then◌else◌, Option, none, some, List, [], ◌∷◌, ◌++◌}
use node_redis.Base.Decimal.{to_string}
use node_redis.Client.Cache.Key.{KeyArgument, string}
use node_redis.Client.Parser.{Variadic, one, many, Action, pushes, pushes_key}
use node_redis.Commands.{word, optional}

-- `limit` is the offset and the count. An empty string for `by` or a pattern of `gets` is none.
pub record SortOptions : Type 0 where
  pub by : Option KeyArgument
  pub limit : Option (ℕ × ℕ)
  pub gets : Option Variadic
  pub descending : Option Bool
  pub alpha : Bool

unfoldable pub get_actions : List KeyArgument → List Action
get_actions [] = []
get_actions (pattern ∷ patterns) =
    pushes (string (b'G' ∷ b'E' ∷ b'T' ∷ []) ∷ pattern ∷ []) ∷ get_actions patterns

unfoldable pub sort_arguments : (key : KeyArgument) → Option SortOptions → List Action
unfolding get_actions
sort_arguments key options = pushes_key key true ∷ elim options [
  | none ↦ []
  | some o ↦
      elim o.by [ none ↦ [] | some p ↦ pushes (string (b'B' ∷ b'Y' ∷ []) ∷ p ∷ []) ∷ [] ]
      ++ elim o.limit [
        | none ↦ []
        | some (offset, count) ↦
            pushes (
              string (b'L' ∷ b'I' ∷ b'M' ∷ b'I' ∷ b'T' ∷ [])
              ∷ string (to_string offset)
              ∷ string (to_string count)
              ∷ [])
            ∷ []
      ]
      ++ elim o.gets [
        | none ↦ []
        | some (one p) ↦ get_actions (p ∷ [])
        | some (many patterns) ↦ get_actions patterns
      ]
      ++ elim o.descending [
        | none ↦ []
        | some true ↦ word (b'D' ∷ b'E' ∷ b'S' ∷ b'C' ∷ []) ∷ []
        | some false ↦ word (b'A' ∷ b'S' ∷ b'C' ∷ []) ∷ []
      ]
      ++ (if o.alpha then word (b'A' ∷ b'L' ∷ b'P' ∷ b'H' ∷ b'A' ∷ []) ∷ [] else [])
]

unfoldable pub sort_actions : (key : KeyArgument) → Option SortOptions → List Action
unfolding sort_arguments
sort_actions key options = word (b'S' ∷ b'O' ∷ b'R' ∷ b'T' ∷ []) ∷ sort_arguments key options

pub record LposOptions : Type 0 where
  pub rank : Option ℕ
  pub maxlen : Option ℕ

unfoldable pub lpos_actions : (key element : KeyArgument) → Option LposOptions → List Action
unfolding optional
lpos_actions key element options =
    word (b'L' ∷ b'P' ∷ b'O' ∷ b'S' ∷ [])
    ∷ pushes_key key true
    ∷ pushes (element ∷ [])
    ∷ elim options [
      | none ↦ []
      | some o ↦
          optional (b'R' ∷ b'A' ∷ b'N' ∷ b'K' ∷ []) o.rank
          ++ optional (b'M' ∷ b'A' ∷ b'X' ∷ b'L' ∷ b'E' ∷ b'N' ∷ []) o.maxlen
    ]
