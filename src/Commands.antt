-- ===== src/Commands.antt =====
-- packages/client/lib/commands: what some commands push on the parser, as the list of their calls.
-- Numbers are natural numbers.
pub mod Set
pub mod Sort
pub mod Scan
use node_redis.Base.{ℕ, Option, none, some, List, [], ◌∷◌}
use node_redis.Base.Decimal.{to_string}
use node_redis.Base.Text.{Text}
use node_redis.Client.Cache.Key.{KeyArgument, string}
use node_redis.Client.Parser.{Action, pushes}

-- `parser.push` of words, and of a word with a number, if there is one.
abbrev pub word : Text → Action
word s = pushes (string s ∷ [])

abbrev pub option : Text → ℕ → Action
option s n = pushes (string s ∷ string (to_string n) ∷ [])

unfoldable pub optional : Text → Option ℕ → List Action
optional s none = []
optional s (some n) = option s n ∷ []
