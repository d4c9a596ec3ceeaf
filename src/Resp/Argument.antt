-- ===== src/Resp/Argument.antt =====
-- The arguments of a command: `RedisArgument` of packages/client/lib/RESP/types.ts.
use node_redis.Base.{ℕ, ◌<◌, ◌≡◌, List, [], ◌∷◌, ◌++◌}

-- A string is its UTF-16 code units, a Buffer its bytes; `other` is any other JavaScript value.
pub data RedisArgument : Type 0 where
  string : List ℕ → RedisArgument
  buffer : List ℕ → RedisArgument
  other : RedisArgument

-- What is relied on of the UTF-8 encoding of strings in Node.js, which is not part of the program:
-- a character below 128 is one byte and separates what stands around it.
pub record IsUtf8 (utf8 : List ℕ → List ℕ) : Type 0 where
  pub utf8-nil : utf8 [] ≡ []
  pub utf8-ascii : (s t : List ℕ) (c : ℕ) → c < 128 → utf8 (s ++ c ∷ t) ≡ utf8 s ++ c ∷ utf8 t

-- The bytes that a socket sends for an argument.
unfoldable pub argument_bytes : (List ℕ → List ℕ) → RedisArgument → List ℕ
argument_bytes utf8 (string s) = utf8 s
argument_bytes utf8 (buffer b) = b
argument_bytes utf8 other = []

unfoldable pub wire : (List ℕ → List ℕ) → List RedisArgument → List ℕ
unfolding argument_bytes
wire utf8 [] = []
wire utf8 (a ∷ r) = argument_bytes utf8 a ++ wire utf8 r
