-- ===== src/Client/Cache/Key.antt =====
-- cache.ts: generateCacheKey, the key that a command has in the client-side cache.
pub mod Parts
pub mod Distinct
use node_redis.Base.{
  ℕ, suc, ◌+◌, ◌≡◌, ◌≤◌, ◌<◌, refl, ap, sym, ◌∙◌, List, [], ◌∷◌, ◌++◌, map, append_assoc,
  append-nil, arith, length, length-append, All,
}
use node_redis.Base.Decimal.{to_string, to_string-IsDigit, read_digits, read_digits-to_string}
use node_redis.Base.Text.{Text}

-- A RedisArgument: a string of UTF-16 code units, or a Buffer of bytes, which latin1 maps to
-- characters one by one.
pub data KeyArgument : Type 0 where
  string buffer : Text → KeyArgument

-- `tmp.join('_')`.
unfoldable pub join : List Text → Text
join [] = []
join (s ∷ []) = s
join (s ∷ t ∷ ts) = s ++ 95 ∷ join (t ∷ ts)

-- The lengths, a Buffer's behind a 'b', are in the first half of `tmp`.
unfoldable pub length_part : KeyArgument → Text
length_part (string s) = to_string (length s)
length_part (buffer b) = 98 ∷ to_string (length b)

unfoldable pub text_part : KeyArgument → Text
text_part (string s) = s
text_part (buffer b) = b

unfoldable pub generate_cache_key : List KeyArgument → Text
unfolding join length_part text_part
generate_cache_key args = join (map length_part args ++ map text_part args)
