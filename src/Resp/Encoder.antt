-- ===== src/Resp/Encoder.antt =====
-- packages/client/lib/RESP/encoder.ts: a command as the strings and Buffers to write.
pub mod Wire
mod Tests
use node_redis.Base.{ℕ, zero, suc, ◌+◌, List, [], ◌∷◌, ◌++◌, length}
use node_redis.Base.Decimal.{to_string}
use node_redis.Resp.Argument.{RedisArgument, string, buffer, other}

abbrev pub crlf : List ℕ
crlf = 13 ∷ 10 ∷ []

-- The TypeError names the index of the argument.
pub data Encoded : Type 0 where
  encoded : List RedisArgument → Encoded
  type_error : (index : ℕ) → Encoded

module _ (utf8 : List ℕ → List ℕ) where
  -- `for (let i = 0; i < args.length; i++)`, on the arguments from `i` on.
  encode_loop :
      ℕ → List RedisArgument → (to_write : List RedisArgument) (strings : List ℕ) → Encoded
  encode_loop i [] to_write strings = encoded (to_write ++ string strings ∷ [])
  encode_loop i (string s ∷ args) to_write strings =
      encode_loop (i + 1) args to_write
        (strings ++ (b'$' ∷ (to_string (length (utf8 s)) ++ (crlf ++ (s ++ crlf)))))
  encode_loop i (buffer b ∷ args) to_write strings =
      encode_loop (i + 1) args
        (to_write ++ string (strings ++ (b'$' ∷ (to_string (length b) ++ crlf))) ∷ buffer b ∷ [])
        crlf
  encode_loop i (other ∷ args) to_write strings = type_error i

  unfoldable pub encode_command : List RedisArgument → Encoded
  unfolding encode_loop
  encode_command args = encode_loop 0 args [] (b'*' ∷ (to_string (length args) ++ crlf))
