-- ===== src/Resp/Encoder/Tests.antt =====
-- Commands that encoder.ts encodes, and the theorems of Wire at them.
use node_redis.Base.{
  ℕ, ◌+◌, ◌/◌, ◌%◌, ◌<◌, ◌≡◌, refl, ap, ◌∙◌, sym, List, [], ◌∷◌, ◌++◌, map, append_assoc, arith,
  ltb, lt→ltb, if◌then◌else◌,
}
use node_redis.Base.Decimal.{to_string}
use node_redis.Resp.Argument.{RedisArgument, string, buffer, IsUtf8, argument_bytes, wire}
use node_redis.Resp.Encoder.{encoded, encode_command}
use node_redis.Resp.Encoder.Wire.{multi_bulk, wire-encode_command}

-- UTF-8 of the characters below 2048.
abbrev two_bytes : ℕ → List ℕ
two_bytes c = if ltb c 128 then c ∷ [] else (192 + c / 64) ∷ (128 + c % 64) ∷ []

abbrev short_utf8 : List ℕ → List ℕ
short_utf8 [] = []
short_utf8 (c ∷ s) = two_bytes c ++ short_utf8 s

short_utf8-append : (s t : List ℕ) → short_utf8 (s ++ t) ≡ short_utf8 s ++ short_utf8 t
short_utf8-append [] t = refl
short_utf8-append (c ∷ s) t =
    ap (◌++◌ (two_bytes c)) (short_utf8-append s t)
    ∙ sym (append_assoc (two_bytes c) (short_utf8 s) (short_utf8 t))

short_utf8-ascii :
    (s t : List ℕ) (c : ℕ) → c < 128 → short_utf8 (s ++ c ∷ t) ≡ short_utf8 s ++ c ∷ short_utf8 t
short_utf8-ascii s t c h = short_utf8-append s (c ∷ t) ∙ rw (lt→ltb c 128 h)

abbrev short_utf8_laws : IsUtf8 short_utf8
short_utf8_laws = record { utf8-nil = refl; utf8-ascii = short_utf8-ascii }

-- GET of a key of one two-byte character, and of a binary key.
abbrev get_command : List RedisArgument
get_command = string (71 ∷ 69 ∷ 84 ∷ []) ∷ string (233 ∷ []) ∷ buffer (0 ∷ 255 ∷ []) ∷ []

get_command_pieces :
    encode_command short_utf8 get_command
    ≡ encoded (
        string (
          42 ∷ 51 ∷ 13 ∷ 10 ∷ 36 ∷ 51 ∷ 13 ∷ 10 ∷ 71 ∷ 69 ∷ 84 ∷ 13 ∷ 10 ∷ 36 ∷ 50 ∷ 13 ∷ 10 ∷ 233
          ∷ 13 ∷ 10 ∷ 36 ∷ 50 ∷ 13 ∷ 10 ∷ [])
        ∷ buffer (0 ∷ 255 ∷ [])
        ∷ string (13 ∷ 10 ∷ [])
        ∷ [])
unfolding encode_command to_string
get_command_pieces = refl

wire-encode_command_example :
    (out : List RedisArgument) × (encode_command short_utf8 get_command ≡ encoded out)
    × (wire short_utf8 out ≡ multi_bulk (map (argument_bytes short_utf8) get_command))
wire-encode_command_example =
    wire-encode_command short_utf8 short_utf8_laws get_command (omega arith)
