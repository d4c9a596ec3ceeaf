-- ===== src/Utils/Slot/Tests.antt =====
-- The slots that calculate-slot.spec.ts expects, and the theorems of Tag at such keys.
use node_redis.Base.{
  ℕ, suc, zero, ◌+◌, ◌*◌, ◌%◌, ◌≡◌, refl, bit_xor, ltb, if◌then◌else◌, List, [], ◌∷◌, map,
}
use node_redis.Utils.Slot.{lookup, Key, string, buffer, key_bytes, slot_of, generate}
use node_redis.Utils.Slot.Tag.{crc, hash_tag, generate-hash_tag}

-- a{}b}c, x{}}y, {}{a}, a{b{c}d, foo
abbrev empty_tag : Key
empty_tag = string (b'a' ∷ b'{' ∷ b'}' ∷ b'b' ∷ b'}' ∷ b'c' ∷ [])

abbrev second_tag : Key
second_tag = string (b'{' ∷ b'}' ∷ b'{' ∷ b'a' ∷ b'}' ∷ [])

abbrev nested_tag : Key
nested_tag = buffer (b'a' ∷ b'{' ∷ b'b' ∷ b'{' ∷ b'c' ∷ b'}' ∷ b'd' ∷ [])

abbrev foo : Key
foo = buffer (b'f' ∷ b'o' ∷ b'o' ∷ [])

slots :
    map generate (empty_tag ∷ second_tag ∷ nested_tag ∷ foo ∷ [])
    ≡ 2041 ∷ 13650 ∷ 15725 ∷ 12182 ∷ []
unfolding generate
slots = refl

-- The table is the division by the polynomial 0x1021, a bit at a time.
abbrev crc_bits : ℕ → ℕ → ℕ
crc_bits zero h = h
crc_bits (suc n) h = crc_bits n (if ltb h 32768 then h * 2 else bit_xor (h * 2 % 65536) 4129)

abbrev table : ℕ → ℕ → List ℕ
table zero b = []
table (suc n) b = crc_bits 8 (b * 256) ∷ table n (b + 1)

table_lem : table 256 0 ≡ lookup
table_lem = refl

generate-hash_tag_example : generate empty_tag ≡ slot_of (crc 0 (hash_tag (key_bytes empty_tag)))
generate-hash_tag_example = generate-hash_tag empty_tag
