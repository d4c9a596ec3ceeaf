-- ===== src/Utils/Slot.antt =====
-- packages/client/lib/utils/calculate-slot.ts: the cluster slot of a key.
-- Bytes are numbers. The code's `resultHash << 8`, of a 32-bit number, is kept to its low 16 bits,
-- since the code reads no others: the table is indexed by `(char ^ (hash >> 8)) & 0xff`, of bits 8 to
-- 15, and the result is `& 0x3fff`.
pub mod Tag
mod Tests
use node_redis.Base.{
  ℕ, ◌+◌, ◌*◌, ◌/◌, ◌%◌, bit_and, bit_xor, Bool, true, false, not, ◌&&◌, ◌==◌, ltb, if◌then◌else◌,
  Option, none, some, List, [], ◌∷◌, ◌++◌, get_or,
}
use node_redis.Base.Int.{ℤ, pos, negsuc}

abbrev pub lookup : List ℕ
lookup =
    0 ∷ 4129 ∷ 8258 ∷ 12387 ∷ 16516 ∷ 20645 ∷ 24774 ∷ 28903 ∷ 33032 ∷ 37161 ∷ 41290 ∷ 45419 ∷ 49548
    ∷ 53677 ∷ 57806 ∷ 61935 ∷ 4657 ∷ 528 ∷ 12915 ∷ 8786 ∷ 21173 ∷ 17044 ∷ 29431 ∷ 25302 ∷ 37689
    ∷ 33560 ∷ 45947 ∷ 41818 ∷ 54205 ∷ 50076 ∷ 62463 ∷ 58334 ∷ 9314 ∷ 13379 ∷ 1056 ∷ 5121 ∷ 25830
    ∷ 29895 ∷ 17572 ∷ 21637 ∷ 42346 ∷ 46411 ∷ 34088 ∷ 38153 ∷ 58862 ∷ 62927 ∷ 50604 ∷ 54669 ∷ 13907
    ∷ 9842 ∷ 5649 ∷ 1584 ∷ 30423 ∷ 26358 ∷ 22165 ∷ 18100 ∷ 46939 ∷ 42874 ∷ 38681 ∷ 34616 ∷ 63455
    ∷ 59390 ∷ 55197 ∷ 51132 ∷ 18628 ∷ 22757 ∷ 26758 ∷ 30887 ∷ 2112 ∷ 6241 ∷ 10242 ∷ 14371 ∷ 51660
    ∷ 55789 ∷ 59790 ∷ 63919 ∷ 35144 ∷ 39273 ∷ 43274 ∷ 47403 ∷ 23285 ∷ 19156 ∷ 31415 ∷ 27286 ∷ 6769
    ∷ 2640 ∷ 14899 ∷ 10770 ∷ 56317 ∷ 52188 ∷ 64447 ∷ 60318 ∷ 39801 ∷ 35672 ∷ 47931 ∷ 43802 ∷ 27814
    ∷ 31879 ∷ 19684 ∷ 23749 ∷ 11298 ∷ 15363 ∷ 3168 ∷ 7233 ∷ 60846 ∷ 64911 ∷ 52716 ∷ 56781 ∷ 44330
    ∷ 48395 ∷ 36200 ∷ 40265 ∷ 32407 ∷ 28342 ∷ 24277 ∷ 20212 ∷ 15891 ∷ 11826 ∷ 7761 ∷ 3696 ∷ 65439
    ∷ 61374 ∷ 57309 ∷ 53244 ∷ 48923 ∷ 44858 ∷ 40793 ∷ 36728 ∷ 37256 ∷ 33193 ∷ 45514 ∷ 41451 ∷ 53516
    ∷ 49453 ∷ 61774 ∷ 57711 ∷ 4224 ∷ 161 ∷ 12482 ∷ 8419 ∷ 20484 ∷ 16421 ∷ 28742 ∷ 24679 ∷ 33721
    ∷ 37784 ∷ 41979 ∷ 46042 ∷ 49981 ∷ 54044 ∷ 58239 ∷ 62302 ∷ 689 ∷ 4752 ∷ 8947 ∷ 13010 ∷ 16949
    ∷ 21012 ∷ 25207 ∷ 29270 ∷ 46570 ∷ 42443 ∷ 38312 ∷ 34185 ∷ 62830 ∷ 58703 ∷ 54572 ∷ 50445 ∷ 13538
    ∷ 9411 ∷ 5280 ∷ 1153 ∷ 29798 ∷ 25671 ∷ 21540 ∷ 17413 ∷ 42971 ∷ 47098 ∷ 34713 ∷ 38840 ∷ 59231
    ∷ 63358 ∷ 50973 ∷ 55100 ∷ 9939 ∷ 14066 ∷ 1681 ∷ 5808 ∷ 26199 ∷ 30326 ∷ 17941 ∷ 22068 ∷ 55628
    ∷ 51565 ∷ 63758 ∷ 59695 ∷ 39368 ∷ 35305 ∷ 47498 ∷ 43435 ∷ 22596 ∷ 18533 ∷ 30726 ∷ 26663 ∷ 6336
    ∷ 2273 ∷ 14466 ∷ 10403 ∷ 52093 ∷ 56156 ∷ 60223 ∷ 64286 ∷ 35833 ∷ 39896 ∷ 43963 ∷ 48026 ∷ 19061
    ∷ 23124 ∷ 27191 ∷ 31254 ∷ 2801 ∷ 6864 ∷ 10931 ∷ 14994 ∷ 64814 ∷ 60687 ∷ 56684 ∷ 52557 ∷ 48554
    ∷ 44427 ∷ 40424 ∷ 36297 ∷ 31782 ∷ 27655 ∷ 23652 ∷ 19525 ∷ 15522 ∷ 11395 ∷ 7392 ∷ 3265 ∷ 61215
    ∷ 65342 ∷ 53085 ∷ 57212 ∷ 44955 ∷ 49082 ∷ 36825 ∷ 40952 ∷ 28183 ∷ 32310 ∷ 20053 ∷ 24180 ∷ 11923
    ∷ 16050 ∷ 3793 ∷ 7920 ∷ []

-- The UTF-8 bytes of a string's UTF-16 code units. The bits that `|` sets are clear, so it adds.
unfoldable pub three_bytes : ℕ → List ℕ
three_bytes c = (224 + c / 4096) ∷ (128 + c / 64 % 64) ∷ (128 + c % 64) ∷ []

unfoldable pub four_bytes : ℕ → List ℕ
four_bytes c =
    (240 + c / 262144) ∷ (128 + c / 4096 % 64) ∷ (128 + c / 64 % 64) ∷ (128 + c % 64) ∷ []

-- `(char & 0xfc00) === 0xd800` and `=== 0xdc00`, of a 16-bit code unit.
unfoldable pub is_high : ℕ → Bool
is_high c = c / 1024 == 54

unfoldable pub is_low : ℕ → Bool
is_low c = c / 1024 == 55

unfoldable pub to_utf8_array : List ℕ → List ℕ
unfolding three_bytes four_bytes is_high is_low
to_utf8_array [] = []
to_utf8_array (c ∷ []) =
    if ltb c 128
    then c ∷ []
    else (if ltb c 2048 then (192 + c / 64) ∷ (128 + c % 64) ∷ [] else three_bytes c)
to_utf8_array (c ∷ d ∷ cs) =
    let rest = to_utf8_array (d ∷ cs) in
    let after = to_utf8_array cs in
    if ltb c 128
    then c ∷ rest
    else (if ltb c 2048
        then (192 + c / 64) ∷ (128 + c % 64) ∷ rest
        else (if is_high c && is_low d
            then four_bytes (65536 + c % 1024 * 1024 + d % 1024) ++ after
            else three_bytes c ++ rest))

-- `lookup[(char ^ (hash >> 8)) & 0xff] ^ (hash << 8)`, to 16 bits.
unfoldable pub crc_step : ℕ → ℕ → ℕ
crc_step hash char =
    bit_xor (get_or lookup (bit_and (bit_xor char (hash / 256)) 255) 0) (hash * 256 % 65536)

-- `hash & 0x3fff`.
unfoldable pub slot_of : ℕ → ℕ
slot_of hash = hash % 16384

-- What the loop has seen of a tag: `start` of none is -1, and `open` is `i - 1 === start`.
pub data Scan : Type 0 where
  outside : Scan
  inside : (empty : Bool) (result_hash : ℕ) → Scan
  done : Scan

-- `while (i < len)`, on the bytes from `i` on.
unfoldable pub scan : Scan → (result : ℕ) → List ℕ → ℕ
unfolding crc_step slot_of
scan s result [] = slot_of result
scan outside result (c ∷ cs) =
    let opened = scan (inside true 0) (crc_step result c) cs in
    let plain = scan outside (crc_step result c) cs in if c == 123 then opened else plain
scan (inside empty tag) result (c ∷ cs) =
    let more = scan (inside false (crc_step tag c)) (crc_step result c) cs in
    let whole = scan done (crc_step result c) cs in
    if c == 125 then (if empty then whole else slot_of tag) else more
scan done result (c ∷ cs) = scan done (crc_step result c) cs

-- A key that is a string, or a Buffer.
pub data Key : Type 0 where
  string : (code_units : List ℕ) → Key
  buffer : (bytes : List ℕ) → Key

unfoldable pub key_bytes : Key → List ℕ
unfolding to_utf8_array
key_bytes (string s) = to_utf8_array s
key_bytes (buffer b) = b

unfoldable pub generate : Key → ℕ
unfolding key_bytes scan
generate key = scan outside 0 (key_bytes key)

-- `generate(values[i++]) !== base` for some of the others, which is -1.
unfoldable pub same_slot : ℕ → List Key → ℤ
unfolding generate
same_slot base [] = pos base
same_slot base (k ∷ ks) =
    let rest = same_slot base ks in if generate k == base then rest else negsuc 0

unfoldable pub generate_multi : Key → List Key → ℤ
unfolding same_slot
generate_multi k ks = same_slot (generate k) ks
