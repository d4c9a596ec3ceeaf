-- ===== src/Resp/Decode.antt =====
-- The methods `#decodeX` of packages/client/lib/RESP/decoder.ts, each with its `#continueDecodeX`.
use node_redis.Base.{
  ℕ, zero, suc, ◌+◌, ◌*◌, ◌^◌, Bool, true, false, List, [], ltb, ◌==◌, if◌then◌else◌,
}
use node_redis.Base.Int.{ℤ, pos, negsuc, neg}
use node_redis.Resp.RespTypes
use node_redis.Resp.Reply.{
  Reply, Items, Pairs, StringType, as_string, as_buffer, as_verbatim, MapType, as_map, as_array,
  as_object, TypeMapping, snoc, snoc_pair, nil, end,
}
use node_redis.Resp.Program.{
  Program, ret, fail, await, peek, advance, unsigned_number, until_cr, with_length, nested, map_key,
  unknown_type, invalid_array_length, threw, moved_back, ◌>>=◌, ◌>>◌,
}

abbrev pub cr : ℕ
cr = 13

abbrev pub plus : ℕ
plus = 43

abbrev pub minus : ℕ
minus = 45

-- `type === Buffer ? slice : slice.toString()`
as_type : StringType → List ℕ → Reply
as_type as_buffer bytes = Reply.buffer bytes
as_type _ bytes = Reply.text bytes

decode_null : Program Reply
decode_null = do advance 2; ret Reply.null

decode_boolean : Program Reply
decode_boolean = do b ← peek; advance 3; ret (Reply.boolean (b == 116))

decode_simple_string : StringType → Program Reply
unfolding as_type
decode_simple_string type = do bytes ← until_cr []; ret (as_type type bytes)

-- The sign, and the digits behind it: `#decodeNumber` and `#decodeBigNumber` from their `switch`.
signed_number : Program ℤ
signed_number = do
  b ← peek
  if b == plus
      then (do advance 1; await; unsigned_number (pos 0))
      else if b == minus
      then (do advance 1; await; n ← unsigned_number (pos 0); ret (neg n))
      else unsigned_number (pos 0)

decode_number : Bool → Program Reply
unfolding signed_number decode_simple_string
decode_number true = decode_simple_string as_string
decode_number false = do n ← signed_number; ret (Reply.number n)

decode_big_number : Bool → Program Reply
unfolding signed_number decode_simple_string
decode_big_number true = decode_simple_string as_string
decode_big_number false = do n ← signed_number; ret (Reply.big_number n)

-- The token; its conversion to a floating-point number is not modelled.
decode_double : Bool → Program Reply
unfolding decode_simple_string
decode_double true = decode_simple_string as_string
decode_double false = do token ← until_cr []; ret (Reply.double token)

-- A length as `#decodeStringWithLength` takes it.
string_length : ℤ → Program ℕ
string_length (pos n) = ret n
string_length (negsuc n) = fail moved_back

decode_blob_string_with_length : ℤ → StringType → Program Reply
unfolding string_length as_type
decode_blob_string_with_length length type = do
  n ← string_length length
  bytes ← with_length n [] 2
  ret (as_type type bytes)

decode_blob_string : StringType → Program Reply
unfolding decode_blob_string_with_length
decode_blob_string type = do
  b ← peek
  if b == minus
      then (do advance 4; ret Reply.null)
      else (do length ← unsigned_number (pos 0); await; decode_blob_string_with_length length type)

-- `length - 4`
minus_four : ℤ → ℤ
minus_four (pos (suc (suc (suc (suc n))))) = pos n
minus_four (pos zero) = negsuc 3
minus_four (pos (suc zero)) = negsuc 2
minus_four (pos (suc (suc zero))) = negsuc 1
minus_four (pos (suc (suc (suc zero)))) = negsuc 0
minus_four (negsuc n) = negsuc (n + 4)

-- The format, which is three bytes and a colon, and the string behind it.
decode_verbatim_string_format : ℤ → Program Reply
unfolding string_length
decode_verbatim_string_format string_length' = do
  await
  format ← with_length 3 [] 1
  n ← string_length string_length'
  string ← with_length n [] 2
  ret (Reply.verbatim format string)

decode_verbatim_string_with_length : ℤ → StringType → Program Reply
unfolding minus_four decode_verbatim_string_format decode_blob_string_with_length
decode_verbatim_string_with_length length as_verbatim =
    decode_verbatim_string_format (minus_four length)
decode_verbatim_string_with_length length type = do
  advance 4
  await
  decode_blob_string_with_length (minus_four length) type

decode_verbatim_string : StringType → Program Reply
unfolding decode_verbatim_string_with_length
decode_verbatim_string type = do
  length ← unsigned_number (pos 0)
  decode_verbatim_string_with_length length type

decode_simple_error : Program Reply
decode_simple_error = do bytes ← until_cr []; ret (Reply.simple_error bytes)

-- The error wraps the string, or the null of a length of -1.
decode_blob_error : Program Reply
unfolding decode_blob_string
decode_blob_error = do string ← decode_blob_string as_string; ret (Reply.blob_error string)

-- `new Array(length)`
array_length : ℤ → Program ℕ
array_length (pos n) = if ltb n (2 ^ 32) then ret n else fail (threw invalid_array_length)
array_length (negsuc n) = fail (threw invalid_array_length)

-- `while (remaining > 0)`
rounds : ℤ → ℕ
rounds (pos n) = n
rounds (negsuc n) = 0

-- `n` items are still to come.
decode_array_items : TypeMapping → (n : ℕ) → Items → Program Reply
decode_array_items m zero filled = ret (Reply.array filled)
decode_array_items m (suc n) filled = do
  await
  item ← nested m
  decode_array_items m n (snoc filled item)

decode_array : TypeMapping → Program Reply
unfolding array_length decode_array_items
decode_array m = do
  b ← peek
  if b == minus
      then (do advance 4; ret Reply.null)
      else do length ← unsigned_number (pos 0); n ← array_length length; decode_array_items m n nil

decode_set_as_set : TypeMapping → (n : ℕ) → Items → Program Reply
decode_set_as_set m zero added = ret (Reply.set added)
decode_set_as_set m (suc n) added = do
  await
  item ← nested m
  decode_set_as_set m n (snoc added item)

decode_set_items : ℤ → TypeMapping → Program Reply
unfolding rounds array_length decode_set_as_set decode_array_items
decode_set_items length m =
    if m.set_as_set
    then decode_set_as_set m (rounds length) nil
    else (do n ← array_length length; decode_array_items m n nil)

decode_set : TypeMapping → Program Reply
unfolding decode_set_items
decode_set m = do length ← unsigned_number (pos 0); decode_set_items length m

decode_map_as_map : TypeMapping → (n : ℕ) → Pairs → Program Reply
decode_map_as_map m zero added = ret (Reply.map added)
decode_map_as_map m (suc n) added = do
  await
  key ← map_key m
  await
  value ← nested m
  decode_map_as_map m n (snoc_pair added key value)

decode_map_as_object : TypeMapping → (n : ℕ) → Pairs → Program Reply
decode_map_as_object m zero added = ret (Reply.object added)
decode_map_as_object m (suc n) added = do
  await
  key ← map_key m
  await
  value ← nested m
  decode_map_as_object m n (snoc_pair added key value)

twice : ℤ → ℤ
twice (pos n) = pos (2 * n)
twice (negsuc n) = negsuc (2 * n + 1)

map_items : MapType → ℤ → TypeMapping → Program Reply
unfolding rounds array_length decode_map_as_map decode_map_as_object decode_array_items twice
map_items as_map length m = decode_map_as_map m (rounds length) end
map_items as_array length m = do n ← array_length (twice length); decode_array_items m n nil
map_items as_object length m = decode_map_as_object m (rounds length) end

decode_map_items : ℤ → TypeMapping → Program Reply
unfolding map_items
decode_map_items length m = map_items m.map length m

decode_map : TypeMapping → Program Reply
unfolding decode_map_items
decode_map m = do length ← unsigned_number (pos 0); decode_map_items length m

-- `#decodeNestedTypeValue`, by the type byte.
unfoldable pub decode_nested_type_value : ℕ → TypeMapping → Program Reply
unfolding decode_null decode_boolean decode_number decode_big_number decode_double
    decode_simple_string decode_blob_string decode_verbatim_string decode_simple_error
    decode_blob_error decode_array decode_set decode_map
decode_nested_type_value type m =
    if type == RespTypes.null
    then decode_null
    else if type == RespTypes.boolean
    then decode_boolean
    else if type == RespTypes.number
    then decode_number m.number_as_string
    else if type == RespTypes.big_number
    then decode_big_number m.big_number_as_string
    else if type == RespTypes.double
    then decode_double m.double_as_string
    else if type == RespTypes.simple_string
    then decode_simple_string m.simple_string
    else if type == RespTypes.blob_string
    then decode_blob_string m.blob_string
    else if type == RespTypes.verbatim_string
    then decode_verbatim_string m.verbatim_string
    else if type == RespTypes.simple_error
    then decode_simple_error
    else if type == RespTypes.blob_error
    then decode_blob_error
    else if type == RespTypes.array
    then decode_array m
    else if type == RespTypes.set
    then decode_set m
    else if type == RespTypes.map
    then decode_map m
    else fail (threw (unknown_type type))

-- `#decodeMapKeyValue`: keys that are strings are decoded as strings, whatever the mapping says.
unfoldable pub decode_map_key_value : ℕ → TypeMapping → Program Reply
unfolding decode_simple_string decode_blob_string decode_nested_type_value
decode_map_key_value type m =
    if type == RespTypes.simple_string
    then decode_simple_string as_string
    else if type == RespTypes.blob_string
    then decode_blob_string as_string
    else decode_nested_type_value type m

-- `PUSH_TYPE_MAPPING`: blobs as Buffers.
unfoldable pub push_type_mapping : TypeMapping
push_type_mapping = record {
  number_as_string = false;
  big_number_as_string = false;
  double_as_string = false;
  simple_string = as_string;
  blob_string = as_buffer;
  verbatim_string = as_string;
  set_as_set = false;
  map = as_object;
}

-- The callback that `#decodeTypeValue` chooses for a value of its type.
pub data Callback : Type 0 where
  on_reply on_error_reply on_push : Callback

unfoldable pub callback : ℕ → Callback
callback type =
    if type == RespTypes.simple_error
    then on_error_reply
    else if type == RespTypes.blob_error
    then on_error_reply
    else if type == RespTypes.push
    then on_push
    else on_reply

-- `#decodeTypeValue` is `#decodeNestedTypeValue` at the top level, with PUSH as one more type.
unfoldable pub decode_type_value : ℕ → TypeMapping → Program Reply
unfolding decode_array push_type_mapping decode_nested_type_value
decode_type_value type m =
    if type == RespTypes.push
    then decode_array push_type_mapping
    else decode_nested_type_value type m
