-- ===== src/Resp/Decoder/Tests.antt =====
-- Streams that the decoder of decoder.ts reads, and the theorems of Stream and Total at them.
use Prim.Native.Char.{code}
use Prim.Native.String.{String}
use mathlib.Core.List.{flatten}
use node_redis.Base.{ℕ, ◌≡◌, refl, true, List, [], ◌∷◌, ◌++◌, none}
use node_redis.Base.Int.{pos, negsuc}
use node_redis.Resp.Reply.{Reply, nil, cons, end, pair, snoc, snoc_pair, TypeMapping}
use node_redis.Resp.Decode.{
  Callback, on_reply, on_error_reply, callback, push_type_mapping, decode_type_value,
  decode_map_key_value,
}
use node_redis.Resp.Run.{run}
use node_redis.Resp.Decoder.{Decoder, decoder, written, unfollowed, write, write_all}
use node_redis.Resp.Decoder.Stream.{write-append, write_all-flatten}
use node_redis.Resp.Decoder.Total.{Finishes, write-Finishes}

abbrev codes : String → List ℕ
codes String.[] = []
codes (String.◌∷◌ c s) = code c ∷ codes s

-- The callbacks keep the calls, latest first.
abbrev Calls : Type 0
Calls = List (Callback × Reply)

abbrev logged : Callback → Reply → Calls → Calls
logged cb v env = (cb, v) ∷ env

abbrev strings : Calls → TypeMapping
strings env = push_type_mapping

abbrev fresh : Decoder Calls
fresh = decoder 0 none []

reads_array :
    write logged strings fresh (codes "*2\r\n:-12\r\n$3\r\nfoo\r\n")
    ≡ written (
        decoder 0 none (
          (
            on_reply,
            Reply.array (cons (Reply.number (negsuc 11)) (cons (Reply.buffer (codes "foo")) nil)),
          )
          ∷ []))
unfolding write run decode_type_value callback snoc push_type_mapping
reads_array = refl

reads_cut :
    write_all logged strings
      (written fresh)
      (codes "-ERR" ∷ codes " x\r" ∷ codes "\n%1\r\n+a\r" ∷ codes "\n#t" ∷ codes "\r\n" ∷ [])
    ≡ written (
        decoder 0 none (
          (on_reply, Reply.object (pair (Reply.text (codes "a")) (Reply.boolean true) end))
          ∷ (on_error_reply, Reply.simple_error (codes "ERR x"))
          ∷ []))
unfolding write_all write run decode_type_value decode_map_key_value callback snoc_pair
    push_type_mapping
reads_cut = refl

write-append_example :
    write logged strings fresh (codes ":7" ++ codes "7\r\n")
    ≡ written (decoder 0 none ((on_reply, Reply.number (pos 77)) ∷ []))
unfolding write run decode_type_value callback push_type_mapping
write-append_example = write-append logged strings fresh (codes ":7") (codes "7\r\n")

write_all-flatten_example :
    write_all logged strings (written fresh) (codes ":7" ∷ codes "7\r\n" ∷ [])
    ≡ written (decoder 0 none ((on_reply, Reply.number (pos 77)) ∷ []))
unfolding write run decode_type_value callback push_type_mapping flatten
write_all-flatten_example =
    write_all-flatten logged strings fresh (codes ":7" ∷ codes "7\r\n" ∷ []) tt

-- The numeral `*` stands for -6, which leads back to the start of the chunk.
meets_negative_length : write logged strings fresh (codes "$*\r\nX") ≡ unfollowed []
unfolding write run decode_type_value callback push_type_mapping
meets_negative_length = refl

write-Finishes_example : Finishes (write logged strings fresh (codes "*1\r\n*1\r\n*1\r\n"))
unfolding write run decode_type_value callback push_type_mapping
write-Finishes_example = write-Finishes logged strings fresh (codes "*1\r\n*1\r\n*1\r\n") tt
