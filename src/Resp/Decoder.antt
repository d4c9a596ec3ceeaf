-- ===== src/Resp/Decoder.antt =====
-- The class `Decoder` of packages/client/lib/RESP/decoder.ts: its fields, `reset` and `write`.
-- The callbacks of its options are functions on a state `S`: `react` is `onReply`, `onErrorReply`
-- and `onPush`, and `type_mapping` is `getTypeMapping`. What a callback throws is kept by the code
-- in a list that it hands back; such a callback records its error in `S`.
pub mod Stream
pub mod Total
mod Tests
use node_redis.Base.{
  ℕ, zero, suc, ◌-◌, List, [], ◌∷◌, Option, none, some, leb, if◌then◌else◌, length, drop,
}
use node_redis.Resp.Reply.{Reply, TypeMapping}
use node_redis.Resp.Program.{Program, Fault, threw, moved_back}
use node_redis.Resp.Decode.{Callback, callback, decode_type_value}
use node_redis.Resp.Run.{Input, at, beyond, overshoot, Outcome, done, more, fault, out_of_fuel, run}

-- `#next`: `#continueDecodeTypeValue` with its type, or `#continueDecodeValue` with its callback
-- and the function of the next chunk.
pub data Pending : Type 1 where
  type_pending : ℕ → Pending
  value_pending : Callback → Program Reply → Pending

-- `cursor` is `#cursor` between two writes: the bytes of the next chunks to pass over.
pub record Decoder (S : Type 0) : Type 1 where
  pub cursor : ℕ
  pub next : Option Pending
  pub env : S

abbrev pub decoder : {S : Type 0} → ℕ → Option Pending → S → Decoder S
decoder cursor next env = record { cursor = cursor; next = next; env = env }

pub reset : {S : Type 0} → Decoder S → Decoder S
reset d = record d { cursor = 0; next = none }

-- `failed` is an error thrown out of `write`. At `unfollowed` the code goes on with bytes that it has
-- decoded before, behind a string of a negative length, and nothing is said of what it does then.
-- `stuck` has no counterpart in the code.
pub data Written (S : Type 0) : Type 1 where
  written : Decoder S → Written S
  failed : Fault → S → Written S
  unfollowed : S → Written S
  stuck : Written S

-- A write that meets no string of a negative length.
abbrev pub IsFollowed : {S : Type 0} → Written S → Type 0
IsFollowed (unfollowed env) = ⊥
IsFollowed _ = Unit {0}

module _ {S : Type 0} (react : Callback → Reply → S → S) (type_mapping : S → TypeMapping) where
  pending_callback : Pending → Callback
  pending_callback (type_pending type) = callback type
  pending_callback (value_pending cb q) = cb

  pending_program : Pending → S → Program Reply
  pending_program (type_pending type) env = decode_type_value type (type_mapping env)
  pending_program (value_pending cb q) env = q

  -- `#handleDecodedValue`; `go` is the rest of the loop over the chunk.
  handle_decoded_value : (Input → S → Written S) → Callback → Outcome Reply → S → Written S
  handle_decoded_value go cb (done v j) env = go j (react cb v env)
  handle_decoded_value go cb (more q j) env =
      written (decoder (overshoot j) (some (value_pending cb q)) env)
  handle_decoded_value go cb (fault (threw e)) env = failed e env
  handle_decoded_value go cb (fault moved_back) env = unfollowed env
  handle_decoded_value go cb out_of_fuel env = stuck

  resume_pending : (Input → S → Written S) → Pending → Input → S → Written S
  unfolding handle_decoded_value pending_callback pending_program
  resume_pending go p (at []) env = written (decoder 0 (some p) env)
  resume_pending go p (beyond k) env = written (decoder (suc k) (some p) env)
  resume_pending go p (at (x ∷ r)) env =
      handle_decoded_value go (pending_callback p)
        (run (suc (length r)) (pending_program p env) (at (x ∷ r))) env

  -- `do { type = chunk[this.#cursor]; ... } while (this.#cursor < chunk.length)`
  decode_types : ℕ → Input → S → Written S
  decode_types f (at []) env = written (decoder 0 none env)
  decode_types f (beyond k) env = written (decoder (suc k) none env)
  decode_types zero (at (x ∷ r)) env = stuck
  decode_types (suc f) (at (x ∷ r)) env =
      resume_pending (decode_types f) (type_pending x) (at r) env

  write_from : ℕ → Option Pending → Input → S → Written S
  unfolding decode_types resume_pending
  write_from f none i env = decode_types f i env
  write_from f (some p) i env = resume_pending (decode_types f) p i env

  pub write : Decoder S → List ℕ → Written S
  unfolding write_from
  write d chunk =
      if leb (length chunk) d.cursor
      then written (record d { cursor = d.cursor - length chunk })
      else write_from (length chunk) d.next (at (drop d.cursor chunk)) d.env

  -- The writes of the chunks of a stream, up to the first that throws.
  pub write_all : Written S → List (List ℕ) → Written S
  write_all w [] = w
  write_all (written d) (chunk ∷ chunks) = write_all (write d chunk) chunks
  write_all (failed e env) (chunk ∷ chunks) = failed e env
  write_all (unfollowed env) (chunk ∷ chunks) = unfollowed env
  write_all stuck (chunk ∷ chunks) = stuck
