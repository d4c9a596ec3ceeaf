-- ===== src/Resp/Run.antt =====
-- How a program of packages/client/lib/RESP/decoder.ts runs on a chunk.
pub mod Fuel
pub mod Feed
pub mod Chunks
pub mod Stalls
use node_redis.Base.{
  ℕ, zero, suc, Bool, true, false, ◌+◌, ◌-◌, ◌*◌, List, [], ◌∷◌, ◌++◌, ltb, leb, ◌==◌,
  if◌then◌else◌, length, take, drop,
}
use node_redis.Base.Int.{ℤ, pos_part, neg_part, sub_ℕ}
use node_redis.Resp.Reply.{Reply, TypeMapping}
use node_redis.Resp.Program.{
  Program, Stop, ret, and_then, fail, await, peek, advance, unsigned_number, until_cr, with_length,
  nested, map_key, unknown_type, ◌>>=◌, ◌>>◌,
}
use node_redis.Resp.Decode.{decode_nested_type_value, decode_map_key_value}

-- The chunk from the cursor on, or how far the cursor is behind its end: `beyond k` is k + 1 bytes.
pub data Input : Type 0 where
  at : List ℕ → Input
  beyond : ℕ → Input

-- How many bytes the cursor is behind the end of the chunk.
abbrev pub overshoot : Input → ℕ
overshoot (at r) = 0
overshoot (beyond k) = suc k

-- `this.#cursor += k`
unfoldable pub skip : ℕ → Input → Input
skip zero i = i
skip (suc k) (at []) = beyond k
skip (suc k) (at (x ∷ r)) = skip k (at r)
skip (suc k) (beyond j) = beyond (suc k + j)

-- A value with what is left of the chunk, or what the code returns as a function of the next
-- chunk. `out_of_fuel` has no counterpart in the code.
pub data Outcome (A : Type 0) : Type 1 where
  done : A → Input → Outcome A
  more : Program A → Input → Outcome A
  fault : Stop → Outcome A
  out_of_fuel : Outcome A

-- `number * 10 + (byte - ASCII['0'])`
pub push_digit : ℤ → ℕ → ℤ
push_digit z byte = sub_ℕ (10 * pos_part z + byte) (10 * neg_part z + 48)

scan_number : ℤ → List ℕ → Outcome ℤ
scan_number z [] = more (unsigned_number z) (at [])
scan_number z (b ∷ r) =
    let rest = scan_number (push_digit z b) r in if b == 13 then done z (skip 1 (at r)) else rest

scan_cr : List ℕ → List ℕ → Outcome (List ℕ)
scan_cr chunks [] = more (until_cr chunks) (at [])
scan_cr chunks (b ∷ r) =
    let rest = scan_cr (chunks ++ (b ∷ [])) r in
    if b == 13 then done chunks (skip 1 (at r)) else rest

scan_length : ℕ → List ℕ → ℕ → List ℕ → Outcome (List ℕ)
scan_length n chunks s r =
    if leb (length r) n
    then more (with_length (n - length r) (chunks ++ r) s) (at [])
    else done (chunks ++ take n r) (skip s (at (drop n r)))

-- With a value in hand, `go` runs the rest; a function of the next chunk is kept with the rest.
abbrev pub bind_outcome :
    {A B : Type 0} → (B → Program A) → (B → Input → Outcome A) → Outcome B → Outcome A
bind_outcome k go (done b j) = go b j
bind_outcome k go (more q j) = more (and_then q k) j
bind_outcome k go (fault e) = fault e
bind_outcome k go out_of_fuel = out_of_fuel

-- Runs a program, given what runs a nested value behind its type byte (as a key of a map or not).
pub run_with :
    {A : Type 0} → (Bool → ℕ → TypeMapping → Input → Outcome Reply) → Program A → Input → Outcome A
unfolding scan_number scan_cr scan_length skip push_digit
run_with nest (ret a) i = done a i
run_with nest (fail e) i = fault e
run_with nest (advance k) i = done tt (skip k i)
run_with nest (and_then p k) i = bind_outcome k (λ b j. run_with nest (k b) j) (run_with nest p i)
run_with nest await (at []) = more await (at [])
run_with nest await (at (x ∷ r)) = done tt (at (x ∷ r))
run_with nest await (beyond k) = more await (beyond k)
run_with nest peek (at []) = more peek (at [])
run_with nest peek (at (x ∷ r)) = done x (at (x ∷ r))
run_with nest peek (beyond k) = more peek (beyond k)
run_with nest (unsigned_number z) (at r) = scan_number z r
run_with nest (unsigned_number z) (beyond k) = more (unsigned_number z) (beyond k)
run_with nest (until_cr chunks) (at r) = scan_cr chunks r
run_with nest (until_cr chunks) (beyond k) = more (until_cr chunks) (beyond k)
run_with nest (with_length n chunks s) (at r) = scan_length n chunks s r
run_with nest (with_length n chunks s) (beyond k) = more (with_length n chunks s) (beyond k)
run_with nest (nested m) (at []) = more (nested m) (at [])
run_with nest (nested m) (at (x ∷ r)) = nest false x m (at r)
run_with nest (nested m) (beyond k) = more (nested m) (beyond k)
run_with nest (map_key m) (at []) = more (map_key m) (at [])
run_with nest (map_key m) (at (x ∷ r)) = nest true x m (at r)
run_with nest (map_key m) (beyond k) = more (map_key m) (beyond k)

-- `#decodeNestedTypeValue` or `#decodeMapKeyValue`, once the chunk has a byte behind the type.
abbrev pub value_program : Bool → ℕ → TypeMapping → Program Reply
value_program key type m =
    await >> (if key then decode_map_key_value type m else decode_nested_type_value type m)

-- Each level of nesting costs a unit of fuel, and takes a byte at least.
pub run_nested : ℕ → Bool → ℕ → TypeMapping → Input → Outcome Reply
run_nested zero key type m i = out_of_fuel
run_nested (suc f) key type m i = run_with (run_nested f) (value_program key type m) i

unfoldable pub run : {A : Type 0} → ℕ → Program A → Input → Outcome A
unfolding run_with run_nested
run f p i = run_with (run_nested f) p i
