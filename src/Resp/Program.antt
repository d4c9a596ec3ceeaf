-- ===== src/Resp/Program.antt =====
-- The decoding steps of packages/client/lib/RESP/decoder.ts as programs.
-- Each method of the code either returns a value or, when the chunk is used up, a function of the
-- next chunk (`this.#continueX.bind(...)`). A `Program A` is what such a function has left to do
-- before it has its value: the primitives are the loops over the bytes of a chunk, and
-- `and_then p k` is the pattern
--   const x = p(chunk); return typeof x === 'function' ? <wait and try again> : k(x)
-- that the `continue` methods spell out.
use node_redis.Base.{ℕ, List}
use node_redis.Base.Int.{ℤ}
use node_redis.Resp.Reply.{Reply, TypeMapping}

-- The errors that a decoder throws: `throw new Error('Unknown RESP type ...')`, and `new Array(n)`
-- out of range.
pub data Fault : Type 0 where
  unknown_type : ℕ → Fault
  invalid_array_length : Fault

-- Where the model stops: at an error, or at a string of a negative length. The code has no test for
-- the latter: it moves its cursor back over the chunk and decodes those bytes again, for ever in
-- some cases. That is no error, and the model does not follow it.
pub data Stop : Type 0 where
  threw : Fault → Stop
  moved_back : Stop

pub data Program : Type 0 → Type 1 where
  ret : {A : Type 0} → A → Program A
  and_then : {A B : Type 0} → Program B → (B → Program A) → Program A
  fail : {A : Type 0} → Stop → Program A
  -- `if (this.#cursor >= chunk.length) return <this>.bind(...)`
  await : Program (Unit {0})
  -- `chunk[this.#cursor]`
  peek : Program ℕ
  -- `this.#cursor += k`
  advance : ℕ → Program (Unit {0})
  -- `#decodeUnsingedNumber(number, chunk)`
  unsigned_number : ℤ → Program ℤ
  -- `#continueDecodeSimpleString(chunks, ...)` up to the conversion: the bytes before `\r`
  until_cr : List ℕ → Program (List ℕ)
  -- `#continueDecodeStringWithLength(length, chunks, skip, ...)` up to the conversion
  with_length : ℕ → List ℕ → ℕ → Program (List ℕ)
  -- `#decodeNestedType(typeMapping, chunk)` and `#decodeMapKey(typeMapping, chunk)`
  nested : TypeMapping → Program Reply
  map_key : TypeMapping → Program Reply

infixl 5 ◌>>=◌ ◌>>◌
abbrev pub ◌>>=◌ : {A B : Type 0} → Program B → (B → Program A) → Program A
p >>= k = and_then p k

abbrev pub ◌>>◌ : {A : Type 0} → Program (Unit {0}) → Program A → Program A
p >> q = and_then p (λ _. q)
