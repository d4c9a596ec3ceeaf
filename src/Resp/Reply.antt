-- ===== src/Resp/Reply.antt =====
-- What packages/client/lib/RESP/decoder.ts decodes: the type mapping and the replies.
-- A text stands for the string that its bytes decode to, a double for the number that its token
-- denotes, and numbers are exact. A Set, a Map or an object is the sequence of the calls that
-- fill it (`set.add`, `map.set`, `object[key] =`), since equality of JavaScript values, by which
-- repeated keys merge, is not part of the program.
use node_redis.Base.{ℕ, Bool, List}
use node_redis.Base.Int.{ℤ}

-- `text` is a JavaScript string, `buffer` a Buffer.
mutual
  pub data Reply : Type 0 where
    null : Reply
    boolean : Bool → Reply
    number : ℤ → Reply
    big_number : ℤ → Reply
    double : List ℕ → Reply
    text : List ℕ → Reply
    buffer : List ℕ → Reply
    verbatim : (format string : List ℕ) → Reply
    simple_error : List ℕ → Reply
    blob_error : Reply → Reply
    array : Items → Reply
    set : Items → Reply
    map : Pairs → Reply
    object : Pairs → Reply

  pub data Items : Type 0 where
    nil : Items
    cons : Reply → Items → Items

  pub data Pairs : Type 0 where
    end : Pairs
    pair : Reply → Reply → Pairs → Pairs

-- `array[filled] = item`, and a further `map.set(key, value)`.
unfoldable pub snoc : Items → Reply → Items
snoc nil x = cons x nil
snoc (cons y ys) x = cons y (snoc ys x)

unfoldable pub snoc_pair : Pairs → Reply → Reply → Pairs
snoc_pair end k v = pair k v end
snoc_pair (pair j w m) k v = pair j w (snoc_pair m k v)

-- The classes that the code compares an entry of the type mapping with. `unmapped` is any other.
pub data StringType : Type 0 where
  as_string as_buffer as_verbatim : StringType

pub data MapType : Type 0 where
  as_map as_array as_object : MapType

pub record TypeMapping : Type 0 where
  pub number_as_string : Bool
  pub big_number_as_string : Bool
  pub double_as_string : Bool
  pub simple_string : StringType
  pub blob_string : StringType
  pub verbatim_string : StringType
  pub set_as_set : Bool
  pub map : MapType
