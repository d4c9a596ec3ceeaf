-- ===== src/Resp/RespTypes.antt =====
-- RESP_TYPES of packages/client/lib/RESP/decoder.ts: the byte that opens a value of each type.
use node_redis.Base.{ℕ}

abbrev pub null : ℕ
null = 95

abbrev pub boolean : ℕ
boolean = 35

abbrev pub number : ℕ
number = 58

abbrev pub big_number : ℕ
big_number = 40

abbrev pub double : ℕ
double = 44

abbrev pub simple_string : ℕ
simple_string = 43

abbrev pub blob_string : ℕ
blob_string = 36

abbrev pub verbatim_string : ℕ
verbatim_string = 61

abbrev pub simple_error : ℕ
simple_error = 45

abbrev pub blob_error : ℕ
blob_error = 33

abbrev pub array : ℕ
array = 42

abbrev pub set : ℕ
set = 126

abbrev pub map : ℕ
map = 37

abbrev pub push : ℕ
push = 62
