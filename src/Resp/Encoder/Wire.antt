-- ===== src/Resp/Encoder/Wire.antt =====
-- The bytes that encoder.ts puts on the wire are the command in the protocol's own form.
use node_redis.Base.{
  ℕ, ◌+◌, ◌<◌, ◌≡◌, refl, ap, ◌∙◌, sym, List, [], ◌∷◌, ◌++◌, map, append_assoc, append-nil, arith,
  length, length-map, All,
}
use node_redis.Base.Decimal.{to_string, IsDigit, to_string-IsDigit}
use node_redis.Resp.Argument.{RedisArgument, string, buffer, other, IsUtf8, argument_bytes, wire}
use node_redis.Resp.Encoder.{crlf, encoded, type_error, encode_loop, encode_command}

-- A bulk string, and an array of them, as the protocol writes them.
abbrev pub bulk : List ℕ → List ℕ
bulk b = b'$' ∷ (to_string (length b) ++ (crlf ++ (b ++ crlf)))

abbrev pub bulks : List (List ℕ) → List ℕ
bulks [] = []
bulks (b ∷ bs) = bulk b ++ bulks bs

abbrev pub multi_bulk : List (List ℕ) → List ℕ
multi_bulk bs = b'*' ∷ (to_string (length bs) ++ (crlf ++ bulks bs))

abbrev pub IsArgument : RedisArgument → Type 0
IsArgument other = ⊥
IsArgument _ = Unit {0}

abbrev IsAscii : ℕ → Type 0
IsAscii c = c < 128

module _ (utf8 : List ℕ → List ℕ) (laws : IsUtf8 utf8) where
  open laws use {utf8-nil, utf8-ascii}

  utf8-cons : (c : ℕ) (t : List ℕ) → c < 128 → utf8 (c ∷ t) ≡ c ∷ utf8 t
  utf8-cons c t h = utf8-ascii [] t c h ∙ ap (λ u. u ++ c ∷ utf8 t) utf8-nil

  utf8-digits : (p t : List ℕ) → All IsDigit p → utf8 (p ++ t) ≡ p ++ utf8 t
  utf8-digits [] t h = refl
  utf8-digits (c ∷ p) t h = utf8-cons c (p ++ t) (omega arith) ∙ ap (◌∷◌ c) (utf8-digits p t h.1)

  utf8-to_string : (n : ℕ) (t : List ℕ) → utf8 (to_string n ++ t) ≡ to_string n ++ utf8 t
  utf8-to_string n t = utf8-digits (to_string n) t (to_string-IsDigit n)

  utf8-crlf : (t : List ℕ) → utf8 (crlf ++ t) ≡ crlf ++ utf8 t
  utf8-crlf t = utf8-cons 13 (10 ∷ t) (omega arith) ∙ ap (◌∷◌ 13) (utf8-cons 10 t (omega arith))

  utf8-just_crlf : utf8 crlf ≡ crlf
  utf8-just_crlf = utf8-crlf [] ∙ ap (◌++◌ crlf) utf8-nil

  utf8-append_crlf : (s : List ℕ) → utf8 (s ++ crlf) ≡ utf8 s ++ crlf
  utf8-append_crlf s =
      utf8-ascii s (10 ∷ []) 13 (omega arith)
      ∙ ap (λ t. utf8 s ++ 13 ∷ t) (utf8-cons 10 [] (omega arith) ∙ ap (◌∷◌ 10) utf8-nil)

  utf8-bulk :
      (strings s : List ℕ)
      → utf8 (strings ++ (b'$' ∷ (to_string (length (utf8 s)) ++ (crlf ++ (s ++ crlf)))))
        ≡ utf8 strings ++ bulk (utf8 s)
  utf8-bulk strings s =
      utf8-ascii strings _ b'$' (omega arith)
      ∙ ap (λ t. utf8 strings ++ b'$' ∷ t)
          (utf8-to_string (length (utf8 s)) _
            ∙ ap (◌++◌ (to_string (length (utf8 s))))
                (utf8-crlf _ ∙ ap (◌++◌ crlf) (utf8-append_crlf s)))

  utf8-header :
      (strings : List ℕ) (n : ℕ)
      → utf8 (strings ++ (b'$' ∷ (to_string n ++ crlf)))
        ≡ utf8 strings ++ (b'$' ∷ (to_string n ++ crlf))
  utf8-header strings n =
      utf8-ascii strings _ b'$' (omega arith)
      ∙ ap (λ t. utf8 strings ++ b'$' ∷ t)
          (utf8-to_string n crlf ∙ ap (◌++◌ (to_string n)) utf8-just_crlf)

  wire-append : (xs ys : List RedisArgument) → wire utf8 (xs ++ ys) ≡ wire utf8 xs ++ wire utf8 ys
  unfolding wire
  wire-append [] ys = refl
  wire-append (x ∷ xs) ys =
      ap (◌++◌ (argument_bytes utf8 x)) (wire-append xs ys)
      ∙ sym (append_assoc (argument_bytes utf8 x) (wire utf8 xs) (wire utf8 ys))

  encode_loop_lem :
      (i : ℕ) (args : List RedisArgument) (to_write : List RedisArgument) (strings : List ℕ)
      → All IsArgument args
      → (out : List RedisArgument) × (encode_loop utf8 i args to_write strings ≡ encoded out)
        × (wire utf8 out
            ≡ wire utf8 to_write ++ (utf8 strings ++ bulks (map (argument_bytes utf8) args)))
  unfolding encode_loop wire
  encode_loop_lem i [] to_write strings h =
      (to_write ++ string strings ∷ [], refl, wire-append to_write (string strings ∷ []))
  encode_loop_lem i (string s ∷ args) to_write strings h =
      let next = strings ++ (b'$' ∷ (to_string (length (utf8 s)) ++ (crlf ++ (s ++ crlf)))) in
      let (out, e, w) = encode_loop_lem (i + 1) args to_write next h.1 in
      (
        out,
        e,
        w
            ∙ ap (◌++◌ (wire utf8 to_write)) (
                ap (λ t. t ++ bulks (map (argument_bytes utf8) args)) (utf8-bulk strings s)
                ∙ append_assoc (utf8 strings) (bulk (utf8 s))
                    (bulks (map (argument_bytes utf8) args))),
      )
  encode_loop_lem i (buffer b ∷ args) to_write strings h =
      let header = strings ++ (b'$' ∷ (to_string (length b) ++ crlf)) in
      let pieces = string header ∷ buffer b ∷ [] in
      let (out, e, w) = encode_loop_lem (i + 1) args (to_write ++ pieces) crlf h.1 in
      (
        out,
        e,
        w
            ∙ simp (
              wire-append,
              utf8-header strings (length b),
              utf8-just_crlf,
              append_assoc,
              append-nil,
            ),
      )
  encode_loop_lem i (other ∷ args) to_write strings h = absurd h.0

  -- A command whose arguments are strings and Buffers is encoded, and the bytes of what is to be
  -- written are the protocol's array of the arguments' bytes, each behind its length in bytes.
  pub wire-encode_command :
      (args : List RedisArgument)
      → All IsArgument args
      → (out : List RedisArgument) × (encode_command utf8 args ≡ encoded out)
        × (wire utf8 out ≡ multi_bulk (map (argument_bytes utf8) args))
  unfolding encode_command wire
  wire-encode_command args h =
      let (out, e, w) = encode_loop_lem 0 args [] (b'*' ∷ (to_string (length args) ++ crlf)) h in
      (
        out,
        e,
        w
            ∙ ap (λ t. t ++ bulks (map (argument_bytes utf8) args))
                (utf8-cons b'*' _ (omega arith)
                  ∙ ap (◌∷◌ b'*') (
                      utf8-to_string (length args) crlf
                      ∙ ap (◌++◌ (to_string (length args))) utf8-just_crlf))
            ∙ simp (append_assoc, length-map),
      )

module _ (utf8 : List ℕ → List ℕ) where
  encode_loop_error :
      (i : ℕ) (before after : List RedisArgument) (to_write : List RedisArgument) (strings : List ℕ)
      → All IsArgument before
      → encode_loop utf8 i (before ++ other ∷ after) to_write strings
        ≡ type_error (i + length before)
  unfolding encode_loop
  encode_loop_error i [] after to_write strings h = ap type_error (omega arith)
  encode_loop_error i (string s ∷ before) after to_write strings h =
      encode_loop_error (i + 1) before after to_write _ h.1 ∙ ap type_error (omega arith)
  encode_loop_error i (buffer b ∷ before) after to_write strings h =
      encode_loop_error (i + 1) before after _ crlf h.1 ∙ ap type_error (omega arith)
  encode_loop_error i (other ∷ before) after to_write strings h = absurd h.0

  -- An argument that is neither makes the encoder throw, with the index of the first one.
  encode_command-type_error :
      (before after : List RedisArgument)
      → All IsArgument before
      → encode_command utf8 (before ++ other ∷ after) ≡ type_error (length before)
  unfolding encode_command
  encode_command-type_error before after h =
      encode_loop_error 0 before after [] _ h ∙ ap type_error (omega arith)
