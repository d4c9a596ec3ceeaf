-- ===== src/Client/Cache/Key/Parts.antt =====
-- The parts of a key of the client-side cache.
use node_redis.Base.{
  ℕ, ◌≡◌, ◌≤◌, ◌<◌, refl, ap, sym, ◌∙◌, List, [], ◌∷◌, ◌++◌, map, arith, length, All,
}
use node_redis.Base.Decimal.{to_string, to_string-IsDigit, read_digits, read_digits-to_string}
use node_redis.Base.Text.{Text}
use node_redis.Client.Cache.Key.{
  KeyArgument, string, buffer, join, length_part, text_part, generate_cache_key,
}

-- The lengths, each with its separator.
unfoldable pub head : List KeyArgument → Text → Text
head [] rest = rest
head (a ∷ xs) rest = length_part a ++ 95 ∷ head xs rest

abbrev pub texts : List KeyArgument → Text
texts args = join (map text_part args)

join-head :
    (xs : List KeyArgument) (t : Text) (ts : List Text)
    → join (map length_part xs ++ t ∷ ts) ≡ head xs (join (t ∷ ts))
unfolding join head
join-head [] t ts = refl
join-head (a ∷ []) t ts = refl
join-head (a ∷ b ∷ xs) t ts = ap (λ r. length_part a ++ 95 ∷ r) (join-head (b ∷ xs) t ts)

pub generate_cache_key_lem : (xs : List KeyArgument) → generate_cache_key xs ≡ head xs (texts xs)
unfolding generate_cache_key
generate_cache_key_lem [] = unfold join head in refl
generate_cache_key_lem (a ∷ xs) = join-head (a ∷ xs) (text_part a) (map text_part xs)

abbrev IsPlain : ℕ → Type 0
IsPlain c = (c ≡ 95) → ⊥

digits-IsPlain : (s : Text) → All (λ c. (48 ≤ c) × (c < 58)) s → All IsPlain s
digits-IsPlain [] h = tt
digits-IsPlain (c ∷ s) (digit, digits) = (λ e. absurd (omega arith), digits-IsPlain s digits)

pub length_part-IsPlain : (a : KeyArgument) → All IsPlain (length_part a)
unfolding length_part
length_part-IsPlain (string s) =
    digits-IsPlain (to_string (length s)) (to_string-IsDigit (length s))
length_part-IsPlain (buffer b) = (
  λ e. absurd (omega arith),
  digits-IsPlain (to_string (length b)) (to_string-IsDigit (length b)),
)

-- The first separator is where the plain characters end.
pub split_plain :
    (s t x y : Text) → All IsPlain s → All IsPlain t → s ++ 95 ∷ x ≡ t ++ 95 ∷ y → (s ≡ t) × (x ≡ y)
split_plain [] [] x y hs ht e = (refl, ground (arith, e))
split_plain [] (c ∷ t) x y hs (plain, ht) e = absurd (plain (ground (arith, e)))
split_plain (c ∷ s) [] x y (plain, hs) ht e = absurd (plain (ground (arith, e)))
split_plain (c ∷ s) (d ∷ t) x y (plain, hs) (plain', ht) e =
    let r = split_plain s t x y hs ht (ground (arith, e)) in (ground (arith, e, r.0), r.1)

to_string-injective : (m n : ℕ) → to_string m ≡ to_string n → m ≡ n
to_string-injective m n e =
    sym (read_digits-to_string m) ∙ ap (read_digits 0) e ∙ read_digits-to_string n

-- A first digit is no 'b'.
not_b : (n : ℕ) (s : Text) → to_string n ≡ 98 ∷ s → ⊥
not_b n s e = go (to_string n) s (to_string-IsDigit n) e
  where
    go : (t s : Text) → All (λ c. (48 ≤ c) × (c < 58)) t → t ≡ 98 ∷ s → ⊥
    go [] s h e = absurd (cc)
    go (c ∷ t) s (digit, h) e = ground (arith, e, digit)

-- The same kind and xs many characters.
abbrev pub Alike : KeyArgument → KeyArgument → Type 0
Alike a b = length_part a ≡ length_part b

pub Alike-length : (a b : KeyArgument) → Alike a b → length (text_part a) ≡ length (text_part b)
unfolding length_part text_part
Alike-length (string s) (string t) h = to_string-injective (length s) (length t) h
Alike-length (string s) (buffer b) h = elim (not_b (length s) (to_string (length b)) h) [ ]
Alike-length (buffer b) (string s) h = elim (not_b (length s) (to_string (length b)) (sym h)) [ ]
Alike-length (buffer b) (buffer d) h = to_string-injective (length b) (length d) (ground (arith, h))

pub Alike-same : (a b : KeyArgument) → Alike a b → text_part a ≡ text_part b → a ≡ b
unfolding length_part text_part
Alike-same (string s) (string t) h e = ap string e
Alike-same (string s) (buffer b) h e = elim (not_b (length s) (to_string (length b)) h) [ ]
Alike-same (buffer b) (string s) h e = elim (not_b (length s) (to_string (length b)) (sym h)) [ ]
Alike-same (buffer b) (buffer d) h e = ap buffer e
