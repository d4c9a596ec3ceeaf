-- ===== src/Client/Cache/Key/Distinct.antt =====
-- The key of a command tells all its arguments apart.
use node_redis.Base.{
  ◌≡◌, ◌≤◌, refl, ap, sym, ◌∙◌, List, [], ◌∷◌, ◌++◌, map, append_assoc, append-nil, arith, length,
  length-append,
}
use node_redis.Base.Text.{Text}
use node_redis.Client.Cache.Key.{KeyArgument, join, length_part, text_part, generate_cache_key}
use node_redis.Client.Cache.Key.Parts.{
  head, texts, generate_cache_key_lem, length_part-IsPlain, split_plain, Alike, Alike-length,
  Alike-same,
}

append-injective : (s t x y : Text) → length s ≡ length t → s ++ x ≡ t ++ y → (s ≡ t) × (x ≡ y)
append-injective [] [] x y h e = (refl, e)
append-injective [] (c ∷ t) x y h e = absurd (omega arith)
append-injective (c ∷ s) [] x y h e = absurd (omega arith)
append-injective (c ∷ s) (d ∷ t) x y h e =
    let r = append-injective s t x y (omega arith) (ground (arith, e)) in
    (ground (arith, e, r.0), r.1)

-- What comes behind the lengths, where the ones before the lists are alike.
AllAlike : List KeyArgument → List KeyArgument → Type 0
AllAlike ps qs = map length_part ps ≡ map length_part qs

texts-same : (ps qs : List KeyArgument) → AllAlike ps qs → texts ps ≡ texts qs → ps ≡ qs
unfolding AllAlike join
texts-same [] [] h e = refl
texts-same [] (q ∷ qs) h e = absurd (cc)
texts-same (p ∷ ps) [] h e = absurd (cc)
texts-same (p ∷ []) (q ∷ []) h e = ap (λ a. a ∷ []) (Alike-same p q (ground (arith, h)) e)
texts-same (p ∷ []) (q ∷ r ∷ qs) h e = absurd (ground (arith, h))
texts-same (p ∷ r ∷ ps) (q ∷ []) h e = absurd (ground (arith, h))
texts-same (p ∷ r ∷ ps) (q ∷ t ∷ qs) h e =
    let alike : Alike p q = ground (arith, h) in
    let (first, rest) =
      append-injective (text_part p) (text_part q) (95 ∷ texts (r ∷ ps)) (95 ∷ texts (t ∷ qs))
        (Alike-length p q alike) e in
    let same_rest : r ∷ ps ≡ t ∷ qs =
      texts-same (r ∷ ps) (t ∷ qs) (ground (arith, h)) (ground (arith, rest)) in
    ground (arith, Alike-same p q alike first, same_rest)

length-head : (xs : List KeyArgument) (rest : Text) → length rest ≤ length (head xs rest)
unfolding head
length-head [] rest = omega arith
length-head (a ∷ xs) rest =
    omega (arith, length-append (length_part a) (95 ∷ head xs rest), length-head xs rest)

length-texts : (ps xs : List KeyArgument) → length (texts ps) ≤ length (texts (ps ++ xs))
unfolding join
length-texts [] xs = omega arith
length-texts (p ∷ []) [] = omega arith
length-texts (p ∷ []) (a ∷ xs) = omega (arith, length-append (text_part p) (95 ∷ texts (a ∷ xs)))
length-texts (p ∷ q ∷ ps) xs = omega (
  arith,
  length-append (text_part p) (95 ∷ texts (q ∷ ps)),
  length-append (text_part p) (95 ∷ texts (q ∷ ps ++ xs)),
  length-texts (q ∷ ps) xs,
)

length-texts_alike :
    (ps qs : List KeyArgument) → AllAlike ps qs → length (texts ps) ≡ length (texts qs)
unfolding AllAlike join
length-texts_alike [] [] h = refl
length-texts_alike [] (q ∷ qs) h = absurd (cc)
length-texts_alike (p ∷ ps) [] h = absurd (cc)
length-texts_alike (p ∷ []) (q ∷ []) h = Alike-length p q (ground (arith, h))
length-texts_alike (p ∷ []) (q ∷ r ∷ qs) h = absurd (ground (arith, h))
length-texts_alike (p ∷ r ∷ ps) (q ∷ []) h = absurd (ground (arith, h))
length-texts_alike (p ∷ r ∷ ps) (q ∷ t ∷ qs) h = omega (
  arith,
  length-append (text_part p) (95 ∷ texts (r ∷ ps)),
  length-append (text_part q) (95 ∷ texts (t ∷ qs)),
  Alike-length p q (ground (arith, h)),
  length-texts_alike (r ∷ ps) (t ∷ qs) (ground (arith, h)),
)

AllAlike-snoc :
    (ps qs : List KeyArgument) (a b : KeyArgument)
    → AllAlike ps qs
    → Alike a b
    → AllAlike (ps ++ a ∷ []) (qs ++ b ∷ [])
unfolding AllAlike
AllAlike-snoc [] [] a b h ab = ap (λ s. s ∷ []) ab
AllAlike-snoc [] (q ∷ qs) a b h ab = absurd (cc)
AllAlike-snoc (p ∷ ps) [] a b h ab = absurd (cc)
AllAlike-snoc (p ∷ ps) (q ∷ qs) a b h ab = ground (arith, h, ab, AllAlike-snoc ps qs a b)

-- There are as many lengths on both sides, since those that are left over would be too long.
too_long :
    (ps qs xs : List KeyArgument) (b : KeyArgument)
    → AllAlike ps qs
    → texts ps ≡ head (b ∷ xs) (texts (qs ++ b ∷ xs))
    → ⊥
unfolding head
too_long ps qs xs b h e = omega (
  arith,
  ap length e,
  length-append (length_part b) (95 ∷ head xs (texts (qs ++ b ∷ xs))),
  length-head xs (texts (qs ++ b ∷ xs)),
  length-texts qs (b ∷ xs),
  length-texts_alike ps qs h,
)

head-same :
    (ps qs xs ys : List KeyArgument)
    → AllAlike ps qs
    → head xs (texts (ps ++ xs)) ≡ head ys (texts (qs ++ ys))
    → ps ++ xs ≡ qs ++ ys
head-same ps qs [] [] h e =
    append-nil ps
    ∙ texts-same ps qs h
        (sym (ap texts (append-nil ps)) ∙ unfold head in e ∙ ap texts (append-nil qs))
    ∙ sym (append-nil qs)
head-same ps qs [] (b ∷ ys) h e =
    elim (too_long ps qs ys b h (sym (ap texts (append-nil ps)) ∙ unfold head in e)) [ ]
head-same ps qs (a ∷ xs) [] h e =
    elim (too_long qs ps xs a (unfold AllAlike in sym h)
      (sym (ap texts (append-nil qs)) ∙ unfold head in sym e)) [ ]
head-same ps qs (a ∷ xs) (b ∷ ys) h e =
    let (alike, rest) =
      split_plain (length_part a) (length_part b) (head xs (texts (ps ++ a ∷ xs)))
        (head ys (texts (qs ++ b ∷ ys))) (length_part-IsPlain a) (length_part-IsPlain b)
        (unfold head in e) in
    let move = append_assoc ps (a ∷ []) xs in
    let move' = append_assoc qs (b ∷ []) ys in
    sym move
    ∙ head-same (ps ++ a ∷ []) (qs ++ b ∷ []) xs ys (AllAlike-snoc ps qs a b h alike)
        (ap (λ l. head xs (texts l)) move ∙ rest ∙ ap (λ l. head ys (texts l)) (sym move'))
    ∙ move'

-- Two commands have the same key only when their arguments are the same, one by one, strings told
-- apart from Buffers.
pub generate_cache_key-injective :
    (xs ys : List KeyArgument) → generate_cache_key xs ≡ generate_cache_key ys → xs ≡ ys
generate_cache_key-injective xs ys e =
    head-same [] [] xs ys (unfold AllAlike in refl)
      (sym (generate_cache_key_lem xs) ∙ e ∙ generate_cache_key_lem ys)
