-- ===== src/Utils/Slot/Tag.antt =====
-- calculate-slot.ts against the definition of the slot by the key's hash tag, in two passes.
use node_redis.Base.{
  ℕ, ◌<◌, ◌≡◌, ◌↔◌, ◌⊎◌, refl, ◌∙◌, Bool, true, false, ◌==◌, if◌then◌else◌, Option, none, some,
  List, [], ◌∷◌, arith, All, Bool-cases, inl, inr,
}
use node_redis.Base.Int.{pos, negsuc}
use node_redis.Utils.Slot.{
  Key, key_bytes, crc_step, slot_of, outside, inside, done, scan, generate, same_slot,
  generate_multi,
}

abbrev pub crc : ℕ → List ℕ → ℕ
crc h [] = h
crc h (c ∷ cs) = crc (crc_step h c) cs

-- The bytes behind the first `{`, and those in front of the first `}`.
abbrev pub behind_open : List ℕ → Option (List ℕ)
behind_open [] = none
behind_open (c ∷ cs) = let rest = behind_open cs in if c == 123 then some cs else rest

abbrev pub before_close : List ℕ → Option (List ℕ)
before_close [] = none
before_close (c ∷ cs) =
    let rest = before_close cs in
    if c == 125 then some [] else elim rest [ none ↦ none | some tag ↦ some (c ∷ tag) ]

-- The bytes between the first `{` and the first `}` behind it, if there are any, or the whole key.
abbrev pub nonempty_or : List ℕ → Option (List ℕ) → List ℕ
nonempty_or key none = key
nonempty_or key (some []) = key
nonempty_or key (some (c ∷ tag)) = c ∷ tag

abbrev pub hash_tag : List ℕ → List ℕ
hash_tag key = elim (behind_open key) [
  | none ↦ key
  | some rest ↦ nonempty_or key (before_close rest)
]

-- What the scan returns from inside a tag, where `whole` is the slot of the whole key.
abbrev tag_slot : Bool → ℕ → (whole : ℕ) → Option (List ℕ) → ℕ
tag_slot empty h whole none = whole
tag_slot empty h whole (some []) = if empty then whole else slot_of h
tag_slot empty h whole (some (c ∷ tag)) = slot_of (crc h (c ∷ tag))

scan-done : (r : ℕ) (cs : List ℕ) → scan done r cs ≡ slot_of (crc r cs)
unfolding scan
scan-done r [] = refl
scan-done r (c ∷ cs) = scan-done (crc_step r c) cs

tag_slot-cons :
    (empty : Bool) (h c whole : ℕ) (tag : Option (List ℕ))
    → tag_slot false (crc_step h c) whole tag
      ≡ tag_slot empty h whole (elim tag [ none ↦ none | some t ↦ some (c ∷ t) ])
tag_slot-cons empty h c whole none = refl
tag_slot-cons empty h c whole (some []) = refl
tag_slot-cons empty h c whole (some (d ∷ t)) = refl

scan-inside :
    (empty : Bool) (h r : ℕ) (cs : List ℕ)
    → scan (inside empty h) r cs ≡ tag_slot empty h (slot_of (crc r cs)) (before_close cs)
unfolding scan
scan-inside empty h r [] = refl
scan-inside empty h r (c ∷ cs) = elim (Bool-cases (c == 125)) [
  | inl close ↦ rw close (last empty)
  | inr more ↦ rw more (
      scan-inside false (crc_step h c) (crc_step r c) cs
      ∙ tag_slot-cons empty h c (slot_of (crc (crc_step r c) cs)) (before_close cs))
]
  where
    last :
        (empty : Bool)
        → (if empty then scan done (crc_step r c) cs else slot_of h)
          ≡ (if empty then slot_of (crc (crc_step r c) cs) else slot_of h)
    last true = scan-done (crc_step r c) cs
    last false = refl

scan-outside :
    (r : ℕ) (cs : List ℕ)
    → scan outside r cs ≡ elim (behind_open cs) [
      | none ↦ slot_of (crc r cs)
      | some rest ↦ tag_slot true 0 (slot_of (crc r cs)) (before_close rest)
    ]
unfolding scan
scan-outside r [] = refl
scan-outside r (c ∷ cs) = elim (Bool-cases (c == 123)) [
  | inl open_brace ↦ rw open_brace (scan-inside true 0 (crc_step r c) cs)
  | inr other ↦ rw other (scan-outside (crc_step r c) cs)
]

-- The one-pass scan gives the slot that the CRC of the hash tag gives: the tag is what stands between
-- the first `{` and the next `}`, and the whole key where that is empty or there is none.
pub generate-hash_tag : (key : Key) → generate key ≡ slot_of (crc 0 (hash_tag (key_bytes key)))
unfolding generate
generate-hash_tag key =
    scan-outside 0 (key_bytes key) ∙ by_tag (key_bytes key) (behind_open (key_bytes key))
  where
    in_tag :
        (k : List ℕ) (o : Option (List ℕ))
        → tag_slot true 0 (slot_of (crc 0 k)) o ≡ slot_of (crc 0 (nonempty_or k o))
    in_tag k none = refl
    in_tag k (some []) = refl
    in_tag k (some (c ∷ t)) = refl

    by_tag :
        (k : List ℕ) (o : Option (List ℕ))
        → elim o [
          | none ↦ slot_of (crc 0 k)
          | some rest ↦ tag_slot true 0 (slot_of (crc 0 k)) (before_close rest)
        ]
          ≡ slot_of (crc 0 (elim o [ none ↦ k | some rest ↦ nonempty_or k (before_close rest) ]))
    by_tag k none = refl
    by_tag k (some rest) = in_tag k (before_close rest)

-- Every slot is one of the 16384.
generate-lt : (key : Key) → generate key < 16384
generate-lt key = rw (generate-hash_tag key) (unfold slot_of in omega arith)

same_slot-All : (b : ℕ) (ks : List Key) → same_slot b ks ≡ pos b → All (λ j. generate j ≡ b) ks
unfolding same_slot
same_slot-All b [] h = tt
same_slot-All b (j ∷ ks) h = elim (Bool-cases (generate j == b)) [
  | inl same ↦ (ground (arith, same), same_slot-All b ks (rw (same) at h))
  | inr other ↦ absurd (ground (arith, other, h))
]

All-same_slot : (b : ℕ) (ks : List Key) → All (λ j. generate j ≡ b) ks → same_slot b ks ≡ pos b
unfolding same_slot
All-same_slot b [] h = refl
All-same_slot b (j ∷ ks) h = ground (arith, h.0, All-same_slot b ks h.1)

same_slot-or : (b : ℕ) (ks : List Key) → (same_slot b ks ≡ pos b) ⊎ (same_slot b ks ≡ negsuc 0)
unfolding same_slot
same_slot-or b [] = inl refl
same_slot-or b (j ∷ ks) = elim (Bool-cases (generate j == b)) [
  | inl same ↦ rw same (same_slot-or b ks)
  | inr other ↦ inr (rw other refl)
]

-- Several keys have a slot in common exactly when all have the first one's: it is then the result,
-- and otherwise the result is -1.
generate_multi_iff :
    (k : Key) (ks : List Key)
    → ((generate_multi k ks ≡ pos (generate k)) ↔ All (λ j. generate j ≡ generate k) ks)
      × ((generate_multi k ks ≡ pos (generate k)) ⊎ (generate_multi k ks ≡ negsuc 0))
unfolding generate_multi
generate_multi_iff k ks =
    ((same_slot-All (generate k) ks, All-same_slot (generate k) ks), same_slot-or (generate k) ks)
