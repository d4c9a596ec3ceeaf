-- ===== src/Client/Cache/Index.antt =====
-- The index of the client-side cache by Redis key, and what setting and deleting do to it.
use node_redis.Base.{
  ◌≡◌, Bool, true, false, not, ◌&&◌, ◌||◌, none, some, List, [], ◌∷◌, arith, Option-cases, inl, inr,
}
use node_redis.Base.Text.{
  Text, same, same_iff, contains, insert, without, contains-insert, contains-without,
}
use node_redis.Base.Map.{find, find-put, find-remove}
use node_redis.Client.Cache.{index_key, index_keys, unindex_key, unindex_keys}

-- Does the Set of a Redis key hold the cache key, and do the keys of a cache key hold the Redis key?
abbrev pub held : (key cache_key : Text) → List (Text × List Text) → Bool
held key ck m = elim (find key m) [ none ↦ false | some s ↦ contains ck s ]

abbrev pub known {ℓ} : {A : Type ℓ} → Text → List (Text × A) → Bool
known k m = elim (find k m) [ none ↦ false | some v ↦ true ]

-- The index and the lists of keys say the same.
abbrev pub Agree : (index keys_of : List (Text × List Text)) → Type 0
Agree ix ko = (key ck : Text) → held key ck ix ≡ held ck key ko

contains_one : (s t : Text) → contains s (t ∷ []) ≡ same t s
unfolding contains
contains_one s t = ground arith

held-index_key :
    (ck k key ck' : Text) (ix : List (Text × List Text))
    → held key ck' (index_key ck k ix) ≡ ((same k key && same ck ck') || held key ck' ix)
unfolding index_key
held-index_key ck k key ck' ix = elim (Option-cases (find k ix)) [
  | inl absent ↦ ground (
    arith,
    absent,
    find-put k key (ck ∷ []) ix,
    same_iff k key,
    same_iff ck ck',
    contains_one ck' ck,
  )
  | inr (s, found) ↦
      ground
        (arith, found, find-put k key (insert ck s) ix, same_iff k key, contains-insert ck' ck s)
]

pub held-index_keys :
    (ck key ck' : Text) (ks : List Text) (ix : List (Text × List Text))
    → held key ck' (index_keys ck ks ix) ≡ ((same ck ck' && contains key ks) || held key ck' ix)
unfolding index_keys contains
held-index_keys ck key ck' [] ix = ground arith
held-index_keys ck key ck' (k ∷ ks) ix =
    ground
      (arith, held-index_keys ck key ck' ks (index_key ck k ix), held-index_key ck k key ck' ix)

held-unindex_key :
    (ck k key ck' : Text) (ix : List (Text × List Text))
    → held key ck' (unindex_key ck k ix) ≡ (not (same k key && same ck ck') && held key ck' ix)
unfolding unindex_key contains
held-unindex_key ck k key ck' ix = elim (Option-cases (find k ix)) [
  | inl absent ↦ ground (arith, absent, same_iff k key)
  | inr (s, found) ↦ ground (
    arith,
    found,
    find-put k key (without ck s) ix,
    find-remove k key ix,
    same_iff k key,
    contains-without ck' ck s,
  )
]

pub held-unindex_keys :
    (ck key ck' : Text) (ks : List Text) (ix : List (Text × List Text))
    → held key ck' (unindex_keys ck ks ix)
      ≡ (not (same ck ck' && contains key ks) && held key ck' ix)
unfolding unindex_keys contains
held-unindex_keys ck key ck' [] ix = ground arith
held-unindex_keys ck key ck' (k ∷ ks) ix =
    ground (
      arith,
      held-unindex_keys ck key ck' ks (unindex_key ck k ix),
      held-unindex_key ck k key ck' ix,
    )
