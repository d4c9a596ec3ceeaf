-- ===== src/Client/Cache.antt =====
-- packages/client/lib/client/cache.ts: the client-side cache, BasicClientSideCache.
-- The three Maps are Base.Map. An entry is shared between the Map and the calls that wait on it, so
-- its flag `#invalidated` is kept by its id. `V` is the type of the transformed replies; their deep
-- copies, the events that are emitted and the diagnostics channels are not part of the model. Each
-- reading of the clock is an argument.
pub mod Key
pub mod Stats
pub mod Counted
pub mod Operations
pub mod Calls
pub mod Deletes
pub mod Lookup
pub mod Induction
pub mod Index
pub mod Consistency
pub mod Invariant
pub mod Bound
pub mod Flags
pub mod Ids
pub mod Loads
pub mod Tracking
pub mod Staleness
mod Tests
use node_redis.Base.{
  ℕ, zero, suc, ◌+◌, ◌-◌, Bool, true, false, not, ◌&&◌, ◌||◌, ◌==◌, ltb, leb, if◌then◌else◌, Option,
  none, some, List, [], ◌∷◌, length,
}
use node_redis.Base.Text.{Text, contains, insert, without}
use node_redis.Base.Map.{find, has, put, remove}

-- `#hitCount` and the other counters, which CacheStats has too.
pub record CacheStats : Type 0 where
  pub hit_count : ℕ
  pub miss_count : ℕ
  pub load_success_count : ℕ
  pub load_failure_count : ℕ
  pub total_load_time : ℕ
  pub eviction_count : ℕ

pub data Content (V : Type 0) : Type 0 where
  value : V → Content V
  promise : Content V

-- `expire_time` is 0 for none.
pub record Entry (V : Type 0) : Type 0 where
  pub id : ℕ
  pub expire_time : ℕ
  pub content : Content V

-- `stats` is none when they are disabled.
pub record Cache (V : Type 0) : Type 0 where
  pub ttl : ℕ
  pub max_entries : ℕ
  pub lru : Bool
  pub entries : List (Text × Entry V)
  pub key_index : List (Text × List Text)
  pub keys_of : List (Text × List Text)
  pub invalidated : List ℕ
  pub next_id : ℕ
  pub stats : Option CacheStats

unfoldable pub empty_stats : CacheStats
empty_stats = record {
  hit_count = 0;
  miss_count = 0;
  load_success_count = 0;
  load_failure_count = 0;
  total_load_time = 0;
  eviction_count = 0;
}

unfoldable pub contains_id : ℕ → List ℕ → Bool
contains_id i [] = false
contains_id i (j ∷ js) = (j == i) || contains_id i js

-- The cache keys of a Redis key; a Set that is not there is empty.
unfoldable pub index_key :
    (cache_key key : Text) → List (Text × List Text) → List (Text × List Text)
index_key ck key ix = elim (find key ix) [
  | none ↦ put key (ck ∷ []) ix
  | some s ↦ put key (insert ck s) ix
]

unfoldable pub index_keys :
    (cache_key : Text) → List Text → List (Text × List Text) → List (Text × List Text)
unfolding index_key
index_keys ck [] ix = ix
index_keys ck (k ∷ ks) ix = index_keys ck ks (index_key ck k ix)

unfoldable pub unindex_key :
    (cache_key key : Text) → List (Text × List Text) → List (Text × List Text)
unindex_key ck key ix = elim (find key ix) [
  | none ↦ ix
  | some s ↦ elim (without ck s) [ [] ↦ remove key ix | t ∷ ts ↦ put key (t ∷ ts) ix ]
]

unfoldable pub unindex_keys :
    (cache_key : Text) → List Text → List (Text × List Text) → List (Text × List Text)
unfolding unindex_key
unindex_keys ck [] ix = ix
unindex_keys ck (k ∷ ks) ix = unindex_keys ck ks (unindex_key ck k ix)

module _ {V : Type 0} where
  unfoldable pub new_cache : (ttl max_entries : ℕ) (lru record_stats : Bool) → Cache V
  new_cache ttl max_entries lru record_stats = record {
    ttl = ttl;
    max_entries = max_entries;
    lru = lru;
    entries = [];
    key_index = [];
    keys_of = [];
    invalidated = [];
    next_id = 0;
    stats = if record_stats then some empty_stats else none;
  }

  unfoldable pub is_invalidated : Cache V → ℕ → Bool
  unfolding contains_id
  is_invalidated c id = contains_id id c.invalidated

  unfoldable pub validate : Cache V → Entry V → (now : ℕ) → Bool
  unfolding is_invalidated
  validate c e now = not (is_invalidated c e.id) && ((e.expire_time == 0) || ltb now e.expire_time)

  -- `Date.now() + ttl`, or 0.
  unfoldable pub expiry : Cache V → (now : ℕ) → ℕ
  expiry c now = if c.ttl == 0 then 0 else now + c.ttl

  unfoldable pub update_stats : (CacheStats → CacheStats) → Cache V → Cache V
  update_stats f c = record c { stats = elim c.stats [ none ↦ none | some s ↦ some (f s) ] }

  unfoldable pub record_evictions : Cache V → ℕ → Cache V
  unfolding update_stats
  record_evictions c n = update_stats (λ s. record s { eviction_count = s.eviction_count + n }) c

  unfoldable pub record_hits : Cache V → ℕ → Cache V
  unfolding update_stats
  record_hits c n = update_stats (λ s. record s { hit_count = s.hit_count + n }) c

  unfoldable pub record_misses : Cache V → ℕ → Cache V
  unfolding update_stats
  record_misses c n = update_stats (λ s. record s { miss_count = s.miss_count + n }) c

  unfoldable pub record_load_success : Cache V → (load_time : ℕ) → Cache V
  unfolding update_stats
  record_load_success c t =
      update_stats
        (λ s. record s {
          load_success_count = s.load_success_count + 1;
          total_load_time = s.total_load_time + t;
        })
        c

  unfoldable pub record_load_failure : Cache V → (load_time : ℕ) → Cache V
  unfolding update_stats
  record_load_failure c t =
      update_stats
        (λ s. record s {
          load_failure_count = s.load_failure_count + 1;
          total_load_time = s.total_load_time + t;
        })
        c

  -- `entry.invalidate()`.
  unfoldable pub invalidate_entry : Cache V → Entry V → Cache V
  invalidate_entry c e = record c { invalidated = e.id ∷ c.invalidated }

  unfoldable pub delete_from_key_index : Cache V → (cache_key : Text) → Cache V
  unfolding unindex_keys
  delete_from_key_index c ck = elim (find ck c.keys_of) [
    | none ↦ c
    | some ks ↦ record c {
      keys_of = remove ck c.keys_of;
      key_index = unindex_keys ck ks c.key_index;
    }
  ]

  unfoldable pub delete_entry : Cache V → (cache_key : Text) → Cache V
  unfolding invalidate_entry
  delete_entry c ck = elim (find ck c.entries) [
    | none ↦ c
    | some e ↦ record (invalidate_entry c e) { entries = remove ck c.entries }
  ]

  unfoldable pub delete : Cache V → (cache_key : Text) → Cache V
  unfolding delete_entry delete_from_key_index
  delete c ck = delete_from_key_index (delete_entry c ck) ck
