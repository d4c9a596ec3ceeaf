-- ===== src/Client/Cache/Stats.antt =====
-- cache.ts: the counters of the client-side cache, CacheStats, DefaultStatsCounter and
-- DisabledStatsCounter.
use node_redis.Base.{ℕ, ◌+◌, ◌-◌, true, none, some, List, [], ◌∷◌}
use node_redis.Client.Cache.{CacheStats, Cache, empty_stats}
use node_redis.Client.Cache.Calls.{Operation, call, cleared}

unfoldable pub request_count : CacheStats → ℕ
request_count s = s.hit_count + s.miss_count

unfoldable pub load_count : CacheStats → ℕ
load_count s = s.load_success_count + s.load_failure_count

-- `Math.max(0, …)` is the subtraction that stops at 0.
unfoldable pub minus : CacheStats → CacheStats → CacheStats
minus s other = record {
  hit_count = s.hit_count - other.hit_count;
  miss_count = s.miss_count - other.miss_count;
  load_success_count = s.load_success_count - other.load_success_count;
  load_failure_count = s.load_failure_count - other.load_failure_count;
  total_load_time = s.total_load_time - other.total_load_time;
  eviction_count = s.eviction_count - other.eviction_count;
}

unfoldable pub plus : CacheStats → CacheStats → CacheStats
plus s other = record {
  hit_count = s.hit_count + other.hit_count;
  miss_count = s.miss_count + other.miss_count;
  load_success_count = s.load_success_count + other.load_success_count;
  load_failure_count = s.load_failure_count + other.load_failure_count;
  total_load_time = s.total_load_time + other.total_load_time;
  eviction_count = s.eviction_count + other.eviction_count;
}

-- `stats()`; a cache that records none has the empty ones.
unfoldable pub snapshot : {V : Type 0} → Cache V → CacheStats
unfolding empty_stats
snapshot c = elim c.stats [ none ↦ empty_stats | some s ↦ s ]

-- The calls of a history since the counters were reset, after `n` earlier ones.
unfoldable pub calls_since_reset : {V : Type 0} → List (Operation V) → ℕ → ℕ
calls_since_reset [] n = n
calls_since_reset (call ck ks now now' ∷ os) n = calls_since_reset os (n + 1)
calls_since_reset (cleared true ∷ os) n = calls_since_reset os 0
calls_since_reset (o ∷ os) n = calls_since_reset os n
