-- ===== src/Client/Cache/Counted.antt =====
-- The counters of the client-side cache count each call once.
use node_redis.Base.{
  ℕ, ◌+◌, ◌≡◌, refl, ap, subst, ◌∙◌, sym, Bool, true, false, if◌then◌else◌, Option, some, List, [],
  ◌∷◌, arith, ltb, Bool-cases, inl, inr,
}
use node_redis.Base.Text.{Text}
use node_redis.Client.Cache.{
  CacheStats, Entry, Content, value, promise, Cache, empty_stats, update_stats, record_evictions,
  record_hits, record_misses, record_load_success, record_load_failure, delete, new_cache, validate,
  invalidate_entry,
}
use node_redis.Client.Cache.Operations.{
  size, delete_oldest, get, set, invalidate_each, invalidate, clear, invalidate_all, drop_old,
  make_room, write_entry, count_others,
}
use node_redis.Client.Cache.Calls.{
  Begun, create, begin, finish, fail, Operation, call, loaded, store, failed, key_changed,
  all_changed, cleared, step, steps,
}
use node_redis.Client.Cache.Deletes.{
  delete_lem, delete_oldest_lem, drop_old_lem, make_room_lem, delete_from_key_index_lem,
}
use node_redis.Client.Cache.Lookup.{begin_lem, get_lem, finish_lem, invalidate_lem}
use node_redis.Client.Cache.Stats.{request_count, snapshot, calls_since_reset}

-- The counters are kept, and have counted `n` requests.
abbrev Counts : ℕ → Option CacheStats → Type 0
Counts n stats = (s : CacheStats) × (stats ≡ some s) × (request_count s ≡ n)

module _ {V : Type 0} where
  evictions-Counts :
      (n k : ℕ) (c : Cache V) → Counts n c.stats → Counts n (record_evictions c k).stats
  unfolding record_evictions update_stats request_count
  evictions-Counts n k c (s, kept, counted) =
      (record s { eviction_count = s.eviction_count + k }, rw kept refl, counted)

  make_room-Counts :
      (n : ℕ) (c : Cache V) (count : ℕ) → Counts n c.stats → Counts n (make_room c count).stats
  make_room-Counts n c count h = elim (make_room_lem c count) [
    | inl (room, r) ↦ subst Good (sym r) h
    | inr (bounded, full, r) ↦ subst Good (sym r) (
        evictions-Counts n 1 (delete_oldest c) (elim (delete_oldest_lem c) [
          | inl (empty, unchanged) ↦ subst Good (sym unchanged) h
          | inr (k, deleted, shorter) ↦
              subst Good (sym deleted) (subst (Counts n) (sym (delete_lem c k).1) h)
        ]))
  ]
    where
      Good : Cache V → Type 0
      Good d = Counts n d.stats

  stats-drop_old : (c : Cache V) (ck : Text) → (drop_old c ck).stats ≡ c.stats
  unfolding invalidate_entry
  stats-drop_old c ck = elim (drop_old_lem c ck) [
    | inl (absent, r) ↦ ap (λ d. d.stats) r
    | inr (old, found, r) ↦
        ap (λ d. d.stats) r ∙ (delete_from_key_index_lem (invalidate_entry c old) ck).3
  ]

  delete-Counts :
      (n : ℕ) (c : Cache V) (ck : Text) → Counts n c.stats → Counts n (delete c ck).stats
  delete-Counts n c ck h = subst (Counts n) (sym (delete_lem c ck).1) h

  create-Counts :
      (n : ℕ) (c : Cache V) (ck : Text) (content : Content V) (ks : List Text) (now : ℕ)
      → Counts n c.stats
      → Counts n (create c ck content ks now).stats
  unfolding create set write_entry
  create-Counts n c ck content ks now h =
      let c' : Cache V = record c { next_id = c.next_id + 1 } in
      make_room-Counts n (drop_old c' ck) (count_others c' ck)
        (subst (Counts n) (sym (stats-drop_old c' ck)) h)

  get-Counts :
      (n : ℕ) (c : Cache V) (ck : Text) (now : ℕ)
      → Counts n c.stats
      → Counts n (get c ck now).0.stats
  get-Counts n c ck now h = elim (get_lem c ck now) [
    | inl (absent, r) ↦ subst Good (sym r) h
    | inr (inl (e, found, valid, fifo, r)) ↦ subst Good (sym r) h
    | inr (inr (inl (e, found, valid, lru, r))) ↦ subst Good (sym r) h
    | inr (inr (inr (e, found, stale, r))) ↦
        subst Good (sym r) (evictions-Counts n 1 (delete c ck) (delete-Counts n c ck h))
  ]
    where
      Good : Cache V × Option (Entry V) → Type 0
      Good g = Counts n g.0.stats

  hit-Counts : (n : ℕ) (c : Cache V) → Counts n c.stats → Counts (n + 1) (record_hits c 1).stats
  unfolding record_hits update_stats request_count
  hit-Counts n c (s, kept, counted) =
      (record s { hit_count = s.hit_count + 1 }, rw kept refl, omega arith)

  miss-Counts : (n : ℕ) (c : Cache V) → Counts n c.stats → Counts (n + 1) (record_misses c 1).stats
  unfolding record_misses update_stats request_count
  miss-Counts n c (s, kept, counted) =
      (record s { miss_count = s.miss_count + 1 }, rw kept refl, omega arith)

  begin-Counts :
      (n : ℕ) (c : Cache V) (ck : Text) (ks : List Text) (now now' : ℕ)
      → Counts n c.stats
      → Counts (n + 1) (begin c ck ks now now').0.stats
  begin-Counts n c ck ks now now' h =
      let g : Cache V × Option (Entry V) = get c ck now in
      let good : Counts n g.0.stats = get-Counts n c ck now h in
      elim (begin_lem c ck ks now now') [
        | inl (missing, r) ↦ subst Good (sym r) (
            create-Counts (n + 1) (record_misses g.0 1) ck promise ks now' (miss-Counts n g.0 good))
        | inr (inl (e, v, found, ready, r)) ↦ subst Good (sym r) (hit-Counts n g.0 good)
        | inr (inr (e, found, pending, r)) ↦ subst Good (sym r) (miss-Counts n g.0 good)
      ]
    where
      Good : Cache V × Begun V → Type 0
      Good b = Counts (n + 1) b.0.stats

  load-Counts :
      (n : ℕ) (c : Cache V) (t : ℕ)
      → Counts n c.stats
      → Counts n (record_load_success c t).stats × Counts n (record_load_failure c t).stats
  unfolding record_load_success record_load_failure update_stats request_count
  load-Counts n c t (s, kept, counted) = (
    (
      record s {
        load_success_count = s.load_success_count + 1;
        total_load_time = s.total_load_time + t;
      },
      rw kept refl,
      counted,
    ),
    (
      record s {
        load_failure_count = s.load_failure_count + 1;
        total_load_time = s.total_load_time + t;
      },
      rw kept refl,
      counted,
    ),
  )

  finish-Counts :
      (n : ℕ) (c : Cache V) (ck : Text) (ks : List Text) (e : Entry V) (v : V) (storable : Bool)
      (now now' : ℕ)
      → Counts n c.stats
      → Counts n (finish c ck ks e v storable now now').stats
  finish-Counts n c ck ks e v storable now now' h =
      elim (finish_lem c ck ks e v storable now now') [
        | inl (stale, r) ↦ subst Good (sym r) h
        | inr (inl (valid, may, r)) ↦ subst Good (sym r) (create-Counts n c ck (value v) ks now' h)
        | inr (inr (valid, must, r)) ↦ subst Good (sym r) (delete-Counts n c ck h)
      ]
    where
      Good : Cache V → Type 0
      Good d = Counts n d.stats

  fail-Counts :
      (n : ℕ) (c : Cache V) (ck : Text) (e : Entry V) (now t : ℕ)
      → Counts n c.stats
      → Counts n (fail c ck e now t).stats
  unfolding fail
  fail-Counts n c ck e now t h =
      let c' : Cache V = record_load_failure c t in
      let good : Counts n c'.stats = (load-Counts n c t h).1 in
      elim (validate c' e now) as (λ b. Counts n (if b then delete c' ck else c').stats) [
        | true ↦ delete-Counts n c' ck good
        | false ↦ good
      ]

  invalidate_each-Counts :
      (n : ℕ) (cks : List Text) (c : Cache V)
      → Counts n c.stats
      → Counts n (invalidate_each cks c).stats
  unfolding invalidate_each
  invalidate_each-Counts n [] c h = h
  invalidate_each-Counts n (ck ∷ cks) c h =
      invalidate_each-Counts n cks (delete c ck) (delete-Counts n c ck h)

  invalidate-Counts :
      (n : ℕ) (c : Cache V) (key : Text) → Counts n c.stats → Counts n (invalidate c key).stats
  invalidate-Counts n c key h = elim (invalidate_lem c key) [
    | inl (absent, r) ↦ subst Good (sym r) h
    | inr (cks, found, r) ↦ subst Good (sym r) (invalidate_each-Counts n cks c h)
  ]
    where
      Good : Cache V → Type 0
      Good d = Counts n d.stats

  clear-Counts : (n : ℕ) (c : Cache V) → Counts n c.stats → Counts n (clear c false).stats
  unfolding clear record_evictions update_stats request_count size
  clear-Counts n c (s, kept, counted) = elim (Bool-cases (ltb 0 (size c))) [
    | inl some_left ↦ (
      record s { eviction_count = s.eviction_count + size c },
      ground (arith, some_left, kept),
      counted,
    )
    | inr empty ↦ (s, ground (arith, empty, kept), counted)
  ]

  reset-Counts : (n : ℕ) (c : Cache V) → Counts n c.stats → Counts 0 (clear c true).stats
  unfolding clear empty_stats request_count
  reset-Counts n c (s, kept, counted) = (empty_stats, rw kept refl, refl)

  steps-Counts :
      (n : ℕ) (os : List (Operation V)) (c : Cache V)
      → Counts n c.stats
      → Counts (calls_since_reset os n) (steps c os).stats
  unfolding steps step calls_since_reset invalidate_all
  steps-Counts n [] c h = h
  steps-Counts n (call ck ks now now' ∷ os) c h =
      steps-Counts (n + 1) os (step c (call ck ks now now')) (begin-Counts n c ck ks now now' h)
  steps-Counts n (loaded t ∷ os) c h = steps-Counts n os (step c (loaded t)) (load-Counts n c t h).0
  steps-Counts n (store ck ks e v storable now now' ∷ os) c h =
      steps-Counts n os (finish c ck ks e v storable now now')
        (finish-Counts n c ck ks e v storable now now' h)
  steps-Counts n (failed ck e now t ∷ os) c h =
      steps-Counts n os (fail c ck e now t) (fail-Counts n c ck e now t h)
  steps-Counts n (key_changed key ∷ os) c h =
      steps-Counts n os (invalidate c key) (invalidate-Counts n c key h)
  steps-Counts n (all_changed ∷ os) c h = steps-Counts n os (clear c false) (clear-Counts n c h)
  steps-Counts n (cleared true ∷ os) c h = steps-Counts 0 os (clear c true) (reset-Counts n c h)
  steps-Counts n (cleared false ∷ os) c h = steps-Counts n os (clear c false) (clear-Counts n c h)

  -- On a cache that records statistics, the hits and the misses together count every call once since
  -- the statistics were reset, whatever else happened on the cache.
  pub request_count-steps :
      (ttl max_entries : ℕ) (lru : Bool) (os : List (Operation V))
      → request_count (snapshot (steps (new_cache ttl max_entries lru true) os))
        ≡ calls_since_reset os 0
  unfolding snapshot
  request_count-steps ttl max_entries lru os =
      let (s, kept, counted) =
        steps-Counts 0 os (new_cache ttl max_entries lru true)
          (unfold new_cache request_count in (empty_stats, refl, refl)) in
      rw kept counted
