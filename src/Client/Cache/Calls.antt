-- ===== src/Client/Cache/Calls.antt =====
-- cache.ts: handleCache, cut where it waits, and the sequences of such steps on one cache.
use node_redis.Base.{ℕ, ◌+◌, Bool, if◌then◌else◌, none, some, List, [], ◌∷◌}
use node_redis.Base.Text.{Text}
use node_redis.Client.Cache.{
  Content, value, promise, Entry, Cache, validate, expiry, record_hits, record_misses,
  record_load_success, record_load_failure, delete,
}
use node_redis.Client.Cache.Operations.{get, set, invalidate, clear, invalidate_all}

-- What a call does up to its first wait: it returns a value, waits on the promise of an entry, or
-- sends the command itself, with a new entry.
pub data Begun (V : Type 0) : Type 0 where
  hit : V → Begun V
  waits loads : Entry V → Begun V

module _ {V : Type 0} where
  unfoldable pub new_entry : Cache V → Content V → (now : ℕ) → Entry V
  unfolding expiry
  new_entry c content now = record { id = c.next_id; expire_time = expiry c now; content = content }

  unfoldable pub create :
      Cache V → (cache_key : Text) → Content V → (keys : List Text) → (now : ℕ) → Cache V
  unfolding set new_entry
  create c ck content ks now =
      set (record c { next_id = c.next_id + 1 }) ck (new_entry c content now) ks

  -- `now` is read by `get`, and `now'` for a new entry.
  unfoldable pub begin :
      Cache V → (cache_key : Text) → (keys : List Text) → (now now' : ℕ) → Cache V × Begun V
  unfolding get create
  begin c ck ks now now' =
      let g = get c ck now in
      let missed = record_misses g.0 1 in
      elim g.1 [
        | none ↦ (create missed ck promise ks now', loads (new_entry missed promise now'))
        | some e ↦ elim e.content [
          | value v ↦ (record_hits g.0 1, hit v)
          | promise ↦ (missed, waits e)
        ]
      ]

  -- Behind the wait, with the transformed reply `v`; `e` is the entry that was waited on. `now` is
  -- read by `validate`, and `now'` for the entry of the value.
  unfoldable pub finish :
      Cache V
      → (cache_key : Text) → (keys : List Text) → Entry V
      → V
      → (storable : Bool) → (now now' : ℕ) → Cache V
  unfolding create validate delete
  finish c ck ks e v storable now now' =
      if storable
      then (if validate c e now then create c ck (value v) ks now' else c)
      else (if validate c e now then delete c ck else c)

  -- The command failed; the call that sent it removes its entry, and throws.
  unfoldable pub fail : Cache V → (cache_key : Text) → Entry V → (now load_time : ℕ) → Cache V
  unfolding validate delete record_load_failure
  fail c ck e now t =
      let c' = record_load_failure c t in if validate c' e now then delete c' ck else c'

-- The steps that change a cache, whichever calls they belong to.
pub data Operation (V : Type 0) : Type 0 where
  call : (cache_key : Text) → (keys : List Text) → (now now' : ℕ) → Operation V
  loaded : (load_time : ℕ) → Operation V
  store :
      (cache_key : Text)
      → (keys : List Text) → Entry V
      → V
      → (storable : Bool) → (now now' : ℕ) → Operation V
  failed : (cache_key : Text) → Entry V → (now load_time : ℕ) → Operation V
  key_changed : (key : Text) → Operation V
  all_changed : Operation V
  cleared : (reset_stats : Bool) → Operation V

module _ {V : Type 0} where
  unfoldable pub step : Cache V → Operation V → Cache V
  unfolding begin record_load_success finish fail invalidate invalidate_all clear
  step c (call ck ks now now') = (begin c ck ks now now').0
  step c (loaded t) = record_load_success c t
  step c (store ck ks e v storable now now') = finish c ck ks e v storable now now'
  step c (failed ck e now t) = fail c ck e now t
  step c (key_changed key) = invalidate c key
  step c all_changed = invalidate_all c
  step c (cleared reset_stats) = clear c reset_stats

  unfoldable pub steps : Cache V → List (Operation V) → Cache V
  unfolding step
  steps c [] = c
  steps c (o ∷ os) = steps (step c o) os
