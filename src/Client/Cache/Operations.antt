-- ===== src/Client/Cache/Operations.antt =====
-- cache.ts: the operations of the client-side cache: get, set, invalidate and clear.
use node_redis.Base.{
  ℕ, ◌-◌, Bool, false, ◌&&◌, ltb, leb, if◌then◌else◌, Option, none, some, List, [], ◌∷◌, length,
}
use node_redis.Base.Text.{Text}
use node_redis.Base.Map.{find, put, remove}
use node_redis.Client.Cache.{
  empty_stats, index_keys, validate, record_evictions, invalidate_entry, delete_from_key_index,
  delete, Entry, Cache,
}

module _ {V : Type 0} where
  -- The first key of the Map is the oldest.
  unfoldable pub delete_oldest : Cache V → Cache V
  unfolding delete
  delete_oldest c = elim c.entries [ [] ↦ c | (ck, e) ∷ rest ↦ delete c ck ]

  unfoldable pub size : Cache V → ℕ
  size c = length c.entries

  unfoldable pub get : Cache V → (cache_key : Text) → (now : ℕ) → Cache V × Option (Entry V)
  unfolding validate delete record_evictions
  get c ck now = elim (find ck c.entries) [
    | none ↦ (c, none)
    | some e ↦
        if validate c e now
        then (if c.lru then record c { entries = put ck e (remove ck c.entries) } else c, some e)
        else (record_evictions (delete c ck) 1, none)
  ]

  -- An entry that is overwritten is invalidated, and leaves the index.
  unfoldable pub drop_old : Cache V → (cache_key : Text) → Cache V
  unfolding invalidate_entry delete_from_key_index
  drop_old c ck = elim (find ck c.entries) [
    | none ↦ c
    | some old ↦ delete_from_key_index (invalidate_entry c old) ck
  ]

  unfoldable pub count_others : Cache V → (cache_key : Text) → ℕ
  unfolding size
  count_others c ck = elim (find ck c.entries) [ none ↦ size c | some old ↦ size c - 1 ]

  unfoldable pub make_room : Cache V → (count : ℕ) → Cache V
  unfolding delete_oldest record_evictions
  make_room c count =
      if ltb 0 c.max_entries && leb c.max_entries count
      then record_evictions (delete_oldest c) 1
      else c

  unfoldable pub write_entry : Cache V → (cache_key : Text) → Entry V → (keys : List Text) → Cache V
  unfolding index_keys
  write_entry c ck e ks = record c {
    entries = put ck e c.entries;
    keys_of = put ck ks c.keys_of;
    key_index = index_keys ck ks c.key_index;
  }

  -- `keys` are encoded for the index.
  unfoldable pub set : Cache V → (cache_key : Text) → Entry V → (keys : List Text) → Cache V
  unfolding drop_old count_others make_room write_entry
  set c ck e ks = write_entry (make_room (drop_old c ck) (count_others c ck)) ck e ks

  unfoldable pub invalidate_each : List Text → Cache V → Cache V
  unfolding delete
  invalidate_each [] c = c
  invalidate_each (ck ∷ cks) c = invalidate_each cks (delete c ck)

  -- `invalidate` of a key, encoded for the index.
  unfoldable pub invalidate : Cache V → (key : Text) → Cache V
  unfolding invalidate_each
  invalidate c key = elim (find key c.key_index) [
    | none ↦ c
    | some cks ↦ let c' = invalidate_each cks c in record c' { key_index = remove key c'.key_index }
  ]

  unfoldable pub clear : Cache V → (reset_stats : Bool) → Cache V
  unfolding size record_evictions
  clear c reset_stats =
      let cleared = record c { entries = []; key_index = []; keys_of = [] } in
      if reset_stats
      then record cleared { stats = elim c.stats [ none ↦ none | some s ↦ some empty_stats ] }
      else (if ltb 0 (size c) then record_evictions cleared (size c) else cleared)

  -- `invalidate(null)`.
  unfoldable pub invalidate_all : Cache V → Cache V
  unfolding clear
  invalidate_all c = clear c false
