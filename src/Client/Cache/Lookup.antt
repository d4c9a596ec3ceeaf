-- ===== src/Client/Cache/Lookup.antt =====
-- The outcomes of `get` on the client-side cache, and of handleCache behind its wait.
use node_redis.Base.{
  ℕ, ◌≡◌, ◌⊎◌, refl, Bool, true, false, none, some, List, [], arith, Option-cases, Bool-cases, inl,
  inr,
}
use node_redis.Base.Text.{Text, same_refl}
use node_redis.Base.Map.{find, put, remove, find-put}
use node_redis.Client.Cache.{
  Content, value, promise, Entry, Cache, validate, record_evictions, delete, record_hits,
  record_misses, update_stats,
}
use node_redis.Client.Cache.Operations.{
  get, clear, set, write_entry, make_room, drop_old, count_others, invalidate, invalidate_each,
}
use node_redis.Client.Cache.Calls.{hit, waits, loads, new_entry, create, begin, finish}

module _ {V : Type 0} where
  -- No entry; a valid one, which an LRU cache moves to the end; or one that has expired.
  pub get_lem :
      (c : Cache V) (ck : Text) (now : ℕ)
      → ((find ck c.entries ≡ none) × (get c ck now ≡ (c, none)))
        ⊎ (((e : Entry V) × (find ck c.entries ≡ some e)
              × (validate c e now ≡ true)
              × (c.lru ≡ false)
              × (get c ck now ≡ (c, some e)))
            ⊎ (((e : Entry V) × (find ck c.entries ≡ some e)
                  × (validate c e now ≡ true)
                  × (c.lru ≡ true)
                  × (get c ck now
                      ≡ (record c { entries = put ck e (remove ck c.entries) }, some e)))
                ⊎ ((e : Entry V) × (find ck c.entries ≡ some e)
                    × (validate c e now ≡ false)
                    × (get c ck now ≡ (record_evictions (delete c ck) 1, none)))))
  unfolding get
  get_lem c ck now = elim (Option-cases (find ck c.entries)) [
    | inl absent ↦ inl (absent, simp (get, absent))
    | inr (e, found) ↦ inr (elim (Bool-cases (validate c e now)) [
      | inl valid ↦ elim (Bool-cases c.lru) [
        | inl lru ↦ inr (inl (e, found, valid, lru, simp (get, found, valid, lru)))
        | inr fifo ↦ inl (e, found, valid, fifo, simp (get, found, valid, fifo))
      ]
      | inr stale ↦ inr (inr (e, found, stale, simp (get, found, stale)))
    ])
  ]

  write_entry_lem :
      (c : Cache V) (ck : Text) (e : Entry V) (ks : List Text)
      → (find ck (write_entry c ck e ks).entries ≡ some e)
        × (find ck (write_entry c ck e ks).keys_of ≡ some ks)
  unfolding write_entry
  write_entry_lem c ck e ks = (
    ground (arith, find-put ck ck e c.entries, same_refl ck),
    ground (arith, find-put ck ck ks c.keys_of, same_refl ck),
  )

  -- What is set is there.
  pub set_lem :
      (c : Cache V) (ck : Text) (e : Entry V) (ks : List Text)
      → (find ck (set c ck e ks).entries ≡ some e) × (find ck (set c ck e ks).keys_of ≡ some ks)
  unfolding set
  set_lem c ck e ks = write_entry_lem (make_room (drop_old c ck) (count_others c ck)) ck e ks

  -- A call sends its command, or returns a value, or waits.
  pub begin_lem :
      (c : Cache V) (ck : Text) (ks : List Text) (now now' : ℕ)
      → let g = get c ck now in
        ((g.1 ≡ none)
          × (begin c ck ks now now' ≡ (
            create (record_misses g.0 1) ck promise ks now',
            loads (new_entry (record_misses g.0 1) promise now'),
          )))
        ⊎ (((e : Entry V) × (v : V) × (g.1 ≡ some e)
              × (e.content ≡ value v)
              × (begin c ck ks now now' ≡ (record_hits g.0 1, hit v)))
            ⊎ ((e : Entry V) × (g.1 ≡ some e)
                × (e.content ≡ promise)
                × (begin c ck ks now now' ≡ (record_misses g.0 1, waits e))))
  unfolding begin
  begin_lem c ck ks now now' = elim (Option-cases (get c ck now).1) [
    | inl missing ↦ inl (missing, simp (begin, missing))
    | inr (e, found) ↦ inr (elim (content-cases e.content) [
      | inl (v, loaded) ↦ inl (e, v, found, loaded, simp (begin, found, loaded))
      | inr loading ↦ inr (e, found, loading, simp (begin, found, loading))
    ])
  ]
    where
      content-cases : (content : Content V) → ((v : V) × (content ≡ value v)) ⊎ (content ≡ promise)
      content-cases (value v) = inl (v, refl)
      content-cases promise = inr refl

  -- The Maps are emptied, and the flags of the entries are left as they are.
  pub clear_lem :
      (c : Cache V) (reset_stats : Bool)
      → ((clear c reset_stats).entries ≡ [])
        × ((clear c reset_stats).key_index ≡ [])
        × ((clear c reset_stats).keys_of ≡ [])
        × ((clear c reset_stats).invalidated ≡ c.invalidated)
        × ((clear c reset_stats).ttl ≡ c.ttl)
        × ((clear c reset_stats).max_entries ≡ c.max_entries)
        × ((clear c reset_stats).next_id ≡ c.next_id)
  unfolding clear record_evictions update_stats
  clear_lem c reset_stats = (
    ground arith,
    ground arith,
    ground arith,
    ground arith,
    ground arith,
    ground arith,
    ground arith,
  )

  pub invalidate_lem :
      (c : Cache V) (key : Text)
      → ((find key c.key_index ≡ none) × (invalidate c key ≡ c))
        ⊎ ((cks : List Text) × (find key c.key_index ≡ some cks)
            × (invalidate c key ≡ record (invalidate_each cks c) {
              key_index = remove key (invalidate_each cks c).key_index;
            }))
  unfolding invalidate
  invalidate_lem c key = elim (Option-cases (find key c.key_index)) [
    | inl absent ↦ inl (absent, simp (invalidate, absent))
    | inr (cks, found) ↦ inr (cks, found, simp (invalidate, found))
  ]

  -- Behind the wait, nothing happens to an entry that is not valid any more.
  pub finish_lem :
      (c : Cache V) (ck : Text) (ks : List Text) (e : Entry V) (v : V) (storable : Bool)
      (now now' : ℕ)
      → ((validate c e now ≡ false) × (finish c ck ks e v storable now now' ≡ c))
        ⊎ (((validate c e now ≡ true)
              × (storable ≡ true)
              × (finish c ck ks e v storable now now' ≡ create c ck (value v) ks now'))
            ⊎ ((validate c e now ≡ true)
                × (storable ≡ false)
                × (finish c ck ks e v storable now now' ≡ delete c ck)))
  unfolding finish
  finish_lem c ck ks e v storable now now' = elim (Bool-cases (validate c e now)) [
    | inr stale ↦ inl (stale, unchanged storable stale)
    | inl valid ↦ inr (elim (Bool-cases storable) [
      | inl may ↦ inl (valid, may, simp (finish, may, valid))
      | inr must ↦ inr (valid, must, simp (finish, must, valid))
    ])
  ]
    where
      unchanged :
          (storable : Bool) → validate c e now ≡ false → finish c ck ks e v storable now now' ≡ c
      unchanged true stale = simp (finish, stale)
      unchanged false stale = simp (finish, stale)
