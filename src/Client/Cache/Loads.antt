-- ===== src/Client/Cache/Loads.antt =====
-- What becomes of the reply to a command that the client-side cache sends.
use node_redis.Base.{
  ℕ, ◌+◌, ◌≡◌, ◌<◌, ◌⊎◌, refl, ap, subst, ◌∙◌, sym, Bool, true, false, some, List, arith,
  Bool-cases, inl, inr,
}
use node_redis.Base.Text.{Text}
use node_redis.Base.Map.{find}
use node_redis.Client.Cache.{
  Entry, Content, value, promise, Cache, is_invalidated, contains_id, record_misses, validate,
  expiry, new_cache,
}
use node_redis.Client.Cache.Operations.{get, invalidate_all}
use node_redis.Client.Cache.Calls.{hit, loads, new_entry, create, begin, finish, Operation, steps}
use node_redis.Client.Cache.Lookup.{set_lem, get_lem, begin_lem, finish_lem, clear_lem}
use node_redis.Client.Cache.Induction.{get_kept}
use node_redis.Client.Cache.Ids.{
  Fresh, set_flags, create-Fresh, clear-Fresh, Fresh-IsKept, steps-Fresh,
}

-- The clock has not come to the time that an entry expires.
abbrev Before : (now expire_time : ℕ) → Type 0
Before now expire_time = (expire_time ≡ 0) ⊎ (now < expire_time)

module _ {V : Type 0} where
  -- The cache before it is asked for a new entry.
  abbrev missed : Cache V → Text → ℕ → Cache V
  missed c ck now = record_misses (get c ck now).0 1

  missed-Fresh : (c : Cache V) (ck : Text) (now : ℕ) → Fresh c → Fresh (missed c ck now)
  unfolding record_misses
  missed-Fresh c ck now h =
      Fresh-IsKept.counted _ (get c ck now).0 (get_kept Fresh-IsKept c ck now h)

  -- A new entry is not invalidated by being set.
  created_valid :
      (c : Cache V) (ck : Text) (content : Content V) (ks : List Text) (now : ℕ)
      → Fresh c
      → is_invalidated (create c ck content ks now) c.next_id ≡ false
  created_valid c ck content ks now h =
      elim (Bool-cases (is_invalidated (create c ck content ks now) c.next_id)) [
        | inl flagged ↦ absurd (
            ground (
              arith,
              set_flags c.next_id (record c { next_id = c.next_id + 1 }) ck
                  (new_entry c content now) ks c.next_id (unfold is_invalidated in h)
                  (unfold create in flagged),
            ))
        | inr valid ↦ valid
      ]

  in_time_valid :
      (c : Cache V) (e : Entry V) (now : ℕ)
      → is_invalidated c e.id ≡ false
      → Before now e.expire_time
      → validate c e now ≡ true
  unfolding validate
  in_time_valid c e now valid (inl never) = ground (arith, valid, never)
  in_time_valid c e now valid (inr early) = ground (arith, valid, early)

  get_valid :
      (c : Cache V) (ck : Text) (e : Entry V) (now : ℕ)
      → find ck c.entries ≡ some e
      → validate c e now ≡ true
      → (get c ck now).1 ≡ some e
  get_valid c ck e now found valid = elim (get_lem c ck now) [
    | inl (absent, r) ↦ absurd (ground (arith, found, absent))
    | inr (inl (e', found', valid', fifo, r)) ↦ ap (λ g. g.1) r ∙ sym found' ∙ found
    | inr (inr (inl (e', found', valid', lru, r))) ↦ ap (λ g. g.1) r ∙ sym found' ∙ found
    | inr (inr (inr (e', found', stale, r))) ↦
        let same_entry : some e' ≡ some e = sym found' ∙ found in
        absurd (ground (arith, valid, stale, same_entry))
  ]

  begin_value :
      (c : Cache V) (ck : Text) (ks : List Text) (now now' : ℕ) (e : Entry V) (v : V)
      → (get c ck now).1 ≡ some e
      → e.content ≡ value v
      → (begin c ck ks now now').1 ≡ hit v
  unfolding begin
  begin_value c ck ks now now' e v found ready = simp (begin, found, ready)

  -- A value that is created is what the next call gets.
  created_hit :
      (c : Cache V) (ck : Text) (v : V) (ks : List Text) (now : ℕ)
      → Fresh c
      → (ls : List Text) (u u' : ℕ) → Before u (expiry c now)
      → (begin (create c ck (value v) ks now) ck ls u u').1 ≡ hit v
  created_hit c ck v ks now h ls u u' in_time =
      let d : Cache V = create c ck (value v) ks now in
      let e : Entry V = new_entry c (value v) now in
      let there : find ck d.entries ≡ some e =
        unfold create in
        (set_lem (record c { next_id = c.next_id + 1 }) ck (new_entry c (value v) now) ks).0 in
      begin_value d ck ls u u' e v
        (get_valid d ck e u there (
          in_time_valid d e u (unfold new_entry in created_valid c ck (value v) ks now h)
            (unfold new_entry in in_time)))
        (unfold new_entry in refl)

  begin-loads :
      (c : Cache V) (ck : Text) (ks : List Text) (now now' : ℕ) (e : Entry V)
      → Fresh c
      → (begin c ck ks now now').1 ≡ loads e
      → let d = (begin c ck ks now now').0 in Fresh d × (is_invalidated d e.id ≡ false)
  begin-loads c ck ks now now' e h loading = elim (begin_lem c ck ks now now') [
    | inl (missing, r) ↦
        let m : Cache V = missed c ck now in
        let fresh : Fresh m = missed-Fresh c ck now h in
        let is_it : loads e ≡ loads (new_entry m promise now') = sym loading ∙ ap (λ b. b.1) r in
        let id : e.id ≡ m.next_id = unfold new_entry in ground (arith, is_it) in
        subst (λ b. Fresh b.0 × (is_invalidated b.0 e.id ≡ false)) (sym r)
          (
            create-Fresh m ck promise ks now' fresh,
            ap (is_invalidated (create m ck promise ks now')) id
                ∙ created_valid m ck promise ks now' fresh,
          )
    | inr (inl (old, v, found, ready, r)) ↦ absurd (ground (arith, loading, r))
    | inr (inr (old, found, pending, r)) ↦ absurd (ground (arith, loading, r))
  ]

  finish_hit :
      (d : Cache V) (ck : Text) (ks : List Text) (e : Entry V) (v : V) (t t' : ℕ)
      → Fresh d
      → is_invalidated d e.id ≡ false
      → Before t e.expire_time
      → (ls : List Text) (u u' : ℕ) → Before u (expiry d t')
      → (begin (finish d ck ks e v true t t') ck ls u u').1 ≡ hit v
  finish_hit d ck ks e v t t' fresh valid in_time ls u u' in_time' =
      elim (finish_lem d ck ks e v true t t') [
        | inl (stale, r) ↦ absurd (ground (arith, stale, in_time_valid d e t valid in_time))
        | inr (inl (valid, may, r)) ↦
            ap (λ c. (begin c ck ls u u').1) r ∙ created_hit d ck v ks t' fresh ls u u' in_time'
        | inr (inr (valid, must, r)) ↦ absurd (ground (arith, must))
      ]

  -- A call that sends its command, on any cache that calls, replies, failures, invalidations and
  -- clearings lead to, stores the reply when it comes before the entry has expired and nothing else
  -- happened on the cache; and then the next such call returns that value, until the new entry expires.
  pub begin-finish :
      (ttl max_entries : ℕ) (lru record_stats : Bool) (before : List (Operation V)) (ck : Text)
      (ks : List Text) (now now' : ℕ) (e : Entry V) (v : V) (t t' : ℕ)
      → let c = steps (new_cache ttl max_entries lru record_stats) before in
        (begin c ck ks now now').1 ≡ loads e
        → Before t e.expire_time
        → (ls : List Text) (u u' : ℕ)
        → let d = (begin c ck ks now now').0 in
          Before u (expiry d t') → (begin (finish d ck ks e v true t t') ck ls u u').1 ≡ hit v
  begin-finish ttl max_entries lru record_stats before ck ks now now' e v t t' loading in_time ls u
        u' in_time' =
      let c : Cache V = steps (new_cache ttl max_entries lru record_stats) before in
      let (fresh, valid) =
        begin-loads c ck ks now now' e (steps-Fresh ttl max_entries lru record_stats before)
          loading in
      finish_hit (begin c ck ks now now').0 ck ks e v t t' fresh valid in_time ls u u' in_time'

  -- The same holds when, between the command and its reply, the server has all keys invalidated: the
  -- reply, which may be from before, is stored and returned.
  pub begin-invalidate_all-finish :
      (ttl max_entries : ℕ) (lru record_stats : Bool) (before : List (Operation V)) (ck : Text)
      (ks : List Text) (now now' : ℕ) (e : Entry V) (v : V) (t t' : ℕ)
      → let c = steps (new_cache ttl max_entries lru record_stats) before in
        (begin c ck ks now now').1 ≡ loads e
        → Before t e.expire_time
        → (ls : List Text) (u u' : ℕ)
        → let d = invalidate_all (begin c ck ks now now').0 in
          Before u (expiry d t') → (begin (finish d ck ks e v true t t') ck ls u u').1 ≡ hit v
  begin-invalidate_all-finish ttl max_entries lru record_stats before ck ks now now' e v t t'
        loading in_time ls u u' in_time' =
      let c : Cache V = steps (new_cache ttl max_entries lru record_stats) before in
      let b : Cache V = (begin c ck ks now now').0 in
      let (fresh, valid) =
        begin-loads c ck ks now now' e (steps-Fresh ttl max_entries lru record_stats before)
          loading in
      finish_hit (invalidate_all b) ck ks e v t t'
        (unfold invalidate_all in clear-Fresh b false fresh)
        (unfold invalidate_all is_invalidated in
          ap (contains_id e.id) (clear_lem b false).3 ∙ valid)
        in_time ls u u' in_time'
