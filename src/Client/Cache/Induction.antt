-- ===== src/Client/Cache/Induction.antt =====
-- The induction over the steps of the client-side cache: what its parts keep, every step keeps.
use node_redis.Base.{
  ℕ, ◌≡◌, refl, subst, sym, Bool, true, false, ◌||◌, if◌then◌else◌, arith, Option, some, List, [],
  ◌∷◌, inl, inr,
}
use node_redis.Base.Text.{Text}
use node_redis.Base.Map.{find, put, remove}
use node_redis.Client.Cache.{
  CacheStats, Entry, Content, value, promise, Cache, update_stats, record_evictions, record_hits,
  record_misses, record_load_success, record_load_failure, delete, validate,
}
use node_redis.Client.Cache.Operations.{get, invalidate, clear, invalidate_all}
use node_redis.Client.Cache.Calls.{
  Begun, create, begin, finish, fail, Operation, call, loaded, store, failed, key_changed,
  all_changed, cleared, step, steps,
}
use node_redis.Client.Cache.Lookup.{begin_lem, get_lem, finish_lem}

-- A predicate that the parts of a step keep, `clear` apart.
pub record IsKept {V : Type 0} (P : Cache V → Type 0) : Type 0 where
  pub counted : (f : CacheStats → CacheStats) (c : Cache V) → P c → P (update_stats f c)
  pub deleted : (c : Cache V) (ck : Text) → P c → P (delete c ck)
  pub created :
      (c : Cache V) (ck : Text) (content : Content V) (ks : List Text) (now : ℕ)
      → P c
      → P (create c ck content ks now)
  pub moved :
      (c : Cache V) (ck : Text) (e : Entry V)
      → find ck c.entries ≡ some e
      → P c
      → P (record c { entries = put ck e (remove ck c.entries) })
  pub changed : (c : Cache V) (key : Text) → P c → P (invalidate c key)

-- The steps that empty the cache.
unfoldable pub clears : {V : Type 0} → Operation V → Bool
clears all_changed = true
clears (cleared reset_stats) = true
clears _ = false

unfoldable pub any_clears : {V : Type 0} → List (Operation V) → Bool
unfolding clears
any_clears [] = false
any_clears (o ∷ os) = clears o || any_clears os

module _ {V : Type 0} {P : Cache V → Type 0} (kept : IsKept P) where
  pub get_kept : (c : Cache V) (ck : Text) (now : ℕ) → P c → P (get c ck now).0
  unfolding record_evictions
  get_kept c ck now h = elim (get_lem c ck now) [
    | inl (absent, r) ↦ subst Good (sym r) h
    | inr (inl (e, found, valid, fifo, r)) ↦ subst Good (sym r) h
    | inr (inr (inl (e, found, valid, lru, r))) ↦ subst Good (sym r) (kept.moved c ck e found h)
    | inr (inr (inr (e, found, stale, r))) ↦
        subst Good (sym r) (kept.counted _ (delete c ck) (kept.deleted c ck h))
  ]
    where
      Good : Cache V × Option (Entry V) → Type 0
      Good g = P g.0

  begin_kept :
      (c : Cache V) (ck : Text) (ks : List Text) (now now' : ℕ) → P c → P (begin c ck ks now now').0
  unfolding record_hits record_misses
  begin_kept c ck ks now now' h =
      let g : Cache V × Option (Entry V) = get c ck now in
      let good : P g.0 = get_kept c ck now h in
      elim (begin_lem c ck ks now now') [
        | inl (missing, r) ↦
            subst Good (sym r)
              (kept.created (record_misses g.0 1) ck promise ks now' (kept.counted _ g.0 good))
        | inr (inl (e, v, found, ready, r)) ↦ subst Good (sym r) (kept.counted _ g.0 good)
        | inr (inr (e, found, loading, r)) ↦ subst Good (sym r) (kept.counted _ g.0 good)
      ]
    where
      Good : Cache V × Begun V → Type 0
      Good g = P g.0

  finish_kept :
      (c : Cache V) (ck : Text) (ks : List Text) (e : Entry V) (v : V) (storable : Bool)
      (now now' : ℕ)
      → P c
      → P (finish c ck ks e v storable now now')
  finish_kept c ck ks e v storable now now' h = elim (finish_lem c ck ks e v storable now now') [
    | inl (stale, r) ↦ subst P (sym r) h
    | inr (inl (valid, may, r)) ↦ subst P (sym r) (kept.created c ck (value v) ks now' h)
    | inr (inr (valid, must, r)) ↦ subst P (sym r) (kept.deleted c ck h)
  ]

  fail_kept : (c : Cache V) (ck : Text) (e : Entry V) (now t : ℕ) → P c → P (fail c ck e now t)
  unfolding fail record_load_failure
  fail_kept c ck e now t h =
      let c' : Cache V = record_load_failure c t in
      let good : P c' = kept.counted _ c h in
      elim (validate c' e now) as (λ b. P (if b then delete c' ck else c')) [
        | true ↦ kept.deleted c' ck good
        | false ↦ good
      ]

  pub step_kept :
      (c : Cache V) (o : Operation V)
      → ((reset_stats : Bool) → clears o ≡ true → P c → P (clear c reset_stats))
      → P c
      → P (step c o)
  unfolding step record_load_success invalidate_all clears
  step_kept c (call ck ks now now') clear_kept h = begin_kept c ck ks now now' h
  step_kept c (loaded t) clear_kept h = kept.counted _ c h
  step_kept c (store ck ks e v storable now now') clear_kept h =
      finish_kept c ck ks e v storable now now' h
  step_kept c (failed ck e now t) clear_kept h = fail_kept c ck e now t h
  step_kept c (key_changed key) clear_kept h = kept.changed c key h
  step_kept c all_changed clear_kept h = clear_kept false refl h
  step_kept c (cleared reset_stats) clear_kept h = clear_kept reset_stats refl h

  pub steps_kept :
      (c : Cache V) (os : List (Operation V))
      → ((c : Cache V) (reset_stats : Bool) → P c → P (clear c reset_stats))
      → P c
      → P (steps c os)
  unfolding steps
  steps_kept c [] clear_kept h = h
  steps_kept c (o ∷ os) clear_kept h =
      steps_kept (step c o) os clear_kept (step_kept c o (λ b is_clear p. clear_kept c b p) h)

  -- Of a predicate that `clear` does not keep.
  pub steps_kept_unless :
      (c : Cache V) (os : List (Operation V)) → any_clears os ≡ false → P c → P (steps c os)
  unfolding steps any_clears
  steps_kept_unless c [] none_clears h = h
  steps_kept_unless c (o ∷ os) none_clears h =
      steps_kept_unless (step c o) os (ground (arith, none_clears))
        (step_kept c o (λ b is_clear p. absurd (ground (arith, none_clears, is_clear))) h)
