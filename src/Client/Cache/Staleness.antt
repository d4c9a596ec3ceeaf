-- ===== src/Client/Cache/Staleness.antt =====
-- The client-side cache does not keep a reply to a command that was sent before one of its keys
-- changed.
use node_redis.Base.{
  ℕ, ◌+◌, ◌≡◌, ap, subst, ◌∙◌, sym, Bool, true, false, List, [], ◌∷◌, arith, inl, inr,
}
use node_redis.Base.Text.{Text, contains}
use node_redis.Client.Cache.{Entry, promise, Cache, record_misses, validate, new_cache}
use node_redis.Client.Cache.Operations.{get}
use node_redis.Client.Cache.Calls.{
  call, new_entry, loads, create, begin, finish, Operation, key_changed, step, steps,
}
use node_redis.Client.Cache.Lookup.{set_lem, begin_lem, finish_lem}
use node_redis.Client.Cache.Induction.{any_clears, steps_kept_unless}
use node_redis.Client.Cache.Consistency.{IsConsistent}
use node_redis.Client.Cache.Invariant.{steps-IsConsistent, steps_from-IsConsistent}
use node_redis.Client.Cache.Flags.{Flagged, steps-Flagged}
use node_redis.Client.Cache.Tracking.{Tracked, Tracked-IsKept, invalidate-Flagged_if}

module _ {V : Type 0} where
  -- The entry of a call that sends its command is in the cache.
  begin-Tracked :
      (c : Cache V) (ck : Text) (ks : List Text) (now now' : ℕ) (e : Entry V)
      → (begin c ck ks now now').1 ≡ loads e
      → Tracked e.id ck ks (begin c ck ks now now').0
  begin-Tracked c ck ks now now' e loading = elim (begin_lem c ck ks now now') [
    | inl (missing, r) ↦
        let m : Cache V = record_misses (get c ck now).0 1 in
        let is_it : loads e ≡ loads (new_entry m promise now') = sym loading ∙ ap (λ b. b.1) r in
        let at = set_lem (record m { next_id = m.next_id + 1 }) ck (new_entry m promise now') ks in
        subst (λ b. Tracked e.id ck ks b.0) (sym r)
          (unfold create in inr (new_entry m promise now', at.0, ground (arith, is_it), at.1))
    | inr (inl (old, v, found, ready, r)) ↦ absurd (ground (arith, loading, r))
    | inr (inr (old, found, pending, r)) ↦ absurd (ground (arith, loading, r))
  ]

  validate-Flagged :
      (c : Cache V) (e : Entry V) (now : ℕ) → Flagged e.id c → validate c e now ≡ false
  unfolding validate
  validate-Flagged c e now h = ground (arith, h)

  -- A reply to a command that was sent before one of its keys changed is not kept: take a load that
  -- begins on a cache, any steps that do not empty the cache, a change of one of the keys of the
  -- command, and any further steps. Behind the wait the call leaves the cache as it is then.
  pub finish_stale :
      (ttl max_entries : ℕ) (lru record_stats : Bool) (before : List (Operation V)) (ck : Text)
      (ks : List Text) (now now' : ℕ) (e : Entry V)
      → let c = steps (new_cache ttl max_entries lru record_stats) before in
        (begin c ck ks now now').1 ≡ loads e
        → (meanwhile : List (Operation V)) → any_clears meanwhile ≡ false
        → (key : Text) → contains key ks ≡ true
        → (since : List (Operation V)) (v : V) (storable : Bool) (t t' : ℕ)
        → let d =
            steps (step (steps (begin c ck ks now now').0 meanwhile) (key_changed key)) since in
          finish d ck ks e v storable t t' ≡ d
  finish_stale ttl max_entries lru record_stats before ck ks now now' e loading meanwhile
        none_clears key among since v storable t t' =
      let c : Cache V = steps (new_cache ttl max_entries lru record_stats) before in
      let b : Cache V = (begin c ck ks now now').0 in
      let m : Cache V = steps b meanwhile in
      let d : Cache V = steps (step m (key_changed key)) since in
      let tracked : Tracked e.id ck ks m =
        steps_kept_unless (Tracked-IsKept e.id ck ks) b meanwhile none_clears
          (begin-Tracked c ck ks now now' e loading) in
      let consistent : IsConsistent c =
        steps-IsConsistent ttl max_entries lru record_stats before in
      let consistent' : IsConsistent m =
        steps_from-IsConsistent b meanwhile
          (unfold steps step in steps_from-IsConsistent c (call ck ks now now' ∷ []) consistent) in
      let flagged : Flagged e.id (step m (key_changed key)) =
        unfold step in invalidate-Flagged_if e.id ck ks m key consistent' among tracked in
      elim (finish_lem d ck ks e v storable t t') [
        | inl (stale, r) ↦ r
        | inr (inl (valid, may, r)) ↦ absurd (
            ground (
              arith,
              valid,
              validate-Flagged d e t (steps-Flagged e.id (step m (key_changed key)) since flagged),
            ))
        | inr (inr (valid, must, r)) ↦ absurd (
            ground (
              arith,
              valid,
              validate-Flagged d e t (steps-Flagged e.id (step m (key_changed key)) since flagged),
            ))
      ]
