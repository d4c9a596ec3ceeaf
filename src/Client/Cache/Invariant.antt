-- ===== src/Client/Cache/Invariant.antt =====
-- Every step of the client-side cache keeps its Maps consistent; and what an invalidation removes.
use node_redis.Base.{
  ℕ, ◌+◌, ◌≡◌, refl, subst, sym, Bool, if◌then◌else◌, none, some, List, [], ◌∷◌, arith,
  Option-cases, inl, inr,
}
use node_redis.Base.Text.{Text, same_iff, contains}
use node_redis.Base.Map.{find, put, remove, find-put, find-remove}
use node_redis.Client.Cache.{CacheStats, Entry, Content, Cache, update_stats, delete, new_cache}
use node_redis.Client.Cache.Operations.{invalidate_each, invalidate, clear}
use node_redis.Client.Cache.Calls.{create, Operation, steps}
use node_redis.Client.Cache.Deletes.{find-delete, find-delete_keys}
use node_redis.Client.Cache.Lookup.{clear_lem, invalidate_lem}
use node_redis.Client.Cache.Induction.{IsKept, steps_kept}
use node_redis.Client.Cache.Index.{held}
use node_redis.Client.Cache.Consistency.{IsConsistent, delete-IsConsistent, set-IsConsistent}

module _ {V : Type 0} where
  update_stats-IsConsistent :
      (f : CacheStats → CacheStats) (c : Cache V) → IsConsistent c → IsConsistent (update_stats f c)
  unfolding update_stats
  update_stats-IsConsistent f c h = record { agree = h.agree; domain = h.domain }

  moved-IsConsistent :
      (c : Cache V) (ck : Text) (e : Entry V)
      → find ck c.entries ≡ some e
      → IsConsistent c
      → IsConsistent (record c { entries = put ck e (remove ck c.entries) })
  moved-IsConsistent c ck e found h = record {
    agree = h.agree;
    domain = λ j. ground (
      arith,
      found,
      h.domain j,
      find-put ck j e (remove ck c.entries),
      find-remove ck j c.entries,
      same_iff ck j,
    );
  }

  create-IsConsistent :
      (c : Cache V) (ck : Text) (content : Content V) (ks : List Text) (now : ℕ)
      → IsConsistent c
      → IsConsistent (create c ck content ks now)
  unfolding create
  create-IsConsistent c ck content ks now h =
      set-IsConsistent (record c { next_id = c.next_id + 1 }) ck _ ks
        (record { agree = h.agree; domain = h.domain })

  find-invalidate_each :
      (cks : List Text) (c : Cache V) (j : Text)
      → (find j (invalidate_each cks c).entries
          ≡ (if contains j cks then none else find j c.entries))
        × (find j (invalidate_each cks c).keys_of
            ≡ (if contains j cks then none else find j c.keys_of))
  unfolding invalidate_each contains
  find-invalidate_each [] c j = (refl, refl)
  find-invalidate_each (ck ∷ cks) c j =
      let rest = find-invalidate_each cks (delete c ck) j in
      (ground (arith, rest.0, find-delete c ck j), ground (arith, rest.1, find-delete_keys c ck j))

  invalidate_each-IsConsistent :
      (cks : List Text) (c : Cache V) → IsConsistent c → IsConsistent (invalidate_each cks c)
  unfolding invalidate_each
  invalidate_each-IsConsistent [] c h = h
  invalidate_each-IsConsistent (ck ∷ cks) c h =
      invalidate_each-IsConsistent cks (delete c ck) (delete-IsConsistent c ck h)

  invalidate-IsConsistent :
      (c : Cache V) (key : Text) → IsConsistent c → IsConsistent (invalidate c key)
  invalidate-IsConsistent c key h = elim (invalidate_lem c key) [
    | inl (absent, r) ↦ subst IsConsistent (sym r) h
    | inr (cks, found, r) ↦
        let d = invalidate_each cks c in
        let good : IsConsistent d = invalidate_each-IsConsistent cks c h in
        subst IsConsistent (sym r) (record {
          agree = λ k ck. ground (
            arith,
            good.agree k ck,
            find-remove key k d.key_index,
            same_iff key k,
            h.agree key ck,
            found,
            (find-invalidate_each cks c ck).1,
          );
          domain = good.domain;
        })
  ]

  clear-IsConsistent : (c : Cache V) (reset_stats : Bool) → IsConsistent (clear c reset_stats)
  clear-IsConsistent c reset_stats =
      let l = clear_lem c reset_stats in
      record {
        agree = λ key ck. unfold find in simp (l.1, l.2);
        domain = λ ck. unfold find in simp (l.0, l.2);
      }

  IsConsistent-IsKept : IsKept (λ (c : Cache V). IsConsistent c)
  IsConsistent-IsKept = record {
    counted = λ f c h. update_stats-IsConsistent f c h;
    deleted = λ c ck h. delete-IsConsistent c ck h;
    created = λ c ck content ks now h. create-IsConsistent c ck content ks now h;
    moved = λ c ck e found h. moved-IsConsistent c ck e found h;
    changed = λ c key h. invalidate-IsConsistent c key h;
  }

  pub steps_from-IsConsistent :
      (c : Cache V) (os : List (Operation V)) → IsConsistent c → IsConsistent (steps c os)
  steps_from-IsConsistent c os h =
      steps_kept IsConsistent-IsKept c os (λ c b h. clear-IsConsistent c b) h

  -- After any sequence of calls, replies, failures, invalidations and clearings on a new cache, the
  -- index by Redis key and the lists of the keys of each reply say the same, and a reply has a list of
  -- keys exactly when it has an entry.
  pub steps-IsConsistent :
      (ttl max_entries : ℕ) (lru record_stats : Bool) (os : List (Operation V))
      → IsConsistent (steps (new_cache ttl max_entries lru record_stats) os)
  unfolding new_cache
  steps-IsConsistent ttl max_entries lru record_stats os =
      steps_from-IsConsistent (new_cache ttl max_entries lru record_stats) os
        (unfold find in record { agree = λ key ck. refl; domain = λ ck. refl })

  -- When the cache is consistent, then after `invalidate` of a Redis key, exactly the entries whose
  -- commands name that key are gone from the cache, and all others are as they were.
  pub invalidate_iff :
      (c : Cache V) (key ck : Text)
      → IsConsistent c
      → find ck (invalidate c key).entries
        ≡ (if held ck key c.keys_of then none else find ck c.entries)
  unfolding invalidate
  invalidate_iff c key ck h = elim (Option-cases (find key c.key_index)) [
    | inl absent ↦ ground (arith, absent, h.agree key ck)
    | inr (cks, found) ↦ ground (arith, found, h.agree key ck, (find-invalidate_each cks c ck).0)
  ]
