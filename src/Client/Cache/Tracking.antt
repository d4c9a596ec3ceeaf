-- ===== src/Client/Cache/Tracking.antt =====
-- An entry of the client-side cache is in the cache, or invalidated, as long as the cache is not
-- emptied.
use node_redis.Base.{
  ℕ, ◌+◌, ◌≡◌, ◌⊎◌, ap, subst, ◌∙◌, sym, true, false, some, List, [], ◌∷◌, arith, Bool-cases, inl,
  inr,
}
use node_redis.Base.Text.{Text, same, same_iff, contains}
use node_redis.Base.Map.{find, put, remove, find-put, find-remove}
use node_redis.Client.Cache.{
  Entry, Cache, update_stats, is_invalidated, record_evictions, delete, invalidate_entry,
  delete_from_key_index,
}
use node_redis.Client.Cache.Operations.{
  set, invalidate_each, invalidate, drop_old, make_room, write_entry, count_others,
}
use node_redis.Client.Cache.Calls.{new_entry, create}
use node_redis.Client.Cache.Deletes.{
  find-delete, find-delete_keys, is_invalidated-delete, delete_oldest_lem, drop_old_lem,
  drop_old_parts, make_room_lem,
}
use node_redis.Client.Cache.Lookup.{invalidate_lem}
use node_redis.Client.Cache.Induction.{IsKept}
use node_redis.Client.Cache.Consistency.{IsConsistent}
use node_redis.Client.Cache.Invariant.{invalidate_iff}
use node_redis.Client.Cache.Flags.{
  Flagged, delete-Flagged, is_invalidated-drop_old, set-Flagged, invalidate-Flagged,
}

module _ {V : Type 0} (i : ℕ) (ck : Text) (ks : List Text) where
  -- The entry is in the cache, under `ck` and with the keys `ks`.
  abbrev Live : Cache V → Type 0
  Live c = (e : Entry V) × (find ck c.entries ≡ some e) × (e.id ≡ i) × (find ck c.keys_of ≡ some ks)

  -- It can be stored to only while it is in the cache.
  abbrev pub Tracked : Cache V → Type 0
  Tracked c = (is_invalidated c i ≡ true) ⊎ Live c

  -- Of a Map entry that goes, the one in question is invalidated.
  delete-Tracked : (c : Cache V) (k : Text) → Tracked c → Tracked (delete c k)
  delete-Tracked c k (inl h) = inl (delete-Flagged i c k h)
  delete-Tracked c k (inr (e, found, is_it, keys)) = elim (Bool-cases (same k ck)) [
    | inl equal ↦
        inl (ground (arith, found, is_it, equal, same_iff k ck, is_invalidated-delete c k i))
    | inr other ↦ inr (
      e,
      ground (arith, found, other, find-delete c k ck),
      is_it,
      ground (arith, keys, other, find-delete_keys c k ck),
    )
  ]

  make_room-Tracked : (c : Cache V) (count : ℕ) → Tracked c → Tracked (make_room c count)
  unfolding record_evictions update_stats is_invalidated
  make_room-Tracked c count h = elim (make_room_lem c count) [
    | inl (room, r) ↦ subst Tracked (sym r) h
    | inr (bounded, full, r) ↦ subst Tracked (sym r) (elim (delete_oldest_lem c) [
      | inl (empty, unchanged) ↦ subst Tracked (sym unchanged) h
      | inr (k, deleted, shorter) ↦ subst Tracked (sym deleted) (delete-Tracked c k h)
    ])
  ]

  drop_old-Live : (c : Cache V) (k : Text) → same k ck ≡ false → Live c → Live (drop_old c k)
  drop_old-Live c k other (e, found, is_it, keys) = (
    e,
    ap (find ck) (drop_old_parts c k).0 ∙ found,
    is_it,
    elim (drop_old_lem c k) [
      | inl (absent, r) ↦ ap (λ d. find ck d.keys_of) r ∙ keys
      | inr (old, at, r) ↦
          ap (λ d. find ck d.keys_of) r
          ∙ kept_keys (invalidate_entry c old) (unfold invalidate_entry in keys)
    ],
  )
    where
      kept_keys :
          (d : Cache V)
          → find ck d.keys_of ≡ some ks
          → find ck (delete_from_key_index d k).keys_of ≡ some ks
      kept_keys d keys =
          unfold delete_from_key_index in ground (arith, keys, other, find-remove k ck d.keys_of)

  set-Tracked :
      (c : Cache V) (k : Text) (e : Entry V) (ls : List Text) → Tracked c → Tracked (set c k e ls)
  set-Tracked c k e ls (inl h) =
      inl (set-Flagged i c k e ls (ground (arith, h, is_invalidated-drop_old i c k)))
  set-Tracked c k e ls (inr (old, found, is_it, keys)) = elim (Bool-cases (same k ck)) [
    | inl equal ↦ inl (
        set-Flagged i c k e ls
          (ground (arith, found, is_it, equal, same_iff k ck, is_invalidated-drop_old i c k)))
    | inr other ↦ written other (
        make_room-Tracked (drop_old c k) (count_others c k)
          (inr (drop_old-Live c k other (old, found, is_it, keys))))
  ]
    where
      written :
          same k ck ≡ false
          → Tracked (make_room (drop_old c k) (count_others c k))
          → Tracked (set c k e ls)
      written other (inl h) = unfold set write_entry is_invalidated in inl h
      written other (inr (old, found, is_it, keys)) =
          unfold set write_entry in
          let d = make_room (drop_old c k) (count_others c k) in
          inr (
            old,
            ground (arith, found, other, find-put k ck e d.entries),
            is_it,
            ground (arith, keys, other, find-put k ck ls d.keys_of),
          )

  invalidate_each-Tracked :
      (cks : List Text) (c : Cache V) → Tracked c → Tracked (invalidate_each cks c)
  unfolding invalidate_each
  invalidate_each-Tracked [] c h = h
  invalidate_each-Tracked (k ∷ cks) c h =
      invalidate_each-Tracked cks (delete c k) (delete-Tracked c k h)

  invalidate-Tracked : (c : Cache V) (key : Text) → Tracked c → Tracked (invalidate c key)
  invalidate-Tracked c key h = elim (invalidate_lem c key) [
    | inl (absent, r) ↦ subst Tracked (sym r) h
    | inr (cks, found, r) ↦
        subst Tracked (sym r) (unfold is_invalidated in invalidate_each-Tracked cks c h)
  ]

  moved-Tracked :
      (c : Cache V) (k : Text) (e : Entry V)
      → find k c.entries ≡ some e
      → Tracked c
      → Tracked (record c { entries = put k e (remove k c.entries) })
  unfolding is_invalidated
  moved-Tracked c k e at (inl h) = inl h
  moved-Tracked c k e at (inr (old, found, is_it, keys)) = inr (
    old,
    ground (
      arith,
      found,
      at,
      same_iff k ck,
      find-put k ck e (remove k c.entries),
      find-remove k ck c.entries,
    ),
    is_it,
    keys,
  )

  pub Tracked-IsKept : IsKept Tracked
  unfolding update_stats is_invalidated create
  Tracked-IsKept = record {
    counted = λ f c h. h;
    deleted = λ c k h. delete-Tracked c k h;
    created = λ c k content ls now h.
        set-Tracked (record c { next_id = c.next_id + 1 }) k (new_entry c content now) ls h;
    moved = λ c k e found h. moved-Tracked c k e found h;
    changed = λ c key h. invalidate-Tracked c key h;
  }

  -- When one of its keys changes, it is invalidated if it was not already.
  pub invalidate-Flagged_if :
      (c : Cache V) (key : Text)
      → IsConsistent c
      → contains key ks ≡ true
      → Tracked c
      → Flagged i (invalidate c key)
  invalidate-Flagged_if c key consistent among (inl h) = invalidate-Flagged i c key h
  invalidate-Flagged_if c key consistent among (inr (e, found, is_it, keys)) =
      elim (invalidate-Tracked c key (inr (e, found, is_it, keys))) [
        | inl flagged ↦ flagged
        | inr (e', found', is_it', keys') ↦
            absurd (ground (arith, found', keys, among, invalidate_iff c key ck consistent))
      ]
