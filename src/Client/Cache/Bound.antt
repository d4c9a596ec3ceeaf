-- ===== src/Client/Cache/Bound.antt =====
-- The client-side cache keeps no more entries than `maxEntries`.
use node_redis.Base.{
  ℕ, ◌+◌, ◌≡◌, ◌≤◌, ◌<◌, refl, subst, ◌∙◌, sym, Bool, none, some, List, [], ◌∷◌, arith, length,
  Option-cases, inl, inr,
}
use node_redis.Base.Text.{Text}
use node_redis.Base.Map.{find, put, remove, length-put-le, length-put_replace, length-remove-lt}
use node_redis.Client.Cache.{
  Entry, Content, Cache, update_stats, record_evictions, delete, new_cache,
}
use node_redis.Client.Cache.Operations.{
  set, size, invalidate_each, invalidate, clear, drop_old, make_room, write_entry, count_others,
}
use node_redis.Client.Cache.Calls.{create, Operation, steps}
use node_redis.Client.Cache.Deletes.{
  delete_lem, length-delete-le, delete_oldest_lem, drop_old_parts, make_room_lem,
}
use node_redis.Client.Cache.Lookup.{clear_lem}
use node_redis.Client.Cache.Induction.{IsKept, steps_kept}

module _ {V : Type 0} where
  abbrev Fits : ℕ → Cache V → Type 0
  Fits m c = (c.max_entries ≡ m) × (length c.entries ≤ m)

  delete-Fits : {m : ℕ} (c : Cache V) (ck : Text) → Fits m c → Fits m (delete c ck)
  delete-Fits c ck (most, few) =
      ((delete_lem c ck).0 ∙ most, ground (arith, few, length-delete-le c ck))

  -- One more entry fits after `make_room`, when the entries are counted.
  make_room-lt :
      {m : ℕ} (c : Cache V)
      → 0 < m
      → Fits m c
      → Fits m (make_room c (size c)) × (length (make_room c (size c)).entries < m)
  unfolding record_evictions update_stats size
  make_room-lt {m} c positive (most, few) = elim (make_room_lem c (size c)) [
    | inl (inl unbounded, r) ↦ absurd (omega arith)
    | inl (inr room, r) ↦ subst Roomy (sym r) ((most, few), omega arith)
    | inr (bounded, full, r) ↦ subst Roomy (sym r) (elim (delete_oldest_lem c) [
      | inl (empty, unchanged) ↦ absurd (omega arith)
      | inr (k, deleted, shorter) ↦
          subst Roomy (sym deleted) (delete-Fits c k (most, few), omega arith)
    ])
  ]
    where
      Roomy : Cache V → Type 0
      Roomy d = Fits m d × (length d.entries < m)

  -- An entry that is overwritten makes the room for the new one.
  make_room_same :
      (c : Cache V) (ck : Text) (old : Entry V)
      → find ck c.entries ≡ some old
      → Fits c.max_entries c
      → make_room (drop_old c ck) (count_others c ck) ≡ drop_old c ck
  unfolding count_others size
  make_room_same c ck old found (most, few) =
      elim (make_room_lem (drop_old c ck) (count_others c ck)) [
        | inl (room, r) ↦ r
        | inr (bounded, full, r) ↦
            let shorter = length-remove-lt ck old c.entries found in
            let max = (drop_old_parts c ck).1 in
            absurd (ground (arith, found, bounded, full, max, few, shorter))
      ]

  set-Fits :
      {m : ℕ} (c : Cache V) (ck : Text) (e : Entry V) (ks : List Text)
      → 0 < m
      → Fits m c
      → Fits m (set c ck e ks)
  unfolding write_entry
  set-Fits {m} c ck e ks positive (most, few) = elim (Option-cases (find ck c.entries)) [
    | inl absent ↦
        let (fits, room) = make_room-lt c positive (most, few) in
        subst (Fits m) (sym (written absent)) (
          unfold write_entry in fits.0,
          ground (arith, room, length-put-le ck e (make_room c (size c)).entries),
        )
    | inr (old, found) ↦
        let (entries, max) = drop_old_parts c ck in
        unfold set in
        subst (λ d. Fits m (write_entry d ck e ks))
          (sym (make_room_same c ck old found (refl, rw most few)))
          (max ∙ most, rw entries (rw (length-put_replace ck e old c.entries found) few))
  ]
    where
      written :
          find ck c.entries ≡ none → set c ck e ks ≡ write_entry (make_room c (size c)) ck e ks
      written absent = unfold set in simp (drop_old, count_others, absent)

  create-Fits :
      {m : ℕ} (c : Cache V) (ck : Text) (content : Content V) (ks : List Text) (now : ℕ)
      → 0 < m
      → Fits m c
      → Fits m (create c ck content ks now)
  unfolding create
  create-Fits c ck content ks now positive h =
      set-Fits (record c { next_id = c.next_id + 1 }) ck _ ks positive h

  moved-Fits :
      {m : ℕ} (c : Cache V) (ck : Text) (e : Entry V)
      → find ck c.entries ≡ some e
      → Fits m c
      → Fits m (record c { entries = put ck e (remove ck c.entries) })
  moved-Fits c ck e found (most, few) = (
    most,
    ground (
      arith,
      few,
      length-remove-lt ck e c.entries found,
      length-put-le ck e (remove ck c.entries),
    ),
  )

  invalidate_each-Fits :
      {m : ℕ} (cks : List Text) (c : Cache V) → Fits m c → Fits m (invalidate_each cks c)
  unfolding invalidate_each
  invalidate_each-Fits [] c h = h
  invalidate_each-Fits (ck ∷ cks) c h = invalidate_each-Fits cks (delete c ck) (delete-Fits c ck h)

  invalidate-Fits : {m : ℕ} (c : Cache V) (key : Text) → Fits m c → Fits m (invalidate c key)
  unfolding invalidate
  invalidate-Fits {m} c key h =
      elim (find key c.key_index)
        as (λ found. Fits m (elim found [
          | none ↦ c
          | some cks ↦
              let c' = invalidate_each cks c in record c' { key_index = remove key c'.key_index }
        ])) [ none ↦ h | some cks ↦ invalidate_each-Fits cks c h ]

  clear-Fits : {m : ℕ} (c : Cache V) (reset_stats : Bool) → Fits m c → Fits m (clear c reset_stats)
  clear-Fits c reset_stats (most, few) =
      let l = clear_lem c reset_stats in (l.5 ∙ most, rw l.0 (omega arith))

  Fits-IsKept : {m : ℕ} → 0 < m → IsKept (λ (c : Cache V). Fits m c)
  unfolding update_stats
  Fits-IsKept positive = record {
    counted = λ f c h. h;
    deleted = λ c ck h. delete-Fits c ck h;
    created = λ c ck content ks now h. create-Fits c ck content ks now positive h;
    moved = λ c ck e found h. moved-Fits c ck e found h;
    changed = λ c key h. invalidate-Fits c key h;
  }

  -- A new cache with a limit, that is `maxEntries` above 0, never holds more entries than that,
  -- whatever calls, replies, failures, invalidations and clearings follow.
  pub size-steps-le :
      (ttl max_entries : ℕ) (lru record_stats : Bool) (os : List (Operation V))
      → 0 < max_entries
      → size (steps (new_cache ttl max_entries lru record_stats) os) ≤ max_entries
  unfolding size
  size-steps-le ttl max_entries lru record_stats os positive =
      (steps_kept (Fits-IsKept positive) (new_cache ttl max_entries lru record_stats) os
        (λ c reset_stats h. clear-Fits c reset_stats h) (unfold new_cache in (refl, omega arith))).1
