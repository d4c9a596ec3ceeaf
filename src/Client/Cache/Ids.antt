-- ===== src/Client/Cache/Ids.antt =====
-- The ids of the entries of the client-side cache, that stand for their identity: a new entry's is
-- new, and no invalidation hits another entry.
use node_redis.Base.{
  ℕ, ◌+◌, ◌≡◌, ◌<◌, ap, subst, ◌∙◌, sym, Bool, true, some, List, [], ◌∷◌, arith, Option-cases,
  Bool-cases, inl, inr,
}
use node_redis.Base.Text.{Text, same, same_iff}
use node_redis.Base.Map.{find, put, remove, find-put, find-remove}
use node_redis.Client.Cache.{
  Entry, Content, Cache, update_stats, is_invalidated, record_evictions, delete, new_cache,
  contains_id, delete_entry, delete_from_key_index, invalidate_entry,
}
use node_redis.Client.Cache.Operations.{
  set, invalidate_each, invalidate, clear, drop_old, make_room, write_entry, count_others,
}
use node_redis.Client.Cache.Calls.{new_entry, create, Operation, steps}
use node_redis.Client.Cache.Deletes.{
  find-delete, is_invalidated-delete, delete_oldest_lem, drop_old_parts, make_room_lem,
}
use node_redis.Client.Cache.Lookup.{clear_lem, invalidate_lem}
use node_redis.Client.Cache.Induction.{IsKept, steps_kept}
use node_redis.Client.Cache.Flags.{is_invalidated-drop_old}

module _ {V : Type 0} where
  -- The flags and the entries are of ids below `n`.
  abbrev pub Below : ℕ → Cache V → Type 0
  Below n c =
      ((i : ℕ) → is_invalidated c i ≡ true → i < n)
      × ((ck : Text) (e : Entry V) → find ck c.entries ≡ some e → e.id < n)

  delete-Below : (n : ℕ) (c : Cache V) (ck : Text) → Below n c → Below n (delete c ck)
  delete-Below n c ck (flags, ids) = (
    λ i h. elim (Option-cases (find ck c.entries)) [
      | inl absent ↦ ground (arith, absent, h, is_invalidated-delete c ck i, flags i)
      | inr (e, found) ↦
          ground (arith, found, h, is_invalidated-delete c ck i, flags i, ids ck e found)
    ],
    λ j e found. ids j e (ground (arith, found, find-delete c ck j)),
  )

  drop_old-Below : (n : ℕ) (c : Cache V) (ck : Text) → Below n c → Below n (drop_old c ck)
  drop_old-Below n c ck (flags, ids) = (
    λ i h. elim (Option-cases (find ck c.entries)) [
      | inl absent ↦ ground (arith, absent, h, is_invalidated-drop_old i c ck, flags i)
      | inr (e, found) ↦
          ground (arith, found, h, is_invalidated-drop_old i c ck, flags i, ids ck e found)
    ],
    λ j e found. ids j e (ap (find j) (sym (drop_old_parts c ck).0) ∙ found),
  )

  make_room-Below : (n : ℕ) (c : Cache V) (count : ℕ) → Below n c → Below n (make_room c count)
  unfolding record_evictions update_stats is_invalidated
  make_room-Below n c count h = elim (make_room_lem c count) [
    | inl (room, r) ↦ subst (Below n) (sym r) h
    | inr (bounded, full, r) ↦ subst (Below n) (sym r) (elim (delete_oldest_lem c) [
      | inl (empty, unchanged) ↦ subst (Below n) (sym unchanged) h
      | inr (k, deleted, shorter) ↦ subst (Below n) (sym deleted) (delete-Below n c k h)
    ])
  ]

  -- The flags of a write are those of entries that were there.
  pub set_flags :
      (n : ℕ) (c : Cache V) (ck : Text) (e : Entry V) (ks : List Text) (i : ℕ)
      → Below n c
      → is_invalidated (set c ck e ks) i ≡ true
      → i < n
  unfolding set write_entry is_invalidated
  set_flags n c ck e ks i h =
      (make_room-Below n (drop_old c ck) (count_others c ck) (drop_old-Below n c ck h)).0 i

  write_entry-Below :
      (n : ℕ) (c : Cache V) (ck : Text) (e : Entry V) (ks : List Text)
      → e.id < n
      → Below n c
      → Below n (write_entry c ck e ks)
  unfolding write_entry is_invalidated
  write_entry-Below n c ck e ks new (flags, ids) = (
    flags,
    λ j e' found. elim (Bool-cases (same ck j)) [
      | inl equal ↦ ground (arith, found, new, equal, find-put ck j e c.entries)
      | inr other ↦ ids j e' (ground (arith, found, other, find-put ck j e c.entries))
    ],
  )

  set-Below :
      (n : ℕ) (c : Cache V) (ck : Text) (e : Entry V) (ks : List Text)
      → e.id < n
      → Below n c
      → Below n (set c ck e ks)
  unfolding set
  set-Below n c ck e ks new h =
      write_entry-Below n (make_room (drop_old c ck) (count_others c ck)) ck e ks new
        (make_room-Below n (drop_old c ck) (count_others c ck) (drop_old-Below n c ck h))

  -- Below the next one.
  abbrev pub Fresh : Cache V → Type 0
  Fresh c = Below c.next_id c

  next_id-delete : (c : Cache V) (ck : Text) → (delete c ck).next_id ≡ c.next_id
  unfolding delete delete_entry delete_from_key_index invalidate_entry
  next_id-delete c ck = ground arith

  next_id-drop_old : (c : Cache V) (ck : Text) → (drop_old c ck).next_id ≡ c.next_id
  unfolding drop_old delete_from_key_index invalidate_entry
  next_id-drop_old c ck = ground arith

  next_id-make_room : (c : Cache V) (count : ℕ) → (make_room c count).next_id ≡ c.next_id
  unfolding record_evictions update_stats
  next_id-make_room c count = elim (make_room_lem c count) [
    | inl (room, r) ↦ ap (λ d. d.next_id) r
    | inr (bounded, full, r) ↦ ap (λ d. d.next_id) r ∙ elim (delete_oldest_lem c) [
      | inl (empty, unchanged) ↦ ap (λ d. d.next_id) unchanged
      | inr (k, deleted, shorter) ↦ ap (λ d. d.next_id) deleted ∙ next_id-delete c k
    ]
  ]

  pub next_id-set :
      (c : Cache V) (ck : Text) (e : Entry V) (ks : List Text) → (set c ck e ks).next_id ≡ c.next_id
  unfolding set write_entry
  next_id-set c ck e ks =
      next_id-make_room (drop_old c ck) (count_others c ck) ∙ next_id-drop_old c ck

  delete-Fresh : (c : Cache V) (ck : Text) → Fresh c → Fresh (delete c ck)
  delete-Fresh c ck h =
      subst (λ n. Below n (delete c ck)) (sym (next_id-delete c ck)) (delete-Below c.next_id c ck h)

  pub create-Fresh :
      (c : Cache V) (ck : Text) (content : Content V) (ks : List Text) (now : ℕ)
      → Fresh c
      → Fresh (create c ck content ks now)
  unfolding create is_invalidated
  create-Fresh c ck content ks now (flags, ids) =
      let c' : Cache V = record c { next_id = c.next_id + 1 } in
      let e = new_entry c content now in
      subst (λ n. Below n (set c' ck e ks)) (sym (next_id-set c' ck e ks))
        (set-Below (c.next_id + 1) c' ck e ks (unfold new_entry in omega arith)
          (λ i h. ground (arith, flags i h), λ j e' found. ground (arith, ids j e' found)))

  invalidate_each-Fresh : (cks : List Text) (c : Cache V) → Fresh c → Fresh (invalidate_each cks c)
  unfolding invalidate_each
  invalidate_each-Fresh [] c h = h
  invalidate_each-Fresh (ck ∷ cks) c h =
      invalidate_each-Fresh cks (delete c ck) (delete-Fresh c ck h)

  invalidate-Fresh : (c : Cache V) (key : Text) → Fresh c → Fresh (invalidate c key)
  unfolding is_invalidated
  invalidate-Fresh c key h = elim (invalidate_lem c key) [
    | inl (absent, r) ↦ subst Fresh (sym r) h
    | inr (cks, found, r) ↦ subst Fresh (sym r) (invalidate_each-Fresh cks c h)
  ]

  moved-Fresh :
      (c : Cache V) (ck : Text) (e : Entry V)
      → find ck c.entries ≡ some e
      → Fresh c
      → Fresh (record c { entries = put ck e (remove ck c.entries) })
  unfolding is_invalidated
  moved-Fresh c ck e at (flags, ids) = (
    flags,
    λ j e' found. ids j e' (
        ground (
          arith,
          found,
          at,
          same_iff ck j,
          find-put ck j e (remove ck c.entries),
          find-remove ck j c.entries,
        )),
  )

  pub Fresh-IsKept : IsKept (λ (c : Cache V). Fresh c)
  unfolding update_stats is_invalidated
  Fresh-IsKept = record {
    counted = λ f c h. h;
    deleted = λ c ck h. delete-Fresh c ck h;
    created = λ c ck content ks now h. create-Fresh c ck content ks now h;
    moved = λ c ck e found h. moved-Fresh c ck e found h;
    changed = λ c key h. invalidate-Fresh c key h;
  }

  pub clear-Fresh : (c : Cache V) (reset_stats : Bool) → Fresh c → Fresh (clear c reset_stats)
  unfolding find is_invalidated
  clear-Fresh c reset_stats (flags, ids) =
      let l = clear_lem c reset_stats in
      (
        λ i h. ground (arith, l.6, flags i (ap (contains_id i) (sym l.3) ∙ h)),
        λ ck e found. absurd (ground (arith, found, l.0)),
      )

  pub steps-Fresh :
      (ttl max_entries : ℕ) (lru record_stats : Bool) (os : List (Operation V))
      → Fresh (steps (new_cache ttl max_entries lru record_stats) os)
  steps-Fresh ttl max_entries lru record_stats os =
      steps_kept Fresh-IsKept (new_cache ttl max_entries lru record_stats) os
        (λ c b h. clear-Fresh c b h)
        (unfold new_cache is_invalidated find in
          (λ i h. absurd (ground (arith, h)), λ ck e found. absurd (ground (arith, found))))
