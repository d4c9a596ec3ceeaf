-- ===== src/Client/Cache/Deletes.antt =====
-- What `delete` of the client-side cache does to each part of it.
use node_redis.Base.{
  ltb, leb, ◌<◌, Bool-cases, ℕ, suc, ◌≤◌, ◌≡◌, ◌⊎◌, refl, ap, ◌∙◌, false, ◌&&◌, ◌||◌, ◌==◌,
  if◌then◌else◌, none, some, List, [], ◌∷◌, arith, length, Option-cases, inl, inr,
}
use node_redis.Base.Text.{Text, same, same_iff, same_refl}
use node_redis.Base.Map.{find, find-remove, length-remove-le, length-remove-lt}
use node_redis.Client.Cache.{
  Entry, Cache, is_invalidated, contains_id, invalidate_entry, delete_from_key_index, delete_entry,
  delete, record_evictions,
}
use node_redis.Client.Cache.Operations.{delete_oldest, drop_old, make_room}

module _ {V : Type 0} where
  -- The parts that `#deleteFromKeyIndex` leaves alone.
  pub delete_from_key_index_lem :
      (c : Cache V) (ck : Text)
      → let d = delete_from_key_index c ck in
        (d.entries ≡ c.entries)
        × (d.invalidated ≡ c.invalidated)
        × (d.max_entries ≡ c.max_entries)
        × (d.stats ≡ c.stats)
  unfolding delete_from_key_index
  delete_from_key_index_lem c ck = (ground arith, ground arith, ground arith, ground arith)

  pub delete_entry_lem :
      (c : Cache V) (ck : Text)
      → let d = delete_entry c ck in
        (d.key_index ≡ c.key_index)
        × (d.keys_of ≡ c.keys_of)
        × (d.max_entries ≡ c.max_entries)
        × (d.stats ≡ c.stats)
  unfolding delete_entry invalidate_entry
  delete_entry_lem c ck = (ground arith, ground arith, ground arith, ground arith)

  pub delete_lem :
      (c : Cache V) (ck : Text)
      → ((delete c ck).max_entries ≡ c.max_entries)
        × ((delete c ck).stats ≡ c.stats)
        × ((delete c ck).key_index ≡ (delete_from_key_index c ck).key_index)
        × ((delete c ck).keys_of ≡ (delete_from_key_index c ck).keys_of)
        × ((delete c ck).entries ≡ (delete_entry c ck).entries)
  unfolding delete delete_entry delete_from_key_index invalidate_entry
  delete_lem c ck = (ground arith, ground arith, ground arith, ground arith, ground arith)

  pub find-delete :
      (c : Cache V) (ck j : Text)
      → find j (delete c ck).entries ≡ (if same ck j then none else find j c.entries)
  find-delete c ck j = ap (find j) (delete_lem c ck).4 ∙ in_entries c ck j
    where
      in_entries :
          (c : Cache V) (ck j : Text)
          → find j (delete_entry c ck).entries ≡ (if same ck j then none else find j c.entries)
      in_entries c ck j =
          unfold delete_entry invalidate_entry in
          ground (arith, find-remove ck j c.entries, same_iff ck j)

  pub find-delete_keys :
      (c : Cache V) (ck j : Text)
      → find j (delete c ck).keys_of ≡ (if same ck j then none else find j c.keys_of)
  find-delete_keys c ck j = ap (find j) (delete_lem c ck).3 ∙ in_keys c ck j
    where
      in_keys :
          (c : Cache V) (ck j : Text)
          → find j (delete_from_key_index c ck).keys_of
            ≡ (if same ck j then none else find j c.keys_of)
      in_keys c ck j =
          unfold delete_from_key_index in ground (arith, find-remove ck j c.keys_of, same_iff ck j)

  -- The entry that goes is invalidated, and no other.
  pub is_invalidated-delete :
      (c : Cache V) (ck : Text) (i : ℕ)
      → is_invalidated (delete c ck) i
        ≡ (elim (find ck c.entries) [ none ↦ false | some e ↦ e.id == i ] || is_invalidated c i)
  unfolding is_invalidated delete
  is_invalidated-delete c ck i =
      ap (contains_id i) ((delete_from_key_index_lem (delete_entry c ck) ck).1) ∙ flags c ck i
    where
      flags :
          (c : Cache V) (ck : Text) (i : ℕ)
          → contains_id i (delete_entry c ck).invalidated ≡ (
              elim (find ck c.entries) [ none ↦ false | some e ↦ e.id == i ]
              || contains_id i c.invalidated)
      flags c ck i = unfold delete_entry invalidate_entry contains_id in ground arith

  pub length-delete-le : (c : Cache V) (ck : Text) → length (delete c ck).entries ≤ length c.entries
  length-delete-le c ck = rw ((delete_lem c ck).4) (shorter c ck)
    where
      shorter : (c : Cache V) (ck : Text) → length (delete_entry c ck).entries ≤ length c.entries
      shorter c ck =
          unfold delete_entry invalidate_entry in ground (arith, length-remove-le ck c.entries)

  length-delete-lt :
      (c : Cache V) (ck : Text) (e : Entry V)
      → find ck c.entries ≡ some e
      → suc (length (delete c ck).entries) ≤ length c.entries
  length-delete-lt c ck e h = rw ((delete_lem c ck).4) (shorter c ck h)
    where
      shorter :
          (c : Cache V) (ck : Text)
          → find ck c.entries ≡ some e
          → suc (length (delete_entry c ck).entries) ≤ length c.entries
      shorter c ck h =
          unfold delete_entry invalidate_entry in
          ground (arith, h, length-remove-lt ck e c.entries h)

  -- The oldest entry is deleted, if there is one.
  pub delete_oldest_lem :
      (c : Cache V)
      → ((length c.entries ≡ 0) × (delete_oldest c ≡ c))
        ⊎ ((ck : Text) × (delete_oldest c ≡ delete c ck)
            × (suc (length (delete c ck).entries) ≤ length c.entries))
  unfolding delete_oldest
  delete_oldest_lem c = elim (entries-cases c.entries) [
    | inl none_left ↦ inl (rw none_left refl, simp (delete_oldest, none_left))
    | inr (ck, e, rest, first) ↦ inr (
      ck,
      simp (delete_oldest, first),
      length-delete-lt c ck e (rw first (unfold find in rw (same_refl ck) refl)),
    )
  ]
    where
      entries-cases :
          (l : List (Text × Entry V))
          → (l ≡ [])
            ⊎ ((ck : Text) × (e : Entry V) × (rest : List (Text × Entry V)) × (l ≡ (ck, e) ∷ rest))
      entries-cases [] = inl refl
      entries-cases ((ck, e) ∷ rest) = inr (ck, e, rest, refl)

  -- Before an entry is written: one that is overwritten is invalidated and leaves the index.
  pub drop_old_lem :
      (c : Cache V) (ck : Text)
      → ((find ck c.entries ≡ none) × (drop_old c ck ≡ c))
        ⊎ ((old : Entry V) × (find ck c.entries ≡ some old)
            × (drop_old c ck ≡ delete_from_key_index (invalidate_entry c old) ck))
  unfolding drop_old
  drop_old_lem c ck = elim (Option-cases (find ck c.entries)) [
    | inl absent ↦ inl (absent, simp (drop_old, absent))
    | inr (old, found) ↦ inr (old, found, simp (drop_old, found))
  ]

  -- The entries stay, until the new one is written.
  pub drop_old_parts :
      (c : Cache V) (ck : Text)
      → ((drop_old c ck).entries ≡ c.entries) × ((drop_old c ck).max_entries ≡ c.max_entries)
  unfolding drop_old invalidate_entry
  drop_old_parts c ck = elim (drop_old_lem c ck) [
    | inl (absent, r) ↦ (ap (λ d. d.entries) r, ap (λ d. d.max_entries) r)
    | inr (old, found, r) ↦
        let l = delete_from_key_index_lem (invalidate_entry c old) ck in
        (ap (λ d. d.entries) r ∙ l.0, ap (λ d. d.max_entries) r ∙ l.2)
  ]

  -- Then the cache is left as it is, if there is room, or an entry is deleted.
  pub make_room_lem :
      (c : Cache V) (count : ℕ)
      → (((c.max_entries ≡ 0) ⊎ (count < c.max_entries)) × (make_room c count ≡ c))
        ⊎ ((0 < c.max_entries)
            × (c.max_entries ≤ count)
            × (make_room c count ≡ record_evictions (delete_oldest c) 1))
  unfolding make_room
  make_room_lem c count = elim (Bool-cases (ltb 0 c.max_entries && leb c.max_entries count)) [
    | inl full ↦ inr (ground (arith, full), ground (arith, full), simp (make_room, full))
    | inr room ↦ inl (room_cases c room, simp (make_room, room))
  ]
    where
      room_cases :
          (c : Cache V)
          → (ltb 0 c.max_entries && leb c.max_entries count) ≡ false
          → (c.max_entries ≡ 0) ⊎ (count < c.max_entries)
      room_cases c room = elim (Bool-cases (ltb 0 c.max_entries)) [
        | inl bounded ↦ inr (ground (arith, room, bounded))
        | inr unbounded ↦ inl (ground (arith, unbounded))
      ]
