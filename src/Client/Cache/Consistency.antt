-- ===== src/Client/Cache/Consistency.antt =====
-- The two Maps that index the client-side cache by Redis key agree, whatever is done.
use node_redis.Base.{
  ℕ, ◌≡◌, refl, ap, subst, ◌∙◌, sym, false, not, ◌&&◌, List, arith, Option-cases, inl, inr,
}
use node_redis.Base.Text.{Text, same, same_iff, same_refl}
use node_redis.Base.Map.{find, find-put, find-remove}
use node_redis.Client.Cache.Deletes.{
  delete_from_key_index_lem, delete_lem, find-delete, find-delete_keys, delete_oldest_lem,
  drop_old_lem, make_room_lem,
}
use node_redis.Client.Cache.{
  Entry, Cache, record_evictions, invalidate_entry, delete_from_key_index, delete,
}
use node_redis.Client.Cache.Operations.{drop_old, make_room, write_entry, set, count_others}
use node_redis.Client.Cache.Index.{held, known, Agree, held-index_keys, held-unindex_keys}

-- Moreover a cache key has a list of keys exactly when it has an entry.
pub record IsConsistent {V : Type 0} (c : Cache V) : Type 0 where
  pub agree : Agree c.key_index c.keys_of
  pub domain : (ck : Text) → known ck c.entries ≡ known ck c.keys_of

module _ {V : Type 0} where
  -- Where the entry of `ck` is about to be overwritten, its keys are gone already.
  abbrev ConsistentBut : Text → Cache V → Type 0
  ConsistentBut ck c =
      Agree c.key_index c.keys_of
      × (known ck c.keys_of ≡ false)
      × ((j : Text) → same ck j ≡ false → known j c.entries ≡ known j c.keys_of)

  delete_from_key_index-Agree :
      (c : Cache V) (ck : Text)
      → Agree c.key_index c.keys_of
      → Agree (delete_from_key_index c ck).key_index (delete_from_key_index c ck).keys_of
  unfolding delete_from_key_index
  delete_from_key_index-Agree c ck a key ck' = elim (Option-cases (find ck c.keys_of)) [
    | inl absent ↦ ground (arith, absent, a key ck')
    | inr (ks, found) ↦ ground (
      arith,
      found,
      a key ck',
      held-unindex_keys ck key ck' ks c.key_index,
      find-remove ck ck' c.keys_of,
      same_iff ck ck',
    )
  ]

  known-delete_from_key_index :
      (c : Cache V) (ck j : Text)
      → known j (delete_from_key_index c ck).keys_of ≡ (not (same ck j) && known j c.keys_of)
  unfolding delete_from_key_index
  known-delete_from_key_index c ck j = elim (Option-cases (find ck c.keys_of)) [
    | inl absent ↦ ground (arith, absent, same_iff ck j)
    | inr (ks, found) ↦ ground (arith, found, find-remove ck j c.keys_of)
  ]

  delete-Agree :
      (c : Cache V) (ck : Text)
      → Agree c.key_index c.keys_of
      → Agree (delete c ck).key_index (delete c ck).keys_of
  delete-Agree c ck a key ck' =
      ap (held key ck') (delete_lem c ck).2
      ∙ delete_from_key_index-Agree c ck a key ck'
      ∙ ap (held ck' key) (sym (delete_lem c ck).3)

  known-delete :
      (c : Cache V) (ck j : Text)
      → (known j (delete c ck).entries ≡ (not (same ck j) && known j c.entries))
        × (known j (delete c ck).keys_of ≡ (not (same ck j) && known j c.keys_of))
  known-delete c ck j =
      (ground (arith, find-delete c ck j), ground (arith, find-delete_keys c ck j))

  pub delete-IsConsistent : (c : Cache V) (ck : Text) → IsConsistent c → IsConsistent (delete c ck)
  delete-IsConsistent c ck h = record {
    agree = delete-Agree c ck h.agree;
    domain = λ j.
        (known-delete c ck j).0
        ∙ ap (λ b. not (same ck j) && b) (h.domain j)
        ∙ sym (known-delete c ck j).1;
  }

  delete-ConsistentBut :
      (c : Cache V) (ck k : Text) → ConsistentBut ck c → ConsistentBut ck (delete c k)
  delete-ConsistentBut c ck k (a, gone, others) = (
    delete-Agree c k a,
    ground (arith, (known-delete c k ck).1, gone),
    λ j ne.
        (known-delete c k j).0
        ∙ ap (λ b. not (same k j) && b) (others j ne)
        ∙ sym (known-delete c k j).1,
  )

  drop_old-ConsistentBut :
      (c : Cache V) (ck : Text) → IsConsistent c → ConsistentBut ck (drop_old c ck)
  unfolding invalidate_entry
  drop_old-ConsistentBut c ck h = elim (drop_old_lem c ck) [
    | inl (absent, same_cache) ↦
        subst (ConsistentBut ck) (sym same_cache)
          (h.agree, sym (h.domain ck) ∙ rw (absent, known) refl, λ j ne. h.domain j)
    | inr (old, found, dropped) ↦
        let d = invalidate_entry c old in
        subst (ConsistentBut ck) (sym dropped) (
          delete_from_key_index-Agree d ck h.agree,
          ground (arith, known-delete_from_key_index d ck ck, same_refl ck),
          λ j ne.
              ap (known j) (delete_from_key_index_lem d ck).0
              ∙ h.domain j
              ∙ ground (arith, ne, known-delete_from_key_index d ck j),
        )
  ]

  make_room-ConsistentBut :
      (c : Cache V) (ck : Text) (count : ℕ)
      → ConsistentBut ck c
      → ConsistentBut ck (make_room c count)
  make_room-ConsistentBut c ck count h = elim (make_room_lem c count) [
    | inl (room, unchanged) ↦ subst (ConsistentBut ck) (sym unchanged) h
    | inr (bounded, full, made) ↦ subst (ConsistentBut ck) (sym made) (elim (delete_oldest_lem c) [
      | inl (empty, unchanged) ↦
          unfold record_evictions in subst (ConsistentBut ck) (sym unchanged) h
      | inr (k, deleted, shorter) ↦
          unfold record_evictions in
          subst (ConsistentBut ck) (sym deleted) (delete-ConsistentBut c ck k h)
    ])
  ]

  write_entry-IsConsistent :
      (c : Cache V) (ck : Text) (e : Entry V) (ks : List Text)
      → ConsistentBut ck c
      → IsConsistent (write_entry c ck e ks)
  unfolding write_entry
  write_entry-IsConsistent c ck e ks (a, gone, others) = record {
    agree = λ key ck'. ground (
      arith,
      a key ck',
      gone,
      held-index_keys ck key ck' ks c.key_index,
      find-put ck ck' ks c.keys_of,
      same_iff ck ck',
    );
    domain = λ j. ground (arith, others j, find-put ck j e c.entries, find-put ck j ks c.keys_of);
  }

  pub set-IsConsistent :
      (c : Cache V) (ck : Text) (e : Entry V) (ks : List Text)
      → IsConsistent c
      → IsConsistent (set c ck e ks)
  unfolding set
  set-IsConsistent c ck e ks h =
      write_entry-IsConsistent (make_room (drop_old c ck) (count_others c ck)) ck e ks (
        make_room-ConsistentBut (drop_old c ck) ck (count_others c ck)
          (drop_old-ConsistentBut c ck h))
