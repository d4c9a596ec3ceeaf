-- ===== src/Client/Cache/Flags.antt =====
-- The flag `#invalidated` of an entry of the client-side cache, once set, stays.
use node_redis.Base.{
  ℕ, ◌+◌, ◌≡◌, subst, sym, Bool, true, false, ◌||◌, ◌==◌, none, some, List, [], ◌∷◌, arith,
  Option-cases, inl, inr,
}
use node_redis.Base.Text.{Text}
use node_redis.Base.Map.{find}
use node_redis.Client.Cache.{
  Entry, Cache, update_stats, is_invalidated, record_evictions, delete, invalidate_entry,
}
use node_redis.Client.Cache.Operations.{
  set, invalidate_each, invalidate, clear, drop_old, make_room, write_entry, count_others,
}
use node_redis.Client.Cache.Calls.{new_entry, create, Operation, steps}
use node_redis.Client.Cache.Deletes.{
  is_invalidated-delete, delete_oldest_lem, make_room_lem, delete_from_key_index_lem,
}
use node_redis.Client.Cache.Lookup.{invalidate_lem, clear_lem}
use node_redis.Client.Cache.Induction.{IsKept, steps_kept}

module _ {V : Type 0} (i : ℕ) where
  -- The entry is invalidated; no step takes that back.
  abbrev pub Flagged : Cache V → Type 0
  Flagged c = is_invalidated c i ≡ true

  pub delete-Flagged : (c : Cache V) (ck : Text) → Flagged c → Flagged (delete c ck)
  delete-Flagged c ck h = ground (arith, h, is_invalidated-delete c ck i)

  pub is_invalidated-drop_old :
      (c : Cache V) (ck : Text)
      → is_invalidated (drop_old c ck) i
        ≡ (elim (find ck c.entries) [ none ↦ false | some e ↦ e.id == i ] || is_invalidated c i)
  unfolding drop_old is_invalidated
  is_invalidated-drop_old c ck = elim (Option-cases (find ck c.entries)) [
    | inl absent ↦ ground (arith, absent)
    | inr (old, found) ↦
        ground (arith, found, (delete_from_key_index_lem (invalidate_entry c old) ck).1)
  ]

  make_room-Flagged : (c : Cache V) (count : ℕ) → Flagged c → Flagged (make_room c count)
  unfolding record_evictions update_stats is_invalidated
  make_room-Flagged c count h = elim (make_room_lem c count) [
    | inl (room, r) ↦ subst Flagged (sym r) h
    | inr (bounded, full, r) ↦ subst Flagged (sym r) (elim (delete_oldest_lem c) [
      | inl (empty, unchanged) ↦ subst Flagged (sym unchanged) h
      | inr (k, deleted, shorter) ↦ subst Flagged (sym deleted) (delete-Flagged c k h)
    ])
  ]

  pub set-Flagged :
      (c : Cache V) (ck : Text) (e : Entry V) (ks : List Text)
      → is_invalidated (drop_old c ck) i ≡ true
      → Flagged (set c ck e ks)
  unfolding set write_entry is_invalidated
  set-Flagged c ck e ks h = make_room-Flagged (drop_old c ck) (count_others c ck) h

  invalidate_each-Flagged :
      (cks : List Text) (c : Cache V) → Flagged c → Flagged (invalidate_each cks c)
  unfolding invalidate_each
  invalidate_each-Flagged [] c h = h
  invalidate_each-Flagged (ck ∷ cks) c h =
      invalidate_each-Flagged cks (delete c ck) (delete-Flagged c ck h)

  pub invalidate-Flagged : (c : Cache V) (key : Text) → Flagged c → Flagged (invalidate c key)
  invalidate-Flagged c key h = elim (invalidate_lem c key) [
    | inl (absent, r) ↦ subst Flagged (sym r) h
    | inr (cks, found, r) ↦
        subst Flagged (sym r) (unfold is_invalidated in invalidate_each-Flagged cks c h)
  ]

  Flagged-IsKept : IsKept Flagged
  unfolding update_stats is_invalidated create
  Flagged-IsKept = record {
    counted = λ f c h. h;
    deleted = λ c ck h. delete-Flagged c ck h;
    created = λ c ck content ks now h.
        let c' : Cache V = record c { next_id = c.next_id + 1 } in
        set-Flagged c' ck (new_entry c content now) ks
          (ground (arith, h, is_invalidated-drop_old c' ck));
    moved = λ c ck e found h. h;
    changed = λ c key h. invalidate-Flagged c key h;
  }

  clear-Flagged : (c : Cache V) (reset_stats : Bool) → Flagged c → Flagged (clear c reset_stats)
  unfolding is_invalidated
  clear-Flagged c reset_stats h = rw ((clear_lem c reset_stats).3) h

  pub steps-Flagged : (c : Cache V) (os : List (Operation V)) → Flagged c → Flagged (steps c os)
  steps-Flagged c os h = steps_kept Flagged-IsKept c os (λ c b h. clear-Flagged c b h) h
