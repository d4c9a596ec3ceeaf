-- ===== src/Client/PubSub/Removed.antt =====
-- Who hears the messages of a channel behind an unsubscribe.
use node_redis.Base.{
  ℕ, Bool, true, false, ◌≡◌, inl, inr, refl, ap, ◌∙◌, not, ◌&&◌, ◌==◌, none, some, List, [], ◌∷◌,
  arith, length, Option-cases, Bool-cases,
}
use node_redis.Base.Text.{Text, same, same_iff, contains}
use node_redis.Base.Map.{find, put, remove, find-remove}
use node_redis.Base.Sets.{includes}
use node_redis.Client.PubSub.{
  ChannelListeners, TypeListeners, Removal, delete_listener, listeners_set, remove_each, is_unused,
  remove_listener, remove_listeners, only, whole, everything,
}
use node_redis.Client.PubSub.Registered.{
  hears, is_it, includes-delete_listener, hears_absent, hears_found, at_channel,
}

-- Does the unsubscribe take the listener off the channel?
unfoldable pub takes : Removal → Text → (listener : ℕ) (return_buffers : Bool) → Bool
unfolding contains
takes everything other k d = true
takes (whole names) other k d = contains other names
takes (only names l b) other k d = contains other names && is_it l k b d

hears-remove :
    (other : Text) (k : ℕ) (d : Bool) (name : Text) (m : TypeListeners)
    → hears other k d (remove name m) ≡ (not (same name other) && hears other k d m)
unfolding hears
hears-remove other k d name m = ground (arith, find-remove name other m)

hears-remove_each :
    (names : List Text) (m : TypeListeners) (other : Text) (k : ℕ) (d : Bool)
    → hears other k d (remove_each names m) ≡ (not (contains other names) && hears other k d m)
unfolding remove_each contains
hears-remove_each [] m other k d = refl
hears-remove_each (name ∷ names) m other k d =
    ground (arith, hears-remove_each names (remove name m) other k d, hears-remove other k d name m)

includes_none : (k : ℕ) (js : List ℕ) → (length js == 0) ≡ true → includes k js ≡ false
unfolding includes
includes_none k [] h = refl
includes_none k (j ∷ js) h = absurd (ground (arith, h))

unused_none :
    (cl : ChannelListeners) (k : ℕ) (d : Bool)
    → is_unused cl ≡ true
    → includes k (listeners_set d cl) ≡ false
unfolding is_unused listeners_set
unused_none cl k true h = includes_none k cl.buffers (ground (arith, h))
unused_none cl k false h = includes_none k cl.strings (ground (arith, h))

hears-remove_listener :
    (name : Text) (l : ℕ) (b : Bool) (m : TypeListeners) (other : Text) (k : ℕ) (d : Bool)
    → hears other k d (remove_listener name l b m)
      ≡ (not (same name other && is_it l k b d) && hears other k d m)
hears-remove_listener name l b m other k d = elim (Option-cases (find name m)) [
  | inl absent ↦
      ap (hears other k d) (absent_lem absent)
      ∙ ground (arith, same_iff name other, hears_absent name k d m absent)
  | inr (cl, found) ↦
      let rest : ChannelListeners = delete_listener l b cl in
      let known = hears_found name k d m cl found in
      let less = includes-delete_listener k d l b cl in
      elim (Bool-cases (is_unused rest)) [
        | inl unused ↦
            ap (hears other k d) (unused_lem cl found unused)
            ∙ hears-remove other k d name m
            ∙ ground (arith, same_iff name other, known, less, unused_none rest k d unused)
        | inr used ↦
            ap (hears other k d) (used_lem cl found used)
            ∙ at_channel name k d m rest (not (is_it l k b d) && includes k (listeners_set d cl))
                other less
            ∙ ground (arith, same_iff name other, known)
      ]
]
  where
    absent_lem : find name m ≡ none → remove_listener name l b m ≡ m
    absent_lem absent = unfold remove_listener in simp (remove_listener, absent)

    unused_lem :
        (cl : ChannelListeners)
        → find name m ≡ some cl
        → is_unused (delete_listener l b cl) ≡ true
        → remove_listener name l b m ≡ remove name m
    unused_lem cl found unused = unfold remove_listener in simp (remove_listener, found, unused)

    used_lem :
        (cl : ChannelListeners)
        → find name m ≡ some cl
        → is_unused (delete_listener l b cl) ≡ false
        → remove_listener name l b m ≡ put name (delete_listener l b cl) m
    used_lem cl found used = unfold remove_listener in simp (remove_listener, found, used)

-- What an unsubscribe removes: all listeners, those of some channels, or one listener of some
-- channels; and every other listener of every other channel stays.
pub hears-remove_listeners :
    (r : Removal) (m : TypeListeners) (other : Text) (k : ℕ) (d : Bool)
    → hears other k d (remove_listeners r m) ≡ (not (takes r other k d) && hears other k d m)
unfolding remove_listeners takes contains
hears-remove_listeners everything m other k d = unfold hears find in refl
hears-remove_listeners (whole names) m other k d = hears-remove_each names m other k d
hears-remove_listeners (only [] l b) m other k d = refl
hears-remove_listeners (only (name ∷ names) l b) m other k d = ground (
  arith,
  hears-remove_listeners (only names l b) (remove_listener name l b m) other k d,
  hears-remove_listener name l b m other k d,
)
