-- ===== src/Client/PubSub/Registered.antt =====
-- Who hears the messages of a channel, after each change of the subscriptions.
use node_redis.Base.{
  ℕ, Bool, true, false, ◌≡◌, ◌⊎◌, inl, inr, refl, ap, ◌∙◌, not, ◌&&◌, ◌||◌, ◌==◌, ==_iff,
  if◌then◌else◌, none, some, List, [], ◌∷◌, arith, Option-cases,
}
use node_redis.Base.Text.{Text, same, same_iff, contains}
use node_redis.Base.Map.{find, put, find-put}
use node_redis.Base.Sets.{includes, includes-add, includes-discard}
use node_redis.Client.PubSub.{
  PubSubType, channels, patterns, sharded, ChannelListeners, TypeListeners, Listeners, listeners_of,
  with_listeners, add_listener, delete_listener, listeners_set, register, register_each,
}
use node_redis.Client.PubSub.Moves.{unflag}

-- Is the listener among those of a channel?
unfoldable pub hears : Text → (listener : ℕ) (return_buffers : Bool) → TypeListeners → Bool
hears name l b m = elim (find name m) [ none ↦ false | some cl ↦ includes l (listeners_set b cl) ]

abbrev pub is_it : (l k : ℕ) (b d : Bool) → Bool
is_it l k b d = (l == k) && elim b [ true ↦ d | false ↦ not d ]

pub is_it_refl : (l : ℕ) (b : Bool) → is_it l l b b ≡ true
is_it_refl l true = ground (arith, ==_iff l l)
is_it_refl l false = ground (arith, ==_iff l l)

pub listeners_of-with_listeners :
    (t : PubSubType) (m : TypeListeners) (ls : Listeners)
    → listeners_of t (with_listeners t m ls) ≡ m
unfolding listeners_of with_listeners
listeners_of-with_listeners channels m ls = refl
listeners_of-with_listeners patterns m ls = refl
listeners_of-with_listeners sharded m ls = refl

pub includes-add_listener :
    (k : ℕ) (d : Bool) (l : ℕ) (b : Bool) (cl : ChannelListeners)
    → includes k (listeners_set d (add_listener l b cl))
      ≡ (is_it l k b d || includes k (listeners_set d cl))
unfolding listeners_set add_listener
includes-add_listener k true l true cl = ground (arith, includes-add k l cl.buffers)
includes-add_listener k true l false cl = ground arith
includes-add_listener k false l true cl = ground arith
includes-add_listener k false l false cl = ground (arith, includes-add k l cl.strings)

pub includes-delete_listener :
    (k : ℕ) (d : Bool) (l : ℕ) (b : Bool) (cl : ChannelListeners)
    → includes k (listeners_set d (delete_listener l b cl))
      ≡ (not (is_it l k b d) && includes k (listeners_set d cl))
unfolding listeners_set delete_listener
includes-delete_listener k true l true cl = ground (arith, includes-discard k l cl.buffers)
includes-delete_listener k true l false cl = ground arith
includes-delete_listener k false l true cl = ground arith
includes-delete_listener k false l false cl = ground (arith, includes-discard k l cl.strings)

pub hears-put :
    (other : Text) (k : ℕ) (d : Bool) (name : Text) (cl : ChannelListeners) (m : TypeListeners)
    → hears other k d (put name cl m)
      ≡ (if same name other then includes k (listeners_set d cl) else hears other k d m)
unfolding hears
hears-put other k d name cl m = ground (arith, find-put name other cl m)

-- A new object has no listeners.
no_listeners :
    (k : ℕ) (d : Bool) (id : ℕ)
    → includes k
        (listeners_set d (record { id = id; unsubscribing = false; buffers = []; strings = [] }))
      ≡ false
unfolding listeners_set includes
no_listeners k true id = refl
no_listeners k false id = refl

pub hears_absent :
    (name : Text) (k : ℕ) (d : Bool) (m : TypeListeners)
    → find name m ≡ none
    → hears name k d m ≡ false
unfolding hears
hears_absent name k d m absent = simp (hears, absent)

pub hears_found :
    (name : Text) (k : ℕ) (d : Bool) (m : TypeListeners) (cl : ChannelListeners)
    → find name m ≡ some cl
    → hears name k d m ≡ includes k (listeners_set d cl)
unfolding hears
hears_found name k d m cl found = simp (hears, found)

-- At the channel, what holds there, and at the others, what held.
pub at_channel :
    (name : Text) (k : ℕ) (d : Bool) (m : TypeListeners) (cl : ChannelListeners) (there : Bool)
    (other : Text)
    → includes k (listeners_set d cl) ≡ there
    → hears other k d (put name cl m) ≡ (if same name other then there else hears other k d m)
at_channel name k d m cl there other h =
    hears-put other k d name cl m ∙ ap (λ v. if same name other then v else hears other k d m) h

abbrev pub new_object : ℕ → ChannelListeners
new_object i = record { id = i; unsubscribing = false; buffers = []; strings = [] }

pub register_lem :
    (t : PubSubType) (name : Text) (l : ℕ) (b : Bool) (ls : Listeners)
    → ((find name (listeners_of t ls) ≡ none)
        × (listeners_of t (register t name l b ls)
            ≡ put name (add_listener l b (new_object ls.next_id)) (listeners_of t ls)))
      ⊎ ((cl : ChannelListeners) × (find name (listeners_of t ls) ≡ some cl)
          × (listeners_of t (register t name l b ls)
              ≡ put name (add_listener l b cl) (listeners_of t ls)))
unfolding register
register_lem t name l b ls = elim (Option-cases (find name (listeners_of t ls))) [
  | inl absent ↦ inl (absent, simp (register, absent) (listeners_of-with_listeners t _ _))
  | inr (cl, found) ↦ inr (cl, found, simp (register, found) (listeners_of-with_listeners t _ _))
]

pub hears-register :
    (t : PubSubType) (name : Text) (l : ℕ) (b : Bool) (ls : Listeners) (other : Text) (k : ℕ)
    (d : Bool)
    → hears other k d (listeners_of t (register t name l b ls))
      ≡ ((same name other && is_it l k b d) || hears other k d (listeners_of t ls))
hears-register t name l b ls other k d = elim (register_lem t name l b ls) [
  | inl (absent, r) ↦
      let made : ChannelListeners = new_object ls.next_id in
      ap (hears other k d) r
      ∙ at_channel name k d (listeners_of t ls) (add_listener l b made) (is_it l k b d) other
          (ground (arith, includes-add_listener k d l b made, no_listeners k d ls.next_id))
      ∙ ground (arith, same_iff name other, hears_absent name k d (listeners_of t ls) absent)
  | inr (cl, found, r) ↦
      ap (hears other k d) r
      ∙ at_channel name k d (listeners_of t ls) (add_listener l b cl)
          (is_it l k b d || includes k (listeners_set d cl)) other
          (includes-add_listener k d l b cl)
      ∙ ground (arith, same_iff name other, hears_found name k d (listeners_of t ls) cl found)
]

pub hears-register_each :
    (t : PubSubType) (names : List Text) (l : ℕ) (b : Bool) (ls : Listeners) (other : Text) (k : ℕ)
    (d : Bool)
    → hears other k d (listeners_of t (register_each t names l b ls))
      ≡ ((contains other names && is_it l k b d) || hears other k d (listeners_of t ls))
unfolding register_each contains
hears-register_each t [] l b ls other k d = refl
hears-register_each t (name ∷ names) l b ls other k d = ground (
  arith,
  hears-register_each t names l b (register t name l b ls) other k d,
  hears-register t name l b ls other k d,
)

pub hears-unflag :
    (other : Text) (k : ℕ) (d : Bool) (m : TypeListeners)
    → hears other k d (unflag m) ≡ hears other k d m
unfolding hears unflag find listeners_set
hears-unflag other k d [] = refl
hears-unflag other k true ((name, cl) ∷ m) = ground (arith, hears-unflag other k true m)
hears-unflag other k false ((name, cl) ∷ m) = ground (arith, hears-unflag other k false m)
