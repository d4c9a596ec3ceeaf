-- ===== src/Client/PubSub.antt =====
-- packages/client/lib/client/pub-sub.ts: the subscriptions of a client.
-- A listener is a number. A ChannelListeners object is shared between a Map and the commands that are
-- to delete it, so it has an id, and `next_id` is that of the next one; likewise an entry of
-- #pendingOps, whose flag `carried` is kept by its id. The closures `resolve` and `reject` of a command
-- are the data Settle, with `resolve` and `reject` as functions.
pub mod Commands
pub mod Replies
pub mod Moves
pub mod Registered
pub mod Removed
pub mod Cases
pub mod Carried
pub mod Crossing
pub mod Messages
pub mod Settled
pub mod Unsubscribed
pub mod Rejected
mod Tests
use node_redis.Base.{
  ℕ, suc, ◌+◌, ◌-◌, Bool, true, false, not, ◌&&◌, ◌||◌, ◌==◌, if◌then◌else◌, Option, none, some,
  List, [], ◌∷◌, ◌++◌, length, map,
}
use node_redis.Base.Int.{ℤ, pos, negsuc}
use node_redis.Base.Text.{Text}
use node_redis.Base.Map.{find, put, remove}
use node_redis.Base.Sets.{includes, add, discard}

pub data PubSubType : Type 0 where
  channels patterns sharded : PubSubType

pub record ChannelListeners : Type 0 where
  pub id : ℕ
  pub unsubscribing : Bool
  pub buffers : List ℕ
  pub strings : List ℕ

abbrev pub TypeListeners : Type 0
TypeListeners = List (Text × ChannelListeners)

pub record Listeners : Type 0 where
  pub next_id : ℕ
  pub of_channels : TypeListeners
  pub of_patterns : TypeListeners
  pub of_sharded : TypeListeners

-- What an unsubscribe removes when its reply arrives.
pub data Removal : Type 0 where
  everything : Removal
  whole : (names : List Text) → Removal
  only : (names : List Text) (listener : ℕ) (return_buffers : Bool) → Removal

pub data Change : Type 0 where
  addition : PubSubType → (names : List Text) (listener : ℕ) (return_buffers : Bool) → Change
  removal : PubSubType → Removal → Change

pub record Pending : Type 0 where
  pub op : ℕ
  pub change : Change
  pub flagged : List ℕ

pub record PubSub : Type 0 where
  pub listeners : Listeners
  pub subscribing : ℤ
  pub pending_ops : List Pending
  pub carried : List ℕ
  pub next_op : ℕ
  pub is_active : Bool

-- `new_names` are the channels of the SUBSCRIBE.
pub data Settle : Type 0 where
  subscription :
      (op : ℕ)
      → PubSubType
      → (new_names : List Text) (listener : ℕ) (return_buffers : Bool) → Settle
  extension resubscription : Settle
  unsubscription : (op : ℕ) → PubSubType → Removal → (flagged : List ℕ) → Settle

-- The channels among `args`; `channels_counter` is none for NaN.
pub record PubSubCommand : Type 0 where
  pub type : PubSubType
  pub names : List Text
  pub channels_counter : Option ℕ
  pub settle : Settle

unfoldable pub listeners_of : PubSubType → Listeners → TypeListeners
listeners_of channels ls = ls.of_channels
listeners_of patterns ls = ls.of_patterns
listeners_of sharded ls = ls.of_sharded

unfoldable pub with_listeners : PubSubType → TypeListeners → Listeners → Listeners
with_listeners channels m ls = record ls { of_channels = m }
with_listeners patterns m ls = record ls { of_patterns = m }
with_listeners sharded m ls = record ls { of_sharded = m }

unfoldable pub fresh_listeners : (next_id : ℕ) → Listeners
fresh_listeners i = record { next_id = i; of_channels = []; of_patterns = []; of_sharded = [] }

unfoldable pub new_pub_sub : PubSub
unfolding fresh_listeners
new_pub_sub = record {
  listeners = fresh_listeners 0;
  subscribing = pos 0;
  pending_ops = [];
  carried = [];
  next_op = 0;
  is_active = false;
}

unfoldable pub listeners_set : (return_buffers : Bool) → ChannelListeners → List ℕ
listeners_set true cl = cl.buffers
listeners_set false cl = cl.strings

unfoldable pub add_listener :
    (listener : ℕ) (return_buffers : Bool) → ChannelListeners → ChannelListeners
add_listener l true cl = record cl { buffers = add l cl.buffers }
add_listener l false cl = record cl { strings = add l cl.strings }

unfoldable pub delete_listener :
    (listener : ℕ) (return_buffers : Bool) → ChannelListeners → ChannelListeners
delete_listener l true cl = record cl { buffers = discard l cl.buffers }
delete_listener l false cl = record cl { strings = discard l cl.strings }

unfoldable pub is_unused : ChannelListeners → Bool
is_unused cl = (length cl.buffers == 0) && (length cl.strings == 0)

-- The listener is added to the object of a channel, which is made where there is none.
unfoldable pub register :
    PubSubType → Text → (listener : ℕ) (return_buffers : Bool) → Listeners → Listeners
unfolding listeners_of with_listeners add_listener
register t name l b ls = elim (find name (listeners_of t ls)) [
  | none ↦
      let made : ChannelListeners = record {
        id = ls.next_id;
        unsubscribing = false;
        buffers = [];
        strings = [];
      } in
      with_listeners t (put name (add_listener l b made) (listeners_of t ls))
        (record ls { next_id = ls.next_id + 1 })
  | some cl ↦ with_listeners t (put name (add_listener l b cl) (listeners_of t ls)) ls
]

unfoldable pub register_each :
    PubSubType → List Text → (listener : ℕ) (return_buffers : Bool) → Listeners → Listeners
unfolding register
register_each t [] l b ls = ls
register_each t (name ∷ names) l b ls = register_each t names l b (register t name l b ls)

unfoldable pub remove_each : List Text → TypeListeners → TypeListeners
remove_each [] m = m
remove_each (name ∷ names) m = remove_each names (remove name m)

unfoldable pub remove_listener :
    Text → (listener : ℕ) (return_buffers : Bool) → TypeListeners → TypeListeners
unfolding delete_listener is_unused
remove_listener name l b m = elim (find name m) [
  | none ↦ m
  | some cl ↦
      let rest = delete_listener l b cl in if is_unused rest then remove name m else put name rest m
]

unfoldable pub remove_listeners : Removal → TypeListeners → TypeListeners
unfolding remove_each remove_listener
remove_listeners everything m = []
remove_listeners (whole names) m = remove_each names m
remove_listeners (only [] l b) m = m
remove_listeners (only (name ∷ names) l b) m =
    remove_listeners (only names l b) (remove_listener name l b m)

-- `pending.applyTo`.
unfoldable pub apply_to : Change → Listeners → Listeners
unfolding register_each remove_listeners listeners_of with_listeners
apply_to (addition t names l b) ls = register_each t names l b ls
apply_to (removal t r) ls = with_listeners t (remove_listeners r (listeners_of t ls)) ls

unfoldable pub update_is_active : PubSub → PubSub
update_is_active p = record p {
  is_active =
      not (length p.listeners.of_channels == 0)
      || not (length p.listeners.of_patterns == 0)
      || not (length p.listeners.of_sharded == 0)
      || elim p.subscribing [ pos n ↦ not (n == 0) | negsuc n ↦ true ];
}
