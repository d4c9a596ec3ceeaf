-- ===== src/Client/PubSub/Commands.antt =====
-- pub-sub.ts: the commands that change the subscriptions.
use node_redis.Base.{
  ℕ, ◌+◌, ◌-◌, Bool, true, not, ◌&&◌, ◌==◌, if◌then◌else◌, Option, none, some, List, [], ◌∷◌, ◌++◌,
  length,
}
use node_redis.Base.Int.{ℤ, pos, negsuc}
use node_redis.Base.Text.{Text}
use node_redis.Base.Map.{find, put}
use node_redis.Base.Sets.{includes}
use node_redis.Client.PubSub.{
  PubSubType, ChannelListeners, TypeListeners, Listeners, Removal, everything, whole, only,
  addition, removal, PubSub, subscription, unsubscription, PubSubCommand, listeners_of,
  with_listeners, listeners_set, add_listener, delete_listener,
}

unfoldable pub increment : ℤ → ℤ
increment (pos n) = pos (n + 1)
increment (negsuc n) = if n == 0 then pos 0 else negsuc (n - 1)

-- A channel that is subscribed, and not about to go, takes the listener.
unfoldable pub join :
    PubSubType → Text → (listener : ℕ) (return_buffers : Bool) → Listeners → Option Listeners
unfolding listeners_of with_listeners add_listener
join t name l b ls = elim (find name (listeners_of t ls)) [
  | none ↦ none
  | some cl ↦
      if cl.unsubscribing
      then none
      else some (with_listeners t (put name (add_listener l b cl) (listeners_of t ls)) ls)
]

-- The channels that do not are returned.
unfoldable pub join_each :
    PubSubType
    → List Text
    → (listener : ℕ) (return_buffers : Bool) → Listeners
    → Listeners × List Text
unfolding join
join_each t [] l b ls = (ls, [])
join_each t (name ∷ names) l b ls = elim (join t name l b ls) [
  | none ↦ let rest = join_each t names l b ls in (rest.0, name ∷ rest.1)
  | some joined ↦ join_each t names l b joined
]

unfoldable pub subscribe :
    PubSub
    → PubSubType
    → List Text
    → (listener : ℕ) (return_buffers : Bool) → PubSub × Option PubSubCommand
unfolding join_each increment
subscribe p t names l b =
    let joined = join_each t names l b p.listeners in
    elim joined.1 [
      | [] ↦ (record p { listeners = joined.0 }, none)
      | name ∷ rest ↦ (
        record p {
          listeners = joined.0;
          is_active = true;
          subscribing = increment p.subscribing;
          pending_ops =
              p.pending_ops
              ++ record { op = p.next_op; change = addition t names l b; flagged = [] } ∷ [];
          next_op = p.next_op + 1;
        },
        some (record {
          type = t;
          names = name ∷ rest;
          channels_counter = some (length (name ∷ rest));
          settle = subscription p.next_op t (name ∷ rest) l b;
        }),
      )
    ]

unfoldable pub ids_of : TypeListeners → List ℕ
ids_of [] = []
ids_of ((name, cl) ∷ m) = cl.id ∷ ids_of m

unfoldable pub ids_at : List Text → TypeListeners → List ℕ
ids_at [] m = []
ids_at (name ∷ names) m = elim (find name m) [
  | none ↦ ids_at names m
  | some cl ↦ cl.id ∷ ids_at names m
]

-- The flag `unsubscribing` of some of the objects.
unfoldable pub mark : (Bool) → (ids : List ℕ) → TypeListeners → TypeListeners
unfolding includes
mark value ids [] = []
mark value ids ((name, cl) ∷ m) =
    (name, if includes cl.id ids then record cl { unsubscribing = value } else cl)
    ∷ mark value ids m

unfoldable pub unsubscribe_command :
    PubSub
    → PubSubType
    → (names : List Text) → (channels_counter : Option ℕ) → (flagged : List ℕ) → Removal
    → PubSub × Option PubSubCommand
unfolding mark with_listeners listeners_of
unsubscribe_command p t names counter flagged r = (
  record p {
    listeners = with_listeners t (mark true flagged (listeners_of t p.listeners)) p.listeners;
    pending_ops =
        p.pending_ops ++ record { op = p.next_op; change = removal t r; flagged = flagged } ∷ [];
    next_op = p.next_op + 1;
  },
  some (record {
    type = t;
    names = names;
    channels_counter = counter;
    settle = unsubscription p.next_op t r flagged;
  }),
)

-- Is the listener the only one of the object?
unfoldable pub is_last : (listener : ℕ) (return_buffers : Bool) → ChannelListeners → Bool
unfolding listeners_set includes
is_last l b cl =
    let current = listeners_set b cl in
    let other = listeners_set (not b) cl in
    let current_size = if includes l current then length current - 1 else length current in
    (current_size == 0) && (length other == 0)

-- The channels to unsubscribe from, and the objects that are to go.
unfoldable pub select_last :
    List Text → (listener : ℕ) (return_buffers : Bool) → TypeListeners → List Text × List ℕ
unfolding is_last
select_last [] l b m = ([], [])
select_last (name ∷ names) l b m =
    let rest = select_last names l b m in
    elim (find name m) [
      | none ↦ (name ∷ rest.0, rest.1)
      | some cl ↦ if is_last l b cl then (name ∷ rest.0, cl.id ∷ rest.1) else rest
    ]

unfoldable pub drop_each :
    List Text → (listener : ℕ) (return_buffers : Bool) → TypeListeners → TypeListeners
unfolding delete_listener
drop_each [] l b m = m
drop_each (name ∷ names) l b m =
    drop_each names l b
      (elim (find name m) [ none ↦ m | some cl ↦ put name (delete_listener l b cl) m ])

-- An empty string for the channels is none, as none at all.
unfoldable pub unsubscribe :
    PubSub
    → PubSubType
    → (names : Option (List Text)) (listener : Option ℕ) (return_buffers : Bool)
    → PubSub × Option PubSubCommand
unfolding unsubscribe_command ids_of ids_at select_last drop_each
unsubscribe p t none listener b =
    unsubscribe_command p t [] none (ids_of (listeners_of t p.listeners)) everything
unsubscribe p t (some names) none b =
    unsubscribe_command p t names (some (length names)) (ids_at names (listeners_of t p.listeners))
      (whole names)
unsubscribe p t (some names) (some l) b =
    let selected = select_last names l b (listeners_of t p.listeners) in
    elim selected.0 [
      | [] ↦ (
        record p {
          listeners =
              with_listeners t (drop_each names l b (listeners_of t p.listeners)) p.listeners;
        },
        none,
      )
      | name ∷ rest ↦
          unsubscribe_command p t (name ∷ rest) (some (length (name ∷ rest))) selected.1
            (only names l b)
    ]
