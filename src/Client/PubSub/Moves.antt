-- ===== src/Client/PubSub/Moves.antt =====
-- pub-sub.ts: subscriptions that come from another client or go to one, and resubscription.
use node_redis.Base.{
  ℕ, ◌+◌, Bool, true, false, if◌then◌else◌, Option, none, some, List, [], ◌∷◌, ◌++◌, length, map,
}
use node_redis.Base.Text.{Text}
use node_redis.Base.Map.{find, put, remove}
use node_redis.Base.Sets.{add}
use node_redis.Utils.Slot.{string, generate}
use node_redis.Client.PubSub.{
  PubSubType, channels, patterns, sharded, ChannelListeners, TypeListeners, Listeners, Pending,
  PubSub, extension, resubscription, PubSubCommand, listeners_of, with_listeners, fresh_listeners,
  apply_to, update_is_active,
}
use node_redis.Client.PubSub.Commands.{increment}

unfoldable pub add_all : List ℕ → List ℕ → List ℕ
unfolding add
add_all [] js = js
add_all (i ∷ is) js = add_all is (add i js)

-- The private #extendChannelListeners: is the channel new? An object that another client had is a
-- new one here.
unfoldable pub extend_channel : PubSubType → Text → ChannelListeners → Listeners → Listeners × Bool
unfolding listeners_of with_listeners add_all
extend_channel t name cl ls = elim (find name (listeners_of t ls)) [
  | none ↦ (
    with_listeners t (put name (record cl { id = ls.next_id }) (listeners_of t ls))
        (record ls { next_id = ls.next_id + 1 }),
    true,
  )
  | some existing ↦ (
    with_listeners t
        (put name
          (record existing {
            buffers = add_all cl.buffers existing.buffers;
            strings = add_all cl.strings existing.strings;
          })
          (listeners_of t ls))
        ls,
    false,
  )
]

unfoldable pub extend_channel_listeners :
    PubSub → PubSubType → Text → ChannelListeners → PubSub × Option PubSubCommand
unfolding extend_channel increment
extend_channel_listeners p t name cl =
    let extended = extend_channel t name cl p.listeners in
    if extended.1
    then (
      record p { listeners = extended.0; is_active = true; subscribing = increment p.subscribing },
      some (record { type = t; names = name ∷ []; channels_counter = some 1; settle = extension }),
    )
    else (record p { listeners = extended.0 }, none)

unfoldable pub extend_each : PubSubType → TypeListeners → Listeners → Listeners × List Text
unfolding extend_channel
extend_each t [] ls = (ls, [])
extend_each t ((name, cl) ∷ m) ls =
    let extended = extend_channel t name cl ls in
    let rest = extend_each t m extended.0 in (rest.0, if extended.1 then name ∷ rest.1 else rest.1)

unfoldable pub extend_type_listeners :
    PubSub → PubSubType → TypeListeners → PubSub × Option PubSubCommand
unfolding extend_each increment
extend_type_listeners p t m =
    let extended = extend_each t m p.listeners in
    elim extended.1 [
      | [] ↦ (record p { listeners = extended.0 }, none)
      | name ∷ rest ↦ (
        record p {
          listeners = extended.0;
          is_active = true;
          subscribing = increment p.subscribing;
        },
        some (record {
          type = t;
          names = name ∷ rest;
          channels_counter = some (length (name ∷ rest));
          settle = extension;
        }),
      )
    ]

unfoldable pub names_of : TypeListeners → List Text
names_of [] = []
names_of ((name, cl) ∷ m) = name ∷ names_of m

-- #normalResubscribe, for channels and for patterns; nothing for none.
unfoldable pub normal_resubscribe : PubSubType → PubSub → PubSub × List PubSubCommand
unfolding listeners_of names_of increment
normal_resubscribe t p = elim (listeners_of t p.listeners) [
  | [] ↦ (p, [])
  | first ∷ rest ↦ (
    record p { is_active = true; subscribing = increment p.subscribing },
    record {
      type = t;
      names = names_of (listeners_of t p.listeners);
      channels_counter = some (length (listeners_of t p.listeners));
      settle = resubscription;
    }
        ∷ [],
  )
]

-- #shardedResubscribe: a command for each channel.
unfoldable pub sharded_resubscribe : List Text → PubSub → PubSub × List PubSubCommand
unfolding increment
sharded_resubscribe [] p = (p, [])
sharded_resubscribe (name ∷ names) p =
    let rest =
      sharded_resubscribe names
        (record p { is_active = true; subscribing = increment p.subscribing }) in
    (
      rest.0,
      record {
        type = sharded;
        names = name ∷ [];
        channels_counter = some 1;
        settle = resubscription;
      }
          ∷ rest.1,
    )

unfoldable pub resubscribe : PubSub → PubSub × List PubSubCommand
unfolding normal_resubscribe sharded_resubscribe names_of
resubscribe p =
    let c = normal_resubscribe channels p in
    let d = normal_resubscribe patterns c.0 in
    let e = sharded_resubscribe (names_of d.0.listeners.of_sharded) d.0 in (e.0, c.1 ++ d.1 ++ e.1)

unfoldable pub remove_sharded_listeners : PubSub → Text → PubSub × Option ChannelListeners
unfolding update_is_active
remove_sharded_listeners p name =
    let ls : Listeners = p.listeners in
    (
      update_is_active
          (record p { listeners = record ls { of_sharded = remove name ls.of_sharded } }),
      find name ls.of_sharded,
    )

-- In the order of issue.
unfoldable pub apply_each : List Pending → Listeners → Listeners
unfolding apply_to
apply_each [] ls = ls
apply_each (o ∷ os) ls = apply_each os (apply_to o.change ls)

unfoldable pub unflag : TypeListeners → TypeListeners
unflag [] = []
unflag ((name, cl) ∷ m) = (name, record cl { unsubscribing = false }) ∷ unflag m

unfoldable pub remove_all_listeners : PubSub → PubSub × Listeners
unfolding apply_each unflag fresh_listeners update_is_active
remove_all_listeners p =
    let result : Listeners = apply_each p.pending_ops p.listeners in
    (
      update_is_active (record p {
        listeners = fresh_listeners result.next_id;
        carried = map (λ o. o.op) p.pending_ops ++ p.carried;
        pending_ops = [];
      }),
      record result {
        of_channels = unflag result.of_channels;
        of_patterns = unflag result.of_patterns;
        of_sharded = unflag result.of_sharded;
      },
    )

-- The channels of some slots, and the others.
unfoldable pub split_slots : (slots : ℕ → Bool) → TypeListeners → TypeListeners × TypeListeners
unfolding generate
split_slots slots [] = ([], [])
split_slots slots ((name, cl) ∷ m) =
    let rest = split_slots slots m in
    if slots (generate (string name))
    then ((name, cl) ∷ rest.0, rest.1)
    else (rest.0, (name, cl) ∷ rest.1)

unfoldable pub remove_sharded_listeners_for_slots :
    PubSub → (slots : ℕ → Bool) → PubSub × TypeListeners
unfolding split_slots update_is_active
remove_sharded_listeners_for_slots p slots =
    let ls : Listeners = p.listeners in
    let parts = split_slots slots ls.of_sharded in
    (update_is_active (record p { listeners = record ls { of_sharded = parts.1 } }), parts.0)
