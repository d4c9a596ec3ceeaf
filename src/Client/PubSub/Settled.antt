-- ===== src/Client/PubSub/Settled.antt =====
-- Who hears the messages of a channel when the reply to a command has come.
use node_redis.Base.{
  ℕ, ◌+◌, Bool, true, false, ◌≡◌, inl, inr, refl, ap, ◌∙◌, ◌&&◌, ◌||◌, Option, none, some, List, [],
  ◌∷◌, ◌++◌, arith,
}
use node_redis.Base.Text.{Text, same_iff, contains}
use node_redis.Base.Map.{put}
use node_redis.Base.Sets.{includes}
use node_redis.Client.PubSub.{
  PubSubType, TypeListeners, Listeners, PubSub, PubSubCommand, addition, subscription, listeners_of,
  add_listener, listeners_set, register_each, update_is_active,
}
use node_redis.Client.PubSub.Commands.{increment, subscribe, join_each}
use node_redis.Client.PubSub.Replies.{resolve}
use node_redis.Client.PubSub.Cases.{subscribe_lem, join_lem, join_each_lem}
use node_redis.Client.PubSub.Registered.{
  hears, is_it, includes-add_listener, hears_found, at_channel, hears-register_each,
  listeners_of-with_listeners,
}

-- A command, if one is sent, is answered at once.
unfoldable pub answered : PubSub × Option PubSubCommand → PubSub
unfolding resolve
answered s = elim s.1 [ none ↦ s.0 | some command ↦ resolve s.0 command.settle ]

-- The channels that are joined have the listener, and those of the command will.
hears-join_each :
    (t : PubSubType) (names : List Text) (l : ℕ) (b : Bool) (ls : Listeners) (other : Text) (k : ℕ)
    (d : Bool)
    → let joined = join_each t names l b ls in
      ((contains other joined.1 && is_it l k b d) || hears other k d (listeners_of t joined.0))
      ≡ ((contains other names && is_it l k b d) || hears other k d (listeners_of t ls))
unfolding contains
hears-join_each t [] l b ls other k d = unfold join_each in refl
hears-join_each t (name ∷ names) l b ls other k d = elim (join_each_lem t name names l b ls) [
  | inl r ↦ ground (arith, r, hears-join_each t names l b ls other k d)
  | inr (joined, old, r) ↦
      let (cl, found, staying, same_listeners) = join_lem t name l b ls joined old in
      let m : TypeListeners = put name (add_listener l b cl) (listeners_of t ls) in
      ground (
        arith,
        r,
        hears-join_each t names l b joined other k d,
        ap (λ (x : Listeners). hears other k d (listeners_of t x)) same_listeners,
        ap (hears other k d) (listeners_of-with_listeners t m ls),
        at_channel name k d (listeners_of t ls) (add_listener l b cl)
            (is_it l k b d || includes k (listeners_set d cl)) other
            (includes-add_listener k d l b cl),
        same_iff name other,
        hears_found name k d (listeners_of t ls) cl found,
      )
]

-- After a subscribe and the reply to its command, if one is sent, the listener is on every channel of
-- the call, and every other listener is where it was. The command is not one that a move carried.
pub subscribe-answered :
    (p : PubSub) (t : PubSubType) (names : List Text) (l : ℕ) (b : Bool) (other : Text) (k : ℕ)
    (d : Bool)
    → includes p.next_op p.carried ≡ false
    → hears other k d (listeners_of t (answered (subscribe p t names l b)).listeners)
      ≡ ((contains other names && is_it l k b d) || hears other k d (listeners_of t p.listeners))
subscribe-answered p t names l b other k d new = elim (subscribe_lem p t names l b) [
  | inl (all_joined, r) ↦
      ap (λ s. hears other k d (listeners_of t (answered s).listeners)) r
      ∙ unfold answered contains in
        ground (arith, hears-join_each t names l b p.listeners other k d, all_joined)
  | inr (name, rest, left, r) ↦
      ap (λ s. hears other k d (listeners_of t (answered s).listeners)) r
      ∙ unfold answered in
        ap (λ ls. hears other k d (listeners_of t ls)) (added name rest)
        ∙ ground (
          arith,
          hears-register_each t (name ∷ rest) l b (join_each t names l b p.listeners).0 other k d,
          left,
          hears-join_each t names l b p.listeners other k d,
        )
]
  where
    added :
        (name : Text) (rest : List Text)
        → (resolve
            (record p {
              listeners = (join_each t names l b p.listeners).0;
              is_active = true;
              subscribing = increment p.subscribing;
              pending_ops =
                  p.pending_ops
                  ++ record { op = p.next_op; change = addition t names l b; flagged = [] } ∷ [];
              next_op = p.next_op + 1;
            })
            (subscription p.next_op t (name ∷ rest) l b)).listeners
          ≡ register_each t (name ∷ rest) l b (join_each t names l b p.listeners).0
    added name rest = unfold resolve update_is_active in ground (arith, new)
