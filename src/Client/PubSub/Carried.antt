-- ===== src/Client/PubSub/Carried.antt =====
-- What a move of the subscriptions to another client takes along, and what late replies do then.
use node_redis.Base.{
  ℕ, Bool, true, ◌≡◌, inl, inr, refl, ap, ◌∙◌, some, List, [], ◌∷◌, ◌++◌, arith, map,
}
use node_redis.Base.Text.{Text, contains}
use node_redis.Base.Sets.{includes, includes-append}
use node_redis.Client.PubSub.{
  PubSubType, Removal, channels, patterns, sharded, Listeners, addition, Pending, PubSub,
  PubSubCommand, subscription, unsubscription, listeners_of, fresh_listeners, apply_to,
  update_is_active,
}
use node_redis.Client.PubSub.Commands.{subscribe}
use node_redis.Client.PubSub.Replies.{resolve, reject}
use node_redis.Client.PubSub.Cases.{subscribe_lem}
use node_redis.Client.PubSub.Moves.{apply_each, remove_all_listeners}
use node_redis.Client.PubSub.Registered.{hears, is_it_refl, hears-register_each, hears-unflag}

apply_each-append :
    (os us : List Pending) (ls : Listeners)
    → apply_each (os ++ us) ls ≡ apply_each us (apply_each os ls)
unfolding apply_each
apply_each-append [] us ls = refl
apply_each-append (o ∷ os) us ls = apply_each-append os us (apply_to o.change ls)

-- What moves is the listeners behind the changes in flight, with the flags lifted.
hears-move :
    (p : PubSub) (t : PubSubType) (name : Text) (l : ℕ) (b : Bool)
    → hears name l b (listeners_of t (remove_all_listeners p).1)
      ≡ hears name l b (listeners_of t (apply_each p.pending_ops p.listeners))
unfolding remove_all_listeners listeners_of
hears-move p channels name l b =
    hears-unflag name l b (apply_each p.pending_ops p.listeners).of_channels
hears-move p patterns name l b =
    hears-unflag name l b (apply_each p.pending_ops p.listeners).of_patterns
hears-move p sharded name l b =
    hears-unflag name l b (apply_each p.pending_ops p.listeners).of_sharded

-- The subscribe is the last change in flight.
pending-subscribe :
    (p : PubSub) (t : PubSubType) (names : List Text) (l : ℕ) (b : Bool) (command : PubSubCommand)
    → (subscribe p t names l b).1 ≡ some command
    → (subscribe p t names l b).0.pending_ops
      ≡ p.pending_ops ++ record { op = p.next_op; change = addition t names l b; flagged = [] } ∷ []
pending-subscribe p t names l b command sent = elim (subscribe_lem p t names l b) [
  | inl (all_joined, r) ↦ absurd (ground (arith, sent, ap (λ s. s.1) r))
  | inr (name, rest, left, r) ↦ ap (λ s. s.0.pending_ops) r
]

-- A listener whose subscribe sends a command is among those that move, on every channel of the call,
-- whatever changes are still in flight: an unsubscribe before it does not take it away, nor does the
-- missing reply.
pub subscribe-move :
    (p : PubSub) (t : PubSubType) (names : List Text) (l : ℕ) (b : Bool) (command : PubSubCommand)
    (name : Text)
    → (subscribe p t names l b).1 ≡ some command
    → contains name names ≡ true
    → hears name l b (listeners_of t (remove_all_listeners (subscribe p t names l b).0).1) ≡ true
unfolding apply_to
subscribe-move p t names l b command name sent among =
    let q : PubSub = (subscribe p t names l b).0 in
    let last : Pending = record { op = p.next_op; change = addition t names l b; flagged = [] } in
    let before : Listeners = apply_each p.pending_ops q.listeners in
    hears-move q t name l b
    ∙ ap (λ os. hears name l b (listeners_of t (apply_each os q.listeners)))
        (pending-subscribe p t names l b command sent)
    ∙ ap (λ ls. hears name l b (listeners_of t ls))
        (apply_each-append p.pending_ops (last ∷ []) q.listeners)
    ∙ unfold apply_each in
      ground (arith, hears-register_each t names l b before name l b, among, is_it_refl l b)

-- The commands in flight are all marked as carried.
includes-carried :
    (p : PubSub) (i : ℕ)
    → includes i (map (λ o. o.op) p.pending_ops) ≡ true
    → includes i (remove_all_listeners p).0.carried ≡ true
unfolding remove_all_listeners update_is_active
includes-carried p i h =
    ground (arith, h, includes-append i (map (λ o. o.op) p.pending_ops) p.carried)

-- The reply to a command that was in flight when the subscriptions moved, a success or an error,
-- does not change the listeners of the client that they moved from, which are none.
pub settle-move :
    (p : PubSub) (op : ℕ) (t : PubSubType) (names : List Text) (l : ℕ) (b : Bool) (r : Removal)
    (flagged : List ℕ)
    → includes op (map (λ o. o.op) p.pending_ops) ≡ true
    → let q = (remove_all_listeners p).0 in
      (q.listeners ≡ fresh_listeners q.listeners.next_id)
      × ((resolve q (subscription op t names l b)).listeners ≡ q.listeners)
      × ((reject q (subscription op t names l b)).listeners ≡ q.listeners)
      × ((resolve q (unsubscription op t r flagged)).listeners ≡ q.listeners)
      × ((reject q (unsubscription op t r flagged)).listeners ≡ q.listeners)
unfolding resolve reject update_is_active
settle-move p op t names l b r flagged h =
    let q : PubSub = (remove_all_listeners p).0 in
    let c : includes op q.carried ≡ true = includes-carried p op h in
    (
      unfold remove_all_listeners fresh_listeners in refl,
      ground (arith, c),
      ground (arith, c),
      ground (arith, c),
      ground (arith, c),
    )
