-- ===== src/Client/PubSub/Replies.antt =====
-- pub-sub.ts: what the replies to the commands do, `resolve` and `reject`.
use node_redis.Base.{ℕ, ◌+◌, ◌-◌, Bool, false, ◌||◌, ◌==◌, if◌then◌else◌, List, [], ◌∷◌}
use node_redis.Base.Int.{ℤ, pos, negsuc}
use node_redis.Base.Text.{Text}
use node_redis.Base.Sets.{includes}
use node_redis.Client.PubSub.{
  PubSubType, Removal, Pending, PubSub, Settle, subscription, extension, resubscription,
  unsubscription, listeners_of, with_listeners, register_each, remove_listeners, update_is_active,
}
use node_redis.Client.PubSub.Commands.{mark}

unfoldable pub decrement : ℤ → ℤ
decrement (pos n) = if n == 0 then negsuc 0 else pos (n - 1)
decrement (negsuc n) = negsuc (n + 1)

-- `this.#pendingOps.delete(pending)`.
unfoldable pub delete_pending : (op : ℕ) → List Pending → List Pending
delete_pending i [] = []
delete_pending i (o ∷ os) = if o.op == i then delete_pending i os else o ∷ delete_pending i os

unfoldable pub still_leaving : (id : ℕ) → List Pending → Bool
unfolding includes
still_leaving i [] = false
still_leaving i (o ∷ os) = includes i o.flagged || still_leaving i os

-- The flags that are lifted.
unfoldable pub staying : List ℕ → List Pending → List ℕ
unfolding still_leaving
staying [] os = []
staying (i ∷ ids) os = let rest = staying ids os in if still_leaving i os then rest else i ∷ rest

unfoldable pub resolve_subscription :
    PubSub
    → (op : ℕ) → PubSubType
    → (new_names : List Text) (listener : ℕ) (return_buffers : Bool) → PubSub
unfolding decrement delete_pending includes update_is_active register_each
resolve_subscription p op t names l b =
    let settled = record p {
      subscribing = decrement p.subscribing;
      pending_ops = delete_pending op p.pending_ops;
    } in
    if includes op p.carried
    then update_is_active settled
    else record settled { listeners = register_each t names l b p.listeners }

unfoldable pub reject_subscription : PubSub → (op : ℕ) → PubSub
unfolding decrement delete_pending update_is_active
reject_subscription p op = update_is_active (record p {
  subscribing = decrement p.subscribing;
  pending_ops = delete_pending op p.pending_ops;
})

unfoldable pub resolve_unsubscription : PubSub → (op : ℕ) → PubSubType → Removal → PubSub
unfolding delete_pending includes update_is_active remove_listeners with_listeners listeners_of
resolve_unsubscription p op t r =
    let settled = record p { pending_ops = delete_pending op p.pending_ops } in
    update_is_active (
      if includes op p.carried then settled else record settled {
        listeners = with_listeners t (remove_listeners r (listeners_of t p.listeners)) p.listeners;
      })

unfoldable pub reject_unsubscription : PubSub → (op : ℕ) → PubSubType → (flagged : List ℕ) → PubSub
unfolding delete_pending includes update_is_active mark staying with_listeners listeners_of
reject_unsubscription p op t flagged =
    let left = delete_pending op p.pending_ops in
    let settled = record p { pending_ops = left } in
    update_is_active (
      if includes op p.carried then settled else record settled {
        listeners =
            with_listeners t (mark false (staying flagged left) (listeners_of t p.listeners))
              p.listeners;
      })

-- The callback of a resubscription.
unfoldable pub resubscribed : PubSub → PubSub
resubscribed p = record p {
  subscribing = elim p.subscribing [ pos n ↦ pos (n - 1) | negsuc n ↦ negsuc n ];
}

unfoldable pub resolve : PubSub → Settle → PubSub
unfolding resolve_subscription resolve_unsubscription resubscribed decrement
resolve p (subscription op t names l b) = resolve_subscription p op t names l b
resolve p extension = record p { subscribing = decrement p.subscribing }
resolve p resubscription = resubscribed p
resolve p (unsubscription op t r flagged) = resolve_unsubscription p op t r

unfoldable pub reject : PubSub → Settle → PubSub
unfolding reject_subscription reject_unsubscription resubscribed decrement update_is_active
reject p (subscription op t names l b) = reject_subscription p op
reject p extension = update_is_active (record p { subscribing = decrement p.subscribing })
reject p resubscription = resubscribed p
reject p (unsubscription op t r flagged) = reject_unsubscription p op t flagged

unfoldable pub reset : PubSub → PubSub
reset p = record p { is_active = false; subscribing = pos 0 }
