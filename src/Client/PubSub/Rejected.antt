-- ===== src/Client/PubSub/Rejected.antt =====
-- What a failed unsubscribe leaves.
use node_redis.Base.{
  ℕ, Bool, false, ◌≡◌, refl, ap, ◌∙◌, not, ◌&&◌, ==_iff, if◌then◌else◌, some, List, [], ◌∷◌, arith,
}
use node_redis.Base.Text.{Text}
use node_redis.Base.Map.{find}
use node_redis.Base.Sets.{includes}
use node_redis.Client.PubSub.{
  PubSubType, ChannelListeners, TypeListeners, Removal, Pending, PubSub, unsubscription,
  listeners_of, with_listeners, update_is_active,
}
use node_redis.Client.PubSub.Commands.{mark}
use node_redis.Client.PubSub.Replies.{reject, staying, still_leaving, delete_pending}
use node_redis.Client.PubSub.Registered.{listeners_of-with_listeners}

find-mark :
    (value : Bool) (ids : List ℕ) (name : Text) (m : TypeListeners) (cl : ChannelListeners)
    → find name m ≡ some cl
    → find name (mark value ids m)
      ≡ some (if includes cl.id ids then record cl { unsubscribing = value } else cl)
unfolding mark find
find-mark value ids name [] cl found = absurd (cc)
find-mark value ids name ((other, first) ∷ m) cl found =
    ground (arith, found, find-mark value ids name m cl)

includes-staying :
    (i : ℕ) (ids : List ℕ) (os : List Pending)
    → includes i (staying ids os) ≡ (includes i ids && not (still_leaving i os))
unfolding staying includes
includes-staying i [] os = refl
includes-staying i (j ∷ ids) os = ground (arith, includes-staying i ids os, ==_iff j i)

-- An unsubscribe that fails, and that no move carried, lifts the flag of the channels that it was to
-- remove, but of none that another unsubscribe in flight is to remove; it changes nothing else of a
-- channel.
pub reject-flags :
    (p : PubSub) (op : ℕ) (t : PubSubType) (r : Removal) (flagged : List ℕ) (name : Text)
    (cl : ChannelListeners)
    → includes op p.carried ≡ false
    → find name (listeners_of t p.listeners) ≡ some cl
    → find name (listeners_of t (reject p (unsubscription op t r flagged)).listeners)
      ≡ some (
          if includes cl.id flagged && not (still_leaving cl.id (delete_pending op p.pending_ops))
          then record cl { unsubscribing = false }
          else cl)
reject-flags p op t r flagged name cl new found =
    let ids : List ℕ = staying flagged (delete_pending op p.pending_ops) in
    ap (λ ls. find name (listeners_of t ls)) lifted
    ∙ ap (find name)
        (listeners_of-with_listeners t (mark false ids (listeners_of t p.listeners)) p.listeners)
    ∙ find-mark false ids name (listeners_of t p.listeners) cl found
    ∙ ap (λ (v : Bool). some (if v then record cl { unsubscribing = false } else cl))
        (includes-staying cl.id flagged (delete_pending op p.pending_ops))
  where
    lifted :
        (reject p (unsubscription op t r flagged)).listeners
        ≡ with_listeners t
            (mark false
              (staying flagged (delete_pending op p.pending_ops))
              (listeners_of t p.listeners))
            p.listeners
    lifted = unfold reject update_is_active in ground (arith, new)
