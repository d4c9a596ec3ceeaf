-- ===== src/Client/PubSub/Tests.antt =====
-- Subscriptions of one client, and the theorems of the other modules at them.
use node_redis.Base.{ℕ, Bool, true, false, ◌≡◌, refl, none, some, List, [], ◌∷◌, arith}
use node_redis.Base.Int.{pos}
use node_redis.Base.Text.{Text, contains, same}
use node_redis.Base.Map.{find}
use node_redis.Base.Sets.{includes}
use node_redis.Client.PubSub.{
  channels, ChannelListeners, whole, removal, PubSub, PubSubCommand, subscription, unsubscription,
  listeners_of,
}
use node_redis.Client.PubSub.Commands.{subscribe, unsubscribe}
use node_redis.Client.PubSub.Replies.{resolve, reject, still_leaving, delete_pending}
use node_redis.Client.PubSub.Moves.{remove_all_listeners}
use node_redis.Client.PubSub.Registered.{hears}
use node_redis.Client.PubSub.Removed.{takes}
use node_redis.Client.PubSub.Carried.{subscribe-move, settle-move}
use node_redis.Client.PubSub.Settled.{answered, subscribe-answered}
use node_redis.Client.PubSub.Unsubscribed.{asked, unsubscribe-answered}
use node_redis.Client.PubSub.Rejected.{reject-flags}
use node_redis.Client.PubSub.Crossing.{crossed, crossed-lost}
use node_redis.Client.PubSub.Messages.{
  message_name, handle_message_reply, is_called, handle_message_reply-hears,
}

abbrev news : Text
news = b'n' ∷ []

abbrev sports : Text
sports = b's' ∷ []

-- One listener, 4, of `news`, and an unsubscribe of it in flight.
abbrev object : ChannelListeners
object = record { id = 0; unsubscribing = true; buffers = []; strings = 4 ∷ [] }

abbrev leaving : PubSub
leaving = record {
  listeners = record {
    next_id = 1;
    of_channels = (news, object) ∷ [];
    of_patterns = [];
    of_sharded = [];
  };
  subscribing = pos 0;
  pending_ops =
      record { op = 1; change = removal channels (whole (news ∷ [])); flagged = 0 ∷ [] } ∷ [];
  carried = [];
  next_op = 2;
  is_active = true;
}

-- Another listener, 5, subscribes to `news` and `sports` behind that.
abbrev both : List Text
both = news ∷ sports ∷ []

abbrev command : PubSubCommand
command = record {
  type = channels;
  names = both;
  channels_counter = some 2;
  settle = subscription 2 channels both 5 false;
}

sent_lem : (subscribe leaving channels both 5 false).1 ≡ some command
unfolding subscribe find same
sent_lem = refl

subscribe-move_example :
    hears news 5 false
      (listeners_of channels (remove_all_listeners (subscribe leaving channels both 5 false).0).1)
    ≡ true
subscribe-move_example =
    subscribe-move leaving channels both 5 false command news sent_lem
      (unfold contains same in refl)

settle-move_example :
    let q = (remove_all_listeners leaving).0 in
    (resolve q (unsubscription 1 channels (whole (news ∷ [])) (0 ∷ []))).listeners ≡ q.listeners
settle-move_example =
    (settle-move leaving 1 channels [] 0 false (whole (news ∷ [])) (0 ∷ [])
      (unfold includes in refl)).3

subscribe-answered_example :
    hears news 5 false
      (listeners_of channels (answered (subscribe leaving channels both 5 false)).listeners)
    ≡ true
unfolding contains same
subscribe-answered_example =
    subscribe-answered leaving channels both 5 false news 5 false (unfold includes in refl)

unsubscribe-answered_example :
    hears news 4 false
      (listeners_of channels (answered (unsubscribe leaving channels none none false)).listeners)
    ≡ false
unfolding asked takes
unsubscribe-answered_example =
    unsubscribe-answered leaving channels none none false news 4 false (unfold includes in refl)

-- The flag is lifted.
reject-flags_example :
    find news (
      listeners_of channels
        (reject leaving (unsubscription 1 channels (whole (news ∷ [])) (0 ∷ []))).listeners)
    ≡ some (record object { unsubscribing = false })
unfolding includes still_leaving delete_pending
reject-flags_example =
    reject-flags leaving 1 channels (whole (news ∷ [])) (0 ∷ []) news object refl
      (unfold find same listeners_of in refl)

crossed-lost_example :
    hears sports 5 false (
      listeners_of channels
        (resolve
          (subscribe (crossed leaving channels sports 4 false) channels (sports ∷ []) 5 false).0
          (unsubscription 3 channels (whole (sports ∷ [])) [])).listeners)
    ≡ false
crossed-lost_example =
    (crossed-lost leaving channels sports 4 5 false false
      (λ i h. absurd (unfold includes in ground (arith, h)))
      (unfold find same listeners_of in refl)).2

abbrev as_it_is : Text → Text
as_it_is s = s

handle_message_reply-hears_example :
    (calls : List (ℕ × Bool)) × (handle_message_reply as_it_is leaving.listeners
        (message_name channels)
        news
      ≡ some calls)
    × (is_called 4 false calls ≡ hears news 4 false (listeners_of channels leaving.listeners))
handle_message_reply-hears_example =
    handle_message_reply-hears as_it_is leaving.listeners channels news 4 false
