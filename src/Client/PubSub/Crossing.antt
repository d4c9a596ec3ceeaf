-- ===== src/Client/PubSub/Crossing.antt =====
-- A listener that joins a channel between the replies to a subscribe and an unsubscribe.
use node_redis.Base.{
  ℕ, ◌<◌, ◌≤◌, ◌+◌, Bool, true, false, ◌≡◌, inl, inr, refl, ap, sym, ◌∙◌, Option, none, some, List,
  [], ◌∷◌, arith, Bool-cases,
}
use node_redis.Base.Text.{Text, same_refl, contains}
use node_redis.Base.Map.{find, put, find-put}
use node_redis.Base.Sets.{includes}
use node_redis.Client.PubSub.{
  PubSubType, ChannelListeners, TypeListeners, Listeners, whole, PubSub, PubSubCommand,
  subscription, unsubscription, listeners_of, with_listeners, add_listener, register, register_each,
  update_is_active,
}
use node_redis.Client.PubSub.Commands.{
  subscribe, unsubscribe, mark, ids_at, unsubscribe_command, join, join_each,
}
use node_redis.Client.PubSub.Replies.{resolve}
use node_redis.Client.PubSub.Registered.{
  hears, is_it_refl, register_lem, new_object, listeners_of-with_listeners,
}
use node_redis.Client.PubSub.Cases.{subscribe_lem, join_lem, join_each_lem, join_each-joined}
use node_redis.Client.PubSub.Removed.{takes}
use node_redis.Client.PubSub.Settled.{answered, subscribe-answered}
use node_redis.Client.PubSub.Unsubscribed.{resolve-removal}

-- A subscribe of a channel that nobody listens to, an unsubscribe of it behind that, and the reply to
-- the subscribe.
unfoldable pub crossed :
    PubSub → PubSubType → Text → (listener : ℕ) (return_buffers : Bool) → PubSub
unfolding subscribe unsubscribe resolve
crossed p t name l b =
    let q : PubSub = (subscribe p t (name ∷ []) l b).0 in
    let r : PubSub = (unsubscribe q t (some (name ∷ [])) none false).0 in
    resolve r (subscription p.next_op t (name ∷ []) l b)

-- The commands that moves carried are earlier ones.
abbrev pub Earlier : PubSub → Type 0
Earlier p = (i : ℕ) → includes i p.carried ≡ true → i < p.next_op

not_carried : (p : PubSub) (i : ℕ) → Earlier p → p.next_op ≤ i → includes i p.carried ≡ false
not_carried p i earlier new = elim (Bool-cases (includes i p.carried)) [
  | inl carried ↦ absurd (omega (arith, earlier i carried))
  | inr free ↦ free
]

-- A subscribe of a channel that is not there leaves the listeners as they are.
subscribe-new :
    (p : PubSub) (t : PubSubType) (name : Text) (l : ℕ) (b : Bool)
    → find name (listeners_of t p.listeners) ≡ none
    → let q = (subscribe p t (name ∷ []) l b).0 in
      (q.listeners ≡ p.listeners) × (q.carried ≡ p.carried) × (q.next_op ≡ p.next_op + 1)
unfolding join_each
subscribe-new p t name l b absent =
    let new : join_each t (name ∷ []) l b p.listeners ≡ (p.listeners, name ∷ []) =
      elim (join_each_lem t name [] l b p.listeners) [
        | inl r ↦ r
        | inr (joined, old, r) ↦
            absurd (ground (arith, absent, (join_lem t name l b p.listeners joined old).1))
      ] in
    elim (subscribe_lem p t (name ∷ []) l b) [
      | inl (all_joined, r) ↦ absurd (ground (arith, new, all_joined))
      | inr (first, rest, left, r) ↦ (
        ap (λ s. s.0.listeners) r ∙ ap (λ j. j.0) new,
        ap (λ s. s.0.carried) r,
        ap (λ s. s.0.next_op) r,
      )
    ]

find-mark :
    (value : Bool) (ids : List ℕ) (name : Text) (m : TypeListeners)
    → find name m ≡ none
    → find name (mark value ids m) ≡ none
unfolding mark find
find-mark value ids name [] absent = refl
find-mark value ids name ((other, cl) ∷ m) absent =
    ground (arith, absent, find-mark value ids name m)

-- An unsubscribe of it flags nothing.
unsubscribe-new :
    (q : PubSub) (t : PubSubType) (name : Text)
    → find name (listeners_of t q.listeners) ≡ none
    → let r = (unsubscribe q t (some (name ∷ [])) none false).0 in
      (find name (listeners_of t r.listeners) ≡ none)
      × (r.carried ≡ q.carried)
      × (r.next_op ≡ q.next_op + 1)
unfolding unsubscribe unsubscribe_command
unsubscribe-new q t name absent =
    let m : TypeListeners =
      mark true (ids_at (name ∷ []) (listeners_of t q.listeners)) (listeners_of t q.listeners) in
    (
      ap (find name) (listeners_of-with_listeners t m q.listeners)
          ∙ find-mark true (ids_at (name ∷ []) (listeners_of t q.listeners)) name
              (listeners_of t q.listeners) absent,
      refl,
      refl,
    )

resolve-new :
    (r : PubSub) (op : ℕ) (t : PubSubType) (name : Text) (l : ℕ) (b : Bool)
    → includes op r.carried ≡ false
    → let c = resolve r (subscription op t (name ∷ []) l b) in
      (c.listeners ≡ register t name l b r.listeners)
      × (c.carried ≡ r.carried)
      × (c.next_op ≡ r.next_op)
unfolding resolve update_is_active register_each
resolve-new r op t name l b new = (ground (arith, new), ground (arith, new), ground (arith, new))

find-register :
    (ls : Listeners) (t : PubSubType) (name : Text) (l : ℕ) (b : Bool)
    → find name (listeners_of t ls) ≡ none
    → (cl : ChannelListeners) × (find name (listeners_of t (register t name l b ls)) ≡ some cl)
      × (cl.unsubscribing ≡ false)
find-register ls t name l b absent = elim (register_lem t name l b ls) [
  | inl (none_there, r) ↦ (
    add_listener l b (new_object ls.next_id),
    ap (find name) r
        ∙ ground (
          arith,
          find-put name name (add_listener l b (new_object ls.next_id)) (listeners_of t ls),
          same_refl name,
        ),
    unflagged b,
  )
  | inr (cl, found, r) ↦ absurd (ground (arith, absent, found))
]
  where
    unflagged : (b : Bool) → (add_listener l b (new_object ls.next_id)).unsubscribing ≡ false
    unflagged true = unfold add_listener in refl
    unflagged false = unfold add_listener in refl

-- The channel is there then, and not flagged.
find-crossed :
    (p : PubSub) (t : PubSubType) (name : Text) (l : ℕ) (b : Bool)
    → Earlier p
    → find name (listeners_of t p.listeners) ≡ none
    → let c = crossed p t name l b in
      ((cl : ChannelListeners) × (find name (listeners_of t c.listeners) ≡ some cl)
        × (cl.unsubscribing ≡ false))
      × (c.carried ≡ p.carried)
      × (c.next_op ≡ p.next_op + 2)
find-crossed p t name l b earlier absent =
    let q : PubSub = (subscribe p t (name ∷ []) l b).0 in
    let r : PubSub = (unsubscribe q t (some (name ∷ [])) none false).0 in
    let (same_listeners, carried, next) = subscribe-new p t name l b absent in
    let (absent', carried', next') =
      unsubscribe-new q t name (ap (λ ls. find name (listeners_of t ls)) same_listeners ∙ absent) in
    let free : includes p.next_op r.carried ≡ false =
      ap (includes p.next_op) (carried' ∙ carried)
      ∙ not_carried p p.next_op earlier (omega arith) in
    let (made, carried'', next'') = resolve-new r p.next_op t name l b free in
    let (cl, found, unflagged) = find-register r.listeners t name l b absent' in
    unfold crossed in
    (
      (cl, ap (λ ls. find name (listeners_of t ls)) made ∙ found, unflagged),
      carried'' ∙ carried' ∙ carried,
      next'' ∙ next' ∙ ground (arith, next),
    )

-- Where a channel is there and not flagged, a subscribe joins it.
subscribe-joins :
    (c : PubSub) (t : PubSubType) (name : Text) (l : ℕ) (b : Bool) (cl : ChannelListeners)
    → find name (listeners_of t c.listeners) ≡ some cl
    → cl.unsubscribing ≡ false
    → let s = subscribe c t (name ∷ []) l b in
      (s.1 ≡ none) × (s.0.carried ≡ c.carried) × (s.0.next_op ≡ c.next_op)
unfolding join_each
subscribe-joins c t name l b cl found unflagged = elim (subscribe_lem c t (name ∷ []) l b) [
  | inl (all_joined, r) ↦ (ap (λ s. s.1) r, ap (λ s. s.0.carried) r, ap (λ s. s.0.next_op) r)
  | inr (first, rest, left, r) ↦
      let j : Listeners =
        with_listeners t (put name (add_listener l b cl) (listeners_of t c.listeners))
          c.listeners in
      let joins : join t name l b c.listeners ≡ some j =
        unfold join in ground (arith, found, unflagged) in
      let all_joined : (join_each t (name ∷ []) l b c.listeners).1 ≡ [] =
        ap (λ x. x.1) (join_each-joined t name [] l b c.listeners j joins) in
      absurd (ground (arith, left, all_joined))
]

unanswered : (s : PubSub × Option PubSubCommand) → s.1 ≡ none → answered s ≡ s.0
unanswered s e = unfold answered in simp (answered, e)

-- Take a channel that nobody listens to. While an unsubscribe of it is in flight behind the first
-- subscribe, and when only the reply to the subscribe has come, another listener joins the channel
-- without a command, and is on it; the reply to the unsubscribe takes it off again.
pub crossed-lost :
    (p : PubSub) (t : PubSubType) (name : Text) (l k : ℕ) (b d : Bool)
    → Earlier p
    → find name (listeners_of t p.listeners) ≡ none
    → let s = subscribe (crossed p t name l b) t (name ∷ []) k d in
      (s.1 ≡ none)
      × (hears name k d (listeners_of t s.0.listeners) ≡ true)
      × (hears name k d (
            listeners_of t
              (resolve s.0 (unsubscription (p.next_op + 1) t (whole (name ∷ [])) [])).listeners)
          ≡ false)
crossed-lost p t name l k b d earlier absent =
    let c : PubSub = crossed p t name l b in
    let ((cl, found, unflagged), carried, next) = find-crossed p t name l b earlier absent in
    let (joined, carried', next') = subscribe-joins c t name k d cl found unflagged in
    let s : PubSub × Option PubSubCommand = subscribe c t (name ∷ []) k d in
    let free : includes c.next_op c.carried ≡ false =
      ap (includes c.next_op) carried ∙ not_carried p c.next_op earlier (ground (arith, next)) in
    let free' : includes (p.next_op + 1) s.0.carried ≡ false =
      ap (includes (p.next_op + 1)) (carried' ∙ carried)
      ∙ not_carried p (p.next_op + 1) earlier (omega arith) in
    (
      joined,
      sym (ap (λ x. hears name k d (listeners_of t x.listeners)) (unanswered s joined))
          ∙ subscribe-answered c t (name ∷ []) k d name k d free
          ∙ unfold contains in ground (arith, same_refl name, is_it_refl k d),
      resolve-removal s.0 (p.next_op + 1) t (whole (name ∷ [])) [] name k d free'
          ∙ unfold takes contains in ground (arith, same_refl name),
    )
