-- ===== src/Client/PubSub/Cases.antt =====
-- What `subscribe` does: it joins, or sends a command for the channels that it cannot join.
use node_redis.Base.{
  ℕ, ◌+◌, Bool, true, false, ◌≡◌, ◌⊎◌, inl, inr, refl, ap, Option, none, some, List, [], ◌∷◌, ◌++◌,
  length, Option-cases, arith,
}
use node_redis.Base.Text.{Text}
use node_redis.Base.Map.{find, put}
use node_redis.Client.PubSub.{
  PubSubType, ChannelListeners, Listeners, listeners_of, with_listeners, add_listener, addition,
  PubSub, subscription,
}
use node_redis.Client.PubSub.Commands.{increment, subscribe, join, join_each}

pub subscribe_lem :
    (p : PubSub) (t : PubSubType) (names : List Text) (l : ℕ) (b : Bool)
    → let joined = join_each t names l b p.listeners in
      ((joined.1 ≡ []) × (subscribe p t names l b ≡ (record p { listeners = joined.0 }, none)))
      ⊎ ((name : Text) × (rest : List Text) × (joined.1 ≡ name ∷ rest)
          × (subscribe p t names l b ≡ (
            record p {
              listeners = joined.0;
              is_active = true;
              subscribing = increment p.subscribing;
              pending_ops =
                  p.pending_ops
                  ++ record { op = p.next_op; change = addition t names l b; flagged = [] } ∷ [];
              next_op = p.next_op + 1;
            },
            some (record {
              type = t;
              names = name ∷ rest;
              channels_counter = some (length (name ∷ rest));
              settle = subscription p.next_op t (name ∷ rest) l b;
            }),
          )))
unfolding subscribe
subscribe_lem p t names l b = elim (list_cases (join_each t names l b p.listeners).1) [
  | inl all_joined ↦ inl (all_joined, simp (subscribe, all_joined))
  | inr (name, rest, left) ↦ inr (name, rest, left, simp (subscribe, left))
]
  where
    list_cases : (xs : List Text) → (xs ≡ []) ⊎ ((x : Text) × (rest : List Text) × (xs ≡ x ∷ rest))
    list_cases [] = inl refl
    list_cases (x ∷ rest) = inr (x, rest, refl)

pub join_lem :
    (t : PubSubType) (name : Text) (l : ℕ) (b : Bool) (ls joined : Listeners)
    → join t name l b ls ≡ some joined
    → (cl : ChannelListeners) × (find name (listeners_of t ls) ≡ some cl)
      × (cl.unsubscribing ≡ false)
      × (with_listeners t (put name (add_listener l b cl) (listeners_of t ls)) ls ≡ joined)
unfolding join
join_lem t name l b ls joined h = elim (Option-cases (find name (listeners_of t ls))) [
  | inl absent ↦ absurd (ground (arith, absent, h))
  | inr (cl, found) ↦ (cl, found, ground (arith, found, h), ground (arith, found, h))
]

pub join_each_lem :
    (t : PubSubType) (name : Text) (names : List Text) (l : ℕ) (b : Bool) (ls : Listeners)
    → ((join_each t (name ∷ names) l b ls
        ≡ ((join_each t names l b ls).0, name ∷ (join_each t names l b ls).1)))
      ⊎ ((joined : Listeners) × (join t name l b ls ≡ some joined)
          × (join_each t (name ∷ names) l b ls ≡ join_each t names l b joined))
unfolding join_each
join_each_lem t name names l b ls = elim (Option-cases (join t name l b ls)) [
  | inl new ↦ inl (ap next new)
  | inr (joined, old) ↦ inr (joined, old, ap next old)
]
  where
    next : Option Listeners → Listeners × List Text
    next o = elim o [
      | none ↦ ((join_each t names l b ls).0, name ∷ (join_each t names l b ls).1)
      | some joined ↦ join_each t names l b joined
    ]

pub join_each-joined :
    (t : PubSubType) (name : Text) (names : List Text) (l : ℕ) (b : Bool) (ls joined : Listeners)
    → join t name l b ls ≡ some joined
    → join_each t (name ∷ names) l b ls ≡ join_each t names l b joined
unfolding join_each
join_each-joined t name names l b ls joined old = ap next old
  where
    next : Option Listeners → Listeners × List Text
    next o = elim o [
      | none ↦ ((join_each t names l b ls).0, name ∷ (join_each t names l b ls).1)
      | some joined ↦ join_each t names l b joined
    ]
