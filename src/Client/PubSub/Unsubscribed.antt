-- ===== src/Client/PubSub/Unsubscribed.antt =====
-- Who hears the messages of a channel when the reply to an unsubscribe has come.
use node_redis.Base.{
  ℕ, ◌+◌, Bool, true, false, ◌≡◌, inl, inr, refl, ap, ◌∙◌, not, ◌&&◌, Option, none, some, List, [],
  ◌∷◌, ◌++◌, arith, length, Option-cases,
}
use node_redis.Base.Text.{Text, same_iff, contains}
use node_redis.Base.Map.{find, put}
use node_redis.Base.Sets.{includes}
use node_redis.Client.PubSub.{
  PubSubType, TypeListeners, Removal, everything, whole, only, removal, PubSub, unsubscription,
  listeners_of, with_listeners, delete_listener, listeners_set, remove_listeners, update_is_active,
}
use node_redis.Client.PubSub.Commands.{
  unsubscribe, unsubscribe_command, mark, drop_each, select_last, ids_of, ids_at,
}
use node_redis.Client.PubSub.Replies.{resolve}
use node_redis.Client.PubSub.Registered.{
  hears, is_it, includes-delete_listener, hears_absent, hears_found, at_channel,
  listeners_of-with_listeners,
}
use node_redis.Client.PubSub.Removed.{takes, hears-remove_listeners}
use node_redis.Client.PubSub.Settled.{answered}

-- What the arguments of an unsubscribe ask for.
unfoldable pub asked : Option (List Text) → Option ℕ → (return_buffers : Bool) → Removal
asked none listener b = everything
asked (some names) none b = whole names
asked (some names) (some l) b = only names l b

-- The flag does not matter.
hears-mark :
    (value : Bool) (ids : List ℕ) (m : TypeListeners) (other : Text) (k : ℕ) (d : Bool)
    → hears other k d (mark value ids m) ≡ hears other k d m
unfolding hears mark find listeners_set
hears-mark value ids [] other k d = refl
hears-mark value ids ((name, cl) ∷ m) other k true =
    ground (arith, hears-mark value ids m other k true)
hears-mark value ids ((name, cl) ∷ m) other k false =
    ground (arith, hears-mark value ids m other k false)

hears-drop_each :
    (names : List Text) (l : ℕ) (b : Bool) (m : TypeListeners) (other : Text) (k : ℕ) (d : Bool)
    → hears other k d (drop_each names l b m)
      ≡ (not (contains other names && is_it l k b d) && hears other k d m)
unfolding drop_each contains
hears-drop_each [] l b m other k d = refl
hears-drop_each (name ∷ names) l b m other k d = elim (Option-cases (find name m)) [
  | inl absent ↦
      ap
        (λ o. hears other k d (
          drop_each names l b
            (elim o [ none ↦ m | some cl ↦ put name (delete_listener l b cl) m ])))
        absent
      ∙ ground (
        arith,
        hears-drop_each names l b m other k d,
        same_iff name other,
        hears_absent name k d m absent,
      )
  | inr (cl, found) ↦
      let rest : TypeListeners = put name (delete_listener l b cl) m in
      ap
        (λ o. hears other k d (
          drop_each names l b
            (elim o [ none ↦ m | some cl ↦ put name (delete_listener l b cl) m ])))
        found
      ∙ ground (
        arith,
        hears-drop_each names l b rest other k d,
        same_iff name other,
        hears_found name k d m cl found,
        at_channel name k d m (delete_listener l b cl)
            (not (is_it l k b d) && includes k (listeners_set d cl)) other
            (includes-delete_listener k d l b cl),
      )
]

pub resolve-removal :
    (q : PubSub) (op : ℕ) (t : PubSubType) (r : Removal) (flagged : List ℕ) (other : Text) (k : ℕ)
    (d : Bool)
    → includes op q.carried ≡ false
    → hears other k d (listeners_of t (resolve q (unsubscription op t r flagged)).listeners)
      ≡ (not (takes r other k d) && hears other k d (listeners_of t q.listeners))
resolve-removal q op t r flagged other k d new =
    ap (λ ls. hears other k d (listeners_of t ls)) removed
    ∙ ap (hears other k d) (
        listeners_of-with_listeners t (remove_listeners r (listeners_of t q.listeners)) q.listeners)
    ∙ hears-remove_listeners r (listeners_of t q.listeners) other k d
  where
    removed :
        (resolve q (unsubscription op t r flagged)).listeners
        ≡ with_listeners t (remove_listeners r (listeners_of t q.listeners)) q.listeners
    removed = unfold resolve update_is_active in ground (arith, new)

command-answered :
    (p : PubSub) (t : PubSubType) (names : List Text) (counter : Option ℕ) (flagged : List ℕ)
    (r : Removal) (other : Text) (k : ℕ) (d : Bool)
    → includes p.next_op p.carried ≡ false
    → hears other k d
        (listeners_of t (answered (unsubscribe_command p t names counter flagged r)).listeners)
      ≡ (not (takes r other k d) && hears other k d (listeners_of t p.listeners))
unfolding answered unsubscribe_command
command-answered p t names counter flagged r other k d new =
    let m : TypeListeners = mark true flagged (listeners_of t p.listeners) in
    let q : PubSub = record p {
      listeners = with_listeners t m p.listeners;
      pending_ops =
          p.pending_ops ++ record { op = p.next_op; change = removal t r; flagged = flagged } ∷ [];
      next_op = p.next_op + 1;
    } in
    resolve-removal q p.next_op t r flagged other k d new
    ∙ ap (λ x. not (takes r other k d) && hears other k d x)
        (listeners_of-with_listeners t m p.listeners)
    ∙ ap (λ v. not (takes r other k d) && v)
        (hears-mark true flagged (listeners_of t p.listeners) other k d)

-- After an unsubscribe and the reply to its command, if one is sent, all listeners of the type are
-- gone, or those of the channels given, or the one listener on them; every other one is where it was.
-- The command is not one that a move carried.
pub unsubscribe-answered :
    (p : PubSub) (t : PubSubType) (names : Option (List Text)) (listener : Option ℕ) (b : Bool)
    (other : Text) (k : ℕ) (d : Bool)
    → includes p.next_op p.carried ≡ false
    → hears other k d (listeners_of t (answered (unsubscribe p t names listener b)).listeners) ≡ (
        not (takes (asked names listener b) other k d)
        && hears other k d (listeners_of t p.listeners))
unfolding unsubscribe asked
unsubscribe-answered p t none listener b other k d new =
    command-answered p t [] none (ids_of (listeners_of t p.listeners)) everything other k d new
unsubscribe-answered p t (some names) none b other k d new =
    command-answered p t names (some (length names)) (ids_at names (listeners_of t p.listeners))
      (whole names) other k d new
unsubscribe-answered p t (some names) (some l) b other k d new =
    let m : TypeListeners = listeners_of t p.listeners in
    elim (select_last names l b m).0
      as (λ selected.
        hears other k d (
          listeners_of t
            (answered (elim selected [
              | [] ↦ (
                record p { listeners = with_listeners t (drop_each names l b m) p.listeners },
                none,
              )
              | name ∷ rest ↦
                  unsubscribe_command p t (name ∷ rest) (some (length (name ∷ rest)))
                    (select_last names l b m).1 (only names l b)
            ])).listeners)
        ≡ (not (takes (only names l b) other k d) && hears other k d m)) [
          | [] ↦
              unfold answered takes in
              ap (hears other k d)
                (listeners_of-with_listeners t (drop_each names l b m) p.listeners)
              ∙ hears-drop_each names l b m other k d
          | name ∷ rest ↦
              command-answered p t (name ∷ rest) (some (length (name ∷ rest)))
                (select_last names l b m).1 (only names l b) other k d new
        ]
