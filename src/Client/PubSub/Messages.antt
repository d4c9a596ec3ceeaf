-- ===== src/Client/PubSub/Messages.antt =====
-- pub-sub.ts: what the pushes of the server mean, and who is called for a message.
-- A reply is its Buffers, the first one apart. `decode` is Buffer.toString. A call is its listener
-- with the kind of its arguments; the text of a message is not part of the model.
use node_redis.Base.{
  ℕ, Bool, true, false, ◌≡◌, refl, ◌∙◌, ◌&&◌, ◌||◌, ◌==◌, if◌then◌else◌, Option, none, some, List,
  [], ◌∷◌, ◌++◌, arith, length, map,
}
use node_redis.Base.Text.{Text, same}
use node_redis.Base.Map.{find}
use node_redis.Base.Sets.{includes}
use node_redis.Client.PubSub.{
  PubSubType, channels, patterns, sharded, Listeners, TypeListeners, ChannelListeners, listeners_of,
  listeners_set,
}
use node_redis.Client.PubSub.Registered.{hears}

-- COMMANDS.
unfoldable pub subscribe_name : PubSubType → Text
subscribe_name channels = b's' ∷ b'u' ∷ b'b' ∷ b's' ∷ b'c' ∷ b'r' ∷ b'i' ∷ b'b' ∷ b'e' ∷ []
subscribe_name patterns = b'p' ∷ b's' ∷ b'u' ∷ b'b' ∷ b's' ∷ b'c' ∷ b'r' ∷ b'i' ∷ b'b' ∷ b'e' ∷ []
subscribe_name sharded = b's' ∷ b's' ∷ b'u' ∷ b'b' ∷ b's' ∷ b'c' ∷ b'r' ∷ b'i' ∷ b'b' ∷ b'e' ∷ []

unfoldable pub unsubscribe_name : PubSubType → Text
unsubscribe_name channels =
    b'u' ∷ b'n' ∷ b's' ∷ b'u' ∷ b'b' ∷ b's' ∷ b'c' ∷ b'r' ∷ b'i' ∷ b'b' ∷ b'e' ∷ []
unsubscribe_name patterns =
    b'p' ∷ b'u' ∷ b'n' ∷ b's' ∷ b'u' ∷ b'b' ∷ b's' ∷ b'c' ∷ b'r' ∷ b'i' ∷ b'b' ∷ b'e' ∷ []
unsubscribe_name sharded =
    b's' ∷ b'u' ∷ b'n' ∷ b's' ∷ b'u' ∷ b'b' ∷ b's' ∷ b'c' ∷ b'r' ∷ b'i' ∷ b'b' ∷ b'e' ∷ []

unfoldable pub message_name : PubSubType → Text
message_name channels = b'm' ∷ b'e' ∷ b's' ∷ b's' ∷ b'a' ∷ b'g' ∷ b'e' ∷ []
message_name patterns = b'p' ∷ b'm' ∷ b'e' ∷ b's' ∷ b's' ∷ b'a' ∷ b'g' ∷ b'e' ∷ []
message_name sharded = b's' ∷ b'm' ∷ b'e' ∷ b's' ∷ b's' ∷ b'a' ∷ b'g' ∷ b'e' ∷ []

unfoldable pub is_status_reply : (first : Text) → Bool
unfolding subscribe_name unsubscribe_name same
is_status_reply first =
    same (subscribe_name channels) first
    || same (unsubscribe_name channels) first
    || same (subscribe_name patterns) first
    || same (unsubscribe_name patterns) first
    || same (subscribe_name sharded) first

unfoldable pub is_sharded_unsubscribe : (first : Text) → Bool
unfolding unsubscribe_name same
is_sharded_unsubscribe first = same (unsubscribe_name sharded) first

unfoldable pub residual_after_unsubscribe_all : Listeners → (first : Text) → ℕ
unfolding unsubscribe_name same
residual_after_unsubscribe_all ls first =
    if same (unsubscribe_name patterns) first
    then length ls.of_channels
    else if same (unsubscribe_name channels) first
    then length ls.of_patterns
    else 0

-- The listeners that want Buffers are first.
unfoldable pub emit_pub_sub_message : TypeListeners → (key : Text) → List (ℕ × Bool)
emit_pub_sub_message m key = elim (find key m) [
  | none ↦ []
  | some cl ↦ map (λ l. (l, true)) cl.buffers ++ map (λ l. (l, false)) cl.strings
]

-- None when the push is no message; the key is the channel or the pattern, reply[1].
unfoldable pub handle_message_reply :
    (decode : Text → Text) → Listeners → (first key : Text) → Option (List (ℕ × Bool))
unfolding message_name same emit_pub_sub_message
handle_message_reply decode ls first key =
    if same (message_name channels) first
    then some (emit_pub_sub_message ls.of_channels (decode key))
    else if same (message_name patterns) first
    then some (emit_pub_sub_message ls.of_patterns (decode key))
    else if same (message_name sharded) first
    then some (emit_pub_sub_message ls.of_sharded (decode key))
    else none

unfoldable pub is_called : (listener : ℕ) (return_buffers : Bool) → List (ℕ × Bool) → Bool
is_called k d [] = false
is_called k d ((l, b) ∷ calls) =
    ((l == k) && elim b [ true ↦ d | false ↦ elim d [ true ↦ false | false ↦ true ] ])
    || is_called k d calls

is_called-append :
    (k : ℕ) (d : Bool) (xs ys : List (ℕ × Bool))
    → is_called k d (xs ++ ys) ≡ (is_called k d xs || is_called k d ys)
unfolding is_called
is_called-append k d [] ys = refl
is_called-append k d (x ∷ xs) ys = ground (arith, is_called-append k d xs ys)

is_called-map :
    (k : ℕ) (d b : Bool) (ls : List ℕ)
    → is_called k d (map (λ l. (l, b)) ls)
      ≡ (elim b [ true ↦ d | false ↦ elim d [ true ↦ false | false ↦ true ] ] && includes k ls)
unfolding is_called includes
is_called-map k d b [] = ground arith
is_called-map k d b (l ∷ ls) = ground (arith, is_called-map k d b ls)

emit-hears :
    (m : TypeListeners) (key : Text) (k : ℕ) (d : Bool)
    → is_called k d (emit_pub_sub_message m key) ≡ hears key k d m
unfolding hears emit_pub_sub_message
emit-hears m key k d =
    elim (find key m)
      as (λ o.
        is_called k d (elim o [
          | none ↦ []
          | some cl ↦ map (λ l. (l, true)) cl.buffers ++ map (λ l. (l, false)) cl.strings
        ])
        ≡ elim o [ none ↦ false | some cl ↦ includes k (listeners_set d cl) ]) [
          | none ↦ unfold is_called in refl
          | some cl ↦
              is_called-append k d (map (λ l. (l, true)) cl.buffers)
                (map (λ l. (l, false)) cl.strings)
              ∙ both d cl
        ]
  where
    both :
        (d : Bool) (cl : ChannelListeners)
        → (is_called k d (map (λ l. (l, true)) cl.buffers)
            || is_called k d (map (λ l. (l, false)) cl.strings))
          ≡ includes k (listeners_set d cl)
    both true cl =
        unfold listeners_set in
        ground (arith, is_called-map k true true cl.buffers, is_called-map k true false cl.strings)
    both false cl =
        unfold listeners_set in
        ground
          (arith, is_called-map k false true cl.buffers, is_called-map k false false cl.strings)

-- A message of a channel, a pattern or a sharded channel calls exactly the listeners that are
-- registered there, each with the kind of arguments that it wants.
pub handle_message_reply-hears :
    (decode : Text → Text) (ls : Listeners) (t : PubSubType) (key : Text) (k : ℕ) (d : Bool)
    → (calls : List (ℕ × Bool)) × (handle_message_reply decode ls (message_name t) key ≡ some calls)
      × (is_called k d calls ≡ hears (decode key) k d (listeners_of t ls))
unfolding handle_message_reply message_name same listeners_of
handle_message_reply-hears decode ls channels key k d = (
  emit_pub_sub_message ls.of_channels (decode key),
  refl,
  emit-hears ls.of_channels (decode key) k d,
)
handle_message_reply-hears decode ls patterns key k d = (
  emit_pub_sub_message ls.of_patterns (decode key),
  refl,
  emit-hears ls.of_patterns (decode key) k d,
)
handle_message_reply-hears decode ls sharded key k d = (
  emit_pub_sub_message ls.of_sharded (decode key),
  refl,
  emit-hears ls.of_sharded (decode key) k d,
)
