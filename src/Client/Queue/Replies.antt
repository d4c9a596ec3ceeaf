-- ===== src/Client/Queue/Replies.antt =====
-- The wire order of commands-queue.ts, and the replies that are matched by it.
use node_redis.Base.{
  ℕ, ◌≡◌, ◌⊎◌, refl, ap, ◌∙◌, Option, none, some, List, [], ◌∷◌, ◌++◌, append_assoc, append-nil,
  arith, length, inl, inr,
}
use node_redis.Resp.Argument.{RedisArgument}
use node_redis.Resp.Encoder.{Encoded, encoded, type_error}
use node_redis.Resp.Reply.{Reply}
use node_redis.Client.Queue.{argument_type, Settlement, rejected, Command, Waiting, Queue}
use node_redis.Client.Queue.Write.{
  waiting_for, settle_waiting, shift_waiting, on_reply, encode_unit, write_one, write_rest,
  commands_to_write,
}

-- Replies in turn, none of them an error, with all that they settle.
unfoldable pub on_replies : Queue → List Reply → Option (Queue × List Settlement)
unfolding on_reply
on_replies q [] = some (q, [])
on_replies q (x ∷ xs) = elim (on_reply q x) [
  | none ↦ none
  | some r ↦ elim (on_replies r.0 xs) [ none ↦ none | some s ↦ some (s.0, r.1 ++ s.1) ]
]

-- The waiting ones with the replies, first with first.
abbrev pub paired : List Waiting → List Reply → List Settlement
paired [] xs = []
paired (w ∷ ws) [] = []
paired (w ∷ ws) (x ∷ xs) = settle_waiting w none x ∷ paired ws xs

Encoded-cases :
    (e : Encoded)
    → ((pieces : List RedisArgument) × (e ≡ encoded pieces)) ⊎ ((i : ℕ) × (e ≡ type_error i))
Encoded-cases (encoded pieces) = inl (pieces, refl)
Encoded-cases (type_error i) = inr (i, refl)

-- What the commands that encode wait for, write, and become, and the rejections of the others.
module _ (utf8 : List ℕ → List ℕ) where
  abbrev pub all_waiting : List Command → List Waiting
  all_waiting [] = []
  all_waiting (c ∷ cs) = elim (encode_unit utf8 c) [
    | encoded pieces ↦ waiting_for c ++ all_waiting cs
    | type_error i ↦ all_waiting cs
  ]

  abbrev pub all_pieces : List Command → List RedisArgument
  all_pieces [] = []
  all_pieces (c ∷ cs) = elim (encode_unit utf8 c) [
    | encoded pieces ↦ pieces ++ all_pieces cs
    | type_error i ↦ all_pieces cs
  ]

  abbrev pub all_rejections : List Command → List Settlement
  all_rejections [] = []
  all_rejections (c ∷ cs) = elim (encode_unit utf8 c) [
    | encoded pieces ↦ all_rejections cs
    | type_error i ↦ rejected c.id (argument_type i) ∷ all_rejections cs
  ]

  abbrev pub last_chain : Option ℕ → List Command → Option ℕ
  last_chain i [] = i
  last_chain i (c ∷ cs) = elim (encode_unit utf8 c) [
    | encoded pieces ↦ last_chain c.chain_id cs
    | type_error n ↦ last_chain i cs
  ]

  abbrev pub all_unwritable : List Command → List Command
  all_unwritable [] = []
  all_unwritable (c ∷ cs) = elim (encode_unit utf8 c) [
    | encoded pieces ↦ all_unwritable cs
    | type_error i ↦ c ∷ all_unwritable cs
  ]

  abbrev pub written : List Command → Queue → Queue
  written cs q = record q {
    to_write = [];
    waiting_for_reply = q.waiting_for_reply ++ all_waiting cs;
    chain_in_execution = last_chain q.chain_in_execution cs;
    unwritable = q.unwritable ++ all_unwritable cs;
  }

  write_one-encoded :
      (c : Command) (q : Queue) (pieces : List RedisArgument)
      → encode_unit utf8 c ≡ encoded pieces
      → write_one utf8 c q ≡ (
        record q {
          chain_in_execution = c.chain_id;
          waiting_for_reply = q.waiting_for_reply ++ waiting_for c;
        },
        [],
        some pieces,
      )
  unfolding write_one
  write_one-encoded c q pieces h = rw (h, write_one) refl

  write_one-type_error :
      (c : Command) (q : Queue) (i : ℕ)
      → encode_unit utf8 c ≡ type_error i
      → write_one utf8 c q ≡ (
        record q { unwritable = q.unwritable ++ c ∷ [] },
        rejected c.id (argument_type i) ∷ [],
        none,
      )
  unfolding write_one
  write_one-type_error c q i h = rw (h, write_one) refl

  write_rest_lem :
      (cs : List Command) (q : Queue)
      → write_rest utf8 cs q ≡ (written cs q, all_rejections cs, all_pieces cs)
  unfolding write_rest
  write_rest_lem [] q = simp (append-nil q.waiting_for_reply, append-nil q.unwritable)
  write_rest_lem (c ∷ cs) q = elim (Encoded-cases (encode_unit utf8 c)) [
    | inl (pieces, h) ↦
        let q' = record q {
          to_write = cs;
          chain_in_execution = c.chain_id;
          waiting_for_reply = q.waiting_for_reply ++ waiting_for c;
        } in
        ap (go_on cs) (write_one-encoded c (record q { to_write = cs }) pieces h)
        ∙ ap (λ r. (r.0, r.1, pieces ++ r.2)) (write_rest_lem cs q')
        ∙ simp (
          written,
          all_waiting,
          all_pieces,
          all_rejections,
          all_unwritable,
          last_chain,
          h,
          append_assoc q.waiting_for_reply (waiting_for c) (all_waiting cs),
        )
    | inr (i, h) ↦
        let q' = record q { to_write = cs; unwritable = q.unwritable ++ c ∷ [] } in
        ap (go_on cs) (write_one-type_error c (record q { to_write = cs }) i h)
        ∙ ap (λ r. (r.0, rejected c.id (argument_type i) ∷ r.1, r.2)) (write_rest_lem cs q')
        ∙ simp (
          written,
          all_waiting,
          all_pieces,
          all_rejections,
          all_unwritable,
          last_chain,
          h,
          append_assoc q.unwritable (c ∷ []) (all_unwritable cs),
        )
  ]
    where
      go_on :
          List Command
          → Queue × List Settlement × Option (List RedisArgument)
          → Queue × List Settlement × List RedisArgument
      go_on cs r =
          let rest = write_rest utf8 cs r.0 in
          (rest.0, r.1 ++ rest.1, elim r.2 [ some pieces ↦ pieces ++ rest.2 | none ↦ rest.2 ])

on_replies_lem :
    (ws : List Waiting) (xs : List Reply) (q : Queue)
    → length xs ≡ length ws
    → on_replies (record q { waiting_for_reply = ws }) xs
      ≡ some (record q { waiting_for_reply = [] }, paired ws xs)
unfolding on_replies on_reply shift_waiting
on_replies_lem [] [] q h = refl
on_replies_lem [] (x ∷ xs) q h = absurd (omega (arith, h))
on_replies_lem (w ∷ ws) [] q h = absurd (omega (arith, h))
on_replies_lem (w ∷ ws) (x ∷ xs) q h = rw (on_replies_lem ws xs q (omega (arith, h))) refl

-- The generator writes, in the order of the queue, exactly the commands that encode, each prelude and
-- each command as one unit, rejects the others, and leaves nothing to write. The replies that then
-- come, as many as are waited for, settle what waited before and then what was written, first with
-- first, and nothing waits any more.
pub commands_to_write-order :
    (utf8 : List ℕ → List ℕ) (q : Queue) (xs : List Reply)
    → length xs ≡ length (q.waiting_for_reply ++ all_waiting utf8 q.to_write)
    → let r = commands_to_write utf8 q in
      let ws = q.waiting_for_reply ++ all_waiting utf8 q.to_write in
      (r.1 ≡ all_rejections utf8 q.to_write)
      × (r.2 ≡ all_pieces utf8 q.to_write)
      × (on_replies r.0 xs
          ≡ some (record (written utf8 q.to_write q) { waiting_for_reply = [] }, paired ws xs))
unfolding commands_to_write
commands_to_write-order utf8 q xs h =
    let ws = q.waiting_for_reply ++ all_waiting utf8 q.to_write in
    let e = write_rest_lem utf8 q.to_write q in
    (
      ap (λ r. r.1) e,
      ap (λ r. r.2) e,
      ap (λ r. on_replies r.0 xs) e ∙ on_replies_lem ws xs (written utf8 q.to_write q) h,
    )
