-- ===== src/Client/Queue/Write.antt =====
-- commands-queue.ts: commandsToWrite, and the replies to what was written.
use node_redis.Base.{Option, none, some, List, [], ◌∷◌, ◌++◌, ℕ}
use node_redis.Resp.Argument.{RedisArgument}
use node_redis.Resp.Encoder.{Encoded, encoded, type_error, encode_command}
use node_redis.Resp.Reply.{Reply}
use node_redis.Client.Queue.{
  QueueError, argument_type, error_reply, Settlement, resolved, rejected, prelude_replied, Command,
  Waiting, command, prelude, Queue,
}

-- What waits for a reply once `c` is written: the prelude's reply arrives first.
unfoldable pub waiting_for : Command → List Waiting
waiting_for c = elim c.prelude [
  | none ↦ command c.id c.type_mapping ∷ []
  | some p ↦ prelude c.id ∷ command c.id c.type_mapping ∷ []
]

unfoldable pub settle_waiting : Waiting → (error : Option QueueError) → Reply → Settlement
settle_waiting (command id m) none reply = resolved id reply
settle_waiting (command id m) (some err) reply = rejected id err
settle_waiting (prelude id) err reply = prelude_replied id err

-- `this.#waitingForReply.shift()!`, which throws when nothing waits.
unfoldable pub shift_waiting :
    Queue → (error : Option QueueError) → Reply → Option (Queue × List Settlement)
unfolding settle_waiting
shift_waiting q err reply = elim q.waiting_for_reply [
  | [] ↦ none
  | w ∷ ws ↦ some (record q { waiting_for_reply = ws }, settle_waiting w err reply ∷ [])
]

unfoldable pub on_reply : Queue → Reply → Option (Queue × List Settlement)
unfolding shift_waiting
on_reply q reply = shift_waiting q none reply

unfoldable pub on_error_reply : Queue → Reply → Option (Queue × List Settlement)
unfolding shift_waiting
on_error_reply q err = shift_waiting q (some (error_reply err)) err

module _ (utf8 : List ℕ → List ℕ) where
  -- A prelude is encoded with its command, in front of it, so a failure writes neither.
  unfoldable pub encode_unit : Command → Encoded
  unfolding encode_command
  encode_unit c = elim (encode_command utf8 c.args) [
    | type_error i ↦ type_error i
    | encoded main ↦ elim c.prelude [
      | none ↦ encoded main
      | some p ↦ elim (encode_command utf8 p) [
        | type_error i ↦ type_error i
        | encoded front ↦ encoded (front ++ main)
      ]
    ]
  ]

  -- The turn of the loop for the command `c`, which is off the list.
  unfoldable pub write_one : Command → Queue → Queue × List Settlement × Option (List RedisArgument)
  unfolding encode_unit waiting_for
  write_one c q = elim (encode_unit c) [
    | type_error i ↦ (
      record q { unwritable = q.unwritable ++ c ∷ [] },
      rejected c.id (argument_type i) ∷ [],
      none,
    )
    | encoded pieces ↦ (
      record q {
        chain_in_execution = c.chain_id;
        waiting_for_reply = q.waiting_for_reply ++ waiting_for c;
      },
      [],
      some pieces,
    )
  ]

  -- The generator up to its next `yield`, or to its end.
  unfoldable pub write_until :
      List Command → Queue → Queue × List Settlement × Option (List RedisArgument)
  unfolding write_one
  write_until [] q = (record q { to_write = [] }, [], none)
  write_until (c ∷ cs) q =
      let turn = write_one c (record q { to_write = cs }) in
      let rest = write_until cs turn.0 in
      elim turn.2 [ some pieces ↦ turn | none ↦ (rest.0, turn.1 ++ rest.1, rest.2) ]

  unfoldable pub write_next : Queue → Queue × List Settlement × Option (List RedisArgument)
  unfolding write_until
  write_next q = write_until q.to_write q

  -- The generator to its end, with all that it yields.
  unfoldable pub write_rest : List Command → Queue → Queue × List Settlement × List RedisArgument
  unfolding write_one
  write_rest [] q = (record q { to_write = [] }, [], [])
  write_rest (c ∷ cs) q =
      let turn = write_one c (record q { to_write = cs }) in
      let rest = write_rest cs turn.0 in
      (rest.0, turn.1 ++ rest.1, elim turn.2 [ some pieces ↦ pieces ++ rest.2 | none ↦ rest.2 ])

  unfoldable pub commands_to_write : Queue → Queue × List Settlement × List RedisArgument
  unfolding write_rest
  commands_to_write q = write_rest q.to_write q
