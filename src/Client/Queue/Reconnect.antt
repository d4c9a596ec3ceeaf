-- ===== src/Client/Queue/Reconnect.antt =====
-- What a lost connection leaves of a queue of commands-queue.ts.
use node_redis.Base.{
  ℕ, ◌≡◌, refl, none, some, List, [], ◌∷◌, ◌++◌, map, append-nil, arith, Option-cases, inl, inr,
}
use node_redis.Client.Queue.{QueueError, Command, Queue}
use node_redis.Client.Queue.Move.{
  flush_waiting, flush_to_write, flush_chain, flush_waiting_for_reply, in_execution,
}
use node_redis.Client.Queue.Order.{tail_of_chain, behind_chain}

flush_chain_lem :
    (i : ℕ) (err : QueueError) (cs : List Command)
    → flush_chain i err cs
      ≡ (behind_chain (some i) cs, map (flush_to_write err) (tail_of_chain (some i) cs))
unfolding flush_chain in_execution
flush_chain_lem i err [] = refl
flush_chain_lem i err (c ∷ cs) = ground (arith, flush_chain_lem i err cs)

no_chain : (cs : List Command) → (tail_of_chain none cs ≡ []) × (behind_chain none cs ≡ cs)
unfolding in_execution
no_chain [] = (refl, refl)
no_chain (c ∷ cs) = (refl, refl)

-- When the connection is lost, what waits for a reply is told the error, in the order in which it was
-- written, and then the unwritten tail of the chain that was being written is rejected, so it is not
-- sent without its beginning; every other command stays to be written, in its order, and no chain is
-- in execution.
pub flush_waiting_for_reply_lem :
    (q : Queue) (err : QueueError)
    → flush_waiting_for_reply q err ≡ (
      record q {
        waiting_for_reply = [];
        to_write = behind_chain q.chain_in_execution q.to_write;
        chain_in_execution = none;
      },
      map (flush_waiting err) q.waiting_for_reply
          ++ map (flush_to_write err) (tail_of_chain q.chain_in_execution q.to_write),
    )
unfolding flush_waiting_for_reply
flush_waiting_for_reply_lem q err = elim (Option-cases q.chain_in_execution) [
  | inl idle ↦ simp (
    flush_waiting_for_reply,
    idle,
    (no_chain q.to_write).0,
    (no_chain q.to_write).1,
    append-nil (map (flush_waiting err) q.waiting_for_reply),
  )
  | inr (i, executing) ↦ simp (flush_waiting_for_reply, executing, flush_chain_lem i err q.to_write)
]
