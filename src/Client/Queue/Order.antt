-- ===== src/Client/Queue/Order.antt =====
-- The order of the commands of commands-queue.ts: in front of others, and from queue to queue.
use node_redis.Base.{
  ℕ, ◌≡◌, refl, ap, ◌∙◌, Bool, true, false, not, ◌&&◌, if◌then◌else◌, Option, none, some, List, [],
  ◌∷◌, ◌++◌, arith, filter, All, Bool-cases, inl, inr,
}
use node_redis.Client.Queue.{Settlement, Command, Queue, insert_after_chain, insert_at_front}
use node_redis.Client.Queue.Move.{
  targets, in_execution, extract_in, extract_commands_for_slots, extract_all_commands, expired,
  prepend_command, prepend_commands_to_write,
}

-- The unwritten tail of the chain in execution, which stands first, and what is behind it.
abbrev pub tail_of_chain : Option ℕ → List Command → List Command
tail_of_chain i [] = []
tail_of_chain i (c ∷ cs) = if in_execution i c then c ∷ tail_of_chain i cs else []

abbrev pub behind_chain : Option ℕ → List Command → List Command
behind_chain i [] = []
behind_chain i (c ∷ cs) = if in_execution i c then behind_chain i cs else c ∷ cs

insert_after_chain_lem :
    (i : ℕ) (v : Command) (cs : List Command)
    → insert_after_chain i v cs ≡ tail_of_chain (some i) cs ++ v ∷ behind_chain (some i) cs
unfolding insert_after_chain in_execution
insert_after_chain_lem i v [] = refl
insert_after_chain_lem i v (c ∷ cs) = ground (arith, insert_after_chain_lem i v cs)

pub insert_at_front_lem :
    (i : Option ℕ) (v : Command) (cs : List Command)
    → insert_at_front i v cs ≡ tail_of_chain i cs ++ v ∷ behind_chain i cs
unfolding insert_at_front in_execution
insert_at_front_lem none v [] = refl
insert_at_front_lem none v (c ∷ cs) = refl
insert_at_front_lem (some i) v cs = insert_after_chain_lem i v cs

-- What is put behind the tail, and belongs to another chain, does not lengthen it.
tail_of_chain-append :
    (i : Option ℕ) (cs vs : List Command)
    → tail_of_chain i vs ≡ []
    → tail_of_chain i (tail_of_chain i cs ++ vs) ≡ tail_of_chain i cs
tail_of_chain-append i [] vs h = h
tail_of_chain-append i (c ∷ cs) vs h = ground (arith, tail_of_chain-append i cs vs h)

behind_chain-append :
    (i : Option ℕ) (cs vs : List Command)
    → behind_chain i vs ≡ vs
    → behind_chain i (tail_of_chain i cs ++ vs) ≡ vs
behind_chain-append i [] vs h = h
behind_chain-append i (c ∷ cs) vs h = ground (arith, behind_chain-append i cs vs h)

behind_chain-starts :
    (i : Option ℕ) (cs : List Command)
    → (tail_of_chain i (behind_chain i cs) ≡ [])
      × (behind_chain i (behind_chain i cs) ≡ behind_chain i cs)
behind_chain-starts i [] = (refl, refl)
behind_chain-starts i (c ∷ cs) =
    let rest = behind_chain-starts i cs in (ground (arith, rest.0), ground (arith, rest.1))

tail-append-behind :
    (i : Option ℕ) (cs : List Command) → tail_of_chain i cs ++ behind_chain i cs ≡ cs
tail-append-behind i [] = refl
tail-append-behind i (c ∷ cs) = ground (arith, tail-append-behind i cs)

-- A command that is neither rejected nor late, and not of the chain in execution.
abbrev pub Movable : (ℕ → Bool) → (ℕ → Bool) → Option ℕ → Command → Type 0
Movable timed_out aborted i c =
    (c.is_rejected ≡ false) × (expired timed_out aborted c ≡ none) × (in_execution i c ≡ false)

others_start :
    (timed_out aborted : ℕ → Bool) (i : Option ℕ) (cs vs : List Command)
    → All (Movable timed_out aborted i) cs
    → (tail_of_chain i vs ≡ []) × (behind_chain i vs ≡ vs)
    → (tail_of_chain i (cs ++ vs) ≡ []) × (behind_chain i (cs ++ vs) ≡ cs ++ vs)
others_start timed_out aborted i [] vs m h = h
others_start timed_out aborted i (c ∷ cs) vs m h = (rw (m.0.2) refl, rw (m.0.2) refl)

prepend_command-Movable :
    (timed_out aborted : ℕ → Bool) (q : Queue) (c : Command)
    → Movable timed_out aborted q.chain_in_execution c
    → prepend_command timed_out aborted q c ≡ (
      record q {
        to_write =
            tail_of_chain q.chain_in_execution q.to_write
            ++ c ∷ behind_chain q.chain_in_execution q.to_write;
      },
      [],
    )
unfolding prepend_command
prepend_command-Movable timed_out aborted q c (live, intime, other) =
    simp (live, intime, insert_at_front_lem q.chain_in_execution c q.to_write)

-- Commands moved to a queue, all of them neither rejected nor late and not of the chain that it is
-- executing, are queued in their order, in front of all others but behind the unwritten tail of that
-- chain, and nothing is settled.
pub prepend_commands_to_write-order :
    (timed_out aborted : ℕ → Bool) (q : Queue) (cs : List Command)
    → All (Movable timed_out aborted q.chain_in_execution) cs
    → prepend_commands_to_write timed_out aborted q cs ≡ (
      record q {
        to_write =
            tail_of_chain q.chain_in_execution q.to_write
            ++ (cs ++ behind_chain q.chain_in_execution q.to_write);
      },
      [],
    )
unfolding prepend_commands_to_write
prepend_commands_to_write-order timed_out aborted q [] m =
    rw (tail-append-behind q.chain_in_execution q.to_write) refl
prepend_commands_to_write-order timed_out aborted q (c ∷ cs) m =
    let later = cs ++ behind_chain i q.to_write in
    let others =
      others_start timed_out aborted i cs (behind_chain i q.to_write) m.1
        (behind_chain-starts i q.to_write) in
    let q' = record q { to_write = tail_of_chain i q.to_write ++ later } in
    ap (turn c) (prepend_commands_to_write-order timed_out aborted q cs m.1)
    ∙ ap (λ r. (r.0, r.1)) (prepend_command-Movable timed_out aborted q' c m.0)
    ∙ simp (
      tail_of_chain-append i q.to_write later others.0,
      behind_chain-append i q.to_write later others.1,
    )
  where
    open q use {chain_in_execution as i}

    turn : Command → Queue × List Settlement → Queue × List Settlement
    turn c r = let s = prepend_command timed_out aborted r.0 c in (s.0, r.1 ++ s.1)

-- The commands in front of the first that is wanted but of the chain in execution, and the rest.
abbrev pub free : Option ℕ → (ℕ → Bool) → List Command → List Command
free i slots [] = []
free i slots (c ∷ cs) = if targets slots c && in_execution i c then [] else c ∷ free i slots cs

abbrev pub held : Option ℕ → (ℕ → Bool) → List Command → List Command
held i slots [] = []
held i slots (c ∷ cs) = if targets slots c && in_execution i c then c ∷ cs else held i slots cs

extract_in_lem :
    (i : Option ℕ) (slots : ℕ → Bool) (cs : List Command)
    → ((extract_in i slots cs).0 ≡ filter (targets slots) (free i slots cs))
      × ((extract_in i slots cs).1
          ≡ filter (λ c. not (targets slots c)) (free i slots cs) ++ held i slots cs)
unfolding extract_in
extract_in_lem i slots [] = (refl, refl)
extract_in_lem i slots (c ∷ cs) =
    let rest = extract_in_lem i slots cs in (ground (arith, rest.0), ground (arith, rest.1))

extract_in-free :
    (i : Option ℕ) (slots : ℕ → Bool) (cs : List Command)
    → All (λ c. (targets slots c ≡ true) × (in_execution i c ≡ false)) (extract_in i slots cs).0
unfolding extract_in
extract_in-free i slots [] = tt
extract_in-free i slots (c ∷ cs) = elim (Bool-cases (targets slots c)) [
  | inl wanted ↦ elim (Bool-cases (in_execution i c)) [
    | inl executing ↦ rw wanted (rw executing tt)
    | inr other ↦ rw wanted (rw other ((wanted, other), extract_in-free i slots cs))
  ]
  | inr unwanted ↦ rw unwanted (extract_in-free i slots cs)
]

-- The commands that are taken for `slots` are, in their order, those of these slots in front of the
-- first one that is of the chain in execution; none of that chain is taken. What stays keeps its
-- order, and everything from that command on stays. A command without a slot is never taken.
pub extract_commands_for_slots_lem :
    (q : Queue) (slots : ℕ → Bool)
    → let r = extract_commands_for_slots q slots in
      let i = q.chain_in_execution in
      let front = free i slots q.to_write in
      (r.1 ≡ filter (targets slots) front)
      × (r.0.to_write ≡ filter (λ c. not (targets slots c)) front ++ held i slots q.to_write)
      × All (λ c. (targets slots c ≡ true) × (in_execution i c ≡ false)) r.1
unfolding extract_commands_for_slots
extract_commands_for_slots_lem q slots =
    let i = q.chain_in_execution in
    let parts = extract_in_lem i slots q.to_write in
    (parts.0, parts.1, extract_in-free i slots q.to_write)

-- All the commands of a queue, when none of them is rejected or late, can be moved to another one
-- that is executing no chain: they are then in front of its own, in the same order, and the first
-- queue has none.
extract_all_commands-order :
    (timed_out aborted : ℕ → Bool) (from to : Queue)
    → to.chain_in_execution ≡ none
    → All (λ c. (c.is_rejected ≡ false) × (expired timed_out aborted c ≡ none)) from.to_write
    → let taken = extract_all_commands from in
      let moved = prepend_commands_to_write timed_out aborted to taken.1 in
      (taken.0.to_write ≡ []) × (moved.1 ≡ []) × (moved.0.to_write ≡ from.to_write ++ to.to_write)
unfolding extract_all_commands
extract_all_commands-order timed_out aborted from to idle m =
    let e =
      prepend_commands_to_write-order timed_out aborted to from.to_write
        (movable from.to_write m) in
    (
      refl,
      ap (λ r. r.1) e,
      ap (λ r. r.0.to_write) e ∙ rw idle (idle_order from.to_write to.to_write),
    )
  where
    movable :
        (cs : List Command)
        → All (λ c. (c.is_rejected ≡ false) × (expired timed_out aborted c ≡ none)) cs
        → All (Movable timed_out aborted to.chain_in_execution) cs
    movable [] m = tt
    movable (c ∷ cs) m = ((m.0.0, m.0.1, rw idle (unfold in_execution in refl)), movable cs m.1)

    idle_order :
        (cs ds : List Command) → tail_of_chain none ds ++ (cs ++ behind_chain none ds) ≡ cs ++ ds
    idle_order cs [] = unfold in_execution in refl
    idle_order cs (d ∷ ds) = unfold in_execution in refl
