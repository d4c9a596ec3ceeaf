-- ===== src/Resp/Decoder/Total.antt =====
-- `write` of decoder.ts always ends, by itself or by an error that it throws.
use node_redis.Base.{
  ℕ, zero, suc, ◌≤◌, ◌≡◌, refl, ◌⊎◌, List, [], ◌∷◌, Option, none, some, arith, leb, length, drop,
  length-drop, Bool-cases, inl, inr,
}
use node_redis.Resp.Reply.{Reply, TypeMapping}
use node_redis.Resp.Program.{Fault, threw, moved_back}
use node_redis.Resp.Decode.{Callback}
use node_redis.Resp.Run.{Input, at, beyond, Outcome, done, more, fault, out_of_fuel, run}
use node_redis.Resp.Run.Fuel.{size, Within, run-Within, run-Ends, Ends}
use node_redis.Resp.Decoder.{
  Pending, type_pending, Decoder, Written, written, failed, unfollowed, stuck, IsFollowed,
  handle_decoded_value, resume_pending, decode_types, write_from, write,
}

abbrev IsReturned : {S : Type 0} → Written S → Type 0
IsReturned stuck = ⊥
IsReturned _ = Unit {0}

-- A write that ends, with a decoder or with an error.
abbrev pub Finishes : {S : Type 0} → Written S → Type 1
Finishes {S} w =
    ((d : Decoder S) × (w ≡ written d)) ⊎ ((e : Fault) × (env : S) × (w ≡ failed e env))

returned-Finishes : {S : Type 0} (w : Written S) → IsReturned w → IsFollowed w → Finishes w
returned-Finishes (written d) r h = inl (d, refl)
returned-Finishes (failed e env) r h = inr (e, env, refl)
returned-Finishes (unfollowed env) r h = absurd h
returned-Finishes stuck r h = absurd r

module _ {S : Type 0} (react : Callback → Reply → S → S) (type_mapping : S → TypeMapping) where
  handle-IsReturned :
      (go : Input → S → Written S) (cb : Callback) (o : Outcome Reply) (env : S) (n : ℕ)
      → Ends o
      → Within n o
      → ((j : Input) (e : S) → size j ≤ n → IsReturned (go j e))
      → IsReturned (handle_decoded_value react type_mapping go cb o env)
  unfolding handle_decoded_value
  handle-IsReturned go cb (done v j) env n e w h = h j (react cb v env) w
  handle-IsReturned go cb (more q j) env n e w h = tt
  handle-IsReturned go cb (fault (threw _)) env n e w h = tt
  handle-IsReturned go cb (fault moved_back) env n e w h = tt
  handle-IsReturned go cb out_of_fuel env n e w h = e

  resume_pending-IsReturned :
      (go : Input → S → Written S) (p : Pending) (i : Input) (env : S)
      → ((j : Input) (e : S) → size j ≤ size i → IsReturned (go j e))
      → IsReturned (resume_pending react type_mapping go p i env)
  unfolding resume_pending
  resume_pending-IsReturned go p (at []) env h = tt
  resume_pending-IsReturned go p (beyond k) env h = tt
  resume_pending-IsReturned go p (at (x ∷ r)) env h =
      handle-IsReturned go _ (run (suc (length r)) _ (at (x ∷ r))) env (suc (length r))
        (run-Ends (suc (length r)) _ (at (x ∷ r)) (omega arith))
        (run-Within (suc (length r)) _ (at (x ∷ r))) h

  decode_types-IsReturned :
      (f : ℕ) (i : Input) (env : S)
      → size i ≤ f
      → IsReturned (decode_types react type_mapping f i env)
  unfolding decode_types
  decode_types-IsReturned f (at []) env h = tt
  decode_types-IsReturned f (beyond k) env h = tt
  decode_types-IsReturned zero (at (x ∷ r)) env h = absurd (omega arith)
  decode_types-IsReturned (suc f) (at (x ∷ r)) env h =
      resume_pending-IsReturned (decode_types react type_mapping f) (type_pending x) (at r) env
        (λ j e hj. decode_types-IsReturned f j e (omega arith))

  write_from-IsReturned :
      (f : ℕ) (next : Option Pending) (i : Input) (env : S)
      → size i ≤ f
      → IsReturned (write_from react type_mapping f next i env)
  unfolding write_from
  write_from-IsReturned f none i env h = decode_types-IsReturned f i env h
  write_from-IsReturned f (some p) i env h =
      resume_pending-IsReturned (decode_types react type_mapping f) p i env
        (λ j e hj. decode_types-IsReturned f j e (omega arith))

  write-IsReturned :
      (d : Decoder S) (chunk : List ℕ) → IsReturned (write react type_mapping d chunk)
  unfolding write
  write-IsReturned d chunk = elim (Bool-cases (leb (length chunk) d.cursor)) [
    | inl e ↦ rw e tt
    | inr e ↦ rw e (
        write_from-IsReturned (length chunk) d.next (at (drop d.cursor chunk)) d.env
          (omega (arith, length-drop d.cursor chunk)))
  ]

  -- A write of any chunk that meets no string of a negative length comes to an end, on any decoder:
  -- the decoder consumes the chunk, or throws one of its two errors.
  pub write-Finishes :
      (d : Decoder S) (chunk : List ℕ)
      → IsFollowed (write react type_mapping d chunk)
      → Finishes (write react type_mapping d chunk)
  write-Finishes d chunk h = returned-Finishes _ (write-IsReturned d chunk) h
