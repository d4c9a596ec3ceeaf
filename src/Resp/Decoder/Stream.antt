-- ===== src/Resp/Decoder/Stream.antt =====
-- The class `Decoder` of decoder.ts on a stream that arrives in chunks.
use node_redis.Base.{
  ℕ, zero, suc, ◌-◌, ◌≤◌, ◌≡◌, refl, ap, ◌∙◌, sym, subst, true, false, List, [], ◌∷◌, ◌++◌, Option,
  none, some, arith, leb, leb→le, length, drop, length-drop, length-append, drop-append,
  drop-append_short, Bool-cases, inl, inr,
}
use mathlib.Core.List.{flatten}
use node_redis.Resp.Reply.{Reply, TypeMapping}
use node_redis.Resp.Program.{Program, threw, moved_back}
use node_redis.Resp.Decode.{Callback}
use node_redis.Resp.Run.{
  Input, at, beyond, overshoot, skip, Outcome, done, more, fault, out_of_fuel, run,
}
use node_redis.Resp.Run.Fuel.{size, Within, run-Within, run-agree}
use node_redis.Resp.Run.Feed.{feed, skip_within, skip_passed, feed_empty, size-feed_empty-le}
use node_redis.Resp.Run.Chunks.{resume, run-feed}
use node_redis.Resp.Run.Stalls.{Stalls, Waits, run-Stalls}
use node_redis.Resp.Decoder.{
  Pending, type_pending, value_pending, Decoder, decoder, Written, written, failed, unfollowed,
  stuck, IsFollowed, pending_callback, pending_program, handle_decoded_value, resume_pending,
  decode_types, write_from, write, write_all,
}

module _ {S : Type 0} (react : Callback → Reply → S → S) (type_mapping : S → TypeMapping) where
  abbrev handle : (Input → S → Written S) → Callback → Outcome Reply → S → Written S
  handle = handle_decoded_value react type_mapping

  abbrev resumed : ℕ → Pending → Input → S → Written S
  resumed f = resume_pending react type_mapping (decode_types react type_mapping f)

  abbrev types : ℕ → Input → S → Written S
  types = decode_types react type_mapping

  -- The next write, on what the last one left.
  abbrev then_write : Written S → List ℕ → Written S
  then_write (written d) s = write react type_mapping d s
  then_write (failed e env) s = failed e env
  then_write (unfollowed env) s = unfollowed env
  then_write stuck s = stuck

  handle-agree :
      (f g : ℕ) (cb : Callback) (o : Outcome Reply) (env : S) (n : ℕ)
      → Within n o
      → ((j : Input) (e : S) → size j ≤ n → types f j e ≡ types g j e)
      → handle (types f) cb o env ≡ handle (types g) cb o env
  unfolding handle_decoded_value
  handle-agree f g cb (done v j) env n w h = h j (react cb v env) w
  handle-agree f g cb (more q j) env n w h = refl
  handle-agree f g cb (fault (threw e)) env n w h = refl
  handle-agree f g cb (fault moved_back) env n w h = refl
  handle-agree f g cb out_of_fuel env n w h = refl

  resumed-agree :
      (f g : ℕ) (p : Pending) (i : Input) (env : S)
      → ((j : Input) (e : S) → size j ≤ size i → types f j e ≡ types g j e)
      → resumed f p i env ≡ resumed g p i env
  unfolding resume_pending
  resumed-agree f g p (at []) env h = refl
  resumed-agree f g p (beyond k) env h = refl
  resumed-agree f g p (at (x ∷ r)) env h =
      handle-agree f g _ (run (suc (length r)) _ (at (x ∷ r))) env (suc (length r))
        (run-Within (suc (length r)) _ (at (x ∷ r))) h

  -- Fuel for the bytes at hand is enough for the loop.
  types-agree :
      (f g : ℕ) (i : Input) (env : S) → size i ≤ f → size i ≤ g → types f i env ≡ types g i env
  unfolding decode_types
  types-agree f g (at []) env h h' = refl
  types-agree f g (beyond k) env h h' = refl
  types-agree zero g (at (x ∷ r)) env h h' = absurd (omega arith)
  types-agree (suc f) zero (at (x ∷ r)) env h h' = absurd (omega arith)
  types-agree (suc f) (suc g) (at (x ∷ r)) env h h' =
      resumed-agree f g (type_pending x) (at r) env
        (λ j e hj. types-agree f g j e (omega arith) (omega arith))

  -- With no bytes left the decoder keeps what it was about to do.
  write_from_empty :
      (f : ℕ) (next : Option Pending) (i : Input) (env : S)
      → size i ≡ 0
      → write_from react type_mapping f next i env ≡ written (decoder (overshoot i) next env)
  unfolding write_from
  write_from_empty f none (at []) env h = refl
  write_from_empty f none (at (x ∷ r)) env h = absurd (omega arith)
  write_from_empty f none (beyond k) env h = refl
  write_from_empty f (some p) (at []) env h = refl
  write_from_empty f (some p) (at (x ∷ r)) env h = absurd (omega arith)
  write_from_empty f (some p) (beyond k) env h = refl

  write_above :
      (d : Decoder S) (s : List ℕ)
      → leb (length s) d.cursor ≡ true
      → write react type_mapping d s ≡ written (decoder (d.cursor - length s) d.next d.env)
  unfolding write
  write_above d s e = rw e

  write_below :
      (d : Decoder S) (s : List ℕ)
      → leb (length s) d.cursor ≡ false
      → write react type_mapping d s
        ≡ write_from react type_mapping (length s) d.next (at (drop d.cursor s)) d.env
  unfolding write
  write_below d s e = rw e

  -- A write on what is kept at the end of a chunk goes on from there.
  write_kept :
      (j : Input) (next : Option Pending) (env : S) (s : List ℕ)
      → size j ≡ 0
      → write react type_mapping (decoder (overshoot j) next env) s
        ≡ write_from react type_mapping (length s) next (feed j s) env
  write_kept j next env s h = elim (Bool-cases (leb (length s) (overshoot j))) [
    | inl e ↦
        let le : length s ≤ overshoot j = leb→le _ _ e in
        let (none_left, at_cursor) = skip_passed (overshoot j) s le in
        write_above (decoder (overshoot j) next env) s e
        ∙ ap (λ (c : ℕ). written (decoder c next env)) (sym at_cursor)
        ∙ sym (write_from_empty (length s) next (skip (overshoot j) (at s)) env none_left)
        ∙ ap (λ i. write_from react type_mapping (length s) next i env) (sym (feed_empty j s h))
    | inr e ↦
        write_below (decoder (overshoot j) next env) s e
        ∙ ap (λ i. write_from react type_mapping (length s) next i env)
            (sym (skip_within (overshoot j) s (ground arith)) ∙ sym (feed_empty j s h))
  ]

  resumed_value :
      (f g n : ℕ) (cb : Callback) (q : Program Reply) (i : Input) (env : S)
      → Waits q
      → size i ≤ f
      → size i ≤ g
      → size i ≤ n
      → handle (types f) cb (run n q i) env ≡ resumed g (value_pending cb q) i env
  unfolding resume_pending
  resumed_value f g n cb q (at []) env w hf hg hn =
      ap (λ o. handle (types f) cb o env) (w n (at []) refl)
  resumed_value f g n cb q (beyond k) env w hf hg hn =
      ap (λ o. handle (types f) cb o env) (w n (beyond k) refl)
  resumed_value f g n cb q (at (x ∷ r)) env w hf hg hn =
      ap (λ o. handle (types f) cb o env)
        (run-agree n (suc (length r)) q (at (x ∷ r)) hn (omega arith))
      ∙ handle-agree f g cb (run (suc (length r)) q (at (x ∷ r))) env (suc (length r))
          (run-Within (suc (length r)) q (at (x ∷ r)))
          (λ j e hj. types-agree f g j e (omega arith) (omega arith))

  handle-feed :
      (f F n b : ℕ) (cb : Callback) (o : Outcome Reply) (env : S) (s : List ℕ)
      → n ≤ f
      → length s ≤ f
      → length s ≤ F
      → Within b o
      → Stalls o
      → Within n (resume F o s)
      → ((j : Input) (e : S)
          → size (feed j s) ≤ n
          → types f (feed j s) e ≡ then_write (types f j e) s)
      → handle (types f) cb (resume F o s) env ≡ then_write (handle (types f) cb o env) s
  unfolding handle_decoded_value resume write_from
  handle-feed f F n b cb (done v j) env s hn hf hF wo st w ih = ih j (react cb v env) w
  handle-feed f F n b cb (more q j) env s hn hf hF wo st w ih =
      let small = size-feed_empty-le j s wo in
      resumed_value f (length s) F cb q (feed j s) env st (omega arith) small (omega arith)
      ∙ sym (write_kept j (some (value_pending cb q)) env s wo)
  handle-feed f F n b cb (fault (threw e)) env s hn hf hF wo st w ih = refl
  handle-feed f F n b cb (fault moved_back) env s hn hf hF wo st w ih = refl
  handle-feed f F n b cb out_of_fuel env s hn hf hF wo st w ih = refl

  -- At the end of a chunk, what is kept goes on with the next.
  resumed-feed_empty :
      (f : ℕ) (p : Pending) (j : Input) (env : S) (s : List ℕ)
      → size j ≡ 0
      → size (feed j s) ≤ f
      → resumed f p (feed j s) env ≡ write react type_mapping (decoder (overshoot j) (some p) env) s
  unfolding write_from
  resumed-feed_empty f p j env s h hf =
      resumed-agree f (length s) p (feed j s) env (λ i e hi.
        types-agree f (length s) i e (omega arith) (omega (arith, size-feed_empty-le j s h)))
      ∙ sym (write_kept j (some p) env s h)

  resumed-feed :
      (f : ℕ) (p : Pending) (i : Input) (env : S) (s : List ℕ)
      → size (feed i s) ≤ f
      → ((j : Input) (e : S)
          → size (feed j s) ≤ f
          → types f (feed j s) e ≡ then_write (types f j e) s)
      → resumed f p (feed i s) env ≡ then_write (resumed f p i env) s
  unfolding resume_pending feed
  resumed-feed f p (at []) env s h ih = resumed-feed_empty f p (at []) env s refl h
  resumed-feed f p (beyond k) env s h ih = resumed-feed_empty f p (beyond k) env s refl h
  resumed-feed f p (at (x ∷ r)) env s h ih =
      let q = pending_program react type_mapping p env in
      let cb = pending_callback react type_mapping p in
      let m : ℕ = suc (length r) in
      let n : ℕ = suc (length (r ++ s)) in
      let fed =
        run-feed n n q (at (x ∷ r)) s (omega arith) (omega arith)
        ∙ ap (λ o. resume n o s)
            (run-agree n m q (at (x ∷ r)) (omega (arith, length-append r s)) (omega arith)) in
      ap (λ o. handle (types f) cb o env) fed
      ∙ handle-feed f n n m cb (run m q (at (x ∷ r))) env s h (omega (arith, length-append r s))
          (omega (arith, length-append r s)) (run-Within m q (at (x ∷ r)))
          (run-Stalls m q (at (x ∷ r))) (subst (Within n) fed (run-Within n q (at (x ∷ (r ++ s)))))
          (λ j e hj. ih j e (omega arith))

  types-feed :
      (f : ℕ) (i : Input) (env : S) (s : List ℕ)
      → size (feed i s) ≤ f
      → types f (feed i s) env ≡ then_write (types f i env) s
  unfolding decode_types feed write_from
  types-feed f (at []) env s h =
      types-agree f (length s) (at s) env h (omega arith) ∙ sym (write_kept (at []) none env s refl)
  types-feed f (beyond k) env s h =
      types-agree f (length s) (skip (suc k) (at s)) env h (size-feed_empty-le (beyond k) s refl)
      ∙ sym (write_kept (beyond k) none env s refl)
  types-feed zero (at (x ∷ r)) env s h = absurd (omega arith)
  types-feed (suc f) (at (x ∷ r)) env s h =
      resumed-feed f (type_pending x) (at r) env s (omega arith) (λ j e hj. types-feed f j e s hj)

  write_from-feed :
      (f : ℕ) (next : Option Pending) (i : Input) (env : S) (s : List ℕ)
      → size (feed i s) ≤ f
      → write_from react type_mapping f next (feed i s) env
        ≡ then_write (write_from react type_mapping f next i env) s
  unfolding write_from
  write_from-feed f none i env s h = types-feed f i env s h
  write_from-feed f (some p) i env s h =
      resumed-feed f p i env s h (λ j e hj. types-feed f j e s hj)

  write_from-agree :
      (f g : ℕ) (next : Option Pending) (i : Input) (env : S)
      → size i ≤ f
      → size i ≤ g
      → write_from react type_mapping f next i env ≡ write_from react type_mapping g next i env
  unfolding write_from
  write_from-agree f g none i env h h' = types-agree f g i env h h'
  write_from-agree f g (some p) i env h h' =
      resumed-agree f g p i env (λ j e hj. types-agree f g j e (omega arith) (omega arith))

  -- The cursor lies within the first chunk.
  write-append_within :
      (d : Decoder S) (c s : List ℕ)
      → leb (length c) d.cursor ≡ false
      → write react type_mapping d (c ++ s) ≡ then_write (write react type_mapping d c) s
  unfolding feed
  write-append_within d c s e =
      let from = write_from react type_mapping in
      let i = at (drop d.cursor c) in
      write_below d (c ++ s) (ground (arith, length-append c s))
      ∙ ap (λ t. from (length (c ++ s)) d.next (at t) d.env)
          (drop-append_short d.cursor c s (ground arith))
      ∙ write_from-feed (length (c ++ s)) d.next i d.env s (
          omega
            (arith, length-append c s, length-append (drop d.cursor c) s, length-drop d.cursor c))
      ∙ ap (λ w. then_write w s)
          (write_from-agree (length (c ++ s)) (length c) d.next i d.env
            (omega (arith, length-append c s, length-drop d.cursor c))
            (omega (arith, length-drop d.cursor c)))
      ∙ ap (λ w. then_write w s) (sym (write_below d c e))

  -- The cursor lies behind the first chunk.
  write-append_behind :
      (d : Decoder S) (c s : List ℕ)
      → leb (length c) d.cursor ≡ true
      → write react type_mapping d (c ++ s) ≡ then_write (write react type_mapping d c) s
  write-append_behind d c s e =
      let from = write_from react type_mapping in
      let le : length c ≤ d.cursor = leb→le _ _ e in
      let d' = decoder (d.cursor - length c) d.next d.env in
      let whole : write react type_mapping d (c ++ s) ≡ write react type_mapping d' s =
        elim (Bool-cases (leb (length s) (d.cursor - length c))) [
          | inl e' ↦
              write_above d (c ++ s) (ground (arith, length-append c s))
              ∙ ap (λ (t : ℕ). written (decoder t d.next d.env)) (omega (arith, length-append c s))
              ∙ sym (write_above d' s e')
          | inr e' ↦
              write_below d (c ++ s) (ground (arith, length-append c s))
              ∙ ap (λ t. from (length (c ++ s)) d.next (at t) d.env) (drop-append d.cursor c s le)
              ∙ write_from-agree (length (c ++ s)) (length s) d.next
                  (at (drop (d.cursor - length c) s)) d.env
                  (omega (arith, length-append c s, length-drop (d.cursor - length c) s))
                  (omega (arith, length-drop (d.cursor - length c) s))
              ∙ sym (write_below d' s e')
        ] in
      whole ∙ ap (λ w. then_write w s) (sym (write_above d c e))

  -- Writing two chunks one after the other is writing them as one, up to a string of a negative
  -- length.
  pub write-append :
      (d : Decoder S) (c s : List ℕ)
      → write react type_mapping d (c ++ s) ≡ then_write (write react type_mapping d c) s
  write-append d c s = elim (Bool-cases (leb (length c) d.cursor)) [
    | inl e ↦ write-append_behind d c s e
    | inr e ↦ write-append_within d c s e
  ]

  write_nothing : (d : Decoder S) → write react type_mapping d [] ≡ written d
  write_nothing d =
      write_above d [] (ground arith)
      ∙ ap (λ (t : ℕ). written (decoder t d.next d.env)) (omega arith)

  write_all_then :
      (w : Written S) (chunks : List (List ℕ))
      → write_all react type_mapping w chunks ≡ then_write w (flatten chunks)
  unfolding write_all flatten
  write_all_then (written d) [] = sym (write_nothing d)
  write_all_then (written d) (c ∷ chunks) =
      write_all_then (write react type_mapping d c) chunks ∙ sym (write-append d c (flatten chunks))
  write_all_then (failed e env) [] = refl
  write_all_then (failed e env) (c ∷ chunks) = refl
  write_all_then (unfollowed env) [] = refl
  write_all_then (unfollowed env) (c ∷ chunks) = refl
  write_all_then stuck [] = refl
  write_all_then stuck (c ∷ chunks) = refl

  -- However a stream is cut into chunks, where it has no string of a negative length, writing the
  -- chunks in turn is writing the whole stream at once: the same callbacks with the same values in
  -- the same order, and the same decoder or the same error in the end.
  pub write_all-flatten :
      (d : Decoder S) (chunks : List (List ℕ))
      → IsFollowed (write react type_mapping d (flatten chunks))
      → write_all react type_mapping (written d) chunks
        ≡ write react type_mapping d (flatten chunks)
  write_all-flatten d chunks h = write_all_then (written d) chunks
