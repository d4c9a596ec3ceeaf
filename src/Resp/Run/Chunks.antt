-- ===== src/Resp/Run/Chunks.antt =====
-- decoder.ts does not depend on where the stream is cut into chunks: running on a chunk and going
-- on with the next one is running on both at once.
use node_redis.Base.{
  ℕ, zero, suc, ◌-◌, ◌≤◌, ◌<◌, ◌≡◌, refl, ap, ◌∙◌, sym, subst, Bool, true, false, List, [], ◌∷◌,
  ◌++◌, arith, leb, leb→le, ◌==◌, length, take, drop, length-append, append_assoc, take-append,
  drop-append, take-append_short, drop-append_short, Bool-cases, inl, inr,
}
use mathlib.Core.Path.{ap₂}
use node_redis.Base.Int.{ℤ}
use node_redis.Resp.Reply.{TypeMapping}
use node_redis.Resp.Program.{
  Program, ret, and_then, fail, await, peek, advance, unsigned_number, until_cr, with_length,
  nested, map_key,
}
use node_redis.Resp.Run.{
  Input, at, beyond, skip, Outcome, done, more, fault, out_of_fuel, push_digit, scan_number,
  scan_cr, scan_length, bind_outcome, value_program, run_nested, run,
}
use node_redis.Resp.Run.Feed.{feed, skip-feed}
use node_redis.Resp.Run.Fuel.{size, Within, Within-mono, bind_outcome-agree, run-Within, run-agree}

-- The outcome once the next chunk is there: a function of it is called with it.
unfoldable pub resume : {A : Type 0} → ℕ → Outcome A → List ℕ → Outcome A
resume g (done a j) s = done a (feed j s)
resume g (more q j) s = run g q (feed j s)
resume g (fault e) s = fault e
resume g out_of_fuel s = out_of_fuel

scan_number-feed :
    (g : ℕ) (z : ℤ) (r s : List ℕ) → scan_number z (r ++ s) ≡ resume g (scan_number z r) s
unfolding scan_number resume run feed
scan_number-feed g z [] s = refl
scan_number-feed g z (b ∷ r) s = elim (Bool-cases (b == 13)) [
  | inl e ↦ rw e (ap (done z) (skip-feed 1 (at r) s))
  | inr e ↦ rw e (scan_number-feed g (push_digit z b) r s)
]

scan_cr-feed : (g : ℕ) (c r s : List ℕ) → scan_cr c (r ++ s) ≡ resume g (scan_cr c r) s
unfolding scan_cr resume run feed
scan_cr-feed g c [] s = refl
scan_cr-feed g c (b ∷ r) s = elim (Bool-cases (b == 13)) [
  | inl e ↦ rw e (ap (done c) (skip-feed 1 (at r) s))
  | inr e ↦ rw e (scan_cr-feed g (c ++ b ∷ []) r s)
]

scan_length_more :
    (n : ℕ) (c : List ℕ) (k : ℕ) (r : List ℕ)
    → leb (length r) n ≡ true
    → scan_length n c k r ≡ more (with_length (n - length r) (c ++ r) k) (at [])
unfolding scan_length
scan_length_more n c k r e = rw e

scan_length_done :
    (n : ℕ) (c : List ℕ) (k : ℕ) (r : List ℕ)
    → leb (length r) n ≡ false
    → scan_length n c k r ≡ done (c ++ take n r) (skip k (at (drop n r)))
unfolding scan_length
scan_length_done n c k r e = rw e

-- The string ends behind the first chunk.
scan_length_later :
    (n : ℕ) (c : List ℕ) (k : ℕ) (r s : List ℕ)
    → length r ≤ n
    → scan_length n c k (r ++ s) ≡ scan_length (n - length r) (c ++ r) k s
scan_length_later n c k r s h = elim (Bool-cases (leb (length s) (n - length r))) [
  | inl e ↦
      scan_length_more n c k (r ++ s) (ground (arith, length-append r s))
      ∙ ap₂ (λ (t : ℕ) (u : List ℕ). more (with_length t u k) (at []))
          (omega (arith, length-append r s)) (sym (append_assoc c r s))
      ∙ sym (scan_length_more (n - length r) (c ++ r) k s e)
  | inr e ↦
      scan_length_done n c k (r ++ s) (ground (arith, length-append r s))
      ∙ ap₂ (λ (t u : List ℕ). done t (skip k (at u)))
          (ap (◌++◌ c) (take-append n r s h) ∙ sym (append_assoc c r (take (n - length r) s)))
          (drop-append n r s h)
      ∙ sym (scan_length_done (n - length r) (c ++ r) k s e)
]

scan_length-feed :
    (g n : ℕ) (c : List ℕ) (k : ℕ) (r s : List ℕ)
    → scan_length n c k (r ++ s) ≡ resume g (scan_length n c k r) s
scan_length-feed g n c k r s = elim (Bool-cases (leb (length r) n)) [
  | inl e ↦
      rw (scan_length_more n c k r e)
        (unfold resume run feed in scan_length_later n c k r s (leb→le _ _ e))
  | inr e ↦
      let short : n ≤ length r = ground arith in
      scan_length_done n c k (r ++ s) (ground (arith, length-append r s))
      ∙ ap₂ (λ (t u : List ℕ). done (c ++ t) (skip k (at u))) (take-append_short n r s short)
          (drop-append_short n r s short)
      ∙ rw (scan_length_done n c k r e) (
          unfold resume in ap (done (c ++ take n r)) (unfold feed in skip-feed k (at (drop n r)) s))
]

bind_outcome-resume :
    {A B : Type 0} (f g n : ℕ) (k : B → Program A) (o o' : Outcome B) (s : List ℕ)
    → n ≤ f
    → n ≤ g
    → o' ≡ resume g o s
    → Within n o'
    → ((b : B) (j : Input)
        → size (feed j s) ≤ n
        → run f (k b) (feed j s) ≡ resume g (run f (k b) j) s)
    → bind_outcome k (λ b j. run f (k b) j) o'
      ≡ resume g (bind_outcome k (λ b j. run f (k b) j) o) s
unfolding resume run
bind_outcome-resume f g n k (done b j) o' s hf hg e w h = rw e (h b j (subst (Within n) e w))
bind_outcome-resume f g n k (more q j) o' s hf hg e w h =
    bind_outcome-agree k (λ b j'. run f (k b) j') (λ b j'. run g (k b) j') o' n w
      (λ b j' hj. run-agree f g (k b) j' (omega arith) (omega arith))
    ∙ ap (bind_outcome k (λ b j'. run g (k b) j')) e
bind_outcome-resume f g n k (fault x) o' s hf hg e w h = rw e
bind_outcome-resume f g n k out_of_fuel o' s hf hg e w h = rw e

module _ (f g n : ℕ) (s : List ℕ) (hf : n ≤ f) (hg : n ≤ g)
    (nests : (key : Bool) (x : ℕ) (m : TypeMapping) (j : Input)
      → size (feed j s) < n
      → run_nested f key x m (feed j s) ≡ resume g (run_nested f key x m j) s) where
  -- One step of the induction on the fuel: programs, given nested values.
  run-feed_step :
      {A : Type 0} (p : Program A) (i : Input)
      → size (feed i s) ≤ n
      → run f p (feed i s) ≡ resume g (run f p i) s
  unfolding run resume feed
  run-feed_step (ret a) i h = refl
  run-feed_step (fail e) i h = refl
  run-feed_step (advance k) i h = ap (done tt) (skip-feed k i s)
  run-feed_step (and_then p k) i h =
      bind_outcome-resume f g n k (run f p i) (run f p (feed i s)) s hf hg (run-feed_step p i h)
        (Within-mono (run f p (feed i s)) h (run-Within f p (feed i s)))
        (λ b j hj. run-feed_step (k b) j hj)
  run-feed_step await (at []) h = refl
  run-feed_step await (at (x ∷ r)) h = refl
  run-feed_step await (beyond k) h = refl
  run-feed_step peek (at []) h = refl
  run-feed_step peek (at (x ∷ r)) h = refl
  run-feed_step peek (beyond k) h = refl
  run-feed_step (unsigned_number z) (at r) h = scan_number-feed g z r s
  run-feed_step (unsigned_number z) (beyond k) h = refl
  run-feed_step (until_cr c) (at r) h = scan_cr-feed g c r s
  run-feed_step (until_cr c) (beyond k) h = refl
  run-feed_step (with_length l c k) (at r) h = scan_length-feed g l c k r s
  run-feed_step (with_length l c k) (beyond j) h = refl
  run-feed_step (nested m) (at (x ∷ r)) h = nests false x m (at r) (omega arith)
  run-feed_step (map_key m) (at (x ∷ r)) h = nests true x m (at r) (omega arith)
  run-feed_step (nested m) (at []) h = run-agree f g (nested m) (at s) (omega arith) (omega arith)
  run-feed_step (map_key m) (at []) h = run-agree f g (map_key m) (at s) (omega arith) (omega arith)
  run-feed_step (nested m) (beyond k) h =
      run-agree f g (nested m) (skip (suc k) (at s)) (omega arith) (omega arith)
  run-feed_step (map_key m) (beyond k) h =
      run-agree f g (map_key m) (skip (suc k) (at s)) (omega arith) (omega arith)

run_nested-feed :
    (f g : ℕ) (key : Bool) (x : ℕ) (m : TypeMapping) (i : Input) (s : List ℕ)
    → size (feed i s) < f
    → size (feed i s) ≤ g
    → run_nested f key x m (feed i s) ≡ resume g (run_nested f key x m i) s
unfolding run_nested run
run_nested-feed zero g key x m i s h hg = elim h [ ]
run_nested-feed (suc f) g key x m i s h hg =
    run-feed_step f g (size (feed i s)) s (omega arith) hg
      (λ key' x' m' j hj. run_nested-feed f g key' x' m' j s (omega arith) (omega arith))
      (value_program key x m) i (omega arith)

-- A run on two chunks at once is the run on the first, resumed with the second: it has the same
-- value and the same bytes left, stops at the same point with the same rest to do, or fails
-- likewise, for every program of the decoder and every place of the cut.
pub run-feed :
    {A : Type 0} (f g : ℕ) (p : Program A) (i : Input) (s : List ℕ)
    → size (feed i s) ≤ f
    → size (feed i s) ≤ g
    → run f p (feed i s) ≡ resume g (run f p i) s
run-feed f g p i s h hg =
    run-feed_step f g (size (feed i s)) s h hg
      (λ key x m j hj. run_nested-feed f g key x m j s (omega arith) (omega arith)) p i
      (omega arith)
