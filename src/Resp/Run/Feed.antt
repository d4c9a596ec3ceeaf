-- ===== src/Resp/Run/Feed.antt =====
-- The cursor of decoder.ts across chunks: what is left of one, and the next one behind it.
use node_redis.Base.{
  ℕ, zero, suc, ◌+◌, ◌-◌, ◌≤◌, ◌≡◌, refl, ap, ◌∙◌, List, [], ◌∷◌, ◌++◌, arith, length, drop,
}
use node_redis.Resp.Run.{Input, at, beyond, overshoot, skip}
use node_redis.Resp.Run.Fuel.{size, skip-le}

-- The input once the next chunk is there.
unfoldable pub feed : Input → List ℕ → Input
feed (at r) s = at (r ++ s)
feed (beyond k) s = skip (suc k) (at s)

skip_by : {m n : ℕ} (i : Input) → m ≡ n → skip m i ≡ skip n i
skip_by i e = ap (λ t. skip t i) e

skip-skip : (m n : ℕ) (i : Input) → skip m (skip n i) ≡ skip (n + m) i
unfolding skip
skip-skip m zero i = skip_by i (omega arith)
skip-skip m (suc n) (at (x ∷ r)) =
    skip-skip m n (at r) ∙ skip_by {m = suc (n + m)} (at (x ∷ r)) (omega arith)
skip-skip zero (suc n) (at []) = skip_by {m = suc n} (at []) (omega arith)
skip-skip (suc m) (suc n) (at []) = skip_by {m = suc (suc m + n)} (at []) (omega arith)
skip-skip zero (suc n) (beyond j) = skip_by {m = suc n} (beyond j) (omega arith)
skip-skip (suc m) (suc n) (beyond j) =
    ap beyond (omega arith) ∙ skip_by {m = suc (m + suc n)} (beyond j) (omega arith)

pub skip-feed : (n : ℕ) (i : Input) (s : List ℕ) → skip n (feed i s) ≡ feed (skip n i) s
unfolding skip feed
skip-feed zero i s = refl
skip-feed (suc n) (at []) s = refl
skip-feed (suc n) (at (x ∷ r)) s = skip-feed n (at r) s
skip-feed (suc n) (beyond k) s =
    skip-skip (suc n) (suc k) (at s) ∙ skip_by {n = suc (suc n + k)} (at s) (omega arith)

-- Passing over `n` bytes of a chunk leaves its rest, or goes behind its end.
pub skip_within : (n : ℕ) (s : List ℕ) → n ≤ length s → skip n (at s) ≡ at (drop n s)
unfolding skip
skip_within zero s h = refl
skip_within (suc n) [] h = absurd (omega arith)
skip_within (suc n) (x ∷ s) h = skip_within n s (omega arith)

pub skip_passed :
    (n : ℕ) (s : List ℕ)
    → length s ≤ n
    → (size (skip n (at s)) ≡ 0) × (overshoot (skip n (at s)) ≡ n - length s)
unfolding skip
skip_passed zero [] h = (refl, omega arith)
skip_passed zero (x ∷ s) h = absurd (omega arith)
skip_passed (suc n) [] h = (refl, omega arith)
skip_passed (suc n) (x ∷ s) h =
    let ih = skip_passed n s (omega arith) in (ih.0, omega (arith, ih.1))

-- An input with no bytes left is fed like a chunk from its cursor on.
pub feed_empty : (j : Input) (s : List ℕ) → size j ≡ 0 → feed j s ≡ skip (overshoot j) (at s)
unfolding feed skip
feed_empty (at []) s h = refl
feed_empty (at (x ∷ r)) s h = absurd (omega arith)
feed_empty (beyond k) s h = refl

pub size-feed_empty-le : (j : Input) (s : List ℕ) → size j ≡ 0 → size (feed j s) ≤ length s
size-feed_empty-le j s h = rw (feed_empty j s h) (skip-le (overshoot j) (at s))
