-- ===== src/MultiDb/Failover.antt =====
-- packages/client/lib/multi-db/failover-strategy.ts: the member that takes over.
mod Tests
use node_redis.Base.{
  ℕ, ◌+◌, ◌<◌, ◌≤◌, ◌≡◌, ◌⊎◌, refl, ap, ◌∙◌, Bool, true, false, ◌&&◌, ltb, if◌then◌else◌, Option,
  none, some, List, [], ◌∷◌, ◌++◌, arith, All, Bool-cases, Option-cases, inl, inr,
}
use node_redis.MultiDb.Circuit.{CircuitState, is_closed}

pub record FailoverCandidate : Type 0 where
  pub id : ℕ
  pub weight : ℕ
  pub circuit_state : CircuitState

-- `!best || db.weight > best.weight`.
unfoldable pub is_better : FailoverCandidate → Option FailoverCandidate → Bool
is_better db none = true
is_better db (some best) = ltb best.weight db.weight

unfoldable pub select_loop :
    Option FailoverCandidate → List FailoverCandidate → Option FailoverCandidate
unfolding is_better
select_loop best [] = best
select_loop best (db ∷ dbs) =
    let kept = select_loop best dbs in
    let taken = select_loop (some db) dbs in
    if is_closed db.circuit_state && is_better db best then taken else kept

unfoldable pub select : List FailoverCandidate → Option FailoverCandidate
unfolding select_loop
select dbs = select_loop none dbs

-- Members of which the CLOSED ones weigh less than `w`, or no more; and members none of which is.
abbrev pub Below : ℕ → List FailoverCandidate → Type 0
Below w dbs = All (λ d. is_closed d.circuit_state ≡ true → d.weight < w) dbs

abbrev pub UpTo : ℕ → List FailoverCandidate → Type 0
UpTo w dbs = All (λ d. is_closed d.circuit_state ≡ true → d.weight ≤ w) dbs

abbrev pub NoneClosed : List FailoverCandidate → Type 0
NoneClosed dbs = All (λ d. is_closed d.circuit_state ≡ false) dbs

-- `c` is CLOSED and stands between `before`, whose CLOSED members all weigh less, and `after`,
-- whose CLOSED members weigh no more.
abbrev pub Selected : List FailoverCandidate → FailoverCandidate → Type 0
Selected dbs c =
    (before : List FailoverCandidate) × (after : List FailoverCandidate) × (dbs
      ≡ before ++ c ∷ after)
    × (is_closed c.circuit_state ≡ true)
    × Below c.weight before
    × UpTo c.weight after

cons-Selected :
    (db c : FailoverCandidate) (dbs : List FailoverCandidate)
    → (is_closed db.circuit_state ≡ true → db.weight < c.weight)
    → Selected dbs c
    → Selected (db ∷ dbs) c
cons-Selected db c dbs lt (before, after, e, closed, below, up_to) =
    (db ∷ before, after, ap (λ r. db ∷ r) e, closed, (lt, below), up_to)

select_loop-some :
    (best : FailoverCandidate) (dbs : List FailoverCandidate)
    → ((select_loop (some best) dbs ≡ some best) × UpTo best.weight dbs)
      ⊎ ((c : FailoverCandidate) × (select_loop (some best) dbs ≡ some c)
          × (best.weight < c.weight)
          × Selected dbs c)
unfolding select_loop is_better
select_loop-some best [] = inl (refl, tt)
select_loop-some best (db ∷ dbs) =
    elim (Bool-cases (is_closed db.circuit_state && ltb best.weight db.weight)) [
      | inl better ↦ elim (select_loop-some db dbs) [
        | inl (e, up_to) ↦ inr (
          db,
          rw better e,
          ground (arith, better),
          ([], dbs, refl, ground (arith, better), tt, up_to),
        )
        | inr (c, e, lt, s) ↦
            inr
              (c, rw better e, ground (arith, better, lt), cons-Selected db c dbs (λ closed. lt) s)
      ]
      | inr other ↦ elim (select_loop-some best dbs) [
        | inl (e, up_to) ↦ inl (rw other e, (λ closed. ground (arith, other, closed), up_to))
        | inr (c, e, lt, s) ↦ inr (
          c,
          rw other e,
          lt,
          cons-Selected db c dbs (λ closed. ground (arith, other, closed, lt)) s,
        )
      ]
    ]

-- No member is selected exactly when none is CLOSED; and the one selected is CLOSED, weighs more than
-- every CLOSED member in front of it and no less than every one behind it.
pub select_lem :
    (dbs : List FailoverCandidate)
    → ((select dbs ≡ none) × NoneClosed dbs)
      ⊎ ((c : FailoverCandidate) × (select dbs ≡ some c) × Selected dbs c)
unfolding select select_loop is_better
select_lem [] = inl (refl, tt)
select_lem (db ∷ dbs) = elim (Bool-cases (is_closed db.circuit_state)) [
  | inl closed ↦ elim (select_loop-some db dbs) [
    | inl (e, up_to) ↦ inr (db, rw closed e, ([], dbs, refl, closed, tt, up_to))
    | inr (c, e, lt, s) ↦ inr (c, rw closed e, cons-Selected db c dbs (λ h. lt) s)
  ]
  | inr open_or_half ↦ elim (select_lem dbs) [
    | inl (e, all) ↦ inl (rw open_or_half e, (open_or_half, all))
    | inr (c, e, s) ↦ inr (
      c,
      rw open_or_half e,
      cons-Selected db c dbs (λ h. absurd (ground (arith, open_or_half, h))) s,
    )
  ]
]
