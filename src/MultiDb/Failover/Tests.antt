-- ===== src/MultiDb/Failover/Tests.antt =====
-- Members of failover-strategy.ts, and the theorem of the parent at them.
use node_redis.Base.{◌≡◌, ◌⊎◌, some, none, List, [], ◌∷◌, refl}
use node_redis.MultiDb.Circuit.{closed, opened}
use node_redis.MultiDb.Failover.{FailoverCandidate, NoneClosed, Selected, select, select_lem}

-- The heaviest is OPEN, and of the two next the first one takes over.
abbrev members : List FailoverCandidate
members =
    record { id = 0; weight = 9; circuit_state = opened }
    ∷ record { id = 1; weight = 5; circuit_state = closed }
    ∷ record { id = 2; weight = 5; circuit_state = closed }
    ∷ []

members_lem : select members ≡ some (record { id = 1; weight = 5; circuit_state = closed })
unfolding select
members_lem = refl

select_lem_example :
    ((select members ≡ none) × NoneClosed members)
    ⊎ ((c : FailoverCandidate) × (select members ≡ some c) × Selected members c)
select_lem_example = select_lem members
