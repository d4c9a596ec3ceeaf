-- ===== src/Client/Pool/Clients.antt =====
-- What a client of the pool is: in use, idle or gone.
use node_redis.Base.{
  ℕ, ◌+◌, ◌≤◌, ◌≡◌, refl, Bool, true, false, not, ◌&&◌, ◌||◌, leb, if◌then◌else◌, List, [], ◌∷◌,
  length, arith,
}
use node_redis.Base.Sets.{includes, add, discard, includes-add}
use node_redis.Client.Pool.{
  Options, drained, finishing, Pool, is_nil, is_closing, total_clients, create,
}
use node_redis.Client.Pool.Operations.{add_each}
use node_redis.Client.Pool.Tasks.{times, times-append}

-- The pool's record of client `c` fits: it is in use exactly while the pool waits for a promise that
-- it was kept for, unless it was destroyed; it is in one list, once; and a number that no client has
-- yet is nowhere.
pub record Fits (p : Pool) (c : ℕ) : Type 0 where
  pub used :
      times c p.in_use ≡ (if includes c p.pending && not (includes c p.destroyed) then 1 else 0)
  pub once : times c p.idle + times c p.in_use ≤ 1
  pub free : (includes c p.pending || includes c p.destroyed) ≡ true → times c p.idle ≡ 0
  pub fresh :
      p.clients ≤ c
      → (includes c p.pending ≡ false) × (includes c p.destroyed ≡ false) × (times c p.idle ≡ 0)

abbrev pub limit : Options → ℕ
limit o = if leb o.minimum o.maximum then o.maximum else o.minimum

abbrev pub is_done : Pool → Bool
is_done p = elim p.closing [ drained ↦ true | finishing ↦ true | _ ↦ false ]

-- A pool that is not open has no clients and is not closing; one whose tasks are over has no client
-- in use; and the clients are not too many.
pub record IsSound (o : Options) (p : Pool) : Type 0 where
  pub fits : (c : ℕ) → Fits p c
  pub tidy : (p.is_open || (is_nil p.idle && is_nil p.in_use && not (is_closing p))) ≡ true
  pub over : (is_done p && not (is_nil p.in_use)) ≡ false
  pub bound : total_clients p ≤ limit o

-- Client `c` was kept for a promise that is settled, and is not in a list yet.
abbrev pub Handed : Options → Pool → ℕ → Type 0
Handed o p c = IsSound o (record p { pending = c ∷ p.pending }) × (includes c p.pending ≡ false)

pub length-discard : (c : ℕ) (cs : List ℕ) → length (discard c cs) + times c cs ≡ length cs
unfolding discard times
length-discard c [] = omega arith
length-discard c (d ∷ cs) = ground (arith, length-discard c cs)

pub some_in_use : (c : ℕ) (cs : List ℕ) → 1 ≤ times c cs → is_nil cs ≡ false
unfolding times
some_in_use c [] h = absurd (omega arith)
some_in_use c (d ∷ cs) h = refl

pub includes-times : (c : ℕ) (cs : List ℕ) → times c cs ≡ 0 → includes c cs ≡ false
unfolding includes times
includes-times c [] h = refl
includes-times c (d ∷ cs) h = ground (arith, h, includes-times c cs)

pub times-includes : (c : ℕ) (cs : List ℕ) → includes c cs ≡ false → times c cs ≡ 0
unfolding includes times
times-includes c [] h = refl
times-includes c (d ∷ cs) h = ground (arith, h, times-includes c cs)

pub includes-add_each :
    (c : ℕ) (is js : List ℕ) → includes c (add_each is js) ≡ (includes c is || includes c js)
unfolding includes
includes-add_each c [] js = refl
includes-add_each c (i ∷ is) js =
    ground (arith, includes-add_each c is (add i js), includes-add c i js)

pub create-Fits : (p : Pool) (c : ℕ) → Fits p c → Fits (create p).0 c
unfolding create includes times
create-Fits p c h = record {
  used = ground (arith, h.used, h.fresh, times-append c p.in_use (p.clients ∷ []));
  once = ground (arith, h.once, h.used, h.fresh, times-append c p.in_use (p.clients ∷ []));
  free = λ m. ground (arith, m, h.free, h.fresh);
  fresh = λ le. ground (arith, le, h.fresh);
}
