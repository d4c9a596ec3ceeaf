-- ===== src/Client/Pool/Sound.antt =====
-- The operations of the pool keep its clients where they belong.
use node_redis.Base.{
  ℕ, ◌≤◌, ◌<◌, ◌≡◌, refl, true, false, not, ◌&&◌, [], ◌∷◌, ◌++◌, arith, Bool-cases, inl, inr,
  length-append, ==_refl, ==_iff,
}
use node_redis.Base.Sets.{includes, discard}
use node_redis.Client.Pool.{
  Options, Pool, is_nil, is_closing, total_clients, resolve_drain, create, to_idle, retire,
}
use node_redis.Client.Pool.Tasks.{times, times-append, times-discard}
use node_redis.Client.Pool.Clients.{
  Fits, limit, is_done, IsSound, Handed, length-discard, some_in_use, create-Fits,
}

pub create-IsSound :
    (o : Options) (p : Pool)
    → IsSound o p
    → p.is_open ≡ true
    → is_done p ≡ false
    → total_clients p < limit o
    → IsSound o (create p).0
unfolding create total_clients
create-IsSound o p h is_open busy room = record {
  fits = λ c. unfold create in create-Fits p c (h.fits c);
  tidy = ground (arith, is_open);
  over = ground (arith, busy);
  bound = omega (arith, room, length-append p.in_use (p.clients ∷ []));
}

-- The client that is handed back is in use, once, unless it was destroyed.
pub Handed-in_use :
    (o : Options) (p : Pool) (c : ℕ)
    → Handed o p c
    → includes c p.destroyed ≡ false
    → (times c p.in_use ≡ 1) × (times c p.idle ≡ 0) × (is_nil p.in_use ≡ false)
unfolding includes
Handed-in_use o p c h alive =
    let f = h.0.fits c in
    let once : times c p.in_use ≡ 1 = ground (arith, f.used, alive, ==_refl c) in
    (once, omega (arith, f.once, once), some_in_use c p.in_use (omega (arith, once)))

moved-Fits :
    (p : Pool) (c d : ℕ)
    → Fits (record p { pending = c ∷ p.pending }) d
    → includes c p.destroyed ≡ false
    → includes c p.pending ≡ false
    → times c p.idle ≡ 0
    → Fits (record p { in_use = discard c p.in_use; idle = p.idle ++ c ∷ [] }) d
unfolding includes times
moved-Fits p c d h alive settled out = record {
  used = ground (arith, h.used, alive, settled, times-discard d c p.in_use);
  once = ground (arith, h.once, times-discard d c p.in_use, times-append d p.idle (c ∷ []), out);
  free = λ m.
      ground
        (arith, m, h.free, h.once, alive, settled, out, times-append d p.idle (c ∷ []), ==_iff c d);
  fresh = λ le. ground (arith, le, h.fresh, times-append d p.idle (c ∷ []));
}

pub retired-Fits :
    (p : Pool) (c d : ℕ)
    → Fits (record p { pending = c ∷ p.pending }) d
    → includes c p.pending ≡ false
    → Fits (record p { in_use = discard c p.in_use }) d
unfolding includes times
retired-Fits p c d h settled = record {
  used = ground (arith, h.used, settled, times-discard d c p.in_use);
  once = ground (arith, h.once, times-discard d c p.in_use);
  free = λ m. ground (arith, m, h.free);
  fresh = λ le. ground (arith, le, h.fresh);
}

pub drained-IsSound :
    (o : Options) (p : Pool)
    → ((d : ℕ) → Fits p d)
    → p.is_open ≡ true
    → is_nil p.in_use ≡ true
    → total_clients p ≤ limit o
    → IsSound o (resolve_drain p)
unfolding resolve_drain total_clients
drained-IsSound o p h is_open empty few = record {
  fits =
      λ d. let f = h d in record { used = f.used; once = f.once; free = f.free; fresh = f.fresh };
  tidy = rw is_open refl;
  over = ground (arith, empty);
  bound = few;
}

pub open-IsSound :
    (o : Options) (p : Pool)
    → ((d : ℕ) → Fits p d)
    → p.is_open ≡ true
    → is_done p ≡ false
    → total_clients p ≤ limit o
    → IsSound o p
open-IsSound o p h is_open busy few = record {
  fits = h;
  tidy = rw is_open refl;
  over = ground (arith, busy);
  bound = few;
}

-- A pool with a client in use is open, and its tasks are not over.
pub in_use_lem :
    (o : Options) (p : Pool)
    → IsSound o p
    → is_nil p.in_use ≡ false
    → (p.is_open ≡ true) × (is_done p ≡ false)
in_use_lem o p h busy = (ground (arith, h.tidy, busy), ground (arith, h.over, busy))

pub to_idle-IsSound :
    (o : Options) (p : Pool) (c : ℕ)
    → Handed o p c
    → includes c p.destroyed ≡ false
    → IsSound o (to_idle o p c).0
unfolding to_idle total_clients
to_idle-IsSound o p c h alive =
    let used = Handed-in_use o p c h alive in
    let p' = record p { in_use = discard c p.in_use; idle = p.idle ++ c ∷ [] } in
    let few : total_clients p' ≤ limit o =
      omega (arith, h.0.bound, used.0, length-discard c p.in_use, length-append p.idle (c ∷ [])) in
    let moved = λ (d : ℕ). moved-Fits p c d (h.0.fits d) alive h.1 used.1 in
    let working = in_use_lem o (record p { pending = c ∷ p.pending }) h.0 used.2 in
    elim (Bool-cases (is_closing p' && is_nil p'.in_use)) [
      | inl e ↦ rw (to_idle, e) (drained-IsSound o p' moved working.0 (ground (arith, e)) few)
      | inr e ↦ rw (to_idle, e) (open-IsSound o p' moved working.0 working.1 few)
    ]

pub retire-IsSound :
    (o : Options) (p : Pool) (c : ℕ)
    → Handed o p c
    → includes c p.destroyed ≡ false
    → IsSound o (retire p c).0
unfolding retire total_clients
retire-IsSound o p c h alive =
    let used = Handed-in_use o p c h alive in
    let p' = record p { in_use = discard c p.in_use } in
    let fewer : total_clients p' < limit o =
      omega (arith, h.0.bound, used.0, length-discard c p.in_use) in
    let few : total_clients p' ≤ limit o = omega (arith, fewer) in
    let fits = λ (d : ℕ). retired-Fits p c d (h.0.fits d) h.1 in
    let working = in_use_lem o (record p { pending = c ∷ p.pending }) h.0 used.2 in
    elim (Bool-cases (not (is_nil p'.tasks))) [
      | inl e ↦
          rw (retire, e)
            (create-IsSound o p' (open-IsSound o p' fits working.0 working.1 few) working.0
              working.1 fewer)
      | inr e ↦ elim (Bool-cases (is_closing p' && is_nil p'.in_use)) [
        | inl last ↦
            rw (retire, e, last) (drained-IsSound o p' fits working.0 (ground (arith, last)) few)
        | inr more ↦ rw (retire, e, more) (open-IsSound o p' fits working.0 working.1 few)
      ]
    ]

-- A client that was destroyed in use is in no list.
pub gone-IsSound :
    (o : Options) (p : Pool) (c : ℕ) → Handed o p c → includes c p.destroyed ≡ true → IsSound o p
unfolding includes total_clients
gone-IsSound o p c h gone = record {
  fits = λ d.
      let f = h.0.fits d in
      record {
        used = ground (arith, f.used, gone, ==_iff c d);
        once = f.once;
        free = λ m. ground (arith, m, f.free);
        fresh = λ le. ground (arith, le, f.fresh);
      };
  tidy = h.0.tidy;
  over = h.0.over;
  bound = h.0.bound;
}
