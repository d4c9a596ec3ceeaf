-- ===== src/Client/Pool/Invariant.antt =====
-- The clients of a pool: opening, cleaning up and closing.
use node_redis.Base.{
  ℕ, zero, suc, ◌+◌, ◌≤◌, ◌≡◌, refl, Bool, true, false, not, ◌||◌, ◌==◌, if◌then◌else◌, List, [],
  ◌∷◌, length, arith, ◌⊎◌, Bool-cases, inl, inr, drop, length-append, length-drop,
}
use node_redis.Client.Pool.{
  Options, called, waiting, finishing, Closing, Pool, is_nil, is_closing, total_clients, create,
}
use node_redis.Client.Pool.Operations.{
  cleanup_count, create_each, connect, cleanup, close, close_idle, do_close, after_drain,
  finish_close, destroy,
}
use node_redis.Client.Pool.Steps.{is_called, is_drained, is_finishing}
use node_redis.Client.Pool.Tasks.{times}
use node_redis.Client.Pool.Clients.{
  limit, is_done, IsSound, includes-times, times-includes, includes-add_each,
}
use node_redis.Client.Pool.Sound.{create-IsSound}
use node_redis.Client.Pool.Capacity.{dropped-Fits}

total-create : (p : Pool) → total_clients (create p).0 ≡ suc (total_clients p)
unfolding total_clients create
total-create p = omega (arith, length-append p.in_use (p.clients ∷ []))

create_each-IsSound :
    (o : Options) (n : ℕ) (p : Pool)
    → IsSound o p
    → p.is_open ≡ true
    → is_done p ≡ false
    → total_clients p + n ≤ limit o
    → IsSound o (create_each n p).0
unfolding create_each
create_each-IsSound o zero p h is_open busy room = h
create_each-IsSound o (suc n) p h is_open busy room =
    create_each-IsSound o n (create p).0 (create-IsSound o p h is_open busy (omega (arith, room)))
      (unfold create in is_open) (unfold create in busy) (omega (arith, room, total-create p))

length_nil : (cs : List ℕ) → is_nil cs ≡ true → length cs ≡ 0
length_nil [] h = refl
length_nil (c ∷ cs) h = absurd (cc)

-- A pool that is not open has no clients.
connect_from :
    (o : Options) (p : Pool) (b : Bool)
    → p.is_open ≡ b
    → IsSound o p
    → IsSound o (if b then (p, []) else create_each o.minimum (record p { is_open = true })).0
unfolding total_clients
connect_from o p true e h = h
connect_from o p false e h =
    let p' = record p { is_open = true } in
    let no_idle : length p.idle ≡ 0 = length_nil p.idle (ground (arith, h.tidy, e)) in
    let none_used : length p.in_use ≡ 0 = length_nil p.in_use (ground (arith, h.tidy, e)) in
    let h' : IsSound o p' = record {
      fits = λ d.
          let f = h.fits d in
          record { used = f.used; once = f.once; free = f.free; fresh = f.fresh };
      tidy = refl;
      over = h.over;
      bound = h.bound;
    } in
    create_each-IsSound o o.minimum p' h' refl (ground (arith, h.tidy, e))
      (ground (arith, no_idle, none_used))

pub connect-IsSound : (o : Options) (p : Pool) → IsSound o p → IsSound o (connect o p).0
unfolding connect
connect-IsSound o p h = connect_from o p p.is_open refl h

pub destroy-IsSound : (o : Options) (p : Pool) → IsSound o p → IsSound o (destroy p).0
unfolding destroy total_clients times
destroy-IsSound o p h = record {
  fits = λ c.
      let f = h.fits c in
      let marks = includes-add_each c p.in_use p.destroyed in
      record {
        used = ground (arith, f.used, marks, times-includes c p.in_use);
        once = omega arith;
        free = λ m. refl;
        fresh = λ le. ground (arith, le, f.fresh, f.used, marks, includes-times c p.in_use);
      };
  tidy = refl;
  over = refl;
  bound = omega arith;
}

times-drop : (c n : ℕ) (cs : List ℕ) → times c (drop n cs) ≤ times c cs
unfolding times
times-drop c zero cs = omega arith
times-drop c (suc n) [] = omega arith
times-drop c (suc n) (d ∷ cs) = ground (arith, times-drop c n cs)

is_nil-drop : (n : ℕ) (cs : List ℕ) → is_nil cs ≡ true → is_nil (drop n cs) ≡ true
is_nil-drop zero cs h = h
is_nil-drop (suc n) [] h = refl
is_nil-drop (suc n) (d ∷ cs) h = absurd (cc)

times_nil : (c : ℕ) (cs : List ℕ) → is_nil cs ≡ true → times c cs ≡ 0
unfolding times
times_nil c [] h = refl
times_nil c (d ∷ cs) h = absurd (cc)

pub cleanup-IsSound : (o : Options) (p : Pool) → IsSound o p → IsSound o (cleanup o p).0
unfolding cleanup total_clients
cleanup-IsSound o p h =
    let n : ℕ = cleanup_count o p in
    record {
      fits = λ c. dropped-Fits p (drop n p.idle) c (times-drop c n p.idle) (h.fits c);
      tidy = ground (arith, h.tidy, is_nil-drop n p.idle);
      over = h.over;
      bound = omega (arith, h.bound, length-drop n p.idle);
    }

-- Another stage of a close.
stage-IsSound :
    (o : Options) (p : Pool) (c : Closing)
    → IsSound o p
    → p.is_open ≡ true
    → is_done (record p { closing = c }) ≡ false ⊎ is_nil p.in_use ≡ true
    → IsSound o (record p { closing = c })
unfolding total_clients
stage-IsSound o p c h is_open fine = record {
  fits = λ d.
      let f = h.fits d in record { used = f.used; once = f.once; free = f.free; fresh = f.fresh };
  tidy = ground (arith, is_open);
  over = ground (arith, fine);
  bound = h.bound;
}

close_idle-IsSound :
    (o : Options) (p : Pool)
    → IsSound o p
    → p.is_open ≡ true
    → is_nil p.in_use ≡ true
    → IsSound o (close_idle p).0
unfolding close_idle
close_idle-IsSound o p h is_open empty = stage-IsSound o p finishing h is_open (inr empty)

closing_lem : (o : Options) (p : Pool) → IsSound o p → is_closing p ≡ true → p.is_open ≡ true
closing_lem o p h e = ground (arith, h.tidy, e)

pub close-IsSound : (o : Options) (p : Pool) → IsSound o p → IsSound o (close p)
unfolding close
close-IsSound o p h = elim (Bool-cases (is_closing p || not p.is_open)) [
  | inl e ↦ rw (close, e) h
  | inr e ↦ rw (close, e) (stage-IsSound o p called h (ground (arith, e)) (inl refl))
]

pub do_close-IsSound :
    (o : Options) (p : Pool) (n : ℕ)
    → (not (p.destroy_count == n) || is_called p.closing) ≡ true
    → IsSound o p
    → IsSound o (do_close p n).0
unfolding do_close
do_close-IsSound o p n allowed h = elim (Bool-cases (not (p.destroy_count == n))) [
  | inl e ↦ rw (do_close, e) h
  | inr e ↦
      let is_open : p.is_open ≡ true = closing_lem o p h (ground (arith, allowed, e)) in
      elim (Bool-cases (not (is_nil p.in_use))) [
        | inl busy ↦ rw (do_close, e, busy) (stage-IsSound o p waiting h is_open (inl refl))
        | inr free ↦
            rw (do_close, e, free) (close_idle-IsSound o p h is_open (ground (arith, free)))
      ]
]

pub after_drain-IsSound :
    (o : Options) (p : Pool) (n : ℕ)
    → (not (p.destroy_count == n) || is_drained p.closing) ≡ true
    → IsSound o p
    → IsSound o (after_drain p n).0
unfolding after_drain
after_drain-IsSound o p n allowed h = elim (Bool-cases (not (p.destroy_count == n))) [
  | inl e ↦ rw (after_drain, e) h
  | inr e ↦
      rw (after_drain, e)
        (close_idle-IsSound o p h (closing_lem o p h (ground (arith, allowed, e)))
          (ground (arith, allowed, e, h.over)))
]

pub finish_close-IsSound :
    (o : Options) (p : Pool) (n : ℕ)
    → (not (p.destroy_count == n) || is_finishing p.closing) ≡ true
    → IsSound o p
    → IsSound o (finish_close p n)
unfolding finish_close total_clients times
finish_close-IsSound o p n allowed h = elim (Bool-cases (not (p.destroy_count == n))) [
  | inl e ↦ rw (finish_close, e) h
  | inr e ↦
      let empty : is_nil p.in_use ≡ true = ground (arith, allowed, e, h.over) in
      rw (finish_close, e)
        record {
          fits = λ c.
              let f = h.fits c in
              record {
                used = ground (arith, f.used, times_nil c p.in_use empty);
                once = omega arith;
                free = λ m. refl;
                fresh = λ le. ground (arith, f.fresh le);
              };
          tidy = refl;
          over = refl;
          bound = omega arith;
        }
]
