-- ===== src/Client/LinkedList/Apart.antt =====
-- Lists of distinct nodes: what is in them and what is not.
use node_redis.Base.{
  suc, ◌<◌, ap, ℕ, ◌≡◌, refl, true, false, ◌==◌, List, [], ◌∷◌, ◌++◌, arith, ◌⊎◌, inl, inr,
}
use node_redis.Base.Sets.{includes, includes-append}
use node_redis.Client.LinkedList.Segment.{Distinct}

pub snoc-cases : (is : List ℕ) → (is ≡ []) ⊎ ((js : List ℕ) × (j : ℕ) × (is ≡ js ++ j ∷ []))
snoc-cases [] = inl refl
snoc-cases (i ∷ is) = elim (snoc-cases is) [
  | inl e ↦ inr ([], i, rw e refl)
  | inr (js, j, e) ↦ inr (i ∷ js, j, rw e refl)
]

pub Distinct-append :
    (is js : List ℕ)
    → Distinct is
    → Distinct js
    → ((i : ℕ) → includes i is ≡ true → includes i js ≡ false)
    → Distinct (is ++ js)
unfolding Distinct includes
Distinct-append [] js h k apart = k
Distinct-append (i ∷ is) js h k apart = (
  ground (arith, includes-append i is js, apart i, h.0),
  Distinct-append is js h.1 k λ j m. apart j (ground (arith, m)),
)

pub Distinct-parts :
    (is js : List ℕ)
    → Distinct (is ++ js)
    → Distinct is × Distinct js × ((i : ℕ) → includes i is ≡ true → includes i js ≡ false)
unfolding Distinct includes
Distinct-parts [] js h = (tt, h, λ i m. absurd (cc))
Distinct-parts (i ∷ is) js h =
    let rest = Distinct-parts is js h.1 in
    (
      (ground (arith, includes-append i is js, h.0), rest.0),
      rest.1,
      λ j m. ground (arith, rest.2 j, includes-append i is js, h.0, m),
    )

-- What is in neither of two lists.
pub outside :
    (i : ℕ) (is js : List ℕ)
    → includes i (is ++ js) ≡ false
    → (includes i is ≡ false) × (includes i js ≡ false)
outside i is js out =
    (ground (arith, includes-append i is js), ground (arith, includes-append i is js))

pub outside-append :
    (i : ℕ) (is js : List ℕ)
    → includes i is ≡ false
    → includes i js ≡ false
    → includes i (is ++ js) ≡ false
outside-append i is js h k = ground (arith, includes-append i is js)

pub ne : (i j : ℕ) → includes i (j ∷ []) ≡ false → (i == j) ≡ false
unfolding includes
ne i j h = ground arith

pub before : (is : List ℕ) (t : ℕ) → Distinct (is ++ t ∷ []) → includes t is ≡ false
unfolding includes
before is t h = ground (arith, (Distinct-parts is (t ∷ []) h).2 t)

pub ne_first : (i j : ℕ) (is : List ℕ) → includes i (j ∷ is) ≡ false → (i == j) ≡ false
unfolding includes
ne_first i j is h = ground arith

pub outside_first :
    (i j : ℕ) (is : List ℕ) → (i == j) ≡ false → includes j is ≡ false → includes j (i ∷ is) ≡ false
unfolding includes
outside_first i j is h k = ground arith

pub inside_rest : (i j : ℕ) (is : List ℕ) → includes j is ≡ true → includes j (i ∷ is) ≡ true
unfolding includes
inside_rest i j is h = ground arith

pub later :
    (m : ℕ) (is : List ℕ)
    → ((i : ℕ) → includes i is ≡ true → i < m)
    → (i : ℕ) → includes i is ≡ true
    → i < suc m
later m is h i k = omega (arith, h i k)

pub below-append :
    (is js : List ℕ) (m : ℕ)
    → ((i : ℕ) → includes i is ≡ true → i < suc m)
    → ((i : ℕ) → includes i js ≡ true → i < suc m)
    → (i : ℕ) → includes i (is ++ js) ≡ true
    → i < suc m
below-append is js m h k i b = ground (arith, includes-append i is js, h i, k i)

pub one : (i : ℕ) → Distinct (i ∷ [])
unfolding Distinct includes
one i = (refl, tt)

pub apart :
    (is : List ℕ) (m : ℕ)
    → includes m is ≡ false
    → (i : ℕ) → includes i is ≡ true
    → includes i (m ∷ []) ≡ false
unfolding includes
apart is m h i k = ground (arith, ap (λ (j : ℕ). includes j is))

pub below_made : (m i : ℕ) → includes i (m ∷ []) ≡ true → i < suc m
unfolding includes
below_made m i h = ground arith

pub below_other : (m i : ℕ) → includes i (m ∷ []) ≡ false → i < suc m → i < m
unfolding includes
below_other m i h k = ground arith
