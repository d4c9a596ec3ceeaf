-- ===== src/Client/LinkedList/Contents.antt =====
-- What a doubly linked list is meant to hold: pairs of a node and its value.
use node_redis.Base.{
  ℕ, suc, ◌<◌, ◌≡◌, refl, ◌∙◌, ==_refl, ==_iff, Bool, true, false, not, ◌&&◌, ltb, ◌==◌,
  if◌then◌else◌, Option, none, some, List, [], ◌∷◌, ◌++◌, arith, All, All-append, Bool-cases, inl,
  inr,
}
use node_redis.Base.Sets.{includes}
use node_redis.Client.LinkedList.{
  DoublyLinkedList, push, unshift, insert_after, shift, remove, reset,
}
use node_redis.Client.LinkedList.Ends.{IsList}

pub data Operation (A : Type 0) : Type 0 where
  pushed unshifted : A → Operation A
  inserted : (behind : ℕ) → A → Operation A
  shifted cleared : Operation A
  removed : (node : ℕ) → Operation A

-- The contents as they are meant: the nodes with their values, in order. `released` are the nodes
-- that were in the list when it was reset.
pub record Contents (A : Type 0) : Type 0 where
  pub made : ℕ
  pub items : List (ℕ × A)
  pub released : List ℕ

abbrev pub ids : {A : Type 0} → List (ℕ × A) → List ℕ
ids [] = []
ids (x ∷ xs) = x.0 ∷ ids xs

module _ {A : Type 0} where
  unfoldable pub run : Operation A → DoublyLinkedList A → Option A × DoublyLinkedList A
  run (pushed v) d = (none, push v d)
  run (unshifted v) d = (none, unshift v d)
  run (inserted i v) d = (none, insert_after i v d)
  run shifted d = shift d
  run cleared d = (none, reset d)
  run (removed i) d = (none, remove i d)

  unfoldable pub put_behind : ℕ → ℕ × A → List (ℕ × A) → List (ℕ × A)
  put_behind i y [] = []
  put_behind i y (x ∷ xs) =
      let rest = put_behind i y xs in if x.0 == i then x ∷ y ∷ xs else x ∷ rest

  unfoldable pub take_out : ℕ → List (ℕ × A) → List (ℕ × A)
  take_out i [] = []
  take_out i (x ∷ xs) = let rest = take_out i xs in if x.0 == i then xs else x ∷ rest

  unfoldable pub meant : Operation A → Contents A → Option A × Contents A
  unfolding put_behind take_out
  meant (pushed v) s = (none, record s { made = suc s.made; items = s.items ++ (s.made, v) ∷ [] })
  meant (unshifted v) s = (none, record s { made = suc s.made; items = (s.made, v) ∷ s.items })
  meant (inserted i v) s =
      (none, record s { made = suc s.made; items = put_behind i (s.made, v) s.items })
  meant shifted s = elim s.items [ [] ↦ (none, s) | x ∷ xs ↦ (some x.1, record s { items = xs }) ]
  meant cleared s = (none, record s { items = []; released = ids s.items ++ s.released })
  meant (removed i) s = (none, record s { items = take_out i s.items })

  -- `insertAfter` is called with a node of the list; `remove` with any node that was made, but not
  -- with one that a reset left behind.
  unfoldable pub may : Operation A → Contents A → Bool
  may (inserted i v) s = includes i (ids s.items)
  may (removed i) s = ltb i s.made && not (includes i s.released)
  may _ s = true

  pub record Represents (d : DoublyLinkedList A) (s : Contents A) : Type 0 where
    pub list : IsList d (ids s.items) s.released
    pub made : d.made ≡ s.made
    pub held : All (λ x. (d.nodes x.0).value ≡ x.1) s.items

  pub ids-append : (xs ys : List (ℕ × A)) → ids (xs ++ ys) ≡ ids xs ++ ids ys
  ids-append [] ys = refl
  ids-append (x ∷ xs) ys = rw (ids-append xs ys) refl

  pub split_items :
      (i : ℕ) (xs : List (ℕ × A))
      → includes i (ids xs) ≡ true
      → (ys : List (ℕ × A)) × (v : A) × (zs : List (ℕ × A)) × (xs ≡ ys ++ (i, v) ∷ zs)
        × (includes i (ids ys) ≡ false)
  unfolding includes
  split_items i [] m = absurd (cc)
  split_items i ((j, v) ∷ xs) m = elim (Bool-cases (j == i)) [
    | inl e ↦ ([], v, xs, rw ((==_iff j i).0 e) refl, refl)
    | inr e ↦
        let (ys, w, zs, split, out) = split_items i xs (ground (arith, m, e)) in
        ((j, v) ∷ ys, w, zs, rw split refl, ground (arith, out, e))
  ]

  pub put_behind-append :
      (i : ℕ) (v : A) (y : ℕ × A) (ys zs : List (ℕ × A))
      → includes i (ids ys) ≡ false
      → put_behind i y (ys ++ (i, v) ∷ zs) ≡ ys ++ (i, v) ∷ y ∷ zs
  unfolding put_behind includes
  put_behind-append i v y [] zs out = rw (==_refl i) refl
  put_behind-append i v y (x ∷ ys) zs out = ground (arith, put_behind-append i v y ys zs, out)

  pub take_out-append :
      (i : ℕ) (v : A) (ys zs : List (ℕ × A))
      → includes i (ids ys) ≡ false
      → take_out i (ys ++ (i, v) ∷ zs) ≡ ys ++ zs
  unfolding take_out includes
  take_out-append i v [] zs out = rw (==_refl i) refl
  take_out-append i v (x ∷ ys) zs out = ground (arith, take_out-append i v ys zs, out)

  pub take_out-absent :
      (i : ℕ) (xs : List (ℕ × A)) → includes i (ids xs) ≡ false → take_out i xs ≡ xs
  unfolding take_out includes
  take_out-absent i [] out = refl
  take_out-absent i (x ∷ xs) out = ground (arith, take_out-absent i xs, out)

  -- The pairs are those of the nodes, where the nodes `is` hold what they held.
  abbrev pub Held : DoublyLinkedList A → List (ℕ × A) → Type 0
  Held d xs = All (λ x. (d.nodes x.0).value ≡ x.1) xs

  pub Held-append :
      (d : DoublyLinkedList A) (xs ys : List (ℕ × A)) → Held d xs → Held d ys → Held d (xs ++ ys)
  Held-append d xs ys h k = All-append (λ x. (d.nodes x.0).value ≡ x.1) xs ys h k

  pub Held-parts :
      (d : DoublyLinkedList A) (xs ys : List (ℕ × A)) → Held d (xs ++ ys) → Held d xs × Held d ys
  Held-parts d [] ys h = (tt, h)
  Held-parts d (x ∷ xs) ys h = let rest = Held-parts d xs ys h.1 in ((h.0, rest.0), rest.1)

  pub Held-kept :
      (d d' : DoublyLinkedList A) (xs : List (ℕ × A))
      → ((j : ℕ) → (d'.nodes j).value ≡ (d.nodes j).value)
      → Held d xs
      → Held d' xs
  Held-kept d d' [] same h = tt
  Held-kept d d' (x ∷ xs) same h = (same x.0 ∙ h.0, Held-kept d d' xs same h.1)

  -- A value that was given to a node that is none of them.
  pub Held-made :
      (d d' : DoublyLinkedList A) (v : A) (xs : List (ℕ × A))
      → ((j : ℕ) → (d'.nodes j).value ≡ (if j == d.made then v else (d.nodes j).value))
      → ((j : ℕ) → includes j (ids xs) ≡ true → j < d.made)
      → Held d xs
      → Held d' xs
  unfolding includes
  Held-made d d' v [] same below h = tt
  Held-made d d' v (x ∷ xs) same below h = (
    same x.0 ∙ (ground (arith, below x.0, ==_refl x.0, h.0)),
    Held-made d d' v xs same (λ j m. below j (ground (arith, m))) h.1,
  )

  pub made_value :
      (d d' : DoublyLinkedList A) (v : A)
      → ((j : ℕ) → (d'.nodes j).value ≡ (if j == d.made then v else (d.nodes j).value))
      → (d'.nodes d.made).value ≡ v
  made_value d d' v same = same d.made ∙ rw (==_refl d.made) refl
