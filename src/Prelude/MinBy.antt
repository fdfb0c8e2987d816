-- ===== src/Prelude/MinBy.antt =====
-- `Iterator::min_by`: the first of the smallest elements under a Boolean order.
use mathlib.Core.Path.{◌≡◌, refl, subst, sym}
use mathlib.Core.Logic.{◌⊎◌, inl, inr}
use mathlib.Core.Bool.{Bool, true, false}
use mathlib.Core.Option.{Option, none, some}
use mathlib.Core.List.{List, [], ◌∷◌}
use simon.Prelude.Tests.{if◌then◌else◌, Bool-cases}
use simon.Prelude.Lists.{All, Any}

module _ {A : Type 0} (le : A → A → Bool) where
  unfoldable pub min_od : A → List A → A
  min_od m [] = m
  min_od m (x ∷ xs) = if le m x then min_od m xs else min_od x xs

  unfoldable pub min_by : List A → Option A
  min_by [] = none
  min_by (x ∷ xs) = some (min_od x xs)

-- What the order of a `min_by` must be.
pub record Porzadek {A : Type 0} (le : A → A → Bool) : Type 0 where
  pub zwrotny : (a : A) → le a a ≡ true
  pub spojny : (a b : A) → le a b ≡ false → le b a ≡ true
  pub przechodni : (a b c : A) → le a b ≡ true → le b c ≡ true → le a c ≡ true

module _ {A : Type 0} (le : A → A → Bool) (p : Porzadek le) where
  min_od_lem :
      (xs : List A) (m r : A)
      → min_od le m xs ≡ r
      → ((r ≡ m) ⊎ Any (λ y. r ≡ y) xs) × (le r m ≡ true) × All (λ y. le r y ≡ true) xs
  unfolding min_od
  min_od_lem [] m r h = (inl (sym h), rw h (p.zwrotny r), tt)
  min_od_lem (x ∷ xs) m r h = elim (Bool-cases (le m x)) [
    | inl e ↦
        let (q, s, t) = min_od_lem xs m r (rw e at h) in
        (elim q [ inl u ↦ inl u | inr u ↦ inr (inr u) ], s, (p.przechodni r m x s e, t))
    | inr e ↦
        let (q, s, t) = min_od_lem xs x r (rw e at h) in
        (inr q, p.przechodni r x m s (p.spojny m x e), (s, t))
  ]

  -- The result is an element, and below every element; there is one for every list but the empty one.
  pub min_by_lem :
      (xs : List A)
      → ((xs ≡ []) × (min_by le xs ≡ none))
        ⊎ ((m : A) × (min_by le xs ≡ some m) × Any (λ y. m ≡ y) xs × All (λ y. le m y ≡ true) xs)
  unfolding min_by
  min_by_lem [] = inl (refl, refl)
  min_by_lem (x ∷ xs) =
      let (q, r, s) = min_od_lem xs x (min_od le x xs) refl in inr (min_od le x xs, refl, q, (r, s))

  pub min_by-some :
      (xs : List A) (m : A)
      → min_by le xs ≡ some m
      → Any (λ y. m ≡ y) xs × All (λ y. le m y ≡ true) xs
  min_by-some xs m h = elim (min_by_lem xs) [
    | inl (_, e) ↦ cc
    | inr (n, e, a, b) ↦
        let q : n ≡ m = cc (e, h) in
        (subst (λ z. Any (λ y. z ≡ y) xs) q a, subst (λ z. All (λ y. le z y ≡ true) xs) q b)
  ]

pub All-Any :
    {A : Type 0} (P : A → Type 0) (xs : List A) (x : A) → All P xs → Any (λ y. x ≡ y) xs → P x
All-Any P [] x a m = absurd m
All-Any P (y ∷ ys) x a (inl e) = subst P (sym e) a.0
All-Any P (y ∷ ys) x a (inr m) = All-Any P ys x a.1 m
