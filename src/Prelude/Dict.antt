-- ===== src/Prelude/Dict.antt =====
-- Maps keyed by texts, as association lists without repeated keys. The maps of the program are hash maps
-- or ordered maps; no theorem depends on the order of the entries.
use Prim.Native.String.{String}
use mathlib.Core.Path.{◌≡◌, refl, sym}
use mathlib.Core.Logic.{◌≢◌, ◌⊎◌, inl, inr}
use mathlib.Core.Bool.{Bool, true, false}
use mathlib.Core.Option.{Option, none, some}
use mathlib.Core.List.{List, [], ◌∷◌}
use native.Mathlib.Omega.{arith}
use simon.Prelude.Tests.{if◌then◌else◌, Bool-cases}
use simon.Prelude.Text.{str_eq, eq_iff, eq_refl, str_eq-true, str_eq_of_ne}
use simon.Prelude.Lists.{Any}

abbrev pub Dict {ℓ} : Type ℓ → Type ℓ
Dict A = List (String × A)

-- `x` is an element of the list.
abbrev pub Member : String → List String → Type 0
Member x xs = Any (λ y. x ≡ y) xs

module _ {ℓ} {A : Type ℓ} where
  unfoldable pub lookup : String → Dict A → Option A
  lookup k [] = none
  lookup k ((j, v) ∷ d) = if str_eq k j then some v else lookup k d

  unfoldable pub remove : String → Dict A → Dict A
  remove k [] = []
  remove k ((j, v) ∷ d) = if str_eq k j then remove k d else (j, v) ∷ remove k d

  -- Replaces the value of a key that is there.
  unfoldable pub insert : String → A → Dict A → Dict A
  unfolding remove
  insert k v d = (k, v) ∷ remove k d

  abbrev pub is_some : Option A → Bool
  is_some none = false
  is_some (some a) = true

  abbrev pub contains_key : String → Dict A → Bool
  contains_key k d = is_some (lookup k d)

  abbrev pub values : Dict A → List A
  values [] = []
  values ((k, v) ∷ d) = v ∷ values d

  pub lookup-remove : (k : String) (d : Dict A) → lookup k (remove k d) ≡ none
  unfolding lookup remove
  lookup-remove k [] = refl
  lookup-remove k ((j, v) ∷ d) = ground (arith, lookup-remove k d)

  pub lookup-remove_other : (k j : String) (d : Dict A) → k ≢ j → lookup k (remove j d) ≡ lookup k d
  unfolding lookup remove
  lookup-remove_other k j [] n = refl
  lookup-remove_other k j ((i, v) ∷ d) n = elim (Bool-cases (str_eq j i)) [
    | inl e ↦
        let q : k ≢ i = λ h. n (cc (h, str_eq-true j i e)) in
        rw (e, str_eq_of_ne k i q) (lookup-remove_other k j d n)
    | inr e ↦ rw (e, lookup-remove_other k j d n)
  ]

  pub lookup-insert : (k : String) (v : A) (d : Dict A) → lookup k (insert k v d) ≡ some v
  unfolding lookup insert
  lookup-insert k v d = rw (eq_refl k)

  pub lookup-insert_other :
      (k j : String) (v : A) (d : Dict A) → k ≢ j → lookup k (insert j v d) ≡ lookup k d
  unfolding lookup insert
  lookup-insert_other k j v d n = rw (str_eq_of_ne k j n) (lookup-remove_other k j d n)

  -- What can be found after a removal was there before, under another key.
  pub lookup-remove-some :
      (k j : String) (d : Dict A) (a : A)
      → lookup k (remove j d) ≡ some a
      → (k ≢ j) × (lookup k d ≡ some a)
  lookup-remove-some k j d a h = elim (Bool-cases (str_eq k j)) [
    | inl e ↦ let q : k ≡ j = str_eq-true k j e in absurd (cc (lookup-remove j d, q, h))
    | inr e ↦
        let n : k ≢ j = λ q. cc (e, (eq_iff k j).1 q) in (n, cc (h, lookup-remove_other k j d n))
  ]

  -- A key is what was inserted, or it was there before.
  pub lookup-insert-cases :
      (k j : String) (v : A) (d : Dict A)
      → ((k ≡ j) × (lookup k (insert j v d) ≡ some v))
        ⊎ ((k ≢ j) × (lookup k (insert j v d) ≡ lookup k d))
  lookup-insert-cases k j v d = elim (Bool-cases (str_eq k j)) [
    | inl e ↦ let q : k ≡ j = str_eq-true k j e in inl (q, rw q (lookup-insert j v d))
    | inr e ↦
        let n : k ≢ j = λ q. cc (e, (eq_iff k j).1 q) in inr (n, lookup-insert_other k j v d n)
  ]

  -- No key stands twice.
  abbrev pub Unikalne : Dict A → Type ℓ
  Unikalne [] = Unit
  Unikalne ((k, v) ∷ d) = (lookup k d ≡ none) × Unikalne d

  pub remove-Unikalne : (k : String) (d : Dict A) → Unikalne d → Unikalne (remove k d)
  unfolding remove lookup
  remove-Unikalne k [] u = tt
  remove-Unikalne k ((j, v) ∷ d) u = elim (Bool-cases (str_eq k j)) [
    | inl e ↦ rw e (remove-Unikalne k d u.1)
    | inr e ↦
        let n : j ≢ k = λ q. cc (e, (eq_iff k j).1 (sym q)) in
        rw e (cc (u.0, lookup-remove_other j k d n), remove-Unikalne k d u.1)
  ]

  pub insert-Unikalne : (k : String) (v : A) (d : Dict A) → Unikalne d → Unikalne (insert k v d)
  unfolding insert
  insert-Unikalne k v d u = (lookup-remove k d, remove-Unikalne k d u)
