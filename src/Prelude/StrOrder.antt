-- ===== src/Prelude/StrOrder.antt =====
-- The order of texts, that of their code points, which is Rust's order of their UTF-8 bytes; the sort
-- of a list of texts.
use Prim.Native.Nat.{ℕ}
use Prim.Native.String.{String}
use mathlib.Core.Path.{◌≡◌, refl}
use mathlib.Core.Logic.{◌↔◌, ◌⊎◌, inl, inr}
use mathlib.Core.Bool.{Bool, true, false}
use mathlib.Core.List.{List, [], ◌∷◌}
use native.Mathlib.Omega.{arith}
use simon.Prelude.Tests.{ltb, ◌==◌, if◌then◌else◌, Bool-cases}
use simon.Prelude.Text.{chars}
use simon.Prelude.Lists.{All}
use simon.Prelude.Dict.{Member}

abbrev pub lex : List ℕ → List ℕ → Bool
lex [] ys = true
lex (x ∷ xs) [] = false
lex (x ∷ xs) (y ∷ ys) = if ltb x y then true else if x == y then lex xs ys else false

-- `s <= t`
unfoldable pub str_leb : String → String → Bool
str_leb s t = lex (chars s) (chars t)

-- `s < t`
unfoldable pub str_ltb : String → String → Bool
unfolding str_leb
str_ltb s t = if str_leb t s then false else true

lex_refl : (xs : List ℕ) → lex xs xs ≡ true
lex_refl [] = refl
lex_refl (x ∷ xs) = ground (arith, lex_refl xs)

lex_total : (xs ys : List ℕ) → lex xs ys ≡ false → lex ys xs ≡ true
lex_total [] ys h = cc
lex_total (x ∷ xs) [] h = refl
lex_total (x ∷ xs) (y ∷ ys) h = ground (arith, lex_total xs ys)

lex_trans : (xs ys zs : List ℕ) → lex xs ys ≡ true → lex ys zs ≡ true → lex xs zs ≡ true
lex_trans [] ys zs h k = refl
lex_trans (x ∷ xs) [] zs h k = cc
lex_trans (x ∷ xs) (y ∷ ys) [] h k = cc
lex_trans (x ∷ xs) (y ∷ ys) (z ∷ zs) h k = ground (arith, lex_trans xs ys zs)

pub str_leb_refl : (s : String) → str_leb s s ≡ true
unfolding str_leb
str_leb_refl s = lex_refl (chars s)

pub str_leb_total : (s t : String) → str_leb s t ≡ false → str_leb t s ≡ true
unfolding str_leb
str_leb_total s t h = lex_total (chars s) (chars t) h

pub str_leb_trans : (s t u : String) → str_leb s t ≡ true → str_leb t u ≡ true → str_leb s u ≡ true
unfolding str_leb
str_leb_trans s t u h k = lex_trans (chars s) (chars t) (chars u) h k

-- `sort` of a `Vec<String>`, which is stable; equal texts are the same.
unfoldable pub wstaw : String → List String → List String
wstaw x [] = x ∷ []
wstaw x (y ∷ ys) = if str_leb x y then x ∷ y ∷ ys else y ∷ wstaw x ys

unfoldable pub sort : List String → List String
unfolding wstaw
sort [] = []
sort (x ∷ xs) = wstaw x (sort xs)

abbrev pub Sorted : List String → Type 0
Sorted [] = Unit
Sorted (x ∷ xs) = All (λ y. str_leb x y ≡ true) xs × Sorted xs

wstaw-Member : (z x : String) (xs : List String) → Member z (wstaw x xs) → (z ≡ x) ⊎ Member z xs
unfolding wstaw
wstaw-Member z x [] h = h
wstaw-Member z x (y ∷ ys) h = elim (Bool-cases (str_leb x y)) [
  | inl e ↦ rw e at h
  | inr e ↦
      let h' : (z ≡ y) ⊎ Member z (wstaw x ys) = rw e at h in
      elim h' [
        | inl q ↦ inr (inl q)
        | inr q ↦ elim (wstaw-Member z x ys q) [ inl r ↦ inl r | inr r ↦ inr (inr r) ]
      ]
]

Member-wstaw : (z x : String) (xs : List String) → (z ≡ x) ⊎ Member z xs → Member z (wstaw x xs)
unfolding wstaw
Member-wstaw z x [] h = h
Member-wstaw z x (y ∷ ys) h =
    let dalej : (z ≡ x) ⊎ Member z ys → Member z (wstaw x ys) = Member-wstaw z x ys in
    elim (Bool-cases (str_leb x y)) [
      | inl e ↦ rw e h
      | inr e ↦ rw e (elim h [
        | inl q ↦ inr (dalej (inl q))
        | inr q ↦ elim q [ inl r ↦ inl r | inr r ↦ inr (dalej (inr r)) ]
      ])
    ]

pub sort-Member : (z : String) (xs : List String) → Member z (sort xs) ↔ Member z xs
unfolding sort
sort-Member z [] = (λ h. h, λ h. h)
sort-Member z (x ∷ xs) = (
  λ h. elim (wstaw-Member z x (sort xs) h) [ inl q ↦ inl q | inr q ↦ inr ((sort-Member z xs).0 q) ],
  λ h. Member-wstaw z x (sort xs) (elim h [ inl q ↦ inl q | inr q ↦ inr ((sort-Member z xs).1 q) ]),
)

All-wstaw :
    (w x : String) (xs : List String)
    → str_leb w x ≡ true
    → All (λ y. str_leb w y ≡ true) xs
    → All (λ y. str_leb w y ≡ true) (wstaw x xs)
unfolding wstaw
All-wstaw w x [] h p = (h, tt)
All-wstaw w x (y ∷ ys) h p = elim (Bool-cases (str_leb x y)) [
  | inl e ↦ rw e (h, p)
  | inr e ↦ rw e (p.0, All-wstaw w x ys h p.1)
]

All-trans :
    (x y : String) (ys : List String)
    → str_leb x y ≡ true
    → All (λ z. str_leb y z ≡ true) ys
    → All (λ z. str_leb x z ≡ true) ys
All-trans x y [] h p = tt
All-trans x y (z ∷ zs) h p = (str_leb_trans x y z h p.0, All-trans x y zs h p.1)

wstaw-Sorted : (x : String) (xs : List String) → Sorted xs → Sorted (wstaw x xs)
unfolding wstaw
wstaw-Sorted x [] p = (tt, tt)
wstaw-Sorted x (y ∷ ys) p = elim (Bool-cases (str_leb x y)) [
  | inl e ↦ rw e ((e, All-trans x y ys e p.0), p)
  | inr e ↦ rw e (All-wstaw y x ys (str_leb_total x y e) p.0, wstaw-Sorted x ys p.1)
]

pub sort-Sorted : (xs : List String) → Sorted (sort xs)
unfolding sort
sort-Sorted [] = tt
sort-Sorted (x ∷ xs) = wstaw-Sorted x (sort xs) (sort-Sorted xs)

lex_antisym : (xs ys : List ℕ) → lex xs ys ≡ true → lex ys xs ≡ true → xs ≡ ys
lex_antisym [] [] h k = refl
lex_antisym [] (y ∷ ys) h k = cc
lex_antisym (x ∷ xs) [] h k = cc
lex_antisym (x ∷ xs) (y ∷ ys) h k = ground (arith, lex_antisym xs ys)

-- The equation is one of code points.
pub str_leb_antisym : (s t : String) → str_leb s t ≡ true → str_leb t s ≡ true → chars s ≡ chars t
unfolding str_leb
str_leb_antisym s t h k = lex_antisym (chars s) (chars t) h k
