-- ===== src/Prelude/PairOrder.antt =====
-- The lexicographic order of pairs of texts, as `cmp(..).then_with(..)` has it.
use mathlib.Core.Path.{◌≡◌}
use mathlib.Core.Logic.{◌⊎◌, inl, inr}
use mathlib.Core.Bool.{Bool, true, false}
use Prim.Native.String.{String}
use simon.Prelude.Tests.{if◌then◌else◌, Bool-cases, false-true}
use simon.Prelude.Text.{chars}
use simon.Prelude.StrOrder.{str_leb, str_ltb, str_leb_total, str_leb_trans, str_leb_antisym}

str_ltb-true : (s t : String) → str_ltb s t ≡ true → (str_leb t s ≡ false) × (str_leb s t ≡ true)
unfolding str_ltb
str_ltb-true s t h = elim (Bool-cases (str_leb t s)) [
  | inl e ↦ let q : false ≡ true = rw e at h in cc q
  | inr e ↦ (e, str_leb_total t s e)
]

str_ltb-false : (s t : String) → str_ltb s t ≡ false → str_leb t s ≡ true
unfolding str_ltb
str_ltb-false s t h = elim (Bool-cases (str_leb t s)) [
  | inl e ↦ e
  | inr e ↦ let q : true ≡ false = rw e at h in cc q
]

-- Lexicographic order of pairs of texts, as the comparison of the program has it.
abbrev pub para_leb : String → String → String → String → Bool
para_leb r j s k = if str_ltb r s then true else if str_ltb s r then false else str_leb j k

pub para_leb_lem :
    (r j s k : String)
    → para_leb r j s k ≡ true
    → (str_leb r s ≡ true) × ((str_leb s r ≡ false) ⊎ (str_leb j k ≡ true))
para_leb_lem r j s k h = elim (Bool-cases (str_ltb r s)) [
  | inl e ↦ let (p, q) = str_ltb-true r s e in (q, inl p)
  | inr e ↦ elim (Bool-cases (str_ltb s r)) [
    | inl f ↦ let q : false ≡ true = rw (e, f) at h in cc q
    | inr f ↦ (str_ltb-false s r f, inr (rw (e, f) at h))
  ]
]

pub para_leb_od :
    (r j s k : String)
    → str_leb r s ≡ true
    → (str_leb s r ≡ false) ⊎ (str_leb j k ≡ true)
    → para_leb r j s k ≡ true
unfolding str_ltb
para_leb_od r j s k p (inl q) = rw q
para_leb_od r j s k p (inr q) = elim (Bool-cases (str_leb s r)) [
  | inl e ↦ rw (e, p) q
  | inr e ↦ rw e
]

pub para_leb_trans :
    (r j s k u l : String)
    → para_leb r j s k ≡ true
    → para_leb s k u l ≡ true
    → para_leb r j u l ≡ true
para_leb_trans r j s k u l h h' =
    let (p, q) = para_leb_lem r j s k h in
    let (p', q') = para_leb_lem s k u l h' in
    let drugie : str_leb u r ≡ true → str_leb j l ≡ true = λ e. elim q [
      | inl n ↦ absurd (false-true n (str_leb_trans s u r p' e))
      | inr a ↦ elim q' [
        | inl n ↦ absurd (false-true n (str_leb_trans u r s e p))
        | inr c ↦ str_leb_trans j k l a c
      ]
    ] in
    para_leb_od r j u l (str_leb_trans r s u p p')
      (elim (Bool-cases (str_leb u r)) [ inl e ↦ inr (drugie e) | inr e ↦ inl e ])

pub para_leb_total : (r j s k : String) → para_leb r j s k ≡ false → para_leb s k r j ≡ true
para_leb_total r j s k h = elim (Bool-cases (str_ltb r s)) [
  | inl e ↦ let q : true ≡ false = rw e at h in cc q
  | inr e ↦ elim (Bool-cases (str_ltb s r)) [
    | inl f ↦ rw f
    | inr f ↦ let z : str_leb j k ≡ false = rw (e, f) at h in rw (f, e) (str_leb_total j k z)
  ]
]

pub para_leb_antisym :
    (r j s k : String)
    → para_leb r j s k ≡ true
    → para_leb s k r j ≡ true
    → (chars r ≡ chars s) × (chars j ≡ chars k)
para_leb_antisym r j s k h h' =
    let (p, q) = para_leb_lem r j s k h in
    let (p', q') = para_leb_lem s k r j h' in
    (str_leb_antisym r s p p', str_leb_antisym j k (drugie p' q) (drugie p q'))
  where
    drugie : {x y : Bool} → x ≡ true → (x ≡ false) ⊎ (y ≡ true) → y ≡ true
    drugie e (inl n) = cc
    drugie e (inr n) = n
