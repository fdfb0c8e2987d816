-- ===== src/Cap/Conformance.antt =====
-- What `waliduj` of crates/simon-core/src/cap.rs accepts.
use simon.Prelude.{
  ◌≤◌, ◌≡◌, ◌↔◌, ◌⊎◌, inl, inr, refl, Bool, true, false, not, ◌&&◌, List, [], ◌∷◌, String, none,
  some, Result, ok, err, ◌>>◌, guard, arith, Option-cases, Result-cases, &&-eq-true, All, Any, any,
  any_iff, leb, length, err_ne_ok,
}
use simon.Prelude.Text.{str_eq, eq_iff, chars}
use simon.Prelude.Int.{ℤ, leb_ℤ, ◌≤ℤ◌}
use simon.Prelude.Dict.{Member, lookup}
use simon.Kodowanie.{
  Dokument, Pola, null, bool, number, float, text, seq, object, struct, koniec, pole, get_pole,
  as_str, as_i64, is_boolean,
}
use simon.Cap.{
  Ograniczenie, tekst, enum, zakres, logiczne, Parametr, Akcja, Sufit, Odmowa, waliduj_wartosc,
  waliduj_parametr, waliduj_parametry, zadeklarowany, bez_nadmiaru, jako_obiekt, waliduj,
}

-- The value that a constraint allows.
abbrev pub Spelnia : Ograniczenie → Dokument → Type 0
Spelnia (tekst n) v = (s : String) × (v ≡ text s) × (length (chars s) ≤ n)
Spelnia (enum ws) v = (s : String) × (v ≡ text s) × Member s ws
Spelnia (zakres lo hi) v = (n : ℤ) × (as_i64 v ≡ some n) × (lo ≤ℤ n) × (n ≤ℤ hi)
Spelnia logiczne v = (x : Bool) × (v ≡ bool x)

guard_iff : (t : Bool) (e : Odmowa) → (guard t e ≡ ok tt) ↔ (t ≡ true)
guard_iff true e = (λ h. refl, λ h. refl)
guard_iff false e = (λ h. cc, λ h. cc)

seq_iff : (m r : Result Odmowa (Unit {0})) → ((m >> r) ≡ ok tt) ↔ ((m ≡ ok tt) × (r ≡ ok tt))
seq_iff (ok _) r = (λ h. (refl, h), λ p. p.1)
seq_iff (err e) r = (λ h. cc, λ p. cc p.0)

as_str_text : (v : Dokument) (s : String) → as_str v ≡ some s → v ≡ text s
as_str_text null s h = cc
as_str_text (bool x) s h = cc
as_str_text (number x) s h = cc
as_str_text (float x) s h = cc
as_str_text (text x) s h = cc
as_str_text (seq x) s h = cc
as_str_text (object x) s h = cc
as_str_text (struct x) s h = cc

is_boolean_bool : (v : Dokument) → is_boolean v ≡ true → (x : Bool) × (v ≡ bool x)
is_boolean_bool null h = cc
is_boolean_bool (bool x) h = (x, refl)
is_boolean_bool (number x) h = cc
is_boolean_bool (float x) h = cc
is_boolean_bool (text x) h = cc
is_boolean_bool (seq x) h = cc
is_boolean_bool (object x) h = cc
is_boolean_bool (struct x) h = cc

leb_ℤ_iff : (x y : ℤ) → (leb_ℤ x y ≡ true) ↔ (x ≤ℤ y)
leb_ℤ_iff x y = ground arith

module _ (akcja nazwa : String) where
  wartosc-Spelnia :
      (og : Ograniczenie) (v : Dokument) → waliduj_wartosc akcja nazwa og v ≡ ok tt → Spelnia og v
  unfolding waliduj_wartosc
  wartosc-Spelnia (tekst n) v h = elim (Option-cases (as_str v)) [
    | inl e ↦ absurd (err_ne_ok (rw (e, waliduj_wartosc) at h))
    | inr (s, e) ↦
        let t = (guard_iff (leb (length (chars s)) n) _).0 (rw (e, waliduj_wartosc) at h) in
        (s, as_str_text v s e, ground (arith, t))
  ]
  wartosc-Spelnia (enum ws) v h = elim (Option-cases (as_str v)) [
    | inl e ↦ absurd (err_ne_ok (rw (e, waliduj_wartosc) at h))
    | inr (s, e) ↦
        let t = (guard_iff (any (str_eq s) ws) _).0 (rw (e, waliduj_wartosc) at h) in
        (s, as_str_text v s e, (any_iff (λ y. s ≡ y) (str_eq s) (λ y. eq_iff s y) ws).0 t)
  ]
  wartosc-Spelnia (zakres lo hi) v h = elim (Option-cases (as_i64 v)) [
    | inl e ↦ absurd (err_ne_ok (rw (e, waliduj_wartosc) at h))
    | inr (n, e) ↦
        let t = (guard_iff (leb_ℤ lo n && leb_ℤ n hi) _).0 (rw (e, waliduj_wartosc) at h) in
        let (p, q) = &&-eq-true (leb_ℤ lo n) (leb_ℤ n hi) t in
        (n, e, (leb_ℤ_iff lo n).0 p, (leb_ℤ_iff n hi).0 q)
  ]
  wartosc-Spelnia logiczne v h = is_boolean_bool v ((guard_iff (is_boolean v) _).0 h)

  Spelnia-wartosc :
      (og : Ograniczenie) (v : Dokument) → Spelnia og v → waliduj_wartosc akcja nazwa og v ≡ ok tt
  unfolding waliduj_wartosc
  Spelnia-wartosc (tekst n) v (s, e, l) =
      let t : leb (length (chars s)) n ≡ true = ground arith in rw e (rw t)
  Spelnia-wartosc (enum ws) v (s, e, m) =
      rw e (rw ((any_iff (λ y. s ≡ y) (str_eq s) (λ y. eq_iff s y) ws).1 m))
  Spelnia-wartosc (zakres lo hi) v (n, e, p, q) =
      rw (e, waliduj_wartosc, (leb_ℤ_iff lo n).1 p, (leb_ℤ_iff n hi).1 q)
  Spelnia-wartosc logiczne v (x, e) = rw e

-- A declared parameter is absent, where it may be, or has a value that its constraint allows.
abbrev pub ParametrOk : Pola → Parametr → Type 0
ParametrOk o p =
    ((get_pole p.nazwa o ≡ none) × (p.wymagany ≡ false))
    ⊎ ((v : Dokument) × (get_pole p.nazwa o ≡ some v) × Spelnia p.ograniczenie v)

parametr_iff :
    (akcja : String) (o : Pola) (p : Parametr)
    → (waliduj_parametr akcja o p ≡ ok tt) ↔ ParametrOk o p
unfolding waliduj_parametr
parametr_iff akcja o p = elim (Option-cases (get_pole p.nazwa o)) [
  | inl e ↦ (
    λ h. inl (
      e,
      nie_wymagany p.wymagany ((guard_iff (not p.wymagany) _).0 (rw (e, waliduj_parametr) at h)),
    ),
    λ q. elim q [ inl (_, w) ↦ rw (e, waliduj_parametr, w) | inr (v, f, _) ↦ cc (e, f) ],
  )
  | inr (v, e) ↦ (
    λ h. inr (v, e, wartosc-Spelnia akcja p.nazwa p.ograniczenie v (rw (e, waliduj_parametr) at h)),
    λ q. elim q [
      | inl (f, _) ↦ cc (e, f)
      | inr (u, f, s) ↦ rw (f, waliduj_parametr) (Spelnia-wartosc akcja p.nazwa p.ograniczenie u s)
    ],
  )
]
  where
    nie_wymagany : (w : Bool) → not w ≡ true → w ≡ false
    nie_wymagany true h = cc
    nie_wymagany false h = refl

parametry_iff :
    (akcja : String) (o : Pola) (ps : List Parametr)
    → (waliduj_parametry akcja o ps ≡ ok tt) ↔ All (ParametrOk o) ps
unfolding waliduj_parametry
parametry_iff akcja o [] = (λ h. tt, λ h. refl)
parametry_iff akcja o (p ∷ ps) =
    let s = seq_iff (waliduj_parametr akcja o p) (waliduj_parametry akcja o ps) in
    let a = parametr_iff akcja o p in
    let r = parametry_iff akcja o ps in
    (λ h. (a.0 (s.0 h).0, r.0 (s.0 h).1), λ q. s.1 (a.1 q.0, r.1 q.1))

-- Every key of the object is the name of a declared parameter.
abbrev pub BezNadmiaru : List Parametr → Pola → Type 0
BezNadmiaru ps koniec = Unit
BezNadmiaru ps (pole k v o) = Any (λ p. p.nazwa ≡ k) ps × BezNadmiaru ps o

nadmiar_iff :
    (akcja : String) (ps : List Parametr) (o : Pola)
    → (bez_nadmiaru akcja ps o ≡ ok tt) ↔ BezNadmiaru ps o
unfolding bez_nadmiaru
nadmiar_iff akcja ps koniec = (λ h. tt, λ h. refl)
nadmiar_iff akcja ps (pole k v o) =
    let s = seq_iff (guard (zadeklarowany ps k) _) (bez_nadmiaru akcja ps o) in
    let g = guard_iff (zadeklarowany ps k) _ in
    let a = any_iff (λ p. p.nazwa ≡ k) (λ p. str_eq p.nazwa k) (λ p. eq_iff p.nazwa k) ps in
    let r = nadmiar_iff akcja ps o in
    (λ h. (a.0 (g.0 (s.0 h).0), r.0 (s.0 h).1), λ q. s.1 (g.1 (a.1 q.0), r.1 q.1))

-- A proposal within the ceiling.
pub record Zgodna (sufit : Sufit) (akcja : String) (parametry : Dokument) : Type 0 where
  pub kontrakt : Akcja
  pub znana : lookup akcja sufit ≡ some kontrakt
  pub pola : Pola
  pub obiekt : ((parametry ≡ null) × (pola ≡ koniec)) ⊎ (parametry ≡ object pola)
  pub nic_ponad : BezNadmiaru kontrakt.parametry pola
  pub wszystkie : All (ParametrOk pola) kontrakt.parametry

jako_obiekt-ok :
    (akcja : String) (v : Dokument) (o : Pola)
    → jako_obiekt akcja v ≡ ok o
    → ((v ≡ null) × (o ≡ koniec)) ⊎ (v ≡ object o)
unfolding jako_obiekt
jako_obiekt-ok akcja null o h = inl (refl, cc)
jako_obiekt-ok akcja (bool x) o h = cc
jako_obiekt-ok akcja (number x) o h = cc
jako_obiekt-ok akcja (float x) o h = cc
jako_obiekt-ok akcja (text x) o h = cc
jako_obiekt-ok akcja (seq x) o h = cc
jako_obiekt-ok akcja (object x) o h = inr (cc)
jako_obiekt-ok akcja (struct x) o h = cc

module _ (sufit : Sufit) (akcja : String) (parametry : Dokument) where
  waliduj-Zgodna : waliduj sufit akcja parametry ≡ ok tt → Zgodna sufit akcja parametry
  unfolding waliduj
  waliduj-Zgodna h = elim (Option-cases (lookup akcja sufit)) [
    | inl e ↦ absurd (err_ne_ok (rw e at h))
    | inr (def, e) ↦ elim (Result-cases (jako_obiekt akcja parametry)) [
      | inr (x, f) ↦ absurd (err_ne_ok (rw (e, f) at h))
      | inl (o, f) ↦
          let (p, q) =
            (seq_iff (bez_nadmiaru akcja def.parametry o)
                (waliduj_parametry akcja o def.parametry)).0
              (rw (e, f) at h) in
          record {
            kontrakt = def;
            znana = e;
            pola = o;
            obiekt = jako_obiekt-ok akcja parametry o f;
            nic_ponad = (nadmiar_iff akcja def.parametry o).0 p;
            wszystkie = (parametry_iff akcja o def.parametry).0 q;
          }
    ]
  ]

  Zgodna-waliduj : Zgodna sufit akcja parametry → waliduj sufit akcja parametry ≡ ok tt
  unfolding waliduj jako_obiekt
  Zgodna-waliduj z =
      let p = (nadmiar_iff akcja z.kontrakt.parametry z.pola).1 z.nic_ponad in
      let q = (parametry_iff akcja z.pola z.kontrakt.parametry).1 z.wszystkie in
      elim z.obiekt [
        | inl (e, f) ↦ rw (z.znana, e) (rw (rw f at p) (rw f at q))
        | inr e ↦ rw (z.znana, e) (rw p q)
      ]

  -- A proposal of a model passes exactly when its action is one of the ceiling, its arguments are an
  -- object or missing, every argument is a declared parameter, and every declared parameter has a value
  -- that its constraint allows, or is absent and not required.
  pub waliduj_iff : (waliduj sufit akcja parametry ≡ ok tt) ↔ Zgodna sufit akcja parametry
  waliduj_iff = (waliduj-Zgodna, Zgodna-waliduj)
