-- ===== src/Wezel/Precyzja/Base.antt =====
-- `wykryj_precyzje` of crates/simon-cli/src/node.rs: when it falls back to the base format of the name.
use simon.Prelude.{
  ℕ, ◌++◌, if◌then◌else◌, ◌==◌, ◌≡◌, ◌≢◌, ◌↔◌, ◌∙◌, refl, Bool, true, false, not, ◌&&◌, ◌||◌, List,
  [], ◌∷◌, String, arith, any, is_empty, Bool-cases, Option-cases, inl, inr, ℕ, ltb, length,
}
use simon.Prelude.Dict.{is_some}
use simon.Receipt.{Precision, bf16, fp16, fp32, fp8, fp4, int8, int4, unknown}
use simon.Wezel.Precyzja.{
  precision_eq, Token, jest, starts_with, oznacza_fp4, oznacza_int8, oznacza_int4, bity_gguf,
  Znaczniki, krok, petla, dodaj, baza, format_bazowy, wybierz, tokeny, wykryj_precyzje,
  precision_eq, fp8_lub_fp4,
}

-- A marker of a quantisation, of whatever width.
unfoldable pub znacznik : Token → Bool
znacznik t =
    oznacza_fp4 t
    || (starts_with "fp8" t
        || (oznacza_int8 t
            || (oznacza_int4 t
                || (is_some (bity_gguf t)
                    || (jest t ("awq" ∷ "gptq" ∷ []) || jest t ("quant" ∷ "quantized" ∷ []))))))

-- No marker has been seen.
unfoldable czyste : Znaczniki → Bool
czyste s = is_empty s.jawne && (not s.nieobslugiwana && not s.slaby_int4)

append-not-empty : (p : Precision) (ps : List Precision) → is_empty (ps ++ p ∷ []) ≡ false
append-not-empty p [] = refl
append-not-empty p (q ∷ ps) = refl

any-not-empty : (p : Precision → Bool) (ps : List Precision) → any p ps ≡ true → is_empty ps ≡ false
any-not-empty p [] h = absurd cc
any-not-empty p (q ∷ ps) h = refl

dodaj-czyste : (p : Precision) (s : Znaczniki) → czyste (dodaj p s) ≡ (czyste s && false)
unfolding czyste
dodaj-czyste p s = elim (Bool-cases (any (precision_eq p) s.jawne)) [
  | inl e ↦ let q = any-not-empty (precision_eq p) s.jawne e in rw e (ground arith)
  | inr e ↦ let q = append-not-empty p s.jawne in rw e (ground arith)
]

-- The formats that are no quantisation
unfoldable pub bazowa : Precision → Bool
bazowa bf16 = true
bazowa fp16 = true
bazowa fp32 = true
bazowa _ = false

-- What a turn of the loop does with a token.
data Skutek (s : Znaczniki) (t : Token) : Znaczniki → Type 0 where
  dodany : (p : Precision) → bazowa p ≡ false → znacznik t ≡ true → Skutek s t (dodaj p s)
  odrzucony : znacznik t ≡ true → Skutek s t (record s { nieobslugiwana = true })
  zwykly :
      znacznik t ≡ (jest t ("awq" ∷ "gptq" ∷ []) || jest t ("quant" ∷ "quantized" ∷ []))
      → Skutek s t (record s {
        slaby_int4 = s.slaby_int4 || jest t ("awq" ∷ "gptq" ∷ []);
        nieobslugiwana = s.nieobslugiwana || jest t ("quant" ∷ "quantized" ∷ []);
      })

gguf-Skutek :
    (s : Znaczniki) (t : Token) (b : ℕ)
    → znacznik t ≡ true
    → Skutek s t (
        if b == 8
        then dodaj int8 s
        else if b == 4
        then dodaj int4 s
        else record s { nieobslugiwana = true })
unfolding bazowa
gguf-Skutek s t b z = elim (Bool-cases (b == 8)) [
  | inl e ↦ rw e (dodany int8 refl z)
  | inr e ↦ elim (Bool-cases (b == 4)) [
    | inl d ↦ rw (e, d) (dodany int4 refl z)
    | inr d ↦ rw (e, d) (odrzucony z)
  ]
]

krok-Skutek : (s : Znaczniki) (t : Token) → Skutek s t (krok s t)
unfolding krok znacznik bazowa
krok-Skutek s t = elim (Bool-cases (oznacza_fp4 t)) [
  | inl e ↦ rw (e, krok) (dodany fp4 refl (ground arith))
  | inr e1 ↦ elim (Bool-cases (starts_with "fp8" t)) [
    | inl e ↦ rw (e1, krok) (rw e (dodany fp8 refl (ground arith)))
    | inr e2 ↦ elim (Bool-cases (oznacza_int8 t)) [
      | inl e ↦ rw (e1, krok) (rw (e2, e) (dodany int8 refl (ground arith)))
      | inr e3 ↦ elim (Bool-cases (oznacza_int4 t)) [
        | inl e ↦ rw (e1, krok) (rw (e2, e3, e) (dodany int4 refl (ground arith)))
        | inr e4 ↦ elim (Option-cases (bity_gguf t)) [
          | inr (n, e) ↦
              rw (e1, krok)
                (rw (e2, e3, e4) (rw e (gguf-Skutek s t n (rw (e1, e2, e3, e4, e) refl))))
          | inl e ↦ rw (e1, krok) (rw (e2, e3, e4) (rw e (zwykly (rw (e1, e2, e3, e4, e) refl))))
        ]
      ]
    ]
  ]
]

czyste_lem :
    (j n s a q : Bool)
    → (j && (not (n || q) && not (s || a))) ≡ ((j && (not n && not s)) && not (a || q))
czyste_lem j n s a q = ground arith

skutek-czyste :
    (s : Znaczniki) (t : Token) (s' : Znaczniki)
    → Skutek s t s'
    → czyste s' ≡ (czyste s && not (znacznik t))
unfolding czyste
skutek-czyste s t _ (dodany p b z) = rw z (dodaj-czyste p s)
skutek-czyste s t _ (odrzucony z) = rw z (ground arith)
skutek-czyste s t _ (zwykly z) =
    rw z (czyste_lem (is_empty s.jawne) s.nieobslugiwana s.slaby_int4 _ _)

any-append :
    (p : Precision → Bool) (ps : List Precision) (x : Precision)
    → any p (ps ++ x ∷ []) ≡ (any p ps || p x)
any-append p [] x = ground arith
any-append p (y ∷ ps) x = ground (arith, any-append p ps x)

skutek-jawne :
    (s : Znaczniki) (t : Token) (s' : Znaczniki)
    → Skutek s t s'
    → any bazowa s.jawne ≡ false
    → any bazowa s'.jawne ≡ false
skutek-jawne s t _ (dodany p b z) h = elim (Bool-cases (any (precision_eq p) s.jawne)) [
  | inl e ↦ rw e h
  | inr e ↦ rw e (any-append bazowa s.jawne p ∙ rw (h, b) refl)
]
skutek-jawne s t _ (odrzucony z) h = h
skutek-jawne s t _ (zwykly z) h = h

petla_lem :
    (ts : List Token) (s : Znaczniki)
    → any bazowa s.jawne ≡ false
    → (czyste (petla s ts) ≡ (czyste s && not (any znacznik ts)))
      × (any bazowa (petla s ts).jawne ≡ false)
petla_lem [] s h = (ground arith, h)
petla_lem (t ∷ ts) s h =
    let k = krok-Skutek s t in
    let (p, q) = petla_lem ts (krok s t) (skutek-jawne s t (krok s t) k h) in
    let r = skutek-czyste s t (krok s t) k in (ground arith, q)

-- The format that the words of the name ask for, where no marker is there
abbrev pub z_nazwy : List Token → Precision
z_nazwy ts =
    format_bazowy (baza ts ("bf16" ∷ [])) (baza ts ("fp16" ∷ "f16" ∷ []))
      (baza ts ("fp32" ∷ "f32" ∷ []))

niebazowa : (q p : Precision) → bazowa q ≡ false → bazowa p ≡ true → q ≢ p
niebazowa q p h b e = cc

wybierz_lem :
    (j : List Precision) (n a : Bool) (ts : List Token) (p : Precision)
    → bazowa p ≡ true
    → any bazowa j ≡ false
    → (wybierz (record { jawne = j; nieobslugiwana = n; slaby_int4 = a }) ts ≡ p) ↔ (
        (czyste (record { jawne = j; nieobslugiwana = n; slaby_int4 = a }) ≡ true)
        × (z_nazwy ts ≡ p))
unfolding wybierz czyste bazowa
wybierz_lem [] true a ts p b h = (λ e. absurd (niebazowa unknown p refl b e), λ e. cc)
wybierz_lem [] false true ts p b h = (λ e. absurd (niebazowa int4 p refl b e), λ e. cc)
wybierz_lem [] false false ts p b h = (λ e. (refl, e), λ e. e.1)
wybierz_lem (x ∷ xs) n a ts p b h =
    elim (Bool-cases (n || (ltb 1 (length (x ∷ xs)) || (a && any fp8_lub_fp4 (x ∷ xs))))) [
      | inl e ↦ rw e (λ q. absurd (niebazowa unknown p refl b q), λ q. absurd cc)
      | inr e ↦ rw e (λ q. absurd (niebazowa x p (ground arith) b q), λ q. absurd cc)
    ]

nie_iff : (x y : Bool) → y ≡ not x → (y ≡ true) ↔ (x ≡ false)
nie_iff x y h = (λ p. ground arith, λ p. ground arith)

-- The name of a model is read as one of the formats that are no quantisation exactly if no token of it
-- marks a quantisation, of any width or of none, and its words name that format and no other.
pub wykryj_precyzje-bazowa :
    (m : String) (p : Precision)
    → bazowa p ≡ true
    → (wykryj_precyzje m ≡ p) ↔ ((any znacznik (tokeny m) ≡ false) × (z_nazwy (tokeny m) ≡ p))
unfolding wykryj_precyzje czyste
wykryj_precyzje-bazowa m p b =
    let ts = tokeny m in
    let (c, j) =
      petla_lem ts (record { jawne = []; nieobslugiwana = false; slaby_int4 = false }) refl in
    let s = petla (record { jawne = []; nieobslugiwana = false; slaby_int4 = false }) ts in
    let w = wybierz_lem s.jawne s.nieobslugiwana s.slaby_int4 ts p b j in
    let i = nie_iff (any znacznik ts) (czyste s) c in
    (λ e. let (q, r) = w.0 e in (i.0 q, r), λ e. w.1 (i.1 e.0, e.1))
