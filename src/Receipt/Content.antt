-- ===== src/Receipt/Content.antt =====
-- The digest of a receipt covers every field but the signature.
use simon.Prelude.{ℕ, ◌≡◌, ◌⊎◌, inl, inr, refl, ap, String, Option, none, some, if◌then◌else◌}
use native.Mathlib.Decide.{ℕ_discrete}
use simon.Prelude.Text.{str_eq}
use simon.Prelude.Int.{pos}
use simon.Kodowanie.{
  IsBytes, Dokument, Pola, Biblioteki, Prawa, Kolizja, koniec, pole, struct, text, number,
}
use simon.Crypto.{PublicKey, key_dokument}
use simon.Receipt.{
  Receipt, WiazaniaM1, Precision, bf16, fp16, fp32, fp8, fp4, int8, int4, unknown, digest,
  receipt_dokument, precision_nazwa, wiazania_dokument, pole_opcjonalne,
}
use simon.Receipt.Binding.{String-discrete}

Receipt-discrete : Discrete Receipt
Receipt-discrete = hlevel (ℕ_discrete, String-discrete)

-- The names of the precisions are different: they read back.
z_nazwy : String → Precision
z_nazwy s =
    if str_eq s "bf16"
    then bf16
    else if str_eq s "fp16"
    then fp16
    else if str_eq s "fp32"
    then fp32
    else if str_eq s "fp8"
    then fp8
    else if str_eq s "fp4"
    then fp4
    else if str_eq s "int8"
    then int8
    else if str_eq s "int4"
    then int4
    else unknown

z_nazwy-nazwa : (p : Precision) → z_nazwy (precision_nazwa p) ≡ p
unfolding z_nazwy precision_nazwa
z_nazwy-nazwa bf16 = refl
z_nazwy-nazwa fp16 = refl
z_nazwy-nazwa fp32 = refl
z_nazwy-nazwa fp8 = refl
z_nazwy-nazwa fp4 = refl
z_nazwy-nazwa int8 = refl
z_nazwy-nazwa int4 = refl
z_nazwy-nazwa unknown = refl

nazwa_injective : (p q : Precision) → precision_nazwa p ≡ precision_nazwa q → p ≡ q
nazwa_injective p q h = cc (z_nazwy-nazwa p, z_nazwy-nazwa q, ap z_nazwy h)

struct_injective : {p q : Pola} → struct p ≡ struct q → p ≡ q
struct_injective h = cc

pole_injective :
    {n m : String} {x y : Dokument} {p q : Pola} → pole n x p ≡ pole m y q → (x ≡ y) × (p ≡ q)
pole_injective h = (cc, cc)

text_injective : {s t : String} → text s ≡ text t → s ≡ t
text_injective h = cc

number_injective : {n m : ℕ} → number (pos n) ≡ number (pos m) → n ≡ m
number_injective h = cc

wiazania_injective :
    (o o' : Option WiazaniaM1)
    → pole_opcjonalne "wiazania" wiazania_dokument o koniec
      ≡ pole_opcjonalne "wiazania" wiazania_dokument o' koniec
    → o ≡ o'
unfolding wiazania_dokument
wiazania_injective none none h = refl
wiazania_injective none (some w) h = cc
wiazania_injective (some w) none h = cc
wiazania_injective (some w) (some w') h = cc

module _ (b : Biblioteki) (prawa : Prawa b) where
  klucz_injective :
      (k k' : PublicKey)
      → IsBytes k.bajty
      → IsBytes k'.bajty
      → b.hex_encode k.bajty ≡ b.hex_encode k'.bajty
      → k ≡ k'
  klucz_injective k k' p p' h =
      let e : k.bajty ≡ k'.bajty = cc (
        prawa.hex_decode-encode k.bajty p,
        prawa.hex_decode-encode k'.bajty p',
        ap b.hex_decode h,
      ) in
      ap (λ x. record { bajty = x }) e

  -- What the digest is taken of.
  abbrev pub zawartosc : Receipt → Receipt
  zawartosc r = record r { signature = none }

  receipt_dokument_injective :
      (r r' : Receipt)
      → IsBytes r.signer.bajty
      → IsBytes r'.signer.bajty
      → receipt_dokument b (zawartosc r) ≡ receipt_dokument b (zawartosc r')
      → zawartosc r ≡ zawartosc r'
  unfolding receipt_dokument key_dokument
  receipt_dokument_injective r r' p p' h =
      let t0 = struct_injective h in
      let (d1, t1) = pole_injective t0 in
      let (d2, t2) = pole_injective t1 in
      let (d3, t3) = pole_injective t2 in
      let (d4, t4) = pole_injective t3 in
      let (d5, t5) = pole_injective t4 in
      let (d6, t6) = pole_injective t5 in
      let (d7, t7) = pole_injective t6 in
      let (d8, t8) = pole_injective t7 in
      let (d9, t9) = pole_injective t8 in
      let (d10, t10) = pole_injective t9 in
      let (d11, t11) = pole_injective t10 in
      let (d12, t12) = pole_injective t11 in
      cc (
        text_injective d1,
        text_injective d2,
        text_injective d3,
        text_injective d4,
        nazwa_injective r.precision r'.precision (text_injective d5),
        text_injective d6,
        text_injective d7,
        number_injective d8,
        number_injective d9,
        number_injective d10,
        number_injective d11,
        klucz_injective r.signer r'.signer p p' (text_injective d12),
        wiazania_injective r.wiazania r'.wiazania t12,
      )

  -- Every field but the signature is covered: two receipts of one digest agree in all of them, the
  -- optional M1 bindings included, or their documents are a collision of the digest.
  pub digest_jednoznaczny :
      (r r' : Receipt)
      → IsBytes r.signer.bajty
      → IsBytes r'.signer.bajty
      → digest b r ≡ digest b r'
      → (zawartosc r ≡ zawartosc r')
        ⊎ Kolizja b (receipt_dokument b (zawartosc r)) (receipt_dokument b (zawartosc r'))
  unfolding digest
  digest_jednoznaczny r r' p p' h = elim (Receipt-discrete (zawartosc r) (zawartosc r')) [
    | yes e ↦ inl e
    | no n ↦ inr (λ q. n (receipt_dokument_injective r r' p p' q), h)
  ]
