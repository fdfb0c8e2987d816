-- ===== src/Wezel/Codec.antt =====
-- A reader and writer of receipts that tests can run in place of serde_json: each value is written in front
-- of a text, and read back from there. A number is written in unary.
use Prim.Native.Char.{code}
use simon.Prelude.{
  ℕ, zero, suc, ◌≡◌, refl, ap, List, [], ◌∷◌, String, Option, none, some, Result, ok, err,
  if◌then◌else◌, ◌==◌, length,
}
use simon.Crypto.{PublicKey, Signature}
use simon.Receipt.{Receipt, WiazaniaM1, Precision, bf16, fp16, fp32, fp8, fp4, int8, int4, unknown}

pub record Codec (A : Type 0) : Type 0 where
  pub zapisz : A → String → String
  pub odczytaj : String → Option (A × String)
  pub powrot : (a : A) (s : String) → odczytaj (zapisz a s) ≡ some (a, s)

abbrev a_przed : String → String
a_przed s = String.◌∷◌ "a" s

abbrev b_przed : String → String
b_przed s = String.◌∷◌ "b" s

-- Reading on a text is structural in the text.
unfoldable odczytaj_nat : String → Option (ℕ × String)
odczytaj_nat String.[] = none
odczytaj_nat (String.◌∷◌ c s) =
    let reszta = odczytaj_nat s in
    if code c == 97
    then elim reszta [ some (n, t) ↦ some (suc n, t) | none ↦ none ]
    else if code c == 98
    then some (0, s)
    else none

abbrev zapisz_nat : ℕ → String → String
zapisz_nat zero s = b_przed s
zapisz_nat (suc n) s = a_przed (zapisz_nat n s)

powrot_nat : (n : ℕ) (s : String) → odczytaj_nat (zapisz_nat n s) ≡ some (n, s)
unfolding odczytaj_nat
powrot_nat zero s = refl
powrot_nat (suc n) s = rw (powrot_nat n s) refl

abbrev nat : Codec ℕ
nat = record { zapisz = zapisz_nat; odczytaj = odczytaj_nat; powrot = powrot_nat }

module _ {A : Type 0} (ca : Codec A) where
  abbrev zapisz_elementy : List A → String → String
  zapisz_elementy [] s = s
  zapisz_elementy (x ∷ xs) s = ca.zapisz x (zapisz_elementy xs s)

  unfoldable odczytaj_elementy : ℕ → String → Option (List A × String)
  odczytaj_elementy zero s = some ([], s)
  odczytaj_elementy (suc n) s = elim (ca.odczytaj s) [
    | none ↦ none
    | some (x, t) ↦ elim (odczytaj_elementy n t) [ none ↦ none | some (xs, u) ↦ some (x ∷ xs, u) ]
  ]

  powrot_elementow :
      (xs : List A) (s : String)
      → odczytaj_elementy (length xs) (zapisz_elementy xs s) ≡ some (xs, s)
  unfolding odczytaj_elementy
  powrot_elementow [] s = refl
  powrot_elementow (x ∷ xs) s =
      rw (ca.powrot x (zapisz_elementy xs s)) (rw (powrot_elementow xs s) refl)

  abbrev odczytaj_liste : String → Option (List A × String)
  odczytaj_liste s = elim (odczytaj_nat s) [ none ↦ none | some (n, t) ↦ odczytaj_elementy n t ]

  powrot_listy :
      (xs : List A) (s : String)
      → odczytaj_liste (zapisz_nat (length xs) (zapisz_elementy xs s)) ≡ some (xs, s)
  powrot_listy xs s =
      rw (powrot_nat (length xs) (zapisz_elementy xs s), odczytaj_liste) (powrot_elementow xs s)

  abbrev lista : Codec (List A)
  lista = record {
    zapisz = λ xs s. zapisz_nat (length xs) (zapisz_elementy xs s);
    odczytaj = odczytaj_liste;
    powrot = powrot_listy;
  }

module _ {A B : Type 0} (ca : Codec A) (cb : Codec B) where
  abbrev odczytaj_pare : String → Option ((A × B) × String)
  odczytaj_pare s = elim (ca.odczytaj s) [
    | none ↦ none
    | some (a, t) ↦ elim (cb.odczytaj t) [ none ↦ none | some (b, u) ↦ some ((a, b), u) ]
  ]

  powrot_pary :
      (p : A × B) (s : String) → odczytaj_pare (ca.zapisz p.0 (cb.zapisz p.1 s)) ≡ some (p, s)
  powrot_pary (a, b) s = rw (ca.powrot a (cb.zapisz b s), odczytaj_pare) (rw (cb.powrot b s) refl)

  abbrev para : Codec (A × B)
  para = record {
    zapisz = λ p s. ca.zapisz p.0 (cb.zapisz p.1 s);
    odczytaj = odczytaj_pare;
    powrot = powrot_pary;
  }

module _ {A B : Type 0} (ca : Codec A) where
  -- Values of another type, as values of this one.
  module _ (f : B → A) (g : A → B) (h : (b : B) → g (f b) ≡ b) where
    abbrev odczytaj_przez : String → Option (B × String)
    odczytaj_przez s = elim (ca.odczytaj s) [ none ↦ none | some (a, t) ↦ some (g a, t) ]

    powrot_przez : (b : B) (s : String) → odczytaj_przez (ca.zapisz (f b) s) ≡ some (b, s)
    powrot_przez b s = rw (ca.powrot (f b) s, odczytaj_przez) (ap (λ x. some (x, s)) (h b))

    abbrev przez : Codec B
    przez = record {
      zapisz = λ b s. ca.zapisz (f b) s;
      odczytaj = odczytaj_przez;
      powrot = powrot_przez;
    }

module _ {A : Type 0} (ca : Codec A) where
  abbrev jako_lista : Option A → List A
  jako_lista none = []
  jako_lista (some a) = a ∷ []

  abbrev z_listy : List A → Option A
  z_listy [] = none
  z_listy (x ∷ xs) = some x

  z_listy-jako_lista : (o : Option A) → z_listy (jako_lista o) ≡ o
  z_listy-jako_lista none = refl
  z_listy-jako_lista (some a) = refl

  abbrev opcja : Codec (Option A)
  opcja = przez (lista ca) jako_lista z_listy z_listy-jako_lista

abbrev doklej : String → String → String
doklej String.[] s = s
doklej (String.◌∷◌ c t) s = String.◌∷◌ c (doklej t s)

abbrev ile_znakow : String → ℕ
ile_znakow String.[] = 0
ile_znakow (String.◌∷◌ c t) = suc (ile_znakow t)

abbrev odetnij : ℕ → String → Option (String × String)
odetnij zero s = some (String.[], s)
odetnij (suc n) String.[] = none
odetnij (suc n) (String.◌∷◌ c s) = elim (odetnij n s) [
  | none ↦ none
  | some (t, u) ↦ some (String.◌∷◌ c t, u)
]

odetnij-doklej : (t s : String) → odetnij (ile_znakow t) (doklej t s) ≡ some (t, s)
odetnij-doklej String.[] s = refl
odetnij-doklej (String.◌∷◌ c t) s = rw (odetnij-doklej t s) refl

abbrev odczytaj_tekst : String → Option (String × String)
odczytaj_tekst s = elim (odczytaj_nat s) [ none ↦ none | some (n, t) ↦ odetnij n t ]

powrot_tekstu :
    (t s : String) → odczytaj_tekst (zapisz_nat (ile_znakow t) (doklej t s)) ≡ some (t, s)
powrot_tekstu t s = rw (powrot_nat (ile_znakow t) (doklej t s), odczytaj_tekst) (odetnij-doklej t s)

abbrev tekst : Codec String
tekst = record {
  zapisz = λ t s. zapisz_nat (ile_znakow t) (doklej t s);
  odczytaj = odczytaj_tekst;
  powrot = powrot_tekstu;
}

numer : Precision → ℕ
numer bf16 = 0
numer fp16 = 1
numer fp32 = 2
numer fp8 = 3
numer fp4 = 4
numer int8 = 5
numer int4 = 6
numer unknown = 7

precyzja_o_numerze : ℕ → Precision
precyzja_o_numerze n =
    if n == 0
    then bf16
    else if n == 1
    then fp16
    else if n == 2
    then fp32
    else if n == 3
    then fp8
    else if n == 4
    then fp4
    else if n == 5
    then int8
    else if n == 6
    then int4
    else unknown

precyzja_o_numerze-numer : (p : Precision) → precyzja_o_numerze (numer p) ≡ p
unfolding numer precyzja_o_numerze
precyzja_o_numerze-numer bf16 = refl
precyzja_o_numerze-numer fp16 = refl
precyzja_o_numerze-numer fp32 = refl
precyzja_o_numerze-numer fp8 = refl
precyzja_o_numerze-numer fp4 = refl
precyzja_o_numerze-numer int8 = refl
precyzja_o_numerze-numer int4 = refl
precyzja_o_numerze-numer unknown = refl

abbrev precyzja : Codec Precision
precyzja = przez nat numer precyzja_o_numerze precyzja_o_numerze-numer

abbrev klucz : Codec PublicKey
klucz = przez (lista nat) (λ k. k.bajty) (λ b. record { bajty = b }) (λ k. refl)

abbrev podpis : Codec Signature
podpis = przez (lista nat) (λ k. k.bajty) (λ b. record { bajty = b }) (λ k. refl)

abbrev wiazania : Codec WiazaniaM1
wiazania =
    przez
      (para nat (
        para nat (para tekst (para tekst (para tekst (para tekst (para tekst (para tekst nat))))))))
      (λ w. (
        w.schema_version,
        (
          w.receipt_level,
          (
            w.exec_profile,
            (
              w.tokenizer_hash,
              (
                w.prompt_digest,
                (w.output_token_chain, (w.client_nonce, (w.sampling_params_hash, w.rng_seed))),
              ),
            ),
          ),
        ),
      ))
      (λ (a, (b, (c, (d, (e, (f, (g, (h, i)))))))). record {
        schema_version = a;
        receipt_level = b;
        exec_profile = c;
        tokenizer_hash = d;
        prompt_digest = e;
        output_token_chain = f;
        client_nonce = g;
        sampling_params_hash = h;
        rng_seed = i;
      })
      (λ w. refl)

abbrev receipt : Codec Receipt
receipt =
    przez
      (para (para tekst (para tekst (para tekst (para tekst (para precyzja (para tekst tekst)))))) (
        para (para nat (para nat (para nat nat)))
          (para klucz (para (opcja podpis) (opcja wiazania)))))
      (λ r. (
        (
          r.job_id,
          (
            r.node_id,
            (r.model_hash, (r.runtime, (r.precision, (r.activation_hash, r.output_digest)))),
          ),
        ),
        (
          (r.prompt_tokens, (r.completion_tokens, (r.started_at_us, r.finished_at_us))),
          (r.signer, (r.signature, r.wiazania)),
        ),
      ))
      (λ ((a, (b, (c, (d, (e, (f, g)))))), ((h, (i, (j, k))), (l, (m, n)))). record {
        job_id = a;
        node_id = b;
        model_hash = c;
        runtime = d;
        precision = e;
        activation_hash = f;
        output_digest = g;
        prompt_tokens = h;
        completion_tokens = i;
        started_at_us = j;
        finished_at_us = k;
        signer = l;
        signature = m;
        wiazania = n;
      })
      (λ r. refl)

-- In place of `serde_json::to_string` and `from_str` at a receipt
pub do_json : Receipt → Result String String
do_json r = ok (receipt.zapisz r "")

pub z_json : String → Result String Receipt
z_json s = elim (receipt.odczytaj s) [ none ↦ err "eof" | some (r, t) ↦ ok r ]

pub z_json-do_json : (r : Receipt) → (s : String) × (do_json r ≡ ok s) × (z_json s ≡ ok r)
unfolding do_json z_json
z_json-do_json r = (receipt.zapisz r "", refl, rw (receipt.powrot r "", z_json) refl)
