-- ===== src/Wezel/Liczenie.antt =====
-- crates/simon-cli/src/node.rs: the receipt that a node builds and signs, and `policz`. The call of the
-- backend and the clocks are arguments, and so are `serde_json`, `to_lowercase` and `tokenizuj_tekst`.
pub mod Signed
pub mod Answer
pub mod Accepted
use simon.Prelude.{
  ℕ, zero, suc, ◌%◌, ◌^◌, max, Bool, true, false, not, ◌&&◌, List, [], ◌∷◌, String, Option, none,
  some, Result, ok, err, if◌then◌else◌, leb, length, is_empty,
}
use simon.Prelude.Text.{str_append, str_is_empty, as_bytes}
use simon.Prelude.Trim.{trim}
use simon.Prelude.Dict.{is_some}
use simon.Kodowanie.{Biblioteki, Dokument, get, as_str, as_u64, SimonError}
use simon.Crypto.{Keypair, public, to_hex}
use simon.Receipt.{
  Receipt, Precision, bf16, fp16, fp32, fp8, fp4, int8, int4, unknown, WiazaniaM1, odcisk_wyjscia,
  odcisk_sampling, greedy, z_wiazaniem_m1, sign, odcisk_tokenizera,
}
use simon.Klient.Zlecenie.{polacz}
use simon.Prompt.{PromptRequest, PromptResponse, PromptReply, wynik}
use simon.Wezel.{blad}
use simon.Wezel.Precyzja.{wykryj_precyzje}
use simon.Wezel.Model.{indeks, pierwszy, unwrap_or, max_m1_tokens}
use simon.Wezel.Tresc.{cialo_zapytania, wyjscie}

-- What the functions below take from serde_json, from the language and from the backend's tokenizer.
pub record Otoczenie : Type 0 where
  -- `to_string` of a receipt, and `from_str` at a receipt and at a `Value`
  pub do_json : Receipt → Result String String
  pub z_json : String → Result String Receipt
  pub wartosc : String → Result String Dokument
  -- `Value::to_string`
  pub drukuj : Dokument → String
  pub to_lowercase : String → String
  pub tokenizuj : String → Option (List ℕ)

-- The `Debug` text of a `Precision`
abbrev pub precision_debug : Precision → String
precision_debug bf16 = "Bf16"
precision_debug fp16 = "Fp16"
precision_debug fp32 = "Fp32"
precision_debug fp8 = "Fp8"
precision_debug fp4 = "Fp4"
precision_debug int8 = "Int8"
precision_debug int4 = "Int4"
precision_debug unknown = "Unknown"

-- The tokenizer's hash, the tokens of the prompt, those of the output
abbrev pub DaneWiazania : Type 0
DaneWiazania = String × List ℕ × List ℕ

abbrev pub liczba_z : Dokument → String → ℕ
liczba_z v k = unwrap_or (as_u64 (indeks (indeks v "usage") k)) 0 % 2 ^ 32

-- `chars().take(n)`
abbrev pub take_chars : ℕ → String → String
take_chars zero s = ""
take_chars (suc n) String.[] = ""
take_chars (suc n) (String.◌∷◌ c s) = String.◌∷◌ c (take_chars n s)

-- What came of the call of the backend: no client, no answer, an answer that could not be read, or its
-- status and text.
pub data Http : Type 0 where
  brak_klienta niedostepny nieczytelny : String → Http
  odpowiedz : Bool → String → String → Http

module _ (b : Biblioteki) (o : Otoczenie) where
  -- The receipt before it is bound and signed
  unfoldable pub surowy_receipt :
      Keypair → String → String → PromptRequest → String → ℕ → ℕ → ℕ → ℕ → Receipt
  surowy_receipt klucz model_hash runtime req output prompt_tokens tokens_out started finished =
      record {
        job_id = req.job_id;
        node_id = to_hex b (public b klucz);
        model_hash = model_hash;
        runtime = runtime;
        precision = wykryj_precyzje model_hash;
        activation_hash = "toploc:NIE_POLICZONY";
        output_digest = elim (odcisk_wyjscia b req.job_id output) [
          | ok d ↦ d
          | err _ ↦ "digest-blad"
        ];
        prompt_tokens = prompt_tokens;
        completion_tokens = tokens_out;
        started_at_us = started;
        finished_at_us = finished;
        signer = public b klucz;
        signature = none;
        wiazania = none;
      }

  -- `if let Some((tok_hash, p_ids, o_ids)) = m1_dane { .. }`
  unfoldable pub zwiaz : Receipt → String → Option DaneWiazania → Receipt
  zwiaz receipt nonce none = receipt
  zwiaz receipt nonce (some (tok_hash, p_ids, o_ids)) = elim (odcisk_sampling b greedy) [
    | err _ ↦ receipt
    | ok params_hash ↦
        let exec_profile =
          o.to_lowercase
            (polacz (receipt.runtime ∷ "/" ∷ precision_debug receipt.precision ∷ [])) in
        elim (z_wiazaniem_m1 b receipt tok_hash nonce p_ids o_ids params_hash 0 exec_profile) [
          | ok r ↦ r
          | err _ ↦ receipt
        ]
  ]

  unfoldable pub zbuduj_podpisany_receipt :
      Keypair
      → String
      → String
      → PromptRequest
      → String
      → ℕ
      → ℕ
      → ℕ
      → ℕ
      → Option DaneWiazania
      → String
  zbuduj_podpisany_receipt klucz model_hash runtime req output prompt_tokens tokens_out started
        finished m1_dane =
      elim (sign b
        (zwiaz
          (surowy_receipt klucz model_hash runtime req output prompt_tokens tokens_out started
            finished)
          req.nonce m1_dane)
        klucz) [
          | ok podpisany ↦ elim (o.do_json podpisany) [
            | ok s ↦ s
            | err e ↦ polacz ("{\"blad\":\"serializacja: " ∷ e ∷ "\"}" ∷ [])
          ]
          | err _ ↦ "{}"
        ]

  -- Tokens that the node may bind.
  abbrev pub w_limicie : List ℕ → Bool
  w_limicie ids = not (is_empty ids) && leb (length ids) max_m1_tokens

  -- `m1_dane`
  unfoldable pub m1_dane : String → PromptRequest → String → Option DaneWiazania
  m1_dane model_hash req output =
      if not req.chat && not (str_is_empty (trim req.nonce))
      then zlozone (o.tokenizuj req.prompt) (o.tokenizuj output)
      else none
    where
      zlozone : Option (List ℕ) → Option (List ℕ) → Option DaneWiazania
      zlozone (some p_ids) (some o_ids) =
          if w_limicie p_ids && w_limicie o_ids
          then some (odcisk_tokenizera b (as_bytes model_hash), p_ids, o_ids)
          else none
      zlozone _ _ = none

  -- `receipt_ma_m1`
  abbrev pub ma_m1 : String → Bool
  ma_m1 receipt = elim (o.z_json receipt) [ ok r ↦ is_some r.wiazania | err _ ↦ false ]

  -- The answer with the data of the binding that it tells
  abbrev pub odpowiedz_z :
      PromptRequest → String → String → ℕ → ℕ → Option DaneWiazania → PromptResponse
  odpowiedz_z req output receipt tokens_out ttft_ms jawne = record {
    v = 1;
    order_id = req.order_id;
    job_id = req.job_id;
    output = output;
    receipt = receipt;
    tokens_out = tokens_out;
    ttft_ms = ttft_ms;
    gen_ms = ttft_ms;
    tokenizer_hash = elim jawne [ some (th, p, q) ↦ some th | none ↦ none ];
    prompt_token_ids = elim jawne [ some (th, p, q) ↦ some p | none ↦ none ];
    output_token_ids = elim jawne [ some (th, p, q) ↦ some q | none ↦ none ];
  }

  -- The end of `policz`, from the data of the binding on.
  unfoldable pub zloz_odpowiedz :
      PromptRequest → String → String → ℕ → ℕ → Option DaneWiazania → PromptReply
  zloz_odpowiedz req output receipt tokens_out ttft_ms dane =
      wynik
        (odpowiedz_z req output receipt tokens_out ttft_ms (if ma_m1 receipt then dane else none))

  -- `policz` at the JSON of the backend's answer
  unfoldable pub policz_json :
      String → String → Keypair → PromptRequest → Dokument → ℕ → ℕ → ℕ → PromptReply
  policz_json model_hash runtime klucz req v started finished ttft_ms =
      let (output, tresc_pusta) = wyjscie o.drukuj v req.chat in
      if tresc_pusta
      then blad req "pusta_tresc" (
          polacz (
            "model nie zwrócił treści odpowiedzi (finish_reason="
            ∷ unwrap_or (as_str (indeks (pierwszy (indeks v "choices")) "finish_reason")) "nieznany"
            ∷ "); limit tokenów mógł zostać zużyty na wewnętrzne rozumowanie (reasoning), które nie jest odpowiedzią"
            ∷ []))
      else (let tokens_out = liczba_z v "completion_tokens" in
          let prompt_tokens = liczba_z v "prompt_tokens" in
          let dane = m1_dane model_hash req output in
          let receipt =
            zbuduj_podpisany_receipt klucz model_hash runtime req output prompt_tokens tokens_out
              started finished dane in
          zloz_odpowiedz req output receipt tokens_out ttft_ms dane)

  -- `policz` after the call of the backend
  unfoldable pub po_wywolaniu :
      String → String → String → Keypair → PromptRequest → ℕ → ℕ → ℕ → Http → PromptReply
  po_wywolaniu url model_hash runtime klucz req started teraz ttft_ms (brak_klienta e) =
      blad req "client" (str_append "nie mogę zbudować klienta HTTP: " e)
  po_wywolaniu url model_hash runtime klucz req started teraz ttft_ms (niedostepny e) =
      blad req "model_niedostepny" (polacz (url ∷ ": " ∷ e ∷ " (czy vLLM działa?)" ∷ []))
  po_wywolaniu url model_hash runtime klucz req started teraz ttft_ms (nieczytelny e) =
      blad req "odczyt" (str_append "nie mogę odczytać odpowiedzi: " e)
  po_wywolaniu url model_hash runtime klucz req started teraz ttft_ms
        (odpowiedz sukces status tekst) =
      if not sukces
      then blad req "model_blad" (polacz ("HTTP " ∷ status ∷ ": " ∷ take_chars 300 tekst ∷ []))
      else elim (o.wartosc tekst) [
        | err e ↦ blad req "json" (str_append "zła odpowiedź modelu: " e)
        | ok v ↦ policz_json model_hash runtime klucz req v started (max teraz started) ttft_ms
      ]

  -- `policz`: the call of the backend at its body, the two times of the clock, the time that passed.
  unfoldable pub policz :
      String
      → String
      → String
      → Keypair
      → (Dokument → Http)
      → ℕ
      → ℕ
      → ℕ
      → PromptRequest
      → PromptReply
  unfolding po_wywolaniu
  policz url model_hash runtime klucz wywolaj started teraz ttft_ms req =
      elim (cialo_zapytania o.wartosc model_hash req) [
        | err e ↦ blad req "zle_zlecenie" e
        | ok body ↦
            po_wywolaniu url model_hash runtime klucz req started teraz ttft_ms (wywolaj body)
      ]
