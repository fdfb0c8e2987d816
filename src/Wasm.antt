-- ===== src/Wasm.antt =====
-- crates/simon-verify-wasm/src/lib.rs: the verifier that a browser calls. The parsers of serde_json at the
-- types that are read are an argument.
pub mod Verdict
mod Tests
use simon.Prelude.{
  ℕ, Bool, true, false, not, ◌&&◌, List, String, Option, none, some, Result, ok, err, is_ok,
  if◌then◌else◌,
}
use simon.Prelude.Text.{str_eq, str_append}
use simon.Prelude.Trim.{trim}
use simon.Prelude.Float.{Float}
use simon.Prelude.Int.{pos}
use simon.Kodowanie.{
  Dokument, Biblioteki, null, bool, number, text, object, struct, koniec, pole, SimonError,
  komunikat,
}
use simon.Crypto.{to_hex}
use simon.Receipt.{Receipt, verify_self, zgodny_z_wyjsciem, zweryfikuj_m1, poziom}
use simon.Receipt
use simon.Klient.Zlecenie.{Format}
use simon.M3
use simon.M3.{Polityka, Audyt, ocena_json}

pub record Werdykt : Type 0 where
  pub parsuje_sie : Bool
  pub podpis_ok : Bool
  pub tresc_ok : Option Bool
  pub job_id_ok : Option Bool
  pub model_ok : Option Bool
  pub jest_ok : Bool
  pub job_id : Option String
  pub node_id : Option String
  pub model_hash : Option String
  pub runtime : Option String
  pub signer : Option String
  pub output_digest : Option String
  pub powod : Option String

unfoldable pub odrzucony : String → Werdykt
odrzucony powod = record {
  parsuje_sie = false;
  podpis_ok = false;
  tresc_ok = none;
  job_id_ok = none;
  model_ok = none;
  jest_ok = false;
  job_id = none;
  node_id = none;
  model_hash = none;
  runtime = none;
  signer = none;
  output_digest = none;
  powod = some powod;
}

-- An `Option` field, `null` where it is `None`.
abbrev lub_null {ℓ} : {A : Type ℓ} → (A → Dokument) → Option A → Dokument
lub_null f none = null
lub_null f (some a) = f a

unfoldable pub werdykt_dokument : Werdykt → Dokument
werdykt_dokument w = struct (
    pole "parsuje_sie" (bool w.parsuje_sie) (
      pole "podpis_ok" (bool w.podpis_ok) (
        pole "tresc_ok" (lub_null bool w.tresc_ok) (
          pole "job_id_ok" (lub_null bool w.job_id_ok) (
            pole "model_ok" (lub_null bool w.model_ok) (
              pole "ok" (bool w.jest_ok) (
                pole "job_id" (lub_null text w.job_id) (
                  pole "node_id" (lub_null text w.node_id) (
                    pole "model_hash" (lub_null text w.model_hash) (
                      pole "runtime" (lub_null text w.runtime) (
                        pole "signer" (lub_null text w.signer) (
                          pole "output_digest" (lub_null text w.output_digest)
                            (pole "powod" (lub_null text w.powod) koniec)))))))))))))

-- `x != Some(false)`
unfoldable pub nie_falsz : Option Bool → Bool
nie_falsz (some false) = false
nie_falsz _ = true

-- `as_deref().map(|x| ..)`
abbrev sprawdz : Option String → (String → Bool) → Option Bool
sprawdz none f = none
sprawdz (some x) f = some (f x)

-- `serde_json::from_str` at a receipt and at a list of tokens.
pub record Parsery : Type 0 where
  pub receipt : String → Result String Receipt
  pub tokeny : String → Result String (List ℕ)

module _ (b : Biblioteki) where
  unfoldable pub jako_json : Werdykt → String
  jako_json w = elim (b.to_string (werdykt_dokument w)) [
    | ok s ↦ s
    | err _ ↦ "{\"parsuje_sie\":false,\"podpis_ok\":false,\"ok\":false,\"powod\":\"serializacja\"}"
  ]

  -- The verdict on a receipt that parses.
  unfoldable pub werdykt : Receipt → Option String → Option String → Option String → Werdykt
  unfolding nie_falsz
  werdykt r output oczekiwany_job_id oczekiwany_model =
      let podpis_ok = is_ok (verify_self b r) in
      let tresc_ok = sprawdz output (zgodny_z_wyjsciem b r) in
      let job_id_ok = sprawdz oczekiwany_job_id (λ j. str_eq j r.job_id) in
      let model_ok = sprawdz oczekiwany_model (λ m. str_eq m r.model_hash) in
      let jest_ok =
        podpis_ok && (nie_falsz tresc_ok && (nie_falsz job_id_ok && nie_falsz model_ok)) in
      record {
        parsuje_sie = true;
        podpis_ok = podpis_ok;
        tresc_ok = tresc_ok;
        job_id_ok = job_id_ok;
        model_ok = model_ok;
        jest_ok = jest_ok;
        job_id = some r.job_id;
        node_id = some r.node_id;
        model_hash = some r.model_hash;
        runtime = some r.runtime;
        signer = some (to_hex b r.signer);
        output_digest = some r.output_digest;
        powod =
            if jest_ok
            then none
            else if not podpis_ok
            then some "Ed25519 signature does not match the receipt digest"
            else if not (nie_falsz tresc_ok)
            then some "output digest (job_id + output) does not match the receipt"
            else some "not all checks passed";
      }

  module _ (p : Parsery) where
    unfoldable pub werdykt_json : String → Option String → Option String → Option String → Werdykt
    unfolding werdykt
    werdykt_json receipt_json output oczekiwany_job_id oczekiwany_model =
        elim (p.receipt (trim receipt_json)) [
          | err e ↦ odrzucony (str_append "nieparsowalny receipt: " e)
          | ok r ↦ werdykt r output oczekiwany_job_id oczekiwany_model
        ]

    unfoldable pub weryfikuj : String → Option String → Option String → Option String → String
    unfolding werdykt_json jako_json
    weryfikuj receipt_json output oczekiwany_job_id oczekiwany_model =
        jako_json (werdykt_json receipt_json output oczekiwany_job_id oczekiwany_model)

    -- The object of `json!` with which `weryfikuj_m1` answers, its keys in their order.
    abbrev pub odpowiedz_m1 : Bool → ℕ → Option String → Dokument
    odpowiedz_m1 jest_ok level powod = object (
        pole "ok" (bool jest_ok)
          (pole "powod" (lub_null text powod) (pole "poziom" (number (pos level)) koniec)))

    -- `weryfikuj_m1`, with the value that it prints as its answer.
    unfoldable pub weryfikuj_m1 : String → String → String → String → String → Dokument
    weryfikuj_m1 receipt_json tokenizer_hash client_nonce prompt_json output_json =
        elim (p.receipt (trim receipt_json)) [
          | err e ↦ odpowiedz_m1 false 0 (some (str_append "nieparsowalny receipt: " e))
          | ok r ↦ elim (p.tokeny prompt_json) [
            | err e ↦ odpowiedz_m1 false (poziom r) (some (str_append "prompt_token_ids_json: " e))
            | ok prompt ↦ elim (p.tokeny output_json) [
              | err e ↦
                  odpowiedz_m1 false (poziom r) (some (str_append "output_token_ids_json: " e))
              | ok output ↦ elim (zweryfikuj_m1 b r tokenizer_hash client_nonce prompt output) [
                | ok _ ↦ odpowiedz_m1 true (poziom r) none
                | err e ↦ odpowiedz_m1 false (poziom r) (some (komunikat e))
              ]
            ]
          ]
        ]

  -- `odcisk_wyjscia`
  unfoldable pub odcisk_wyjscia_opcja : String → String → Option String
  odcisk_wyjscia_opcja job_id output = elim (Receipt.odcisk_wyjscia b job_id output) [
    | ok d ↦ some d
    | err _ ↦ none
  ]
