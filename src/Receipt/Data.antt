-- ===== src/Receipt/Data.antt =====
-- The data of receipt.rs, and the documents whose digests it takes.
use simon.Prelude.{ℕ, List, String, Option, none, some}
use simon.Prelude.Int.{ℤ, pos}
use simon.Kodowanie.{
  Dokument, Pola, Biblioteki, number, text, seq, object, struct, koniec, pole, liczby,
}
use simon.Crypto.{PublicKey, Signature, key_dokument, signature_dokument}

pub data Precision : Type 0 where
  bf16 fp16 fp32 fp8 fp4 int8 int4 unknown : Precision

-- `#[serde(rename_all = "lowercase")]`
unfoldable pub precision_nazwa : Precision → String
precision_nazwa bf16 = "bf16"
precision_nazwa fp16 = "fp16"
precision_nazwa fp32 = "fp32"
precision_nazwa fp8 = "fp8"
precision_nazwa fp4 = "fp4"
precision_nazwa int8 = "int8"
precision_nazwa int4 = "int4"
precision_nazwa unknown = "unknown"

pub record WiazaniaM1 : Type 0 where
  pub schema_version : ℕ
  pub receipt_level : ℕ
  pub exec_profile : String
  pub tokenizer_hash : String
  pub prompt_digest : String
  pub output_token_chain : String
  pub client_nonce : String
  pub sampling_params_hash : String
  pub rng_seed : ℕ

pub record Receipt : Type 0 where
  pub job_id : String
  pub node_id : String
  pub model_hash : String
  pub runtime : String
  pub precision : Precision
  pub activation_hash : String
  pub output_digest : String
  pub prompt_tokens : ℕ
  pub completion_tokens : ℕ
  pub started_at_us : ℕ
  pub finished_at_us : ℕ
  pub signer : PublicKey
  pub signature : Option Signature
  pub wiazania : Option WiazaniaM1

abbrev pub domena_odcisku_wyjscia : String
domena_odcisku_wyjscia = "SIMON/OUTPUT/v1"

abbrev pub domena_promptu : String
domena_promptu = "SIMON/PROMPT/v1"

abbrev pub domena_lancucha : String
domena_lancucha = "SIMON/CHAIN/v1"

abbrev pub domena_parametrow : String
domena_parametrow = "SIMON/SAMPLING/v1"

abbrev pub domena_tokenizera : String
domena_tokenizera = "SIMON/TOKENIZER/v1"

abbrev pub schema_version_m1 : ℕ
schema_version_m1 = 2

abbrev pub receipt_level_m1 : ℕ
receipt_level_m1 = 1

pub record SamplingCommitment : Type 0 where
  pub temperature_x1e6 : ℕ
  pub top_k : ℕ
  pub top_p_x1e6 : ℕ
  pub min_p_x1e6 : ℕ
  pub typical_p_x1e6 : ℕ
  pub repeat_penalty_x1e6 : ℕ
  pub frequency_penalty_x1e6 : ℕ
  pub presence_penalty_x1e6 : ℕ
  pub mirostat_version : ℕ
  pub mirostat_tau_x1e6 : ℕ
  pub mirostat_eta_x1e6 : ℕ

-- `SamplingCommitment::greedy`
abbrev pub greedy : SamplingCommitment
greedy = record {
  temperature_x1e6 = 0;
  top_k = 1;
  top_p_x1e6 = 1_000_000;
  min_p_x1e6 = 0;
  typical_p_x1e6 = 1_000_000;
  repeat_penalty_x1e6 = 1_000_000;
  frequency_penalty_x1e6 = 0;
  presence_penalty_x1e6 = 0;
  mirostat_version = 0;
  mirostat_tau_x1e6 = 5_000_000;
  mirostat_eta_x1e6 = 100_000;
}

-- The argument of `content_digest` in `odcisk_wyjscia`, and so for the functions below.
unfoldable pub wyjscie_dokument : String → String → Dokument
wyjscie_dokument job_id output = object (
    pole "domena" (text domena_odcisku_wyjscia)
      (pole "job_id" (text job_id) (pole "output" (text output) koniec)))

unfoldable pub prompt_dokument : String → String → List ℕ → Dokument
prompt_dokument tokenizer_hash client_nonce prompt_token_ids = object (
    pole "domena" (text domena_promptu) (
      pole "tokenizer_hash" (text tokenizer_hash)
        (pole "nonce" (text client_nonce) (pole "tokens" (seq (liczby prompt_token_ids)) koniec))))

unfoldable pub lancuch_dokument : String → List ℕ → Dokument
lancuch_dokument prompt_digest output_token_ids = object (
    pole "domena" (text domena_lancucha)
      (pole "prompt" (text prompt_digest) (pole "tokens" (seq (liczby output_token_ids)) koniec)))

unfoldable pub parametry_dokument : ℤ → ℤ → ℕ → ℤ → ℤ → Dokument
parametry_dokument temperature_milli top_p_milli top_k min_p_milli repeat_penalty_milli = object (
    pole "domena" (text domena_parametrow) (
      pole "temperature_milli" (number temperature_milli) (
        pole "top_p_milli" (number top_p_milli) (
          pole "top_k" (number (pos top_k)) (
            pole "min_p_milli" (number min_p_milli)
              (pole "repeat_penalty_milli" (number repeat_penalty_milli) koniec))))))

unfoldable pub sampling_dokument : SamplingCommitment → Dokument
sampling_dokument c = object (
    pole "domena" (text domena_parametrow) (
      pole "commitment"
        (struct (
          pole "temperature_x1e6" (number (pos c.temperature_x1e6)) (
            pole "top_k" (number (pos c.top_k)) (
              pole "top_p_x1e6" (number (pos c.top_p_x1e6)) (
                pole "min_p_x1e6" (number (pos c.min_p_x1e6)) (
                  pole "typical_p_x1e6" (number (pos c.typical_p_x1e6)) (
                    pole "repeat_penalty_x1e6" (number (pos c.repeat_penalty_x1e6)) (
                      pole "frequency_penalty_x1e6" (number (pos c.frequency_penalty_x1e6)) (
                        pole "presence_penalty_x1e6" (number (pos c.presence_penalty_x1e6)) (
                          pole "mirostat_version" (number (pos c.mirostat_version)) (
                            pole "mirostat_tau_x1e6" (number (pos c.mirostat_tau_x1e6)) (
                              pole "mirostat_eta_x1e6" (number (pos c.mirostat_eta_x1e6))
                                koniec))))))))))))
        koniec))

unfoldable pub wiazania_dokument : WiazaniaM1 → Dokument
wiazania_dokument w = struct (
    pole "schema_version" (number (pos w.schema_version)) (
      pole "receipt_level" (number (pos w.receipt_level)) (
        pole "exec_profile" (text w.exec_profile) (
          pole "tokenizer_hash" (text w.tokenizer_hash) (
            pole "prompt_digest" (text w.prompt_digest) (
              pole "output_token_chain" (text w.output_token_chain) (
                pole "client_nonce" (text w.client_nonce) (
                  pole "sampling_params_hash" (text w.sampling_params_hash)
                    (pole "rng_seed" (number (pos w.rng_seed)) koniec)))))))))

-- `#[serde(skip_serializing_if = "Option::is_none")]`
abbrev pub pole_opcjonalne {ℓ} : {A : Type ℓ} → String → (A → Dokument) → Option A → Pola → Pola
pole_opcjonalne nazwa f none reszta = reszta
pole_opcjonalne nazwa f (some a) reszta = pole nazwa (f a) reszta

-- The derived `Serialize` of `Receipt`.
unfoldable pub receipt_dokument : Biblioteki → Receipt → Dokument
unfolding precision_nazwa wiazania_dokument
receipt_dokument b r = struct (
    pole "job_id" (text r.job_id) (
      pole "node_id" (text r.node_id) (
        pole "model_hash" (text r.model_hash) (
          pole "runtime" (text r.runtime) (
            pole "precision" (text (precision_nazwa r.precision)) (
              pole "activation_hash" (text r.activation_hash) (
                pole "output_digest" (text r.output_digest) (
                  pole "prompt_tokens" (number (pos r.prompt_tokens)) (
                    pole "completion_tokens" (number (pos r.completion_tokens)) (
                      pole "started_at_us" (number (pos r.started_at_us)) (
                        pole "finished_at_us" (number (pos r.finished_at_us)) (
                          pole "signer" (key_dokument b r.signer) (
                            pole_opcjonalne "signature" (signature_dokument b) r.signature (
                              pole_opcjonalne "wiazania" wiazania_dokument r.wiazania
                                koniec))))))))))))))
