-- ===== src/Receipt.antt =====
-- crates/simon-core/src/receipt.rs: the execution receipt, its digests, its signature and the gates
-- of its verification.
mod Data
pub mod Gates
pub mod BindingGate
pub mod Signing
pub mod Binding
pub mod Content
mod Tests
unfoldable pub use Data.*
use simon.Prelude.{
  ℕ, Bool, true, false, not, List, [], ◌∷◌, ◌++◌, String, Option, none, some, Result, ok, err,
  ◌>>=◌, ◌>>◌, guard, ok_or, if◌then◌else◌, ltb, ◌==◌,
}
use simon.Prelude.Text.{str_eq, str_append, as_bytes}
use simon.Prelude.Int.{ℤ}
use simon.Kodowanie.{
  Bytes, Biblioteki, SimonError, bad_signature, receipt_mismatch, unregistered_key, content_digest,
}
use simon.Crypto.{PublicKey, Signature, Keypair, key_eq, public, sign_digest, verify_digest}

-- A test that passes, or the error.
abbrev pub wymagaj : Bool → SimonError → Result SimonError (Unit {0})
wymagaj = guard

-- `format!("job_id: receipt={} expected={}", ..)`, and so for the node
abbrev pub niezgodnosc : String → String → String → SimonError
niezgodnosc pole jest oczekiwano = receipt_mismatch (
    str_append pole
      (str_append ": receipt=" (str_append jest (str_append " expected=" oczekiwano))))

module _ (b : Biblioteki) where
  unfoldable pub odcisk_wyjscia : String → String → Result SimonError String
  odcisk_wyjscia job_id output = content_digest b (wyjscie_dokument job_id output)

  unfoldable pub odcisk_promptu : String → String → List ℕ → Result SimonError String
  odcisk_promptu tokenizer_hash client_nonce prompt_token_ids =
      content_digest b (prompt_dokument tokenizer_hash client_nonce prompt_token_ids)

  unfoldable pub lancuch_tokenow : String → List ℕ → Result SimonError String
  lancuch_tokenow prompt_digest output_token_ids =
      content_digest b (lancuch_dokument prompt_digest output_token_ids)

  unfoldable pub odcisk_parametrow : ℤ → ℤ → ℕ → ℤ → ℤ → Result SimonError String
  odcisk_parametrow temperature_milli top_p_milli top_k min_p_milli repeat_penalty_milli =
      content_digest b
        (parametry_dokument temperature_milli top_p_milli top_k min_p_milli repeat_penalty_milli)

  -- `SamplingCommitment::odcisk`
  unfoldable pub odcisk_sampling : SamplingCommitment → Result SimonError String
  odcisk_sampling c = content_digest b (sampling_dokument c)

  unfoldable pub odcisk_tokenizera : Bytes → String
  odcisk_tokenizera bytes = b.hex_encode (b.sha256 (as_bytes domena_tokenizera ++ 0 ∷ bytes))

  -- The methods of `Receipt`.
  unfoldable pub zgodny_z_wyjsciem : Receipt → String → Bool
  zgodny_z_wyjsciem r output = elim (odcisk_wyjscia r.job_id output) [
    | ok d ↦ str_eq d r.output_digest
    | err _ ↦ false
  ]

  unfoldable pub digest : Receipt → Result SimonError String
  digest r = content_digest b (receipt_dokument b (record r { signature = none }))

  unfoldable pub sign : Receipt → Keypair → Result SimonError Receipt
  unfolding digest
  sign r keypair = do
    let r' = record r { signer = public b keypair }
    d ← digest r'
    ok (record r' { signature = some (sign_digest b keypair d) })

  unfoldable pub verify_self : Receipt → Result SimonError (Unit {0})
  unfolding digest
  verify_self r = do
    sig ← ok_or r.signature bad_signature
    d ← digest r
    verify_digest b r.signer d sig

  unfoldable pub verify_for_node :
      Receipt → String → String → PublicKey → Result SimonError (Unit {0})
  verify_for_node r expected_job_id expected_node_id registered_key = do
    verify_self r
    wymagaj (key_eq r.signer registered_key) unregistered_key
    wymagaj (str_eq r.job_id expected_job_id) (niezgodnosc "job_id" r.job_id expected_job_id)
    wymagaj (str_eq r.node_id expected_node_id) (niezgodnosc "node_id" r.node_id expected_node_id)

  unfoldable pub z_wiazaniem_m1 :
      Receipt → String → String → List ℕ → List ℕ → String → ℕ → String → Result SimonError Receipt
  z_wiazaniem_m1 r tokenizer_hash client_nonce prompt_token_ids output_token_ids
        sampling_params_hash rng_seed exec_profile =
      do
        pd ← odcisk_promptu tokenizer_hash client_nonce prompt_token_ids
        lc ← lancuch_tokenow pd output_token_ids
        ok (record r {
          wiazania = some (record {
            schema_version = schema_version_m1;
            receipt_level = receipt_level_m1;
            exec_profile = exec_profile;
            tokenizer_hash = tokenizer_hash;
            prompt_digest = pd;
            output_token_chain = lc;
            client_nonce = client_nonce;
            sampling_params_hash = sampling_params_hash;
            rng_seed = rng_seed;
          });
        })

  unfoldable pub zweryfikuj_m1 :
      Receipt → String → String → List ℕ → List ℕ → Result SimonError (Unit {0})
  zweryfikuj_m1 r tokenizer_hash client_nonce prompt_token_ids output_token_ids = do
    verify_self r
    w ← ok_or r.wiazania (receipt_mismatch "no M1 bindings (proof level 0)")
    wymagaj (not (ltb w.receipt_level receipt_level_m1)) (receipt_mismatch "receipt_level below M1")
    wymagaj (w.schema_version == schema_version_m1)
        (receipt_mismatch "unsupported schema_version for M1")
    wymagaj (str_eq w.tokenizer_hash tokenizer_hash)
        (receipt_mismatch "tokenizer_hash does not match the receipt")
    wymagaj (str_eq w.client_nonce client_nonce) (receipt_mismatch "client_nonce does not match")
    oczekiwany_pd ← odcisk_promptu tokenizer_hash client_nonce prompt_token_ids
    wymagaj (str_eq w.prompt_digest oczekiwany_pd)
        (receipt_mismatch "prompt_digest mismatch — not this prompt")
    oczekiwany_lc ← lancuch_tokenow w.prompt_digest output_token_ids
    wymagaj (str_eq w.output_token_chain oczekiwany_lc)
        (receipt_mismatch "output_token_chain mismatch — not this output")

-- `Receipt::poziom`
unfoldable pub poziom : Receipt → ℕ
poziom r = elim r.wiazania [ none ↦ 0 | some w ↦ w.receipt_level ]
