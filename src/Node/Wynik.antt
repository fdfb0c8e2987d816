-- ===== src/Node/Wynik.antt =====
-- crates/simon-node/src/lib.rs: `JobResult`, the result of a job that a node sends.
use simon.Prelude.{Bool, true, false, String, Option, none, some, Result, ok, err, ◌>>=◌, ok_or}
use simon.Kodowanie.{
  Dokument, null, bool, object, text, pole, koniec, Biblioteki, SimonError, bad_signature,
  content_digest,
}
use simon.Crypto.{PublicKey, Signature, Keypair, sign_digest, verify_digest}
use simon.Receipt.{Receipt, digest as receipt_digest}

pub record JobResult : Type 0 where
  pub job_id : String
  pub node_id : String
  pub udany : Bool
  pub output : Option Dokument
  pub receipt : Option Receipt
  pub error : Option String
  pub signature : Option Signature

abbrev pub domena_job_result : String
domena_job_result = "SIMON/JOB-RESULT/v1"

unfoldable pub success : String → String → Dokument → Receipt → JobResult
success job_id node_id output receipt = record {
  job_id = job_id;
  node_id = node_id;
  udany = true;
  output = some output;
  receipt = some receipt;
  error = none;
  signature = none;
}

unfoldable pub failure : String → String → String → JobResult
failure job_id node_id error = record {
  job_id = job_id;
  node_id = node_id;
  udany = false;
  output = none;
  receipt = none;
  error = some error;
  signature = none;
}

abbrev pub opcjonalny_tekst : Option String → Dokument
opcjonalny_tekst none = null
opcjonalny_tekst (some s) = text s

-- `Result::ok`
abbrev pub bez_bledu {ℓ} : {A : Type ℓ} → Result SimonError A → Option A
bez_bledu (ok a) = some a
bez_bledu (err e) = none

module _ (b : Biblioteki) where
  -- `self.receipt.as_ref().and_then(|r| r.digest().ok())`
  abbrev pub odcisk_receiptu : Option Receipt → Option String
  odcisk_receiptu none = none
  odcisk_receiptu (some r) = bez_bledu (receipt_digest b r)

  unfoldable pub wynik_dokument : JobResult → Dokument
  wynik_dokument w = object (
      pole "domena" (text domena_job_result) (
        pole "job_id" (text w.job_id) (
          pole "node_id" (text w.node_id) (
            pole "ok" (bool w.udany) (
              pole "error" (opcjonalny_tekst w.error)
                (pole "receipt_digest" (opcjonalny_tekst (odcisk_receiptu w.receipt)) koniec))))))

  unfoldable pub digest : JobResult → Result SimonError String
  digest w = content_digest b (wynik_dokument w)

  unfoldable pub sign : JobResult → Keypair → Result SimonError JobResult
  sign w keypair = do d ← digest w; ok (record w { signature = some (sign_digest b keypair d) })

  unfoldable pub verify_from_node : JobResult → PublicKey → Result SimonError (Unit {0})
  verify_from_node w registered_pubkey = do
    sig ← ok_or w.signature bad_signature
    d ← digest w
    verify_digest b registered_pubkey d sig
