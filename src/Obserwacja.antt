-- ===== src/Obserwacja.antt =====
-- crates/simon-core/src/obserwacja.rs: what a client measured of a job, and its signature.
pub mod Signing
use simon.Prelude.{ℕ, Bool, String, Option, none, some, Result, ok, err, ◌>>=◌, ◌>>◌, ok_or}
use simon.Prelude.Int.{pos}
use simon.Kodowanie.{
  Dokument, Biblioteki, null, bool, number, text, object, struct, koniec, pole, SimonError,
  bad_signature, content_digest,
}
use simon.Crypto.{
  PublicKey, Signature, Keypair, public, sign_digest, verify_digest, key_dokument,
  signature_dokument,
}
use simon.Receipt.{pole_opcjonalne}

abbrev pub domena_obserwacji : String
domena_obserwacji = "SIMON/OBSERVATION/v1"

pub data Transport : Type 0 where
  libp2p_request_response : Transport

pub record ClientObservationV1 : Type 0 where
  pub receipt_hash : String
  pub job_id : String
  pub client_pubkey : PublicKey
  pub observed_time_to_first_event_ms : Option ℕ
  pub observed_time_to_complete_ms : ℕ
  pub network_complete_ms : ℕ
  pub output_bound_ms : ℕ
  pub execution_audit_complete_ms : Option ℕ
  pub transport : Transport
  pub streamed : Bool
  pub client_signature : Option Signature

unfoldable pub transport_nazwa : Transport → String
transport_nazwa libp2p_request_response = "Libp2pRequestResponse"

abbrev liczba_lub_null : Option ℕ → Dokument
liczba_lub_null none = null
liczba_lub_null (some n) = number (pos n)

module _ (b : Biblioteki) where
  unfoldable pub obserwacja_dokument : ClientObservationV1 → Dokument
  unfolding transport_nazwa
  obserwacja_dokument o = struct (
      pole "receipt_hash" (text o.receipt_hash) (
        pole "job_id" (text o.job_id) (
          pole "client_pubkey" (key_dokument b o.client_pubkey) (
            pole "observed_time_to_first_event_ms"
              (liczba_lub_null o.observed_time_to_first_event_ms)
              (pole "observed_time_to_complete_ms" (number (pos o.observed_time_to_complete_ms)) (
                pole "network_complete_ms" (number (pos o.network_complete_ms)) (
                  pole "output_bound_ms" (number (pos o.output_bound_ms)) (
                    pole "execution_audit_complete_ms"
                      (liczba_lub_null o.execution_audit_complete_ms)
                      (pole "transport" (text (transport_nazwa o.transport)) (
                        pole "streamed" (bool o.streamed) (
                          pole_opcjonalne "client_signature" (signature_dokument b)
                            o.client_signature koniec)))))))))))

  -- `ClientObservationV1::digest`
  unfoldable pub odcisk_obserwacji : ClientObservationV1 → Result SimonError String
  odcisk_obserwacji o = content_digest b (
      object (
        pole "domena" (text domena_obserwacji)
          (pole "obserwacja" (obserwacja_dokument (record o { client_signature = none })) koniec)))

  -- `ClientObservationV1::sign`
  unfoldable pub podpisz_obserwacje :
      ClientObservationV1 → Keypair → Result SimonError ClientObservationV1
  podpisz_obserwacje o klucz = do
    let o' = record o { client_pubkey = public b klucz }
    d ← odcisk_obserwacji o'
    ok (record o' { client_signature = some (sign_digest b klucz d) })

  -- `ClientObservationV1::verify_self`
  unfoldable pub sprawdz_obserwacje : ClientObservationV1 → Result SimonError (Unit {0})
  sprawdz_obserwacje o = do
    podpis ← ok_or o.client_signature bad_signature
    d ← odcisk_obserwacji o
    verify_digest b o.client_pubkey d podpis
