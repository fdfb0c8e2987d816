-- ===== src/Acp/Zadanie.antt =====
-- crates/simon-harness/src/acp_server.rs: what a user asks for, the phases that the user sees, and the
-- gate that the user's signature must pass; and the events and names of
-- crates/simon-harness/src/transport.rs.
use simon.Prelude.{ℕ, Bool, true, false, not, String, Result, ◌>>=◌, ◌>>◌, guard, map_err, length}
use simon.Prelude.Text.{str_append, as_bytes, str_is_empty}
use simon.Prelude.Trim.{trim}
use simon.Prelude.Int.{pos}
use simon.Kodowanie.{
  Bytes, Dokument, Biblioteki, number, text, struct, koniec, pole, SimonError, receipt_mismatch,
  content_digest,
}
use simon.Crypto.{from_hex, verify_digest, try_into}
use simon.Receipt.{Receipt}
use simon.Klient.Zlecenie.{Format}

abbrev pub topic_job_order : String
topic_job_order = "simon/v1/job-order"

abbrev pub topic_order_accepted : String
topic_order_accepted = "simon/v1/order-accepted"

abbrev pub topic_order_completed : String
topic_order_completed = "simon/v1/order-completed"

-- `SimonEvent`, with peers and addresses by their texts.
pub data SimonEvent : Type 0 where
  message : String → Bytes → String → SimonEvent
  peer_connected : String → SimonEvent
  peer_disconnected : String → SimonEvent
  address_discovered : String → String → SimonEvent
  listening : String → SimonEvent

pub data FazaZlecenia : Type 0 where
  rozgloszone : FazaZlecenia
  przyjete : String → FazaZlecenia
  weryfikacja : FazaZlecenia
  gotowe : FazaZlecenia
  blad : String → FazaZlecenia

unfoldable pub jako_postep : FazaZlecenia → String
jako_postep rozgloszone = "Zlecenie rozgłoszone do swarmu…"
jako_postep (przyjete job_id) = str_append "Koordynator przyjął zlecenie (" (str_append job_id ").")
jako_postep weryfikacja = "Wynik dotarł — weryfikuję receipt…"
jako_postep gotowe = "Wynik zweryfikowany."
jako_postep (blad e) = str_append "Błąd: " e

-- `matches!(stan.faza, Weryfikacja | Gotowe)`
unfoldable pub wynik_dotarl : FazaZlecenia → Bool
wynik_dotarl weryfikacja = true
wynik_dotarl gotowe = true
wynik_dotarl _ = false

pub record SessionId : Type 0 where
  pub id : String

pub record ZlecenieUzytkownika : Type 0 where
  pub session_id : SessionId
  pub tresc : String
  pub model_hash : String
  pub fee_think : ℕ
  pub timeout_secs : ℕ
  pub user_pubkey : String

unfoldable pub zadanie_dokument : ZlecenieUzytkownika → Dokument
zadanie_dokument z = struct (
    pole "session_id" (text z.session_id.id) (
      pole "tresc" (text z.tresc) (
        pole "model_hash" (text z.model_hash) (
          pole "fee_think" (number (pos z.fee_think)) (
            pole "timeout_secs" (number (pos z.timeout_secs))
              (pole "user_pubkey" (text z.user_pubkey) koniec))))))

pub record WynikZlecenia : Type 0 where
  pub order_id : String
  pub job_id : String
  pub tresc : String
  pub receipt : Receipt

module _ (b : Biblioteki) where
  unfoldable pub deterministic_job_id : String → String
  deterministic_job_id order_id = str_append "job-" (b.hex_encode (b.sha256 (as_bytes order_id)))

  -- `ZlecenieUzytkownika::digest`
  unfoldable pub odcisk_zadania : ZlecenieUzytkownika → Result SimonError String
  odcisk_zadania z = content_digest b (zadanie_dokument z)

  -- `BramkaPodpisu::autoryzuj`
  unfoldable pub autoryzuj : Format → ZlecenieUzytkownika → String → Result SimonError (Unit {0})
  autoryzuj fmt zlecenie podpis = do
    guard (not (str_is_empty (trim zlecenie.user_pubkey)))
        (receipt_mismatch "D110: brak klucza publicznego użytkownika")
    guard (not (str_is_empty (trim podpis)))
        (receipt_mismatch "D110: brak podpisu użytkownika → zlecenie NIE może być rozgłoszone")
    odcisk ← odcisk_zadania zlecenie
    pk ←
        map_err (λ _. receipt_mismatch "D110: klucz użytkownika nie jest poprawnym hexem")
          (from_hex b zlecenie.user_pubkey)
    bajty ←
        map_err (λ _. receipt_mismatch "D110: podpis nie jest poprawnym hexem")
          (b.hex_decode (trim podpis))
    arr ← try_into 64 bajty (
        receipt_mismatch
          (str_append "D110: podpis Ed25519 ma 64 bajty, otrzymano " (fmt.liczba (length bajty))))
    map_err (λ _. receipt_mismatch "D110: podpis użytkownika NIE odpowiada treści zlecenia")
        (verify_digest b pk odcisk (record { bajty = arr }))
