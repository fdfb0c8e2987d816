-- ===== src/Acp.antt =====
-- crates/simon-harness/src/acp_server.rs: the server through which a user's client reaches the network.
-- The swarm is the list of messages that it is given to publish; the gate of the authorisation is an
-- argument, as it is a trait object in the source.
pub mod Zadanie
pub mod Complete
pub mod Steps
pub mod Inversion
pub mod Phases
pub mod Coordinator
pub mod Race
pub mod Authorised
pub mod Gate
mod Tests
use simon.Prelude.{
  ℕ, ◌+◌, Bool, true, false, not, List, [], ◌∷◌, String, Option, none, some, Result, ok, err, ◌>>=◌,
  ◌>>◌, guard, map_err, ok_or, if◌then◌else◌, leb, ◌==◌, ◌++◌,
}
use simon.Prelude.Text.{str_eq, str_append, as_bytes}
use simon.Prelude.Dict.{Dict, lookup, insert}
use simon.Kodowanie.{Bytes, Biblioteki, SimonError, receipt_mismatch}
use simon.Crypto.{PublicKey}
use simon.Klient.Zlecenie.{Format, polacz, JobOrder, order_dokument, nowe_zlecenie}
use simon.Klient.Wyscig.{OrderAccepted, OrderCompleted, winner, verify_completion}
use simon.Acp.Zadanie.{
  topic_job_order, topic_order_accepted, topic_order_completed, SimonEvent, message, FazaZlecenia,
  rozgloszone, przyjete, weryfikacja, gotowe, wynik_dotarl, ZlecenieUzytkownika, WynikZlecenia,
  deterministic_job_id,
}

pub record AktywneZlecenie : Type 0 where
  pub order : JobOrder
  pub accepted : Option OrderAccepted
  pub faza : FazaZlecenia

pub record AcpServer : Type 0 where
  pub aktywne : Dict AktywneZlecenie
  pub do_rozgloszenia : List JobOrder

-- `BramkaAutoryzacji::autoryzuj`
abbrev pub Bramka : Type 0
Bramka = ZlecenieUzytkownika → String → Result SimonError (Unit {0})

-- `serde_json::from_slice` at the two types that are read.
pub record Odbiornik : Type 0 where
  pub przyjecie : Bytes → Option OrderAccepted
  pub zakonczenie : Bytes → Option OrderCompleted

-- A message that is given to the swarm: its topic and its bytes.
abbrev pub Wiadomosc : Type 0
Wiadomosc = String × Bytes

unfoldable pub nowy_serwer : AcpServer
nowy_serwer = record { aktywne = []; do_rozgloszenia = [] }

-- `AcpServer::faza`
unfoldable pub faza : AcpServer → String → Option FazaZlecenia
faza s order_id = elim (lookup order_id s.aktywne) [ none ↦ none | some a ↦ some a.faza ]

-- The candidates of the race: the winner until now, and the answer that came.
unfoldable pub kandydaci : Option OrderAccepted → OrderAccepted → List OrderAccepted
kandydaci none acc = acc ∷ []
kandydaci (some prev) acc = prev ∷ acc ∷ []

-- The result must come from the coordinator that won the race.
unfoldable pub zgodny_z_przyjeciem :
    Option OrderAccepted → OrderCompleted → Result SimonError (Unit {0})
zgodny_z_przyjeciem none completed = ok tt
zgodny_z_przyjeciem (some acc) completed = do
  guard (str_eq acc.job_id completed.job_id) (
      receipt_mismatch
        (polacz ("job_id: wynik=" ∷ completed.job_id ∷ " wygrane_przyjecie=" ∷ acc.job_id ∷ [])))
  guard (str_eq acc.coordinator_pubkey completed.coordinator_pubkey) (
      receipt_mismatch (
        polacz (
          "koordynator: wynik=" ∷ completed.coordinator_pubkey ∷ " wyścig=" ∷ acc.coordinator_pubkey
          ∷ [])))

module _ (b : Biblioteki) where
  -- `AcpServer::przyjmij`, with the nonce of the order as an argument; an error changes nothing.
  unfoldable pub przyjmij :
      Format
      → Bramka
      → String
      → AcpServer
      → ZlecenieUzytkownika
      → String
      → Result SimonError (AcpServer × String)
  przyjmij fmt bramka nonce s zlecenie podpis = do
    bramka zlecenie podpis
    guard (not (zlecenie.fee_think == 0)) (receipt_mismatch "D83: opłata 0 → brak emisji THINK")
    order ←
        nowe_zlecenie b fmt nonce zlecenie.model_hash (as_bytes zlecenie.tresc) zlecenie.fee_think
          zlecenie.timeout_secs zlecenie.user_pubkey
    ok (
      record s {
        aktywne =
            insert order.order_id (record { order = order; accepted = none; faza = rozgloszone })
              s.aktywne;
        do_rozgloszenia = s.do_rozgloszenia ++ order ∷ [];
      },
      order.order_id,
    )

  -- The loop of `AcpServer::rozglos`: `wyslij n` is the outcome of the publication of the order `n`.
  unfoldable pub rozglos_petla :
      (ℕ → Result String (Unit {0})) → ℕ → List JobOrder → List Wiadomosc × Result SimonError ℕ
  rozglos_petla wyslij n [] = ([], ok n)
  rozglos_petla wyslij n (order ∷ reszta) = elim (b.to_string (order_dokument order)) [
    | err e ↦ ([], err (receipt_mismatch (str_append "serializacja zlecenia: " e)))
    | ok tekst ↦ elim (wyslij n) [
      | err e ↦ ([], err (receipt_mismatch (str_append "publikacja zlecenia nie powiodła się: " e)))
      | ok _ ↦
          let dalej = rozglos_petla wyslij (n + 1) reszta in
          ((topic_job_order, as_bytes tekst) ∷ dalej.0, dalej.1)
    ]
  ]

  -- `AcpServer::rozglos`: the queue is drained on every branch, since a drain that is dropped early
  -- removes the rest.
  unfoldable pub rozglos :
      (ℕ → Result String (Unit {0})) → AcpServer → AcpServer × List Wiadomosc × Result SimonError ℕ
  unfolding rozglos_petla
  rozglos wyslij s =
      let r = rozglos_petla wyslij 0 s.do_rozgloszenia in
      (record s { do_rozgloszenia = [] }, r.0, r.1)

  -- The answer of a coordinator, in `AcpServer::obsluz_event`.
  unfoldable pub obsluz_przyjecie :
      AcpServer → OrderAccepted → AcpServer × Option (String × FazaZlecenia)
  obsluz_przyjecie s acc = elim (lookup acc.order_id s.aktywne) [
    | none ↦ (s, none)
    | some stan ↦ elim (winner b (kandydaci stan.accepted acc)) [
      | none ↦ (s, none)
      | some zwyciezca ↦ if wynik_dotarl stan.faza then (s, none) else (
        record s {
          aktywne =
              insert acc.order_id
                (record stan { accepted = some zwyciezca; faza = przyjete zwyciezca.job_id })
                s.aktywne;
        },
        some (acc.order_id, przyjete zwyciezca.job_id),
      )
    ]
  ]

  -- The finished order, in `AcpServer::obsluz_event`.
  unfoldable pub obsluz_zakonczenie :
      AcpServer → OrderCompleted → AcpServer × Option (String × FazaZlecenia)
  obsluz_zakonczenie s done = elim (lookup done.order_id s.aktywne) [
    | none ↦ (s, none)
    | some stan ↦ (
      record s { aktywne = insert done.order_id (record stan { faza = weryfikacja }) s.aktywne },
      some (done.order_id, weryfikacja),
    )
  ]

  unfoldable pub obsluz_event :
      Odbiornik → AcpServer → SimonEvent → AcpServer × Option (String × FazaZlecenia)
  unfolding obsluz_przyjecie obsluz_zakonczenie
  obsluz_event cz s (message topic bajty from) =
      if str_eq topic topic_order_accepted
      then elim (cz.przyjecie bajty) [ none ↦ (s, none) | some acc ↦ obsluz_przyjecie s acc ]
      else if str_eq topic topic_order_completed
      then elim (cz.zakonczenie bajty) [ none ↦ (s, none) | some done ↦ obsluz_zakonczenie s done ]
      else (s, none)
  obsluz_event cz s _ = (s, none)

  -- `AcpServer::zakoncz`; an error changes nothing.
  unfoldable pub zakoncz :
      AcpServer
      → OrderCompleted
      → PublicKey
      → String
      → Result SimonError (AcpServer × WynikZlecenia)
  zakoncz s completed klucz_node tresc_wyniku = do
    stan ←
        ok_or (lookup completed.order_id s.aktywne)
          (receipt_mismatch (str_append "D106: wynik dla nieznanego zlecenia " completed.order_id))
    zgodny_z_przyjeciem stan.accepted completed
    guard (str_eq completed.job_id (deterministic_job_id b stan.order.order_id)) (
        receipt_mismatch (
          polacz (
            "job_id nie odpowiada order_id: oczekiwano="
            ∷ deterministic_job_id b stan.order.order_id
            ∷ " otrzymano="
            ∷ completed.job_id
            ∷ [])))
    guard (str_eq completed.receipt.model_hash stan.order.model_hash) (
        receipt_mismatch (
          polacz (
            "model: receipt=" ∷ completed.receipt.model_hash ∷ " zlecenie=" ∷ stan.order.model_hash
            ∷ [])))
    verify_completion b completed stan.order.order_id klucz_node
    guard (str_eq (b.hex_encode (b.sha256 (as_bytes tresc_wyniku))) completed.receipt.output_digest)
        (receipt_mismatch (
          polacz (
            "output_digest: treść="
            ∷ b.hex_encode (b.sha256 (as_bytes tresc_wyniku))
            ∷ " receipt="
            ∷ completed.receipt.output_digest
            ∷ [])))
    ok (
      record s { aktywne = insert completed.order_id (record stan { faza = gotowe }) s.aktywne },
      record {
        order_id = completed.order_id;
        job_id = completed.job_id;
        tresc = tresc_wyniku;
        receipt = completed.receipt;
      },
    )

-- One wait of `czekaj_na_zakonczenie`: the time at which it starts, and how it ends.
pub data Odbior : Type 0 where
  zdarzenie : ℕ → SimonEvent → Odbior
  zamkniety : ℕ → Odbior
  uplynal : ℕ → Odbior

-- The call has returned, or it waits still when the waits that are given are over.
pub data Czekanie : Type 0 where
  zwrocone : Option OrderCompleted → Czekanie
  czeka : Czekanie

-- `serde_json::from_slice` of a message under the topic of finished orders, for the order in question.
unfoldable pub oczekiwane : Odbiornik → String → SimonEvent → Option OrderCompleted
oczekiwane cz order_id (message topic bajty from) =
    if str_eq topic topic_order_completed
    then elim (cz.zakonczenie bajty) [
      | none ↦ none
      | some done ↦ if str_eq done.order_id order_id then some done else none
    ]
    else none
oczekiwane cz order_id _ = none

unfoldable pub czekaj_na_zakonczenie : Odbiornik → String → ℕ → List Odbior → Czekanie
unfolding oczekiwane
czekaj_na_zakonczenie cz order_id deadline [] = czeka
czekaj_na_zakonczenie cz order_id deadline (zdarzenie teraz ev ∷ reszta) =
    let dalej = czekaj_na_zakonczenie cz order_id deadline reszta in
    if leb deadline teraz
    then zwrocone none
    else elim (oczekiwane cz order_id ev) [ none ↦ dalej | some done ↦ zwrocone (some done) ]
czekaj_na_zakonczenie cz order_id deadline (zamkniety teraz ∷ reszta) = zwrocone none
czekaj_na_zakonczenie cz order_id deadline (uplynal teraz ∷ reszta) = zwrocone none
