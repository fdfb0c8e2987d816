-- ===== src/Acp/Inversion.antt =====
-- What a successful `przyjmij`, and an event, of crates/simon-harness/src/acp_server.rs do to the state.
use simon.Prelude.{
  ◌≡◌, ◌≢◌, inl, inr, refl, sym, ap, false, not, [], ◌∷◌, ◌++◌, String, none, some, ok, >>=-eq-ok,
  guard-eq-ok, ok-injective, Bool-cases, Option-cases, ◌==◌, arith,
}
use simon.Prelude.Text.{str_eq, as_bytes}
use simon.Prelude.Dict.{lookup, insert}
use simon.Kodowanie.{Bytes, Biblioteki}
use simon.Klient.Zlecenie.{Format, JobOrder, nowe_zlecenie}
use simon.Klient.Wyscig.{OrderAccepted, OrderCompleted, winner}
use simon.Acp.{
  AcpServer, AktywneZlecenie, Bramka, Odbiornik, przyjmij, kandydaci, obsluz_event,
  obsluz_przyjecie, obsluz_zakonczenie,
}
use simon.Acp.Zadanie.{
  rozgloszone, przyjete, weryfikacja, wynik_dotarl, ZlecenieUzytkownika, SimonEvent, message,
  peer_connected, peer_disconnected, address_discovered, listening, topic_order_accepted,
  topic_order_completed,
}

abbrev pub nowy_wpis : JobOrder → AktywneZlecenie
nowy_wpis o = record { order = o; accepted = none; faza = rozgloszone }

module _ (b : Biblioteki) where
  -- The order was made, for a fee, from a request that passed the gate.
  pub record Zamowione (fmt : Format) (bramka : Bramka) (o : JobOrder) : Type 0 where
    pub zadanie : ZlecenieUzytkownika
    pub podpis : String
    pub nonce : String
    pub autoryzacja : bramka zadanie podpis ≡ ok tt
    pub oplata : zadanie.fee_think ≢ 0
    pub zlecenie :
        nowe_zlecenie b fmt nonce zadanie.model_hash
          (as_bytes zadanie.tresc)
          zadanie.fee_think
          zadanie.timeout_secs
          zadanie.user_pubkey
        ≡ ok o

  pub przyjmij-eq-ok :
      (fmt : Format) (bramka : Bramka) (nonce : String) (s s' : AcpServer) (z : ZlecenieUzytkownika)
      (podpis id : String)
      → przyjmij b fmt bramka nonce s z podpis ≡ ok (s', id)
      → (o : JobOrder) × Zamowione fmt bramka o
        × (id ≡ o.order_id)
        × (s' ≡ record s {
          aktywne = insert o.order_id (nowy_wpis o) s.aktywne;
          do_rozgloszenia = s.do_rozgloszenia ++ o ∷ [];
        })
  unfolding przyjmij
  przyjmij-eq-ok fmt bramka nonce s s' z podpis id h =
      let (_, a, h1) = >>=-eq-ok (bramka z podpis) _ h in
      let (f, h2) = guard-eq-ok (not (z.fee_think == 0)) _ _ h1 in
      let (o, n, h3) =
        >>=-eq-ok
          (nowe_zlecenie b fmt nonce z.model_hash (as_bytes z.tresc) z.fee_think z.timeout_secs
            z.user_pubkey)
          _ h2 in
      let e = ok-injective h3 in
      (
        o,
        record {
          zadanie = z;
          podpis = podpis;
          nonce = nonce;
          autoryzacja = a;
          oplata = ground arith;
          zlecenie = n;
        },
        sym (ap (λ (p : AcpServer × String). p.1) e),
        sym (ap (λ (p : AcpServer × String). p.0) e),
      )

  -- An event leaves the server as it is, or it changes the entry of one order that is active: its
  -- winner and its phase while no result has come, or only its phase when one comes.
  pub data Skutek (s s' : AcpServer) : Type 0 where
    bez_zmian : s' ≡ s → Skutek s s'
    przyjeto :
        (acc z : OrderAccepted) (a : AktywneZlecenie)
        → lookup acc.order_id s.aktywne ≡ some a
        → wynik_dotarl a.faza ≡ false
        → winner b (kandydaci a.accepted acc) ≡ some z
        → s' ≡ record s {
          aktywne =
              insert acc.order_id
                (record a { accepted = some z; faza = przyjete z.job_id })
                s.aktywne;
        }
        → Skutek s s'
    zakonczono :
        (done : OrderCompleted) (a : AktywneZlecenie)
        → lookup done.order_id s.aktywne ≡ some a
        → s'
          ≡ record s { aktywne = insert done.order_id (record a { faza = weryfikacja }) s.aktywne }
        → Skutek s s'

  przyjecie-Skutek : (s : AcpServer) (acc : OrderAccepted) → Skutek s (obsluz_przyjecie b s acc).0
  unfolding obsluz_przyjecie
  przyjecie-Skutek s acc = elim (Option-cases (lookup acc.order_id s.aktywne)) [
    | inl e ↦ rw (e, obsluz_przyjecie) (bez_zmian refl)
    | inr (a, e) ↦ elim (Option-cases (winner b (kandydaci a.accepted acc))) [
      | inl f ↦ rw (e, obsluz_przyjecie) (rw f (bez_zmian refl))
      | inr (z, f) ↦ elim (Bool-cases (wynik_dotarl a.faza)) [
        | inl g ↦ rw (e, obsluz_przyjecie) (rw f (rw g (bez_zmian refl)))
        | inr g ↦ rw (e, obsluz_przyjecie) (rw f (rw g (przyjeto acc z a e g f refl)))
      ]
    ]
  ]

  zakonczenie-Skutek :
      (s : AcpServer) (done : OrderCompleted) → Skutek s (obsluz_zakonczenie b s done).0
  unfolding obsluz_zakonczenie
  zakonczenie-Skutek s done = elim (Option-cases (lookup done.order_id s.aktywne)) [
    | inl e ↦ rw (e, obsluz_zakonczenie) (bez_zmian refl)
    | inr (a, e) ↦ rw (e, obsluz_zakonczenie) (zakonczono done a e refl)
  ]

  wiadomosc-Skutek :
      (cz : Odbiornik) (s : AcpServer) (topic : String) (bajty : Bytes) (from : String)
      → Skutek s (obsluz_event b cz s (message topic bajty from)).0
  unfolding obsluz_event
  wiadomosc-Skutek cz s topic bajty from = elim (Bool-cases (str_eq topic topic_order_accepted)) [
    | inl t ↦ elim (Option-cases (cz.przyjecie bajty)) [
      | inl e ↦ rw t (rw (e, obsluz_event) (bez_zmian refl))
      | inr (acc, e) ↦ rw t (rw (e, obsluz_event) (przyjecie-Skutek s acc))
    ]
    | inr t ↦ elim (Bool-cases (str_eq topic topic_order_completed)) [
      | inl u ↦ elim (Option-cases (cz.zakonczenie bajty)) [
        | inl e ↦ rw (t, u) (rw (e, obsluz_event) (bez_zmian refl))
        | inr (done, e) ↦ rw (t, u) (rw (e, obsluz_event) (zakonczenie-Skutek s done))
      ]
      | inr u ↦ rw (t, u) (bez_zmian refl)
    ]
  ]

  pub obsluz_event-Skutek :
      (cz : Odbiornik) (s : AcpServer) (ev : SimonEvent) → Skutek s (obsluz_event b cz s ev).0
  unfolding obsluz_event
  obsluz_event-Skutek cz s (message topic bajty from) = wiadomosc-Skutek cz s topic bajty from
  obsluz_event-Skutek cz s (peer_connected _) = bez_zmian refl
  obsluz_event-Skutek cz s (peer_disconnected _) = bez_zmian refl
  obsluz_event-Skutek cz s (address_discovered _ _) = bez_zmian refl
  obsluz_event-Skutek cz s (listening _) = bez_zmian refl
