-- ===== src/Acp/Tests.antt =====
-- Tests and witnesses for crates/simon-harness/src/acp_server.rs, over the libraries of Crypto.Toy.
use Prim.Native.String.{len}
use simon.Prelude.{◌≡◌, ◌↔◌, refl, List, [], ◌∷◌, String, none, some, ok, err, All, ◌≤◌, inr}
use simon.Prelude.Text.{as_bytes, utf8}
use simon.Prelude.Trim.{trim}
use simon.Prelude.Dict.{lookup}
use simon.Kodowanie.{SimonError}
use simon.Crypto.{public}
use simon.Crypto.Toy.{biblioteki, skrot, zakoduj}
use simon.Receipt.{Receipt, fp16}
use simon.Klient.Toy.{format, uzytkownik, klucz_uzytkownika, zlecenie}
use simon.Klient.Wyscig.{OrderAccepted, OrderCompleted, winner}
use simon.Koordynator.Toy.{koordynator, stan, wynik, odpowiedz, przyjmuje}
use simon.Acp.{
  AcpServer, AktywneZlecenie, Odbiornik, nowy_serwer, zakoncz, faza, Result, przyjmij,
  topic_order_completed,
}
use simon.Acp
use simon.Acp.Zadanie.{
  wynik_dotarl, ZlecenieUzytkownika, WynikZlecenia, message, rozgloszone, autoryzuj,
  deterministic_job_id, topic_order_accepted,
}
use simon.Acp.Complete.{Wiarygodny, Pokazany, zakoncz_iff}
use simon.Acp.Gate.{Podpisane, autoryzuj_iff}
use simon.Acp.Steps.{Wywolanie, zdarzenie, przebieg, Droga, SwiezePrzebiegu, etap, SwiezeId}
use simon.Acp.Phases.{przebieg-Droga}
use simon.Acp.Authorised.{Uczciwy, Rozgloszenie, przebieg-Autoryzowany}
use simon.Acp.Race.{Prowadzi, obsluz_przyjecia, obsluz_przyjecia-winner}
use simon.Acp.Coordinator.{zakoncz-przetworz_zlecenie}

abbrev zadanie : ZlecenieUzytkownika
zadanie = record {
  session_id = record { id = "s-1" };
  tresc = "ile to 2+2";
  model_hash = "mistral";
  fee_think = 100;
  timeout_secs = 300;
  user_pubkey = klucz_uzytkownika;
}

przyciety : trim " \t ab c\n" ≡ "ab c"
unfolding trim
przyciety = refl

autoryzuj_iff_example :
    (autoryzuj biblioteki format zadanie " 00ff" ≡ ok tt) ↔ Podpisane biblioteki zadanie " 00ff"
autoryzuj_iff_example = autoryzuj_iff biblioteki format zadanie " 00ff"

abbrev wpis : AktywneZlecenie
wpis = record { order = zlecenie; accepted = none; faza = rozgloszone }

abbrev serwer : AcpServer
serwer = record { aktywne = (zlecenie.order_id, wpis) ∷ []; do_rozgloszenia = [] }

abbrev praca : String
praca = deterministic_job_id biblioteki zlecenie.order_id

abbrev paragon : Receipt
paragon = record {
  job_id = praca;
  node_id = "n1";
  model_hash = "mistral";
  runtime = "llama.cpp/0.3";
  precision = fp16;
  activation_hash = "toploc";
  output_digest = zakoduj (skrot (as_bytes "4"));
  prompt_tokens = 3;
  completion_tokens = 2;
  started_at_us = 1;
  finished_at_us = 2;
  signer = public biblioteki uzytkownik;
  signature = none;
  wiazania = none;
}

abbrev zakonczone : OrderCompleted
zakonczone = record {
  order_id = zlecenie.order_id;
  job_id = praca;
  node_id = "n1";
  receipt = paragon;
  coordinator_pubkey = "k1";
}

abbrev pokazany : WynikZlecenia
pokazany = record { order_id = zlecenie.order_id; job_id = praca; tresc = "4"; receipt = paragon }

zakoncz_iff_example :
    (zakoncz biblioteki serwer zakonczone (public biblioteki uzytkownik) "4"
      ≡ ok (serwer, pokazany))
    ↔ ((a : AktywneZlecenie) × (lookup zakonczone.order_id serwer.aktywne ≡ some a)
        × Wiarygodny biblioteki a zakonczone (public biblioteki uzytkownik) "4"
        × Pokazany biblioteki serwer serwer zakonczone
            (public biblioteki uzytkownik)
            "4"
            pokazany
            a)
zakoncz_iff_example =
    zakoncz_iff biblioteki serwer serwer zakonczone (public biblioteki uzytkownik) "4" pokazany

abbrev odbiornik : Odbiornik
odbiornik = record { przyjecie = λ x. some odpowiedz; zakonczenie = λ x. some zakonczone }

abbrev wywolania : List Wywolanie
wywolania =
    Wywolanie.przyjmij "n-1" zadanie "podpis"
    ∷ Wywolanie.rozglos (λ n. ok tt)
    ∷ zdarzenie (message topic_order_accepted (1 ∷ []) "peer-1")
    ∷ Wywolanie.zakoncz zakonczone (public biblioteki uzytkownik) "4"
    ∷ []

abbrev po : AcpServer × List Acp.Wiadomosc
po = przebieg biblioteki format (λ z p. ok tt) odbiornik nowy_serwer wywolania

przebieg-Autoryzowany_example :
    Uczciwy biblioteki format (λ z p. ok tt) po.0
    × All (Rozgloszenie biblioteki format (λ z p. ok tt)) po.1
przebieg-Autoryzowany_example =
    przebieg-Autoryzowany biblioteki format (λ z p. ok tt) odbiornik wywolania

-- The id of the order that is placed, to which the events then belong: a coordinator accepts it, a result
-- comes, and another coordinator accepts it too late.
abbrev id_lub : Result SimonError (AcpServer × String) → String
id_lub (ok p) = p.1
id_lub (err e) = ""

abbrev id_nowego : String
id_nowego = id_lub (przyjmij biblioteki format (λ z p. ok tt) "n-1" nowy_serwer zadanie "podpis")

abbrev odbiornik_nowego : Odbiornik
odbiornik_nowego = record {
  przyjecie = λ x. some (record odpowiedz { order_id = id_nowego });
  zakonczenie = λ x. some (record zakonczone { order_id = id_nowego });
}

abbrev spoznione : List Wywolanie
spoznione =
    Wywolanie.przyjmij "n-1" zadanie "podpis"
    ∷ zdarzenie (message topic_order_accepted (1 ∷ []) "peer-1")
    ∷ zdarzenie (message topic_order_completed (1 ∷ []) "peer-1")
    ∷ zdarzenie (message topic_order_accepted (1 ∷ []) "peer-2")
    ∷ []

abbrev po_spoznionym : AcpServer
po_spoznionym = (przebieg biblioteki format (λ z p. ok tt) odbiornik_nowego nowy_serwer spoznione).0

nic_aktywnego :
    (r : Result SimonError (AcpServer × String))
    → SwiezeId biblioteki format (λ z p. ok tt) odbiornik_nowego id_nowego nowy_serwer r
unfolding lookup nowy_serwer
nic_aktywnego (ok p) = inr refl
nic_aktywnego (err e) = tt

swieze_spoznione :
    SwiezePrzebiegu biblioteki format
      (λ z p. ok tt)
      odbiornik_nowego
      id_nowego
      nowy_serwer
      spoznione
unfolding SwiezePrzebiegu
swieze_spoznione = (nic_aktywnego _, (tt, (tt, (tt, tt))))

przebieg-Droga_example :
    Droga (faza nowy_serwer id_nowego) (faza po_spoznionym id_nowego)
    × (etap (faza nowy_serwer id_nowego) ≤ etap (faza po_spoznionym id_nowego))
przebieg-Droga_example =
    przebieg-Droga biblioteki format (λ z p. ok tt) odbiornik_nowego nowy_serwer spoznione id_nowego
      swieze_spoznione

aktywne_zlecenie : lookup zlecenie.order_id serwer.aktywne ≡ some wpis
unfolding lookup
aktywne_zlecenie = refl

czeka_na_koordynatora : Prowadzi biblioteki serwer zlecenie.order_id none
unfolding wynik_dotarl
czeka_na_koordynatora = record {
  wpis = wpis;
  jest = aktywne_zlecenie;
  lider = refl;
  bez_wyniku = refl;
}

skrot_ma_64 : len (biblioteki.hex_encode (biblioteki.sha256 (as_bytes zlecenie.order_id))) ≡ 64
unfolding zakoduj skrot as_bytes utf8
skrot_ma_64 = refl

abbrev od_pierwszego : OrderAccepted
od_pierwszego = record {
  order_id = zlecenie.order_id;
  job_id = "job-1";
  coordinator_pubkey = "k1";
  vrf_seed = "s";
  vrf_block = 0;
  estimated_ms = 0;
  signature = none;
}

abbrev od_drugiego : OrderAccepted
od_drugiego = record od_pierwszego { coordinator_pubkey = "k2" }

obsluz_przyjecia-winner_example :
    Prowadzi biblioteki
      (obsluz_przyjecia biblioteki serwer (od_pierwszego ∷ od_drugiego ∷ []))
      zlecenie.order_id
      (winner biblioteki (od_pierwszego ∷ od_drugiego ∷ []))
obsluz_przyjecia-winner_example =
    obsluz_przyjecia-winner biblioteki serwer zlecenie.order_id (od_pierwszego ∷ od_drugiego ∷ [])
      (refl, (refl, tt)) czeka_na_koordynatora

zakoncz-przetworz_zlecenie_example :
    (e : SimonError) × (zakoncz biblioteki serwer
        (record zakonczone { job_id = odpowiedz.job_id })
        (public biblioteki uzytkownik)
        "4"
      ≡ err e)
zakoncz-przetworz_zlecenie_example =
    zakoncz-przetworz_zlecenie biblioteki format koordynator stan wynik.0 zlecenie 1060 odpowiedz
      "n1" 512 serwer wpis (record zakonczone { job_id = odpowiedz.job_id })
      (public biblioteki uzytkownik) "4" skrot_ma_64 przyjmuje aktywne_zlecenie refl refl
