-- ===== src/Klient/Tests.antt =====
-- Tests and witnesses for crates/simon-harness/src/client_protocol.rs, over the libraries of Crypto.Toy.
use simon.Prelude.{
  ◌≡◌, ◌↔◌, ◌⊎◌, inl, inr, refl, true, false, List, [], ◌∷◌, String, none, some, ok, arith, Any,
  All,
}
use simon.Prelude.Text.{as_bytes, utf8}
use simon.Prelude.Dict.{Member}
use simon.Prelude.StrOrder.{str_ltb, str_leb}
use simon.Prelude.MinBy.{min_by, min_od}
use simon.Klient.Podpis.{podpis_hex}
use simon.Kodowanie.{content_digest}
use simon.Crypto.{Keypair, public, to_hex, sign_digest, from_hex, verify_digest}
use simon.Crypto.Toy.{biblioteki, prawa, skrot, zakoduj, odkoduj, wartosc, podpisz, drukuj}
use simon.Receipt.{Receipt, fp16}
use simon.Klient.Zlecenie.{
  JobOrder, odcisk_autoryzacji, zweryfikuj_autoryzacje, nowe_zlecenie, order_id_sie_zgadza,
  payload_digest_z_nonce, has_verifiable_burn,
}
use simon.Klient.Wyscig.{
  zawiera, odcisk_przyjecia, podpisz_przyjecie, przyjecie_dokument, dopuszczony, OrderAccepted,
  OrderCompleted, ranking, wczesniejszy, winner, dopusc, winner_zrejestrowany, podpis_przyjecia,
}
use simon.Klient.Authorisation.{
  Zgodna, Autoryzowane, zweryfikuj_autoryzacje_iff, podpisz-zweryfikuj,
}
use simon.Klient.Orders.{nowe_zlecenie_lem}
use simon.Klient.Race.{winner_zrejestrowany_lem}
use simon.Klient.Toy.{format, uzytkownik, klucz_uzytkownika, autoryzacja, nieautoryzowane, zlecenie}

abbrev zgodna : Zgodna autoryzacja nieautoryzowane
zgodna = record {
  tresc = refl;
  model = refl;
  oplata = refl;
  czas = refl;
  klient = refl;
  nonce = refl;
}

przejscie :
    (d : String) × (odcisk_autoryzacji biblioteki autoryzacja ≡ ok d)
    × (zweryfikuj_autoryzacje biblioteki format zlecenie 1060 ≡ ok d)
przejscie =
    podpisz-zweryfikuj biblioteki format prawa uzytkownik autoryzacja nieautoryzowane 1060 refl refl
      zgodna (omega arith) (omega arith)

abbrev odcisk : String
odcisk = przejscie.0

przechodzi : zweryfikuj_autoryzacje biblioteki format zlecenie 1060 ≡ ok odcisk
przechodzi = przejscie.2

zweryfikuj_autoryzacje_iff_example :
    (zweryfikuj_autoryzacje biblioteki format zlecenie 1060 ≡ ok odcisk)
    ↔ Autoryzowane biblioteki format zlecenie 1060 odcisk
zweryfikuj_autoryzacje_iff_example =
    zweryfikuj_autoryzacje_iff biblioteki format zlecenie 1060 odcisk

zrobione :
    (o : JobOrder) × (nowe_zlecenie biblioteki format "n-1" "mistral"
        (1 ∷ 2 ∷ [])
        100
        300
        klucz_uzytkownika
      ≡ ok o)
    × (order_id_sie_zgadza biblioteki o ≡ true)
    × (o.payload_digest ≡ payload_digest_z_nonce biblioteki "n-1" (1 ∷ 2 ∷ []))
    × (has_verifiable_burn o ≡ false)
zrobione =
    nowe_zlecenie_lem biblioteki prawa format "n-1" "mistral" (1 ∷ 2 ∷ []) 100 300 klucz_uzytkownika

abbrev nowe : JobOrder
nowe = zrobione.0

abbrev odpowiedz : String → OrderAccepted
odpowiedz klucz = record {
  order_id = "o-1";
  job_id = "job-1";
  coordinator_pubkey = klucz;
  vrf_seed = "s";
  vrf_block = 0;
  estimated_ms = 1000;
  signature = none;
}

abbrev pierwsza : OrderAccepted
pierwsza = odpowiedz "aa"

abbrev druga : OrderAccepted
druga = odpowiedz "bb"

abbrev odpowiedzi : List OrderAccepted
odpowiedzi = pierwsza ∷ druga ∷ []

abbrev w_innej_kolejnosci : List OrderAccepted
w_innej_kolejnosci = druga ∷ pierwsza ∷ druga ∷ []

wygrywa : winner biblioteki odpowiedzi ≡ some pierwsza
unfolding winner min_by min_od wczesniejszy ranking str_ltb str_leb skrot zakoduj as_bytes utf8
wygrywa = refl

wygrywa_znow : winner biblioteki w_innej_kolejnosci ≡ some pierwsza
unfolding winner min_by min_od wczesniejszy ranking str_ltb str_leb skrot zakoduj as_bytes utf8
wygrywa_znow = refl

tam : (c : OrderAccepted) → Any (λ y. c ≡ y) odpowiedzi → Any (λ y. c ≡ y) w_innej_kolejnosci
tam c (inl e) = inr (inl e)
tam c (inr (inl e)) = inl e
tam c (inr (inr e)) = absurd e

z_powrotem : (c : OrderAccepted) → Any (λ y. c ≡ y) w_innej_kolejnosci → Any (λ y. c ≡ y) odpowiedzi
z_powrotem c (inl e) = inr (inl e)
z_powrotem c (inr (inl e)) = inl e
z_powrotem c (inr (inr (inl e))) = inr (inl e)
z_powrotem c (inr (inr (inr e))) = absurd e

abbrev koordynator : Keypair
koordynator = record { inner = 3 ∷ [] }

abbrev podpisana : OrderAccepted
podpisana =
    podpisz_przyjecie biblioteki (odpowiedz (to_hex biblioteki (public biblioteki koordynator)))
      koordynator

abbrev zaufani : List String
zaufani = to_hex biblioteki (public biblioteki koordynator) ∷ []

-- The unsigned answers do not race.
wygrywa_podpisana :
    winner_zrejestrowany biblioteki zaufani (pierwsza ∷ podpisana ∷ druga ∷ []) "o-1"
    ≡ some podpisana
unfolding winner_zrejestrowany dopusc dopuszczony zawiera podpis_przyjecia podpis_hex
    odcisk_przyjecia podpisz_przyjecie przyjecie_dokument content_digest min_by min_od wczesniejszy
    ranking str_ltb str_leb to_hex public sign_digest from_hex verify_digest podpisz skrot zakoduj
    odkoduj wartosc drukuj as_bytes utf8
wygrywa_podpisana = refl

winner_zrejestrowany_lem_example :
    ((dopusc biblioteki zaufani (pierwsza ∷ podpisana ∷ []) "o-1" ≡ [])
      × (winner_zrejestrowany biblioteki zaufani (pierwsza ∷ podpisana ∷ []) "o-1" ≡ none))
    ⊎ ((w : OrderAccepted) × (winner_zrejestrowany biblioteki zaufani
            (pierwsza ∷ podpisana ∷ [])
            "o-1"
          ≡ some w)
        × Any (λ c. w ≡ c) (pierwsza ∷ podpisana ∷ [])
        × (w.order_id ≡ "o-1")
        × Member w.coordinator_pubkey zaufani
        × (podpis_przyjecia biblioteki w ≡ true)
        × All
            (λ c. wczesniejszy biblioteki w c ≡ true)
            (dopusc biblioteki zaufani (pierwsza ∷ podpisana ∷ []) "o-1"))
winner_zrejestrowany_lem_example =
    winner_zrejestrowany_lem biblioteki zaufani (pierwsza ∷ podpisana ∷ []) "o-1"

bez_podpisu_nie : podpis_przyjecia biblioteki pierwsza ≡ false
unfolding podpis_przyjecia podpis_hex
bez_podpisu_nie = refl

abbrev kwit : Receipt
kwit = record {
  job_id = "job-1";
  node_id = "n1";
  model_hash = "mistral";
  runtime = "vllm";
  precision = fp16;
  activation_hash = "toploc";
  output_digest = "abc";
  prompt_tokens = 3;
  completion_tokens = 2;
  started_at_us = 1;
  finished_at_us = 2;
  signer = public biblioteki uzytkownik;
  signature = none;
  wiazania = none;
}

abbrev zakonczone : OrderCompleted
zakonczone = record {
  order_id = "o-1";
  job_id = "job-1";
  node_id = "n1";
  receipt = kwit;
  coordinator_pubkey = "aa";
}
