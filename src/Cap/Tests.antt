-- ===== src/Cap/Tests.antt =====
-- Tests and witnesses for crates/simon-core/src/cap.rs, over the libraries of Crypto.Toy.
use simon.Prelude.{◌≡◌, ◌↔◌, refl, true, false, [], ◌∷◌, String, none, some, Result, ok, err}
use simon.Prelude.Text.{as_bytes, utf8}
use simon.Prelude.Int.{pos, negsuc}
use simon.Prelude.Dict.{lookup}
use simon.Kodowanie.{Dokument, Pola, number, text, object, koniec, pole, SimonError, content_digest}
use simon.Crypto.{Keypair, public, to_hex}
use simon.Crypto.Toy.{biblioteki, skrot, zakoduj, drukuj}
use simon.Cap.{
  tekst, enum, zakres, Akcja, Sufit, nieznana_akcja, poza_zakresem, nadmiarowy_parametr, waliduj,
  waliduj_parametry, waliduj_parametr, waliduj_wartosc, bez_nadmiaru, jako_obiekt, Zezwolenie,
  Kontekst, odcisk_parametrow_akcji, sprawdz_zezwolenie,
}
use simon.Cap.Conformance.{Zgodna, waliduj_iff}
use simon.Cap.Permits.{Dozwolone, sprawdz_zezwolenie_iff}

abbrev log_message : Akcja
log_message = record {
  nazwa = "log_message";
  parametry =
      record { nazwa = "poziom"; wymagany = true; ograniczenie = enum ("info" ∷ "warn" ∷ []) }
      ∷ record { nazwa = "tresc"; wymagany = true; ograniczenie = tekst 5 }
      ∷ record { nazwa = "waga"; wymagany = false; ograniczenie = zakres (negsuc 0) (pos 3) }
      ∷ [];
}

abbrev sufit : Sufit
sufit = ("log_message", log_message) ∷ []

abbrev pola : Pola
pola = pole "poziom" (text "info") (pole "tresc" (text "żółw") koniec)

abbrev parametry : Dokument
parametry = object pola

przechodzi : waliduj sufit "log_message" parametry ≡ ok tt
unfolding waliduj waliduj_parametry waliduj_parametr waliduj_wartosc bez_nadmiaru jako_obiekt lookup
przechodzi = refl

shell_odrzucony : waliduj sufit "shell" parametry ≡ err (nieznana_akcja "shell")
unfolding waliduj lookup
shell_odrzucony = refl

za_ciezki :
    waliduj sufit "log_message" (object (pole "waga" (number (pos 4)) pola))
    ≡ err (poza_zakresem "log_message" "waga")
unfolding waliduj waliduj_parametry waliduj_parametr waliduj_wartosc bez_nadmiaru jako_obiekt lookup
za_ciezki = refl

ponad_kontrakt :
    waliduj sufit "log_message" (object (pole "cmd" (text "rm") pola))
    ≡ err (nadmiarowy_parametr "log_message" "cmd")
unfolding waliduj waliduj_parametry waliduj_parametr waliduj_wartosc bez_nadmiaru jako_obiekt lookup
ponad_kontrakt = refl

waliduj_iff_example :
    (waliduj sufit "log_message" parametry ≡ ok tt) ↔ Zgodna sufit "log_message" parametry
waliduj_iff_example = waliduj_iff sufit "log_message" parametry

zgodna : Zgodna sufit "log_message" parametry
zgodna = (waliduj_iff sufit "log_message" parametry).0 przechodzi

abbrev operator : Keypair
operator = record { inner = 8 ∷ 1 ∷ [] }

abbrev odcisk_lub : Result SimonError String → String
odcisk_lub (ok s) = s
odcisk_lub (err e) = ""

abbrev odcisk : String
odcisk = odcisk_lub (odcisk_parametrow_akcji biblioteki "log_message" parametry)

odcisk_jest : odcisk_parametrow_akcji biblioteki "log_message" parametry ≡ ok odcisk
unfolding odcisk_parametrow_akcji content_digest skrot zakoduj drukuj as_bytes utf8
odcisk_jest = refl

abbrev zezwolenie : Zezwolenie
zezwolenie = record {
  id = "g-1";
  akcja = "log_message";
  parametry_digest = odcisk;
  wystawca = "";
  wazne_do_us = 1000;
  budzet = some (pos 1);
  podpis = none;
}

abbrev kontekst : Kontekst
kontekst = record {
  teraz_us = 1000;
  oczekiwany_wystawca = to_hex biblioteki (public biblioteki operator);
  odwolane = [];
  uzyte = [];
}

sprawdz_zezwolenie_iff_example :
    (sprawdz_zezwolenie biblioteki sufit zezwolenie "log_message" parametry kontekst ≡ ok tt)
    ↔ Dozwolone biblioteki sufit zezwolenie "log_message" parametry kontekst
sprawdz_zezwolenie_iff_example =
    sprawdz_zezwolenie_iff biblioteki sufit zezwolenie "log_message" parametry kontekst
