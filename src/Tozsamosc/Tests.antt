-- ===== src/Tozsamosc/Tests.antt =====
-- Tests and witnesses for crates/simon-core/src/tozsamosc.rs, over the libraries of Crypto.Toy.
use simon.Prelude.{◌≡◌, ◌↔◌, refl, [], ◌∷◌, String, Option, none, some, ok, err, ◌⊎◌}
use simon.Prelude.Trim.{trim, trim_start, trim_end}
use simon.Crypto.{Keypair, public, from_seed}
use simon.Crypto.Toy.{biblioteki, skrot, zakoduj, odkoduj, wartosc}
use simon.Tozsamosc.{
  Plik, Dysk, Sciezka, Przebieg, Zapis, zapisz, wczytaj, zaloz, przygotuj, odczytaj_z_powrotem,
  sprawdz_prawa, klucz_z_tekstu, nowy_plik, wczytaj_lub_zaloz, domyslna_sciezka, join, exists,
  BladTozsamosci,
}
use simon.Tozsamosc.Reading.{Poprawny}
use simon.Tozsamosc.Durable.{wczytaj_lub_zaloz_istniejacy, drugi_start, swiezy}

w_katalogu_domowym :
    domyslna_sciezka (some "/home/u") none ≡ ok "/home/u/.local/share/simon/identity/client.key"
unfolding domyslna_sciezka join
w_katalogu_domowym = refl

-- An empty XDG_DATA_HOME gives a path in the current directory.
w_katalogu_biezacym :
    (h : Option String) → domyslna_sciezka h (some "") ≡ ok "simon/identity/client.key"
unfolding domyslna_sciezka join
w_katalogu_biezacym none = refl
w_katalogu_biezacym (some h) = refl

abbrev udany : Przebieg
udany = record {
  exists = ok tt;
  metadata = ok tt;
  read = ok tt;
  create_dir = ok tt;
  open_tmp = ok tt;
  write_all = ok tt;
  sync_all = ok tt;
  set_permissions = ok tt;
  rename = ok tt;
  urwane = "";
  ziarno = skrot (1 ∷ []);
  czas = "1790000000";
}

-- A format that keeps the secret alone.
abbrev zapis : Zapis
zapis = record {
  to_string_pretty = λ p. ok p.secret_key;
  from_str = λ s. ok (record {
    version = 1;
    key_type = "ed25519";
    secret_encoding = "hex";
    created_at = "";
    secret_key = s;
  });
}

abbrev sciezka : Sciezka
sciezka = record { tekst = "/d/client.key"; katalog = some "/d" }

abbrev pusty : Dysk
pusty = record { tozsamosc = none; tymczasowy = none }

abbrev klucz : Keypair
klucz = from_seed (skrot (1 ∷ []))

abbrev plik : Plik
plik = record { tresc = zakoduj (skrot (1 ∷ [])); tryb = 0o600 }

abbrev zapisany : Dysk
zapisany = record { tozsamosc = some plik; tymczasowy = none }

pierwszy_start : wczytaj_lub_zaloz biblioteki zapis sciezka udany pusty ≡ (zapisany, ok klucz)
unfolding wczytaj_lub_zaloz zaloz zapisz przygotuj odczytaj_z_powrotem wczytaj sprawdz_prawa
    klucz_z_tekstu nowy_plik from_seed public trim trim_start trim_end zakoduj odkoduj wartosc skrot
    exists
pierwszy_start = refl

-- A call for the metadata that fails once.
abbrev bez_metadanych : Przebieg
bez_metadanych = record udany { exists = err "Interrupted system call"; ziarno = skrot (2 ∷ []) }

drugi_start_example :
    (k' : Keypair) × (wczytaj_lub_zaloz biblioteki zapis sciezka udany zapisany ≡ (zapisany, ok k'))
    × (public biblioteki k' ≡ public biblioteki klucz)
drugi_start_example =
    drugi_start biblioteki zapis sciezka udany udany pusty zapisany klucz pierwszy_start refl refl
      refl

wczytaj_lub_zaloz_istniejacy_example :
    ((bez_metadanych.exists ≡ ok tt)
      × ((wczytaj_lub_zaloz biblioteki zapis sciezka bez_metadanych zapisany).0 ≡ zapisany)
      × (((wczytaj_lub_zaloz biblioteki zapis sciezka bez_metadanych zapisany).1 ≡ ok klucz) ↔ (
          (bez_metadanych.metadata ≡ ok tt)
          × (bez_metadanych.read ≡ ok tt)
          × Poprawny biblioteki zapis sciezka plik klucz)))
    ⊎ ((e : String) × (bez_metadanych.exists ≡ err e)
        × (((f : BladTozsamosci) × ((wczytaj_lub_zaloz biblioteki zapis sciezka bez_metadanych
                  zapisany).1
                ≡ err f))
            ⊎ ((tresc : String) × (zapis.to_string_pretty
                    (nowy_plik biblioteki zapis sciezka bez_metadanych)
                  ≡ ok tresc)
                × (wczytaj_lub_zaloz biblioteki zapis sciezka bez_metadanych zapisany ≡ (
                  swiezy biblioteki zapis sciezka tresc,
                  ok (from_seed bez_metadanych.ziarno),
                )))))
wczytaj_lub_zaloz_istniejacy_example =
    wczytaj_lub_zaloz_istniejacy biblioteki zapis sciezka bez_metadanych zapisany plik klucz refl

-- The identity has changed without an error.
podmieniona_tozsamosc : wczytaj_lub_zaloz biblioteki zapis sciezka bez_metadanych zapisany ≡ (
  record {
    tozsamosc = some (record { tresc = zakoduj (skrot (2 ∷ [])); tryb = 0o600 });
    tymczasowy = none;
  },
  ok (from_seed (skrot (2 ∷ []))),
)
unfolding wczytaj_lub_zaloz zaloz zapisz przygotuj odczytaj_z_powrotem wczytaj sprawdz_prawa
    klucz_z_tekstu nowy_plik from_seed public trim trim_start trim_end zakoduj odkoduj wartosc skrot
    exists
podmieniona_tozsamosc = refl

abbrev pelny_dysk : Przebieg
pelny_dysk = record udany { write_all = err "No space left on device"; urwane = "{" }
