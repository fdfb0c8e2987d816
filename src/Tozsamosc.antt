-- ===== src/Tozsamosc.antt =====
-- crates/simon-core/src/tozsamosc.rs, as it is built for Linux: the file that keeps a client's key. The disk
-- is the key's file and the temporary file beside it; how each call of the system ends is an argument.
pub mod Durable
pub mod Reading
mod Tests
use simon.Prelude.{
  ℕ, ◌%◌, Bool, true, false, not, ◌&&◌, String, Option, none, some, Result, ok, err, ◌>>=◌, ◌>>◌,
  guard, map_err, ok_or, if◌then◌else◌, ◌==◌, ◌∷◌, [], is_ok,
}
use simon.Prelude.Text.{str_eq, str_append, str_is_empty}
use simon.Prelude.Trim.{trim}
use simon.Prelude.Dict.{is_some}
use simon.Kodowanie.{Bytes, Biblioteki}
use simon.Crypto.{Keypair, public, from_seed, try_into, key_eq}
use simon.Klient.Zlecenie.{Format, polacz}

pub record PlikTozsamosci : Type 0 where
  pub version : ℕ
  pub key_type : String
  pub secret_encoding : String
  pub created_at : String
  pub secret_key : String

pub data BladTozsamosci : Type 0 where
  uszkodzony : String → String → BladTozsamosci
  zle_prawa : String → ℕ → BladTozsamosci
  nie_moge_zapisac : String → String → BladTozsamosci
  zapis_niespojny : String → BladTozsamosci
  brak_katalogu_danych : BladTozsamosci

-- A file: its text, and its mode with the bits of its kind.
pub record Plik : Type 0 where
  pub tresc : String
  pub tryb : ℕ

pub record Dysk : Type 0 where
  pub tozsamosc : Option Plik
  pub tymczasowy : Option Plik

-- A path that has a directory or, as "/" and "", has none; and its text.
pub record Sciezka : Type 0 where
  pub tekst : String
  pub katalog : Option String

-- How the calls of the system end, each with an error's text: `exists` is the call for the metadata that
-- `Path::exists` makes, and `metadata` the later one, of the check of the rights. Then what a write that
-- fails has left, and the random seed and the time that a new key takes.
pub record Przebieg : Type 0 where
  pub exists : Result String (Unit {0})
  pub metadata : Result String (Unit {0})
  pub read : Result String (Unit {0})
  pub create_dir : Result String (Unit {0})
  pub open_tmp : Result String (Unit {0})
  pub write_all : Result String (Unit {0})
  pub sync_all : Result String (Unit {0})
  pub set_permissions : Result String (Unit {0})
  pub rename : Result String (Unit {0})
  pub urwane : String
  pub ziarno : Bytes
  pub czas : String

-- `serde_json` at the file's type.
pub record Zapis : Type 0 where
  pub to_string_pretty : PlikTozsamosci → Result String String
  pub from_str : String → Result String PlikTozsamosci

-- `Path::join` with a relative path.
unfoldable pub join : String → String → String
join h x =
    if str_is_empty h
    then x
    else if konczy_sie_ukosnikiem h
    then str_append h x
    else str_append h (str_append "/" x)
  where
    konczy_sie_ukosnikiem : String → Bool
    konczy_sie_ukosnikiem String.[] = false
    konczy_sie_ukosnikiem (String.◌∷◌ c String.[]) = str_eq (String.◌∷◌ c String.[]) "/"
    konczy_sie_ukosnikiem (String.◌∷◌ c s) = konczy_sie_ukosnikiem s

-- `domyslna_sciezka`, from the variables HOME and XDG_DATA_HOME.
unfoldable pub domyslna_sciezka : Option String → Option String → Result BladTozsamosci String
domyslna_sciezka (some h) (some x) = ok (join (join x "simon") "identity/client.key")
domyslna_sciezka none (some x) = ok (join (join x "simon") "identity/client.key")
domyslna_sciezka (some h) none =
    ok (join (join (join h ".local/share") "simon") "identity/client.key")
domyslna_sciezka none none = err brak_katalogu_danych

module _ (b : Biblioteki) (z : Zapis) (p : Sciezka) where
  abbrev pub uszkodzony_przez : String → BladTozsamosci
  uszkodzony_przez powod = uszkodzony p.tekst powod

  abbrev pub zapis_przez : String → BladTozsamosci
  zapis_przez powod = nie_moge_zapisac p.tekst powod

  -- `mode() & 0o777`, and the test of `tryb & 0o077`.
  unfoldable pub sprawdz_prawa : Przebieg → Plik → Result BladTozsamosci (Unit {0})
  sprawdz_prawa x plik = do
    map_err uszkodzony_przez x.metadata
    guard (plik.tryb % 512 % 64 == 0) (zle_prawa p.tekst (plik.tryb % 512))

  -- What a file's text must be, in `wczytaj`.
  unfoldable pub klucz_z_tekstu : String → Result BladTozsamosci Keypair
  klucz_z_tekstu tekst = do
    plik ← map_err (λ e. uszkodzony_przez (str_append "nie parsuje się: " e)) (z.from_str tekst)
    guard (str_eq plik.key_type "ed25519" && str_eq plik.secret_encoding "hex") (
        uszkodzony_przez
          (polacz ("nieznany typ/kodowanie: " ∷ plik.key_type ∷ "/" ∷ plik.secret_encoding ∷ [])))
    raw ←
        map_err (λ e. uszkodzony_przez (str_append "sekret nie jest hexem: " e))
          (b.hex_decode (trim plik.secret_key))
    ziarno ← try_into 32 raw (uszkodzony_przez "sekret nie ma 32 bajtów")
    ok (from_seed ziarno)

  -- A file that is not there has no metadata.
  unfoldable pub wczytaj : Przebieg → Dysk → Result BladTozsamosci Keypair
  unfolding sprawdz_prawa klucz_z_tekstu
  wczytaj x d = do
    plik ← ok_or d.tozsamosc (uszkodzony_przez "No such file or directory (os error 2)")
    sprawdz_prawa x plik
    map_err uszkodzony_przez x.read
    klucz_z_tekstu plik.tresc

  unfoldable pub nowy_plik : Przebieg → PlikTozsamosci
  nowy_plik x = record {
    version = 1;
    key_type = "ed25519";
    secret_encoding = "hex";
    created_at = x.czas;
    secret_key = b.hex_encode x.ziarno;
  }

  -- The mode 0o600 is given to a file that is created; one that was there keeps its own until it is set.
  abbrev pub otwarty : Option Plik → Plik
  otwarty none = record { tresc = ""; tryb = 0o600 }
  otwarty (some f) = record f { tresc = "" }

  -- The steps of `zaloz` that write: the disk after them, and the error at which they ended.
  unfoldable pub zapisz : Przebieg → Dysk → String → Dysk × Result BladTozsamosci (Unit {0})
  zapisz x d tresc = elim x.open_tmp [
    | err e ↦ (d, err (zapis_przez e))
    | ok _ ↦
        let f = otwarty d.tymczasowy in
        elim x.write_all [
          | err e ↦
              (record d { tymczasowy = some (record f { tresc = x.urwane }) }, err (zapis_przez e))
          | ok _ ↦
              let zapisany = record f { tresc = tresc } in
              elim x.sync_all [
                | err e ↦ (record d { tymczasowy = some zapisany }, err (zapis_przez e))
                | ok _ ↦ elim x.set_permissions [
                  | err e ↦ (record d { tymczasowy = some zapisany }, err (zapis_przez e))
                  | ok _ ↦
                      let gotowy = record zapisany { tryb = 0o600 } in
                      elim x.rename [
                        | err e ↦ (record d { tymczasowy = some gotowy }, err (zapis_przez e))
                        | ok _ ↦ (record { tozsamosc = some gotowy; tymczasowy = none }, ok tt)
                      ]
                ]
              ]
        ]
  ]

  -- The last check of `zaloz`: the file is read back and must give the same public key.
  unfoldable pub odczytaj_z_powrotem : Przebieg → Dysk → Keypair → Result BladTozsamosci Keypair
  odczytaj_z_powrotem x d klucz = do
    odczytany ← wczytaj x d
    guard (key_eq (public b odczytany) (public b klucz)) (zapis_niespojny p.tekst)
    ok klucz

  -- What `zaloz` does before it writes: the text of the new file.
  unfoldable pub przygotuj : Przebieg → Result BladTozsamosci String
  przygotuj x = do
    katalog ← ok_or p.katalog (zapis_przez "ścieżka bez katalogu")
    map_err zapis_przez x.create_dir
    map_err zapis_przez (z.to_string_pretty (nowy_plik x))

  unfoldable pub zaloz : Przebieg → Dysk → Dysk × Result BladTozsamosci Keypair
  unfolding zapisz odczytaj_z_powrotem przygotuj
  zaloz x d = elim (przygotuj x) [
    | err e ↦ (d, err e)
    | ok tresc ↦
        let po = zapisz x d tresc in
        elim po.1 [
          | err e ↦ (po.0, err e)
          | ok _ ↦ (po.0, odczytaj_z_powrotem x po.0 (from_seed x.ziarno))
        ]
  ]

  -- `Path::exists`: false where there is no file, and also where the call for its metadata fails.
  unfoldable pub exists : Przebieg → Dysk → Bool
  exists x d = is_some d.tozsamosc && is_ok x.exists

  unfoldable pub wczytaj_lub_zaloz : Przebieg → Dysk → Dysk × Result BladTozsamosci Keypair
  unfolding wczytaj zaloz exists
  wczytaj_lub_zaloz x d = if exists x d then (d, wczytaj x d) else zaloz x d
