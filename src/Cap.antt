-- ===== src/Cap.antt =====
-- crates/simon-core/src/cap.rs: the capability ceiling, against which a model's proposal is validated,
-- and the operator's permits.
pub mod Conformance
pub mod Permits
mod Tests
use simon.Prelude.{
  ℕ, Bool, true, false, not, ◌&&◌, List, [], ◌∷◌, String, Option, none, some, Result, ok, err,
  ◌>>=◌, ◌>>◌, guard, ok_or, map_err, any, leb, length, if◌then◌else◌,
}
use simon.Prelude.Text.{str_eq, str_is_empty, chars}
use simon.Prelude.Int.{ℤ, pos, leb_ℤ}
use simon.Prelude.Dict.{Dict, lookup}
use simon.Kodowanie.{
  Dokument, Pola, Biblioteki, null, number, text, object, struct, koniec, pole, get_pole, as_str,
  as_i64, is_boolean, SimonError, content_digest,
}
use simon.Crypto.{
  PublicKey, Keypair, public, sign_digest, to_hex, from_hex, verify_digest, try_into,
}
use simon.Receipt.{pole_opcjonalne}

pub data Ograniczenie : Type 0 where
  tekst : ℕ → Ograniczenie
  enum : List String → Ograniczenie
  zakres : ℤ → ℤ → Ograniczenie
  logiczne : Ograniczenie

pub record Parametr : Type 0 where
  pub nazwa : String
  pub wymagany : Bool
  pub ograniczenie : Ograniczenie

pub record Akcja : Type 0 where
  pub nazwa : String
  pub parametry : List Parametr

-- `Sufit`, by its one field `akcje`
abbrev pub Sufit : Type 0
Sufit = Dict Akcja

pub data Odmowa : Type 0 where
  nieznana_akcja : String → Odmowa
  brak_parametru nadmiarowy_parametr zly_typ : String → String → Odmowa
  za_dlugi : String → String → ℕ → Odmowa
  poza_enum poza_zakresem : String → String → Odmowa

-- The match on one constraint, for a parameter that is there.
unfoldable pub waliduj_wartosc :
    String → String → Ograniczenie → Dokument → Result Odmowa (Unit {0})
waliduj_wartosc akcja nazwa (tekst max_len) v = elim (as_str v) [
  | none ↦ err (zly_typ akcja nazwa)
  | some s ↦ guard (leb (length (chars s)) max_len) (za_dlugi akcja nazwa max_len)
]
waliduj_wartosc akcja nazwa (enum wartosci) v = elim (as_str v) [
  | none ↦ err (zly_typ akcja nazwa)
  | some s ↦ guard (any (str_eq s) wartosci) (poza_enum akcja nazwa)
]
waliduj_wartosc akcja nazwa (zakres lo hi) v = elim (as_i64 v) [
  | none ↦ err (zly_typ akcja nazwa)
  | some n ↦ guard (leb_ℤ lo n && leb_ℤ n hi) (poza_zakresem akcja nazwa)
]
waliduj_wartosc akcja nazwa logiczne v = guard (is_boolean v) (zly_typ akcja nazwa)

unfoldable pub waliduj_parametr : String → Pola → Parametr → Result Odmowa (Unit {0})
waliduj_parametr akcja o p = elim (get_pole p.nazwa o) [
  | none ↦ guard (not p.wymagany) (brak_parametru akcja p.nazwa)
  | some v ↦ waliduj_wartosc akcja p.nazwa p.ograniczenie v
]

-- `for p in &def.parametry`
unfoldable pub waliduj_parametry : String → Pola → List Parametr → Result Odmowa (Unit {0})
waliduj_parametry akcja o [] = ok tt
waliduj_parametry akcja o (p ∷ ps) = waliduj_parametr akcja o p >> waliduj_parametry akcja o ps

abbrev pub zadeklarowany : List Parametr → String → Bool
zadeklarowany ps k = any (λ p. str_eq p.nazwa k) ps

-- `for k in o.keys()`
unfoldable pub bez_nadmiaru : String → List Parametr → Pola → Result Odmowa (Unit {0})
bez_nadmiaru akcja ps koniec = ok tt
bez_nadmiaru akcja ps (pole k v o) =
    guard (zadeklarowany ps k) (nadmiarowy_parametr akcja k) >> bez_nadmiaru akcja ps o

-- No arguments are `Null`; a scalar or an array is of a wrong type.
unfoldable pub jako_obiekt : String → Dokument → Result Odmowa Pola
jako_obiekt akcja null = ok koniec
jako_obiekt akcja (object o) = ok o
jako_obiekt akcja _ = err (zly_typ akcja "parametry")

unfoldable pub waliduj : Sufit → String → Dokument → Result Odmowa (Unit {0})
waliduj sufit akcja parametry = do
  def ← ok_or (lookup akcja sufit) (nieznana_akcja akcja)
  o ← jako_obiekt akcja parametry
  bez_nadmiaru akcja def.parametry o
  waliduj_parametry akcja o def.parametry

pub record Propozycja : Type 0 where
  pub tool : String
  pub args : Dokument

-- `serde_json::from_str` is an argument; its error is dropped.
unfoldable pub waliduj_json :
    (String → Option Propozycja) → Sufit → String → Result Odmowa (Unit {0})
waliduj_json from_str sufit propozycja_json = do
  p ← ok_or (from_str propozycja_json) (zly_typ "<json>" "args")
  waliduj sufit p.tool p.args

pub record Zezwolenie : Type 0 where
  pub id : String
  pub akcja : String
  pub parametry_digest : String
  pub wystawca : String
  pub wazne_do_us : ℕ
  pub budzet : Option ℤ
  pub podpis : Option String

unfoldable pub zezwolenie_dokument : Zezwolenie → Dokument
zezwolenie_dokument z = struct (
    pole "id" (text z.id) (
      pole "akcja" (text z.akcja) (
        pole "parametry_digest" (text z.parametry_digest) (
          pole "wystawca" (text z.wystawca) (
            pole "wazne_do_us" (number (pos z.wazne_do_us)) (
              pole_opcjonalne "budzet" number z.budzet
                (pole_opcjonalne "podpis" text z.podpis koniec)))))))

pub record Kontekst : Type 0 where
  pub teraz_us : ℕ
  pub oczekiwany_wystawca : String
  pub odwolane : List String
  pub uzyte : List String

pub data OdmowaZ : Type 0 where
  zly_format zly_podpis zly_wystawca wygaslo zezwolenie_odwolane zezwolenie_uzyte zla_akcja
        zle_parametry :
      OdmowaZ

-- `map_err(|_| e)`
abbrev pub albo {ℓ κ} : {E : Type ℓ} {A : Type κ} → OdmowaZ → Result E A → Result OdmowaZ A
albo e r = map_err (λ _. e) r

-- `Some(b)` with `b <= 0` has run out.
abbrev pub budzet_ok : Option ℤ → Bool
budzet_ok none = true
budzet_ok (some n) = not (leb_ℤ n (pos 0))

module _ (b : Biblioteki) where
  unfoldable pub odcisk_parametrow_akcji : String → Dokument → Result SimonError String
  odcisk_parametrow_akcji akcja parametry = content_digest b (
      object (
        pole "domena" (text "SIMON/GRANT-PARAMS/v1")
          (pole "akcja" (text akcja) (pole "parametry" parametry koniec))))

  -- `Zezwolenie::digest`
  unfoldable pub odcisk_zezwolenia : Zezwolenie → Result SimonError String
  odcisk_zezwolenia z = content_digest b (zezwolenie_dokument (record z { podpis = none }))

  -- `Zezwolenie::podpisz`
  unfoldable pub podpisz_zezwolenie : Zezwolenie → Keypair → Result SimonError Zezwolenie
  podpisz_zezwolenie z kp = do
    let z' = record z { wystawca = to_hex b (public b kp) }
    d ← odcisk_zezwolenia z'
    ok (record z' { podpis = some (b.hex_encode (sign_digest b kp d).bajty) })

  -- Step 1 of `sprawdz`: the signature under the issuer's key.
  unfoldable pub sprawdz_podpis : Zezwolenie → Result OdmowaZ (Unit {0})
  sprawdz_podpis z = do
    pk ← albo zly_format (from_hex b z.wystawca)
    sig_hex ← ok_or z.podpis zly_podpis
    raw ← albo zly_format (b.hex_decode sig_hex)
    arr ← try_into 64 raw zly_format
    d ← albo zly_format (odcisk_zezwolenia z)
    albo zly_podpis (verify_digest b pk d (record { bajty = arr }))

  unfoldable pub sprawdz_zezwolenie :
      Sufit → Zezwolenie → String → Dokument → Kontekst → Result OdmowaZ (Unit {0})
  sprawdz_zezwolenie sufit z akcja parametry k = do
    guard (not (str_is_empty z.id)) zly_format
    sprawdz_podpis z
    guard (str_eq z.wystawca k.oczekiwany_wystawca) zly_wystawca
    guard (leb k.teraz_us z.wazne_do_us) wygaslo
    guard (budzet_ok z.budzet) wygaslo
    guard (not (any (λ x. str_eq x z.id) k.odwolane)) zezwolenie_odwolane
    guard (not (any (λ x. str_eq x z.id) k.uzyte)) zezwolenie_uzyte
    guard (str_eq z.akcja akcja) zla_akcja
    d ← albo zly_format (odcisk_parametrow_akcji akcja parametry)
    guard (str_eq d z.parametry_digest) zle_parametry
    albo zle_parametry (waliduj sufit akcja parametry)
