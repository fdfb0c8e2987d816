-- ===== src/Koordynator/Toy.antt =====
-- A coordinator that accepts an order, for tests and witnesses.
use simon.Prelude.{◌≡◌, refl, [], ◌∷◌, String, Result, ok, err}
use simon.Prelude.Text.{as_bytes, utf8}
use simon.Prelude.StrOrder.{sort, wstaw, str_ltb, str_leb}
use simon.Prelude.Dict.{lookup, insert, remove}
use simon.Kodowanie.{SimonError, content_digest}
use simon.Crypto.{Keypair, public, to_hex, from_hex, sign_digest, verify_digest}
use simon.Crypto.Toy.{biblioteki, skrot, zakoduj, odkoduj, wartosc, podpisz, drukuj}
use simon.Node.{
  register, assign, kandydaci_dla_modelu, id_spelniajacych, nadaje_sie, miesci_ctx, nowy_rejestr,
}
use simon.Node.Los.{swieze, losuj, wybierz_kandydata_vrf, vrf_dokument, pick_dokument}
use simon.Node.Register.{usable, nowa_rejestracja}
use simon.Node.Steps.{krok, przebieg}
use simon.Node.Toy.{rejestr}
use simon.Klient.Zlecenie.{
  zweryfikuj_autoryzacje, zgodna_z, czy_wazna, podpis_autoryzacji, odcisk_autoryzacji,
  podpisz_autoryzacje, autoryzacja_dokument, zajmij,
}
use simon.Klient.Podpis.{podpis_hex}
use simon.Klient.Wyscig.{OrderAccepted}
use simon.Klient.Toy.{format, zlecenie}
use simon.Koordynator.{
  Stan, Odpowiedz, przyjete, przetworz_zlecenie, przydziel_zlecenie, wybierz_z_rezerwa, przyjecie,
  job_id_zlecenia,
}

abbrev pub koordynator : Keypair
koordynator = record { inner = 3 ∷ [] }

abbrev pub stan : Stan
stan = record { zuzyte = []; rejestr = rejestr }

abbrev pub odcisk_lub : Result SimonError String → String
odcisk_lub (ok s) = s
odcisk_lub (err e) = ""

abbrev pub odcisk : String
odcisk = odcisk_lub (zweryfikuj_autoryzacje biblioteki format zlecenie 1060)

pub przechodzi : zweryfikuj_autoryzacje biblioteki format zlecenie 1060 ≡ ok odcisk
unfolding zweryfikuj_autoryzacje zgodna_z czy_wazna podpis_autoryzacji odcisk_autoryzacji
    podpisz_autoryzacje autoryzacja_dokument podpis_hex content_digest to_hex public sign_digest
    from_hex verify_digest podpisz skrot zakoduj odkoduj wartosc drukuj as_bytes utf8
przechodzi = refl

abbrev pub wynik : Stan × Odpowiedz
wynik = przetworz_zlecenie biblioteki format koordynator stan zlecenie 1060

abbrev pub ziarno : String
ziarno = odcisk_lub (content_digest biblioteki (vrf_dokument "mistral" "job-0123456789abcdef"))

abbrev pub odpowiedz : OrderAccepted
odpowiedz = przyjecie biblioteki koordynator zlecenie "job-0123456789abcdef" ziarno

pub przyjmuje : wynik ≡ (wynik.0, przyjete odpowiedz "n1" 512)
unfolding przetworz_zlecenie przydziel_zlecenie wybierz_z_rezerwa job_id_zlecenia zajmij
    zweryfikuj_autoryzacje zgodna_z czy_wazna podpis_autoryzacji odcisk_autoryzacji
    podpisz_autoryzacje autoryzacja_dokument podpis_hex content_digest to_hex public sign_digest
    from_hex verify_digest podpisz skrot zakoduj odkoduj wartosc drukuj as_bytes utf8
    wybierz_kandydata_vrf losuj swieze pick_dokument vrf_dokument str_ltb str_leb
    kandydaci_dla_modelu id_spelniajacych nadaje_sie miesci_ctx sort wstaw przebieg krok register
    assign insert remove lookup usable nowy_rejestr nowa_rejestracja
przyjmuje = refl
