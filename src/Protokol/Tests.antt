-- ===== src/Protokol/Tests.antt =====
-- Tests and witnesses for protokol.rs.
use simon.Prelude.{◌+◌, ◌≤◌, ◌≡◌, refl, true, false, some, [], ◌∷◌, err, length, is_ok}
use simon.Protokol.{
  OknoNonce, nowe_okno, przyjmij, nonce_za_stary, nonce_powtorzony, sprawdz_rozmiar,
  max_wiadomosc_bajtow, wiadomosc_za_duza,
}
use simon.Protokol.Replay.{po_ciagu, bez_powtorki, zero_za_stary}
use simon.Protokol.Window.{pamiec_ograniczona}

abbrev okno_100 : OknoNonce
okno_100 = record { najwyzszy = some 105; okno = 10; widziane = 100 ∷ 105 ∷ [] }

okno_100_osiagalne : po_ciagu (nowe_okno 10) (100 ∷ 100 ∷ 105 ∷ []) ≡ okno_100
unfolding po_ciagu nowe_okno przyjmij
okno_100_osiagalne = refl

przyjmij_powtorzony : (przyjmij okno_100 100).0 ≡ err nonce_powtorzony
unfolding przyjmij
przyjmij_powtorzony = refl

przyjmij_za_stary : (przyjmij (przyjmij okno_100 120).1 100).0 ≡ err nonce_za_stary
unfolding przyjmij
przyjmij_za_stary = refl

rozmiar_za_duzy : sprawdz_rozmiar (max_wiadomosc_bajtow + 1) ≡ err wiadomosc_za_duza
unfolding sprawdz_rozmiar
rozmiar_za_duzy = refl

przyjmij_103 : is_ok (przyjmij okno_100 103).0 ≡ true
unfolding przyjmij
przyjmij_103 = refl

bez_powtorki_example :
    is_ok (przyjmij (po_ciagu (przyjmij okno_100 103).1 (120 ∷ 99 ∷ 111 ∷ [])) 103).0 ≡ false
bez_powtorki_example = bez_powtorki okno_100 103 (120 ∷ 99 ∷ 111 ∷ []) przyjmij_103

pamiec_ograniczona_example : length (po_ciagu (nowe_okno 3) (5 ∷ 6 ∷ 7 ∷ 8 ∷ 9 ∷ [])).widziane ≤ 3
pamiec_ograniczona_example = pamiec_ograniczona 3 (5 ∷ 6 ∷ 7 ∷ 8 ∷ 9 ∷ [])

abbrev okno_5 : OknoNonce
okno_5 = record { najwyzszy = some 5; okno = 10; widziane = 5 ∷ [] }

zero_za_stary_example : (przyjmij okno_5 0).0 ≡ err nonce_za_stary
zero_za_stary_example = zero_za_stary okno_5 5 refl
