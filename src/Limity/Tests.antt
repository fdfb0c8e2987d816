-- ===== src/Limity/Tests.antt =====
-- Tests and witnesses for limity.rs.
use simon.Prelude.{◌≤◌, ◌≡◌, ◌≢◌, refl, false, List, [], ◌∷◌, arith, ok, err}
use simon.Limity.{
  Limity, Budzet, tokeny, deadline, nowy, sprawdz, dodaj_tokeny, dodaj_bajty, krok_narzedzia,
  zuzycie,
}
use simon.Limity.Trace.{
  Wywolanie, cancel, check, add_tokens, add_bytes, tool_step, wykonaj, przebieg,
  do_pierwszej_odmowy, suma_tokenow, suma_bajtow, suma_krokow,
}
use simon.Limity.Bounds.{nowy_bez_odmowy}

abbrev lim : Limity
lim = record {
  deadline_us = 1_000_000;
  max_tokenow = 10;
  max_bajtow = 100;
  max_krokow_narzedzi = 2;
}

abbrev swiezy : Budzet
swiezy = nowy lim 0

abbrev zlecenie : List Wywolanie
zlecenie = check 5 ∷ add_tokens 4 10 ∷ tool_step 20 ∷ add_bytes 100 30 ∷ add_tokens 6 40 ∷ []

deadline_przerywa : (dodaj_tokeny swiezy 1 2_000_000).0 ≡ err deadline
unfolding nowy dodaj_tokeny
deadline_przerywa = refl

tokeny_na_limicie : (dodaj_tokeny (dodaj_tokeny swiezy 10 0).1 1 0).0 ≡ err tokeny
unfolding nowy dodaj_tokeny
tokeny_na_limicie = refl

zlecenie_uzywa : zuzycie (przebieg swiezy zlecenie) ≡ (10, 100, 1)
unfolding nowy zuzycie przebieg wykonaj sprawdz dodaj_tokeny dodaj_bajty krok_narzedzia
zlecenie_uzywa = refl

check-ne-cancel : check 7 ≢ cancel
check-ne-cancel = λ e. cc

abbrev po_zleceniu : Budzet
po_zleceniu = record {
  limity = lim;
  start_us = 0;
  uzyte_tokeny = 10;
  uzyte_bajty = 100;
  kroki = 1;
  czy_anulowane = false;
}

zlecenie_ok : do_pierwszej_odmowy swiezy zlecenie ≡ ok po_zleceniu
unfolding nowy do_pierwszej_odmowy wykonaj sprawdz dodaj_tokeny dodaj_bajty krok_narzedzia
zlecenie_ok = refl

nowy_bez_odmowy_example :
    (zuzycie po_zleceniu ≡ (suma_tokenow zlecenie, suma_bajtow zlecenie, suma_krokow zlecenie))
    × (suma_tokenow zlecenie ≤ 10)
    × (suma_bajtow zlecenie ≤ 100)
    × (suma_krokow zlecenie ≤ 2)
nowy_bez_odmowy_example = nowy_bez_odmowy lim 0 zlecenie po_zleceniu (omega arith) zlecenie_ok

tokeny_przekroczone : (dodaj_tokeny swiezy 11 0).0 ≡ err tokeny
unfolding nowy dodaj_tokeny
tokeny_przekroczone = refl
