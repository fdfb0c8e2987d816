-- ===== src/Limity.antt =====
-- crates/simon-core/src/limity.rs: the resource limits of one order at the node's boundary. A method
-- that takes `&mut self` returns its answer beside the new budget; a field that is written before an
-- error stays written.
pub mod Trace
pub mod Bounds
mod Tests
use simon.Prelude.{ℕ, ◌+◌, ◌-◌, ◌*◌, Bool, true, false, if◌then◌else◌, ltb, Result, ok, err}
use simon.Prelude.Words.{u32_max, usize_max, saturating_add}

pub record Limity : Type 0 where
  pub deadline_us : ℕ
  pub max_tokenow : ℕ
  pub max_bajtow : ℕ
  pub max_krokow_narzedzi : ℕ

-- `Limity::default`
abbrev pub limity_domyslne : Limity
limity_domyslne = record {
  deadline_us = 120_000_000;
  max_tokenow = 4096;
  max_bajtow = 8 * 1024 * 1024;
  max_krokow_narzedzi = 16;
}

pub data Przekroczenie : Type 0 where
  deadline tokeny bajty kroki_narzedzi anulowane : Przekroczenie

pub record Budzet : Type 0 where
  pub limity : Limity
  pub start_us : ℕ
  pub uzyte_tokeny : ℕ
  pub uzyte_bajty : ℕ
  pub kroki : ℕ
  pub czy_anulowane : Bool

abbrev pub Odpowiedz : Type 0
Odpowiedz = Result Przekroczenie (Unit {0}) × Budzet

unfoldable pub nowy : Limity → ℕ → Budzet
nowy limity teraz_us = record {
  limity = limity;
  start_us = teraz_us;
  uzyte_tokeny = 0;
  uzyte_bajty = 0;
  kroki = 0;
  czy_anulowane = false;
}

unfoldable pub anuluj : Budzet → Budzet
anuluj b = record b { czy_anulowane = true }

unfoldable pub sprawdz : Budzet → ℕ → Result Przekroczenie (Unit {0})
sprawdz b teraz_us =
    if b.czy_anulowane
    then err anulowane
    else if ltb b.limity.deadline_us (teraz_us - b.start_us)
    then err deadline
    else ok tt

unfoldable pub dodaj_tokeny : Budzet → ℕ → ℕ → Odpowiedz
unfolding sprawdz
dodaj_tokeny b n teraz_us = elim (sprawdz b teraz_us) [
  | err e ↦ (err e, b)
  | ok _ ↦
      let razem = saturating_add u32_max b.uzyte_tokeny n in
      (
        if ltb b.limity.max_tokenow razem then err tokeny else ok tt,
        record b { uzyte_tokeny = razem },
      )
]

unfoldable pub dodaj_bajty : Budzet → ℕ → ℕ → Odpowiedz
unfolding sprawdz
dodaj_bajty b n teraz_us = elim (sprawdz b teraz_us) [
  | err e ↦ (err e, b)
  | ok _ ↦
      let razem = saturating_add usize_max b.uzyte_bajty n in
      (if ltb b.limity.max_bajtow razem then err bajty else ok tt, record b { uzyte_bajty = razem })
]

unfoldable pub krok_narzedzia : Budzet → ℕ → Odpowiedz
unfolding sprawdz
krok_narzedzia b teraz_us = elim (sprawdz b teraz_us) [
  | err e ↦ (err e, b)
  | ok _ ↦
      let razem = saturating_add u32_max b.kroki 1 in
      (
        if ltb b.limity.max_krokow_narzedzi razem then err kroki_narzedzi else ok tt,
        record b { kroki = razem },
      )
]

unfoldable pub zuzycie : Budzet → ℕ × ℕ × ℕ
zuzycie b = (b.uzyte_tokeny, b.uzyte_bajty, b.kroki)
