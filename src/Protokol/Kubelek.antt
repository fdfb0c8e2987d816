-- ===== src/Protokol/Kubelek.antt =====
-- `Kubelek` of crates/simon-core/src/protokol.rs: the token bucket of one peer, over `Float`.
use simon.Prelude.{ℕ, ◌-◌, max, Result, ok, err, if◌then◌else◌}
use simon.Prelude.Float.{Float}
use simon.Protokol.{BladProtokolu, rate_limit}

pub record Kubelek (f : Float) : Type 0 where
  pub pojemnosc : f.F
  pub tempo : f.F
  pub dostepne : f.F
  pub ostatni_us : ℕ

module _ (f : Float) where
  -- `Kubelek::nowy`
  unfoldable pub nowy_kubelek : f.F → f.F → ℕ → Kubelek f
  nowy_kubelek pojemnosc tempo_na_s teraz_us = record {
    pojemnosc = pojemnosc;
    tempo = tempo_na_s;
    dostepne = pojemnosc;
    ostatni_us = teraz_us;
  }

  unfoldable pub zezwol : Kubelek f → ℕ → Result BladProtokolu (Unit {0}) × Kubelek f
  zezwol k teraz_us =
      let dt = f.div (f.of_nat (teraz_us - k.ostatni_us)) (f.literal "1000000.0") in
      let ostatni_us = max k.ostatni_us teraz_us in
      let dostepne = f.min (f.add k.dostepne (f.mul dt k.tempo)) k.pojemnosc in
      if f.le (f.literal "1.0") dostepne
      then (
        ok tt,
        record k { ostatni_us = ostatni_us; dostepne = f.sub dostepne (f.literal "1.0") },
      )
      else (err rate_limit, record k { ostatni_us = ostatni_us; dostepne = dostepne })
