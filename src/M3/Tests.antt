-- ===== src/M3/Tests.antt =====
-- Tests and witnesses for crates/simon-core/src/m3.rs, over numbers that count hundredths.
use simon.Prelude.{◌+◌, ◌≤◌, ◌≡◌, refl, true, not, ◌&&◌, List, [], ◌∷◌, length, is_empty, ltb}
use simon.Prelude.Dict.{is_some}
use simon.Prelude.Sort.{sort_by}
use simon.Prelude.FloatToy.{setne_float}
use simon.Kodowanie.{Dokument, bool, object, koniec, pole}
use simon.Klient.Toy.{format}
use simon.M3.{
  Krok, Polityka, Werdykt, Audyt, Progi, polityka_domyslna, ocena, posortowane, niepoliczalne,
  znajdz, zgodny, margines,
}
use simon.M3.Verdict.{ile_w_polityce, ulamek, ocena_lem}

-- The token is the verifier's second: rank 2, margin 0.20.
abbrev dobry : Krok setne_float
dobry = record { indeks = 0; node_token = 7; topk = (3, 80) ∷ (7, 60) ∷ [] }

abbrev obcy : Krok setne_float
obcy = record { indeks = 1; node_token = 9; topk = (3, 80) ∷ (7, 60) ∷ [] }

abbrev kroki : List (Krok setne_float)
kroki = dobry ∷ obcy ∷ dobry ∷ []

abbrev polityka : Polityka setne_float
polityka = polityka_domyslna setne_float

abbrev werdykt : Werdykt setne_float
werdykt = ocena setne_float format polityka kroki

dwa_dobre : werdykt.w_topk ≡ 2
unfolding ocena posortowane sort_by niepoliczalne znajdz zgodny margines polityka_domyslna
dwa_dobre = refl

ocena_lem_example :
    (werdykt.krokow ≡ length kroki)
    × (werdykt.w_topk ≡ ile_w_polityce setne_float polityka kroki)
    × (werdykt.w_topk + werdykt.poza_topk ≡ werdykt.krokow)
    × (werdykt.poza_lista ≤ werdykt.poza_topk)
    × (werdykt.jest_ok ≡ (
        not (is_empty kroki)
        && setne_float.le (ulamek setne_float format polityka kroki) polityka.max_poza))
    × (is_some werdykt.powod ≡ (not werdykt.jest_ok && ltb 0 werdykt.poza_topk))
ocena_lem_example = ocena_lem setne_float format polityka kroki

abbrev progi : Progi setne_float
progi = record { twardy_poza = 5; min_krokow = 3 }

abbrev probny : Dokument
probny = object (pole "simulated" (bool true) koniec)

abbrev audyt : Audyt setne_float
audyt = record { kroki = kroki }
