-- ===== src/Acp/Race.antt =====
-- The race between coordinators as crates/simon-harness/src/acp_server.rs runs it, one answer at a time.
use simon.Prelude.{
  ◌≡◌, refl, false, List, [], ◌∷◌, String, Option, none, some, All, Bool-cases, inl, inr, subst,
}
use simon.Prelude.Dict.{lookup, insert, lookup-insert}
use simon.Prelude.MinBy.{min_by, min_od}
use simon.Kodowanie.{Biblioteki}
use simon.Klient.Wyscig.{OrderAccepted, wczesniejszy, winner}
use simon.Acp.{AcpServer, AktywneZlecenie, kandydaci, obsluz_przyjecie}
use simon.Acp.Zadanie.{przyjete, wynik_dotarl}

module _ (b : Biblioteki) where
  -- Answers that come one after another.
  unfoldable pub obsluz_przyjecia : AcpServer → List OrderAccepted → AcpServer
  obsluz_przyjecia s [] = s
  obsluz_przyjecia s (acc ∷ accs) = obsluz_przyjecia (obsluz_przyjecie b s acc).0 accs

  -- The order is active, its winner so far is `w`, and no result has come.
  pub record Prowadzi (s : AcpServer) (o : String) (w : Option OrderAccepted) : Type 0 where
    pub wpis : AktywneZlecenie
    pub jest : lookup o s.aktywne ≡ some wpis
    pub lider : wpis.accepted ≡ w
    pub bez_wyniku : wynik_dotarl wpis.faza ≡ false

  krok-Prowadzi :
      (s : AcpServer) (o : String) (w : Option OrderAccepted) (acc z : OrderAccepted)
      → acc.order_id ≡ o
      → winner b (kandydaci w acc) ≡ some z
      → Prowadzi s o w
      → Prowadzi (obsluz_przyjecie b s acc).0 o (some z)
  unfolding obsluz_przyjecie wynik_dotarl
  krok-Prowadzi s o w acc z q e p =
      let l : lookup acc.order_id s.aktywne ≡ some p.wpis = rw q p.jest in
      let f : winner b (kandydaci p.wpis.accepted acc) ≡ some z = rw p.lider e in
      let m : AktywneZlecenie = record p.wpis { accepted = some z; faza = przyjete z.job_id } in
      rw (l, obsluz_przyjecie)
        (rw f (
          rw p.bez_wyniku (record {
            wpis = m;
            jest =
                subst (λ k. lookup k (insert acc.order_id m s.aktywne) ≡ some m) q
                  (lookup-insert acc.order_id m s.aktywne);
            lider = refl;
            bez_wyniku = refl;
          })))

  wyscig_od :
      (s : AcpServer) (o : String) (m : OrderAccepted) (accs : List OrderAccepted)
      → All (λ a. a.order_id ≡ o) accs
      → Prowadzi s o (some m)
      → Prowadzi (obsluz_przyjecia s accs) o (some (min_od (wczesniejszy b) m accs))
  unfolding obsluz_przyjecia min_od winner kandydaci min_by wynik_dotarl
  wyscig_od s o m [] h p = p
  wyscig_od s o m (acc ∷ accs) (q, h) p = elim (Bool-cases (wczesniejszy b m acc)) [
    | inl t ↦ rw t (
        wyscig_od (obsluz_przyjecie b s acc).0 o m accs h
          (krok-Prowadzi s o (some m) acc m q (rw t) p))
    | inr t ↦ rw t (
        wyscig_od (obsluz_przyjecie b s acc).0 o acc accs h
          (krok-Prowadzi s o (some m) acc acc q (rw t) p))
  ]

  -- An order that has no winner and no result, after any answers for it have come one by one, has the
  -- winner that `OrderAccepted::winner` draws from all of them at once, in the order in which they came.
  pub obsluz_przyjecia-winner :
      (s : AcpServer) (o : String) (accs : List OrderAccepted)
      → All (λ a. a.order_id ≡ o) accs
      → Prowadzi s o none
      → Prowadzi (obsluz_przyjecia s accs) o (winner b accs)
  unfolding obsluz_przyjecia winner kandydaci min_by min_od
  obsluz_przyjecia-winner s o [] h p = p
  obsluz_przyjecia-winner s o (acc ∷ accs) (q, h) p =
      wyscig_od (obsluz_przyjecie b s acc).0 o acc accs h (krok-Prowadzi s o none acc acc q refl p)
