-- ===== src/Koordynator/Steps.antt =====
-- The loop of crates/simon-cli/src/coord.rs, as the calls of the coordinator's handlers in the order of the
-- messages. After a panic there is no further call; a run that goes on says more than the program does.
use simon.Prelude.{
  ℕ, ◌≡◌, ◌⊎◌, inl, inr, refl, sym, List, [], ◌∷◌, String, none, Bool-cases, Option-cases,
  Result-cases, subst, ◌∙◌,
}
use simon.Prelude.Dict.{Member}
use simon.Kodowanie.{Biblioteki}
use simon.Crypto.{Keypair}
use simon.Node.{assign}
use simon.Node.Register.{RegisterMsg}
use simon.Node.Wynik.{JobResult}
use simon.Klient.Zlecenie.{Format, JobOrder, zweryfikuj_autoryzacje, zajmij}
use simon.Koordynator.{
  Stan, job_id_zlecenia, wybierz_z_rezerwa, przydziel_zlecenie, przetworz_zlecenie,
  obsluz_rejestracje, obsluz_wynik,
}
use simon.Koordynator.Orders.{zajmij-ok}

-- A message that the coordinator takes; an order comes with the time at which it is handled.
pub data Zdarzenie : Type 0 where
  rejestracja : RegisterMsg → Zdarzenie
  wynik : JobResult → Zdarzenie
  zlecenie : JobOrder → ℕ → Zdarzenie

module _ (b : Biblioteki) (fmt : Format) (klucz : Keypair) where
  unfoldable pub obsluz : Stan → Zdarzenie → Stan
  obsluz s (rejestracja m) = record s { rejestr = (obsluz_rejestracje b s.rejestr m none).0 }
  obsluz s (wynik r) = record s { rejestr = obsluz_wynik b s.rejestr r }
  obsluz s (zlecenie o teraz) = (przetworz_zlecenie b fmt klucz s o teraz).0

  unfoldable pub przebieg : Stan → List Zdarzenie → Stan
  unfolding obsluz
  przebieg s [] = s
  przebieg s (z ∷ zs) = przebieg (obsluz s z) zs

  przydziel_zlecenie-zuzyte :
      (s : Stan) (o : JobOrder) (job : String) (t : ℕ)
      → (przydziel_zlecenie b klucz s o job t).0.zuzyte ≡ s.zuzyte
  unfolding przydziel_zlecenie
  przydziel_zlecenie-zuzyte s o job t =
      elim (Option-cases (wybierz_z_rezerwa b s.rejestr o job t)) [
        | inl e ↦ rw (e, przydziel_zlecenie) refl
        | inr ((n, z, c), e) ↦ elim (Bool-cases (assign s.rejestr job n).1) [
          | inl f ↦ rw (e, przydziel_zlecenie, f) refl
          | inr f ↦ rw (e, przydziel_zlecenie, f) refl
        ]
      ]

  -- An order that is refused before its digest is taken leaves the digests; any other one adds its own.
  przetworz_zlecenie-zuzyte :
      (s : Stan) (o : JobOrder) (t : ℕ)
      → ((przetworz_zlecenie b fmt klucz s o t).0.zuzyte ≡ s.zuzyte)
        ⊎ ((d : String) × ((przetworz_zlecenie b fmt klucz s o t).0.zuzyte ≡ d ∷ s.zuzyte))
  unfolding przetworz_zlecenie
  przetworz_zlecenie-zuzyte s o t = elim (Result-cases (zweryfikuj_autoryzacje b fmt o t)) [
    | inr (x, e) ↦ inl (rw (e, przetworz_zlecenie) refl)
    | inl (d, e) ↦ elim (Result-cases (zajmij s.zuzyte d)) [
      | inr (x, f) ↦ inl (rw (e, przetworz_zlecenie, f) refl)
      | inl (z, f) ↦
          let q = (zajmij-ok s.zuzyte z d f).1 in
          elim (Option-cases (job_id_zlecenia o.order_id)) [
            | inl g ↦ inr (d, rw (e, przetworz_zlecenie, f, g) q)
            | inr (job, g) ↦ inr (
              d,
              rw (e, przetworz_zlecenie, f, g)
                  (przydziel_zlecenie-zuzyte (record s { zuzyte = z }) o job t ∙ q),
            )
          ]
    ]
  ]

  obsluz-Member :
      (s : Stan) (z : Zdarzenie) (d : String) → Member d s.zuzyte → Member d (obsluz s z).zuzyte
  unfolding obsluz
  obsluz-Member s (rejestracja m) d h = h
  obsluz-Member s (wynik r) d h = h
  obsluz-Member s (zlecenie o t) d h = elim (przetworz_zlecenie-zuzyte s o t) [
    | inl e ↦ subst (λ z. Member d z) (sym e) h
    | inr (_, e) ↦ subst (λ z. Member d z) (sym e) (inr h)
  ]

  -- A digest that was used stays used.
  pub przebieg-Member :
      (s : Stan) (zs : List Zdarzenie) (d : String)
      → Member d s.zuzyte
      → Member d (przebieg s zs).zuzyte
  unfolding przebieg
  przebieg-Member s [] d h = h
  przebieg-Member s (z ∷ zs) d h = przebieg-Member (obsluz s z) zs d (obsluz-Member s z d h)
