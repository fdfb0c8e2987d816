-- ===== src/Koordynator/Orders.antt =====
-- `przetworz_zlecenie` of crates/simon-cli/src/coord.rs: what an accepted order means.
use simon.Prelude.{
  ℕ, ◌≡◌, inl, inr, refl, sym, true, false, ◌∷◌, String, some, Result, ok, err, Bool-cases,
  Option-cases, Result-cases, any_iff, false-true,
}
use simon.Prelude.Text.{str_eq, eq_iff}
use simon.Prelude.Dict.{Member, lookup, insert, lookup-insert}
use simon.Kodowanie.{Biblioteki, SimonError}
use simon.Crypto.{Keypair}
use simon.Node.{Registry, assign, wylaczony}
use simon.Node.Register.{RegisterMsg, usable}
use simon.Klient.Zlecenie.{Format, JobOrder, Zuzyte, zweryfikuj_autoryzacje, zajmij, zawiera_tekst}
use simon.Klient.Authorisation.{Autoryzowane, zweryfikuj_autoryzacje_iff}
use simon.Klient.Wyscig.{OrderAccepted, odcisk_przyjecia, podpisz_przyjecie}
use simon.Koordynator.{
  Stan, OdmowaZlecenia, Odpowiedz, przyjete, odmowa, panika, job_id_zlecenia, wybierz_z_rezerwa,
  przyjecie, przydziel_zlecenie, przetworz_zlecenie,
}

-- The set and the answer of `zajmij`.
pub zajmij-ok : (z z' : Zuzyte) (d : String) → zajmij z d ≡ ok z' → (¬ Member d z) × (z' ≡ d ∷ z)
unfolding zajmij
zajmij-ok z z' d h = elim (Bool-cases (zawiera_tekst z d)) [
  | inl e ↦ absurd (nie (rw e at h))
  | inr e ↦ (
    λ m. false-true e ((any_iff (λ y. d ≡ y) (str_eq d) (λ y. eq_iff d y) z).1 m),
    to_samo (rw e at h),
  )
]
  where
    nie : {e : SimonError} → ¬ (Path (Result SimonError Zuzyte) (err e) (ok z'))
    nie h = cc

    to_samo : {w : Zuzyte} → Path (Result SimonError Zuzyte) (ok w) (ok z') → z' ≡ w
    to_samo h = cc

assign-true :
    (g : Registry) (j n : String)
    → (assign g j n).1 ≡ true
    → (m : RegisterMsg) × (lookup n g.nodes ≡ some m)
      × (usable m.capability ≡ true)
      × (wylaczony (lookup n g.states) ≡ false)
      × ((assign g j n).0 ≡ record g { assigned = insert j n g.assigned })
unfolding assign
assign-true g j n h = elim (Option-cases (lookup n g.nodes)) [
  | inl e ↦ absurd (nie (rw (e, assign) at h))
  | inr (m, e) ↦ elim (Bool-cases (usable m.capability)) [
    | inr u ↦ absurd (nie (rw (e, assign, u) at h))
    | inl u ↦ elim (Bool-cases (wylaczony (lookup n g.states))) [
      | inl w ↦ absurd (nie (rw (e, assign, u, w) at h))
      | inr w ↦ (m, e, u, w, rw (e, assign, u, w))
    ]
  ]
]
  where
    nie : ¬ (false ≡ true)
    nie h = cc

module _ (b : Biblioteki) where
  -- An accepted order's answer, and the state after it.
  pub record Przydzielone (s s' : Stan) (p : OrderAccepted) (node : String) : Type 0 where
    pub wezel : RegisterMsg
    pub znany : lookup node s.rejestr.nodes ≡ some wezel
    pub potwierdzony : usable wezel.capability ≡ true
    pub wlaczony : wylaczony (lookup node s.rejestr.states) ≡ false
    pub przydzial : lookup p.job_id s'.rejestr.assigned ≡ some node
    pub te_same_zuzyte : s'.zuzyte ≡ s.zuzyte

  podpisz_przyjecie-job_id :
      (a : OrderAccepted) (klucz : Keypair)
      → ((podpisz_przyjecie b a klucz).job_id ≡ a.job_id)
        × ((podpisz_przyjecie b a klucz).order_id ≡ a.order_id)
  unfolding podpisz_przyjecie
  podpisz_przyjecie-job_id a klucz = elim (Result-cases (odcisk_przyjecia b a)) [
    | inl (d, e) ↦ rw (e, podpisz_przyjecie) (refl, refl)
    | inr (x, e) ↦ rw (e, podpisz_przyjecie) (refl, refl)
  ]

  przyjecie-job_id :
      (klucz : Keypair) (o : JobOrder) (job ziarno : String)
      → ((przyjecie b klucz o job ziarno).job_id ≡ job)
        × ((przyjecie b klucz o job ziarno).order_id ≡ o.order_id)
  unfolding przyjecie
  przyjecie-job_id klucz o job ziarno = podpisz_przyjecie-job_id _ klucz

  przydziel_zlecenie_lem :
      (klucz : Keypair) (s s' : Stan) (o : JobOrder) (job : String) (teraz : ℕ) (p : OrderAccepted)
      (node : String) (ctx : ℕ)
      → przydziel_zlecenie b klucz s o job teraz ≡ (s', przyjete p node ctx)
      → (p.job_id ≡ job) × (p.order_id ≡ o.order_id) × Przydzielone s s' p node
  unfolding przydziel_zlecenie
  przydziel_zlecenie_lem klucz s s' o job teraz p node ctx h =
      elim (Option-cases (wybierz_z_rezerwa b s.rejestr o job teraz)) [
        | inl e ↦ absurd (nie (rw (e, przydziel_zlecenie) at h))
        | inr ((n, z, c), e) ↦ elim (Bool-cases (assign s.rejestr job n).1) [
          | inr f ↦ absurd (nie (rw (e, przydziel_zlecenie, f) at h))
          | inl f ↦
              let (st, sp, sn) = rozdziel (rw (e, przydziel_zlecenie, f) at h) in
              let (m, q, u, w, g) = assign-true s.rejestr job n f in
              let (pj, po) = przyjecie-job_id klucz o job z in
              let jp : p.job_id ≡ job = cc (sp, pj) in
              (
                jp,
                cc (sp, po),
                record {
                  wezel = m;
                  znany = cc (q, sn);
                  potwierdzony = u;
                  wlaczony = rw (sym sn) w;
                  przydzial = cc (jp, st, g, sn, lookup-insert job n s.rejestr.assigned);
                  te_same_zuzyte = cc st;
                },
              )
        ]
      ]
    where
      nie :
          {x : Stan} {r : OdmowaZlecenia}
          → ¬ (Path (Stan × Odpowiedz) (x, odmowa r) (s', przyjete p node ctx))
      nie h = cc

      rozdziel :
          {x : Stan} {q : OrderAccepted} {n : String} {c : ℕ}
          → Path (Stan × Odpowiedz) (x, przyjete q n c) (s', przyjete p node ctx)
          → (x ≡ s') × (q ≡ p) × (n ≡ node)
      rozdziel h = (cc, cc, cc)

  module _ (fmt : Format) where
    -- What an acceptance means: the order passed the gate under a digest that was not used before and is
    -- from now on; the answer is for that order and for the job that its id names; and that job is now
    -- assigned to the node of the answer, which is registered, of attested power, neither evicted nor
    -- degraded.
    pub przetworz_zlecenie_lem :
        (klucz : Keypair) (s s' : Stan) (o : JobOrder) (teraz : ℕ) (p : OrderAccepted)
        (node : String) (ctx : ℕ)
        → przetworz_zlecenie b fmt klucz s o teraz ≡ (s', przyjete p node ctx)
        → (p.order_id ≡ o.order_id)
          × (job_id_zlecenia o.order_id ≡ some p.job_id)
          × ((d : String) × Autoryzowane b fmt o teraz d
              × (¬ Member d s.zuzyte)
              × (s'.zuzyte ≡ d ∷ s.zuzyte))
          × Przydzielone (record s { zuzyte = s'.zuzyte }) s' p node
    unfolding przetworz_zlecenie
    przetworz_zlecenie_lem klucz s s' o teraz p node ctx h =
        elim (Result-cases (zweryfikuj_autoryzacje b fmt o teraz)) [
          | inr (x, e) ↦ absurd (nie (rw (e, przetworz_zlecenie) at h))
          | inl (d, e) ↦ elim (Result-cases (zajmij s.zuzyte d)) [
            | inr (x, f) ↦ absurd (nie (rw (e, przetworz_zlecenie, f) at h))
            | inl (z, f) ↦ elim (Option-cases (job_id_zlecenia o.order_id)) [
              | inl g ↦ absurd (spokojnie (rw (e, przetworz_zlecenie, f, g) at h))
              | inr (job, g) ↦
                  let (n, q) = zajmij-ok s.zuzyte z d f in
                  let h' : przydziel_zlecenie b klucz (record s { zuzyte = z }) o job teraz
                      ≡ (s', przyjete p node ctx) =
                    rw (e, przetworz_zlecenie, f, g) at h in
                  let (pj, po, pr) =
                    przydziel_zlecenie_lem klucz (record s { zuzyte = z }) s' o job teraz p node ctx
                      h' in
                  let zz : s'.zuzyte ≡ z = pr.te_same_zuzyte in
                  (
                    po,
                    cc (g, pj),
                    (d, (zweryfikuj_autoryzacje_iff b fmt o teraz d).0 e, n, cc (zz, q)),
                    record {
                      wezel = pr.wezel;
                      znany = pr.znany;
                      potwierdzony = pr.potwierdzony;
                      wlaczony = pr.wlaczony;
                      przydzial = pr.przydzial;
                      te_same_zuzyte = refl;
                    },
                  )
            ]
          ]
        ]
      where
        nie :
            {x : Stan} {r : OdmowaZlecenia}
            → ¬ (Path (Stan × Odpowiedz) (x, odmowa r) (s', przyjete p node ctx))
        nie h = cc

        spokojnie : {x : Stan} → ¬ (Path (Stan × Odpowiedz) (x, panika) (s', przyjete p node ctx))
        spokojnie h = cc
