-- ===== src/M3/Decision.antt =====
-- `decyzja` and `ocena_json` of crates/simon-core/src/m3.rs: what an audit may lead to.
use simon.Prelude.{
  ℕ, ◌≤◌, ◌<◌, ◌≡◌, ◌≢◌, ◌↔◌, ◌⊎◌, inl, inr, refl, sym, ◌∙◌, Bool, true, false, not, ◌&&◌, List, [],
  ◌∷◌, String, none, some, Result, ok, >>=-eq-ok, guard-eq-ok, map_err-eq-ok, map_err, ok-injective,
  length, is_empty, arith, Option-cases, ap, none_ne_some, some-eq,
}
use simon.Prelude.Float.{Float}
use simon.Kodowanie.{Dokument, bool, get, serde}
use simon.Klient.Zlecenie.{Format}
use simon.M3.{
  Krok, Polityka, Werdykt, Audyt, Progi, pass, soft_fail, hard_fail, decyzja, ocena, ocena_json,
  symulowany, rozny_od_falszu, ◌∷◌,
}
use simon.M3.Verdict.{ulamek, ocena_lem}

module _ (f : Float) where
  decyzja_lem :
      (w : Werdykt f) (level : ℕ) (progi : Progi f)
      → (decyzja f w level progi ≢ hard_fail)
        × ((decyzja f w level progi ≡ pass)
            ↔ ((1 ≤ level) × (0 < w.krokow) × (progi.min_krokow ≤ w.krokow) × (w.jest_ok ≡ true)))
        × ((decyzja f w level progi ≡ soft_fail)
            ↔ ((1 ≤ level) × (0 < w.krokow) × (progi.min_krokow ≤ w.krokow) × (w.jest_ok ≡ false)))
  unfolding decyzja
  decyzja_lem w level progi = (
    λ h. ground arith,
    (λ h. ground arith, λ h. ground arith),
    (λ h. ground arith, λ h. ground arith),
  )

  module _ (fmt : Format) (p : Polityka f) where
    -- The document does not say that the audit is simulated.
    abbrev pub NieSymulowany : Dokument → Type 0
    NieSymulowany v = (get v "simulated" ≡ none) ⊎ (get v "simulated" ≡ some (bool false))

    symulowany_iff : (v : Dokument) → (symulowany f fmt p v ≡ false) ↔ NieSymulowany v
    unfolding symulowany rozny_od_falszu
    symulowany_iff v = elim (Option-cases (get v "simulated")) [
      | inl e ↦ (λ h. inl e, λ h. rw (e, symulowany))
      | inr (d, e) ↦
          let (q, r) = rozny_iff d in
          (
            λ h. inr (e ∙ ap some (q (rw (e, symulowany) at h))),
            λ h. elim h [
              | inl g ↦ absurd (none_ne_some (sym g ∙ e))
              | inr g ↦ rw (e, symulowany) (r (some-eq (sym e ∙ g)))
            ],
          )
    ]
      where
        rozny_iff : (d : Dokument) → (rozny_od_falszu f fmt p d ≡ false) ↔ (d ≡ bool false)
        rozny_iff (bool false) = (λ h. refl, λ h. refl)
        rozny_iff d = (λ h. cc, λ h. cc)

    -- An audit leads to no sanction by itself: never `hard_fail`. It passes exactly when the receipt has a
    -- level, the audit has a step and as many as the thresholds ask for, and the fraction of its
    -- suspicious steps is within the policy; the same but for the fraction is `soft_fail`.
    pub decyzja-ocena :
        (kroki : List (Krok f)) (level : ℕ) (progi : Progi f)
        → let d = decyzja f (ocena f fmt p kroki) level progi in
          (d ≢ hard_fail)
          × ((d ≡ pass) ↔ (
              (1 ≤ level)
              × (0 < length kroki)
              × (progi.min_krokow ≤ length kroki)
              × (f.le (ulamek f fmt p kroki) p.max_poza ≡ true)))
          × ((d ≡ soft_fail) ↔ (
              (1 ≤ level)
              × (0 < length kroki)
              × (progi.min_krokow ≤ length kroki)
              × (f.le (ulamek f fmt p kroki) p.max_poza ≡ false)))
    decyzja-ocena kroki level progi =
        let w = ocena f fmt p kroki in
        let (nie, przejscie, odmowa) = decyzja_lem w level progi in
        let (k, _, _, _, o, _) = ocena_lem f fmt p kroki in
        let ok_gdy : 0 < length kroki → w.jest_ok ≡ f.le (ulamek f fmt p kroki) p.max_poza =
          λ h. o ∙ ap (λ t. not t && f.le (ulamek f fmt p kroki) p.max_poza) (niepusta kroki h) in
        (nie, zamien true ok_gdy k przejscie, zamien false ok_gdy k odmowa)
      where
        niepusta : (ks : List (Krok f)) → 0 < length ks → is_empty ks ≡ false
        niepusta [] h = elim h [ ]
        niepusta (x ∷ ks) h = refl

        zamien :
            {X : Type 0} {n m x : ℕ} {s t : Bool} (v : Bool)
            → (0 < m → s ≡ t)
            → n ≡ m
            → X ↔ ((1 ≤ level) × (0 < n) × (x ≤ n) × (s ≡ v))
            → X ↔ ((1 ≤ level) × (0 < m) × (x ≤ m) × (t ≡ v))
        zamien v e q i = (
          λ h. let (a, c, d, g) = i.0 h in let c' = rw q at c in (a, c', rw q at d, sym (e c') ∙ g),
          λ h. i.1 (h.0, rw q h.1, rw q h.2, e h.1 ∙ h.3),
        )

    -- A file of an audit gives a verdict exactly when it parses, does not call itself simulated, whatever
    -- value but `false` it does so with, and holds an audit; the verdict is that of its steps.
    pub ocena_json_iff :
        (from_str : String → Result String Dokument)
        (from_value : Dokument → Result String (Audyt f)) (json : String) (w : Werdykt f)
        → (ocena_json f fmt p from_str from_value json ≡ ok w) ↔ (
            (v : Dokument) × (a : Audyt f) × (from_str json ≡ ok v)
            × NieSymulowany v
            × (from_value v ≡ ok a)
            × (w ≡ ocena f fmt p a.kroki))
    unfolding ocena_json
    ocena_json_iff from_str from_value json w = (
      λ h.
          let (v, e, h1) = >>=-eq-ok (map_err serde (from_str json)) _ h in
          let (n, h2) = guard-eq-ok (not (symulowany f fmt p v)) _ _ h1 in
          let (a, g, h3) = >>=-eq-ok (map_err serde (from_value v)) _ h2 in
          (
            v,
            a,
            map_err-eq-ok serde (from_str json) e,
            (symulowany_iff v).0 (ground arith),
            map_err-eq-ok serde (from_value v) g,
            sym (ok-injective h3),
          ),
      λ h. rw h.2 (rw ((symulowany_iff h.0).1 h.3) (rw h.4 (rw (sym h.5)))),
    )
