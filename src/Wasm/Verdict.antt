-- ===== src/Wasm/Verdict.antt =====
-- The verdicts of crates/simon-verify-wasm/src/lib.rs, against the gates of the core that they stand for.
use simon.Prelude.{
  ℕ, ◌≡◌, ◌↔◌, refl, inl, inr, Bool, true, false, not, List, String, Option, none, some, Result, ok,
  err, is_ok, if◌then◌else◌, Result-cases, &&-eq-true, err_ne_ok, subst, sym, ok-injective,
}
use simon.Prelude.Text.{str_eq, eq_iff}
use simon.Prelude.Trim.{trim}
use simon.Prelude.Dict.{is_some}
use simon.Kodowanie.{Biblioteki, bool, get, SimonError, Dokument}
use simon.Receipt.{Receipt, verify_self, zgodny_z_wyjsciem, zweryfikuj_m1}
use simon.Wasm.{Parsery, odrzucony, nie_falsz, sprawdz, werdykt, werdykt_json, weryfikuj_m1}

-- Where a value is given, it has the property.
abbrev pub Podany : Option String → (String → Type 0) → Type 0
Podany none P = Unit
Podany (some x) P = P x

nie_falsz-sprawdz :
    (o : Option String) (f : String → Bool) (P : String → Type 0)
    → ((x : String) → (f x ≡ true) ↔ P x)
    → (nie_falsz (sprawdz o f) ≡ true) ↔ Podany o P
unfolding nie_falsz
nie_falsz-sprawdz none f P i = (λ h. tt, λ h. refl)
nie_falsz-sprawdz (some x) f P i = (λ h. (i x).0 (prawda (f x) h), λ h. rw ((i x).1 h))
  where
    prawda : (t : Bool) → nie_falsz (some t) ≡ true → t ≡ true
    prawda true h = refl
    prawda false h = h

is_ok_iff : (r : Result SimonError (Unit {0})) → (is_ok r ≡ true) ↔ (r ≡ ok tt)
is_ok_iff (ok _) = (λ h. refl, λ h. refl)
is_ok_iff (err e) = (λ h. cc, λ h. cc)

module _ (b : Biblioteki) where
  -- What a positive verdict on a receipt means.
  pub record Prawdziwy (r : Receipt) (output job model : Option String) : Type 0 where
    pub podpis : verify_self b r ≡ ok tt
    pub tresc : Podany output (λ o. zgodny_z_wyjsciem b r o ≡ true)
    pub praca : Podany job (λ j. j ≡ r.job_id)
    pub model_hash : Podany model (λ m. m ≡ r.model_hash)

  werdykt_iff :
      (r : Receipt) (output job model : Option String)
      → ((werdykt b r output job model).jest_ok ≡ true) ↔ Prawdziwy r output job model
  unfolding werdykt nie_falsz
  werdykt_iff r output job model =
      let t =
        nie_falsz-sprawdz output (zgodny_z_wyjsciem b r) (λ o. zgodny_z_wyjsciem b r o ≡ true)
          (λ o. (λ h. h, λ h. h)) in
      let j =
        nie_falsz-sprawdz job (λ x. str_eq x r.job_id) (λ x. x ≡ r.job_id)
          (λ x. eq_iff x r.job_id) in
      let m =
        nie_falsz-sprawdz model (λ x. str_eq x r.model_hash) (λ x. x ≡ r.model_hash)
          (λ x. eq_iff x r.model_hash) in
      let p = is_ok_iff (verify_self b r) in
      (
        λ h.
            let (h1, k1) = &&-eq-true (is_ok (verify_self b r)) _ h in
            let (h2, k2) = &&-eq-true (nie_falsz (sprawdz output (zgodny_z_wyjsciem b r))) _ k1 in
            let (h3, h4) = &&-eq-true (nie_falsz (sprawdz job (λ x. str_eq x r.job_id))) _ k2 in
            record { podpis = p.0 h1; tresc = t.0 h2; praca = j.0 h3; model_hash = m.0 h4 },
        λ h. rw (p.1 h.podpis) (rw (t.1 h.tresc) (rw (j.1 h.praca) (m.1 h.model_hash))),
      )

  powod-werdykt :
      (r : Receipt) (output job model : Option String)
      → is_some (werdykt b r output job model).powod ≡ not (werdykt b r output job model).jest_ok
  unfolding werdykt
  powod-werdykt r output job model =
      powody (werdykt b r output job model).jest_ok (not (is_ok (verify_self b r)))
        (not (nie_falsz (sprawdz output (zgodny_z_wyjsciem b r))))
        "Ed25519 signature does not match the receipt digest"
        "output digest (job_id + output) does not match the receipt" "not all checks passed"
    where
      powody :
          (t u v : Bool) (x y z : String)
          → is_some (if t then none else if u then some x else if v then some y else some z) ≡ not t
      powody true u v x y z = refl
      powody false true v x y z = refl
      powody false false true x y z = refl
      powody false false false x y z = refl

  module _ (p : Parsery) where
    -- The page says that a receipt is true exactly when it parses, its signature holds, and the output,
    -- the job and the model that were asked for, as far as they were given, are those of the receipt;
    -- and it gives a reason exactly when it does not say so.
    pub werdykt_json_iff :
        (tekst : String) (output job model : Option String)
        → let w = werdykt_json b p tekst output job model in
          ((w.jest_ok ≡ true)
            ↔ ((r : Receipt) × (p.receipt (trim tekst) ≡ ok r) × Prawdziwy r output job model))
          × (is_some w.powod ≡ not w.jest_ok)
    unfolding werdykt_json odrzucony
    werdykt_json_iff tekst output job model = elim (Result-cases (p.receipt (trim tekst))) [
      | inr (e, h) ↦ rw (h, werdykt_json) ((λ q. cc, λ q. absurd (err_ne_ok q.1)), refl)
      | inl (r, h) ↦
          rw (h, werdykt_json)
            (
              (
                λ q. (r, refl, (werdykt_iff r output job model).0 q),
                λ q.
                    (werdykt_iff r output job model).1
                      (subst (λ x. Prawdziwy x output job model) (sym (ok-injective q.1)) q.2),
              ),
              powod-werdykt r output job model,
            )
    ]

    -- The page's M1 gate answers `ok` exactly when the receipt and the two lists of tokens parse and the
    -- core's gate `zweryfikuj_m1` accepts them.
    pub weryfikuj_m1_iff :
        (tekst tok nonce prompt_json output_json : String)
        → (get (weryfikuj_m1 b p tekst tok nonce prompt_json output_json) "ok" ≡ some (bool true))
          ↔ ((r : Receipt) × (prompt output : List ℕ) × (p.receipt (trim tekst) ≡ ok r)
              × (p.tokeny prompt_json ≡ ok prompt)
              × (p.tokeny output_json ≡ ok output)
              × (zweryfikuj_m1 b r tok nonce prompt output ≡ ok tt))
    unfolding weryfikuj_m1
    weryfikuj_m1_iff tekst tok nonce prompt_json output_json =
        elim (Result-cases (p.receipt (trim tekst))) [
          | inr (e, h) ↦
              rw (h, weryfikuj_m1) (λ q. falsz q, λ (_, _, _, q, _, _, _). absurd (err_ne_ok q))
          | inl (r, h) ↦ elim (Result-cases (p.tokeny prompt_json)) [
            | inr (e, i) ↦
                rw (h, weryfikuj_m1)
                  (rw i (λ q. falsz q, λ (_, _, _, _, q, _, _). absurd (err_ne_ok q)))
            | inl (x, i) ↦ elim (Result-cases (p.tokeny output_json)) [
              | inr (e, j) ↦
                  rw (h, weryfikuj_m1)
                    (rw i (rw j (λ q. falsz q, λ (_, _, _, _, _, q, _). absurd (err_ne_ok q))))
              | inl (y, j) ↦ elim (Result-cases (zweryfikuj_m1 b r tok nonce x y)) [
                | inl (_, k) ↦
                    rw (h, weryfikuj_m1)
                      (rw i (rw j (rw k (λ q. (r, x, y, refl, refl, refl, k), λ q. refl))))
                | inr (e, k) ↦
                    rw (h, weryfikuj_m1)
                      (rw i (rw j (rw k (λ q. falsz q, λ (r', x', y', a, c, d, z). cc))))
              ]
            ]
          ]
        ]
      where
        falsz : {X : Type 0} → Path (Option Dokument) (some (bool false)) (some (bool true)) → X
        falsz q = cc
