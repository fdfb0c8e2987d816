-- ===== src/Agent/Checks.antt =====
-- The client's checks of an answer in crates/simon-cli/src/agent.rs: what an output that it takes has passed,
-- and that its nonce counts only for tokens.
use simon.Prelude.{
  ◌≤◌, ◌≡◌, ◌↔◌, refl, sym, inl, inr, Bool, true, false, ◌&&◌, String, Option, none, some, Result,
  ok, err, is_ok, leb, Result-cases, Bool-cases, &&-eq-true, arith, ok-injective, ◌∙◌, ap,
}
use simon.Prelude.Text.{str_eq, eq_iff}
use simon.Prelude.Trim.{trim}
use simon.Prelude.Ascii.{eq_ignore_ascii_case}
use simon.Kodowanie.{Biblioteki, SimonError}
use simon.Crypto.{to_hex}
use simon.Receipt.{Receipt, verify_self, zgodny_z_wyjsciem, zweryfikuj_m1, poziom}
use simon.Prompt.{PromptResponse, wynik}
use simon.Agent.{
  DaneM1, m1_info, podpisal_oczekiwany, bramka_tresci, bramka_m1, zweryfikuj_receipt,
  wyodrebnij_output,
}

is_ok_iff : (r : Result SimonError (Unit {0})) → (is_ok r ≡ true) ↔ (r ≡ ok tt)
is_ok_iff (ok _) = (λ h. refl, λ h. refl)
is_ok_iff (err e) = (λ h. cc, λ h. cc)

module _ (b : Biblioteki) (from_str : String → Result String Receipt) where
  -- The M1 gate, for the tokens that came and a receipt that claims a level.
  abbrev pub ZgodnyM1 : Receipt → Option DaneM1 → Type 0
  ZgodnyM1 r none = Unit
  ZgodnyM1 r (some m) = 1 ≤ poziom r → zweryfikuj_m1 b r m.tok_hash m.nonce m.p_ids m.o_ids ≡ ok tt

  -- The receipt's signer is the one that was expected, if one was.
  abbrev pub Przypiety : Receipt → Option String → Type 0
  Przypiety r none = Unit
  Przypiety r (some hex) = eq_ignore_ascii_case (to_hex b r.signer) (trim hex) ≡ true

  -- What the receipt of an output that the client takes has passed.
  pub record Przyjety (r : PromptResponse) (model nonce : String) (signer : Option String)
      (rec : Receipt) : Type 0 where
    pub parsuje_sie : from_str r.receipt ≡ ok rec
    pub podpis : verify_self b rec ≡ ok tt
    pub job : rec.job_id ≡ r.job_id
    pub model_hash : rec.model_hash ≡ model
    pub tresc : zgodny_z_wyjsciem b rec r.output ≡ true
    pub m1 : ZgodnyM1 rec (m1_info r nonce)
    pub klucz : Przypiety rec signer

  bramka_m1_iff :
      (r : Receipt) (m : Option DaneM1) → (bramka_m1 b from_str r m ≡ true) ↔ ZgodnyM1 r m
  unfolding bramka_m1
  bramka_m1_iff r none = (λ h. tt, λ h. refl)
  bramka_m1_iff r (some m) =
      let i = is_ok_iff (zweryfikuj_m1 b r m.tok_hash m.nonce m.p_ids m.o_ids) in
      elim (Bool-cases (leb 1 (poziom r))) [
        | inl t ↦ (λ h p. i.0 (rw t at h), λ h. rw t (i.1 (h (ground arith))))
        | inr t ↦ (λ h p. absurd (ground arith), λ h. rw t)
      ]

  bramka_klucza_iff :
      (json : String) (rec : Receipt) (signer : Option String)
      → from_str json ≡ ok rec
      → (podpisal_oczekiwany b from_str json signer ≡ true) ↔ Przypiety rec signer
  unfolding podpisal_oczekiwany
  bramka_klucza_iff json rec none p = (λ h. tt, λ h. refl)
  bramka_klucza_iff json rec (some hex) p =
      (λ h. rw (p, podpisal_oczekiwany) at h, λ h. rw (p, podpisal_oczekiwany) h)

  zweryfikuj_receipt-ok :
      (json job model : String) (o : Option String) (m : Option DaneM1) (rec : Receipt)
      → from_str json ≡ ok rec
      → zweryfikuj_receipt b from_str json job model o m ≡ (
          is_ok (verify_self b rec)
          && (str_eq rec.job_id job
              && (str_eq rec.model_hash model
                  && (bramka_tresci b from_str rec o && bramka_m1 b from_str rec m))))
  unfolding zweryfikuj_receipt
  zweryfikuj_receipt-ok json job model o m rec p = rw (p, zweryfikuj_receipt) refl

  zweryfikuj_receipt-err :
      (json job model : String) (o : Option String) (m : Option DaneM1) (e : String)
      → from_str json ≡ err e
      → zweryfikuj_receipt b from_str json job model o m ≡ false
  unfolding zweryfikuj_receipt
  zweryfikuj_receipt-err json job model o m e p = rw (p, zweryfikuj_receipt) refl

  -- Both calls of the client at an output that came with the receipt
  sprawdzony : PromptResponse → String → String → Option String → Bool
  sprawdzony r model nonce signer =
      zweryfikuj_receipt b from_str r.receipt r.job_id model (some r.output) (m1_info r nonce)
      && podpisal_oczekiwany b from_str r.receipt signer

  sprawdzony-Przyjety :
      (r : PromptResponse) (model nonce : String) (signer : Option String)
      → sprawdzony r model nonce signer ≡ true
      → (rec : Receipt) × Przyjety r model nonce signer rec
  unfolding sprawdzony bramka_tresci
  sprawdzony-Przyjety r model nonce signer h =
      let (z, k) = &&-eq-true _ _ h in
      elim (Result-cases (from_str r.receipt)) [
        | inl (rec, p) ↦
            let q =
              zweryfikuj_receipt-ok r.receipt r.job_id model (some r.output) (m1_info r nonce) rec
                p in
            let (c0, c1) = &&-eq-true _ _ (sym q ∙ z) in
            let (c2, c3) = &&-eq-true _ _ c1 in
            let (c4, c5) = &&-eq-true _ _ c3 in
            let (c6, c7) = &&-eq-true _ _ c5 in
            (
              rec,
              record {
                parsuje_sie = p;
                podpis = (is_ok_iff (verify_self b rec)).0 c0;
                job = (eq_iff rec.job_id r.job_id).0 c2;
                model_hash = (eq_iff rec.model_hash model).0 c4;
                tresc = c6;
                m1 = (bramka_m1_iff rec (m1_info r nonce)).0 c7;
                klucz = (bramka_klucza_iff r.receipt rec signer p).0 k;
              },
            )
        | inr (e, p) ↦ absurd (
            cc (
              zweryfikuj_receipt-err r.receipt r.job_id model (some r.output) (m1_info r nonce) e p,
              z,
            ))
      ]

  Przyjety-sprawdzony :
      (r : PromptResponse) (model nonce : String) (signer : Option String) (rec : Receipt)
      → Przyjety r model nonce signer rec
      → sprawdzony r model nonce signer ≡ true
  unfolding sprawdzony bramka_tresci
  Przyjety-sprawdzony r model nonce signer rec a =
      rw
        (
          zweryfikuj_receipt-ok r.receipt r.job_id model (some r.output) (m1_info r nonce) rec
              a.parsuje_sie,
          (is_ok_iff (verify_self b rec)).1 a.podpis,
          (eq_iff rec.job_id r.job_id).1 a.job,
          (eq_iff rec.model_hash model).1 a.model_hash,
          a.tresc,
          (bramka_m1_iff rec (m1_info r nonce)).1 a.m1,
        )
        ((bramka_klucza_iff r.receipt rec signer a.parsuje_sie).1 a.klucz)

  -- The client takes an output exactly if it is the response's output and the receipt that came with it
  -- parses and passes every test of `Przyjety`: its own signature, the response's job and the client's
  -- model, the digest of the output, the binding to the tokens and the nonce if the receipt claims it, and
  -- the expected signer if there is one.
  pub wyodrebnij_output_iff :
      (r : PromptResponse) (model nonce : String) (signer : Option String) (o : String)
      → (wyodrebnij_output b from_str (wynik r) model nonce signer ≡ ok o)
        ↔ (((rec : Receipt) × Przyjety r model nonce signer rec) × (r.output ≡ o))
  unfolding wyodrebnij_output sprawdzony
  wyodrebnij_output_iff r model nonce signer o =
      elim (Bool-cases (sprawdzony r model nonce signer)) [
        | inl t ↦ (
          λ h. (sprawdzony-Przyjety r model nonce signer t, ok-injective (rw t at h)),
          λ h. rw t (ap ok h.1),
        )
        | inr t ↦ (
          λ h. absurd (cc (rw t at h)),
          λ h. absurd (cc (Przyjety-sprawdzony r model nonce signer h.0.0 h.0.1, t)),
        )
      ]

  m1_info-none :
      (r : PromptResponse) (nonce : String) → r.tokenizer_hash ≡ none → m1_info r nonce ≡ none
  unfolding m1_info
  m1_info-none r nonce h = rw (h, m1_info) refl

  -- A response without a tokenizer's hash is taken or refused the same whatever the order's nonce is.
  pub wyodrebnij_output_nonce :
      (r : PromptResponse) (model nonce nonce' : String) (signer : Option String)
      → r.tokenizer_hash ≡ none
      → wyodrebnij_output b from_str (wynik r) model nonce signer
        ≡ wyodrebnij_output b from_str (wynik r) model nonce' signer
  unfolding wyodrebnij_output
  wyodrebnij_output_nonce r model nonce nonce' signer h =
      rw (m1_info-none r nonce h, m1_info-none r nonce' h) refl
