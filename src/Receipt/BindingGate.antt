-- ===== src/Receipt/BindingGate.antt =====
-- The M1 gate of receipt.rs: `zweryfikuj_m1` accepts exactly the receipts that bind the given input
-- and output.
use simon.Prelude.{
  ℕ, ◌≤◌, ◌≡◌, ◌↔◌, refl, true, not, List, String, Option, none, some, Result, ok, err, ◌>>=◌,
  ok_or, arith, ltb, ◌==◌, ==_iff,
}
use simon.Prelude.Text.{str_eq, eq_iff}
use simon.Kodowanie.{Biblioteki, SimonError}
use simon.Receipt.{Receipt, WiazaniaM1, verify_self, zweryfikuj_m1, odcisk_promptu, lancuch_tokenow}
use simon.Receipt.Gates.{guard-ok, seq-ok, guard-only}

bind-ok {ℓ} :
    {A : Type ℓ} (m : Result SimonError A) (f : A → Result SimonError (Unit {0}))
    → (m >>= f) ≡ ok tt
    → (a : A) × (m ≡ ok a) × (f a ≡ ok tt)
bind-ok (ok a) f h = (a, refl, h)
bind-ok (err e) f h = cc

ok_or-ok {ℓ} : {A : Type ℓ} (o : Option A) (e : SimonError) (a : A) → ok_or o e ≡ ok a → o ≡ some a
ok_or-ok none e a h = cc
ok_or-ok (some x) e a h = cc

module _ (b : Biblioteki) (r : Receipt) (tok nonce : String) (prompt out : List ℕ) where
  -- The signed receipt carries M1 bindings, of a known version, for this tokenizer, nonce, prompt and
  -- output.
  pub record Wiaze : Type 0 where
    pub wiazanie : WiazaniaM1
    pub jest : r.wiazania ≡ some wiazanie
    pub podpis : verify_self b r ≡ ok tt
    pub poziom_m1 : 1 ≤ wiazanie.receipt_level
    pub wersja : wiazanie.schema_version ≡ 2
    pub tokenizer : wiazanie.tokenizer_hash ≡ tok
    pub nonce_klienta : wiazanie.client_nonce ≡ nonce
    pub prompt_zgodny : odcisk_promptu b tok nonce prompt ≡ ok wiazanie.prompt_digest
    pub wyjscie_zgodne :
        lancuch_tokenow b wiazanie.prompt_digest out ≡ ok wiazanie.output_token_chain

  pub zweryfikuj_m1-Wiaze : zweryfikuj_m1 b r tok nonce prompt out ≡ ok tt → Wiaze
  unfolding zweryfikuj_m1
  zweryfikuj_m1-Wiaze h =
      let (p, h1) = seq-ok (verify_self b r) h in
      let (w, q, h2) = bind-ok (ok_or r.wiazania _) _ h1 in
      let (l, h3) = guard-ok (not (ltb w.receipt_level 1)) _ h2 in
      let (v, h4) = guard-ok (w.schema_version == 2) _ h3 in
      let (t, h5) = guard-ok (str_eq w.tokenizer_hash tok) _ h4 in
      let (n, h6) = guard-ok (str_eq w.client_nonce nonce) _ h5 in
      let (pd, ep, h7) = bind-ok (odcisk_promptu b tok nonce prompt) _ h6 in
      let (ip, h8) = guard-ok (str_eq w.prompt_digest pd) _ h7 in
      let (lc, el, h9) = bind-ok (lancuch_tokenow b w.prompt_digest out) _ h8 in
      let il = guard-only (str_eq w.output_token_chain lc) _ h9 in
      record {
        wiazanie = w;
        jest = ok_or-ok r.wiazania _ w q;
        podpis = p;
        poziom_m1 = ground arith;
        wersja = ground arith;
        tokenizer = (eq_iff w.tokenizer_hash tok).0 t;
        nonce_klienta = (eq_iff w.client_nonce nonce).0 n;
        prompt_zgodny = cc (ep, (eq_iff w.prompt_digest pd).0 ip);
        wyjscie_zgodne = cc (el, (eq_iff w.output_token_chain lc).0 il);
      }

  pub Wiaze-zweryfikuj_m1 : Wiaze → zweryfikuj_m1 b r tok nonce prompt out ≡ ok tt
  unfolding zweryfikuj_m1
  Wiaze-zweryfikuj_m1 z =
      let w = z.wiazanie in
      let l : not (ltb w.receipt_level 1) ≡ true = ground arith in
      rw (z.podpis, z.jest)
        (rw
          (
            l,
            (==_iff w.schema_version 2).1 z.wersja,
            (eq_iff w.tokenizer_hash tok).1 z.tokenizer,
            (eq_iff w.client_nonce nonce).1 z.nonce_klienta,
            z.prompt_zgodny,
          )
          (rw ((eq_iff w.prompt_digest w.prompt_digest).1 refl, z.wyjscie_zgodne)
            (rw ((eq_iff w.output_token_chain w.output_token_chain).1 refl))))

  -- The M1 gate accepts a receipt exactly when it is validly signed, carries bindings of level 1 or
  -- more and of the known version, and they are for the given tokenizer, nonce, prompt tokens and
  -- output tokens.
  pub zweryfikuj_m1_iff : (zweryfikuj_m1 b r tok nonce prompt out ≡ ok tt) ↔ Wiaze
  zweryfikuj_m1_iff = (zweryfikuj_m1-Wiaze, Wiaze-zweryfikuj_m1)
