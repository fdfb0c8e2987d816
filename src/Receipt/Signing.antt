-- ===== src/Receipt/Signing.antt =====
-- What a node signs, the coordinator and the client accept.
use simon.Prelude.{ℕ, ◌≡◌, refl, List, String, none, some, ok, arith}
use simon.Prelude.Text.{as_bytes}
use simon.Kodowanie.{Dokument, Biblioteki, Prawa, content_digest}
use simon.Crypto.{Keypair, public, sign_digest}
use simon.Crypto.Laws.{verify_digest-sign_digest}
use simon.Receipt.{
  Receipt, sign, digest, verify_self, verify_for_node, z_wiazaniem_m1, zweryfikuj_m1, poziom,
  odcisk_promptu, lancuch_tokenow, receipt_dokument, prompt_dokument, lancuch_dokument, WiazaniaM1,
}
use simon.Receipt.Gates.{verify_for_node_iff}
use simon.Receipt.BindingGate.{Wiaze-zweryfikuj_m1}

poziom_wiazan : (r : Receipt) (w : WiazaniaM1) → r.wiazania ≡ some w → poziom r ≡ w.receipt_level
unfolding poziom
poziom_wiazan r w q = rw (q, poziom)

module _ (b : Biblioteki) (prawa : Prawa b) where
  pub content_digest_total : (d : Dokument) → (h : String) × (content_digest b d ≡ ok h)
  unfolding content_digest
  content_digest_total d =
      let (s, e) = prawa.to_string_total d in (b.hex_encode (b.sha256 (as_bytes s)), rw e)

  -- The receipt that `sign` returns: the same content under the key that signs, and the signature.
  pub record Podpisany (r r' : Receipt) (k : Keypair) : Type 0 where
    pub podpisano : sign b r k ≡ ok r'
    pub klucz : r'.signer ≡ public b k
    pub tresc : record r { signer = r'.signer; signature = r'.signature } ≡ r'
    pub wazny : verify_self b r' ≡ ok tt

  pub sign_total : (r : Receipt) (k : Keypair) → (r' : Receipt) × Podpisany r r' k
  unfolding sign digest verify_self
  sign_total r k =
      let bez = record r { signer = public b k; signature = none } in
      let (h, e) = content_digest_total (receipt_dokument b bez) in
      let r' = record r { signer = public b k; signature = some (sign_digest b k h) } in
      (
        r',
        record {
          podpisano = rw e;
          klucz = refl;
          tresc = refl;
          wazny = rw e (verify_digest-sign_digest b prawa k h);
        },
      )

  -- Signing never fails, changes nothing but the signer and the signature, and gives a receipt that
  -- passes all three gates for its own job and node under the signer's key.
  pub verify_for_node-sign :
      (r : Receipt) (k : Keypair)
      → (r' : Receipt) × Podpisany r r' k
        × (verify_for_node b r' r.job_id r.node_id (public b k) ≡ ok tt)
  verify_for_node-sign r k =
      let (r', p) = sign_total r k in
      (
        r',
        p,
        (verify_for_node_iff b r' r.job_id r.node_id (public b k)).1
            (p.wazny, p.klucz, cc p.tresc, cc p.tresc),
      )

  -- A receipt that was bound to the tokens and then signed.
  pub record Zwiazany (r : Receipt) (k : Keypair) (tok nonce : String) (prompt out : List ℕ)
      (par : String) (ziarno : ℕ) (profil : String) (r1 r2 : Receipt) : Type 0 where
    pub wiazania_m1 : WiazaniaM1
    pub zwiazano : z_wiazaniem_m1 b r tok nonce prompt out par ziarno profil ≡ ok r1
    pub reszta : r1 ≡ record r { wiazania = some wiazania_m1 }
    pub podpisany : Podpisany r1 r2 k
    pub poziom_m1 : poziom r2 ≡ 1
    pub zgodny : zweryfikuj_m1 b r2 tok nonce prompt out ≡ ok tt

  pub z_wiazaniem_total :
      (r : Receipt) (k : Keypair) (tok nonce : String) (prompt out : List ℕ) (par : String)
      (ziarno : ℕ) (profil : String)
      → (r1 r2 : Receipt) × Zwiazany r k tok nonce prompt out par ziarno profil r1 r2
  unfolding z_wiazaniem_m1 odcisk_promptu lancuch_tokenow
  z_wiazaniem_total r k tok nonce prompt out par ziarno profil =
      let (pd, e1) = content_digest_total (prompt_dokument tok nonce prompt) in
      let (lc, e2) = content_digest_total (lancuch_dokument pd out) in
      let w : WiazaniaM1 = record {
        schema_version = 2;
        receipt_level = 1;
        exec_profile = profil;
        tokenizer_hash = tok;
        prompt_digest = pd;
        output_token_chain = lc;
        client_nonce = nonce;
        sampling_params_hash = par;
        rng_seed = ziarno;
      } in
      let r1 = record r { wiazania = some w } in
      let (r2, p) = sign_total r1 k in
      let q : r2.wiazania ≡ some w = cc p.tresc in
      (
        r1,
        r2,
        record {
          wiazania_m1 = w;
          zwiazano = rw (e1, e2);
          reszta = refl;
          podpisany = p;
          poziom_m1 = poziom_wiazan r2 w q;
          zgodny = Wiaze-zweryfikuj_m1 b r2 tok nonce prompt out (record {
            wiazanie = w;
            jest = q;
            podpis = p.wazny;
            poziom_m1 = omega arith;
            wersja = refl;
            tokenizer = refl;
            nonce_klienta = refl;
            prompt_zgodny = e1;
            wyjscie_zgodne = e2;
          });
        },
      )

  -- A node that binds its input and output, and then signs, has a receipt of level 1 that passes the
  -- M1 gate for exactly the tokenizer, nonce, prompt and output that it bound.
  pub zweryfikuj_m1-sign :
      (r : Receipt) (k : Keypair) (tok nonce : String) (prompt out : List ℕ) (par : String)
      (ziarno : ℕ) (profil : String)
      → (r1 r2 : Receipt) × (z_wiazaniem_m1 b r tok nonce prompt out par ziarno profil ≡ ok r1)
        × (sign b r1 k ≡ ok r2)
        × (poziom r2 ≡ 1)
        × (zweryfikuj_m1 b r2 tok nonce prompt out ≡ ok tt)
  zweryfikuj_m1-sign r k tok nonce prompt out par ziarno profil =
      let (r1, r2, z) = z_wiazaniem_total r k tok nonce prompt out par ziarno profil in
      (r1, r2, z.zwiazano, z.podpisany.podpisano, z.poziom_m1, z.zgodny)
