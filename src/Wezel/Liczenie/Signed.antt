-- ===== src/Wezel/Liczenie/Signed.antt =====
-- `zbuduj_podpisany_receipt` of crates/simon-cli/src/node.rs: what the receipt that a node sends has.
use simon.Prelude.{ℕ, ◌≡◌, refl, sym, ap, ◌∙◌, String, Option, none, some, [], ◌∷◌, ok}
use simon.Kodowanie.{Biblioteki, Prawa}
use simon.Crypto.{Keypair, public}
use simon.Receipt.{
  Receipt, WiazaniaM1, verify_self, zweryfikuj_m1, odcisk_sampling, greedy, sign, odcisk_parametrow,
}
use simon.Receipt.Signing.{content_digest_total, sign_total, z_wiazaniem_total}
use simon.Prompt.{PromptRequest}
use simon.Klient.Zlecenie.{polacz}
use simon.Wezel.Liczenie.{
  Otoczenie, DaneWiazania, surowy_receipt, zwiaz, zbuduj_podpisany_receipt, precision_debug,
}

-- What the node relies on: a receipt's JSON is read back as that receipt.
pub record PrawaJson (o : Otoczenie) : Type 0 where
  pub z_json-do_json : (r : Receipt) → (s : String) × (o.do_json r ≡ ok s) × (o.z_json s ≡ ok r)

module _ (b : Biblioteki) (prawa : Prawa b) where
  -- The binding of a receipt, for the data that were bound.
  abbrev pub WiazanieZ : Receipt → String → Option DaneWiazania → Type 0
  WiazanieZ rec nonce none = rec.wiazania ≡ none
  WiazanieZ rec nonce (some (th, p, q)) =
      (w : WiazaniaM1) × (rec.wiazania ≡ some w) × (zweryfikuj_m1 b rec th nonce p q ≡ ok tt)

  -- A receipt that is the first one but for its binding, its signer and its signature, which are valid.
  pub record Wystawiony (r : Receipt) (k : Keypair) (nonce : String) (dane : Option DaneWiazania)
      (rec : Receipt) : Type 0 where
    pub podpis : verify_self b rec ≡ ok tt
    pub signer : rec.signer ≡ public b k
    pub job_id : rec.job_id ≡ r.job_id
    pub model_hash : rec.model_hash ≡ r.model_hash
    pub output_digest : rec.output_digest ≡ r.output_digest
    pub wiazanie : WiazanieZ rec nonce dane

  sampling_total : (h : String) × (odcisk_sampling b greedy ≡ ok h)
  unfolding odcisk_sampling odcisk_parametrow
  sampling_total = content_digest_total b prawa _

  module _ (o : Otoczenie) where
    zwiaz-Wystawiony :
        (r : Receipt) (k : Keypair) (nonce : String) (dane : Option DaneWiazania)
        → r.wiazania ≡ none
        → (rec : Receipt) × (sign b (zwiaz b o r nonce dane) k ≡ ok rec)
          × Wystawiony r k nonce dane rec
    unfolding zwiaz
    zwiaz-Wystawiony r k nonce none h =
        let (rec, p) = sign_total b prawa r k in
        (
          rec,
          p.podpisano,
          record {
            podpis = p.wazny;
            signer = p.klucz;
            job_id = cc p.tresc;
            model_hash = cc p.tresc;
            output_digest = cc p.tresc;
            wiazanie = sym (ap (λ (x : Receipt). x.wiazania) p.tresc) ∙ h;
          },
        )
    zwiaz-Wystawiony r k nonce (some (th, p, q)) h =
        let (par, e) = sampling_total in
        let profil = o.to_lowercase (polacz (r.runtime ∷ "/" ∷ precision_debug r.precision ∷ [])) in
        let (r1, rec, z) = z_wiazaniem_total b prawa r k th nonce p q par 0 profil in
        let x = z.podpisany in
        (
          rec,
          rw (e, zwiaz) (rw z.zwiazano x.podpisano),
          record {
            podpis = x.wazny;
            signer = x.klucz;
            job_id = cc (x.tresc, z.reszta);
            model_hash = cc (x.tresc, z.reszta);
            output_digest = cc (x.tresc, z.reszta);
            wiazanie = (z.wiazania_m1, cc (x.tresc, z.reszta), z.zgodny);
          },
        )

    pub zbuduj_lem :
        (json : PrawaJson o) (k : Keypair) (model runtime : String) (req : PromptRequest)
        (output : String) (pt out s f : ℕ) (dane : Option DaneWiazania)
        → (rec : Receipt) × (o.z_json
              (zbuduj_podpisany_receipt b o k model runtime req output pt out s f dane)
            ≡ ok rec)
          × Wystawiony
              (surowy_receipt b o k model runtime req output pt out s f)
              k
              req.nonce
              dane
              rec
    unfolding zbuduj_podpisany_receipt surowy_receipt
    zbuduj_lem json k model runtime req output pt out s f dane =
        let r = surowy_receipt b o k model runtime req output pt out s f in
        let (rec, e, w) = zwiaz-Wystawiony r k req.nonce dane refl in
        let (t, x, y) = json.z_json-do_json rec in
        (rec, rw (e, zbuduj_podpisany_receipt) (rw x y), w)
