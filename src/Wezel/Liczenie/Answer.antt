-- ===== src/Wezel/Liczenie/Answer.antt =====
-- What a node answers (crates/simon-cli/src/node.rs) and what the client makes of it
-- (crates/simon-cli/src/agent.rs).
use simon.Prelude.{
  ℕ, ◌≡◌, refl, ap, ◌∙◌, true, String, Option, none, some, if◌then◌else◌, ok, Bool-cases, inl, inr,
}
use simon.Prelude.Text.{str_eq, eq_refl}
use simon.Kodowanie.{Biblioteki, Prawa}
use simon.Crypto.{Keypair, public}
use simon.Receipt.{Receipt, zgodny_z_wyjsciem, odcisk_wyjscia, wyjscie_dokument}
use simon.Receipt.Signing.{content_digest_total}
use simon.Prompt.{PromptRequest, PromptResponse, wynik}
use simon.Agent.{m1_info}
use simon.Agent.Checks.{Przyjety, Przypiety, ZgodnyM1}
use simon.Wezel.Liczenie.{
  Otoczenie, DaneWiazania, odpowiedz_z, surowy_receipt, zbuduj_podpisany_receipt, zloz_odpowiedz,
  ma_m1,
}
use simon.Wezel.Liczenie.Signed.{PrawaJson, WiazanieZ, zbuduj_lem}

module _ (b : Biblioteki) (prawa : Prawa b) (o : Otoczenie) (json : PrawaJson o) where
  zgodny_z_wyjsciem_lem :
      (rec : Receipt) (job output d : String)
      → rec.job_id ≡ job
      → odcisk_wyjscia b job output ≡ ok d
      → str_eq d rec.output_digest ≡ true
      → zgodny_z_wyjsciem b rec output ≡ true
  unfolding zgodny_z_wyjsciem
  zgodny_z_wyjsciem_lem rec job output d p e q =
      let e' : odcisk_wyjscia b rec.job_id output ≡ ok d =
        ap (λ j. odcisk_wyjscia b j output) p ∙ e in
      rw (e', zgodny_z_wyjsciem) q

  tresc_zgodna :
      (output : String) (rec : Receipt) (k : Keypair) (model runtime : String) (req : PromptRequest)
      (pt out s f : ℕ)
      → rec.job_id ≡ req.job_id
      → rec.output_digest ≡ (surowy_receipt b o k model runtime req output pt out s f).output_digest
      → zgodny_z_wyjsciem b rec output ≡ true
  unfolding surowy_receipt odcisk_wyjscia
  tresc_zgodna output rec k model runtime req pt out s f p q =
      let (d, e) = content_digest_total b prawa (wyjscie_dokument req.job_id output) in
      let q' : rec.output_digest ≡ d = rw (e, surowy_receipt) at q in
      zgodny_z_wyjsciem_lem rec req.job_id output d p e (ap (str_eq d) q' ∙ eq_refl d)

  jawne_lem :
      (receipt nonce : String) (rec : Receipt) (dane : Option DaneWiazania)
      → o.z_json receipt ≡ ok rec
      → WiazanieZ b prawa rec nonce dane
      → (if ma_m1 b o receipt then dane else none) ≡ dane
  jawne_lem receipt nonce rec none e w = elim (Bool-cases (ma_m1 b o receipt)) [
    | inl h ↦ rw h refl
    | inr h ↦ rw h refl
  ]
  jawne_lem receipt nonce rec (some d) e (w, h, z) = rw (e, ma_m1) (rw h refl)

  zgodny_m1 :
      (k : Keypair) (req : PromptRequest) (output receipt : String) (out t : ℕ) (rec : Receipt)
      (dane : Option DaneWiazania)
      → WiazanieZ b prawa rec req.nonce dane
      → ZgodnyM1 b o.z_json rec (m1_info (odpowiedz_z b o req output receipt out t dane) req.nonce)
  unfolding m1_info
  zgodny_m1 k req output receipt out t rec none w = tt
  zgodny_m1 k req output receipt out t rec (some (th, p, q)) (w, h, z) = λ l. z

  -- The answer that carries a receipt of these data is one that the client takes.
  pub zloz_odpowiedz-Przyjety :
      (k : Keypair) (model runtime : String) (req : PromptRequest) (output : String)
      (pt out s f t : ℕ) (dane : Option DaneWiazania) (signer : Option String)
      → ((rec : Receipt) → rec.signer ≡ public b k → Przypiety b o.z_json rec signer)
      → (r : PromptResponse) × (zloz_odpowiedz b o req output
            (zbuduj_podpisany_receipt b o k model runtime req output pt out s f dane)
            out
            t
            dane
          ≡ wynik r)
        × (r.output ≡ output)
        × (r.order_id ≡ req.order_id)
        × (r.job_id ≡ req.job_id)
        × ((rec : Receipt) × Przyjety b o.z_json r model req.nonce signer rec)
  unfolding zloz_odpowiedz surowy_receipt
  zloz_odpowiedz-Przyjety k model runtime req output pt out s f t dane signer pin =
      let receipt = zbuduj_podpisany_receipt b o k model runtime req output pt out s f dane in
      let (rec, e, w) = zbuduj_lem b prawa o json k model runtime req output pt out s f dane in
      let j = jawne_lem receipt req.nonce rec dane e w.wiazanie in
      (
        odpowiedz_z b o req output receipt out t dane,
        rw j refl,
        refl,
        refl,
        refl,
        (
          rec,
          record {
            parsuje_sie = e;
            podpis = w.podpis;
            job = w.job_id;
            model_hash = w.model_hash;
            tresc = tresc_zgodna output rec k model runtime req pt out s f w.job_id w.output_digest;
            m1 = zgodny_m1 k req output receipt out t rec dane w.wiazanie;
            klucz = pin rec w.signer;
          },
        ),
      )
