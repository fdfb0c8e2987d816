-- ===== src/Klient/Authorisation.antt =====
-- The coordinator's gate of crates/simon-harness/src/client_protocol.rs: what an accepted authorisation
-- binds, and that signing passes it.
use simon.Prelude.{
  ℕ, ◌+◌, ◌^◌, ◌<◌, ◌≤◌, ◌≡◌, ◌↔◌, ◌⊎◌, inl, inr, refl, sym, Bool, true, false, String, none, some,
  Result, ok, ◌>>=◌, guard, arith, Option-cases, &&-eq-true, ==_iff, ◌==◌, subst, err_ne_ok,
}
use native.Mathlib.Decide.{ℕ_discrete}
use simon.Prelude.Text.{str_eq, eq_iff, str_eq-true}
use simon.Kodowanie.{Biblioteki, Prawa, SimonError, Kolizja}
use simon.Crypto.{Keypair, public, to_hex, sign_digest}
use simon.Receipt.Binding.{String-discrete}
use simon.Receipt.Signing.{content_digest_total}
use simon.Klient.Podpis.{podpis_hex, podpis_hex-sign}
use simon.Klient.Zlecenie.{
  Format, Autoryzacja, JobOrder, autoryzacja_dokument, czy_wazna, zgodna_z, odcisk_autoryzacji,
  podpisz_autoryzacje, podpis_autoryzacji, zweryfikuj_autoryzacje,
}

-- The order is the one that the user authorised, in every field that both carry.
pub record Zgodna (a : Autoryzacja) (o : JobOrder) : Type 0 where
  pub tresc : a.payload_digest ≡ o.payload_digest
  pub model : a.model_hash ≡ o.model_hash
  pub oplata : a.fee_think ≡ o.fee_think
  pub czas : a.timeout_secs ≡ o.timeout_secs
  pub klient : a.user_pubkey ≡ o.client_pubkey
  pub nonce : a.nonce ≡ o.nonce

zgodna_z-Zgodna : (a : Autoryzacja) (o : JobOrder) → zgodna_z a o ≡ true → Zgodna a o
unfolding zgodna_z
zgodna_z-Zgodna a o h =
    let (p1, h1) = &&-eq-true (str_eq a.payload_digest o.payload_digest) _ h in
    let (p2, h2) = &&-eq-true (str_eq a.model_hash o.model_hash) _ h1 in
    let (p3, h3) = &&-eq-true (a.fee_think == o.fee_think) _ h2 in
    let (p4, h4) = &&-eq-true (a.timeout_secs == o.timeout_secs) _ h3 in
    let (p5, p6) = &&-eq-true (str_eq a.user_pubkey o.client_pubkey) (str_eq a.nonce o.nonce) h4 in
    record {
      tresc = str_eq-true _ _ p1;
      model = str_eq-true _ _ p2;
      oplata = (==_iff a.fee_think o.fee_think).0 p3;
      czas = (==_iff a.timeout_secs o.timeout_secs).0 p4;
      klient = str_eq-true _ _ p5;
      nonce = str_eq-true _ _ p6;
    }

Zgodna-zgodna_z : (a : Autoryzacja) (o : JobOrder) → Zgodna a o → zgodna_z a o ≡ true
unfolding zgodna_z
Zgodna-zgodna_z a o z = rw (
  (eq_iff a.payload_digest o.payload_digest).1 z.tresc,
  (eq_iff a.model_hash o.model_hash).1 z.model,
  (==_iff a.fee_think o.fee_think).1 z.oplata,
  (==_iff a.timeout_secs o.timeout_secs).1 z.czas,
  (eq_iff a.user_pubkey o.client_pubkey).1 z.klient,
  (eq_iff a.nonce o.nonce).1 z.nonce,
)

-- The clock's tolerance, for a deadline that leaves room for it.
pub czy_wazna_iff :
    (a : Autoryzacja) (teraz : ℕ)
    → a.wazne_do + 60 < 2 ^ 64
    → (czy_wazna a teraz ≡ true) ↔ (teraz ≤ a.wazne_do + 60)
unfolding czy_wazna
czy_wazna_iff a teraz h = ground arith

guard-bind :
    {A : Type 0} (t : Bool) (e : SimonError) {r : Result SimonError A} (d : A)
    → (guard t e >>= λ _. r) ≡ ok d
    → (t ≡ true) × (r ≡ ok d)
guard-bind true e d h = (refl, h)
guard-bind false e d h = cc

module _ (b : Biblioteki) (fmt : Format) where
  -- What the gate demands of an order whose authorisation has the digest `d`.
  pub record Autoryzowane (o : JobOrder) (teraz : ℕ) (d : String) : Type 0 where
    pub autoryzacja : Autoryzacja
    pub jest : o.autoryzacja ≡ some autoryzacja
    pub wersja : autoryzacja.v ≡ 1
    pub zgodna : Zgodna autoryzacja o
    pub podpisana : podpis_autoryzacji b autoryzacja ≡ true
    pub na_czas : czy_wazna autoryzacja teraz ≡ true
    pub odcisk : odcisk_autoryzacji b autoryzacja ≡ ok d

  przepuszczone :
      (o : JobOrder) (teraz : ℕ) (d : String)
      → zweryfikuj_autoryzacje b fmt o teraz ≡ ok d
      → Autoryzowane o teraz d
  unfolding zweryfikuj_autoryzacje zgodna_z
  przepuszczone o teraz d h = elim (Option-cases o.autoryzacja) [
    | inl e ↦ absurd (err_ne_ok (rw e at h))
    | inr (a, e) ↦
        let (p1, h1) = guard-bind (a.v == 1) _ d (rw e at h) in
        let (p2, h2) = guard-bind (zgodna_z a o) _ d h1 in
        let (p3, h3) = guard-bind (podpis_autoryzacji b a) _ d h2 in
        let (p4, h4) = guard-bind (czy_wazna a teraz) _ d h3 in
        record {
          autoryzacja = a;
          jest = e;
          wersja = (==_iff a.v 1).0 p1;
          zgodna = zgodna_z-Zgodna a o p2;
          podpisana = p3;
          na_czas = p4;
          odcisk = h4;
        }
  ]

  przepuszcza :
      (o : JobOrder) (teraz : ℕ) (d : String)
      → Autoryzowane o teraz d
      → zweryfikuj_autoryzacje b fmt o teraz ≡ ok d
  unfolding zweryfikuj_autoryzacje zgodna_z
  przepuszcza o teraz d a =
      rw
        (
          a.jest,
          (==_iff a.autoryzacja.v 1).1 a.wersja,
          Zgodna-zgodna_z a.autoryzacja o a.zgodna,
          a.podpisana,
          a.na_czas,
        )
        a.odcisk

  -- The coordinator lets an order pass, under a digest, exactly when it carries an authorisation of
  -- format 1 that agrees with it in all six fields both carry, is signed under the user's key in it,
  -- has not run out, and has that digest.
  pub zweryfikuj_autoryzacje_iff :
      (o : JobOrder) (teraz : ℕ) (d : String)
      → (zweryfikuj_autoryzacje b fmt o teraz ≡ ok d) ↔ Autoryzowane o teraz d
  zweryfikuj_autoryzacje_iff o teraz d = (przepuszczone o teraz d, przepuszcza o teraz d)

  bez_podpisu : Autoryzacja → Autoryzacja
  bez_podpisu a = record a { signature = none }

  autoryzacja_dokument_injective :
      (a a' : Autoryzacja)
      → autoryzacja_dokument (bez_podpisu a) ≡ autoryzacja_dokument (bez_podpisu a')
      → bez_podpisu a ≡ bez_podpisu a'
  unfolding autoryzacja_dokument bez_podpisu
  autoryzacja_dokument_injective a a' h = cc h

  Autoryzacja-discrete : Discrete Autoryzacja
  Autoryzacja-discrete = hlevel (ℕ_discrete, String-discrete)

  -- No substitution: two orders that pass the gate under one digest, at whatever times, agree in the
  -- payload, the model, the fee, the timeout, the client and the nonce, or two different
  -- authorisations are a collision of the digest.
  pub bez_podstawienia :
      (o o' : JobOrder) (t t' : ℕ) (d : String)
      → zweryfikuj_autoryzacje b fmt o t ≡ ok d
      → zweryfikuj_autoryzacje b fmt o' t' ≡ ok d
      → ((o.payload_digest ≡ o'.payload_digest)
          × (o.model_hash ≡ o'.model_hash)
          × (o.fee_think ≡ o'.fee_think)
          × (o.timeout_secs ≡ o'.timeout_secs)
          × (o.client_pubkey ≡ o'.client_pubkey)
          × (o.nonce ≡ o'.nonce))
        ⊎ ((a a' : Autoryzacja) × Kolizja b (autoryzacja_dokument a) (autoryzacja_dokument a'))
  unfolding odcisk_autoryzacji bez_podpisu
  bez_podstawienia o o' t t' d h h' =
      let p = przepuszczone o t d h in
      let q = przepuszczone o' t' d h' in
      let a = p.autoryzacja in
      let a' = q.autoryzacja in
      elim (Autoryzacja-discrete (bez_podpisu a) (bez_podpisu a')) [
        | yes e ↦ inl (
          cc (e, p.zgodna.tresc, q.zgodna.tresc),
          cc (e, p.zgodna.model, q.zgodna.model),
          cc (e, p.zgodna.oplata, q.zgodna.oplata),
          cc (e, p.zgodna.czas, q.zgodna.czas),
          cc (e, p.zgodna.klient, q.zgodna.klient),
          cc (e, p.zgodna.nonce, q.zgodna.nonce),
        )
        | no n ↦ inr (
          bez_podpisu a,
          bez_podpisu a',
          (λ e. n (autoryzacja_dokument_injective a a' e), cc (p.odcisk, q.odcisk)),
        )
      ]

  podpisana :
      (prawa : Prawa b) (k : Keypair) (a : Autoryzacja) (d : String)
      → odcisk_autoryzacji b a ≡ ok d
      → podpisz_autoryzacje b a k
        ≡ record a { signature = some (b.hex_encode (sign_digest b k d).bajty) }
  unfolding podpisz_autoryzacje
  podpisana prawa k a d e = rw (e, podpisz_autoryzacje)

  podpis_zgodny :
      (prawa : Prawa b) (k : Keypair) (a : Autoryzacja) (d : String)
      → a.user_pubkey ≡ to_hex b (public b k)
      → odcisk_autoryzacji b a ≡ ok d
      → podpis_autoryzacji b
          (record a { signature = some (b.hex_encode (sign_digest b k d).bajty) })
        ≡ true
  unfolding podpis_autoryzacji odcisk_autoryzacji
  podpis_zgodny prawa k a d u e =
      let h = b.hex_encode (sign_digest b k d).bajty in
      subst (λ p. podpis_hex b (some h) p (odcisk_autoryzacji b a) ≡ true) (sym u)
        (rw e (podpis_hex-sign b prawa k d))

  -- A user who authorises an order with the key it names passes the gate until the deadline and its
  -- tolerance, under the digest of the authorisation.
  pub podpisz-zweryfikuj :
      (prawa : Prawa b) (k : Keypair) (a : Autoryzacja) (o : JobOrder) (teraz : ℕ)
      → a.v ≡ 1
      → a.user_pubkey ≡ to_hex b (public b k)
      → Zgodna a o
      → a.wazne_do + 60 < 2 ^ 64
      → teraz ≤ a.wazne_do + 60
      → (d : String) × (odcisk_autoryzacji b a ≡ ok d)
        × (zweryfikuj_autoryzacje b fmt
              (record o { autoryzacja = some (podpisz_autoryzacje b a k) })
              teraz
            ≡ ok d)
  unfolding odcisk_autoryzacji
  podpisz-zweryfikuj prawa k a o teraz v u z m w =
      let (d, e) =
        content_digest_total b prawa (autoryzacja_dokument (record a { signature = none })) in
      let s = record a { signature = some (b.hex_encode (sign_digest b k d).bajty) } in
      let o' = record o { autoryzacja = some s } in
      let t : Autoryzowane o' teraz d = record {
        autoryzacja = s;
        jest = refl;
        wersja = v;
        zgodna = record {
          tresc = z.tresc;
          model = z.model;
          oplata = z.oplata;
          czas = z.czas;
          klient = z.klient;
          nonce = z.nonce;
        };
        podpisana = podpis_zgodny prawa k a d u e;
        na_czas = (czy_wazna_iff s teraz m).1 w;
        odcisk = e;
      } in
      (d, e, rw (podpisana prawa k a d e) (przepuszcza o' teraz d t))
