-- ===== src/Klient/Orders.antt =====
-- The order's id in crates/simon-harness/src/client_protocol.rs, which is the digest of its content.
use simon.Prelude.{ℕ, ◌≡◌, ◌⊎◌, inl, inr, refl, sym, true, false, String, none, ok, Result-cases}
use native.Mathlib.Decide.{ℕ_discrete}
use simon.Prelude.Text.{str_eq, eq_iff, str_eq-true}
use simon.Kodowanie.{Bytes, Biblioteki, Prawa, Kolizja}
use simon.Receipt.Signing.{content_digest_total}
use simon.Receipt.Binding.{String-discrete}
use simon.Klient.Zlecenie.{
  Format, JobOrder, synthetic, order_dokument, burn_dokument, teksty, bez_cyklu,
  payload_digest_z_nonce, odcisk_zlecenia, nowe_zlecenie, order_id_sie_zgadza, is_verifiable,
  has_verifiable_burn,
}

module _ (b : Biblioteki) where
  id_zgodny :
      (o : JobOrder) (d : String)
      → odcisk_zlecenia b o ≡ ok d
      → o.order_id ≡ d
      → order_id_sie_zgadza b o ≡ true
  unfolding order_id_sie_zgadza
  id_zgodny o d e q = rw (e, order_id_sie_zgadza) ((eq_iff d o.order_id).1 (sym q))

  -- An order is made with an id that everyone recomputes from it, and with a proof of burning that no
  -- production check takes for a real one.
  pub nowe_zlecenie_lem :
      (prawa : Prawa b) (fmt : Format) (nonce model : String) (payload : Bytes) (fee timeout : ℕ)
      (klient : String)
      → (o : JobOrder) × (nowe_zlecenie b fmt nonce model payload fee timeout klient ≡ ok o)
        × (order_id_sie_zgadza b o ≡ true)
        × (o.payload_digest ≡ payload_digest_z_nonce b nonce payload)
        × (has_verifiable_burn o ≡ false)
  unfolding nowe_zlecenie order_id_sie_zgadza odcisk_zlecenia bez_cyklu synthetic
      has_verifiable_burn is_verifiable
  nowe_zlecenie_lem prawa fmt nonce model payload fee timeout klient =
      let pd = payload_digest_z_nonce b nonce payload in
      let z : JobOrder = record {
        burn = synthetic fmt "" fee;
        order_id = "";
        model_hash = model;
        payload_digest = pd;
        fee_think = fee;
        timeout_secs = timeout;
        client_pubkey = klient;
        nonce = nonce;
        signature = none;
        autoryzacja = none;
      } in
      let (id, e) = content_digest_total b prawa (order_dokument (bez_cyklu z)) in
      (
        record z { order_id = id; burn = synthetic fmt id fee },
        rw e,
        id_zgodny (record z { order_id = id; burn = synthetic fmt id fee }) id e refl,
        refl,
        refl,
      )

  odcisk_order_id :
      (o : JobOrder) → order_id_sie_zgadza b o ≡ true → odcisk_zlecenia b o ≡ ok o.order_id
  unfolding order_id_sie_zgadza
  odcisk_order_id o h = elim (Result-cases (odcisk_zlecenia b o)) [
    | inl (d, e) ↦
        let q : str_eq d o.order_id ≡ true = rw (e, order_id_sie_zgadza) at h in
        cc (e, str_eq-true d o.order_id q)
    | inr (x, e) ↦ let q : false ≡ true = rw (e, order_id_sie_zgadza) at h in cc q
  ]

  order_dokument_injective :
      (o o' : JobOrder)
      → order_dokument (bez_cyklu o) ≡ order_dokument (bez_cyklu o')
      → bez_cyklu o ≡ bez_cyklu o'
  unfolding order_dokument bez_cyklu burn_dokument teksty
  order_dokument_injective o o' h = cc h

  JobOrder-discrete : Discrete JobOrder
  JobOrder-discrete = hlevel (ℕ_discrete, String-discrete)

  -- One id, one content: two orders whose ids match their contents and are the same agree in the model,
  -- the payload, the fee, the timeout, the client and the nonce, or they are a collision of the digest.
  pub order_id_jednoznaczny :
      (o o' : JobOrder)
      → order_id_sie_zgadza b o ≡ true
      → order_id_sie_zgadza b o' ≡ true
      → o.order_id ≡ o'.order_id
      → ((o.model_hash ≡ o'.model_hash)
          × (o.payload_digest ≡ o'.payload_digest)
          × (o.fee_think ≡ o'.fee_think)
          × (o.timeout_secs ≡ o'.timeout_secs)
          × (o.client_pubkey ≡ o'.client_pubkey)
          × (o.nonce ≡ o'.nonce))
        ⊎ Kolizja b (order_dokument (bez_cyklu o)) (order_dokument (bez_cyklu o'))
  unfolding odcisk_zlecenia bez_cyklu
  order_id_jednoznaczny o o' h h' e = elim (JobOrder-discrete (bez_cyklu o) (bez_cyklu o')) [
    | yes q ↦ inl (zgodne q)
    | no n ↦ inr (
      λ q. n (order_dokument_injective o o' q),
      cc (odcisk_order_id o h, odcisk_order_id o' h', e),
    )
  ]
    where
      zgodne :
          bez_cyklu o ≡ bez_cyklu o'
          → (o.model_hash ≡ o'.model_hash)
            × (o.payload_digest ≡ o'.payload_digest)
            × (o.fee_think ≡ o'.fee_think)
            × (o.timeout_secs ≡ o'.timeout_secs)
            × (o.client_pubkey ≡ o'.client_pubkey)
            × (o.nonce ≡ o'.nonce)
      zgodne q = (cc q, cc q, cc q, cc q, cc q, cc q)
