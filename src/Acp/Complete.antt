-- ===== src/Acp/Complete.antt =====
-- `AcpServer::zakoncz` of crates/simon-harness/src/acp_server.rs: what a result that is shown has passed.
use simon.Prelude.{
  ◌≡◌, ◌↔◌, refl, String, Option, none, some, ok, >>=-eq-ok, guard-eq-ok, Option-cases, inl,
  err_ne_ok, inr, ok-injective, sym, ap,
}
use simon.Prelude.Text.{str_eq, eq_iff, as_bytes}
use simon.Prelude.Dict.{lookup, insert}
use simon.Kodowanie.{Biblioteki}
use simon.Crypto.{PublicKey}
use simon.Receipt.{verify_self, verify_for_node}
use simon.Receipt.Gates.{verify_for_node_iff, guard-only}
use simon.Klient.Wyscig.{OrderAccepted, OrderCompleted, verify_completion}
use simon.Acp.{AcpServer, AktywneZlecenie, zakoncz, zgodny_z_przyjeciem}
use simon.Acp.Zadanie.{WynikZlecenia, gotowe, deterministic_job_id}

-- The result is that of the coordinator that won the race, if one has answered.
abbrev pub ZgodnyZPrzyjeciem : Option OrderAccepted → OrderCompleted → Type 0
ZgodnyZPrzyjeciem none c = Unit
ZgodnyZPrzyjeciem (some acc) c =
    (acc.job_id ≡ c.job_id) × (acc.coordinator_pubkey ≡ c.coordinator_pubkey)

zgodny_z_przyjeciem_iff :
    (a : Option OrderAccepted) (c : OrderCompleted)
    → (zgodny_z_przyjeciem a c ≡ ok tt) ↔ ZgodnyZPrzyjeciem a c
unfolding zgodny_z_przyjeciem
zgodny_z_przyjeciem_iff none c = (λ h. tt, λ h. refl)
zgodny_z_przyjeciem_iff (some acc) c = (
  λ h.
      let (p, k) = guard-eq-ok (str_eq acc.job_id c.job_id) _ _ h in
      let q = guard-only (str_eq acc.coordinator_pubkey c.coordinator_pubkey) _ k in
      ((eq_iff _ _).0 p, (eq_iff _ _).0 q),
  λ h. rw (
    (eq_iff acc.job_id c.job_id).1 h.0,
    (eq_iff acc.coordinator_pubkey c.coordinator_pubkey).1 h.1,
  ),
)

-- What `zakoncz` demands of a result and of the text that comes with it.
pub record Wiarygodny (b : Biblioteki) (stan : AktywneZlecenie) (c : OrderCompleted)
    (klucz : PublicKey) (t : String) : Type 0 where
  pub przyjecie : ZgodnyZPrzyjeciem stan.accepted c
  pub job : c.job_id ≡ deterministic_job_id b stan.order.order_id
  pub model : c.receipt.model_hash ≡ stan.order.model_hash
  pub order : c.order_id ≡ stan.order.order_id
  pub podpis : verify_self b c.receipt ≡ ok tt
  pub wystawca : c.receipt.signer ≡ klucz
  pub receipt_job : c.receipt.job_id ≡ c.job_id
  pub receipt_node : c.receipt.node_id ≡ c.node_id
  pub tresc : b.hex_encode (b.sha256 (as_bytes t)) ≡ c.receipt.output_digest

module _ (b : Biblioteki) where
  verify_completion_iff :
      (c : OrderCompleted) (o : String) (k : PublicKey)
      → (verify_completion b c o k ≡ ok tt)
        ↔ ((c.order_id ≡ o) × (verify_for_node b c.receipt c.job_id c.node_id k ≡ ok tt))
  unfolding verify_completion
  verify_completion_iff c o k = (
    λ h. let (p, q) = guard-eq-ok (str_eq c.order_id o) _ _ h in ((eq_iff c.order_id o).0 p, q),
    λ h. rw ((eq_iff c.order_id o).1 h.0, h.1),
  )

  module _ (s s' : AcpServer) (c : OrderCompleted) (klucz : PublicKey) (t : String)
      (w : WynikZlecenia) where
    -- The state after, and the result that is shown.
    abbrev pub Pokazany : AktywneZlecenie → Type 0
    Pokazany stan =
        (s' ≡ record s { aktywne = insert c.order_id (record stan { faza = gotowe }) s.aktywne })
        × (w ≡ record { order_id = c.order_id; job_id = c.job_id; tresc = t; receipt = c.receipt })

    zakoncz-eq-ok :
        zakoncz b s c klucz t ≡ ok (s', w)
        → (stan : AktywneZlecenie) × (lookup c.order_id s.aktywne ≡ some stan)
          × Wiarygodny b stan c klucz t
          × Pokazany stan
    unfolding zakoncz
    zakoncz-eq-ok h = elim (Option-cases (lookup c.order_id s.aktywne)) [
      | inl l ↦ absurd (err_ne_ok (rw (l, zakoncz) at h))
      | inr (stan, l) ↦
          let h0 = rw (l, zakoncz) at h in
          let (_, z, h1) = >>=-eq-ok (zgodny_z_przyjeciem stan.accepted c) _ h0 in
          let (j, h2) =
            guard-eq-ok (str_eq c.job_id (deterministic_job_id b stan.order.order_id)) _ _ h1 in
          let (m, h3) = guard-eq-ok (str_eq c.receipt.model_hash stan.order.model_hash) _ _ h2 in
          let (_, v, h4) = >>=-eq-ok (verify_completion b c stan.order.order_id klucz) _ h3 in
          let (d, h5) =
            guard-eq-ok (str_eq (b.hex_encode (b.sha256 (as_bytes t))) c.receipt.output_digest) _ _
              h4 in
          let (o, f) = (verify_completion_iff c stan.order.order_id klucz).0 v in
          let (p, q, x, y) = (verify_for_node_iff b c.receipt c.job_id c.node_id klucz).0 f in
          let e = ok-injective h5 in
          (
            stan,
            l,
            record {
              przyjecie = (zgodny_z_przyjeciem_iff stan.accepted c).0 z;
              job = (eq_iff _ _).0 j;
              model = (eq_iff _ _).0 m;
              order = o;
              podpis = p;
              wystawca = q;
              receipt_job = x;
              receipt_node = y;
              tresc = (eq_iff _ _).0 d;
            },
            (
              sym (ap (λ (p : AcpServer × WynikZlecenia). p.0) e),
              sym (ap (λ (p : AcpServer × WynikZlecenia). p.1) e),
            ),
          )
    ]

    zakoncz_wystarcza :
        (stan : AktywneZlecenie)
        → lookup c.order_id s.aktywne ≡ some stan
        → Wiarygodny b stan c klucz t
        → Pokazany stan
        → zakoncz b s c klucz t ≡ ok (s', w)
    unfolding zakoncz
    zakoncz_wystarcza stan l r (e, f) =
        let z = (zgodny_z_przyjeciem_iff stan.accepted c).1 r.przyjecie in
        let j = (eq_iff c.job_id (deterministic_job_id b stan.order.order_id)).1 r.job in
        let m = (eq_iff c.receipt.model_hash stan.order.model_hash).1 r.model in
        let g =
          (verify_for_node_iff b c.receipt c.job_id c.node_id klucz).1
            (r.podpis, r.wystawca, r.receipt_job, r.receipt_node) in
        let v = (verify_completion_iff c stan.order.order_id klucz).1 (r.order, g) in
        let d = (eq_iff (b.hex_encode (b.sha256 (as_bytes t))) c.receipt.output_digest).1 r.tresc in
        rw (l, zakoncz) (rw (z, j) (rw (m, v) (rw d (rw (e, f)))))

    -- A result is shown exactly when the order is one that the server holds and the result is
    -- trustworthy for it: it comes from the coordinator that won the race, if one has answered; its job
    -- is that of the order; its receipt is for the model that was asked for, is signed under the key
    -- given, for this job and this node; and the text shown is the one whose hash was signed. Then the
    -- order is finished, and what is shown is that text with that receipt.
    pub zakoncz_iff : (zakoncz b s c klucz t ≡ ok (s', w)) ↔ (
        (stan : AktywneZlecenie) × (lookup c.order_id s.aktywne ≡ some stan)
        × Wiarygodny b stan c klucz t
        × Pokazany stan)
    zakoncz_iff = (zakoncz-eq-ok, λ p. zakoncz_wystarcza p.0 p.1 p.2 p.3)
