-- ===== src/Receipt/Gates.antt =====
-- The gates of `verify_for_node` of receipt.rs: what acceptance means, and which error a refusal has.
use simon.Prelude.{
  ◌≡◌, ◌≢◌, ◌↔◌, refl, Bool, true, false, String, Result, ok, err, ◌>>◌, guard, Bool-cases, inl,
  inr,
}
use simon.Prelude.Text.{str_eq, eq_iff}
use simon.Kodowanie.{Biblioteki, SimonError, unregistered_key}
use simon.Crypto.{PublicKey, key_eq}
use simon.Crypto.Laws.{key_eq_iff}
use simon.Receipt.{Receipt, verify_self, verify_for_node}

-- Inversion of a guard and of a sequence.
pub guard-ok :
    (t : Bool) (e : SimonError) {r : Result SimonError (Unit {0})}
    → ((guard t e >> r) ≡ ok tt)
    → (t ≡ true) × (r ≡ ok tt)
guard-ok true e h = (refl, h)
guard-ok false e h = cc

pub seq-ok :
    (m : Result SimonError (Unit {0})) {r : Result SimonError (Unit {0})}
    → ((m >> r) ≡ ok tt)
    → (m ≡ ok tt) × (r ≡ ok tt)
seq-ok (ok _) h = (refl, h)
seq-ok (err e) h = cc

pub guard-only : (t : Bool) (e : SimonError) → guard t e ≡ ok tt → t ≡ true
guard-only true e h = refl
guard-only false e h = cc

key_eq_of_ne : (a c : PublicKey) → a ≢ c → key_eq a c ≡ false
key_eq_of_ne a c n = elim (Bool-cases (key_eq a c)) [
  | inl e ↦ absurd (n ((key_eq_iff a c).0 e))
  | inr e ↦ e
]

module _ (b : Biblioteki) (r : Receipt) (job node : String) (klucz : PublicKey) where
  bramki_przeszly :
      verify_for_node b r job node klucz ≡ ok tt
      → (verify_self b r ≡ ok tt) × (r.signer ≡ klucz) × (r.job_id ≡ job) × (r.node_id ≡ node)
  unfolding verify_for_node
  bramki_przeszly h =
      let (p, h1) = seq-ok (verify_self b r) h in
      let (q, h2) = guard-ok (key_eq r.signer klucz) _ h1 in
      let (s, h3) = guard-ok (str_eq r.job_id job) _ h2 in
      (
        p,
        (key_eq_iff r.signer klucz).0 q,
        (eq_iff r.job_id job).0 s,
        (eq_iff r.node_id node).0 (guard-only (str_eq r.node_id node) _ h3),
      )

  bramki_wystarczaja :
      (verify_self b r ≡ ok tt) × (r.signer ≡ klucz) × (r.job_id ≡ job) × (r.node_id ≡ node)
      → verify_for_node b r job node klucz ≡ ok tt
  unfolding verify_for_node
  bramki_wystarczaja (p, q, s, t) =
      rw
        (p, (key_eq_iff r.signer klucz).1 q, (eq_iff r.job_id job).1 s, (eq_iff r.node_id node).1 t)

  -- A receipt is accepted for a job and a node exactly when its signature holds under the key in it,
  -- that key is the registered one, and it names that job and that node.
  pub verify_for_node_iff :
      (verify_for_node b r job node klucz ≡ ok tt)
      ↔ ((verify_self b r ≡ ok tt) × (r.signer ≡ klucz) × (r.job_id ≡ job) × (r.node_id ≡ node))
  verify_for_node_iff = (bramki_przeszly, bramki_wystarczaja)

  -- F3: a receipt whose signature is valid, under a key that is not the one registered for the node,
  -- is refused as `unregistered_key`, whatever job and node it names.
  pub verify_for_node_obcy_klucz :
      verify_self b r ≡ ok tt
      → r.signer ≢ klucz
      → verify_for_node b r job node klucz ≡ err unregistered_key
  unfolding verify_for_node
  verify_for_node_obcy_klucz p n = rw (p, key_eq_of_ne r.signer klucz n)
