-- ===== src/Crypto/Laws.antt =====
-- What crypto.rs promises, from what it relies on in its libraries.
use simon.Prelude.{
  err_ne_ok, ◌≡◌, ◌↔◌, refl, ap, true, [], ◌∷◌, String, ok, ◌==◌, ==_iff, &&-eq-true, Bool-cases,
  inl, ok-injective, inr, err_ne_ok,
}
use simon.Kodowanie.{Bytes, Biblioteki, Prawa}
use simon.Crypto.{
  PublicKey, Keypair, bytes_eq, key_eq, public, sign_digest, to_hex, from_hex, verify_digest, ℕ,
  try_into, length,
}

bytes_eq→eq : (x y : Bytes) → bytes_eq x y ≡ true → x ≡ y
bytes_eq→eq [] [] h = refl
bytes_eq→eq [] (b ∷ y) h = cc
bytes_eq→eq (a ∷ x) [] h = cc
bytes_eq→eq (a ∷ x) (b ∷ y) h =
    let (p, q) = &&-eq-true (a == b) (bytes_eq x y) h in cc ((==_iff a b).0 p, bytes_eq→eq x y q)

bytes_eq_refl : (x : Bytes) → bytes_eq x x ≡ true
bytes_eq_refl [] = refl
bytes_eq_refl (a ∷ x) = rw ((==_iff a a).1 refl) (bytes_eq_refl x)

pub bytes_eq_iff : (x y : Bytes) → (bytes_eq x y ≡ true) ↔ (x ≡ y)
bytes_eq_iff x y = (bytes_eq→eq x y, λ e. rw e (bytes_eq_refl y))

pub key_eq_iff : (a b : PublicKey) → (key_eq a b ≡ true) ↔ (a ≡ b)
key_eq_iff a b = (
  λ h. ap (λ x. record { bajty = x }) (bytes_eq→eq a.bajty b.bajty h),
  λ e. rw e (bytes_eq_refl b.bajty),
)

pub try_into-eq-ok {ℓ} :
    {E : Type ℓ} (n : ℕ) (x : Bytes) (e : E) {y : Bytes}
    → try_into n x e ≡ ok y
    → (x ≡ y) × (length x ≡ n)
try_into-eq-ok n x e h = elim (Bool-cases (length x == n)) [
  | inl t ↦ (ok-injective (rw t at h), (==_iff (length x) n).0 t)
  | inr t ↦ absurd (err_ne_ok (rw t at h))
]

module _ (b : Biblioteki) (prawa : Prawa b) where
  -- A key verifies the digest that its secret key signed.
  pub verify_digest-sign_digest :
      (k : Keypair) (d : String) → verify_digest b (public b k) d (sign_digest b k d) ≡ ok tt
  unfolding verify_digest public sign_digest
  verify_digest-sign_digest k d = rw (prawa.public_valid k.inner, prawa.sign_verify k.inner _)

  -- The hex text of a public key reads back as that key.
  pub from_hex-to_hex : (k : Keypair) → from_hex b (to_hex b (public b k)) ≡ ok (public b k)
  unfolding from_hex to_hex public
  from_hex-to_hex k =
      rw (prawa.hex_decode-encode (b.ed_public k.inner) (prawa.public_bytes k.inner))
        (rw (prawa.public_length k.inner))
