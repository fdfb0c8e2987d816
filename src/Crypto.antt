-- ===== src/Crypto.antt =====
-- crates/simon-core/src/crypto.rs: keys and signatures over digests.
pub mod Laws
pub mod Toy
use simon.Prelude.{
  ℕ, ◌≡◌, refl, Bool, true, false, ◌&&◌, List, [], ◌∷◌, String, Result, ok, err, ◌>>=◌, guard,
  map_err, ◌==◌, length, if◌then◌else◌,
}
use simon.Prelude.Text.{as_bytes}
use simon.Kodowanie.{Bytes, Dokument, text, Biblioteki, SimonError, bad_signature, crypto}

-- `[u8; 32]`, a node's identity
pub record PublicKey : Type 0 where
  pub bajty : Bytes

-- `[u8; 64]`
pub record Signature : Type 0 where
  pub bajty : Bytes

-- A signing key, by its seed of 32 bytes.
pub record Keypair : Type 0 where
  pub inner : Bytes

-- `PartialEq` of byte arrays
abbrev pub bytes_eq : Bytes → Bytes → Bool
bytes_eq [] [] = true
bytes_eq (x ∷ xs) (y ∷ ys) = x == y && bytes_eq xs ys
bytes_eq _ _ = false

abbrev pub key_eq : PublicKey → PublicKey → Bool
key_eq a b = bytes_eq a.bajty b.bajty

unfoldable pub from_seed : Bytes → Keypair
from_seed seed = record { inner = seed }

-- `raw.try_into()` into an array of `n` bytes
abbrev pub try_into {ℓ} : {E : Type ℓ} → ℕ → Bytes → E → Result E Bytes
try_into n raw e = if length raw == n then ok raw else err e

module _ (b : Biblioteki) where
  -- `Keypair::public`
  unfoldable pub public : Keypair → PublicKey
  public k = record { bajty = b.ed_public k.inner }

  unfoldable pub sign_digest : Keypair → String → Signature
  sign_digest k digest_hex = record { bajty = b.ed_sign k.inner (as_bytes digest_hex) }

  unfoldable pub to_hex : PublicKey → String
  to_hex k = b.hex_encode k.bajty

  unfoldable pub from_hex : String → Result SimonError PublicKey
  from_hex s = do
    raw ← map_err crypto (b.hex_decode s)
    arr ← try_into 32 raw (crypto "public key must be 32 bytes")
    ok (record { bajty = arr })

  unfoldable pub verify_digest : PublicKey → String → Signature → Result SimonError (Unit {0})
  verify_digest k digest_hex sig = do
    _ ← map_err crypto (b.verifying_key k.bajty)
    guard (b.ed_verify k.bajty (as_bytes digest_hex) sig.bajty) bad_signature

  -- The `hex_bytes` and `hex_bytes64` serialisers: hex text.
  unfoldable pub key_dokument : PublicKey → Dokument
  key_dokument k = text (b.hex_encode k.bajty)

  unfoldable pub signature_dokument : Signature → Dokument
  signature_dokument s = text (b.hex_encode s.bajty)
