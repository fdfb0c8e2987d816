-- ===== src/Kodowanie.antt =====
-- What is signed, and the libraries that the program signs with: the documents that serde
-- serialises, `content_digest` of crates/simon-core/src/lib.rs, and the calls of serde_json, sha2,
-- hex and ed25519-dalek, which are parameters.
use simon.Prelude.{
  ℕ, ◌<◌, ◌≡◌, ◌≢◌, Bool, true, false, if◌then◌else◌, leb, Option, none, some, List, [], ◌∷◌,
  String, Result, ok, ◌>>=◌, map_err, length, All,
}
use simon.Prelude.Text.{as_bytes, str_eq, str_append}
use simon.Prelude.Int.{ℤ, pos, negsuc}
use simon.Prelude.Words.{i64_max}

abbrev pub Bytes : Type 0
Bytes = List ℕ

-- A value as its `Serialize` instance presents it, or a `serde_json::Value`; an `f64` is kept as its
-- decimal text. Of the two kinds of structure, `object` is a `serde_json` map, built by `json!`,
-- and `struct` a derived instance, its fields in the order of their declaration.
mutual
  pub data Dokument : Type 0 where
    null : Dokument
    bool : Bool → Dokument
    number : ℤ → Dokument
    float : String → Dokument
    text : String → Dokument
    seq : Elementy → Dokument
    object : Pola → Dokument
    struct : Pola → Dokument

  pub data Elementy : Type 0 where
    nil : Elementy
    cons : Dokument → Elementy → Elementy

  pub data Pola : Type 0 where
    koniec : Pola
    pole : String → Dokument → Pola → Pola

-- `Value::get` on a key
abbrev pub get_pole : String → Pola → Option Dokument
get_pole k koniec = none
get_pole k (pole j d ps) = if str_eq k j then some d else get_pole k ps

abbrev pub get : Dokument → String → Option Dokument
get (object ps) k = get_pole k ps
get _ k = none

abbrev pub as_str : Dokument → Option String
as_str (text s) = some s
as_str _ = none

abbrev pub as_u64 : Dokument → Option ℕ
as_u64 (number (pos n)) = some n
as_u64 _ = none

-- A positive integer may be larger than `i64::MAX`.
abbrev pub as_i64 : Dokument → Option ℤ
as_i64 (number (pos n)) = if leb n i64_max then some (pos n) else none
as_i64 (number (negsuc n)) = some (negsuc n)
as_i64 _ = none

abbrev pub is_boolean : Dokument → Bool
is_boolean (bool x) = true
is_boolean _ = false

-- A sequence of unsigned integers.
unfoldable pub liczby : List ℕ → Elementy
liczby [] = nil
liczby (n ∷ ns) = cons (number (pos n)) (liczby ns)

-- The functions of other crates that the program calls, with the texts of their errors.
pub record Biblioteki : Type 0 where
  -- `serde_json::to_string`
  pub to_string : Dokument → Result String String
  -- `Sha256::digest`
  pub sha256 : Bytes → Bytes
  -- `hex::encode`, `hex::decode`
  pub hex_encode : Bytes → String
  pub hex_decode : String → Result String Bytes
  -- `VerifyingKey::from_bytes`, for its error only
  pub verifying_key : Bytes → Result String (Unit {0})
  -- key, message, signature: `VerifyingKey::verify(..).is_ok()`
  pub ed_verify : Bytes → Bytes → Bytes → Bool
  -- seed, message: `SigningKey::sign(..).to_bytes()`
  pub ed_sign : Bytes → Bytes → Bytes
  -- seed: `SigningKey::verifying_key().to_bytes()`
  pub ed_public : Bytes → Bytes

abbrev pub IsBytes : Bytes → Type 0
IsBytes = All (λ b. b < 256)

-- What the program relies on: hex decodes what it encoded; keys and signatures are byte arrays of 32
-- and of 64; a public key is a valid one, and verifies what its secret key signed.
pub record Prawa (b : Biblioteki) : Type 0 where
  pub hex_decode-encode : (x : Bytes) → IsBytes x → b.hex_decode (b.hex_encode x) ≡ ok x
  pub to_string_total : (x : Dokument) → (s : String) × (b.to_string x ≡ ok s)
  pub public_bytes : (seed : Bytes) → IsBytes (b.ed_public seed)
  pub public_length : (seed : Bytes) → length (b.ed_public seed) ≡ 32
  pub public_valid : (seed : Bytes) → b.verifying_key (b.ed_public seed) ≡ ok tt
  pub sign_bytes : (seed m : Bytes) → IsBytes (b.ed_sign seed m)
  pub sign_length : (seed m : Bytes) → length (b.ed_sign seed m) ≡ 64
  pub sign_verify :
      (seed m : Bytes) → b.ed_verify (b.ed_public seed) m (b.ed_sign seed m) ≡ Bool.true

-- `SimonError`; an error of another crate is kept as its text.
pub data SimonError : Type 0 where
  bad_signature : SimonError
  receipt_mismatch : String → SimonError
  unregistered_key : SimonError
  serde : String → SimonError
  crypto : String → SimonError

-- `SimonError::to_string`
unfoldable pub komunikat : SimonError → String
komunikat bad_signature = "invalid signature"
komunikat (receipt_mismatch s) = str_append "receipt does not match the job: " s
komunikat unregistered_key = "key not registered"
komunikat (serde s) = str_append "serialization error: " s
komunikat (crypto s) = str_append "crypto error: " s

-- `content_digest`: the hex of the SHA-256 of the JSON text
unfoldable pub content_digest : Biblioteki → Dokument → Result SimonError String
content_digest b value = do
  canonical ← map_err serde (b.to_string value)
  ok (b.hex_encode (b.sha256 (as_bytes canonical)))

-- Two different documents with one digest: a collision of the hash, or of the JSON printer.
abbrev pub Kolizja : Biblioteki → Dokument → Dokument → Type 0
Kolizja b x y = (x ≢ y) × (content_digest b x ≡ content_digest b y)
