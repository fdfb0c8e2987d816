-- ===== src/Klient/Podpis.antt =====
-- crates/simon-harness/src/client_protocol.rs: the check of a signature in hex that
-- `Autoryzacja::podpis_zgadza_sie` and `OrderAccepted::podpis_zgadza_sie` make, each in its own words.
use simon.Prelude.{Bool, true, String, Option, some, Result, ok, ◌>>=◌, map_err, ok_or, is_ok, ◌≡◌}
use simon.Prelude.Text.{as_bytes}
use simon.Kodowanie.{Biblioteki, Prawa, SimonError, bad_signature, crypto}
use simon.Crypto.{Keypair, public, sign_digest, verify_digest, from_hex, to_hex, try_into}
use simon.Crypto.Laws.{from_hex-to_hex, verify_digest-sign_digest}

module _ (b : Biblioteki) where
  -- The chain of `let .. else { return false; }`: a failed step is a refusal.
  unfoldable pub podpis_hex : Option String → String → Result SimonError String → Bool
  podpis_hex signature pubkey digest = is_ok (do
    sig_hex ← ok_or signature bad_signature
    pk ← from_hex b pubkey
    d ← digest
    bajty ← map_err crypto (b.hex_decode sig_hex)
    arr ← try_into 64 bajty bad_signature
    verify_digest b pk d (record { bajty = arr }))

  -- What a key signed is accepted under that key's hex text.
  pub podpis_hex-sign :
      (prawa : Prawa b) (k : Keypair) (d : String)
      → podpis_hex (some (b.hex_encode (sign_digest b k d).bajty)) (to_hex b (public b k)) (ok d)
        ≡ true
  unfolding podpis_hex sign_digest
  podpis_hex-sign prawa k d =
      let v = verify_digest-sign_digest b prawa k d in
      rw
        (
          from_hex-to_hex b prawa k,
          prawa.hex_decode-encode _ (prawa.sign_bytes k.inner (as_bytes d)),
        )
        (rw (prawa.sign_length k.inner (as_bytes d)) (rw v))
