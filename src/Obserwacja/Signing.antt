-- ===== src/Obserwacja/Signing.antt =====
-- The signature of an observation in crates/simon-core/src/obserwacja.rs.
use simon.Prelude.{◌≡◌, refl, none, some, ok}
use simon.Kodowanie.{Biblioteki, Prawa, object, pole, koniec, text}
use simon.Crypto.{Keypair, public, sign_digest}
use simon.Crypto.Laws.{verify_digest-sign_digest}
use simon.Receipt.Signing.{content_digest_total}
use simon.Obserwacja.{
  domena_obserwacji, ClientObservationV1, obserwacja_dokument, odcisk_obserwacji,
  podpisz_obserwacje, sprawdz_obserwacje,
}

module _ (b : Biblioteki) (prawa : Prawa b) where
  -- Signing an observation never fails, changes nothing but the client's key and the signature, and what
  -- it gives is consistent with the key that signed.
  pub podpisz-sprawdz_obserwacje :
      (o : ClientObservationV1) (k : Keypair)
      → (o' : ClientObservationV1) × (podpisz_obserwacje b o k ≡ ok o')
        × (o'.client_pubkey ≡ public b k)
        × (record o { client_pubkey = o'.client_pubkey; client_signature = o'.client_signature }
            ≡ o')
        × (sprawdz_obserwacje b o' ≡ ok tt)
  unfolding podpisz_obserwacje odcisk_obserwacji sprawdz_obserwacje
  podpisz-sprawdz_obserwacje o k =
      let (d, e) = content_digest_total b prawa (
        object (
          pole "domena" (text domena_obserwacji) (
            pole "obserwacja"
              (obserwacja_dokument b
                (record o { client_pubkey = public b k; client_signature = none }))
              koniec))) in
      (
        record o { client_pubkey = public b k; client_signature = some (sign_digest b k d) },
        rw e,
        refl,
        refl,
        rw e (verify_digest-sign_digest b prawa k d),
      )
