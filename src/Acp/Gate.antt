-- ===== src/Acp/Gate.antt =====
-- `BramkaPodpisu::autoryzuj` of crates/simon-harness/src/acp_server.rs: what a request that it lets through
-- carries.
use simon.Prelude.{
  ◌≡◌, ◌↔◌, false, not, String, ok, >>=-eq-ok, guard-eq-ok, map_err-eq-ok, length, ==_iff, map_err,
  arith, subst, sym,
}
use simon.Prelude.Text.{str_is_empty}
use simon.Prelude.Trim.{trim}
use simon.Kodowanie.{Bytes, Biblioteki}
use simon.Crypto.{PublicKey, from_hex, verify_digest, try_into}
use simon.Crypto.Laws.{try_into-eq-ok}
use simon.Klient.Zlecenie.{Format}
use simon.Acp.Zadanie.{ZlecenieUzytkownika, odcisk_zadania, autoryzuj}

-- The request names a key, and the signature, white space at its ends apart, is the hex of 64 bytes that
-- this key accepts over the digest of the whole request.
pub record Podpisane (b : Biblioteki) (z : ZlecenieUzytkownika) (podpis : String) : Type 0 where
  pub klucz_jest : str_is_empty (trim z.user_pubkey) ≡ false
  pub podpis_jest : str_is_empty (trim podpis) ≡ false
  pub odcisk : String
  pub odcisk_zadania : odcisk_zadania b z ≡ ok odcisk
  pub klucz : PublicKey
  pub klucz_z_hex : from_hex b z.user_pubkey ≡ ok klucz
  pub bajty : Bytes
  pub bajty_z_hex : b.hex_decode (trim podpis) ≡ ok bajty
  pub dlugosc : length bajty ≡ 64
  pub wazny : verify_digest b klucz odcisk (record { bajty = bajty }) ≡ ok tt

module _ (b : Biblioteki) (fmt : Format) (z : ZlecenieUzytkownika) (podpis : String) where
  autoryzuj-eq-ok : autoryzuj b fmt z podpis ≡ ok tt → Podpisane b z podpis
  unfolding autoryzuj
  autoryzuj-eq-ok h =
      let (k, h1) = guard-eq-ok (not (str_is_empty (trim z.user_pubkey))) _ _ h in
      let (p, h2) = guard-eq-ok (not (str_is_empty (trim podpis))) _ _ h1 in
      let (d, e, h3) = >>=-eq-ok (odcisk_zadania b z) _ h2 in
      let (pk, f, h4) = >>=-eq-ok (map_err _ (from_hex b z.user_pubkey)) _ h3 in
      let (x, g, h5) = >>=-eq-ok (map_err _ (b.hex_decode (trim podpis))) _ h4 in
      let (y, i, h6) = >>=-eq-ok (try_into 64 x _) _ h5 in
      let (q, l) = try_into-eq-ok 64 x _ i in
      record {
        klucz_jest = ground arith;
        podpis_jest = ground arith;
        odcisk = d;
        odcisk_zadania = e;
        klucz = pk;
        klucz_z_hex = map_err-eq-ok _ _ f;
        bajty = x;
        bajty_z_hex = map_err-eq-ok _ _ g;
        dlugosc = l;
        wazny =
            subst (λ v. verify_digest b pk d (record { bajty = v }) ≡ ok tt) (sym q)
              (map_err-eq-ok _ _ h6);
      }

  autoryzuj_wystarczy : Podpisane b z podpis → autoryzuj b fmt z podpis ≡ ok tt
  unfolding autoryzuj
  autoryzuj_wystarczy r =
      let l = (==_iff (length r.bajty) 64).1 r.dlugosc in
      rw (r.klucz_jest, r.podpis_jest)
        (rw (r.odcisk_zadania, r.klucz_z_hex) (rw r.bajty_z_hex (rw l (rw r.wazny))))

  -- The gate lets a request through exactly when it names a key and comes with a signature in hex, of 64
  -- bytes, that verifies under that key over the digest of the whole request.
  pub autoryzuj_iff : (autoryzuj b fmt z podpis ≡ ok tt) ↔ Podpisane b z podpis
  autoryzuj_iff = (autoryzuj-eq-ok, autoryzuj_wystarczy)
