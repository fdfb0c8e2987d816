-- ===== src/Tozsamosc/Reading.antt =====
-- What a key's file must be to be read, in crates/simon-core/src/tozsamosc.rs.
use simon.Prelude.{
  ◌%◌, ◌≡◌, ◌↔◌, inl, inr, refl, sym, ◌∙◌, ap, Bool, true, false, ◌&&◌, some, ok, >>=-eq-ok,
  guard-eq-ok, map_err-eq-ok, map_err, ok-injective, Option-cases, length, ◌==◌, ==_iff, &&-eq-true,
  guard, err_ne_ok,
}
use simon.Prelude.Text.{str_eq, eq_iff}
use simon.Prelude.Trim.{trim}
use simon.Kodowanie.{Biblioteki}
use simon.Crypto.{Keypair, from_seed, try_into}
use simon.Crypto.Laws.{try_into-eq-ok}
use simon.Tozsamosc.{
  PlikTozsamosci, BladTozsamosci, Plik, Dysk, Sciezka, Przebieg, Zapis, sprawdz_prawa,
  klucz_z_tekstu, wczytaj,
}

module _ (b : Biblioteki) (z : Zapis) (p : Sciezka) where
  -- A file from which a key is read: it is the owner's alone, it parses, it is of the one type and
  -- encoding, and its secret is the hex, white space at the ends apart, of the 32 bytes of the key.
  pub record Poprawny (plik : Plik) (k : Keypair) : Type 0 where
    pub prawa : plik.tryb % 512 % 64 ≡ 0
    pub zawartosc : PlikTozsamosci
    pub parsuje_sie : z.from_str plik.tresc ≡ ok zawartosc
    pub typ : zawartosc.key_type ≡ "ed25519"
    pub kodowanie : zawartosc.secret_encoding ≡ "hex"
    pub sekret : b.hex_decode (trim zawartosc.secret_key) ≡ ok k.inner
    pub dlugosc : length k.inner ≡ 32

  klucz_z_tekstu-Poprawny :
      (plik : Plik) (k : Keypair)
      → plik.tryb % 512 % 64 ≡ 0
      → klucz_z_tekstu b z p plik.tresc ≡ ok k
      → Poprawny plik k
  unfolding klucz_z_tekstu from_seed
  klucz_z_tekstu-Poprawny plik k r h =
      let (w, e, h1) = >>=-eq-ok (map_err _ (z.from_str plik.tresc)) _ h in
      let (t, h2) =
        guard-eq-ok (str_eq w.key_type "ed25519" && str_eq w.secret_encoding "hex") _ _ h1 in
      let (raw, g, h3) = >>=-eq-ok (map_err _ (b.hex_decode (trim w.secret_key))) _ h2 in
      let (y, i, h4) = >>=-eq-ok (try_into 32 raw _) _ h3 in
      let (q, l) = try_into-eq-ok 32 raw _ i in
      let (u, v) = &&-eq-true (str_eq w.key_type "ed25519") _ t in
      let s : y ≡ k.inner = ap (λ (x : Keypair). x.inner) (ok-injective h4) in
      record {
        prawa = r;
        zawartosc = w;
        parsuje_sie = map_err-eq-ok _ (z.from_str plik.tresc) e;
        typ = (eq_iff w.key_type "ed25519").0 u;
        kodowanie = (eq_iff w.secret_encoding "hex").0 v;
        sekret = map_err-eq-ok _ (b.hex_decode (trim w.secret_key)) g ∙ ap ok (q ∙ s);
        dlugosc = ap length (sym (q ∙ s)) ∙ l;
      }

  Poprawny-klucz_z_tekstu :
      (plik : Plik) (k : Keypair) → Poprawny plik k → klucz_z_tekstu b z p plik.tresc ≡ ok k
  unfolding klucz_z_tekstu from_seed
  Poprawny-klucz_z_tekstu plik k r =
      let u = (eq_iff r.zawartosc.key_type "ed25519").1 r.typ in
      let v = (eq_iff r.zawartosc.secret_encoding "hex").1 r.kodowanie in
      let l = (==_iff (length k.inner) 32).1 r.dlugosc in
      rw r.parsuje_sie (rw (u, v) (rw r.sekret (rw l refl)))

  sprawdz_prawa-eq-ok :
      (x : Przebieg) (plik : Plik)
      → sprawdz_prawa b z p x plik ≡ ok tt
      → (x.metadata ≡ ok tt) × (plik.tryb % 512 % 64 ≡ 0)
  unfolding sprawdz_prawa
  sprawdz_prawa-eq-ok x plik h =
      let (_, e, h1) = >>=-eq-ok (map_err _ x.metadata) _ h in
      (map_err-eq-ok _ x.metadata e, (==_iff _ 0).0 (straz (plik.tryb % 512 % 64 == 0) _ h1))
    where
      straz : (t : Bool) (e : BladTozsamosci) → guard t e ≡ ok tt → t ≡ true
      straz true e q = refl
      straz false e q = absurd (err_ne_ok q)

  -- A key is read exactly where there is a file, the system lets it be read, and it is a proper one.
  pub wczytaj_iff :
      (x : Przebieg) (d : Dysk) (k : Keypair)
      → (wczytaj b z p x d ≡ ok k) ↔ (
          (plik : Plik) × (d.tozsamosc ≡ some plik)
          × (x.metadata ≡ ok tt)
          × (x.read ≡ ok tt)
          × Poprawny plik k)
  unfolding wczytaj sprawdz_prawa
  wczytaj_iff x d k = (
    λ h. elim (Option-cases d.tozsamosc) [
      | inl e ↦ absurd (err_ne_ok (rw (e, wczytaj) at h))
      | inr (plik, e) ↦
          let h0 = rw (e, wczytaj) at h in
          let (_, q, h1) = >>=-eq-ok (sprawdz_prawa b z p x plik) _ h0 in
          let (_, r, h2) = >>=-eq-ok (map_err _ x.read) _ h1 in
          let (m, t) = sprawdz_prawa-eq-ok x plik q in
          (plik, e, m, map_err-eq-ok _ x.read r, klucz_z_tekstu-Poprawny plik k t h2)
    ],
    λ (plik, e, m, r, w).
        rw (e, m)
          (rw ((==_iff (plik.tryb % 512 % 64) 0).1 w.prawa)
            (rw r (Poprawny-klucz_z_tekstu plik k w))),
  )
