-- ===== src/Tozsamosc/Durable.antt =====
-- The file of the client's key in crates/simon-core/src/tozsamosc.rs, over one start and over two.
use simon.Prelude.{
  ◌≡◌, ◌↔◌, ◌⊎◌, inl, inr, refl, sym, ◌∙◌, ap, true, false, String, none, some, Result, ok, err,
  >>=-eq-ok, guard-eq-ok, map_err-eq-ok, map_err, ok-injective, Result-cases, Option-cases, subst,
  some-eq, is_ok, ok_or,
}
use simon.Prelude.Dict.{is_some}
use simon.Kodowanie.{Biblioteki}
use simon.Crypto.{Keypair, public, from_seed, key_eq}
use simon.Crypto.Laws.{key_eq_iff}
use simon.Tozsamosc.Reading.{Poprawny, wczytaj_iff}
use simon.Tozsamosc.{
  BladTozsamosci, Plik, Dysk, Sciezka, Przebieg, Zapis, wczytaj, zapisz, odczytaj_z_powrotem,
  przygotuj, zaloz, wczytaj_lub_zaloz, exists, nowy_plik,
}

module _ (b : Biblioteki) (z : Zapis) (p : Sciezka) where
  -- A write is atomic: where it fails, at whatever step, the key's file is as it was; where it succeeds,
  -- that file has the new text, is the owner's alone, and the temporary file is gone.
  pub zapisz_atomowy :
      (x : Przebieg) (d : Dysk) (tresc : String)
      → (((e : BladTozsamosci) × ((zapisz b z p x d tresc).1 ≡ err e))
          × ((zapisz b z p x d tresc).0.tozsamosc ≡ d.tozsamosc))
        ⊎ (((zapisz b z p x d tresc).1 ≡ ok tt)
            × ((zapisz b z p x d tresc).0 ≡ record {
              tozsamosc = some (record { tresc = tresc; tryb = 0o600 });
              tymczasowy = none;
            }))
  unfolding zapisz
  zapisz_atomowy x d tresc = elim (Result-cases x.open_tmp) [
    | inr (e, h) ↦ rw (h, zapisz) (inl ((_, refl), refl))
    | inl (_, h) ↦ elim (Result-cases x.write_all) [
      | inr (e, i) ↦ rw (h, zapisz) (rw i (inl ((_, refl), refl)))
      | inl (_, i) ↦ elim (Result-cases x.sync_all) [
        | inr (e, j) ↦ rw (h, zapisz) (rw i (rw j (inl ((_, refl), refl))))
        | inl (_, j) ↦ elim (Result-cases x.set_permissions) [
          | inr (e, k) ↦ rw (h, zapisz) (rw i (rw j (rw k (inl ((_, refl), refl)))))
          | inl (_, k) ↦ elim (Result-cases x.rename) [
            | inr (e, l) ↦ rw (h, zapisz) (rw i (rw j (rw k (rw l (inl ((_, refl), refl))))))
            | inl (_, l) ↦ rw (h, zapisz) (rw i (rw j (rw k (rw l (inr (refl, refl))))))
          ]
        ]
      ]
    ]
  ]

  start_jest :
      (x : Przebieg) (d : Dysk) (plik : Plik)
      → d.tozsamosc ≡ some plik
      → x.exists ≡ ok tt
      → wczytaj_lub_zaloz b z p x d ≡ (d, wczytaj b z p x d)
  unfolding wczytaj_lub_zaloz exists
  start_jest x d plik e f =
      let t : is_some d.tozsamosc ≡ true = ap is_some e in
      let u : is_ok x.exists ≡ true = ap is_ok f in rw (t, u)

  start_brak :
      (x : Przebieg) (d : Dysk) → d.tozsamosc ≡ none → wczytaj_lub_zaloz b z p x d ≡ zaloz b z p x d
  unfolding wczytaj_lub_zaloz exists
  start_brak x d e = let t : is_some d.tozsamosc ≡ false = ap is_some e in rw t

  -- Where `exists` fails, a file that is there is not seen.
  start_niewidoczny :
      (x : Przebieg) (d : Dysk) (plik : Plik) (e : String)
      → d.tozsamosc ≡ some plik
      → x.exists ≡ err e
      → wczytaj_lub_zaloz b z p x d ≡ zaloz b z p x d
  unfolding wczytaj_lub_zaloz exists
  start_niewidoczny x d plik e f g =
      let t : is_some d.tozsamosc ≡ true = ap is_some f in
      let u : is_ok x.exists ≡ false = ap is_ok g in rw (t, u)

  -- The disk after a write that succeeded.
  abbrev pub swiezy : String → Dysk
  swiezy tresc = record {
    tozsamosc = some (record { tresc = tresc; tryb = 0o600 });
    tymczasowy = none;
  }

  -- `zaloz` ends with an error, or with the new key and its file.
  zaloz_lem :
      (x : Przebieg) (d : Dysk)
      → ((f : BladTozsamosci) × ((zaloz b z p x d).1 ≡ err f))
        ⊎ ((tresc : String) × (z.to_string_pretty (nowy_plik b z p x) ≡ ok tresc)
            × (zaloz b z p x d ≡ (swiezy tresc, ok (from_seed x.ziarno))))
  unfolding zaloz przygotuj odczytaj_z_powrotem
  zaloz_lem x d = elim (Result-cases (przygotuj b z p x)) [
    | inr (e, q) ↦ rw (q, zaloz) (inl (e, refl))
    | inl (t, q) ↦
        let (_, _, h1) = >>=-eq-ok (ok_or p.katalog _) _ q in
        let (_, _, h2) = >>=-eq-ok (map_err _ x.create_dir) _ h1 in
        let s = map_err-eq-ok _ (z.to_string_pretty (nowy_plik b z p x)) h2 in
        elim (zapisz_atomowy x d t) [
          | inl ((e, r), _) ↦ rw (q, zaloz) (rw r (inl (e, refl)))
          | inr (r, u) ↦
              elim (Result-cases
                (odczytaj_z_powrotem b z p x (zapisz b z p x d t).0 (from_seed x.ziarno))) [
                  | inr (e, v) ↦ rw (q, zaloz) (rw r (inl (e, v)))
                  | inl (k, v) ↦
                      let (_, _, v1) = >>=-eq-ok (wczytaj b z p x (zapisz b z p x d t).0) _ v in
                      let (_, v2) = guard-eq-ok _ _ _ v1 in
                      rw (q, zaloz)
                        (rw r (
                          inr (
                            t,
                            s,
                            rw v (rw u (ap (λ y. (swiezy t, ok y)) (sym (ok-injective v2)))),
                          )))
                ]
        ]
  ]

  -- A start that finds a key's file. Where the call for the metadata in `Path::exists` succeeds, the disk
  -- is left as it is, whatever else the system answers, and a key is given exactly where the system lets the
  -- file be read and the file is a proper one, and then the key in it. Where that call fails, the file is
  -- not seen: the start ends with an error, or it gives a new key, whose file has replaced the old one.
  pub wczytaj_lub_zaloz_istniejacy :
      (x : Przebieg) (d : Dysk) (plik : Plik) (k : Keypair)
      → d.tozsamosc ≡ some plik
      → ((x.exists ≡ ok tt)
          × ((wczytaj_lub_zaloz b z p x d).0 ≡ d)
          × (((wczytaj_lub_zaloz b z p x d).1 ≡ ok k)
              ↔ ((x.metadata ≡ ok tt) × (x.read ≡ ok tt) × Poprawny b z p plik k)))
        ⊎ ((e : String) × (x.exists ≡ err e)
            × (((f : BladTozsamosci) × ((wczytaj_lub_zaloz b z p x d).1 ≡ err f))
                ⊎ ((tresc : String) × (z.to_string_pretty (nowy_plik b z p x) ≡ ok tresc)
                    × (wczytaj_lub_zaloz b z p x d ≡ (swiezy tresc, ok (from_seed x.ziarno))))))
  wczytaj_lub_zaloz_istniejacy x d plik k e = elim (Result-cases x.exists) [
    | inl (_, f) ↦
        let q = start_jest x d plik e f in
        inl (
          f,
          ap (λ (y : Dysk × Result BladTozsamosci Keypair). y.0) q,
          (
            λ h.
                let g = ap (λ (y : Dysk × Result BladTozsamosci Keypair). y.1) q in
                let (plik', e', m, r, w) = (wczytaj_iff b z p x d k).0 (sym g ∙ h) in
                (m, r, subst (λ f. Poprawny b z p f k) (some-eq (sym e' ∙ e)) w),
            λ h.
                ap (λ (y : Dysk × Result BladTozsamosci Keypair). y.1) q
                ∙ (wczytaj_iff b z p x d k).1 (plik, e, h.0, h.1, h.2),
          ),
        )
    | inr (g, f) ↦ let q = start_niewidoczny x d plik g e f in inr (g, f, rw q (zaloz_lem x d))
  ]

  -- What a start leaves behind where it gave a key.
  zalozony :
      (x : Przebieg) (d d' : Dysk) (k : Keypair)
      → zaloz b z p x d ≡ (d', ok k)
      → (k' : Keypair) × (wczytaj b z p x d' ≡ ok k') × (public b k' ≡ public b k)
  unfolding zaloz odczytaj_z_powrotem
  zalozony x d d' k h = elim (Result-cases (przygotuj b z p x)) [
    | inr (e, q) ↦ absurd (nie (rw (q, zaloz) at h))
    | inl (t, q) ↦
        let h1 = rw (q, zaloz) at h in
        elim (Result-cases (zapisz b z p x d t).1) [
          | inr (e, r) ↦ absurd (nie (rw r at h1))
          | inl (_, r) ↦
              let h2 = rw r at h1 in
              let (u, v) = rozdziel h2 in
              let (k', g, v1) = >>=-eq-ok (wczytaj b z p x (zapisz b z p x d t).0) _ v in
              let (w, v2) =
                guard-eq-ok (key_eq (public b k') (public b (from_seed x.ziarno))) _ _ v1 in
              let n = (key_eq_iff (public b k') (public b (from_seed x.ziarno))).0 w in
              (k', subst (λ y. wczytaj b z p x y ≡ ok k') u g, n ∙ ap (public b) (ok-injective v2))
        ]
  ]
    where
      nie :
          {y : Dysk} {e : BladTozsamosci}
          → ¬ (Path (Dysk × Result BladTozsamosci Keypair) (y, err e) (d', ok k))
      nie q = cc

      rozdziel :
          {y : Dysk} {r : Result BladTozsamosci Keypair}
          → Path (Dysk × Result BladTozsamosci Keypair) (y, r) (d', ok k)
          → (y ≡ d') × (r ≡ ok k)
      rozdziel q = (
        ap (λ (y : Dysk × Result BladTozsamosci Keypair). y.0) q,
        ap (λ (y : Dysk × Result BladTozsamosci Keypair). y.1) q,
      )

  -- The second start is the same person: where a start gave a key, whether it found the file or made it,
  -- every later one that the system lets see and read the file gives a key with the same public key, and
  -- leaves the disk as it is.
  pub drugi_start :
      (x x' : Przebieg) (d d' : Dysk) (k : Keypair)
      → wczytaj_lub_zaloz b z p x d ≡ (d', ok k)
      → x'.exists ≡ ok tt
      → x'.metadata ≡ ok tt
      → x'.read ≡ ok tt
      → (k' : Keypair) × (wczytaj_lub_zaloz b z p x' d' ≡ (d', ok k')) × (public b k' ≡ public b k)
  drugi_start x x' d d' k h j m r =
      let (k1, g, e) = odczyt in
      let (plik, f, _, _, w) = (wczytaj_iff b z p x d' k1).0 g in
      let q = (wczytaj_iff b z p x' d' k1).1 (plik, f, m, r, w) in
      (k1, start_jest x' d' plik f j ∙ ap (λ y. (d', y)) q, e)
    where
      odczyt : (k' : Keypair) × (wczytaj b z p x d' ≡ ok k') × (public b k' ≡ public b k)
      odczyt = elim (Option-cases d.tozsamosc) [
        | inl e ↦ zalozony x d d' k (sym (start_brak x d e) ∙ h)
        | inr (plik, e) ↦ elim (Result-cases x.exists) [
          | inr (g, f) ↦ zalozony x d d' k (sym (start_niewidoczny x d plik g e f) ∙ h)
          | inl (_, f) ↦
              let h1 = sym (start_jest x d plik e f) ∙ h in
              let u : d ≡ d' = ap (λ (y : Dysk × Result BladTozsamosci Keypair). y.0) h1 in
              let v : wczytaj b z p x d ≡ ok k =
                ap (λ (y : Dysk × Result BladTozsamosci Keypair). y.1) h1 in
              (k, subst (λ y. wczytaj b z p x y ≡ ok k) u v, refl)
        ]
      ]
