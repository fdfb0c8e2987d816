-- ===== src/Cap/Permits.antt =====
-- The operator's permit of crates/simon-core/src/cap.rs: what `sprawdz` demands, and that a signed
-- permit passes once.
use simon.Prelude.{
  ◌≤◌, ◌≡◌, ◌↔◌, inl, inr, refl, sym, Bool, true, false, not, List, ◌∷◌, String, none, some, Result,
  ok, err, ◌>>=◌, ◌>>◌, guard, arith, Bool-cases, Any, any, any_iff, leb,
}
use simon.Prelude.Text.{str_eq, eq_iff, eq_refl, str_is_empty, as_bytes}
use simon.Kodowanie.{Dokument, Biblioteki, Prawa}
use simon.Crypto.{Keypair, public, sign_digest, to_hex, from_hex}
use simon.Crypto.Laws.{from_hex-to_hex, verify_digest-sign_digest}
use simon.Receipt.Signing.{content_digest_total}
use simon.Cap.{
  Sufit, Zezwolenie, zezwolenie_dokument, Kontekst, OdmowaZ, zezwolenie_uzyte, albo, budzet_ok,
  odcisk_parametrow_akcji, odcisk_zezwolenia, podpisz_zezwolenie, sprawdz_podpis,
  sprawdz_zezwolenie,
}
use simon.Cap.Conformance.{Zgodna, waliduj_iff}

-- Inversion of the steps of a chain.
guard_step :
    {t : Bool} (e : OdmowaZ) {r : Result OdmowaZ (Unit {0})}
    → ((guard t e >> r) ≡ ok tt)
    → (t ≡ true) × (r ≡ ok tt)
guard_step {t = true} e h = (refl, h)
guard_step {t = false} e h = cc

seq_step : {m r : Result OdmowaZ (Unit {0})} → ((m >> r) ≡ ok tt) → (m ≡ ok tt) × (r ≡ ok tt)
seq_step {m = ok _} h = (refl, h)
seq_step {m = err e} h = cc

albo_step :
    {E A : Type 0} {m : Result E A} (e : OdmowaZ) {f : A → Result OdmowaZ (Unit {0})}
    → ((albo e m >>= f) ≡ ok tt)
    → (a : A) × (m ≡ ok a) × (f a ≡ ok tt)
albo_step {m = ok a} e h = (a, refl, h)
albo_step {m = err x} e h = cc

albo_last : {E : Type 0} {m : Result E (Unit {0})} (e : OdmowaZ) → albo e m ≡ ok tt → m ≡ ok tt
albo_last {m = ok _} e h = refl
albo_last {m = err x} e h = cc

not-true : {t : Bool} → not t ≡ true → t ≡ false
not-true {t = true} h = cc
not-true {t = false} h = refl

any-not :
    (s : String) (xs : List String) → not (any (λ x. str_eq x s) xs) ≡ true → ¬ Any (λ x. x ≡ s) xs
any-not s xs h m =
    let q = (any_iff (λ x. x ≡ s) (λ x. str_eq x s) (λ x. eq_iff x s) xs).1 m in cc (not-true h, q)

not-any :
    (s : String) (xs : List String) → (¬ Any (λ x. x ≡ s) xs) → any (λ x. str_eq x s) xs ≡ false
not-any s xs n = elim (Bool-cases (any (λ x. str_eq x s) xs)) [
  | inl e ↦ absurd (n ((any_iff (λ x. x ≡ s) (λ x. str_eq x s) (λ x. eq_iff x s) xs).0 e))
  | inr e ↦ e
]

module _ (b : Biblioteki) (sufit : Sufit) (z : Zezwolenie) (akcja : String) (parametry : Dokument)
    (k : Kontekst) where
  -- All that `sprawdz` demands of a permit, for one action with its arguments.
  pub record Dozwolone : Type 0 where
    pub ma_id : str_is_empty z.id ≡ false
    pub podpis : sprawdz_podpis b z ≡ ok tt
    pub wystawca : z.wystawca ≡ k.oczekiwany_wystawca
    pub na_czas : k.teraz_us ≤ z.wazne_do_us
    pub budzet : budzet_ok z.budzet ≡ true
    pub nie_odwolane : ¬ Any (λ x. x ≡ z.id) k.odwolane
    pub nie_uzyte : ¬ Any (λ x. x ≡ z.id) k.uzyte
    pub ta_akcja : z.akcja ≡ akcja
    pub te_parametry : odcisk_parametrow_akcji b akcja parametry ≡ ok z.parametry_digest
    pub w_suficie : Zgodna sufit akcja parametry

  sprawdz-Dozwolone : sprawdz_zezwolenie b sufit z akcja parametry k ≡ ok tt → Dozwolone
  unfolding sprawdz_zezwolenie
  sprawdz-Dozwolone h =
      let (p0, h0) = guard_step {t = not (str_is_empty z.id)} _ h in
      let (p1, h1) = seq_step {m = sprawdz_podpis b z} h0 in
      let (p2, h2) = guard_step {t = str_eq z.wystawca k.oczekiwany_wystawca} _ h1 in
      let (p3, h3) = guard_step {t = leb k.teraz_us z.wazne_do_us} _ h2 in
      let (p4, h4) = guard_step {t = budzet_ok z.budzet} _ h3 in
      let (p5, h5) = guard_step {t = not (any (λ x. str_eq x z.id) k.odwolane)} _ h4 in
      let (p6, h6) = guard_step {t = not (any (λ x. str_eq x z.id) k.uzyte)} _ h5 in
      let (p7, h7) = guard_step {t = str_eq z.akcja akcja} _ h6 in
      let (d, p8, h8) = albo_step {m = odcisk_parametrow_akcji b akcja parametry} _ h7 in
      let (p9, h9) = guard_step {t = str_eq d z.parametry_digest} _ h8 in
      record {
        ma_id = not-true p0;
        podpis = p1;
        wystawca = (eq_iff _ _).0 p2;
        na_czas = ground (arith, p3);
        budzet = p4;
        nie_odwolane = any-not z.id k.odwolane p5;
        nie_uzyte = any-not z.id k.uzyte p6;
        ta_akcja = (eq_iff _ _).0 p7;
        te_parametry = cc (p8, (eq_iff d z.parametry_digest).0 p9);
        w_suficie = (waliduj_iff sufit akcja parametry).0 (albo_last _ h9);
      }

  Dozwolone-sprawdz : Dozwolone → sprawdz_zezwolenie b sufit z akcja parametry k ≡ ok tt
  unfolding sprawdz_zezwolenie
  Dozwolone-sprawdz d =
      let t : leb k.teraz_us z.wazne_do_us ≡ true = (let n = d.na_czas in ground arith) in
      rw (
        d.ma_id,
        d.podpis,
        (eq_iff z.wystawca k.oczekiwany_wystawca).1 d.wystawca,
        t,
        d.budzet,
        not-any z.id k.odwolane d.nie_odwolane,
        not-any z.id k.uzyte d.nie_uzyte,
        (eq_iff z.akcja akcja).1 d.ta_akcja,
        d.te_parametry,
        eq_refl z.parametry_digest,
        (waliduj_iff sufit akcja parametry).1 d.w_suficie,
      )

  -- A permit is accepted exactly when it has an id, a valid signature of the issuer it names, who is the
  -- expected one, has neither run out nor spent its budget, was neither revoked nor used, and names this
  -- action with exactly these arguments, which lie within the ceiling.
  pub sprawdz_zezwolenie_iff : (sprawdz_zezwolenie b sufit z akcja parametry k ≡ ok tt) ↔ Dozwolone
  sprawdz_zezwolenie_iff = (sprawdz-Dozwolone, Dozwolone-sprawdz)

module _ (b : Biblioteki) (prawa : Prawa b) where
  podpis_wazny :
      (z : Zezwolenie) (kp : Keypair) (d : String)
      → z.wystawca ≡ to_hex b (public b kp)
      → odcisk_zezwolenia b z ≡ ok d
      → sprawdz_podpis b (record z { podpis = some (b.hex_encode (sign_digest b kp d).bajty) })
        ≡ ok tt
  unfolding sprawdz_podpis sign_digest odcisk_zezwolenia
  podpis_wazny z kp d u e =
      let v = verify_digest-sign_digest b prawa kp d in
      let hex = from_hex-to_hex b prawa kp in
      let f : from_hex b z.wystawca ≡ ok (public b kp) = cc (u, hex) in
      rw (f, prawa.hex_decode-encode _ (prawa.sign_bytes kp.inner (as_bytes d)))
        (rw (prawa.sign_length kp.inner (as_bytes d)) (rw (e, v)))

  -- An operator's signed permit passes for the action and the arguments that it was made for, while it
  -- lasts and is neither revoked nor used; and once its id is among the used ones, it does not pass again.
  pub podpisz-sprawdz :
      (sufit : Sufit) (z : Zezwolenie) (kp : Keypair) (parametry : Dokument) (k : Kontekst)
      → str_is_empty z.id ≡ false
      → k.oczekiwany_wystawca ≡ to_hex b (public b kp)
      → k.teraz_us ≤ z.wazne_do_us
      → budzet_ok z.budzet ≡ true
      → ¬ Any (λ x. x ≡ z.id) k.odwolane
      → ¬ Any (λ x. x ≡ z.id) k.uzyte
      → odcisk_parametrow_akcji b z.akcja parametry ≡ ok z.parametry_digest
      → Zgodna sufit z.akcja parametry
      → (z' : Zezwolenie) × (podpisz_zezwolenie b z kp ≡ ok z')
        × (sprawdz_zezwolenie b sufit z' z.akcja parametry k ≡ ok tt)
        × (sprawdz_zezwolenie b sufit z' z.akcja parametry (record k { uzyte = z'.id ∷ k.uzyte })
            ≡ err zezwolenie_uzyte)
  unfolding podpisz_zezwolenie odcisk_zezwolenia sprawdz_zezwolenie
  podpisz-sprawdz sufit z kp parametry k i o t bu od uz pd zg =
      let zw = record z { wystawca = to_hex b (public b kp) } in
      let (d, e) =
        content_digest_total b prawa (zezwolenie_dokument (record zw { podpis = none })) in
      let z' = record zw { podpis = some (b.hex_encode (sign_digest b kp d).bajty) } in
      let s = podpis_wazny zw kp d refl e in
      let l : leb k.teraz_us z.wazne_do_us ≡ true = ground arith in
      (
        z',
        rw e,
        Dozwolone-sprawdz b sufit z' z.akcja parametry k (record {
          ma_id = i;
          podpis = s;
          wystawca = sym o;
          na_czas = t;
          budzet = bu;
          nie_odwolane = od;
          nie_uzyte = uz;
          ta_akcja = refl;
          te_parametry = pd;
          w_suficie = zg;
        }),
        rw (
          i,
          s,
          (eq_iff (to_hex b (public b kp)) k.oczekiwany_wystawca).1 (sym o),
          l,
          bu,
          not-any z.id k.odwolane od,
          eq_refl z.id,
        ),
      )
