-- ===== src/Rejestr/Unique.antt =====
-- No receipt stands twice in the ledger of crates/simon-core/src/rejestr.rs, also after it is opened again.
use text.Mathlib.TextLemmas.{nil-append}
use simon.Prelude.{
  ◌≡◌, ◌⊎◌, inl, inr, refl, sym, ◌∙◌, false, List, [], ◌∷◌, ◌++◌, String, Option, none, some,
  Result, ok, err, any, any_iff, All, Bool-cases, Result-cases, err_ne_ok, false-true, subst,
}
use simon.Prelude.Text.{str_eq, eq_iff, str_append}
use simon.Prelude.Dict.{Member}
use simon.Kodowanie.{Biblioteki}
use simon.Rejestr.{
  RekordPracyV1, rekord_dokument, BladRejestru, powtorzenie, wejscie_wyjscie, Plik, Zapis, udany,
  blad_otwarcia, blad_zapisu, Rejestr, Czytnik, wczytaj, odciski, wczytaj_wszystko, otworz, tresc,
  dopisz,
}

-- A use of the ledger: a record to append, with what the system makes of the write, or a new start.
pub data Zdarzenie : Type 0 where
  wpis : RekordPracyV1 → Zapis → Zdarzenie
  otwarcie : Zdarzenie

abbrev pub Rozne : List String → Type 0
Rozne [] = Unit
Rozne (x ∷ xs) = (¬ Member x xs) × Rozne xs

Member-snoc : (x y : String) (xs : List String) → Member x (xs ++ y ∷ []) → Member x xs ⊎ (x ≡ y)
Member-snoc x y [] (inl e) = inr e
Member-snoc x y [] (inr m) = absurd m
Member-snoc x y (z ∷ xs) (inl e) = inl (inl e)
Member-snoc x y (z ∷ xs) (inr m) = elim (Member-snoc x y xs m) [
  | inl n ↦ inl (inr n)
  | inr e ↦ inr e
]

Rozne-snoc : (x : String) (xs : List String) → Rozne xs → (¬ Member x xs) → Rozne (xs ++ x ∷ [])
Rozne-snoc x [] r n = (λ m. m, tt)
Rozne-snoc x (y ∷ xs) r n = (
  λ m. elim (Member-snoc y x xs m) [ inl k ↦ r.0 k | inr e ↦ n (inl (sym e)) ],
  Rozne-snoc x xs r.1 (λ m. n (inr m)),
)

-- A refused or failed append leaves the set of what was seen.
abbrev pub po_wpisie : Rejestr → Result BladRejestru Rejestr × Option Plik → Rejestr × Option Plik
po_wpisie w (ok w', f) = (w', f)
po_wpisie w (err _, f) = (w, f)

-- The file after a whole write.
abbrev dopisane : Option Plik → String → Option Plik
dopisane f s =
    some (record { linie = (tresc f).linie ++ str_append (tresc f).ogon s ∷ []; ogon = "" })

module _ (b : Biblioteki) (c : Czytnik) where
  unfoldable pub krok : Rejestr × Option Plik → Zdarzenie → Rejestr × Option Plik
  krok (w, f) (wpis r z) = po_wpisie w (dopisz b w f r z)
  krok (w, f) otwarcie = elim (otworz c f) [ ok w' ↦ (w', f) | err _ ↦ (w, f) ]

  unfoldable pub przebieg : Rejestr × Option Plik → List Zdarzenie → Rejestr × Option Plik
  przebieg s [] = s
  przebieg s (z ∷ zs) = przebieg (krok s z) zs

  -- What serde_json prints of the record is not blank and reads back, and a write that fails writes
  -- nothing.
  abbrev pub Czyste : Zdarzenie → Type 0
  Czyste otwarcie = Unit
  Czyste (wpis r (blad_zapisu e czesc)) = ⊥
  Czyste (wpis r _) =
      (s : String) × (b.to_string (rekord_dokument b r) ≡ ok s)
      × (c.from_str s ≡ ok r)
      × (c.pusta s ≡ false)

  odciski-append :
      (rs : List RekordPracyV1) (r : RekordPracyV1)
      → odciski c (rs ++ r ∷ []) ≡ odciski c rs ++ r.receipt_hash ∷ []
  odciski-append [] r = refl
  odciski-append (x ∷ rs) r = rw (odciski-append rs r)

  wczytaj-snoc :
      (ls : List String) (l : String) (rs : List RekordPracyV1) (r : RekordPracyV1)
      → wczytaj c ls ≡ ok rs
      → c.from_str l ≡ ok r
      → c.pusta l ≡ false
      → wczytaj c (ls ++ l ∷ []) ≡ ok (rs ++ r ∷ [])
  unfolding wczytaj
  wczytaj-snoc [] l rs r h p q = let e : rs ≡ [] = cc h in rw (q, p, e)
  wczytaj-snoc (x ∷ ls) l rs r h p q = elim (Bool-cases (c.pusta x)) [
    | inl e ↦ rw e (wczytaj-snoc ls l rs r (rw e at h) p q)
    | inr e ↦ elim (Result-cases (c.from_str x)) [
      | inr (y, f) ↦ absurd (err_ne_ok (rw (e, f) at h))
      | inl (y, f) ↦ elim (Result-cases (wczytaj c ls)) [
        | inr (t, g) ↦ absurd (err_ne_ok (rw (e, f, g) at h))
        | inl (ys, g) ↦
            let s : Path (Result BladRejestru (List RekordPracyV1)) (ok (y ∷ ys)) (ok rs) =
              rw (e, f, g) at h in
            let i : rs ≡ y ∷ ys = cc s in rw (e, f, wczytaj-snoc ls l ys r g p q, i)
      ]
    ]
  ]

  -- The file has whole lines, of different receipts, all of them seen.
  record Zgodny (w : Rejestr) (f : Option Plik) : Type 0 where
    rekordy : List RekordPracyV1
    cale : (tresc f).ogon ≡ ""
    czytelny : wczytaj c (tresc f).linie ≡ ok rekordy
    rozne : Rozne (odciski c rekordy)
    widziane : (h : String) → Member h (odciski c rekordy) → Member h w

  odczyt-Zgodny :
      (w : Rejestr) (f : Option Plik)
      → Zgodny w f
      → wczytaj_wszystko c f ≡ wczytaj c (tresc f).linie
  unfolding wczytaj_wszystko wczytaj
  odczyt-Zgodny w none z = refl
  odczyt-Zgodny w (some f) z = rw z.cale

  otworz_odczyt :
      (w : Rejestr) (f : Option Plik) (z : Zgodny w f) → otworz c f ≡ ok (odciski c z.rekordy)
  unfolding otworz
  otworz_odczyt w f z = rw (odczyt-Zgodny w f z, z.czytelny)

  krok-err :
      (w : Rejestr) (f f' : Option Plik) (r : RekordPracyV1) (z : Zapis) (x : BladRejestru)
      → dopisz b w f r z ≡ (err x, f')
      → krok (w, f) (wpis r z) ≡ (w, f')
  unfolding krok
  krok-err w f f' r z x e = rw e

  krok-ok :
      (w w' : Rejestr) (f f' : Option Plik) (r : RekordPracyV1) (z : Zapis)
      → dopisz b w f r z ≡ (ok w', f')
      → krok (w, f) (wpis r z) ≡ (w', f')
  unfolding krok
  krok-ok w w' f f' r z e = rw e

  -- The receipt is new to the file, which gets one more line.
  dopisany-Zgodny :
      (w : Rejestr) (f : Option Plik) (r : RekordPracyV1) (s : String)
      → Zgodny w f
      → any (str_eq r.receipt_hash) w ≡ false
      → c.from_str s ≡ ok r
      → c.pusta s ≡ false
      → Zgodny (r.receipt_hash ∷ w) (dopisane f s)
  dopisany-Zgodny w f r s z k q t =
      let h = r.receipt_hash in
      let nowy : ¬ Member h (odciski c z.rekordy) = λ m.
        false-true k ((any_iff (λ y. h ≡ y) (str_eq h) (λ y. eq_iff h y) w).1 (z.widziane h m)) in
      record {
        rekordy = z.rekordy ++ r ∷ [];
        cale = refl;
        czytelny =
            rw (z.cale, nil-append s) (wczytaj-snoc (tresc f).linie s z.rekordy r z.czytelny q t);
        rozne = rw (odciski-append z.rekordy r) (Rozne-snoc h (odciski c z.rekordy) z.rozne nowy);
        widziane = λ x m.
            elim (Member-snoc x h (odciski c z.rekordy) (rw (odciski-append z.rekordy r) at m)) [
              | inl n ↦ inr (z.widziane x n)
              | inr e ↦ inl e
            ];
      }

  dopisz-Zgodny :
      (w : Rejestr) (f : Option Plik) (r : RekordPracyV1) (z : Zapis)
      → Czyste (wpis r z)
      → Zgodny w f
      → Zgodny (krok (w, f) (wpis r z)).0 (krok (w, f) (wpis r z)).1
  unfolding dopisz
  dopisz-Zgodny w f r (blad_zapisu x czesc) p z = absurd p
  dopisz-Zgodny w f r (blad_otwarcia x) (s, p, q, t) z =
      elim (Bool-cases (any (str_eq r.receipt_hash) w)) [
        | inl k ↦
            subst (λ s. Zgodny s.0 s.1)
              (sym (krok-err w f f r (blad_otwarcia x) (powtorzenie r.receipt_hash) (rw k))) z
        | inr k ↦
            subst (λ s. Zgodny s.0 s.1)
              (sym (krok-err w f f r (blad_otwarcia x) (wejscie_wyjscie x) (rw (k, p)))) z
      ]
  dopisz-Zgodny w f r udany (s, p, q, t) z = elim (Bool-cases (any (str_eq r.receipt_hash) w)) [
    | inl k ↦
        subst (λ s. Zgodny s.0 s.1)
          (sym (krok-err w f f r udany (powtorzenie r.receipt_hash) (rw k))) z
    | inr k ↦
        subst (λ s. Zgodny s.0 s.1)
          (sym (krok-ok w (r.receipt_hash ∷ w) f (dopisane f s) r udany (rw (k, p))))
          (dopisany-Zgodny w f r s z k q t)
  ]

  krok-Zgodny :
      (w : Rejestr) (f : Option Plik) (e : Zdarzenie)
      → Czyste e
      → Zgodny w f
      → Zgodny (krok (w, f) e).0 (krok (w, f) e).1
  unfolding krok
  krok-Zgodny w f (wpis r z) p q = dopisz-Zgodny w f r z p q
  krok-Zgodny w f otwarcie p q =
      let e : otworz c f ≡ ok (odciski c q.rekordy) = otworz_odczyt w f q in
      rw (krok, e)
        (record {
          rekordy = q.rekordy;
          cale = q.cale;
          czytelny = q.czytelny;
          rozne = q.rozne;
          widziane = λ h m. m;
        })

  przebieg-Zgodny :
      (zs : List Zdarzenie) (w : Rejestr) (f : Option Plik)
      → All Czyste zs
      → Zgodny w f
      → Zgodny (przebieg (w, f) zs).0 (przebieg (w, f) zs).1
  unfolding przebieg
  przebieg-Zgodny [] w f p q = q
  przebieg-Zgodny (z ∷ zs) w f p q =
      przebieg-Zgodny zs (krok (w, f) z).0 (krok (w, f) z).1 p.1 (krok-Zgodny w f z p.0 q)

  pusty-Zgodny : Zgodny [] none
  unfolding wczytaj
  pusty-Zgodny = record {
    rekordy = [];
    cale = refl;
    czytelny = refl;
    rozne = tt;
    widziane = λ h m. m;
  }

  -- However records are appended to a new ledger and however often it is opened again, where what is
  -- printed of each record reads back and is not blank, and a failed write writes nothing: the file is
  -- read whole without an error, and no two of its records are of one receipt.
  pub bez_powtorzen :
      (zs : List Zdarzenie)
      → All Czyste zs
      → (rs : List RekordPracyV1) × (wczytaj_wszystko c (przebieg ([], none) zs).1 ≡ ok rs)
        × Rozne (odciski c rs)
  bez_powtorzen zs p =
      let q = przebieg-Zgodny zs [] none p pusty-Zgodny in
      let f = (przebieg ([], none) zs).1 in
      (q.rekordy, odczyt-Zgodny (przebieg ([], none) zs).0 f q ∙ q.czytelny, q.rozne)
