-- ===== src/Agent/Reduce/Rounds.antt =====
-- That the reduction of `uruchom_map_reduce` in crates/simon-cli/src/agent.rs ends.
use simon.Prelude.{
  ℕ, zero, suc, ◌+◌, ◌≤◌, ◌<◌, ◌≡◌, refl, sym, ap, ◌∙◌, false, List, [], ◌∷◌, String, some, Result,
  ok, leb, ltb, length, concat, Bool-cases, Result-cases, inl, inr, ok-injective, arith, err_ne_ok,
}
use simon.Klient.Zlecenie.{Format}
use simon.Mapreduce.{Tekst, grupuj_do_budzetu}
use simon.Mapreduce.Groups.{grupuj-Grupowanie}
use simon.Prompt.{PromptReply}
use simon.Agent.Reduce.{
  Koniec, panika, blad, wynik, nie_zmniejsza, wynik_grupy, nowy_poziom, redukuj,
}

-- An outcome that a reduction of so many results may have after so many rounds.
abbrev pub Dopuszczalny : ℕ → ℕ → Koniec → Type 0
Dopuszczalny runda ile panika = ⊥
Dopuszczalny runda ile (blad e) = Unit
Dopuszczalny runda ile (wynik t r) = r < runda + ile

grupy_pos :
    (poziom : List Tekst) (budzet : ℕ)
    → 1 ≤ length poziom
    → 1 ≤ length (grupuj_do_budzetu poziom budzet)
grupy_pos poziom budzet h =
    niepuste (grupuj_do_budzetu poziom budzet) (grupuj-Grupowanie poziom budzet).0.kolejnosc
  where
    niepuste : (gs : List (List Tekst)) → concat gs ≡ poziom → 1 ≤ length gs
    niepuste [] q = let l = ap length q in absurd (omega arith)
    niepuste (g ∷ gs) q = omega arith

mniej_rund :
    (k : Koniec) (runda m n : ℕ) → m < n → Dopuszczalny (runda + 1) m k → Dopuszczalny runda n k
mniej_rund panika runda m n h u = u
mniej_rund (blad e) runda m n h u = tt
mniej_rund (wynik t r) runda m n h u = omega arith

module _ (fmt : Format) (pytanie : String) (budzet : ℕ)
    (zapytaj : ℕ → ℕ → Tekst → Result String (String × PromptReply))
    (wyodrebnij : PromptReply → String → Result String Tekst) where
  length-nowy_poziom :
      (runda i : ℕ) (grupy : List (List Tekst)) (xs : List Tekst)
      → nowy_poziom fmt pytanie budzet zapytaj wyodrebnij runda i grupy ≡ ok xs
      → length xs ≡ length grupy
  unfolding nowy_poziom
  length-nowy_poziom runda i [] xs h = ap length (sym (ok-injective h))
  length-nowy_poziom runda i (g ∷ gs) xs h =
      elim (Result-cases (wynik_grupy fmt pytanie budzet zapytaj wyodrebnij runda i g)) [
        | inr (e, p) ↦ absurd (err_ne_ok (rw (p, nowy_poziom) at h))
        | inl (x, p) ↦
            elim (Result-cases
              (nowy_poziom fmt pytanie budzet zapytaj wyodrebnij runda (i + 1) gs)) [
                | inr (e, q) ↦ absurd (err_ne_ok (rw q at (rw (p, nowy_poziom) at h)))
                | inl (ys, q) ↦
                    ap length (sym (ok-injective (rw q at (rw (p, nowy_poziom) at h))))
                    ∙ ap suc (length-nowy_poziom runda (i + 1) gs ys q)
              ]
      ]

  jeden :
      (p runda : ℕ) (poziom : List Tekst)
      → 1 ≤ length poziom
      → ltb 1 (length poziom) ≡ false
      → (k : Koniec) × (redukuj fmt pytanie budzet zapytaj wyodrebnij (suc p) runda poziom ≡ some k)
        × Dopuszczalny runda (length poziom) k
  unfolding redukuj
  jeden p runda [] h e = absurd (omega arith)
  jeden p runda (x ∷ []) h e = (wynik x runda, refl, omega arith)
  jeden p runda (x ∷ y ∷ xs) h e = absurd (ground arith)

  -- The reduction of one result or more ends, whatever the node answers, with an error or with one text;
  -- and the text is there after fewer rounds than there were results.
  pub redukuj-Dopuszczalny :
      (p runda : ℕ) (poziom : List Tekst)
      → 1 ≤ length poziom
      → length poziom ≤ p
      → (k : Koniec) × (redukuj fmt pytanie budzet zapytaj wyodrebnij p runda poziom ≡ some k)
        × Dopuszczalny runda (length poziom) k
  unfolding redukuj
  redukuj-Dopuszczalny zero runda poziom h l = absurd (omega arith)
  redukuj-Dopuszczalny (suc p) runda poziom h l = elim (Bool-cases (ltb 1 (length poziom))) [
    | inr e ↦ jeden p runda poziom h e
    | inl e ↦
        let grupy = grupuj_do_budzetu poziom budzet in
        elim (Bool-cases (leb (length poziom) (length grupy))) [
          | inl d ↦ (
            blad (nie_zmniejsza fmt (runda + 1) (length poziom) (length grupy) budzet),
            rw (e, redukuj) (rw d refl),
            tt,
          )
          | inr d ↦
              elim (Result-cases
                (nowy_poziom fmt pytanie budzet zapytaj wyodrebnij (runda + 1) 0 grupy)) [
                  | inr (x, q) ↦ (blad x, rw (e, redukuj) (rw d (rw q refl)), tt)
                  | inl (xs, q) ↦
                      let n = length-nowy_poziom (runda + 1) 0 grupy xs q in
                      let g = grupy_pos poziom budzet h in
                      let (k, r, u) =
                        redukuj-Dopuszczalny p (runda + 1) xs (omega arith) (ground arith) in
                      (
                        k,
                        rw (e, redukuj) (rw d (rw q r)),
                        mniej_rund k runda (length xs) (length poziom) (ground arith) u,
                      )
                ]
        ]
  ]
