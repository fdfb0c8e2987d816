-- ===== src/M3/Verdict.antt =====
-- The verdict of crates/simon-core/src/m3.rs: what it counts, and what is decided from it.
use simon.Prelude.{
  ℕ, ◌+◌, ◌≤◌, ◌≡◌, inl, inr, refl, sym, ◌∙◌, Bool, true, false, not, ◌&&◌, List, [], ◌∷◌, String,
  Option, none, some, if◌then◌else◌, ltb, length, is_empty, arith, Bool-cases, Option-cases, lt→ltb,
}
use simon.Prelude.Dict.{is_some}
use simon.Prelude.Float.{Float}
use simon.Klient.Zlecenie.{Format}
use simon.M3.{
  Krok, Polityka, Licznik, licznik_pusty, posortowane, niepoliczalne, znajdz, margines, zgodny,
  krok_niepoliczalny, krok_trafiony, krok_poza_lista, krok_oceny, petla_oceny, ocena,
  pierwszy_powod,
}

module _ (f : Float) where
  -- The step is within the policy: every logprob is finite, and the node's token is in the verifier's
  -- list, at a rank and with a margin that the policy allows.
  unfoldable pub w_polityce : Polityka f → Krok f → Bool
  w_polityce p kr =
      let s = posortowane f kr.topk in
      not (niepoliczalne f kr.topk) && elim (znajdz f kr.node_token 0 s) [
        | none ↦ false
        | some (rank0, lp) ↦ zgodny f p (rank0 + 1) (margines f s lp)
      ]

  unfoldable pub ile_w_polityce : Polityka f → List (Krok f) → ℕ
  ile_w_polityce p [] = 0
  ile_w_polityce p (kr ∷ reszta) = (if w_polityce p kr then 1 else 0) + ile_w_polityce p reszta

  module _ (fmt : Format) (p : Polityka f) where
    -- What one more step does to the counters.
    pub record Policzony (t : Bool) (l m : Licznik f) : Type 0 where
      pub trafione : m.w_topk ≡ (if t then l.w_topk + 1 else l.w_topk)
      pub chybione : m.poza ≡ (if t then l.poza else l.poza + 1)
      pub lista : l.poza_lista ≤ l.poza → m.poza_lista ≤ m.poza
      pub powody : is_some l.powod ≡ ltb 0 l.poza → is_some m.powod ≡ ltb 0 m.poza

    chybiony-Policzony :
        (l m : Licznik f) (s : String)
        → m.w_topk ≡ l.w_topk
        → m.poza ≡ l.poza + 1
        → m.poza_lista ≤ l.poza_lista + 1
        → m.powod ≡ pierwszy_powod f l.powod s
        → Policzony false l m
    chybiony-Policzony l m s a b c d = record {
      trafione = a;
      chybione = b;
      lista = λ h. omega arith;
      powody = λ h. rw d (jest_powod l.powod ∙ sym (lt→ltb 0 m.poza (omega arith)));
    }
      where
        jest_powod : (o : Option String) → is_some (pierwszy_powod f o s) ≡ true
        jest_powod none = refl
        jest_powod (some q) = refl

    krok_trafiony-Policzony :
        (i : ℕ) (kr : Krok f) (rank : ℕ) (margin lp : f.F) (l : Licznik f)
        → Policzony (zgodny f p rank margin) l (krok_trafiony f fmt p i kr rank margin lp l)
    unfolding krok_trafiony
    krok_trafiony-Policzony i kr rank margin lp l = elim (Bool-cases (zgodny f p rank margin)) [
      | inl e ↦ rw e (record { trafione = refl; chybione = refl; lista = λ h. h; powody = λ h. h })
      | inr e ↦ rw e (chybiony-Policzony l _ _ refl refl (omega arith) refl)
    ]

    krok_oceny-Policzony :
        (i : ℕ) (kr : Krok f) (l : Licznik f)
        → Policzony (w_polityce p kr) l (krok_oceny f fmt p i kr l)
    unfolding krok_oceny w_polityce krok_niepoliczalny krok_poza_lista
    krok_oceny-Policzony i kr l = elim (Bool-cases (niepoliczalne f kr.topk)) [
      | inl e ↦ rw e (chybiony-Policzony l _ _ refl refl (omega arith) refl)
      | inr e ↦ elim (Option-cases (znajdz f kr.node_token 0 (posortowane f kr.topk))) [
        | inl g ↦ rw e (rw (g, krok_oceny) (chybiony-Policzony l _ _ refl refl (omega arith) refl))
        | inr ((rank0, lp), g) ↦ rw e (
            rw (g, krok_oceny)
              (krok_trafiony-Policzony i kr (rank0 + 1) (margines f (posortowane f kr.topk) lp) lp
                l))
      ]
    ]

    -- What the loop keeps, after `n` steps of which `w` are within the policy.
    record Rzetelny (w n : ℕ) (l : Licznik f) : Type 0 where
      trafione : l.w_topk ≡ w
      razem : l.w_topk + l.poza ≡ n
      lista : l.poza_lista ≤ l.poza
      powody : is_some l.powod ≡ ltb 0 l.poza

    krok_oceny-Rzetelny :
        (w n i : ℕ) (kr : Krok f) (l : Licznik f)
        → Rzetelny w n l
        → Rzetelny (w + (if w_polityce p kr then 1 else 0)) (n + 1) (krok_oceny f fmt p i kr l)
    krok_oceny-Rzetelny w n i kr l r =
        let q = krok_oceny-Policzony i kr l in
        record {
          trafione = ground arith;
          razem = ground arith;
          lista = q.lista r.lista;
          powody = q.powody r.powody;
        }

    petla_oceny-Rzetelny :
        (kroki : List (Krok f)) (w n i : ℕ) (l : Licznik f)
        → Rzetelny w n l
        → Rzetelny (w + ile_w_polityce p kroki) (n + length kroki) (petla_oceny f fmt p i kroki l)
    unfolding petla_oceny ile_w_polityce
    petla_oceny-Rzetelny [] w n i l r = record {
      trafione = omega (arith, r.trafione);
      razem = omega (arith, r.razem);
      lista = r.lista;
      powody = r.powody;
    }
    petla_oceny-Rzetelny (kr ∷ reszta) w n i l r =
        let q =
          petla_oceny-Rzetelny reszta (w + (if w_polityce p kr then 1 else 0)) (n + 1) (i + 1)
            (krok_oceny f fmt p i kr l) (krok_oceny-Rzetelny w n i kr l r) in
        record {
          trafione = omega (arith, q.trafione);
          razem = omega (arith, q.razem);
          lista = q.lista;
          powody = q.powody;
        }

    -- The fraction that the verdict compares with the policy.
    abbrev pub ulamek : List (Krok f) → f.F
    ulamek kroki =
        if is_empty kroki
        then f.literal "1.0"
        else f.div (f.of_nat (ocena f fmt p kroki).poza_topk) (f.of_nat (length kroki))

    -- The verdict counts every step once: as within the policy, which `w_topk` counts exactly, or as
    -- suspicious. Steps whose token the verifier did not list are among the suspicious. It is positive
    -- exactly when there is a step and the fraction of suspicious steps is within the policy; and it
    -- gives a reason exactly when it is not positive and a step was suspicious.
    pub ocena_lem :
        (kroki : List (Krok f))
        → let w = ocena f fmt p kroki in
          (w.krokow ≡ length kroki)
          × (w.w_topk ≡ ile_w_polityce p kroki)
          × (w.w_topk + w.poza_topk ≡ w.krokow)
          × (w.poza_lista ≤ w.poza_topk)
          × (w.jest_ok ≡ (not (is_empty kroki) && f.le (ulamek kroki) p.max_poza))
          × (is_some w.powod ≡ (not w.jest_ok && ltb 0 w.poza_topk))
    unfolding ocena
    ocena_lem kroki =
        let r =
          petla_oceny-Rzetelny kroki 0 0 0 (licznik_pusty f)
            (record { trafione = refl; razem = refl; lista = omega arith; powody = refl }) in
        (
          refl,
          omega (arith, r.trafione),
          omega (arith, r.razem),
          r.lista,
          refl,
          powod_koncowy _ _ _ r.powody,
        )
      where
        powod_koncowy :
            (t : Bool) (o : Option String) (x : Bool)
            → is_some o ≡ x
            → is_some (if t then none else o) ≡ (not t && x)
        powod_koncowy true o x h = refl
        powod_koncowy false o x h = h
