-- ===== src/Wezel/Intake.antt =====
-- What the loop of `uruchom` in crates/simon-cli/src/node.rs keeps true while prompts come in and tasks end.
use simon.Prelude.{
  ℕ, suc, ◌+◌, ◌*◌, ◌-◌, ◌≤◌, ◌≡◌, inl, inr, refl, sym, ◌∙◌, false, ◌||◌, List, [], ◌∷◌, ◌++◌,
  String, Option, none, some, Bool-cases, Option-cases, Result-cases, ltb, ◌==◌, arith, length,
  length-append,
}
use simon.Prelude.Text.{str_eq, eq_iff, str_eq-true, str_eq-false, str_eq_of_ne}
use simon.Prelude.Float.{Float}
use simon.Klient.Zlecenie.{Format}
use simon.Prompt.{PromptRequest, PromptReply}
use simon.Protokol.Kubelek.{zezwol}
use simon.Wezel.{
  Slad, slad_eq, byl, zapamietaj, pop_front, Pamiec, limit_peera, Petla, start, przyjmij_prompt,
  sprawdz_wersje, pamiec_jobow, kolejka_na_slot, kubelek, przyciete,
}
use simon.Wezel.Branches.{
  przyjmij_prompt-wersja, przyjmij_prompt-limit, przyjmij_prompt-zajety, przyjmij_prompt-wolny,
}

-- No job of a peer is remembered twice.
abbrev pub Rozne : List Slad → Type 0
Rozne [] = Unit
Rozne (x ∷ xs) = (byl x xs ≡ false) × Rozne xs

str_eq_sym : (s t : String) → str_eq s t ≡ str_eq t s
str_eq_sym s t = elim (Bool-cases (str_eq s t)) [
  | inl e ↦ e ∙ sym ((eq_iff t s).1 (sym (str_eq-true s t e)))
  | inr e ↦ e ∙ sym (str_eq_of_ne t s (λ q. str_eq-false s t e (sym q)))
]

slad_eq_sym : (s t : Slad) → slad_eq s t ≡ slad_eq t s
slad_eq_sym (p, j) (q, k) = rw (str_eq_sym p q, str_eq_sym j k) refl

pub byl-append : (s : Slad) (xs ys : List Slad) → byl s (xs ++ ys) ≡ (byl s xs || byl s ys)
byl-append s [] ys = refl
byl-append s (x ∷ xs) ys = ground (arith, byl-append s xs ys)

append-Rozne : (s : Slad) (xs : List Slad) → byl s xs ≡ false → Rozne xs → Rozne (xs ++ s ∷ [])
append-Rozne s [] h r = (refl, tt)
append-Rozne s (x ∷ xs) h r =
    let q = slad_eq_sym x s in
    let u : slad_eq x s ≡ false = ground arith in
    let v : byl s xs ≡ false = ground arith in
    let w : slad_eq s x ≡ false = sym q ∙ u in
    (byl-append x xs (s ∷ []) ∙ rw (r.0, w) refl, append-Rozne s xs v r.1)

pop_front-Rozne : (xs : List Slad) → Rozne xs → Rozne (pop_front xs)
pop_front-Rozne [] r = tt
pop_front-Rozne (x ∷ xs) r = r.1

length-pop_front :
    (xs : List Slad) → length xs ≤ suc pamiec_jobow → length (pop_front xs) ≤ pamiec_jobow
length-pop_front [] h = omega arith
length-pop_front (x ∷ xs) h = omega arith

-- The jobs that are remembered: pairwise different, and no more than the memory holds.
abbrev pub Pamietane : List Slad → Type 0
Pamietane xs = Rozne xs × (length xs ≤ pamiec_jobow)

zapamietaj-Pamietane :
    (s : Slad) (xs : List Slad) → byl s xs ≡ false → Pamietane xs → Pamietane (zapamietaj s xs)
unfolding zapamietaj
zapamietaj-Pamietane s xs h (r, l) =
    let r' = append-Rozne s xs h r in
    let q : length (xs ++ s ∷ []) ≤ suc pamiec_jobow = omega (arith, length-append xs (s ∷ [])) in
    elim (Bool-cases (ltb pamiec_jobow (length (xs ++ s ∷ [])))) [
      | inl e ↦ rw e (pop_front-Rozne _ r', length-pop_front _ q)
      | inr e ↦ rw e (r', ground arith)
    ]

module _ (f : Float) (fmt : Format) where
  -- What the gate of a peer comes to: a refusal, that remembers no job, or no refusal, for a job that was
  -- not there and now is.
  abbrev pub Bramka : Pamiec f fmt → Slad → Option PromptReply → Pamiec f fmt → Type 0
  Bramka p s none p' = (byl s p.ostatnie ≡ false) × (p'.ostatnie ≡ zapamietaj s p.ostatnie)
  Bramka p s (some r) p' = p'.ostatnie ≡ p.ostatnie

  pub limit_peera_lem :
      (p : Pamiec f fmt) (peer : String) (req : PromptRequest) (rate : f.F) (teraz : ℕ)
      → Bramka p
          (peer, req.job_id)
          (limit_peera f fmt p peer req rate teraz).0
          (limit_peera f fmt p peer req rate teraz).1
  unfolding limit_peera
  limit_peera_lem p peer req rate teraz = elim (Bool-cases (byl (peer, req.job_id) p.ostatnie)) [
    | inl e ↦ rw e refl
    | inr e ↦ elim (Bool-cases (f.lt (f.literal "0.0") rate)) [
      | inr d ↦ rw e (rw d (e, refl))
      | inl d ↦
          elim (Result-cases
            (zezwol f (kubelek f fmt (przyciete f fmt p.kubelki) peer rate teraz) teraz).0) [
              | inl (u, q) ↦ rw e (rw d (rw q (e, refl)))
              | inr (u, q) ↦ rw e (rw d (rw q refl))
            ]
    ]
  ]

  module _ (max_jobs : ℕ) (rate : f.F) where
    -- One turn of the loop: a prompt comes in, or one of the tasks ends and drops its permit.
    pub data Obrot : Petla f fmt → Petla f fmt → Type 0 where
      przyszedl :
          (s : Petla f fmt) (peer : String) (req : PromptRequest) (teraz : ℕ)
          → Obrot s (przyjmij_prompt f fmt max_jobs rate s peer req teraz).1
      zakonczone :
          (p : Pamiec f fmt) (n : ℕ) (przed po : List PromptRequest) (r : PromptRequest)
          → Obrot
              (record { pamiec = p; przyjecia = n; zadania = przed ++ r ∷ po })
              (record { pamiec = p; przyjecia = suc n; zadania = przed ++ po })

    pub data Osiagalna : Petla f fmt → Type 0 where
      poczatek : Osiagalna (start f fmt max_jobs)
      dalej : (s s' : Petla f fmt) → Osiagalna s → Obrot s s' → Osiagalna s'

    -- Each task holds one of the permits, and the memory is in order.
    pub record Spojna (s : Petla f fmt) : Type 0 where
      pub pozwolenia : s.przyjecia + length s.zadania ≡ max_jobs * kolejka_na_slot
      pub pamietane : Pamietane s.pamiec.ostatnie

    utrzymana :
        (s : Petla f fmt) (p : Pamiec f fmt)
        → p.ostatnie ≡ s.pamiec.ostatnie
        → Spojna s
        → Spojna (record s { pamiec = p })
    utrzymana s p q i = record { pozwolenia = i.pozwolenia; pamietane = rw q i.pamietane }

    dopisana :
        (s : Petla f fmt) (p : Pamiec f fmt) (j : Slad)
        → (byl j s.pamiec.ostatnie ≡ false) × (p.ostatnie ≡ zapamietaj j s.pamiec.ostatnie)
        → Spojna s
        → Pamietane p.ostatnie
    dopisana s p j (h, q) i = rw q (zapamietaj-Pamietane j s.pamiec.ostatnie h i.pamietane)

    zajete_pozwolenie :
        (s : Petla f fmt) (req : PromptRequest)
        → (s.przyjecia == 0) ≡ false
        → Spojna s
        → s.przyjecia - 1 + length (s.zadania ++ req ∷ []) ≡ max_jobs * kolejka_na_slot
    zajete_pozwolenie s req z i =
        let q = i.pozwolenia in
        let l = length-append s.zadania (req ∷ []) in
        let n : 1 ≤ s.przyjecia = ground arith in omega arith

    przyjmij_prompt-Spojna :
        (s : Petla f fmt) (peer : String) (req : PromptRequest) (teraz : ℕ)
        → Spojna s
        → Spojna (przyjmij_prompt f fmt max_jobs rate s peer req teraz).1
    przyjmij_prompt-Spojna s peer req teraz i = elim (Option-cases (sprawdz_wersje fmt req)) [
      | inr (r, e) ↦ rw (przyjmij_prompt-wersja f fmt max_jobs rate s peer req teraz r e) i
      | inl e ↦
          let l = limit_peera f fmt s.pamiec peer req rate teraz in
          let q = limit_peera_lem s.pamiec peer req rate teraz in
          elim (Option-cases l.0) [
            | inr (r, d) ↦
                rw (przyjmij_prompt-limit f fmt max_jobs rate s peer req teraz r e d)
                  (utrzymana s l.1 (rw d at q) i)
            | inl d ↦
                let p = dopisana s l.1 (peer, req.job_id) (rw d at q) i in
                elim (Bool-cases (s.przyjecia == 0)) [
                  | inl z ↦
                      rw (przyjmij_prompt-zajety f fmt max_jobs rate s peer req teraz e d z)
                        (record { pozwolenia = i.pozwolenia; pamietane = p })
                  | inr z ↦
                      rw (przyjmij_prompt-wolny f fmt max_jobs rate s peer req teraz e d z)
                        (record { pozwolenia = zajete_pozwolenie s req z i; pamietane = p })
                ]
          ]
    ]

    obrot-Spojna : (s s' : Petla f fmt) → Obrot s s' → Spojna s → Spojna s'
    obrot-Spojna _ _ (przyszedl s peer req teraz) i = przyjmij_prompt-Spojna s peer req teraz i
    obrot-Spojna _ _ (zakonczone p n przed po r) i = record {
      pozwolenia =
          omega (arith, i.pozwolenia, length-append przed po, length-append przed (r ∷ po));
      pamietane = i.pamietane;
    }

    -- However prompts and ends of tasks follow one another, the tasks and the free permits are together
    -- the permits of the start, so that no more tasks are in progress than they allow; no job of a peer is
    -- remembered twice, and no more jobs are remembered than the memory holds.
    pub uruchom-Spojna : (s : Petla f fmt) → Osiagalna s → Spojna s
    unfolding start
    uruchom-Spojna _ poczatek = record { pozwolenia = omega arith; pamietane = (tt, omega arith) }
    uruchom-Spojna _ (dalej r s h k) = obrot-Spojna r s k (uruchom-Spojna r h)
