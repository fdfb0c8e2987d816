-- ===== src/Mapreduce/Groups.antt =====
-- The grouping of mapreduce.rs: order, budget, greed and progress.
use simon.Prelude.{
  ℕ, suc, ◌+◌, ◌*◌, ◌≤◌, ◌<◌, ◌≡◌, inl, inr, refl, true, false, List, [], ◌∷◌, ◌++◌, arith, length,
  length-append, concat, All, ltb, Bool-cases, ◌∙◌, min, ◌≢◌,
}
use simon.Mapreduce.{
  Tekst, grupuj_petla, grupuj_do_budzetu, grupuj_do_budzetu_tokenow, oszacuj_tokeny,
}
use native.Mathlib.Nat.{zero-add}
use mathlib.Core.List.{append-nil, append_assoc}

concat-append {ℓ} :
    {A : Type ℓ} (xs ys : List (List A)) → concat (xs ++ ys) ≡ concat xs ++ concat ys
concat-append [] ys = refl
concat-append (x ∷ xs) ys = simp (concat-append xs ys, append_assoc)

module _ {ℓ} {A : Type ℓ} (miara : A → ℕ) (budzet : ℕ) where
  abbrev pub suma : List A → ℕ
  suma [] = 0
  suma (x ∷ xs) = miara x + suma xs

  suma-append : (xs ys : List A) → suma (xs ++ ys) ≡ suma xs + suma ys
  suma-append [] ys = omega arith
  suma-append (x ∷ xs) ys = omega (arith, suma-append xs ys)

  -- No group is empty, and one that holds more than the budget is a single element.
  abbrev pub Miesci : List A → Type 0
  Miesci [] = ⊥
  Miesci (x ∷ []) = Unit
  Miesci (x ∷ y ∷ ys) = suma (x ∷ y ∷ ys) ≤ budzet

  -- In each pair of neighbours the later group's first element had no room in the earlier group.
  abbrev pub Zachlanne : List (List A) → Type 0
  Zachlanne [] = Unit
  Zachlanne (g ∷ []) = Unit
  Zachlanne (g ∷ [] ∷ gs) = ⊥
  Zachlanne (g ∷ (x ∷ xs) ∷ gs) = (budzet < suma g + miara x) × Zachlanne ((x ∷ xs) ∷ gs)

  -- The two ways on for a group that has an element already.
  petla_zamknij :
      (grupy : List (List A)) (b : A) (bs : List A) (d : ℕ) (e : A) (es : List A)
      → ltb budzet (d + miara e) ≡ true
      → grupuj_petla miara budzet grupy (b ∷ bs) d (e ∷ es)
        ≡ grupuj_petla miara budzet (grupy ++ (b ∷ bs) ∷ []) (e ∷ []) (miara e) es
  unfolding grupuj_petla
  petla_zamknij grupy b bs d e es h = rw (h, zero-add)

  petla_dopisz :
      (grupy : List (List A)) (b : A) (bs : List A) (d : ℕ) (e : A) (es : List A)
      → ltb budzet (d + miara e) ≡ false
      → grupuj_petla miara budzet grupy (b ∷ bs) d (e ∷ es)
        ≡ grupuj_petla miara budzet grupy (b ∷ bs ++ e ∷ []) (d + miara e) es
  unfolding grupuj_petla
  petla_dopisz grupy b bs d e es h = rw h

  concat-petla :
      (grupy : List (List A)) (b : A) (bs : List A) (d : ℕ) (es : List A)
      → concat (grupuj_petla miara budzet grupy (b ∷ bs) d es) ≡ concat grupy ++ (b ∷ bs) ++ es
  concat-petla grupy b bs d [] = unfold grupuj_petla in simp (concat-append, append-nil)
  concat-petla grupy b bs d (e ∷ es) = elim (Bool-cases (ltb budzet (d + miara e))) [
    | inl h ↦ rw (petla_zamknij grupy b bs d e es h) (
        concat-petla (grupy ++ (b ∷ bs) ∷ []) e [] (miara e) es
        ∙ simp (concat-append, append-nil, append_assoc))
    | inr h ↦
        rw (petla_dopisz grupy b bs d e es h)
          (concat-petla grupy b (bs ++ e ∷ []) (d + miara e) es ∙ simp (append_assoc))
  ]

  Miesci-dopisz :
      (b : A) (bs : List A) (e : A) → suma (b ∷ bs) + miara e ≤ budzet → Miesci (b ∷ bs ++ e ∷ [])
  Miesci-dopisz b [] e h = omega arith
  Miesci-dopisz b (c ∷ bs) e h = omega (arith, suma-append bs (e ∷ []))

  All-dopisz :
      (P : List A → Type 0) (gs : List (List A)) (g : List A)
      → All P gs
      → P g
      → All P (gs ++ g ∷ [])
  All-dopisz P [] g h p = (p, tt)
  All-dopisz P (x ∷ gs) g h p = (h.0, All-dopisz P gs g h.1 p)

  petla-Miesci :
      (grupy : List (List A)) (b : A) (bs : List A) (d : ℕ) (es : List A)
      → d ≡ suma (b ∷ bs)
      → All Miesci grupy
      → Miesci (b ∷ bs)
      → All Miesci (grupuj_petla miara budzet grupy (b ∷ bs) d es)
  petla-Miesci grupy b bs d [] p q r = unfold grupuj_petla in All-dopisz Miesci grupy (b ∷ bs) q r
  petla-Miesci grupy b bs d (e ∷ es) p q r = elim (Bool-cases (ltb budzet (d + miara e))) [
    | inl h ↦ rw (petla_zamknij grupy b bs d e es h) (
        petla-Miesci (grupy ++ (b ∷ bs) ∷ []) e [] (miara e) es (omega arith)
          (All-dopisz Miesci grupy (b ∷ bs) q r) tt)
    | inr h ↦ rw (petla_dopisz grupy b bs d e es h) (
        petla-Miesci grupy b (bs ++ e ∷ []) (d + miara e) es
          (omega (arith, suma-append bs (e ∷ []))) q (Miesci-dopisz b bs e (ground arith)))
  ]

  Zachlanne-zamknij :
      (gs : List (List A)) (g : List A) (e : A)
      → budzet < suma g + miara e
      → Zachlanne (gs ++ g ∷ [])
      → Zachlanne ((gs ++ g ∷ []) ++ (e ∷ []) ∷ [])
  Zachlanne-zamknij [] g e h z = (h, tt)
  Zachlanne-zamknij (a ∷ []) [] e h z = absurd z
  Zachlanne-zamknij (a ∷ []) (x ∷ g) e h z = (z.0, (h, tt))
  Zachlanne-zamknij (a ∷ [] ∷ gs) g e h z = absurd z
  Zachlanne-zamknij (a ∷ (x ∷ xs) ∷ gs) g e h z = (z.0, Zachlanne-zamknij ((x ∷ xs) ∷ gs) g e h z.1)

  Zachlanne-dopisz :
      (gs : List (List A)) (b : A) (bs cs : List A)
      → Zachlanne (gs ++ (b ∷ bs) ∷ [])
      → Zachlanne (gs ++ (b ∷ cs) ∷ [])
  Zachlanne-dopisz [] b bs cs z = tt
  Zachlanne-dopisz (a ∷ []) b bs cs z = (z.0, tt)
  Zachlanne-dopisz (a ∷ [] ∷ gs) b bs cs z = absurd z
  Zachlanne-dopisz (a ∷ (x ∷ xs) ∷ gs) b bs cs z =
      (z.0, Zachlanne-dopisz ((x ∷ xs) ∷ gs) b bs cs z.1)

  petla-Zachlanne :
      (grupy : List (List A)) (b : A) (bs : List A) (d : ℕ) (es : List A)
      → d ≡ suma (b ∷ bs)
      → Zachlanne (grupy ++ (b ∷ bs) ∷ [])
      → Zachlanne (grupuj_petla miara budzet grupy (b ∷ bs) d es)
  petla-Zachlanne grupy b bs d [] p z = unfold grupuj_petla in z
  petla-Zachlanne grupy b bs d (e ∷ es) p z = elim (Bool-cases (ltb budzet (d + miara e))) [
    | inl h ↦ rw (petla_zamknij grupy b bs d e es h) (
        petla-Zachlanne (grupy ++ (b ∷ bs) ∷ []) e [] (miara e) es (omega arith)
          (Zachlanne-zamknij grupy (b ∷ bs) e (ground arith) z))
    | inr h ↦ rw (petla_dopisz grupy b bs d e es h) (
        petla-Zachlanne grupy b (bs ++ e ∷ []) (d + miara e) es
          (omega (arith, suma-append bs (e ∷ []))) (Zachlanne-dopisz grupy b bs (bs ++ e ∷ []) z))
  ]

  -- Where two elements always fit together, a group is closed only with two elements or more.
  petla-polowa :
      (grupy : List (List A)) (b : A) (bs : List A) (d : ℕ) (es : List A)
      → d ≡ suma (b ∷ bs)
      → All (λ x. 2 * miara x ≤ budzet) (b ∷ es)
      → 2 * length (grupuj_petla miara budzet grupy (b ∷ bs) d es)
        ≤ 2 * length grupy + min (suc (length bs)) 2 + length es + 1
  petla-polowa grupy b bs d [] p q =
      unfold grupuj_petla in omega (arith, length-append grupy ((b ∷ bs) ∷ []))
  petla-polowa grupy b bs d (e ∷ es) p q = elim (Bool-cases (ltb budzet (d + miara e))) [
    | inl h ↦
        let pelna : budzet < d + miara e = ground arith in
        let dwa : 2 ≤ suc (length bs) = co_najmniej_dwa bs (omega arith) in
        rw (petla_zamknij grupy b bs d e es h) (
          omega (
            arith,
            petla-polowa (grupy ++ (b ∷ bs) ∷ []) e [] (miara e) es (omega arith) q.1,
            length-append grupy ((b ∷ bs) ∷ []),
          ))
    | inr h ↦ rw (petla_dopisz grupy b bs d e es h) (
        omega (
          arith,
          petla-polowa grupy b (bs ++ e ∷ []) (d + miara e) es
              (omega (arith, suma-append bs (e ∷ []))) (q.0, q.1.1),
          length-append bs (e ∷ []),
        ))
  ]
    where
      co_najmniej_dwa : (bs : List A) → miara b + suma bs ≢ miara b + suma [] → 2 ≤ suc (length bs)
      co_najmniej_dwa [] n = absurd (n refl)
      co_najmniej_dwa (c ∷ cs) n = omega arith

  -- What a grouping of `elementy` promises: the groups, put together, are the elements in their
  -- order; no group is empty or over the budget, unless it is a single element; and no group could
  -- have taken the next group's first element too.
  pub record Grupowanie (elementy : List A) (grupy : List (List A)) : Type ℓ where
    pub kolejnosc : concat grupy ≡ elementy
    pub mieszcza : All Miesci grupy
    pub zachlanne : Zachlanne grupy

  petla-Grupowanie : (es : List A) → Grupowanie es (grupuj_petla miara budzet [] [] 0 es)
  unfolding grupuj_petla
  petla-Grupowanie [] = record { kolejnosc = refl; mieszcza = tt; zachlanne = tt }
  petla-Grupowanie (e ∷ es) = record {
    kolejnosc = concat-petla [] e [] (0 + miara e) es;
    mieszcza = petla-Miesci [] e [] (0 + miara e) es (omega arith) tt tt;
    zachlanne = petla-Zachlanne [] e [] (0 + miara e) es (omega arith) tt;
  }

  petla-postep :
      (es : List A)
      → All (λ x. 2 * miara x ≤ budzet) es
      → 2 * length (grupuj_petla miara budzet [] [] 0 es) ≤ length es + 1
  unfolding grupuj_petla
  petla-postep [] q = omega arith
  petla-postep (e ∷ es) q = omega (arith, petla-polowa [] e [] (0 + miara e) es (omega arith) q)

-- Both groupings, by characters and by estimated tokens, keep the order of the partial results and
-- lose none, keep every group of two or more within the budget, and are greedy.
pub grupuj-Grupowanie :
    (elementy : List Tekst) (budzet : ℕ)
    → Grupowanie length budzet elementy (grupuj_do_budzetu elementy budzet)
      × Grupowanie oszacuj_tokeny budzet elementy (grupuj_do_budzetu_tokenow elementy budzet)
unfolding grupuj_do_budzetu grupuj_do_budzetu_tokenow
grupuj-Grupowanie elementy budzet =
    (petla-Grupowanie length budzet elementy, petla-Grupowanie oszacuj_tokeny budzet elementy)

-- Hierarchical reduction makes progress: where every partial result takes at most half the budget,
-- `n` of them make at most (n + 1) / 2 groups, so fewer groups than results as soon as there are two.
pub grupuj_postep :
    (elementy : List Tekst) (budzet : ℕ)
    → All (λ x. 2 * length x ≤ budzet) elementy
    → 2 * length (grupuj_do_budzetu elementy budzet) ≤ length elementy + 1
unfolding grupuj_do_budzetu
grupuj_postep elementy budzet h = petla-postep length budzet elementy h
