-- ===== src/Agent/Split.antt =====
-- `wyslij_kawalek_z_retry` of crates/simon-cli/src/agent.rs: that the halving ends, and that no part of the
-- text is lost or told twice.
use simon.Prelude.{
  ℕ, zero, suc, ◌+◌, ◌-◌, ◌/◌, ◌<◌, ◌≡◌, refl, sym, ap, ◌∙◌, List, [], ◌∷◌, ◌++◌, String, some,
  Result, ok, err, arith, Bool-cases, Option-cases, Result-cases, inl, inr, ◌==◌, length, split_at,
  split_at-append, concat, none_ne_some, ok-injective, err_ne_ok, ◌≤◌, ◌^◌, ◌*◌,
}
use native.Mathlib.Nat.{pow-suc}
use mathlib.Core.List.{append-nil, append_assoc}
use simon.Prelude.Float.{Float}
use simon.Klient.Zlecenie.{Format}
use simon.Mapreduce.{Tekst}
use simon.Prompt.{PromptReply, PromptError, wynik, blad}
use simon.Agent.{
  Petla, za_dlugi, petla, zaostrz, wyslij_kawalek_z_retry, join_lines, nie_da_sie_podzielic,
  PoKawalku,
}

-- How many requests a fragment that may be halved `g` times can take.
unfoldable pub waga : ℕ → ℕ
waga zero = 1
waga (suc g) = 1 + (waga g + waga g)

unfoldable pub waga_kolejki : List (Tekst × ℕ) → ℕ
waga_kolejki [] = 0
waga_kolejki ((t, g) ∷ k) = waga g + waga_kolejki k

waga_pos : (g : ℕ) → 0 < waga g
unfolding waga
waga_pos zero = omega arith
waga_pos (suc g) = omega (arith, waga_pos g)

za_dlugi-some : (r : PromptReply) (g : ℕ) (e : PromptError) → za_dlugi r g ≡ some e → 0 < g
unfolding za_dlugi
za_dlugi-some (blad x) g e h = ground arith
za_dlugi-some (wynik x) g e h = absurd (none_ne_some h)

waga_polowek : (g w p : ℕ) → 0 < g → waga g + w < suc p → waga (g - 1) + (waga (g - 1) + w) < p
unfolding waga
waga_polowek zero w p h k = absurd (omega arith)
waga_polowek (suc g) w p h k = let q : suc g - 1 ≡ g = omega arith in rw q (omega arith)

miejsce_polowek :
    (g w k w' : ℕ)
    → 0 < g
    → w' ≤ w + 1 + (waga (g - 1) + (waga (g - 1) + k))
    → w' ≤ w + (waga g + k)
unfolding waga
miejsce_polowek zero w k w' h m = absurd (omega arith)
miejsce_polowek (suc g) w k w' h m =
    let q : suc g - 1 ≡ g = omega arith in let m' = rw q at m in omega arith

-- It is 2^(g+1) - 1.
waga_potega : (g : ℕ) → waga g + 1 ≡ 2 ^ suc g
unfolding waga
waga_potega zero = refl
waga_potega (suc g) =
    let q : 2 ^ suc (suc g) ≡ 2 ^ suc g * 2 = pow-suc 2 (suc g) in omega (arith, waga_potega g)

module _ (f : Float) (fmt : Format) (i n : ℕ)
    (wyslij : ℕ → Tekst → Result String (String × PromptReply)) (prompt : Tekst → Tekst)
    (wyodrebnij : PromptReply → String → Result String String) where
  abbrev stan : ℕ → List (Tekst × ℕ) → f.F → List String → Petla f
  stan w k z c = record { wyslane = w; kolejka = k; znak_na_tok = z; czesciowe = c }

  -- The outputs are those of fragments that, in order, make up the text: each was sent under a prompt of
  -- its own, and its output was taken from the answer to that prompt.
  pub data Odpowiedzi : List Tekst → List String → Type 0 where
    koniec : Odpowiedzi [] []
    nastepna :
        (fragment : Tekst) (fragmenty : List Tekst) (output : String) (outputy : List String)
        (w : ℕ) (nonce : String) (reply : PromptReply)
        → wyslij w (prompt fragment) ≡ ok (nonce, reply)
        → wyodrebnij reply nonce ≡ ok output
        → Odpowiedzi fragmenty outputy
        → Odpowiedzi (fragment ∷ fragmenty) (output ∷ outputy)

  unfoldable pub tekst_kolejki : List (Tekst × ℕ) → Tekst
  tekst_kolejki [] = []
  tekst_kolejki ((t, g) ∷ k) = t ++ tekst_kolejki k

  -- What a run of the loop comes to: an error, or outputs after those that were there, of fragments that
  -- make up the text of the queue.
  abbrev pub Wynik : List (Tekst × ℕ) → List String → Result String (List String) → Type 0
  Wynik k c (err e) = Unit
  Wynik k c (ok d) =
      (fs : List Tekst) × (os : List String) × (concat fs ≡ tekst_kolejki k)
      × (d ≡ c ++ os)
      × Odpowiedzi fs os

  przenies :
      (k k' : List (Tekst × ℕ)) (c : List String) (r : Result String (List String))
      → tekst_kolejki k ≡ tekst_kolejki k'
      → Wynik k c r
      → Wynik k' c r
  przenies k k' c (err e) q v = tt
  przenies k k' c (ok d) q (fs, os, x, y, o) = (fs, os, x ∙ q, y, o)

  dopisz :
      (t : Tekst) (g w : ℕ) (k : List (Tekst × ℕ)) (c : List String) (nonce o : String)
      (reply : PromptReply) (r : Result String (List String))
      → wyslij w (prompt t) ≡ ok (nonce, reply)
      → wyodrebnij reply nonce ≡ ok o
      → Wynik k (c ++ o ∷ []) r
      → Wynik ((t, g) ∷ k) c r
  unfolding tekst_kolejki
  dopisz t g w k c nonce o reply (err e) a q v = tt
  dopisz t g w k c nonce o reply (ok d) a q (fs, os, x, y, z) = (
    t ∷ fs,
    o ∷ os,
    ap (λ u. t ++ u) x,
    y ∙ append_assoc c (o ∷ []) os,
    nastepna t fs o os w nonce reply a q z,
  )

  abbrev po : {A : Type 0} → ℕ → f.F → Result String A → PoKawalku f A
  po w z r = record { wyslane = w; znak_na_tok = z; zwrot = r }

  petla_lem :
      (p w : ℕ) (k : List (Tekst × ℕ)) (z : f.F) (c : List String)
      → waga_kolejki k < p
      → (w' : ℕ) × (z' : f.F) × (r : Result String (List String)) × (petla f fmt i n wyslij prompt
            wyodrebnij p
            (stan w k z c)
          ≡ some (po w' z' r))
        × (w' ≤ w + waga_kolejki k)
        × Wynik k c r
  unfolding petla waga_kolejki tekst_kolejki
  petla_lem zero w k z c h = absurd (omega arith)
  petla_lem (suc p) w [] z c h =
      (w, z, ok c, refl, omega arith, ([], [], refl, sym (append-nil c), koniec))
  petla_lem (suc p) w ((t, g) ∷ k) z c h = elim (Result-cases (wyslij w (prompt t))) [
    | inr (e, a) ↦ (w + 1, z, err e, rw (a, petla) refl, omega (arith, waga_pos g), tt)
    | inl ((nonce, reply), a) ↦ elim (Option-cases (za_dlugi reply g)) [
      | inr (e, d) ↦
          let z1 = zaostrz f fmt i n wyslij prompt wyodrebnij e (prompt t) z in
          elim (Bool-cases (length t / 2 == 0)) [
            | inl q ↦ (
              w + 1,
              z1,
              err (nie_da_sie_podzielic f fmt i n wyslij prompt wyodrebnij e),
              rw (a, petla) (rw d (rw q refl)),
              omega (arith, waga_pos g),
              tt,
            )
            | inr q ↦
                let s = split_at (length t / 2) t in
                let (w', z', r, u, m, v) =
                  petla_lem p (w + 1) ((s.0, g - 1) ∷ (s.1, g - 1) ∷ k) z1 c
                    (waga_polowek g (waga_kolejki k) p (za_dlugi-some reply g e d) h) in
                (
                  w',
                  z',
                  r,
                  rw (a, petla) (rw d (rw q u)),
                  miejsce_polowek g w (waga_kolejki k) w' (za_dlugi-some reply g e d) m,
                  przenies ((s.0, g - 1) ∷ (s.1, g - 1) ∷ k) ((t, g) ∷ k) c r
                      (sym (append_assoc s.0 s.1 (tekst_kolejki k))
                        ∙ ap (λ x. x ++ tekst_kolejki k) (split_at-append (length t / 2) t))
                      v,
                )
          ]
      | inl d ↦ elim (Result-cases (wyodrebnij reply nonce)) [
        | inr (e, q) ↦
            (w + 1, z, err e, rw (a, petla) (rw d (rw q refl)), omega (arith, waga_pos g), tt)
        | inl (o, q) ↦
            let (w', z', r, u, m, v) =
              petla_lem p (w + 1) k z (c ++ o ∷ []) (omega (arith, waga_pos g)) in
            (
              w',
              z',
              r,
              rw (a, petla) (rw d (rw q u)),
              omega (arith, waga_pos g),
              dopisz t g w k c nonce o reply r a q v,
            )
      ]
    ]
  ]

  zakonczenie :
      (p w' : ℕ) (z z' : f.F) (kawalek : Tekst) (g : ℕ) (r : Result String (List String))
      → petla f fmt i n wyslij prompt wyodrebnij p (stan 0 ((kawalek, g) ∷ []) z [])
        ≡ some (po w' z' r)
      → Wynik ((kawalek, g) ∷ []) [] r
      → (q : Result String String) × (wyslij_kawalek_z_retry f fmt i n wyslij prompt wyodrebnij p z
            kawalek g
          ≡ some (po w' z' q))
        × ((s : String)
            → q ≡ ok s
            → (fs : List Tekst) × (os : List String) × (concat fs ≡ kawalek)
              × (s ≡ join_lines f fmt i n wyslij prompt wyodrebnij os)
              × Odpowiedzi fs os)
  unfolding wyslij_kawalek_z_retry tekst_kolejki
  zakonczenie p w' z z' kawalek g (err e) u v =
      (err e, rw (u, wyslij_kawalek_z_retry) refl, λ s q. absurd (err_ne_ok q))
  zakonczenie p w' z z' kawalek g (ok d) u (fs, os, x, y, o) = (
    ok (join_lines f fmt i n wyslij prompt wyodrebnij d),
    rw (u, wyslij_kawalek_z_retry) refl,
    λ s q. (
      fs,
      os,
      x ∙ append-nil kawalek,
      sym (ok-injective q) ∙ ap (join_lines f fmt i n wyslij prompt wyodrebnij) y,
      o,
    ),
  )

  -- The halving ends, whatever the node answers, after at most 2^(g+1) - 1 requests, for a chunk that may
  -- be halved g times over, and more fuel than that is enough; and where it gives a text, this is the lines
  -- of the outputs for fragments that, in order, make up the whole chunk, each taken from the answer to
  -- that fragment's own prompt.
  pub wyslij_kawalek_z_retry_lem :
      (p : ℕ) (z : f.F) (kawalek : Tekst) (g : ℕ)
      → waga g < p
      → (r : PoKawalku f String) × (wyslij_kawalek_z_retry f fmt i n wyslij prompt wyodrebnij p z
            kawalek g
          ≡ some r)
        × (suc r.wyslane ≤ 2 ^ suc g)
        × ((s : String)
            → r.zwrot ≡ ok s
            → (fs : List Tekst) × (os : List String) × (concat fs ≡ kawalek)
              × (s ≡ join_lines f fmt i n wyslij prompt wyodrebnij os)
              × Odpowiedzi fs os)
  unfolding waga_kolejki
  wyslij_kawalek_z_retry_lem p z kawalek g h =
      let (w, z', r, u, m, v) = petla_lem p 0 ((kawalek, g) ∷ []) z [] (omega arith) in
      let (q, e, o) = zakonczenie p w z z' kawalek g r u v in
      (po w z' q, e, omega (arith, waga_potega g), o)
