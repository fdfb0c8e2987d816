-- ===== src/Limity/Bounds.antt =====
-- What the limits of limity.rs guarantee over any sequence of calls.
use simon.Prelude.{
  ℕ, ◌+◌, ◌≤◌, ◌<◌, ◌≡◌, ◌≢◌, refl, true, false, List, [], ◌∷◌, arith, Result, ok, err, inl, inr,
  ◌⊎◌, ◌∙◌, All,
}
use simon.Prelude.Words.{u32_max}
use simon.Limity.{
  Limity, Budzet, anulowane, tokeny, nowy, anuluj, sprawdz, dodaj_tokeny, dodaj_bajty,
  krok_narzedzia, zuzycie,
}
use simon.Limity.Trace.{
  Wywolanie, cancel, check, add_tokens, add_bytes, tool_step, wykonaj, przebieg,
  do_pierwszej_odmowy, suma_tokenow, suma_bajtow, suma_krokow, NaCzas, LimitySkonczone, WGranicach,
}

-- A cancelled budget stays as it is, whatever is called.
wykonaj_anulowane : (b : Budzet) (w : Wywolanie) → b.czy_anulowane ≡ true → (wykonaj b w).1 ≡ b
unfolding wykonaj anuluj dodaj_tokeny dodaj_bajty krok_narzedzia
wykonaj_anulowane b cancel h = ground arith
wykonaj_anulowane b (check t) h = refl
wykonaj_anulowane b (add_tokens n t) h = ground arith
wykonaj_anulowane b (add_bytes n t) h = ground arith
wykonaj_anulowane b (tool_step t) h = ground arith

odpowiedz_anulowane :
    (b : Budzet) (w : Wywolanie)
    → b.czy_anulowane ≡ true
    → w ≢ cancel
    → (wykonaj b w).0 ≡ err anulowane
unfolding wykonaj sprawdz dodaj_tokeny dodaj_bajty krok_narzedzia
odpowiedz_anulowane b cancel h ne = absurd (ne refl)
odpowiedz_anulowane b (check t) h ne = ground arith
odpowiedz_anulowane b (add_tokens n t) h ne = ground arith
odpowiedz_anulowane b (add_bytes n t) h ne = ground arith
odpowiedz_anulowane b (tool_step t) h ne = ground arith

przebieg_anulowane : (b : Budzet) (ws : List Wywolanie) → b.czy_anulowane ≡ true → przebieg b ws ≡ b
unfolding przebieg
przebieg_anulowane b [] h = refl
przebieg_anulowane b (w ∷ ws) h = rw (wykonaj_anulowane b w h) (przebieg_anulowane b ws h)

-- After `anuluj`, and after any calls that follow it, every call but a further `anuluj` is refused
-- with `anulowane`, and what the order had used stays as it was.
pub anuluj_wygrywa :
    (b : Budzet) (ws : List Wywolanie) (w : Wywolanie)
    → w ≢ cancel
    → let (odp, b') = wykonaj (przebieg (anuluj b) ws) w in
      (odp ≡ err anulowane) × (zuzycie b' ≡ zuzycie b)
unfolding anuluj zuzycie
anuluj_wygrywa b ws w ne =
    rw (przebieg_anulowane (anuluj b) ws refl)
      (odpowiedz_anulowane (anuluj b) w refl ne, rw (wykonaj_anulowane (anuluj b) w refl))

-- What one accepted call does to the counters.
record Krok (b b' : Budzet) (w : Wywolanie) : Type 0 where
  limity : b'.limity ≡ b.limity
  start : b'.start_us ≡ b.start_us
  tokenow : b'.uzyte_tokeny ≡ b.uzyte_tokeny + suma_tokenow (w ∷ [])
  bajtow : b'.uzyte_bajty ≡ b.uzyte_bajty + suma_bajtow (w ∷ [])
  krokow : b'.kroki ≡ b.kroki + suma_krokow (w ∷ [])
  granice : WGranicach b'

Krok-ok :
    (b : Budzet) (w : Wywolanie)
    → LimitySkonczone b.limity
    → WGranicach b
    → (wykonaj b w).0 ≡ ok tt
    → Krok b (wykonaj b w).1 w
unfolding wykonaj sprawdz anuluj dodaj_tokeny dodaj_bajty krok_narzedzia
Krok-ok b cancel f g h = ground arith
Krok-ok b (check t) f g h = ground arith
Krok-ok b (add_tokens n t) f g h = ground arith
Krok-ok b (add_bytes n t) f g h = ground arith
Krok-ok b (tool_step t) f g h = ground arith

Result-cases {ℓ} : {E : Type ℓ} (r : Result E (Unit {0})) → (r ≡ ok tt) ⊎ ((e : E) × (r ≡ err e))
Result-cases (ok _) = inl refl
Result-cases (err e) = inr (e, refl)

suma_tokenow-cons :
    (w : Wywolanie) (ws : List Wywolanie)
    → suma_tokenow (w ∷ ws) ≡ suma_tokenow (w ∷ []) + suma_tokenow ws
suma_tokenow-cons (add_tokens n t) ws = omega arith
suma_tokenow-cons _ ws = omega arith

suma_bajtow-cons :
    (w : Wywolanie) (ws : List Wywolanie)
    → suma_bajtow (w ∷ ws) ≡ suma_bajtow (w ∷ []) + suma_bajtow ws
suma_bajtow-cons (add_bytes n t) ws = omega arith
suma_bajtow-cons _ ws = omega arith

suma_krokow-cons :
    (w : Wywolanie) (ws : List Wywolanie)
    → suma_krokow (w ∷ ws) ≡ suma_krokow (w ∷ []) + suma_krokow ws
suma_krokow-cons (tool_step t) ws = omega arith
suma_krokow-cons _ ws = omega arith

bilans :
    (b : Budzet) (ws : List Wywolanie) (b' : Budzet)
    → LimitySkonczone b.limity
    → WGranicach b
    → do_pierwszej_odmowy b ws ≡ ok b'
    → (b'.uzyte_tokeny ≡ b.uzyte_tokeny + suma_tokenow ws)
      × (b'.uzyte_bajty ≡ b.uzyte_bajty + suma_bajtow ws)
      × (b'.kroki ≡ b.kroki + suma_krokow ws)
      × (b'.limity ≡ b.limity)
      × WGranicach b'
unfolding do_pierwszej_odmowy
bilans b [] b' f g h = ground arith
bilans b (w ∷ ws) b' f g h = elim (Result-cases (wykonaj b w).0) [
  | inl e ↦
      let k = Krok-ok b w f g e in
      let rest =
        bilans (wykonaj b w).1 ws b' (rw k.limity f) k.granice (rw (e, do_pierwszej_odmowy) at h) in
      (
        rest.0 ∙ omega (arith, k.tokenow, suma_tokenow-cons w ws),
        rest.1 ∙ omega (arith, k.bajtow, suma_bajtow-cons w ws),
        rest.2 ∙ omega (arith, k.krokow, suma_krokow-cons w ws),
        rest.3 ∙ k.limity,
        rest.4,
      )
  | inr (e, q) ↦ cc (rw q at h)
]

-- If no call of an order was refused, then what was asked for in all is within each limit, and the
-- counters hold it exactly: saturation has hidden nothing. The limits are below the greatest values
-- of their machine types.
pub nowy_bez_odmowy :
    (l : Limity) (t : ℕ) (ws : List Wywolanie) (b' : Budzet)
    → LimitySkonczone l
    → do_pierwszej_odmowy (nowy l t) ws ≡ ok b'
    → (zuzycie b' ≡ (suma_tokenow ws, suma_bajtow ws, suma_krokow ws))
      × (suma_tokenow ws ≤ l.max_tokenow)
      × (suma_bajtow ws ≤ l.max_bajtow)
      × (suma_krokow ws ≤ l.max_krokow_narzedzi)
unfolding nowy zuzycie
nowy_bez_odmowy l t ws b' f h =
    let k = bilans (nowy l t) ws b' f (ground arith) h in
    (ground (arith, k), ground (arith, k), ground (arith, k), ground (arith, k))

-- What is left of each limit covers what the calls ask for.
record Zapas (b : Budzet) (kres : ℕ) (ws : List Wywolanie) : Type 0 where
  czynny : b.czy_anulowane ≡ false
  termin : b.start_us + b.limity.deadline_us ≡ kres
  tokenow : b.uzyte_tokeny + suma_tokenow ws ≤ b.limity.max_tokenow
  bajtow : b.uzyte_bajty + suma_bajtow ws ≤ b.limity.max_bajtow
  krokow : b.kroki + suma_krokow ws ≤ b.limity.max_krokow_narzedzi

krok_przyjety :
    (b : Budzet) (kres : ℕ) (w : Wywolanie) (ws : List Wywolanie)
    → NaCzas kres w
    → Zapas b kres (w ∷ ws)
    → ((wykonaj b w).0 ≡ ok tt) × Zapas (wykonaj b w).1 kres ws
unfolding wykonaj sprawdz dodaj_tokeny dodaj_bajty krok_narzedzia
krok_przyjety b kres cancel ws z p = absurd z
krok_przyjety b kres (check t) ws z p = ground arith
krok_przyjety b kres (add_tokens n t) ws z p = ground arith
krok_przyjety b kres (add_bytes n t) ws z p = ground arith
krok_przyjety b kres (tool_step t) ws z p = ground arith

wszystko_przyjete :
    (b : Budzet) (kres : ℕ) (ws : List Wywolanie)
    → All (NaCzas kres) ws
    → Zapas b kres ws
    → (b' : Budzet) × (do_pierwszej_odmowy b ws ≡ ok b')
unfolding do_pierwszej_odmowy
wszystko_przyjete b kres [] z p = (b, refl)
wszystko_przyjete b kres (w ∷ ws) z p =
    let (e, q) = krok_przyjety b kres w ws z.0 p in
    let (b', r) = wszystko_przyjete (wykonaj b w).1 kres ws z.1 q in
    (b', rw (e, do_pierwszej_odmowy) r)

-- The converse: calls that come by the deadline, none of them a cancellation, that together ask for
-- no more than each limit, are all accepted.
pub nowy_wszystko_przyjete :
    (l : Limity) (t : ℕ) (ws : List Wywolanie)
    → All (NaCzas (t + l.deadline_us)) ws
    → suma_tokenow ws ≤ l.max_tokenow
    → suma_bajtow ws ≤ l.max_bajtow
    → suma_krokow ws ≤ l.max_krokow_narzedzi
    → (b' : Budzet) × (do_pierwszej_odmowy (nowy l t) ws ≡ ok b')
unfolding nowy
nowy_wszystko_przyjete l t ws z p q r =
    wszystko_przyjete (nowy l t) (t + l.deadline_us) ws z (record {
      czynny = refl;
      termin = refl;
      tokenow = omega arith;
      bajtow = omega arith;
      krokow = omega arith;
    })

record Wyczerpane (b : Budzet) : Type 0 where
  ponad : b.limity.max_tokenow < b.uzyte_tokeny
  skonczony : b.limity.max_tokenow < u32_max

wykonaj-Wyczerpane : (b : Budzet) (w : Wywolanie) → Wyczerpane b → Wyczerpane (wykonaj b w).1
unfolding wykonaj sprawdz anuluj dodaj_tokeny dodaj_bajty krok_narzedzia
wykonaj-Wyczerpane b cancel p = ground arith
wykonaj-Wyczerpane b (check t) p = ground arith
wykonaj-Wyczerpane b (add_tokens n t) p = ground arith
wykonaj-Wyczerpane b (add_bytes n t) p = ground arith
wykonaj-Wyczerpane b (tool_step t) p = ground arith

przebieg-Wyczerpane : (b : Budzet) (ws : List Wywolanie) → Wyczerpane b → Wyczerpane (przebieg b ws)
unfolding przebieg
przebieg-Wyczerpane b [] p = p
przebieg-Wyczerpane b (w ∷ ws) p = przebieg-Wyczerpane (wykonaj b w).1 ws (wykonaj-Wyczerpane b w p)

Wyczerpane-odmowa : (b : Budzet) (m s : ℕ) → Wyczerpane b → (dodaj_tokeny b m s).0 ≢ ok tt
unfolding dodaj_tokeny
Wyczerpane-odmowa b m s p = ground arith

dodaj_tokeny-Wyczerpane :
    (b : Budzet) (n t : ℕ) → (dodaj_tokeny b n t).0 ≡ err tokeny → Wyczerpane (dodaj_tokeny b n t).1
unfolding dodaj_tokeny
dodaj_tokeny-Wyczerpane b n t h = ground arith

-- Once the tokens of an order have passed the limit, every later request for tokens is refused,
-- whatever is called in between.
pub tokeny_wyczerpane :
    (b : Budzet) (n t : ℕ) (ws : List Wywolanie) (m s : ℕ)
    → (dodaj_tokeny b n t).0 ≡ err tokeny
    → (dodaj_tokeny (przebieg (dodaj_tokeny b n t).1 ws) m s).0 ≢ ok tt
tokeny_wyczerpane b n t ws m s h =
    Wyczerpane-odmowa (przebieg (dodaj_tokeny b n t).1 ws) m s
      (przebieg-Wyczerpane (dodaj_tokeny b n t).1 ws (dodaj_tokeny-Wyczerpane b n t h))
