-- ===== src/Acp/Phases.antt =====
-- The phases of an order in crates/simon-harness/src/acp_server.rs, and the state machine of
-- Acp/Steps.
use simon.Prelude.{
  ◌≡◌, ◌⊎◌, inl, inr, refl, sym, ◌∙◌, List, [], ◌∷◌, String, Option, none, some, Result-cases, ap,
  subst, ◌≢◌, ◌≤◌, arith, Bool-cases,
}
use simon.Prelude.Dict.{lookup, insert, lookup-insert-cases, lookup-insert}
use simon.Kodowanie.{Biblioteki}
use simon.Crypto.{PublicKey}
use simon.Klient.Zlecenie.{Format}
use simon.Klient.Wyscig.{OrderCompleted}
use simon.Acp
use simon.Acp.{
  AcpServer, AktywneZlecenie, Bramka, Odbiornik, obsluz_event, rozglos, faza, wynik_dotarl,
}
use simon.Acp.Zadanie.{FazaZlecenia, ZlecenieUzytkownika, wynik_dotarl}
use simon.Acp.Complete.{zakoncz_iff}
use simon.Acp.Inversion.{
  Skutek, bez_zmian, przyjeto, zakonczono, obsluz_event-Skutek, przyjmij-eq-ok, nowy_wpis,
}
use simon.Acp.Steps.{
  Wywolanie, zdarzenie, wywolaj, przebieg, po_sukcesie, Przejscie, nowe, przyjecie, wynik,
  pokazanie, Droga, tu, krok, etap, SwiezeId, Swieze, SwiezePrzebiegu,
}

-- No change, or one step.
Zmiana : Option FazaZlecenia → Option FazaZlecenia → Type 0
Zmiana f g = (g ≡ f) ⊎ Przejscie f g

faza_wpisu :
    (s : AcpServer) (k : String) (a : AktywneZlecenie)
    → lookup k s.aktywne ≡ some a
    → faza s k ≡ some a.faza
unfolding faza
faza_wpisu s k a l = rw (l, faza)

faza_bez_zmian :
    (s s' : AcpServer) (k : String)
    → lookup k s'.aktywne ≡ lookup k s.aktywne
    → faza s' k ≡ faza s k
unfolding faza
faza_bez_zmian s s' k l =
    ap
      (λ (o : Option AktywneZlecenie).
        let f : Option FazaZlecenia = elim o [ none ↦ none | some a ↦ some a.faza ] in f)
      l

-- Where one entry is written, the phase of every other order stays.
zapis-Zmiana :
    (s s' : AcpServer) (j k : String) (a : AktywneZlecenie)
    → s'.aktywne ≡ insert j a s.aktywne
    → (k ≡ j → faza s' j ≡ some a.faza → Przejscie (faza s j) (faza s' j))
    → Zmiana (faza s k) (faza s' k)
unfolding Zmiana
zapis-Zmiana s s' j k a e f = elim (lookup-insert-cases k j a s.aktywne) [
  | inl (q, l) ↦
      let p = f q (faza_wpisu s' j a (ap (lookup j) e ∙ lookup-insert j a s.aktywne)) in
      inr (subst (λ i. Przejscie (faza s i) (faza s' i)) (sym q) p)
  | inr (n, l) ↦ inl (faza_bez_zmian s s' k (ap (lookup k) e ∙ l))
]

droga_dalej : (f g h : Option FazaZlecenia) → Zmiana f g → Droga g h → Droga f h
unfolding Zmiana
droga_dalej f g h (inl e) (tu q) = tu (q ∙ e)
droga_dalej f g h (inr p) (tu q) = krok (tu refl) (subst (λ i. Przejscie f i) (sym q) p)
droga_dalej f g h z (krok {g = i} d p) = krok (droga_dalej f g i z d) p

-- An id that a new order takes is not active.
nieaktywne :
    (s : AcpServer) (k id j : String)
    → id ≡ j
    → k ≡ j
    → (id ≢ k) ⊎ (lookup k s.aktywne ≡ none)
    → faza s j ≡ none
unfolding faza
nieaktywne s k id j e q (inl n) = absurd (n (e ∙ sym q))
nieaktywne s k id j e q (inr l) =
    let m : lookup j s.aktywne ≡ none = subst (λ i. lookup i s.aktywne ≡ none) q l in
    rw (m, faza) refl

etap_max : (f : Option FazaZlecenia) → etap f ≤ 2
etap_max none = omega arith
etap_max (some x) = elim (Bool-cases (wynik_dotarl x)) [
  | inl e ↦ rw e (omega arith)
  | inr e ↦ rw e (omega arith)
]

Przejscie-etap : (f g : Option FazaZlecenia) → Przejscie f g → etap f ≤ etap g
unfolding wynik_dotarl
Przejscie-etap f g (nowe e _) = rw e (omega arith)
Przejscie-etap f g (przyjecie x j e w q) = rw e (rw q (rw w (omega arith)))
Przejscie-etap f g (wynik x _ q) = rw q (etap_max f)
Przejscie-etap f g (pokazanie x _ q) = rw q (etap_max f)

Droga-etap : (f g : Option FazaZlecenia) → Droga f g → etap f ≤ etap g
Droga-etap f g (tu q) = rw q (omega arith)
Droga-etap f g (krok {g = i} d p) =
    let x = Droga-etap f i d in let y = Przejscie-etap i g p in omega arith

module _ (b : Biblioteki) where
  skutek-Zmiana : (s s' : AcpServer) (k : String) → Skutek b s s' → Zmiana (faza s k) (faza s' k)
  unfolding Zmiana
  skutek-Zmiana s s' k (bez_zmian e) = inl (ap (λ (x : AcpServer). faza x k) e)
  skutek-Zmiana s s' k (przyjeto acc z a l g w e) =
      zapis-Zmiana s s' acc.order_id k _ (ap (λ (x : AcpServer). x.aktywne) e)
        (λ q f. przyjecie a.faza z.job_id (faza_wpisu s acc.order_id a l) g f)
  skutek-Zmiana s s' k (zakonczono done a l e) =
      zapis-Zmiana s s' done.order_id k _ (ap (λ (x : AcpServer). x.aktywne) e)
        (λ q f. wynik a.faza (faza_wpisu s done.order_id a l) f)

  przyjmij-Zmiana :
      (fmt : Format) (bramka : Bramka) (cz : Odbiornik) (nonce : String) (s : AcpServer)
      (z : ZlecenieUzytkownika) (podpis k : String)
      → SwiezeId b fmt bramka cz k s (Acp.przyjmij b fmt bramka nonce s z podpis)
      → Zmiana (faza s k) (faza (po_sukcesie s (Acp.przyjmij b fmt bramka nonce s z podpis)) k)
  unfolding Zmiana
  przyjmij-Zmiana fmt bramka cz nonce s z podpis k w =
      elim (Result-cases (Acp.przyjmij b fmt bramka nonce s z podpis)) [
        | inl ((s', id), e) ↦
            let (o, _, i, q) = przyjmij-eq-ok b fmt bramka nonce s s' z podpis id e in
            rw (e, po_sukcesie)
              (zapis-Zmiana s s' o.order_id k (nowy_wpis o) (ap (λ (x : AcpServer). x.aktywne) q)
                (λ j f. nowe (nieaktywne s k id o.order_id i j (rw e at w)) f))
        | inr (x, e) ↦ rw (e, po_sukcesie) (inl refl)
      ]

  zakoncz-Zmiana :
      (s : AcpServer) (c : OrderCompleted) (klucz : PublicKey) (t k : String)
      → Zmiana (faza s k) (faza (po_sukcesie s (Acp.zakoncz b s c klucz t)) k)
  unfolding Zmiana
  zakoncz-Zmiana s c klucz t k = elim (Result-cases (Acp.zakoncz b s c klucz t)) [
    | inl ((s', w), e) ↦
        let (a, l, _, (q, _)) = (zakoncz_iff b s s' c klucz t w).0 e in
        rw (e, po_sukcesie)
          (zapis-Zmiana s s' c.order_id k _ (ap (λ (x : AcpServer). x.aktywne) q)
            (λ q f. pokazanie a.faza (faza_wpisu s c.order_id a l) f))
    | inr (x, e) ↦ rw (e, po_sukcesie) (inl refl)
  ]

  module _ (fmt : Format) (bramka : Bramka) (cz : Odbiornik) where
    wywolaj-Zmiana :
        (s : AcpServer) (w : Wywolanie) (k : String)
        → Swieze b fmt bramka cz k s w
        → Zmiana (faza s k) (faza (wywolaj b fmt bramka cz s w).0 k)
    unfolding wywolaj rozglos faza Zmiana
    wywolaj-Zmiana s (Wywolanie.przyjmij nonce z podpis) k n =
        przyjmij-Zmiana fmt bramka cz nonce s z podpis k n
    wywolaj-Zmiana s (Wywolanie.rozglos wyslij) k n = inl refl
    wywolaj-Zmiana s (zdarzenie ev) k n = skutek-Zmiana s _ k (obsluz_event-Skutek b cz s ev)
    wywolaj-Zmiana s (Wywolanie.zakoncz c klucz t) k n = zakoncz-Zmiana s c klucz t k

    sciezka :
        (s : AcpServer) (ws : List Wywolanie) (k : String)
        → SwiezePrzebiegu b fmt bramka cz k s ws
        → Droga (faza s k) (faza (przebieg b fmt bramka cz s ws).0 k)
    unfolding przebieg SwiezePrzebiegu
    sciezka s [] k n = tu refl
    sciezka s (w ∷ ws) k n =
        droga_dalej _ _ _ (wywolaj-Zmiana s w k n.0)
          (sciezka (wywolaj b fmt bramka cz s w).0 ws k n.1)

    -- Over any run in which no new order takes the id of an order while that is active, the order's phase
    -- moves along the state machine `Przejscie`: from first to last it is a path of its steps. And it does
    -- not go back: an order that is active stays so, and one for which a result has come, being checked or
    -- shown, is never announced or accepted by a coordinator again.
    pub przebieg-Droga :
        (s : AcpServer) (ws : List Wywolanie) (k : String)
        → SwiezePrzebiegu b fmt bramka cz k s ws
        → Droga (faza s k) (faza (przebieg b fmt bramka cz s ws).0 k)
          × (etap (faza s k) ≤ etap (faza (przebieg b fmt bramka cz s ws).0 k))
    przebieg-Droga s ws k n = let d = sciezka s ws k n in (d, Droga-etap _ _ d)
