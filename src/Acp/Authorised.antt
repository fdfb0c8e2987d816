-- ===== src/Acp/Authorised.antt =====
-- What a server of crates/simon-harness/src/acp_server.rs publishes: only orders that were made from
-- requests which the gate let through.
use simon.Prelude.{
  ℕ, ◌+◌, ◌≡◌, inl, inr, refl, sym, ap, ◌∙◌, subst, List, [], ◌∷◌, String, some, Result, ok,
  Result-cases, All, All-append, none_ne_some, some-eq,
}
use simon.Prelude.Text.{as_bytes}
use simon.Prelude.Dict.{lookup, insert, lookup-insert-cases}
use simon.Kodowanie.{Biblioteki}
use simon.Klient.Zlecenie.{Format, JobOrder, order_dokument}
use simon.Acp
use simon.Acp.{
  AcpServer, AktywneZlecenie, Bramka, Odbiornik, Wiadomosc, nowy_serwer, rozglos, rozglos_petla,
}
use simon.Acp.Zadanie.{topic_job_order}
use simon.Acp.Complete.{zakoncz_iff}
use simon.Acp.Inversion.{
  Zamowione, Skutek, bez_zmian, przyjeto, zakonczono, obsluz_event-Skutek, przyjmij-eq-ok,
  nowy_wpis,
}
use simon.Acp.Steps.{Wywolanie, zdarzenie, wywolaj, przebieg, po_sukcesie}

module _ (b : Biblioteki) (fmt : Format) (bramka : Bramka) where
  -- A message that announces an order made from a request which passed the gate.
  pub record Rozgloszenie (m : Wiadomosc) : Type 0 where
    pub order : JobOrder
    pub zamowione : Zamowione b fmt bramka order
    pub topic : m.0 ≡ topic_job_order
    pub tekst : String
    pub zapis : b.to_string (order_dokument order) ≡ ok tekst
    pub bajty : m.1 ≡ as_bytes tekst

  -- Every order that is kept was made from a request which passed the gate, and stands under its id.
  pub record Uczciwy (s : AcpServer) : Type 0 where
    pub kolejka : All (Zamowione b fmt bramka) s.do_rozgloszenia
    pub wpisy :
        (k : String) (a : AktywneZlecenie)
        → lookup k s.aktywne ≡ some a
        → Zamowione b fmt bramka a.order × (a.order.order_id ≡ k)

  petla-Rozgloszenie :
      (wyslij : ℕ → Result String (Unit {0})) (n : ℕ) (os : List JobOrder)
      → All (Zamowione b fmt bramka) os
      → All Rozgloszenie (rozglos_petla b wyslij n os).0
  unfolding rozglos_petla
  petla-Rozgloszenie wyslij n [] h = tt
  petla-Rozgloszenie wyslij n (o ∷ os) (z, h) =
      elim (Result-cases (b.to_string (order_dokument o))) [
        | inr (x, e) ↦ rw (e, rozglos_petla) tt
        | inl (t, e) ↦ elim (Result-cases (wyslij n)) [
          | inr (x, f) ↦ rw (e, rozglos_petla) (rw f tt)
          | inl (x, f) ↦
              rw (e, rozglos_petla)
                (rw f (
                  record {
                    order = o;
                    zamowione = z;
                    topic = refl;
                    tekst = t;
                    zapis = e;
                    bajty = refl;
                  },
                  petla-Rozgloszenie wyslij (n + 1) os h,
                ))
        ]
      ]

  -- An entry that keeps its order keeps the invariant; so does a new order's.
  zapis-Uczciwy :
      (s s' : AcpServer) (j : String) (a : AktywneZlecenie)
      → Uczciwy s
      → s'.aktywne ≡ insert j a s.aktywne
      → All (Zamowione b fmt bramka) s'.do_rozgloszenia
      → Zamowione b fmt bramka a.order × (a.order.order_id ≡ j)
      → Uczciwy s'
  zapis-Uczciwy s s' j a u e q z = record {
    kolejka = q;
    wpisy = λ k c l. elim (lookup-insert-cases k j a s.aktywne) [
      | inl (p, m) ↦
          let r : a ≡ c = some-eq (sym m ∙ sym (ap (lookup k) e) ∙ l) in
          subst (λ x. Zamowione b fmt bramka x.order × (x.order.order_id ≡ k)) r (z.0, z.1 ∙ sym p)
      | inr (n, m) ↦ u.wpisy k c (sym m ∙ sym (ap (lookup k) e) ∙ l)
    ];
  }

  skutek-Uczciwy : (s s' : AcpServer) → Uczciwy s → Skutek b s s' → Uczciwy s'
  skutek-Uczciwy s s' u (bez_zmian e) = subst Uczciwy (sym e) u
  skutek-Uczciwy s s' u (przyjeto acc z a l g w e) =
      zapis-Uczciwy s s' acc.order_id _ u (ap (λ (x : AcpServer). x.aktywne) e)
        (subst (λ (x : AcpServer). All (Zamowione b fmt bramka) x.do_rozgloszenia) (sym e)
          u.kolejka)
        (u.wpisy acc.order_id a l)
  skutek-Uczciwy s s' u (zakonczono done a l e) =
      zapis-Uczciwy s s' done.order_id _ u (ap (λ (x : AcpServer). x.aktywne) e)
        (subst (λ (x : AcpServer). All (Zamowione b fmt bramka) x.do_rozgloszenia) (sym e)
          u.kolejka)
        (u.wpisy done.order_id a l)

  module _ (cz : Odbiornik) where
    wywolaj-Uczciwy :
        (s : AcpServer) (w : Wywolanie)
        → Uczciwy s
        → Uczciwy (wywolaj b fmt bramka cz s w).0 × All Rozgloszenie (wywolaj b fmt bramka cz s w).1
    unfolding wywolaj rozglos
    wywolaj-Uczciwy s (Wywolanie.przyjmij nonce z podpis) u =
        elim (Result-cases (Acp.przyjmij b fmt bramka nonce s z podpis)) [
          | inl ((s', id), e) ↦
              let (o, m, _, q) = przyjmij-eq-ok b fmt bramka nonce s s' z podpis id e in
              let k =
                All-append (Zamowione b fmt bramka) s.do_rozgloszenia (o ∷ []) u.kolejka (m, tt) in
              rw (e, po_sukcesie)
                (
                  zapis-Uczciwy s s' o.order_id (nowy_wpis o) u
                      (ap (λ (x : AcpServer). x.aktywne) q)
                      (subst (λ (x : AcpServer). All (Zamowione b fmt bramka) x.do_rozgloszenia)
                        (sym q) k)
                      (m, refl),
                  tt,
                )
          | inr (x, e) ↦ rw (e, po_sukcesie) (u, tt)
        ]
    wywolaj-Uczciwy s (Wywolanie.rozglos wyslij) u = (
      record { kolejka = tt; wpisy = u.wpisy },
      petla-Rozgloszenie wyslij 0 s.do_rozgloszenia u.kolejka,
    )
    wywolaj-Uczciwy s (zdarzenie ev) u = (skutek-Uczciwy s _ u (obsluz_event-Skutek b cz s ev), tt)
    wywolaj-Uczciwy s (Wywolanie.zakoncz c klucz t) u =
        elim (Result-cases (Acp.zakoncz b s c klucz t)) [
          | inl ((s', w), e) ↦
              let (a, l, _, (q, _)) = (zakoncz_iff b s s' c klucz t w).0 e in
              rw (e, po_sukcesie)
                (
                  zapis-Uczciwy s s' c.order_id _ u (ap (λ (x : AcpServer). x.aktywne) q)
                      (subst (λ (x : AcpServer). All (Zamowione b fmt bramka) x.do_rozgloszenia)
                        (sym q) u.kolejka)
                      (u.wpisy c.order_id a l),
                  tt,
                )
          | inr (x, e) ↦ rw (e, po_sukcesie) (u, tt)
        ]

    przebieg-Uczciwy :
        (s : AcpServer) (ws : List Wywolanie)
        → Uczciwy s
        → Uczciwy (przebieg b fmt bramka cz s ws).0
          × All Rozgloszenie (przebieg b fmt bramka cz s ws).1
    unfolding przebieg
    przebieg-Uczciwy s [] u = (u, tt)
    przebieg-Uczciwy s (w ∷ ws) u =
        let (v, p) = wywolaj-Uczciwy s w u in
        let (x, q) = przebieg-Uczciwy (wywolaj b fmt bramka cz s w).0 ws v in
        (x, All-append Rozgloszenie (wywolaj b fmt bramka cz s w).1 _ p q)

  -- D110: whatever calls a new server receives, every message that it publishes announces an order that
  -- was made, for a fee, from a request which passed the gate; and so was every order that it keeps,
  -- each under its own id.
  pub przebieg-Autoryzowany :
      (cz : Odbiornik) (ws : List Wywolanie)
      → Uczciwy (przebieg b fmt bramka cz nowy_serwer ws).0
        × All Rozgloszenie (przebieg b fmt bramka cz nowy_serwer ws).1
  unfolding nowy_serwer lookup
  przebieg-Autoryzowany cz ws =
      przebieg-Uczciwy cz nowy_serwer ws
        (record { kolejka = tt; wpisy = λ k a h. absurd (none_ne_some h) })
