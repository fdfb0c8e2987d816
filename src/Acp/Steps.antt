-- ===== src/Acp/Steps.antt =====
-- The calls that a server of crates/simon-harness/src/acp_server.rs receives, and what a run of them
-- publishes; and the phases of an order, as a state machine of its own.
use simon.Prelude.{
  if◌then◌else◌, ℕ, ◌≡◌, List, [], ◌∷◌, ◌++◌, String, Option, some, Result, ok, err, false, ◌≢◌,
  ◌⊎◌,
}
use simon.Kodowanie.{Biblioteki}
use simon.Crypto.{PublicKey}
use simon.Klient.Zlecenie.{Format}
use simon.Klient.Wyscig.{OrderCompleted}
use simon.Acp
use simon.Acp.{AcpServer, Bramka, Odbiornik, Wiadomosc, obsluz_event, SimonError, none, lookup}
use simon.Acp.Zadanie.{
  FazaZlecenia, rozgloszone, przyjete, weryfikacja, gotowe, wynik_dotarl, SimonEvent,
  ZlecenieUzytkownika,
}

-- A call of the server, with what it draws or waits for: the nonce of a new order, and the outcomes of
-- the publications.
pub data Wywolanie : Type 0 where
  przyjmij : String → ZlecenieUzytkownika → String → Wywolanie
  rozglos : (ℕ → Result String (Unit {0})) → Wywolanie
  zdarzenie : SimonEvent → Wywolanie
  zakoncz : OrderCompleted → PublicKey → String → Wywolanie

-- The state after a call that returns it on success, and leaves it on an error.
abbrev pub po_sukcesie {ℓ κ} :
    {E : Type ℓ} {A : Type κ} → AcpServer → Result E (AcpServer × A) → AcpServer
po_sukcesie s (ok p) = p.0
po_sukcesie s (err e) = s

module _ (b : Biblioteki) (fmt : Format) (bramka : Bramka) (cz : Odbiornik) where
  -- One call: the state after it, and what it published.
  unfoldable pub wywolaj : AcpServer → Wywolanie → AcpServer × List Wiadomosc
  wywolaj s (Wywolanie.przyjmij nonce z podpis) =
      (po_sukcesie s (Acp.przyjmij b fmt bramka nonce s z podpis), [])
  wywolaj s (Wywolanie.rozglos wyslij) = let r = Acp.rozglos b wyslij s in (r.0, r.1)
  wywolaj s (zdarzenie ev) = ((obsluz_event b cz s ev).0, [])
  wywolaj s (Wywolanie.zakoncz c k t) = (po_sukcesie s (Acp.zakoncz b s c k t), [])

  -- A run, with everything that it published, in order.
  unfoldable pub przebieg : AcpServer → List Wywolanie → AcpServer × List Wiadomosc
  unfolding wywolaj
  przebieg s [] = (s, [])
  przebieg s (w ∷ ws) =
      let r = wywolaj s w in let dalej = przebieg r.0 ws in (dalej.0, r.1 ++ dalej.1)

  -- What a new order finds, if it is `k`: no order of that id is active. An id is the digest of the order
  -- with its nonce.
  abbrev pub SwiezeId : String → AcpServer → Result SimonError (AcpServer × String) → Type 0
  SwiezeId k s (ok p) = (p.1 ≢ k) ⊎ (lookup k s.aktywne ≡ none)
  SwiezeId k s (err e) = Unit

  abbrev pub Swieze : String → AcpServer → Wywolanie → Type 0
  Swieze k s (Wywolanie.przyjmij nonce z podpis) =
      SwiezeId k s (Acp.przyjmij b fmt bramka nonce s z podpis)
  Swieze k s (Wywolanie.rozglos wyslij) = Unit
  Swieze k s (zdarzenie ev) = Unit
  Swieze k s (Wywolanie.zakoncz c klucz t) = Unit

  -- In no call of the run is `k` given to a new order while it is active.
  unfoldable pub SwiezePrzebiegu : String → AcpServer → List Wywolanie → Type 0
  SwiezePrzebiegu k s [] = Unit
  SwiezePrzebiegu k s (w ∷ ws) = Swieze k s w × SwiezePrzebiegu k (wywolaj s w).0 ws

-- The phases as the user may see them: an order that is not active is announced; while no result has come,
-- coordinators accept it; a result comes, perhaps again; and a result is shown.
pub data Przejscie (f : Option FazaZlecenia) (g : Option FazaZlecenia) : Type 0 where
  nowe : f ≡ none → g ≡ some rozgloszone → Przejscie f g
  przyjecie :
      (x : FazaZlecenia) (j : String)
      → f ≡ some x
      → wynik_dotarl x ≡ false
      → g ≡ some (przyjete j)
      → Przejscie f g
  wynik : (x : FazaZlecenia) → f ≡ some x → g ≡ some weryfikacja → Przejscie f g
  pokazanie : (x : FazaZlecenia) → f ≡ some x → g ≡ some gotowe → Przejscie f g

-- The reflexive and transitive closure.
pub data Droga (f : Option FazaZlecenia) : Option FazaZlecenia → Type 0 where
  tu : {g : Option FazaZlecenia} → g ≡ f → Droga f g
  krok : {g h : Option FazaZlecenia} → Droga f g → Przejscie g h → Droga f h

-- How far an order is: not active, active without a result, or with one.
abbrev pub etap : Option FazaZlecenia → ℕ
etap none = 0
etap (some x) = if wynik_dotarl x then 2 else 1
