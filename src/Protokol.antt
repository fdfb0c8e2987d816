-- ===== src/Protokol.antt =====
-- crates/simon-core/src/protokol.rs: protection of the protocol against replay, floods and oversized
-- messages.
pub mod Replay
pub mod Window
pub mod Kubelek
mod Tests
use simon.Prelude.{
  ℕ, zero, ◌+◌, ◌-◌, ◌^◌, Bool, true, false, not, Option, none, some, List, [], ◌∷◌, if◌then◌else◌,
  ltb, leb, ◌==◌, Result, ok, err,
}

-- `1 << 20`
abbrev pub max_wiadomosc_bajtow : ℕ
max_wiadomosc_bajtow = 2 ^ 20

pub data BladProtokolu : Type 0 where
  nonce_powtorzony nonce_za_stary wiadomosc_za_duza rate_limit : BladProtokolu

-- `BTreeSet<u64>` as its elements in ascending order; `insert` keeps the order and, on an element
-- that is there already, changes nothing.
abbrev pub ZbiorNonce : Type 0
ZbiorNonce = List ℕ

abbrev pub contains : ℕ → ZbiorNonce → Bool
contains n [] = false
contains n (x ∷ xs) = if n == x then true else contains n xs

abbrev pub insert : ℕ → ZbiorNonce → ZbiorNonce
insert n [] = n ∷ []
insert n (x ∷ xs) = if ltb n x then n ∷ x ∷ xs else if n == x then x ∷ xs else x ∷ insert n xs

-- `retain(|n| *n > granica)`
abbrev pub retain_above : ℕ → ZbiorNonce → ZbiorNonce
retain_above granica [] = []
retain_above granica (x ∷ xs) =
    let rest = retain_above granica xs in if ltb granica x then x ∷ rest else rest

pub record OknoNonce : Type 0 where
  pub najwyzszy : Option ℕ
  pub okno : ℕ
  pub widziane : ZbiorNonce

-- `OknoNonce::nowy`
unfoldable pub nowe_okno : ℕ → OknoNonce
nowe_okno okno = record { najwyzszy = none; okno = okno; widziane = [] }

-- `nonce <= m.saturating_sub(self.okno)` for the greatest nonce `m`, if there is one
unfoldable pub za_stary : OknoNonce → ℕ → Bool
za_stary o nonce = elim o.najwyzszy [ none ↦ false | some m ↦ leb nonce (m - o.okno) ]

-- `if self.max.map(|m| nonce > m).unwrap_or(true) { self.max = Some(nonce); }`
unfoldable pub nowe_max : Option ℕ → ℕ → ℕ
nowe_max none nonce = nonce
nowe_max (some m) nonce = if ltb m nonce then nonce else m

unfoldable pub przyjmij : OknoNonce → ℕ → Result BladProtokolu (Unit {0}) × OknoNonce
unfolding za_stary nowe_max
przyjmij o nonce =
    if za_stary o nonce
    then (err nonce_za_stary, o)
    else if contains nonce o.widziane
    then (err nonce_powtorzony, o)
    else let m = nowe_max o.najwyzszy nonce in
      (
        ok tt,
        record o {
          najwyzszy = some m;
          widziane = retain_above (m - o.okno) (insert nonce o.widziane);
        },
      )

unfoldable pub sprawdz_rozmiar : ℕ → Result BladProtokolu (Unit {0})
sprawdz_rozmiar n = if ltb max_wiadomosc_bajtow n then err wiadomosc_za_duza else ok tt
