-- ===== src/Protokol/Replay.antt =====
-- The replay window of protokol.rs over any sequence of nonces.
use simon.Prelude.{
  ℕ, ◌-◌, ◌≤◌, ◌<◌, ◌≡◌, ◌≢◌, ◌⊎◌, refl, true, false, none, some, List, [], ◌∷◌, arith, ltb, ◌==◌,
  if◌then◌else◌, ok, err, is_ok,
}
use simon.Protokol.{
  OknoNonce, ZbiorNonce, contains, insert, retain_above, nowe_max, przyjmij, nonce_za_stary,
}

-- The window after a sequence of nonces, whatever was answered.
unfoldable pub po_ciagu : OknoNonce → List ℕ → OknoNonce
po_ciagu o [] = o
po_ciagu o (n ∷ ns) = po_ciagu (przyjmij o n).1 ns

-- The lower edge of the window: every nonce up to it is too old.
abbrev pub granica : OknoNonce → ℕ
granica o = elim o.najwyzszy [ none ↦ 0 | some m ↦ m - o.okno ]

contains-insert :
    (n k : ℕ) (xs : ZbiorNonce)
    → contains k (insert n xs) ≡ (if k == n then true else contains k xs)
contains-insert n k [] = refl
contains-insert n k (x ∷ xs) = ground (arith, contains-insert n k xs)

contains-retain_above :
    (g k : ℕ) (xs : ZbiorNonce)
    → contains k (retain_above g xs) ≡ (if ltb g k then contains k xs else false)
contains-retain_above g k [] = ground arith
contains-retain_above g k (x ∷ xs) = ground (arith, contains-retain_above g k xs)

-- The nonce cannot be accepted again: it is remembered, or it lies below the window.
pub record Zuzyty (o : OknoNonce) (n : ℕ) : Type 0 where
  pub ma_max : o.najwyzszy ≢ none
  pub pamietany : (contains n o.widziane ≡ true) ⊎ (n ≤ granica o)

Zuzyty-odmowa : (o : OknoNonce) (n : ℕ) → Zuzyty o n → is_ok (przyjmij o n).0 ≡ false
unfolding przyjmij
Zuzyty-odmowa o n z = ground (arith, z.pamietany)

przyjety-Zuzyty :
    (o : OknoNonce) (n : ℕ) → is_ok (przyjmij o n).0 ≡ true → Zuzyty (przyjmij o n).1 n
unfolding przyjmij
przyjety-Zuzyty o n h =
    let m = nowe_max o.najwyzszy n in
    ground (
      arith,
      contains-retain_above (m - o.okno) n (insert n o.widziane),
      contains-insert n n o.widziane,
    )

przyjmij-Zuzyty : (o : OknoNonce) (n k : ℕ) → Zuzyty o n → Zuzyty (przyjmij o k).1 n
unfolding przyjmij
przyjmij-Zuzyty o n k z =
    let m = nowe_max o.najwyzszy k in
    ground (
      arith,
      z.pamietany,
      contains-retain_above (m - o.okno) n (insert k o.widziane),
      contains-insert k n o.widziane,
    )

po_ciagu-Zuzyty : (o : OknoNonce) (n : ℕ) (ns : List ℕ) → Zuzyty o n → Zuzyty (po_ciagu o ns) n
unfolding po_ciagu
po_ciagu-Zuzyty o n [] z = z
po_ciagu-Zuzyty o n (k ∷ ns) z = po_ciagu-Zuzyty (przyjmij o k).1 n ns (przyjmij-Zuzyty o n k z)

-- Anti-replay: a nonce that a window has accepted is refused for ever after, whatever nonces come
-- in between and however far the window moves.
pub bez_powtorki :
    (o : OknoNonce) (n : ℕ) (ns : List ℕ)
    → is_ok (przyjmij o n).0 ≡ true
    → is_ok (przyjmij (po_ciagu (przyjmij o n).1 ns) n).0 ≡ false
bez_powtorki o n ns h =
    let o' = (przyjmij o n).1 in
    Zuzyty-odmowa (po_ciagu o' ns) n (po_ciagu-Zuzyty o' n ns (przyjety-Zuzyty o n h))

-- Completeness: a nonce above the lower edge of the window that is not remembered is accepted, so
-- reordering inside the window loses no message.
pub w_oknie_przyjety :
    (o : OknoNonce) (n : ℕ)
    → granica o < n
    → contains n o.widziane ≡ false
    → (przyjmij o n).0 ≡ ok tt
unfolding przyjmij
w_oknie_przyjety o n p q = ground arith

-- Once a window has a greatest nonce, the nonce 0 is refused as too old, whatever the two are, so also
-- where the window reaches below 0: the lower edge saturates at 0.
pub zero_za_stary :
    (o : OknoNonce) (m : ℕ) → o.najwyzszy ≡ some m → (przyjmij o 0).0 ≡ err nonce_za_stary
unfolding przyjmij
zero_za_stary o m e = ground arith
