-- ===== src/Protokol/Window.antt =====
-- What the replay window of protokol.rs remembers: its invariant, and a bound on its memory.
use simon.Prelude.{
  ℕ, ◌+◌, ◌-◌, ◌≤◌, ◌<◌, ◌≡◌, inl, inr, refl, none, some, List, [], ◌∷◌, arith, ltb, length,
  Bool-cases, max, ltb→lt, Option-cases, ◌∙◌,
}
use simon.Protokol.{
  OknoNonce, ZbiorNonce, contains, insert, retain_above, nowe_okno, za_stary, nowe_max, przyjmij,
}
use simon.Protokol.Replay.{po_ciagu}

-- What the window remembers: distinct nonces in ascending order, between its edge and its maximum.
abbrev pub Rosnacy : ℕ → ℕ → ZbiorNonce → Type 0
Rosnacy od do_ [] = od ≤ do_
Rosnacy od do_ (x ∷ xs) = (od < x) × Rosnacy x do_ xs

pub record IsValid (o : OknoNonce) : Type 0 where
  pub puste : o.najwyzszy ≡ none → o.widziane ≡ []
  pub w_oknie : (m : ℕ) → o.najwyzszy ≡ some m → Rosnacy (m - o.okno) m o.widziane

length-Rosnacy : (od do_ : ℕ) (xs : ZbiorNonce) → Rosnacy od do_ xs → od + length xs ≤ do_
length-Rosnacy od do_ [] h = omega arith
length-Rosnacy od do_ (x ∷ xs) h = omega (arith, length-Rosnacy x do_ xs h.1)

Rosnacy-mono : (a b c d : ℕ) (xs : ZbiorNonce) → a ≤ b → c ≤ d → Rosnacy b c xs → Rosnacy a d xs
Rosnacy-mono a b c d [] p q h = omega arith
Rosnacy-mono a b c d (x ∷ xs) p q h = (omega arith, Rosnacy-mono x x c d xs (omega arith) q h.1)

insert-Rosnacy :
    (n od do_ : ℕ) (xs : ZbiorNonce)
    → od < n
    → n ≤ do_
    → Rosnacy od do_ xs
    → Rosnacy od do_ (insert n xs)
insert-Rosnacy n od do_ [] p q h = omega arith
insert-Rosnacy n od do_ (x ∷ xs) p q h = ground (arith, insert-Rosnacy n x do_ xs)

retain_above-Rosnacy :
    (g od do_ : ℕ) (xs : ZbiorNonce)
    → max od g ≤ do_
    → Rosnacy od do_ xs
    → Rosnacy (max od g) do_ (retain_above g xs)
retain_above-Rosnacy g od do_ [] p h = p
retain_above-Rosnacy g od do_ (x ∷ xs) p h =
    let k = length-Rosnacy x do_ xs h.1 in
    let rest = retain_above-Rosnacy g x do_ xs (omega arith) h.1 in
    elim (Bool-cases (ltb g x)) [
      | inl e ↦
          let l = ltb→lt g x e in
          rw e (omega arith, Rosnacy-mono x (max x g) do_ do_ _ (omega arith) (omega arith) rest)
      | inr e ↦
          let l : x ≤ g = ground arith in
          rw e (Rosnacy-mono (max od g) (max x g) do_ do_ _ (omega arith) (omega arith) rest)
    ]

-- A new window is valid, and every nonce keeps it so.
pub nowe_okno-IsValid : (w : ℕ) → IsValid (nowe_okno w)
unfolding nowe_okno
nowe_okno-IsValid w = record { puste = λ e. refl; w_oknie = λ m e. cc }

okno_po_wstawieniu :
    (w n m m' : ℕ) (xs : ZbiorNonce)
    → Rosnacy (m - w) m xs
    → m - w < n
    → m ≤ m'
    → n ≤ m'
    → Rosnacy (m' - w) m' (retain_above (m' - w) (insert n xs))
okno_po_wstawieniu w n m m' xs h p q r =
    Rosnacy-mono (m' - w) (max (m - w) (m' - w)) m' m' _ (omega arith) (omega arith) (
      retain_above-Rosnacy (m' - w) (m - w) m' (insert n xs) (omega arith) (
        insert-Rosnacy n (m - w) m' xs p r
          (Rosnacy-mono (m - w) (m - w) m m' xs (omega arith) q h)))

okno_pierwsze : (w n : ℕ) → Rosnacy (n - w) n (retain_above (n - w) (insert n []))
okno_pierwsze w n = ground arith

przyjmij_pusty : (o : OknoNonce) (n : ℕ) → IsValid o → o.najwyzszy ≡ none → IsValid (przyjmij o n).1
unfolding przyjmij
przyjmij_pusty o n v e =
    rw (e, przyjmij, v.puste e)
      (record { puste = λ q. cc; w_oknie = λ m q. ground (arith, okno_pierwsze o.okno n) })

przyjmij_pelny :
    (o : OknoNonce) (n m : ℕ) → IsValid o → o.najwyzszy ≡ some m → IsValid (przyjmij o n).1
unfolding przyjmij
przyjmij_pelny o n m v e = elim (Bool-cases (za_stary o n)) [
  | inl stary ↦ rw (stary, przyjmij) v
  | inr swiezy ↦ elim (Bool-cases (contains n o.widziane)) [
    | inl jest ↦ rw (swiezy, jest, przyjmij) v
    | inr nowy ↦
        let m' = nowe_max o.najwyzszy n in
        let w =
          okno_po_wstawieniu o.okno n m m' o.widziane (v.w_oknie m e) (ground arith) (ground arith)
            (ground arith) in
        rw (swiezy, nowy, przyjmij)
          (record { puste = λ q. cc; w_oknie = λ k q. let r : m' ≡ k = cc in rw (← r) w })
  ]
]

pub przyjmij-IsValid : (o : OknoNonce) (n : ℕ) → IsValid o → IsValid (przyjmij o n).1
przyjmij-IsValid o n v = elim (Option-cases o.najwyzszy) [
  | inl e ↦ przyjmij_pusty o n v e
  | inr (m, e) ↦ przyjmij_pelny o n m v e
]

po_ciagu-IsValid : (o : OknoNonce) (ns : List ℕ) → IsValid o → IsValid (po_ciagu o ns)
unfolding po_ciagu
po_ciagu-IsValid o [] v = v
po_ciagu-IsValid o (n ∷ ns) v = po_ciagu-IsValid (przyjmij o n).1 ns (przyjmij-IsValid o n v)

okno_stale : (o : OknoNonce) (ns : List ℕ) → (po_ciagu o ns).okno ≡ o.okno
unfolding po_ciagu przyjmij
okno_stale o [] = refl
okno_stale o (n ∷ ns) = okno_stale (przyjmij o n).1 ns ∙ ground arith

IsValid-pamiec : (o : OknoNonce) → IsValid o → length o.widziane ≤ o.okno
IsValid-pamiec o v = elim (Option-cases o.najwyzszy) [
  | inl e ↦ rw (v.puste e) (omega arith)
  | inr (m, e) ↦ omega (arith, length-Rosnacy (m - o.okno) m o.widziane (v.w_oknie m e))
]

-- Bounded memory: after any sequence of nonces, however long, a window of width `w` remembers at
-- most `w` of them.
pub pamiec_ograniczona : (w : ℕ) (ns : List ℕ) → length (po_ciagu (nowe_okno w) ns).widziane ≤ w
unfolding nowe_okno
pamiec_ograniczona w ns =
    let o = po_ciagu (nowe_okno w) ns in
    let v = po_ciagu-IsValid (nowe_okno w) ns (nowe_okno-IsValid w) in
    omega (arith, okno_stale (nowe_okno w) ns, IsValid-pamiec o v)
