-- ===== src/Mapreduce/Chunks.antt =====
-- `podziel_na_kawalki` of mapreduce.rs cuts a text and loses nothing.
use simon.Prelude.{
  ◌==◌, ℕ, zero, suc, ◌-◌, ◌≤◌, ◌<◌, ◌≡◌, refl, ap, false, List, [], ◌∷◌, ◌++◌, arith, length,
  concat,
}
use simon.Mapreduce.{Tekst, chunks_from, chunks, podziel_na_kawalki}

concat-chunks_from {ℓ} :
    {A : Type ℓ} (n k : ℕ) (xs : List A) → let (c, cs) = chunks_from n k xs in c ++ concat cs ≡ xs
unfolding chunks_from
concat-chunks_from n k [] = refl
concat-chunks_from n zero (x ∷ xs) = ap (◌∷◌ x) (concat-chunks_from n (n - 1) xs)
concat-chunks_from n (suc k) (x ∷ xs) = ap (◌∷◌ x) (concat-chunks_from n k xs)

-- Every chunk but the last has exactly `n` elements, and the last has between 1 and `n`.
abbrev pub PelneKawalki {ℓ} : {A : Type ℓ} → ℕ → List (List A) → Type 0
PelneKawalki n [] = Unit
PelneKawalki n (c ∷ []) = (0 < length c) × (length c ≤ n)
PelneKawalki n (c ∷ d ∷ ds) = (length c ≡ n) × PelneKawalki n (d ∷ ds)

-- The current chunk, which may take `k` more elements, and the chunks after it.
abbrev Dalej {ℓ} : {A : Type ℓ} → ℕ → ℕ → List A → List (List A) → Type 0
Dalej n k c [] = length c ≤ k
Dalej n k c (d ∷ ds) = (length c ≡ k) × PelneKawalki n (d ∷ ds)

Dalej-cons {ℓ} :
    {A : Type ℓ} (n k : ℕ) (x : A) (c : List A) (cs : List (List A))
    → Dalej n k c cs
    → Dalej n (suc k) (x ∷ c) cs
Dalej-cons n k x c [] h = omega arith
Dalej-cons n k x c (d ∷ ds) h = (omega arith, h.1)

Dalej-PelneKawalki {ℓ} :
    {A : Type ℓ} (n : ℕ) (x : A) (c : List A) (cs : List (List A))
    → 0 < n
    → Dalej n (n - 1) c cs
    → PelneKawalki n ((x ∷ c) ∷ cs)
Dalej-PelneKawalki n x c [] p h = (omega arith, omega arith)
Dalej-PelneKawalki n x c (d ∷ ds) p h = (omega arith, h.1)

chunks_from-Dalej {ℓ} :
    {A : Type ℓ} (n k : ℕ) (xs : List A)
    → 0 < n
    → let (c, cs) = chunks_from n k xs in Dalej n k c cs
unfolding chunks_from
chunks_from-Dalej n k [] p = omega arith
chunks_from-Dalej n zero (x ∷ xs) p =
    (refl, Dalej-PelneKawalki n x _ _ p (chunks_from-Dalej n (n - 1) xs p))
chunks_from-Dalej n (suc k) (x ∷ xs) p = Dalej-cons n k x _ _ (chunks_from-Dalej n k xs p)

chunks_lem {ℓ} :
    {A : Type ℓ} (n : ℕ) (xs : List A)
    → 0 < n
    → (concat (chunks n xs) ≡ xs) × PelneKawalki n (chunks n xs)
unfolding chunks
chunks_lem n [] p = (refl, tt)
chunks_lem n (x ∷ xs) p = (
  ap (◌∷◌ x) (concat-chunks_from n (n - 1) xs),
  Dalej-PelneKawalki n x _ _ p (chunks_from-Dalej n (n - 1) xs p),
)

-- With a positive budget the chunks, put together, are the text; each but the last has exactly the
-- budget's number of characters, and the last at least one and no more than the budget.
pub podziel_bezstratnie :
    (tekst : Tekst) (budzet : ℕ)
    → 0 < budzet
    → (concat (podziel_na_kawalki tekst budzet) ≡ tekst)
      × PelneKawalki budzet (podziel_na_kawalki tekst budzet)
unfolding podziel_na_kawalki chunks
podziel_bezstratnie [] budzet p = (refl, tt)
podziel_bezstratnie (x ∷ xs) (suc b) p =
    let e : (suc b == 0) ≡ false = ground arith in rw e (chunks_lem (suc b) (x ∷ xs) p)
podziel_bezstratnie (x ∷ xs) zero p = absurd (omega arith)
