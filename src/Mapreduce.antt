-- ===== src/Mapreduce.antt =====
-- crates/simon-cli/src/mapreduce.rs: cutting a text into chunks and packing partial results into
-- groups within a budget. A text is the list of its characters' numbers.
pub mod Chunks
pub mod Groups
pub mod Estimate
mod Tests
use simon.Prelude.{
  ℕ, zero, suc, ◌+◌, ◌-◌, ◌/◌, max, Bool, true, false, not, ◌&&◌, ◌||◌, List, [], ◌∷◌, ◌++◌, ltb,
  leb, ◌==◌, if◌then◌else◌, length, is_empty,
}

abbrev pub Tekst : Type 0
Tekst = List ℕ

module _ {ℓ} {A : Type ℓ} where
  -- What is left of the current chunk, when it may take `k` more elements, and the later chunks.
  unfoldable pub chunks_from : ℕ → ℕ → List A → List A × List (List A)
  chunks_from n k [] = ([], [])
  chunks_from n zero (x ∷ xs) = let (c, cs) = chunks_from n (n - 1) xs in ([], (x ∷ c) ∷ cs)
  chunks_from n (suc k) (x ∷ xs) = let (c, cs) = chunks_from n k xs in (x ∷ c, cs)

  -- `slice::chunks(n)`, for n > 0
  unfoldable pub chunks : ℕ → List A → List (List A)
  unfolding chunks_from
  chunks n [] = []
  chunks n (x ∷ xs) = let (c, cs) = chunks_from n (n - 1) xs in (x ∷ c) ∷ cs

unfoldable pub podziel_na_kawalki : Tekst → ℕ → List Tekst
unfolding chunks
podziel_na_kawalki tekst budzet_znakow =
    if is_empty tekst || budzet_znakow == 0 then [] else chunks budzet_znakow tekst

-- `char::is_whitespace`: the Unicode property White_Space
unfoldable pub is_whitespace : ℕ → Bool
is_whitespace c =
    (leb 9 c && leb c 13)
    || c == 0x20
    || c == 0x85
    || c == 0xa0
    || c == 0x1680
    || (leb 0x2000 c && leb c 0x200a)
    || c == 0x2028
    || c == 0x2029
    || c == 0x202f
    || c == 0x205f
    || c == 0x3000

-- `split_whitespace().count()`; the flag says that the last character belonged to a word
unfoldable pub slowa_od : Bool → Tekst → ℕ
unfolding is_whitespace
slowa_od w_slowie [] = 0
slowa_od w_slowie (c ∷ cs) =
    let odstep = is_whitespace c in
    (if not w_slowie && not odstep then 1 else 0) + slowa_od (not odstep) cs

unfoldable pub oszacuj_tokeny : Tekst → ℕ
unfolding slowa_od
oszacuj_tokeny tekst =
    if is_empty tekst then 0 else max ((length tekst + 3) / 4) (slowa_od false tekst)

-- The loop of `grupuj_do_budzetu` and of `grupuj_do_budzetu_tokenow`, over the measure of an
-- element, with the variables `grupy`, `biezaca` and its measure so far.
module _ {ℓ} {A : Type ℓ} (miara : A → ℕ) (budzet : ℕ) where
  unfoldable pub grupuj_petla : List (List A) → List A → ℕ → List A → List (List A)
  grupuj_petla grupy biezaca dlugosc [] = if is_empty biezaca then grupy else grupy ++ biezaca ∷ []
  grupuj_petla grupy biezaca dlugosc (el ∷ elementy) =
      let pelna = not (is_empty biezaca) && ltb budzet (dlugosc + miara el) in
      grupuj_petla (if pelna then grupy ++ biezaca ∷ [] else grupy)
        ((if pelna then [] else biezaca) ++ el ∷ []) ((if pelna then 0 else dlugosc) + miara el)
        elementy

unfoldable pub grupuj_do_budzetu : List Tekst → ℕ → List (List Tekst)
unfolding grupuj_petla
grupuj_do_budzetu elementy budzet_znakow = grupuj_petla length budzet_znakow [] [] 0 elementy

unfoldable pub grupuj_do_budzetu_tokenow : List Tekst → ℕ → List (List Tekst)
unfolding grupuj_petla oszacuj_tokeny
grupuj_do_budzetu_tokenow elementy budzet_tokenow =
    grupuj_petla oszacuj_tokeny budzet_tokenow [] [] 0 elementy
