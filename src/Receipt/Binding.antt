-- ===== src/Receipt/Binding.antt =====
-- What a digest of receipt.rs binds, without an assumption on the hash: two different contents have
-- different digests, or the two documents are a collision.
use simon.Prelude.{ℕ, ◌≡◌, ◌⊎◌, inl, inr, refl, List, [], ◌∷◌, String, ok, Bool-cases}
use native.Mathlib.Decide.{ℕ_discrete}
use simon.Prelude.Text.{str_eq, eq_iff, str_eq-false}
use simon.Kodowanie.{Dokument, Biblioteki, content_digest, Kolizja, liczby}
use simon.Receipt.{
  Receipt, zweryfikuj_m1, odcisk_promptu, lancuch_tokenow, prompt_dokument, lancuch_dokument,
}
use simon.Receipt.BindingGate.{zweryfikuj_m1-Wiaze}

pub String-discrete : Discrete String
String-discrete s t = elim (Bool-cases (str_eq s t)) [
  | inl e ↦ yes ((eq_iff s t).0 e)
  | inr e ↦ no (str_eq-false s t e)
]

Numbers-discrete : Discrete (List ℕ)
Numbers-discrete = hlevel ℕ_discrete

liczby_injective : (xs ys : List ℕ) → liczby xs ≡ liczby ys → xs ≡ ys
unfolding liczby
liczby_injective [] [] h = refl
liczby_injective [] (y ∷ ys) h = cc
liczby_injective (x ∷ xs) [] h = cc
liczby_injective (x ∷ xs) (y ∷ ys) h =
    let e : x ≡ y = cc in let t : liczby xs ≡ liczby ys = cc in cc (e, liczby_injective xs ys t)

prompt_dokument_tokens :
    (t n : String) (xs ys : List ℕ) → prompt_dokument t n xs ≡ prompt_dokument t n ys → xs ≡ ys
unfolding prompt_dokument
prompt_dokument_tokens t n xs ys h = liczby_injective xs ys (cc)

lancuch_dokument_tokens :
    (p : String) (xs ys : List ℕ) → lancuch_dokument p xs ≡ lancuch_dokument p ys → xs ≡ ys
unfolding lancuch_dokument
lancuch_dokument_tokens p xs ys h = liczby_injective xs ys (cc)

-- Either two lists of tokens are the same, or their documents, of one digest, collide.
rowne_lub-Kolizja :
    (b : Biblioteki) (f : List ℕ → Dokument) (xs ys : List ℕ)
    → (f xs ≡ f ys → xs ≡ ys)
    → content_digest b (f xs) ≡ content_digest b (f ys)
    → (xs ≡ ys) ⊎ Kolizja b (f xs) (f ys)
rowne_lub-Kolizja b f xs ys inj e = elim (Numbers-discrete xs ys) [
  | yes p ↦ inl p
  | no n ↦ inr (λ q. n (inj q), e)
]

-- One receipt cannot be passed off for two orders: if the M1 gate accepts it for two quadruples of
-- tokenizer, nonce, prompt tokens and output tokens, then the tokenizers and the nonces are the
-- same, and so are the prompts, or they give a collision of the digest, and likewise the outputs.
pub m1_jednoznaczny :
    (b : Biblioteki) (r : Receipt) (t t' n n' : String) (p p' o o' : List ℕ)
    → zweryfikuj_m1 b r t n p o ≡ ok tt
    → zweryfikuj_m1 b r t' n' p' o' ≡ ok tt
    → (t ≡ t')
      × (n ≡ n')
      × ((p ≡ p') ⊎ Kolizja b (prompt_dokument t n p) (prompt_dokument t n p'))
      × ((pd : String) × (odcisk_promptu b t n p ≡ ok pd)
          × ((o ≡ o') ⊎ Kolizja b (lancuch_dokument pd o) (lancuch_dokument pd o')))
unfolding odcisk_promptu lancuch_tokenow
m1_jednoznaczny b r t t' n n' p p' o o' h h' =
    let z = zweryfikuj_m1-Wiaze b r t n p o h in
    let z' = zweryfikuj_m1-Wiaze b r t' n' p' o' h' in
    let w : z.wiazanie ≡ z'.wiazanie = cc (z.jest, z'.jest) in
    let et : t ≡ t' = cc (w, z.tokenizer, z'.tokenizer) in
    let en : n ≡ n' = cc (w, z.nonce_klienta, z'.nonce_klienta) in
    let ep : content_digest b (prompt_dokument t n p) ≡ content_digest b (prompt_dokument t n p') =
      cc (w, et, en, z.prompt_zgodny, z'.prompt_zgodny) in
    let pd = z.wiazanie.prompt_digest in
    let eo : content_digest b (lancuch_dokument pd o) ≡ content_digest b (lancuch_dokument pd o') =
      cc (w, z.wyjscie_zgodne, z'.wyjscie_zgodne) in
    (
      et,
      en,
      rowne_lub-Kolizja b (prompt_dokument t n) p p' (prompt_dokument_tokens t n p p') ep,
      (
        pd,
        z.prompt_zgodny,
        rowne_lub-Kolizja b (lancuch_dokument pd) o o' (lancuch_dokument_tokens pd o o') eo,
      ),
    )
