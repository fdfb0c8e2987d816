-- ===== src/Wezel/Model.antt =====
-- crates/simon-cli/src/node.rs and wspolne.rs: what a node reads from the JSON of its backend: its own model,
-- and the tokens of a text.
pub mod Own
use simon.Prelude.{
  ℕ, ◌%◌, ◌^◌, Bool, true, false, not, ◌&&◌, ◌||◌, List, [], ◌∷◌, String, Option, none, some,
  if◌then◌else◌, ltb, leb, ◌==◌, suc,
}
use simon.Prelude.Text.{str_eq}
use simon.Prelude.Words.{u32_max}
use simon.Kodowanie.{Dokument, Elementy, null, seq, nil, cons, get, as_str, as_u64}

-- `v[k]`, which is `Null` where there is no such key
abbrev pub indeks : Dokument → String → Dokument
indeks v k = elim (get v k) [ some d ↦ d | none ↦ null ]

-- `v[0]`
abbrev pub pierwszy : Dokument → Dokument
pierwszy (seq (cons d ds)) = d
pierwszy _ = null

abbrev pub as_array : Dokument → Option Elementy
as_array (seq e) = some e
as_array _ = none

abbrev pub ile : Elementy → ℕ
ile nil = 0
ile (cons d ds) = suc (ile ds)

-- `unwrap_or`
abbrev pub unwrap_or : {A : Type 0} → Option A → A → A
unwrap_or none a = a
unwrap_or (some x) a = x

abbrev pub o_id : String → Dokument → Bool
o_id cel m = elim (as_str (indeks m "id")) [ some s ↦ str_eq s cel | none ↦ false ]

abbrev pub find : (Dokument → Bool) → List Dokument → Option Dokument
find p [] = none
find p (m ∷ ms) = if p m then some m else find p ms

-- `wpis` of `wybierz_wpis`
unfoldable pub wpis : List Dokument → Option String → Option Dokument
wpis lista (some cel) = find (o_id cel) lista
wpis (m ∷ []) none = some m
wpis _ none = none

unfoldable pub wybierz_wpis : List Dokument → Option String → Option String × ℕ
unfolding wpis
wybierz_wpis lista zadany = elim (wpis lista zadany) [
  | some m ↦ (as_str (indeks m "id"), unwrap_or (as_u64 (indeks m "max_model_len")) 0 % 2 ^ 32)
  | none ↦ (none, 0)
]

-- `and_then(|t| t.as_array())`
abbrev pub tablica : Option Dokument → Option Elementy
tablica (some t) = as_array t
tablica none = none

unfoldable pub wyciagnij_liczbe_tokenow : Dokument → Option ℕ
wyciagnij_liczbe_tokenow v = z_pola (get_u64 (get v "count"))
  where
    get_u64 : Option Dokument → Option ℕ
    get_u64 (some c) = as_u64 c
    get_u64 none = none

    z_pola : Option ℕ → Option ℕ
    z_pola (some n) = some n
    z_pola none = elim (tablica (get v "tokens")) [ some a ↦ some (ile a) | none ↦ none ]

-- The end of `odczytaj_realny_ctx`, at the JSON of the answer.
unfoldable pub realny_ctx : Dokument → Option ℕ
realny_ctx v = elim (wyciagnij_liczbe_tokenow v) [
  | some n ↦ if leb n u32_max then some n else none
  | none ↦ none
]

abbrev pub max_m1_tokens : ℕ
max_m1_tokens = 65536

-- `collect::<Option<Vec<u32>>>`
abbrev pub jako_u32 : Elementy → Option (List ℕ)
jako_u32 nil = some []
jako_u32 (cons d ds) =
    let reszta = jako_u32 ds in
    elim (as_u64 d) [
      | some n ↦
          if leb n u32_max then elim reszta [ some ns ↦ some (n ∷ ns) | none ↦ none ] else none
      | none ↦ none
    ]

-- A number of tokens that is bound, or none.
abbrev pub id_z_tablicy : Elementy → Option (List ℕ)
id_z_tablicy arr = if ile arr == 0 || ltb max_m1_tokens (ile arr) then none else jako_u32 arr

unfoldable pub wyciagnij_id_tokenow : Dokument → Option (List ℕ)
wyciagnij_id_tokenow v = elim (tablica (get v "tokens")) [
  | some arr ↦ id_z_tablicy arr
  | none ↦ none
]
