-- ===== src/Wezel/Precyzja.antt =====
-- `wykryj_precyzje` of crates/simon-cli/src/node.rs: the precision that a node reads from its model's name.
-- A token of the name is the list of its characters' numbers.
pub mod Base
use simon.Prelude.{
  ℕ, ◌+◌, ◌-◌, Bool, true, false, not, ◌&&◌, ◌||◌, List, [], ◌∷◌, ◌++◌, String, Option, none, some,
  map, if◌then◌else◌, leb, ltb, ◌==◌, any, is_empty, length,
}
use simon.Prelude.Text.{chars}
use simon.Prelude.Ascii.{ascii_lower, znaki_eq}
use simon.Receipt.{Precision, bf16, fp16, fp32, fp8, fp4, int8, int4, unknown, precision_nazwa}
use simon.Prelude.Text.{str_eq}

abbrev pub Token : Type 0
Token = List ℕ

-- `is_ascii_alphanumeric`
abbrev pub is_alnum : ℕ → Bool
is_alnum c = (leb 48 c && leb c 57) || ((leb 65 c && leb c 90) || (leb 97 c && leb c 122))

abbrev pub dopisz : ℕ → List Token → List Token
dopisz c [] = (c ∷ []) ∷ []
dopisz c (t ∷ ts) = (c ∷ t) ∷ ts

-- `split` at the characters that are not alphanumeric
unfoldable pub split : List ℕ → List Token
split [] = [] ∷ []
split (c ∷ cs) = let rest = split cs in if is_alnum c then dopisz c rest else [] ∷ rest

abbrev pub niepuste : List Token → List Token
niepuste [] = []
niepuste (t ∷ ts) = let rest = niepuste ts in if is_empty t then rest else t ∷ rest

unfoldable pub tokeny : String → List Token
unfolding split
tokeny model_hash = niepuste (split (map ascii_lower (chars model_hash)))

-- The token is one of the words.
unfoldable pub jest : Token → List String → Bool
jest t slowa = any (λ s. znaki_eq (chars s) t) slowa

abbrev pub strip_prefix : List ℕ → Token → Option Token
strip_prefix [] t = some t
strip_prefix (x ∷ xs) [] = none
strip_prefix (x ∷ xs) (y ∷ ys) = if x == y then strip_prefix xs ys else none

unfoldable pub starts_with : String → Token → Bool
starts_with s t = elim (strip_prefix (chars s) t) [ some _ ↦ true | none ↦ false ]

-- `to_digit(10)`
abbrev pub to_digit : ℕ → Option ℕ
to_digit c = if leb 48 c && leb c 57 then some (c - 48) else none

unfoldable pub bity_gguf : Token → Option ℕ
unfolding jest
bity_gguf t =
    po_q (strip_prefix (chars "q") (elim (strip_prefix (chars "i") t) [ some r ↦ r | none ↦ t ]))
  where
    po_q : Option Token → Option ℕ
    po_q (some (c ∷ z)) = elim (to_digit c) [
      | some b ↦ if jest z ("" ∷ "k" ∷ "ks" ∷ "km" ∷ "kl" ∷ []) then some b else none
      | none ↦ none
    ]
    po_q _ = none

-- The variables of the loop over the tokens
pub record Znaczniki : Type 0 where
  pub jawne : List Precision
  pub nieobslugiwana : Bool
  pub slaby_int4 : Bool

abbrev pub precision_eq : Precision → Precision → Bool
precision_eq p q = str_eq (precision_nazwa p) (precision_nazwa q)

abbrev pub dodaj : Precision → Znaczniki → Znaczniki
dodaj p s = if any (precision_eq p) s.jawne then s else record s { jawne = s.jawne ++ p ∷ [] }

-- The tests of the branches of the loop
unfoldable pub oznacza_fp4 : Token → Bool
oznacza_fp4 t = jest t ("fp4" ∷ "nvfp4" ∷ "mxfp4" ∷ [])

unfoldable pub oznacza_int8 : Token → Bool
oznacza_int8 t = jest t ("int8" ∷ "8bit" ∷ []) || starts_with "w8a" t

unfoldable pub oznacza_int4 : Token → Bool
oznacza_int4 t = jest t ("int4" ∷ "4bit" ∷ []) || starts_with "w4a" t

-- One turn of the loop
unfoldable pub krok : Znaczniki → Token → Znaczniki
krok s t =
    if oznacza_fp4 t
    then dodaj fp4 s
    else if starts_with "fp8" t
    then dodaj fp8 s
    else if oznacza_int8 t
    then dodaj int8 s
    else if oznacza_int4 t
    then dodaj int4 s
    else elim (bity_gguf t) [
      | some b ↦
          if b == 8
          then dodaj int8 s
          else if b == 4
          then dodaj int4 s
          else record s { nieobslugiwana = true }
      | none ↦ record s {
        slaby_int4 = s.slaby_int4 || jest t ("awq" ∷ "gptq" ∷ []);
        nieobslugiwana = s.nieobslugiwana || jest t ("quant" ∷ "quantized" ∷ []);
      }
    ]

abbrev pub petla : Znaczniki → List Token → Znaczniki
petla s [] = s
petla s (t ∷ ts) = petla (krok s t) ts

abbrev pub fp8_lub_fp4 : Precision → Bool
fp8_lub_fp4 fp8 = true
fp8_lub_fp4 fp4 = true
fp8_lub_fp4 _ = false

-- `baza`
abbrev pub baza : List Token → List String → Bool
baza ts z = any (λ t. jest t z) ts

abbrev pub format_bazowy : Bool → Bool → Bool → Precision
format_bazowy true false false = bf16
format_bazowy false true false = fp16
format_bazowy false false true = fp32
format_bazowy _ _ _ = unknown

unfoldable pub wybierz : Znaczniki → List Token → Precision
wybierz s ts =
    let sprzeczny_slaby = s.slaby_int4 && any fp8_lub_fp4 s.jawne in
    if s.nieobslugiwana || (ltb 1 (length s.jawne) || sprzeczny_slaby)
    then unknown
    else elim s.jawne [
      | p ∷ _ ↦ p
      | [] ↦
          if s.slaby_int4
          then int4
          else format_bazowy (baza ts ("bf16" ∷ [])) (baza ts ("fp16" ∷ "f16" ∷ []))
              (baza ts ("fp32" ∷ "f32" ∷ []))
    ]

unfoldable pub wykryj_precyzje : String → Precision
unfolding wybierz
wykryj_precyzje model_hash =
    let ts = tokeny model_hash in
    wybierz (petla (record { jawne = []; nieobslugiwana = false; slaby_int4 = false }) ts) ts
