-- ===== src/Wezel/Tests.antt =====
-- Tests and witnesses for crates/simon-cli/src/node.rs, over the libraries of Crypto.Toy and the receipts
-- of Codec.
use simon.Prelude.{
  ℕ, ◌≡◌, ◌↔◌, refl, false, Bool, List, [], ◌∷◌, String, none, some, ok, if◌then◌else◌, any,
}
use simon.Prelude.Trim.{trim, trim_start, trim_end, is_whitespace}
use simon.Prelude.Ascii.{ascii_lower}
use simon.Prelude.FloatToy.{setne_float}
use simon.Prelude.Int.{pos}
use simon.Kodowanie.{Dokument, text, number, object, seq, cons, nil, pole, koniec}
use simon.Crypto.Toy.{biblioteki, prawa}
use simon.Klient.Toy.{format}
use simon.Receipt.{bf16, fp8, int4, unknown, precision_nazwa}
use simon.Prompt.{PromptRequest, PromptResponse, PromptReply, wynik}
use simon.Wezel.{
  Backend, obsluz, sprawdz_wersje, Petla, start, przyjmij_prompt, limit_peera, zajety, powtorzony,
}
use simon.Wezel.Intake.{Spojna, przyszedl, dalej, poczatek, uruchom-Spojna}
use simon.Wezel.Busy.{zajety-powtorzony}
use simon.Wezel.Precyzja.{
  wykryj_precyzje, tokeny, wybierz, split, krok, oznacza_fp4, oznacza_int8, oznacza_int4,
  starts_with, bity_gguf, jest,
}
use simon.Wezel.Precyzja.Base.{bazowa, znacznik, z_nazwy, wykryj_precyzje-bazowa}
use simon.Wezel.Tresc.{wyjscie, cialo_zapytania}
use simon.Wezel.Liczenie.{
  Otoczenie, Http, odpowiedz, policz, po_wywolaniu, policz_json, zloz_odpowiedz, odpowiedz_z,
  zbuduj_podpisany_receipt, m1_dane, ma_m1,
}
use simon.Wezel.Liczenie.Signed.{PrawaJson}
use simon.Wezel.Liczenie.Accepted.{
  Wydana, obsluz-wyodrebnij_output, obsluz-wyodrebnij_output_innego,
}
use simon.Agent.{wyodrebnij_output}
use simon.Wezel.Codec.{do_json, z_json, z_json-do_json}

abbrev prosba : PromptRequest
prosba = record {
  v = 1;
  order_id = "o";
  job_id = "j";
  model_hash = "m";
  prompt = "ile?";
  max_tokens = 8;
  max_ctx = 4;
  nonce = "n";
  chat = false;
}

abbrev wezel : Backend
wezel = record {
  model_url = "u";
  model = "m-bf16";
  runtime = "vllm/1";
  klucz = record { inner = 7 ∷ [] };
  max_ctx = 100;
}

abbrev wiadomosc : Dokument
wiadomosc = object (pole "message" (object (pole "content" (text " dwa ") koniec)) koniec)

abbrev model_json : Dokument
model_json = object (
    pole "choices" (seq (cons wiadomosc nil))
      (pole "usage" (object (pole "completion_tokens" (number (pos 2)) koniec)) koniec))

abbrev otoczenie : Otoczenie
otoczenie = record {
  do_json = do_json;
  z_json = z_json;
  wartosc = λ s. ok model_json;
  drukuj = λ d. "{}";
  to_lowercase = λ s. s;
  tokenizuj = λ s. some (1 ∷ 2 ∷ []);
}

abbrev json : PrawaJson otoczenie
json = record { z_json-do_json = z_json-do_json }

abbrev wywolaj : Dokument → Http
wywolaj d = odpowiedz Bool.true "200" "{}"

abbrev paragon : String
paragon =
    zbuduj_podpisany_receipt biblioteki otoczenie wezel.klucz "m-bf16" "vllm/1" prosba "dwa" 0 2 10
      20 (m1_dane biblioteki otoczenie "m-bf16" prosba "dwa")

abbrev wydana : PromptResponse
wydana = odpowiedz_z biblioteki otoczenie prosba "dwa" paragon 2 5 (
    if ma_m1 biblioteki otoczenie paragon
    then m1_dane biblioteki otoczenie "m-bf16" prosba "dwa"
    else none)

abbrev policzone : PromptRequest → PromptReply
policzone = policz biblioteki otoczenie "u" wezel.model wezel.runtime wezel.klucz wywolaj 10 20 5

wydana_przez_wezel : obsluz format wezel policzone (some 3) prosba ≡ wynik wydana
unfolding obsluz sprawdz_wersje policz po_wywolaniu policz_json wyjscie cialo_zapytania
    zloz_odpowiedz trim trim_start trim_end is_whitespace
wydana_przez_wezel = refl

obsluz-wyodrebnij_output_example :
    Wydana biblioteki prawa otoczenie json "m-bf16" none prosba wydana
obsluz-wyodrebnij_output_example =
    obsluz-wyodrebnij_output biblioteki prawa otoczenie json format wezel "u" wywolaj 10 20 5
      (some 3) prosba none (λ rec h. tt) wydana wydana_przez_wezel

-- A request without a nonce, whose answer is taken for that of an order with one.
abbrev bez_nonce : PromptRequest
bez_nonce = record prosba { nonce = "" }

abbrev paragon_bez_nonce : String
paragon_bez_nonce =
    zbuduj_podpisany_receipt biblioteki otoczenie wezel.klucz "m-bf16" "vllm/1" bez_nonce "dwa" 0 2
      10 20 none

abbrev wydana_bez_nonce : PromptResponse
wydana_bez_nonce =
    odpowiedz_z biblioteki otoczenie bez_nonce "dwa" paragon_bez_nonce 2 5
      (if ma_m1 biblioteki otoczenie paragon_bez_nonce then none else none)

wydana_bez_tokenow : obsluz format wezel policzone (some 3) bez_nonce ≡ wynik wydana_bez_nonce
unfolding obsluz sprawdz_wersje policz po_wywolaniu policz_json wyjscie cialo_zapytania
    zloz_odpowiedz m1_dane trim trim_start trim_end is_whitespace
wydana_bez_tokenow = refl

bez_danych_m1 : m1_dane biblioteki otoczenie wezel.model bez_nonce wydana_bez_nonce.output ≡ none
unfolding m1_dane trim trim_start trim_end is_whitespace
bez_danych_m1 = refl

obsluz-wyodrebnij_output_innego_example :
    (wyodrebnij_output biblioteki z_json (wynik wydana_bez_nonce) "m-bf16" "n-7" none ≡ ok "dwa")
    × (wydana_bez_nonce.order_id ≡ bez_nonce.order_id)
    × (wydana_bez_nonce.job_id ≡ bez_nonce.job_id)
obsluz-wyodrebnij_output_innego_example =
    obsluz-wyodrebnij_output_innego biblioteki prawa otoczenie json format wezel "u" wywolaj 10 20 5
      (some 3) bez_nonce none (λ rec h. tt) wydana_bez_nonce wydana_bez_tokenow bez_danych_m1 "n-7"

-- The names that the source's comment on `wykryj_precyzje` speaks of
precyzje :
    (wykryj_precyzje "llama-bf16" ≡ bf16)
    × (wykryj_precyzje "gemma-bf16-iq4_xs" ≡ int4)
    × (wykryj_precyzje "qwen-FP8" ≡ fp8)
    × (wykryj_precyzje "llama-q5_k_m" ≡ unknown)
    × (wykryj_precyzje "llama-awq" ≡ int4)
unfolding wykryj_precyzje wybierz tokeny split ascii_lower krok oznacza_fp4 oznacza_int8
    oznacza_int4 starts_with bity_gguf jest precision_nazwa
precyzje = (refl, refl, refl, refl, refl)

wykryj_precyzje-bazowa_example : (wykryj_precyzje "gemma-bf16-iq4_xs" ≡ bf16) ↔ (
    (any znacznik (tokeny "gemma-bf16-iq4_xs") ≡ false)
    × (z_nazwy (tokeny "gemma-bf16-iq4_xs") ≡ bf16))
unfolding bazowa
wykryj_precyzje-bazowa_example = wykryj_precyzje-bazowa "gemma-bf16-iq4_xs" bf16 refl

abbrev lista : List Dokument
lista =
    object (pole "id" (text "a") koniec)
    ∷ object (pole "id" (text "b") (pole "max_model_len" (number (pos 4096)) koniec))
    ∷ []

abbrev dwa_tokeny : List ℕ
dwa_tokeny = 7 ∷ 8 ∷ []

abbrev pusta : Petla setne_float format
pusta = start setne_float format 1

abbrev po_prosbie : Petla setne_float format
po_prosbie = (przyjmij_prompt setne_float format 1 100 pusta "peer" prosba 5).1

uruchom-Spojna_example : Spojna setne_float format 1 100 po_prosbie
uruchom-Spojna_example =
    uruchom-Spojna setne_float format 1 100 po_prosbie
      (dalej pusta po_prosbie poczatek (przyszedl pusta "peer" prosba 5))

abbrev po_odmowie : Petla setne_float format
po_odmowie = (przyjmij_prompt setne_float format 0 0 (start setne_float format 0) "peer" prosba 5).1

-- A node that may run no task turns each prompt away.
zajety-powtorzony_example :
    ((przyjmij_prompt setne_float format 0 0 (start setne_float format 0) "peer" prosba 5).0
      ≡ some (zajety setne_float format 0 prosba))
    × ((n : ℕ) (z : List PromptRequest)
        → (przyjmij_prompt setne_float format 0 0
            (record { pamiec = po_odmowie.pamiec; przyjecia = n; zadania = z })
            "peer"
            prosba
            9).0
          ≡ some (powtorzony prosba))
unfolding sprawdz_wersje limit_peera start
zajety-powtorzony_example =
    zajety-powtorzony setne_float format 0 0 (start setne_float format 0) "peer" prosba 5 9 refl
      refl refl
