-- ===== src/Agent/Tests.antt =====
-- Witnesses for crates/simon-cli/src/agent.rs, over the libraries of Crypto.Toy.
use simon.Prelude.{
  ℕ, ◌≡◌, ◌↔◌, refl, String, Result, ok, err, some, none, List, leb, if◌then◌else◌, length, arith,
  concat, ◌∷◌, [], split_at, ◌≤◌, ◌^◌,
}
use simon.Prelude.Text.{chars}
use simon.Prelude.FloatToy.{setne_float}
use simon.Crypto.Toy.{biblioteki}
use simon.Klient.Toy.{format}
use simon.Mapreduce.{Tekst}
use simon.Receipt.{Receipt}
use simon.Prompt.{PromptResponse, PromptReply, wynik, blad}
use simon.Agent.{
  wyodrebnij_output, wyslij_kawalek_z_retry, join_lines, petla, za_dlugi, zaostrz,
  nie_da_sie_podzielic, PoKawalku, suc,
}
use simon.Agent.Reduce.{
  Koniec, redukuj, wynik_grupy, nowy_poziom, zbuduj_prompt_reduce, wynik as wynik_po,
}
use simon.Agent.Reduce.Rounds.{Dopuszczalny, redukuj-Dopuszczalny}
use simon.Mapreduce.{grupuj_do_budzetu, grupuj_petla}
use simon.Agent.Split.{waga, Odpowiedzi, wyslij_kawalek_z_retry_lem}
use simon.Agent.Checks.{Przyjety, wyodrebnij_output_iff}

abbrev odpowiedz : PromptResponse
odpowiedz = record {
  v = 1;
  order_id = "o";
  job_id = "j";
  output = "tak";
  receipt = "{}";
  tokens_out = 1;
  ttft_ms = 2;
  gen_ms = 2;
  tokenizer_hash = none;
  prompt_token_ids = none;
  output_token_ids = none;
}

abbrev zly_json : String → Result String Receipt
zly_json s = err "eof"

-- A node that takes at most two characters, and answers each time with the same output.
abbrev node_na_dwa : ℕ → Tekst → Result String (String × PromptReply)
node_na_dwa w t = ok (
  "nonce",
  if leb (length t) 2
      then wynik odpowiedz
      else blad (record {
        v = 1;
        order_id = "o";
        kod = "ctx_ponad_limit";
        opis = "";
        realny_ctx = some 4;
        limit_ctx = some 2;
      }),
)

abbrev wez : PromptReply → String → Result String String
wez (wynik r) nonce = ok r.output
wez (blad e) nonce = err e.opis

podzielony :
    wyslij_kawalek_z_retry setne_float format 1 1 node_na_dwa (λ t. t) wez 16 200 (chars "abcd") 3
    ≡ some (record { wyslane = 3; znak_na_tok = 90; zwrot = ok "tak\ntak" })
unfolding wyslij_kawalek_z_retry petla za_dlugi zaostrz nie_da_sie_podzielic split_at
podzielony = refl

wyslij_kawalek_z_retry_lem_example :
    (r : PoKawalku setne_float String) × (wyslij_kawalek_z_retry setne_float format 1 1 node_na_dwa
        (λ t. t)
        wez
        16
        200
        (chars "abcd")
        3
      ≡ some r)
    × (suc r.wyslane ≤ 2 ^ 4)
    × ((s : String)
        → r.zwrot ≡ ok s
        → (fs : List Tekst) × (os : List String) × (concat fs ≡ chars "abcd")
          × (s ≡ join_lines setne_float format 1 1 node_na_dwa (λ t. t) wez os)
          × Odpowiedzi setne_float format 1 1 node_na_dwa (λ t. t) wez fs os)
unfolding waga
wyslij_kawalek_z_retry_lem_example =
    wyslij_kawalek_z_retry_lem setne_float format 1 1 node_na_dwa (λ t. t) wez 16 200 (chars "abcd")
      3 (omega arith)

wyodrebnij_output_iff_example :
    (wyodrebnij_output biblioteki zly_json (wynik odpowiedz) "m" "n" none ≡ ok "tak") ↔ (
      ((rec : Receipt) × Przyjety biblioteki zly_json odpowiedz "m" "n" none rec)
      × (odpowiedz.output ≡ "tak"))
wyodrebnij_output_iff_example =
    wyodrebnij_output_iff biblioteki zly_json odpowiedz "m" "n" none "tak"

-- Three results, of which two at a time fit the budget.
abbrev trzy : List Tekst
trzy = chars "ab" ∷ chars "cd" ∷ chars "ef" ∷ []

abbrev odpowiedz_reduce : ℕ → ℕ → Tekst → Result String (String × PromptReply)
odpowiedz_reduce r i t = ok ("nonce", wynik odpowiedz)

abbrev tresc : PromptReply → String → Result String Tekst
tresc (wynik r) nonce = ok (chars r.output)
tresc (blad e) nonce = err e.opis

redukuj-Dopuszczalny_example :
    (k : Koniec) × (redukuj format "?" 5 odpowiedz_reduce tresc 3 0 trzy ≡ some k)
    × Dopuszczalny 0 3 k
redukuj-Dopuszczalny_example =
    redukuj-Dopuszczalny format "?" 5 odpowiedz_reduce tresc 3 0 trzy (omega arith) (omega arith)

zredukowane : redukuj format "?" 5 odpowiedz_reduce tresc 3 0 trzy ≡ some (wynik_po (chars "tak") 2)
unfolding redukuj nowy_poziom wynik_grupy grupuj_do_budzetu grupuj_petla zbuduj_prompt_reduce
zredukowane = refl
