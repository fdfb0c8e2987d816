-- ===== src/Wezel/Tresc.antt =====
-- crates/simon-cli/src/node.rs: the request that a node sends to its backend, and the text of the backend's
-- answer that it signs. `serde_json::from_str` at a `Value` and `Value::to_string` are arguments.
use simon.Prelude.{
  ℕ, Bool, not, ◌&&◌, List, [], ◌∷◌, String, Option, none, some, Result, ok, err, if◌then◌else◌,
}
use simon.Prelude.Text.{str_eq, str_is_empty}
use simon.Prelude.Trim.{trim}
use simon.Prelude.Dict.{is_some}
use simon.Prelude.Int.{pos}
use simon.Klient.Zlecenie.{polacz}
use simon.Kodowanie.{
  Dokument, Pola, null, number, float, text, seq, nil, cons, object, koniec, pole, get, as_str,
}
use simon.Wezel.Model.{indeks, pierwszy, unwrap_or}
use simon.Prompt.{PromptRequest}

abbrev pub pola_czatu : List String
pola_czatu = "tools" ∷ "tool_choice" ∷ "parallel_tool_calls" ∷ "temperature" ∷ "top_p" ∷ "stop" ∷ []

-- `body[k] = x`
abbrev pub ustaw : String → Dokument → Pola → Pola
ustaw k x koniec = pole k x koniec
ustaw k x (pole j d ps) = if str_eq k j then pole k x ps else pole j d (ustaw k x ps)

abbrev pub przepisz : Dokument → List String → Pola → Pola
przepisz v [] body = body
przepisz v (k ∷ ks) body = elim (get v k) [
  | some x ↦ przepisz v ks (ustaw k x body)
  | none ↦ przepisz v ks body
]

-- An array that is not empty.
abbrev pub niepusta : Option Dokument → Option Dokument
niepusta (some (seq (cons d ds))) = some (seq (cons d ds))
niepusta _ = none

abbrev pub cialo : String → Dokument → ℕ → Pola
cialo model wiadomosci max_tokens = pole "model" (text model) (
    pole "messages" wiadomosci
      (pole "max_tokens" (number (pos max_tokens)) (pole "temperature" (float "0.0") koniec)))

unfoldable pub cialo_zapytania :
    (String → Result String Dokument) → String → PromptRequest → Result String Dokument
cialo_zapytania from_str model req =
    if not req.chat
    then ok (
        object (
          cialo model
            (seq (
              cons (object (pole "role" (text "user") (pole "content" (text req.prompt) koniec)))
                nil))
            req.max_tokens))
    else elim (from_str req.prompt) [
      | err e ↦ err (polacz ("tryb czatu: prompt nie jest JSON-em: " ∷ e ∷ []))
      | ok v ↦ elim (niepusta (get v "messages")) [
        | none ↦ err "tryb czatu: brak niepustej tablicy `messages`"
        | some wiadomosci ↦
            ok (object (przepisz v pola_czatu (cialo model wiadomosci req.max_tokens)))
      ]
    ]

unfoldable pub wyjscie : (Dokument → String) → Dokument → Bool → String × Bool
wyjscie drukuj v chat =
    let wybor = pierwszy (indeks v "choices") in
    let msg = indeks wybor "message" in
    let surowy = unwrap_or (as_str (indeks msg "content")) "" in
    let narzedzia = niepusta (get msg "tool_calls") in
    if not chat
    then (trim surowy, str_is_empty (trim surowy))
    else (let tekst = if str_is_empty (trim surowy) then "" else surowy in
        let pusta = str_is_empty tekst && not (is_some narzedzia) in
        let finish = pole "finish_reason" (indeks wybor "finish_reason") koniec in
        (
          drukuj (
              object (
                pole "content"
                  (if str_is_empty tekst && is_some narzedzia then null else text tekst)
                  (elim narzedzia [ some t ↦ pole "tool_calls" t finish | none ↦ finish ]))),
          pusta,
        ))
