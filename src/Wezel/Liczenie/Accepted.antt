-- ===== src/Wezel/Liczenie/Accepted.antt =====
-- The whole way of a prompt through a node (crates/simon-cli/src/node.rs) and back to the client
-- (crates/simon-cli/src/agent.rs).
use simon.Prelude.{
  ℕ, max, ◌&&◌, ◌≡◌, refl, sym, ap, ◌∙◌, Bool, true, false, String, Option, none, some, ok,
  Option-cases, Result-cases, Bool-cases, inl, inr, subst, ltb, some-eq, none_ne_some,
}
use simon.Prelude.Text.{str_is_empty}
use simon.Kodowanie.{Biblioteki, Prawa, Dokument}
use simon.Crypto.{Keypair, public}
use simon.Receipt.{Receipt}
use simon.Klient.Zlecenie.{Format}
use simon.Prompt.{PromptRequest, PromptResponse, PromptReply, wynik, blad as blad_node}
use simon.Agent.{wyodrebnij_output}
use simon.Agent.Checks.{Przypiety, wyodrebnij_output_iff, wyodrebnij_output_nonce}
use simon.Wezel.{Backend, blad, blad_ctx, obsluz, wersja_promptu, sprawdz_wersje}
use simon.Wezel.Tresc.{wyjscie, cialo_zapytania}
use simon.Wezel.Liczenie.{
  Otoczenie, policz_json, policz, po_wywolaniu, m1_dane, liczba_z, Http, odpowiedz, brak_klienta,
  niedostepny, nieczytelny, zloz_odpowiedz, DaneWiazania, ma_m1,
}
use simon.Wezel.Liczenie.Signed.{PrawaJson}
use simon.Wezel.Liczenie.Answer.{zloz_odpowiedz-Przyjety}

z_reply : PromptResponse → PromptReply → PromptResponse
z_reply x (wynik r) = r
z_reply x (blad_node e) = x

wynik-injective : (x r : PromptResponse) → wynik x ≡ wynik r → x ≡ r
unfolding z_reply
wynik-injective x r h = ap (z_reply x) h

module _ (b : Biblioteki) (prawa : Prawa b) (o : Otoczenie) (json : PrawaJson o) where
  -- An answer that the client takes: it is for the order and the job that were asked for, its text is not
  -- empty unless it is the JSON of a chat, it names no tokenizer where the node has no tokens to bind, and
  -- the client's checks give this text.
  pub record Wydana (model : String) (signer : Option String) (req : PromptRequest)
      (r : PromptResponse) : Type 0 where
    pub order_id : r.order_id ≡ req.order_id
    pub job_id : r.job_id ≡ req.job_id
    pub niepusta : req.chat ≡ false → str_is_empty r.output ≡ false
    pub bez_tokenow : m1_dane b o model req r.output ≡ none → r.tokenizer_hash ≡ none
    pub przyjeta : wyodrebnij_output b o.z_json (wynik r) model req.nonce signer ≡ ok r.output

  bez_danych :
      (req : PromptRequest) (output receipt : String) (out t : ℕ) (dane : Option DaneWiazania)
      (r : PromptResponse)
      → zloz_odpowiedz b o req output receipt out t dane ≡ wynik r
      → dane ≡ none
      → r.tokenizer_hash ≡ none
  unfolding zloz_odpowiedz
  bez_danych req output receipt out t dane r h n = elim (Bool-cases (ma_m1 b o receipt)) [
    | inl m ↦
        let e = wynik-injective _ r (rw (m, n) at h) in
        sym (ap (λ (x : PromptResponse). x.tokenizer_hash) e)
    | inr m ↦
        let e = wynik-injective _ r (rw m at h) in
        sym (ap (λ (x : PromptResponse). x.tokenizer_hash) e)
  ]

  wyjscie_tekst :
      (v : Dokument) (chat : Bool)
      → chat ≡ false
      → (wyjscie o.drukuj v chat).1 ≡ str_is_empty (wyjscie o.drukuj v chat).0
  unfolding wyjscie
  wyjscie_tekst v chat h = rw h refl

  ctx_ne_wynik :
      (req : PromptRequest) (kod opis : String) (c l : Option ℕ) (r : PromptResponse)
      → ¬ (blad_ctx req kod opis c l ≡ wynik r)
  unfolding blad_ctx
  ctx_ne_wynik req kod opis c l r h = cc

  blad_ne_wynik :
      (req : PromptRequest) (kod opis : String) (r : PromptResponse)
      → ¬ (blad req kod opis ≡ wynik r)
  unfolding blad blad_ctx
  blad_ne_wynik req kod opis r h = cc

  policz_json-Wydana :
      (k : Keypair) (model runtime : String) (req : PromptRequest) (v : Dokument) (s f t : ℕ)
      (signer : Option String)
      → ((rec : Receipt) → rec.signer ≡ public b k → Przypiety b o.z_json rec signer)
      → (r : PromptResponse) → policz_json b o model runtime k req v s f t ≡ wynik r
      → Wydana model signer req r
  unfolding policz_json
  policz_json-Wydana k model runtime req v s f t signer pin r h =
      elim (Bool-cases (wyjscie o.drukuj v req.chat).1) [
        | inl p ↦ absurd (blad_ne_wynik _ _ _ r (rw p at h))
        | inr p ↦
            let out = (wyjscie o.drukuj v req.chat).0 in
            let (x, e, c, i, j, (rec, a)) =
              zloz_odpowiedz-Przyjety b prawa o json k model runtime req out
                (liczba_z v "prompt_tokens") (liczba_z v "completion_tokens") s f t
                (m1_dane b o model req out) signer pin in
            subst (Wydana model signer req) (wynik-injective x r (sym e ∙ (rw p at h))) (record {
              order_id = i;
              job_id = j;
              bez_tokenow = λ n.
                  bez_danych req out _ _ t (m1_dane b o model req out) x e
                    (ap (m1_dane b o model req) (sym c) ∙ n);
              niepusta = λ n. ap str_is_empty c ∙ sym (wyjscie_tekst v req.chat n) ∙ p;
              przyjeta =
                  (wyodrebnij_output_iff b o.z_json x model req.nonce signer x.output).1
                    ((rec, a), refl);
            })
      ]

  po_wywolaniu-Wydana :
      (k : Keypair) (url model runtime : String) (req : PromptRequest) (s teraz t : ℕ)
      (signer : Option String)
      → ((rec : Receipt) → rec.signer ≡ public b k → Przypiety b o.z_json rec signer)
      → (r : PromptResponse) (x : Http)
      → po_wywolaniu b o url model runtime k req s teraz t x ≡ wynik r
      → Wydana model signer req r
  unfolding po_wywolaniu
  po_wywolaniu-Wydana k url model runtime req s teraz t signer pin r (brak_klienta e) h =
      absurd (blad_ne_wynik _ _ _ r h)
  po_wywolaniu-Wydana k url model runtime req s teraz t signer pin r (niedostepny e) h =
      absurd (blad_ne_wynik _ _ _ r h)
  po_wywolaniu-Wydana k url model runtime req s teraz t signer pin r (nieczytelny e) h =
      absurd (blad_ne_wynik _ _ _ r h)
  po_wywolaniu-Wydana k url model runtime req s teraz t signer pin r (odpowiedz false status tekst)
        h =
      absurd (blad_ne_wynik _ _ _ r h)
  po_wywolaniu-Wydana k url model runtime req s teraz t signer pin r (odpowiedz true status tekst)
        h =
      elim (Result-cases (o.wartosc tekst)) [
        | inr (e, p) ↦ absurd (blad_ne_wynik _ _ _ r (rw p at h))
        | inl (v, p) ↦
            policz_json-Wydana k model runtime req v s (max teraz s) t signer pin r (rw p at h)
      ]

  policz-Wydana :
      (k : Keypair) (url model runtime : String) (wywolaj : Dokument → Http) (req : PromptRequest)
      (s teraz t : ℕ) (signer : Option String)
      → ((rec : Receipt) → rec.signer ≡ public b k → Przypiety b o.z_json rec signer)
      → (r : PromptResponse) → policz b o url model runtime k wywolaj s teraz t req ≡ wynik r
      → Wydana model signer req r
  unfolding policz
  policz-Wydana k url model runtime wywolaj req s teraz t signer pin r h =
      elim (Result-cases (cialo_zapytania o.wartosc model req)) [
        | inr (e, p) ↦ absurd (blad_ne_wynik _ _ _ r (rw (p, policz) at h))
        | inl (body, p) ↦
            po_wywolaniu-Wydana k url model runtime req s teraz t signer pin r (wywolaj body)
              (rw (p, policz) at h)
      ]

  wersja_ne_wynik :
      (fmt : Format) (req : PromptRequest) (e : PromptReply) (r : PromptResponse)
      → sprawdz_wersje fmt req ≡ some e
      → ¬ (e ≡ wynik r)
  unfolding sprawdz_wersje
  wersja_ne_wynik fmt req e r h q = elim (Bool-cases (ltb wersja_promptu req.v)) [
    | inl p ↦ blad_ne_wynik req _ _ r (some-eq (rw p at h) ∙ q)
    | inr p ↦ none_ne_some (rw p at h)
  ]

  -- Where a receipt's JSON is read back as that receipt: for every request, whatever the backend does, if
  -- the node gives an answer and not an error, then the answer is for that order and that job, its text is
  -- not empty unless the request is a chat, and it passes all the checks of the client that sent the
  -- request, under the node's model, the request's nonce and a signer that the node's key passes for.
  pub obsluz-wyodrebnij_output :
      (fmt : Format) (w : Backend) (url : String) (wywolaj : Dokument → Http) (s teraz t : ℕ)
      (realny : Option ℕ) (req : PromptRequest) (signer : Option String)
      → ((rec : Receipt) → rec.signer ≡ public b w.klucz → Przypiety b o.z_json rec signer)
      → (r : PromptResponse)
      → obsluz fmt w (policz b o url w.model w.runtime w.klucz wywolaj s teraz t) realny req
        ≡ wynik r
      → Wydana w.model signer req r
  unfolding obsluz
  obsluz-wyodrebnij_output fmt w url wywolaj s teraz t realny req signer pin r h =
      elim (Option-cases (sprawdz_wersje fmt req)) [
        | inr (e, p) ↦ absurd (wersja_ne_wynik fmt req e r p (rw (p, obsluz) at h))
        | inl p ↦
            let q = rw (p, obsluz) at h in
            let ctx : ℕ = elim realny [ some n ↦ n | none ↦ req.max_ctx ] in
            elim (Bool-cases (ltb 0 w.max_ctx && ltb w.max_ctx ctx)) [
              | inl c ↦ absurd (ctx_ne_wynik req _ _ _ _ r (rw c at q))
              | inr c ↦
                  policz-Wydana w.klucz url w.model w.runtime wywolaj req s teraz t signer pin r
                    (rw c at q)
            ]
      ]

  -- An answer to one order passes for another: where a receipt's JSON is read back as that receipt, an
  -- answer that the node gives without tokens to bind, as every answer to a chat is, passes the client's
  -- checks under the nonce of any order of the same model, with a signer that the node's key passes for,
  -- although it names the order and the job that it was made for.
  pub obsluz-wyodrebnij_output_innego :
      (fmt : Format) (w : Backend) (url : String) (wywolaj : Dokument → Http) (s teraz t : ℕ)
      (realny : Option ℕ) (req : PromptRequest) (signer : Option String)
      → ((rec : Receipt) → rec.signer ≡ public b w.klucz → Przypiety b o.z_json rec signer)
      → (r : PromptResponse)
      → obsluz fmt w (policz b o url w.model w.runtime w.klucz wywolaj s teraz t) realny req
        ≡ wynik r
      → m1_dane b o w.model req r.output ≡ none
      → (nonce : String)
      → (wyodrebnij_output b o.z_json (wynik r) w.model nonce signer ≡ ok r.output)
        × (r.order_id ≡ req.order_id)
        × (r.job_id ≡ req.job_id)
  obsluz-wyodrebnij_output_innego fmt w url wywolaj s teraz t realny req signer pin r h n nonce =
      let x = obsluz-wyodrebnij_output fmt w url wywolaj s teraz t realny req signer pin r h in
      let e =
        wyodrebnij_output_nonce b o.z_json r w.model nonce req.nonce signer (x.bez_tokenow n) in
      (e ∙ x.przyjeta, x.order_id, x.job_id)
