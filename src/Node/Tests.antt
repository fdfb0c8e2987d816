-- ===== src/Node/Tests.antt =====
-- Tests and witnesses for crates/simon-node/src/lib.rs, over the libraries of Crypto.Toy.
use simon.Prelude.{
  ℕ, ◌*◌, ◌^◌, ◌≡◌, ◌↔◌, ◌⊎◌, refl, true, false, List, [], ◌∷◌, String, none, some, Result, ok, err,
  arith, inl,
}
use simon.Prelude.Text.{as_bytes, utf8}
use simon.Prelude.Dict.{Member, lookup, insert, remove, contains_key}
use simon.Prelude.StrOrder.{sort, wstaw}
use simon.Kodowanie.{SimonError, content_digest}
use simon.Crypto.{public}
use simon.Crypto.Toy.{biblioteki, skrot, zakoduj, drukuj}
use simon.Receipt.{Receipt, fp16}
use simon.Node.{
  register, assign, complete, nowy_rejestr, kandydaci_dla_modelu, nadaje_sie, miesci_ctx,
  id_spelniajacych,
}
use simon.Node.Los.{swieze, wybierz_kandydata_vrf, vrf_dokument, losuj, pick_dokument}
use simon.Node.Register.{usable, nowa_rejestracja}
use simon.Node.Wynik.{failure}
use simon.Node.Steps.{rejestruj, przydziel, wyrzuc, krok, przebieg, Spojny}
use simon.Node.Toy.{klucz, wezel, rejestr}
use simon.Node.Invariant.{przebieg-Spojny}
use simon.Node.Identity.{klucz_niezmienny}
use simon.Node.Complete.{DowodPracy, rozliczony, complete_iff, przyjmuje}
use simon.Node.Candidates.{miesci_ctx_obciety}
use simon.Node.Draw.{Najmniejszy, wybierz_kandydata_vrf_lem}

job_przydzielony : lookup "job-1" rejestr.assigned ≡ some "n1"
unfolding przebieg krok register assign insert remove lookup usable nowy_rejestr nowa_rejestracja
job_przydzielony = refl

wezel_znany : lookup "n1" rejestr.nodes ≡ some wezel
unfolding przebieg krok register assign insert remove lookup usable nowy_rejestr nowa_rejestracja
wezel_znany = refl

wezel_jest : contains_key "n1" rejestr.nodes ≡ true
unfolding przebieg krok register assign insert remove lookup usable nowy_rejestr nowa_rejestracja
wezel_jest = refl

kandydaci_mistral : kandydaci_dla_modelu rejestr "mistral" 4096 ≡ "n1" ∷ []
unfolding kandydaci_dla_modelu id_spelniajacych nadaje_sie miesci_ctx sort wstaw przebieg krok
    register assign insert remove lookup usable nowy_rejestr nowa_rejestracja
kandydaci_mistral = refl

za_duzy_kontekst : kandydaci_dla_modelu rejestr "mistral" 8193 ≡ []
unfolding kandydaci_dla_modelu id_spelniajacych nadaje_sie miesci_ctx sort wstaw przebieg krok
    register assign insert remove lookup usable nowy_rejestr nowa_rejestracja
za_duzy_kontekst = refl

przebieg-Spojny_example :
    Spojny (
      przebieg biblioteki nowy_rejestr
        (rejestruj wezel ∷ przydziel "job-1" "n1" ∷ wyrzuc "n1" ∷ []))
przebieg-Spojny_example =
    przebieg-Spojny biblioteki (rejestruj wezel ∷ przydziel "job-1" "n1" ∷ wyrzuc "n1" ∷ [])

klucz_niezmienny_example :
    lookup "n1" (przebieg biblioteki rejestr (wyrzuc "n1" ∷ rejestruj wezel ∷ [])).nodes
    ≡ some wezel
klucz_niezmienny_example =
    klucz_niezmienny biblioteki (wyrzuc "n1" ∷ rejestruj wezel ∷ []) rejestr "n1" wezel wezel_znany

porazka_przyjeta :
    complete biblioteki rejestr (failure "job-1" "n1" "oom") ≡ ok (rozliczony rejestr "job-1")
unfolding failure
porazka_przyjeta =
    przyjmuje biblioteki rejestr (failure "job-1" "n1" "oom") (job_przydzielony, inl refl)

complete_iff_example :
    (complete biblioteki rejestr (failure "job-1" "n1" "oom") ≡ ok (rozliczony rejestr "job-1")) ↔ (
      (lookup "job-1" rejestr.assigned ≡ some "n1")
      × ((false ≡ false) ⊎ DowodPracy biblioteki rejestr (failure "job-1" "n1" "oom")))
unfolding failure
complete_iff_example = complete_iff biblioteki rejestr (failure "job-1" "n1" "oom")

abbrev kwit : Receipt
kwit = record {
  job_id = "job-1";
  node_id = "n1";
  model_hash = "mistral";
  runtime = "vllm";
  precision = fp16;
  activation_hash = "toploc";
  output_digest = "abc";
  prompt_tokens = 3;
  completion_tokens = 2;
  started_at_us = 1;
  finished_at_us = 2;
  signer = public biblioteki klucz;
  signature = none;
  wiazania = none;
}

abbrev zadany : ℕ
zadany = 4096

abbrev zadeklarowany : ℕ
zadeklarowany = 8192

miesci_ctx_obciety_example : miesci_ctx 4096 (2 ^ 32 * 1) ≡ false
miesci_ctx_obciety_example = miesci_ctx_obciety 4096 1 (omega arith) (omega arith)

albo_pusty : Result SimonError String → String
albo_pusty (ok s) = s
albo_pusty (err e) = ""

ziarno : String
unfolding albo_pusty content_digest vrf_dokument
ziarno = albo_pusty (content_digest biblioteki (vrf_dokument "mistral" "job-2"))

abbrev swiezi : List String
swiezi = swieze rejestr 100 (kandydaci_dla_modelu rejestr "mistral" 4096)

wylosowany :
    wybierz_kandydata_vrf biblioteki rejestr "mistral" 4096 "job-2" 100 ≡ some ("n1", ziarno)
unfolding wybierz_kandydata_vrf losuj swieze pick_dokument ziarno albo_pusty content_digest
    vrf_dokument skrot zakoduj drukuj as_bytes utf8 kandydaci_dla_modelu id_spelniajacych nadaje_sie
    miesci_ctx sort wstaw przebieg krok register assign insert remove lookup usable nowy_rejestr
    nowa_rejestracja
wylosowany = refl

wybierz_kandydata_vrf_lem_example :
    (content_digest biblioteki (vrf_dokument "mistral" "job-2") ≡ ok ziarno)
    × Member "n1" swiezi
    × ((d : String) × Najmniejszy biblioteki ziarno "n1" d swiezi)
wybierz_kandydata_vrf_lem_example =
    wybierz_kandydata_vrf_lem biblioteki rejestr "mistral" 4096 "job-2" 100 "n1" ziarno wylosowany
