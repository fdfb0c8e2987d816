-- ===== src/Rejestr/Tests.antt =====
-- Tests and witnesses for crates/simon-core/src/rejestr.rs, over the libraries of Crypto.Toy.
use simon.Prelude.{◌≡◌, refl, List, [], ◌∷◌, String, none, ok, err, if◌then◌else◌}
use simon.Prelude.Text.{str_eq, str_is_empty}
use simon.Crypto.{Keypair, public, key_dokument, signature_dokument}
use simon.Crypto.Toy.{biblioteki, drukuj, zakoduj, skrot}
use simon.Rejestr.{
  RekordPracyV1, signature_valid, rekord_dokument, status_nazwa, udany, blad_otwarcia, powtorzenie,
  Czytnik, dopisz, wczytaj_wszystko, odciski,
}
use simon.Rejestr.Unique.{Zdarzenie, wpis, otwarcie, Rozne, przebieg, Czyste, bez_powtorzen}

abbrev klucz : Keypair
klucz = record { inner = 4 ∷ [] }

abbrev rekord : RekordPracyV1
rekord = record {
  schema = 1;
  receipt_hash = "rh-1";
  job_id = "job-1";
  client_pubkey = public biblioteki klucz;
  executor_pubkey = public biblioteki klucz;
  model_declared = "mistral";
  runtime_declared = "vllm";
  model_manifest_hash = none;
  tokenizer_manifest_hash = none;
  execution_profile_hash = none;
  prompt_commitment = none;
  output_commitment = "oc";
  prompt_tokens_total = 3;
  prompt_tokens_computed = none;
  prompt_tokens_cached = none;
  completion_tokens = 2;
  client_observed_ttft_ms = none;
  client_observed_total_ms = 9;
  identity_epoch = 1;
  verification_status = signature_valid;
  receipt_signature = record { bajty = 1 ∷ 2 ∷ [] };
}

abbrev linia : String
linia = drukuj (rekord_dokument biblioteki rekord)

-- A parser that knows one record.
abbrev czytnik : Czytnik
czytnik = record {
  from_str = λ s. if str_eq s linia then ok rekord else err "expected value";
  pusta = str_is_empty;
}

powtorka : (dopisz biblioteki ("rh-1" ∷ []) none rekord udany).0 ≡ err (powtorzenie "rh-1")
unfolding dopisz
powtorka = refl

abbrev zdarzenia : List Zdarzenie
zdarzenia =
    wpis rekord (blad_otwarcia "disk full") ∷ wpis rekord udany ∷ otwarcie ∷ wpis rekord udany ∷ []

czysty_wpis : Czyste biblioteki czytnik (wpis rekord udany)
unfolding rekord_dokument status_nazwa key_dokument signature_dokument public drukuj zakoduj skrot
czysty_wpis = (linia, refl, refl, refl)

bez_powtorzen_example :
    (rs : List RekordPracyV1) × (wczytaj_wszystko czytnik
        (przebieg biblioteki czytnik ([], none) zdarzenia).1
      ≡ ok rs)
    × Rozne (odciski czytnik rs)
bez_powtorzen_example =
    bez_powtorzen biblioteki czytnik zdarzenia (czysty_wpis, (czysty_wpis, (tt, (czysty_wpis, tt))))
