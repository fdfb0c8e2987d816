-- ===== src/Rejestr.antt =====
-- crates/simon-core/src/rejestr.rs: the append-only ledger of signed work.
pub mod Unique
mod Tests
use simon.Prelude.{
  ℕ, ◌+◌, ◌==◌, Bool, true, false, List, [], ◌∷◌, ◌++◌, String, Option, none, some, Result, ok, err,
  ◌>>=◌, map_err, any, if◌then◌else◌,
}
use simon.Prelude.Text.{str_eq, str_append, str_is_empty}
use simon.Prelude.Int.{pos}
use simon.Kodowanie.{Dokument, Biblioteki, number, text, struct, koniec, pole}
use simon.Crypto.{PublicKey, Signature, key_dokument, signature_dokument}
use simon.Receipt.{pole_opcjonalne}

pub data StatusWeryfikacji : Type 0 where
  signature_valid output_bound execution_audit_pending execution_audit_pass execution_audit_fail :
      StatusWeryfikacji

unfoldable pub status_nazwa : StatusWeryfikacji → String
status_nazwa signature_valid = "SignatureValid"
status_nazwa output_bound = "OutputBound"
status_nazwa execution_audit_pending = "ExecutionAuditPending"
status_nazwa execution_audit_pass = "ExecutionAuditPass"
status_nazwa execution_audit_fail = "ExecutionAuditFail"

pub record RekordPracyV1 : Type 0 where
  pub schema : ℕ
  pub receipt_hash : String
  pub job_id : String
  pub client_pubkey : PublicKey
  pub executor_pubkey : PublicKey
  pub model_declared : String
  pub runtime_declared : String
  pub model_manifest_hash : Option String
  pub tokenizer_manifest_hash : Option String
  pub execution_profile_hash : Option String
  pub prompt_commitment : Option String
  pub output_commitment : String
  pub prompt_tokens_total : ℕ
  pub prompt_tokens_computed : Option ℕ
  pub prompt_tokens_cached : Option ℕ
  pub completion_tokens : ℕ
  pub client_observed_ttft_ms : Option ℕ
  pub client_observed_total_ms : ℕ
  pub identity_epoch : ℕ
  pub verification_status : StatusWeryfikacji
  pub receipt_signature : Signature

-- The errors of the system and of serde_json are kept as their texts.
pub data BladRejestru : Type 0 where
  powtorzenie : String → BladRejestru
  wejscie_wyjscie : String → BladRejestru
  zly_format : String → BladRejestru

abbrev pub liczba : ℕ → Dokument
liczba n = number (pos n)

unfoldable pub rekord_dokument : Biblioteki → RekordPracyV1 → Dokument
unfolding status_nazwa
rekord_dokument b r = struct (
    pole "schema" (liczba r.schema) (
      pole "receipt_hash" (text r.receipt_hash) (
        pole "job_id" (text r.job_id) (
          pole "client_pubkey" (key_dokument b r.client_pubkey) (
            pole "executor_pubkey" (key_dokument b r.executor_pubkey) (
              pole "model_declared" (text r.model_declared) (
                pole "runtime_declared" (text r.runtime_declared) (
                  pole_opcjonalne "model_manifest_hash" text r.model_manifest_hash (
                    pole_opcjonalne "tokenizer_manifest_hash" text r.tokenizer_manifest_hash (
                      pole_opcjonalne "execution_profile_hash" text r.execution_profile_hash (
                        pole_opcjonalne "prompt_commitment" text r.prompt_commitment (
                          pole "output_commitment" (text r.output_commitment) (
                            pole "prompt_tokens_total" (liczba r.prompt_tokens_total) (
                              pole_opcjonalne "prompt_tokens_computed" liczba
                                r.prompt_tokens_computed
                                (pole_opcjonalne "prompt_tokens_cached" liczba
                                  r.prompt_tokens_cached
                                  (pole "completion_tokens" (liczba r.completion_tokens) (
                                    pole_opcjonalne "client_observed_ttft_ms" liczba
                                      r.client_observed_ttft_ms
                                      (pole "client_observed_total_ms"
                                        (liczba r.client_observed_total_ms)
                                        (pole "identity_epoch" (liczba r.identity_epoch) (
                                          pole "verification_status"
                                            (text (status_nazwa r.verification_status))
                                            (pole "receipt_signature"
                                              (signature_dokument b r.receipt_signature)
                                              koniec)))))))))))))))))))))

-- The file: its lines, and what stands after the last line's end.
pub record Plik : Type 0 where
  pub linie : List String
  pub ogon : String

-- What the system does with a write: nothing, a part of the line, or all of it and the line's end.
pub data Zapis : Type 0 where
  udany : Zapis
  blad_otwarcia : String → Zapis
  blad_zapisu : String → String → Zapis

-- `BufRead::lines`
abbrev pub lines : Plik → List String
lines f = if str_is_empty f.ogon then f.linie else f.linie ++ f.ogon ∷ []

-- The receipts that were seen; the path is that of the one file.
abbrev pub Rejestr : Type 0
Rejestr = List String

-- The parser of serde_json and the test `linia.trim().is_empty()` are arguments.
pub record Czytnik : Type 0 where
  pub from_str : String → Result String RekordPracyV1
  pub pusta : String → Bool

module _ (c : Czytnik) where
  unfoldable pub wczytaj : List String → Result BladRejestru (List RekordPracyV1)
  wczytaj [] = ok []
  wczytaj (l ∷ ls) =
      let reszta = wczytaj ls in
      if c.pusta l
      then reszta
      else (map_err zly_format (c.from_str l) >>= λ r. reszta >>= λ rs. ok (r ∷ rs))

  abbrev pub odciski : List RekordPracyV1 → Rejestr
  odciski [] = []
  odciski (r ∷ rs) = r.receipt_hash ∷ odciski rs

  -- A missing file is `none`.
  unfoldable pub wczytaj_wszystko : Option Plik → Result BladRejestru (List RekordPracyV1)
  wczytaj_wszystko none = ok []
  wczytaj_wszystko (some f) = wczytaj (lines f)

  unfoldable pub otworz : Option Plik → Result BladRejestru Rejestr
  otworz f = wczytaj_wszystko f >>= λ rs. ok (odciski rs)

abbrev pub tresc : Option Plik → Plik
tresc none = record { linie = []; ogon = "" }
tresc (some f) = f

module _ (b : Biblioteki) where
  unfoldable pub dopisz :
      Rejestr → Option Plik → RekordPracyV1 → Zapis → Result BladRejestru Rejestr × Option Plik
  dopisz widziane f rekord z =
      if any (str_eq rekord.receipt_hash) widziane
      then (err (powtorzenie rekord.receipt_hash), f)
      else elim (b.to_string (rekord_dokument b rekord)) [
        | err e ↦ (err (zly_format e), f)
        | ok linia ↦
            let p = tresc f in
            elim z [
              | blad_otwarcia e ↦ (err (wejscie_wyjscie e), f)
              | blad_zapisu e czesc ↦
                  (err (wejscie_wyjscie e), some (record p { ogon = str_append p.ogon czesc }))
              | udany ↦ (
                ok (rekord.receipt_hash ∷ widziane),
                some (record { linie = p.linie ++ str_append p.ogon linia ∷ []; ogon = "" }),
              )
            ]
      ]
