-- ===== src/Klient/Zlecenie.antt =====
-- crates/simon-harness/src/client_protocol.rs: the order, its proof of the burnt fee, and the user's
-- authorisation of it.
use simon.Prelude.{
  ℕ, ◌+◌, ◌%◌, ◌^◌, Bool, true, false, not, ◌&&◌, List, [], ◌∷◌, ◌++◌, String, Option, none, some,
  Result, ok, err, ◌>>=◌, ◌>>◌, guard, ok_or, any, if◌then◌else◌, leb, ltb, ◌==◌,
}
use simon.Prelude.Text.{str_eq, str_append, as_bytes, str_is_empty}
use simon.Prelude.Int.{pos}
use simon.Kodowanie.{
  Bytes, Dokument, Elementy, Biblioteki, number, float, text, bool, seq, struct, nil, cons, koniec,
  pole, SimonError, receipt_mismatch, content_digest,
}
use simon.Crypto.{Keypair, sign_digest}
use simon.Receipt.{pole_opcjonalne}
use simon.Klient.Podpis.{podpis_hex}

-- An `f64` by its decimal text; the program only stores and prints it.
abbrev pub F64 : Type 0
F64 = String

pub record BurnProof : Type 0 where
  pub tx_hash : String
  pub block_number : ℕ
  pub merkle_proof : List String
  pub nonce : ℕ
  pub burned_at : F64
  pub owner_signature : String
  pub jest_synthetic : Bool

-- The decimal text of a number, which `format!` writes.
pub record Format : Type 0 where
  pub liczba : ℕ → String

-- The parts of a formatted text, one after another.
abbrev pub polacz : List String → String
polacz [] = ""
polacz (s ∷ ss) = str_append s (polacz ss)

unfoldable pub synthetic : Format → String → ℕ → BurnProof
synthetic fmt order_id fee = record {
  tx_hash = str_append "synthetic:" (str_append order_id (str_append ":" (fmt.liczba fee)));
  block_number = 0;
  merkle_proof = [];
  nonce = 0;
  burned_at = "0.0";
  owner_signature = "";
  jest_synthetic = true;
}

unfoldable pub is_verifiable : BurnProof → Bool
is_verifiable p =
    not p.jest_synthetic
    && (not (str_is_empty p.tx_hash)
        && (ltb 0 p.block_number && not (str_is_empty p.owner_signature)))

pub record Autoryzacja : Type 0 where
  pub v : ℕ
  pub payload_digest : String
  pub model_hash : String
  pub fee_think : ℕ
  pub timeout_secs : ℕ
  pub nonce : String
  pub wazne_do : ℕ
  pub user_pubkey : String
  pub signature : Option String

abbrev pub format_v : ℕ
format_v = 1

abbrev pub tolerancja_zegara_secs : ℕ
tolerancja_zegara_secs = 60

pub record JobOrder : Type 0 where
  pub order_id : String
  pub model_hash : String
  pub payload_digest : String
  pub fee_think : ℕ
  pub burn : BurnProof
  pub timeout_secs : ℕ
  pub client_pubkey : String
  pub nonce : String
  pub signature : Option String
  pub autoryzacja : Option Autoryzacja

unfoldable pub teksty : List String → Elementy
teksty [] = nil
teksty (s ∷ ss) = cons (text s) (teksty ss)

unfoldable pub burn_dokument : BurnProof → Dokument
burn_dokument p = struct (
    pole "tx_hash" (text p.tx_hash) (
      pole "block_number" (number (pos p.block_number)) (
        pole "merkle_proof" (seq (teksty p.merkle_proof)) (
          pole "nonce" (number (pos p.nonce)) (
            pole "burned_at" (float p.burned_at) (
              pole "owner_signature" (text p.owner_signature)
                (pole "synthetic" (bool p.jest_synthetic) koniec)))))))

unfoldable pub autoryzacja_dokument : Autoryzacja → Dokument
autoryzacja_dokument a = struct (
    pole "v" (number (pos a.v)) (
      pole "payload_digest" (text a.payload_digest) (
        pole "model_hash" (text a.model_hash) (
          pole "fee_think" (number (pos a.fee_think)) (
            pole "timeout_secs" (number (pos a.timeout_secs)) (
              pole "nonce" (text a.nonce) (
                pole "wazne_do" (number (pos a.wazne_do)) (
                  pole "user_pubkey" (text a.user_pubkey)
                    (pole_opcjonalne "signature" text a.signature koniec)))))))))

unfoldable pub order_dokument : JobOrder → Dokument
order_dokument o = struct (
    pole "order_id" (text o.order_id) (
      pole "model_hash" (text o.model_hash) (
        pole "payload_digest" (text o.payload_digest) (
          pole "fee_think" (number (pos o.fee_think)) (
            pole "burn" (burn_dokument o.burn) (
              pole "timeout_secs" (number (pos o.timeout_secs)) (
                pole "client_pubkey" (text o.client_pubkey) (
                  pole "nonce" (text o.nonce) (
                    pole_opcjonalne "signature" text o.signature (
                      pole_opcjonalne "autoryzacja" autoryzacja_dokument o.autoryzacja
                        koniec))))))))))

-- `Autoryzacja::czy_wazna`, whose sum wraps at 64 bits in a release build.
unfoldable pub czy_wazna : Autoryzacja → ℕ → Bool
czy_wazna a teraz_unix = leb teraz_unix ((a.wazne_do + tolerancja_zegara_secs) % 2 ^ 64)

unfoldable pub zgodna_z : Autoryzacja → JobOrder → Bool
zgodna_z a order =
    str_eq a.payload_digest order.payload_digest
    && (str_eq a.model_hash order.model_hash
        && (a.fee_think == order.fee_think
            && (a.timeout_secs == order.timeout_secs
                && (str_eq a.user_pubkey order.client_pubkey && str_eq a.nonce order.nonce))))

-- `JobOrder::is_funded`, `JobOrder::has_verifiable_burn`
unfoldable pub is_funded : JobOrder → Bool
is_funded o = ltb 0 o.fee_think

unfoldable pub has_verifiable_burn : JobOrder → Bool
has_verifiable_burn o = is_verifiable o.burn

-- What `JobOrder::digest` takes the digest of.
unfoldable pub bez_cyklu : JobOrder → JobOrder
bez_cyklu o = record o {
  signature = none;
  order_id = "";
  autoryzacja = none;
  burn = record {
    tx_hash = "";
    block_number = 0;
    merkle_proof = [];
    nonce = 0;
    burned_at = "0.0";
    owner_signature = "";
    jest_synthetic = o.burn.jest_synthetic;
  };
}

module _ (b : Biblioteki) where
  unfoldable pub payload_digest_z_nonce : String → Bytes → String
  payload_digest_z_nonce nonce payload = b.hex_encode (b.sha256 (as_bytes nonce ++ 124 ∷ payload))

  -- `Autoryzacja::digest`
  unfoldable pub odcisk_autoryzacji : Autoryzacja → Result SimonError String
  odcisk_autoryzacji a = content_digest b (autoryzacja_dokument (record a { signature = none }))

  -- `Autoryzacja::sign`: unsigned still, where the digest fails.
  unfoldable pub podpisz_autoryzacje : Autoryzacja → Keypair → Autoryzacja
  podpisz_autoryzacje a keypair = elim (odcisk_autoryzacji a) [
    | ok d ↦ record a { signature = some (b.hex_encode (sign_digest b keypair d).bajty) }
    | err _ ↦ a
  ]

  -- `Autoryzacja::podpis_zgadza_sie`
  unfoldable pub podpis_autoryzacji : Autoryzacja → Bool
  podpis_autoryzacji a = podpis_hex b a.signature a.user_pubkey (odcisk_autoryzacji a)

  -- `JobOrder::digest`
  unfoldable pub odcisk_zlecenia : JobOrder → Result SimonError String
  odcisk_zlecenia o = content_digest b (order_dokument (bez_cyklu o))

  -- `JobOrder::new`, with the random nonce as an argument.
  unfoldable pub nowe_zlecenie :
      Format → String → String → Bytes → ℕ → ℕ → String → Result SimonError JobOrder
  nowe_zlecenie fmt nonce model_hash payload fee_think timeout_secs client_pubkey = do
    let zlecenie : JobOrder = record {
      burn = synthetic fmt "" fee_think;
      order_id = "";
      model_hash = model_hash;
      payload_digest = payload_digest_z_nonce nonce payload;
      fee_think = fee_think;
      timeout_secs = timeout_secs;
      client_pubkey = client_pubkey;
      nonce = nonce;
      signature = none;
      autoryzacja = none;
    }
    id ← odcisk_zlecenia zlecenie
    ok (record zlecenie { order_id = id; burn = synthetic fmt id fee_think })

  unfoldable pub order_id_sie_zgadza : JobOrder → Bool
  order_id_sie_zgadza o = elim (odcisk_zlecenia o) [ ok d ↦ str_eq d o.order_id | err _ ↦ false ]

  unfoldable pub zweryfikuj_autoryzacje : Format → JobOrder → ℕ → Result SimonError String
  zweryfikuj_autoryzacje fmt o teraz_unix = do
    auth ← ok_or o.autoryzacja (receipt_mismatch "D110: zlecenie bez autoryzacji użytkownika")
    guard (auth.v == format_v) (
        receipt_mismatch (
          polacz (
            "M0.4a: nieznana wersja formatu "
            ∷ fmt.liczba auth.v
            ∷ " (oczekiwano "
            ∷ fmt.liczba format_v
            ∷ ")"
            ∷ [])))
    guard (zgodna_z auth o)
        (receipt_mismatch "M0.4c: pola zlecenia NIE zgadzają się z autoryzacją (podstawienie)")
    guard (podpis_autoryzacji auth)
        (receipt_mismatch "D110: podpis użytkownika nie odpowiada autoryzacji")
    guard (czy_wazna auth teraz_unix) (
        receipt_mismatch (
          polacz (
            "M0.4b: autoryzacja przeterminowana (wazne_do="
            ∷ fmt.liczba auth.wazne_do
            ∷ ", teraz="
            ∷ fmt.liczba teraz_unix
            ∷ ")"
            ∷ [])))
    odcisk_autoryzacji auth

-- `RejestrZuzytychAutoryzacji`: a set of digests
abbrev pub Zuzyte : Type 0
Zuzyte = List String

-- `HashSet::contains`
abbrev pub zawiera_tekst : List String → String → Bool
zawiera_tekst xs s = any (str_eq s) xs

unfoldable pub zajmij : Zuzyte → String → Result SimonError Zuzyte
zajmij zuzyte odcisk =
    if zawiera_tekst zuzyte odcisk
    then err (receipt_mismatch "M0.4b: autoryzacja już zużyta (powtórka tego samego podpisu)")
    else ok (odcisk ∷ zuzyte)
