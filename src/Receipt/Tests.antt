-- ===== src/Receipt/Tests.antt =====
-- Tests and witnesses for receipt.rs, over the libraries of Crypto.Toy.
use simon.Prelude.{ℕ, ◌≡◌, ◌≢◌, ◌↔◌, refl, false, List, [], ◌∷◌, String, none, Result, ok, err}
use simon.Prelude.Text.{as_bytes, utf8}
use simon.Kodowanie.{content_digest, IsBytes, liczby, SimonError, bad_signature}
use simon.Crypto.{
  Keypair, public, sign_digest, verify_digest, key_eq, key_dokument, signature_dokument,
}
use simon.Crypto.Laws.{key_eq_iff}
use simon.Crypto.Toy.{biblioteki, prawa, zakoduj, skrot, podpisz, drukuj}
use simon.Receipt.{
  Receipt, fp16, sign, digest, verify_self, verify_for_node, z_wiazaniem_m1, zweryfikuj_m1,
  lancuch_tokenow, precision_nazwa, wiazania_dokument, odcisk_promptu, prompt_dokument,
  lancuch_dokument, receipt_dokument,
}
use simon.Receipt.Gates.{verify_for_node_iff}
use simon.Receipt.BindingGate.{Wiaze, zweryfikuj_m1_iff}

abbrev klucz : Keypair
klucz = record { inner = 7 ∷ 7 ∷ 7 ∷ [] }

abbrev obcy : Keypair
obcy = record { inner = 9 ∷ [] }

abbrev bazowy : Receipt
bazowy = record {
  job_id = "job-test";
  node_id = "node-test";
  model_hash = "mistral-7b";
  runtime = "llama.cpp/0.3";
  precision = fp16;
  activation_hash = "toploc";
  output_digest = "abc";
  prompt_tokens = 3;
  completion_tokens = 2;
  started_at_us = 1;
  finished_at_us = 2;
  signer = public biblioteki klucz;
  signature = none;
  wiazania = none;
}

or_bazowy : Result SimonError Receipt → Receipt
or_bazowy (ok r) = r
or_bazowy (err _) = bazowy

podpisany : Receipt
unfolding or_bazowy sign
podpisany = or_bazowy (sign biblioteki bazowy klucz)

podpisany_wazny : verify_self biblioteki podpisany ≡ ok tt
unfolding podpisany or_bazowy sign digest verify_self verify_digest public sign_digest
    content_digest receipt_dokument key_dokument signature_dokument precision_nazwa
    wiazania_dokument podpisz skrot zakoduj drukuj as_bytes utf8
podpisany_wazny = refl

zmieniony_niewazny :
    verify_self biblioteki (record podpisany { output_digest = "abd" }) ≡ err bad_signature
unfolding podpisany or_bazowy sign digest verify_self verify_digest public sign_digest
    content_digest receipt_dokument key_dokument signature_dokument precision_nazwa
    wiazania_dokument podpisz skrot zakoduj drukuj as_bytes utf8
zmieniony_niewazny = refl

verify_for_node_iff_example :
    (verify_for_node biblioteki podpisany "job-test" "node-test" (public biblioteki klucz) ≡ ok tt)
    ↔ ((verify_self biblioteki podpisany ≡ ok tt)
        × (podpisany.signer ≡ public biblioteki klucz)
        × (podpisany.job_id ≡ "job-test")
        × (podpisany.node_id ≡ "node-test"))
verify_for_node_iff_example =
    verify_for_node_iff biblioteki podpisany "job-test" "node-test" (public biblioteki klucz)

rozne_klucze : podpisany.signer ≢ public biblioteki obcy
unfolding podpisany or_bazowy sign digest verify_self verify_digest public sign_digest
    content_digest receipt_dokument key_dokument signature_dokument precision_nazwa
    wiazania_dokument podpisz skrot zakoduj drukuj as_bytes utf8
rozne_klucze e =
    let q : key_eq podpisany.signer (public biblioteki obcy) ≡ false = refl in
    cc (q, (key_eq_iff podpisany.signer (public biblioteki obcy)).1 e)

zwiazany : Receipt
unfolding or_bazowy sign z_wiazaniem_m1
zwiazany = or_bazowy (
    sign biblioteki
      (or_bazowy (
        z_wiazaniem_m1 biblioteki bazowy "tok" "nonce-1" (10 ∷ 20 ∷ []) (40 ∷ []) "params" 42
          "cpu"))
      klucz)

zwiazany_m1 : zweryfikuj_m1 biblioteki zwiazany "tok" "nonce-1" (10 ∷ 20 ∷ []) (40 ∷ []) ≡ ok tt
unfolding zwiazany z_wiazaniem_m1 zweryfikuj_m1 odcisk_promptu lancuch_tokenow prompt_dokument
    lancuch_dokument liczby or_bazowy sign digest verify_self verify_digest public sign_digest
    content_digest receipt_dokument key_dokument signature_dokument precision_nazwa
    wiazania_dokument podpisz skrot zakoduj drukuj as_bytes utf8
zwiazany_m1 = refl

zweryfikuj_m1_iff_example :
    (zweryfikuj_m1 biblioteki zwiazany "tok" "nonce-1" (10 ∷ 20 ∷ []) (40 ∷ []) ≡ ok tt)
    ↔ Wiaze biblioteki zwiazany "tok" "nonce-1" (10 ∷ 20 ∷ []) (40 ∷ [])
zweryfikuj_m1_iff_example =
    zweryfikuj_m1_iff biblioteki zwiazany "tok" "nonce-1" (10 ∷ 20 ∷ []) (40 ∷ [])

podpisany_IsBytes : IsBytes podpisany.signer.bajty
unfolding podpisany or_bazowy sign digest verify_self verify_digest public sign_digest
    content_digest receipt_dokument key_dokument signature_dokument precision_nazwa
    wiazania_dokument podpisz skrot zakoduj drukuj as_bytes utf8
podpisany_IsBytes = prawa.public_bytes klucz.inner

abbrev tok : String
tok = "tok"

abbrev wejscie : List ℕ
wejscie = 10 ∷ 20 ∷ []

abbrev wyjscie : List ℕ
wyjscie = 40 ∷ []

abbrev raz : String
raz = "nonce-1"
