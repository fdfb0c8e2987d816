-- ===== src/Wasm/Tests.antt =====
-- Witnesses for crates/simon-verify-wasm/src/lib.rs, over the libraries of Crypto.Toy.
use simon.Prelude.{◌≡◌, ◌↔◌, true, not, [], ◌∷◌, some, none, ok}
use simon.Prelude.Trim.{trim}
use simon.Prelude.Dict.{is_some}
use simon.Crypto.{Keypair, public}
use simon.Crypto.Toy.{biblioteki}
use simon.Receipt.{Receipt, fp16}
use simon.Wasm.{Parsery, werdykt_json}
use simon.Wasm.Verdict.{Prawdziwy, werdykt_json_iff}

abbrev klucz : Keypair
klucz = record { inner = 7 ∷ 7 ∷ [] }

abbrev paragon : Receipt
paragon = record {
  job_id = "j";
  node_id = "n";
  model_hash = "m";
  runtime = "llama.cpp/0.3";
  precision = fp16;
  activation_hash = "toploc";
  output_digest = "abc";
  prompt_tokens = 3;
  completion_tokens = 3;
  started_at_us = 0;
  finished_at_us = 1;
  signer = public biblioteki klucz;
  signature = none;
  wiazania = none;
}

abbrev parsery : Parsery
parsery = record { receipt = λ s. ok paragon; tokeny = λ s. ok (1 ∷ 2 ∷ []) }

werdykt_json_iff_example :
    (((werdykt_json biblioteki parsery "{}" (some "x") (some "j") none).jest_ok ≡ true) ↔ (
      (r : Receipt) × (parsery.receipt (trim "{}") ≡ ok r)
      × Prawdziwy biblioteki r (some "x") (some "j") none))
    × (is_some (werdykt_json biblioteki parsery "{}" (some "x") (some "j") none).powod
        ≡ not (werdykt_json biblioteki parsery "{}" (some "x") (some "j") none).jest_ok)
werdykt_json_iff_example = werdykt_json_iff biblioteki parsery "{}" (some "x") (some "j") none
