-- ===== src/Klient/Wyscig.antt =====
-- crates/simon-harness/src/client_protocol.rs: the coordinators' answers, the race between them, the
-- list of trusted coordinators, and the finished order.
use simon.Prelude.{
  ℕ, Bool, true, false, ◌&&◌, List, [], ◌∷◌, ◌++◌, String, Option, none, some, Result, ok, err,
  ◌>>◌, guard, if◌then◌else◌, any,
}
use simon.Prelude.Text.{str_eq, str_append, as_bytes}
use simon.Prelude.StrOrder.{str_leb, str_ltb}
use simon.Prelude.MinBy.{min_by}
use simon.Prelude.Int.{pos}
use simon.Kodowanie.{
  Dokument, Biblioteki, number, text, struct, koniec, pole, SimonError, receipt_mismatch,
  content_digest,
}
use simon.Crypto.{PublicKey, Keypair, sign_digest}
use simon.Receipt.{Receipt, pole_opcjonalne, verify_for_node}
use simon.Klient.Podpis.{podpis_hex}

pub record OrderAccepted : Type 0 where
  pub order_id : String
  pub job_id : String
  pub coordinator_pubkey : String
  pub vrf_seed : String
  pub vrf_block : ℕ
  pub estimated_ms : ℕ
  pub signature : Option String

unfoldable pub przyjecie_dokument : OrderAccepted → Dokument
przyjecie_dokument a = struct (
    pole "order_id" (text a.order_id) (
      pole "job_id" (text a.job_id) (
        pole "coordinator_pubkey" (text a.coordinator_pubkey) (
          pole "vrf_seed" (text a.vrf_seed) (
            pole "vrf_block" (number (pos a.vrf_block)) (
              pole "estimated_ms" (number (pos a.estimated_ms))
                (pole_opcjonalne "signature" text a.signature koniec)))))))

pub record OrderCompleted : Type 0 where
  pub order_id : String
  pub job_id : String
  pub node_id : String
  pub receipt : Receipt
  pub coordinator_pubkey : String

-- `RejestrKoordynatorow`: the set of trusted keys; `z_kluczami` collects the list into it.
abbrev pub RejestrKoordynatorow : Type 0
RejestrKoordynatorow = List String

unfoldable pub zawiera : RejestrKoordynatorow → String → Bool
zawiera klucze pubkey_hex = any (str_eq pubkey_hex) klucze

module _ (b : Biblioteki) where
  -- `OrderAccepted::digest`
  unfoldable pub odcisk_przyjecia : OrderAccepted → Result SimonError String
  odcisk_przyjecia a = content_digest b (przyjecie_dokument (record a { signature = none }))

  -- `OrderAccepted::sign`
  unfoldable pub podpisz_przyjecie : OrderAccepted → Keypair → OrderAccepted
  podpisz_przyjecie a keypair = elim (odcisk_przyjecia a) [
    | ok d ↦ record a { signature = some (b.hex_encode (sign_digest b keypair d).bajty) }
    | err _ ↦ a
  ]

  -- `OrderAccepted::podpis_zgadza_sie`
  unfoldable pub podpis_przyjecia : OrderAccepted → Bool
  podpis_przyjecia a = podpis_hex b a.signature a.coordinator_pubkey (odcisk_przyjecia a)

  unfoldable pub ranking : OrderAccepted → String
  ranking c = b.hex_encode (b.sha256 (as_bytes c.order_id ++ 124 ∷ as_bytes c.coordinator_pubkey))

  -- `ranking(a).cmp(ranking(b)).then_with(|| a.job_id.cmp(b.job_id))` is not `Greater`.
  unfoldable pub wczesniejszy : OrderAccepted → OrderAccepted → Bool
  wczesniejszy a c =
      if str_ltb (ranking a) (ranking c)
      then true
      else if str_ltb (ranking c) (ranking a)
      then false
      else str_leb a.job_id c.job_id

  unfoldable pub winner : List OrderAccepted → Option OrderAccepted
  winner candidates = min_by wczesniejszy candidates

  -- The three filters of `RejestrKoordynatorow::dopusc`
  unfoldable pub dopuszczony : RejestrKoordynatorow → String → OrderAccepted → Bool
  dopuszczony klucze order_id c =
      str_eq c.order_id order_id && (zawiera klucze c.coordinator_pubkey && podpis_przyjecia c)

  unfoldable pub dopusc : RejestrKoordynatorow → List OrderAccepted → String → List OrderAccepted
  dopusc klucze [] order_id = []
  dopusc klucze (c ∷ cs) order_id =
      let reszta = dopusc klucze cs order_id in
      if dopuszczony klucze order_id c then c ∷ reszta else reszta

  unfoldable pub winner_zrejestrowany :
      RejestrKoordynatorow → List OrderAccepted → String → Option OrderAccepted
  winner_zrejestrowany klucze kandydaci order_id =
      min_by wczesniejszy (dopusc klucze kandydaci order_id)

  unfoldable pub verify_completion :
      OrderCompleted → String → PublicKey → Result SimonError (Unit {0})
  verify_completion completed expected_order_id registered_node_key = do
    guard (str_eq completed.order_id expected_order_id) (
        receipt_mismatch (
          str_append "order_id: otrzymano="
            (str_append completed.order_id (str_append " oczekiwano=" expected_order_id))))
    verify_for_node b completed.receipt completed.job_id completed.node_id registered_node_key
