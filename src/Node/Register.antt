-- ===== src/Node/Register.antt =====
-- crates/simon-node/src/lib.rs: the state of a node, its declaration of power, and the message with
-- which it registers.
use simon.Prelude.{Bool, String, Option, none, some, Result, ok, ◌>>=◌, ok_or}
use simon.Prelude.Dict.{is_some}
use simon.Kodowanie.{
  Dokument, object, text, pole, koniec, Biblioteki, SimonError, bad_signature, content_digest,
}
use simon.Crypto.{PublicKey, Signature, Keypair, public, sign_digest, verify_digest, key_dokument}

pub data NodeState : Type 0 where
  registered healthy busy degraded evicted : NodeState

pub record Capability : Type 0 where
  pub declared : Dokument
  pub attested : Option Dokument

unfoldable pub usable : Capability → Bool
usable c = is_some c.attested

abbrev pub protocol_version : String
protocol_version = "simon/v1"

abbrev pub domena_node_register : String
domena_node_register = "SIMON/NODE-REGISTER/v1"

abbrev pub domena_node_voucher : String
domena_node_voucher = "SIMON/NODE-VOUCH/v1"

pub record RegisterMsg : Type 0 where
  pub node_id : String
  pub protocol : String
  pub capability : Capability
  pub region : String
  pub pubkey : PublicKey
  pub signature : Option Signature
  pub voucher_signature : Option Signature

-- `RegisterMsg::new`
unfoldable pub nowa_rejestracja : String → PublicKey → Capability → RegisterMsg
nowa_rejestracja node_id pubkey capability = record {
  node_id = node_id;
  protocol = protocol_version;
  capability = capability;
  region = "unknown";
  pubkey = pubkey;
  signature = none;
  voucher_signature = none;
}

module _ (b : Biblioteki) where
  unfoldable pub register_dokument : RegisterMsg → Dokument
  register_dokument m = object (
      pole "domena" (text domena_node_register) (
        pole "node_id" (text m.node_id) (
          pole "protocol" (text m.protocol) (
            pole "declared" m.capability.declared
              (pole "region" (text m.region) (pole "pubkey" (key_dokument b m.pubkey) koniec))))))

  unfoldable pub voucher_dokument : RegisterMsg → Dokument
  voucher_dokument m = object (
      pole "domena" (text domena_node_voucher) (
        pole "node_id" (text m.node_id)
          (pole "protocol" (text m.protocol) (pole "pubkey" (key_dokument b m.pubkey) koniec))))

  unfoldable pub digest : RegisterMsg → Result SimonError String
  digest m = content_digest b (register_dokument m)

  unfoldable pub voucher_digest : RegisterMsg → Result SimonError String
  voucher_digest m = content_digest b (voucher_dokument m)

  unfoldable pub sign : RegisterMsg → Keypair → Result SimonError RegisterMsg
  sign m node_key = do
    let m' = record m { pubkey = public b node_key }
    d ← digest m'
    ok (record m' { signature = some (sign_digest b node_key d) })

  unfoldable pub with_voucher : RegisterMsg → Keypair → Result SimonError RegisterMsg
  with_voucher m operator_key = do
    d ← voucher_digest m
    ok (record m { voucher_signature = some (sign_digest b operator_key d) })

  unfoldable pub verify_self : RegisterMsg → Result SimonError (Unit {0})
  verify_self m = do
    sig ← ok_or m.signature bad_signature
    d ← digest m
    verify_digest b m.pubkey d sig

  unfoldable pub verify_voucher : RegisterMsg → PublicKey → Result SimonError (Unit {0})
  verify_voucher m operator_pubkey = do
    sig ← ok_or m.voucher_signature bad_signature
    d ← voucher_digest m
    verify_digest b operator_pubkey d sig
