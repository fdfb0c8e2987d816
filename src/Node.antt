-- ===== src/Node.antt =====
-- crates/simon-node/src/lib.rs: the coordinator's registry of nodes and jobs.
pub mod Register
pub mod Wynik
pub mod Los
pub mod Steps
pub mod Upkeep
pub mod Invariant
pub mod Complete
pub mod Evict
pub mod Identity
pub mod Candidates
pub mod Draw
pub mod Toy
mod Tests
use simon.Prelude.{
  ℕ, ◌+◌, ◌-◌, ◌%◌, ◌^◌, Bool, true, false, not, ◌&&◌, ◌||◌, List, [], ◌∷◌, map, String, Option,
  none, some, Result, ok, err, ◌>>=◌, ◌>>◌, guard, ok_or, if◌then◌else◌, leb, ◌==◌, length,
  is_empty,
}
use simon.Prelude.Text.{str_eq}
use simon.Prelude.Dict.{Dict, lookup, insert, remove, contains_key, values}
use simon.Prelude.StrOrder.{sort, str_ltb}
use simon.Kodowanie.{
  Dokument, seq, text, nil, cons, get, as_str, as_u64, Biblioteki, SimonError, receipt_mismatch,
  unregistered_key, crypto, content_digest,
}
use simon.Crypto.{PublicKey}
use simon.Receipt.{Receipt, verify_for_node}
use simon.Node.Register.{
  NodeState, registered, healthy, degraded, evicted, Capability, usable, protocol_version,
  RegisterMsg, verify_self, verify_voucher,
}
use simon.Node.Wynik.{JobResult, verify_from_node, bez_bledu}

pub record Registry : Type 0 where
  pub nodes : Dict RegisterMsg
  pub states : Dict NodeState
  -- job -> node
  pub assigned : Dict String
  pub timeout_s : Option ℕ
  pub last_seen : Dict ℕ

-- `Registry::new`
unfoldable pub nowy_rejestr : Registry
nowy_rejestr = record { nodes = []; states = []; assigned = []; timeout_s = none; last_seen = [] }

-- The two insertions with which both registrations end.
abbrev pub zapisz_wezel : Registry → RegisterMsg → Registry
zapisz_wezel g msg = record g {
  nodes = insert msg.node_id msg g.nodes;
  states = insert msg.node_id registered g.states;
}

unfoldable pub register : Registry → RegisterMsg → Registry × Bool
register g msg =
    if not (str_eq msg.protocol protocol_version)
    then (g, false)
    else if contains_key msg.node_id g.nodes
    then (g, false)
    else (zapisz_wezel g msg, true)

-- `matches!(state, Some(Evicted) | Some(Degraded))`
abbrev pub wylaczony : Option NodeState → Bool
wylaczony (some evicted) = true
wylaczony (some degraded) = true
wylaczony _ = false

-- `d.get("model_hash").and_then(|v| v.as_str()) == Some(model_hash)`
abbrev pub ma_model : String → Option Dokument → Bool
ma_model model_hash none = false
ma_model model_hash (some v) = elim (as_str v) [ none ↦ false | some s ↦ str_eq s model_hash ]

-- `.get("max_ctx").and_then(|v| v.as_u64()).unwrap_or(0)`
abbrev pub limit_ctx : Option Dokument → ℕ
limit_ctx none = 0
limit_ctx (some v) = elim (as_u64 v) [ none ↦ 0 | some n ↦ n ]

-- `limit as u32` keeps the low 32 bits.
unfoldable pub miesci_ctx : ℕ → ℕ → Bool
miesci_ctx wymagany_ctx limit =
    wymagany_ctx == 0 || (limit == 0 || leb wymagany_ctx (limit % 2 ^ 32))

-- The four filters of `kandydaci_dla_modelu`, in their order.
unfoldable pub nadaje_sie : Registry → String → ℕ → RegisterMsg → Bool
nadaje_sie g model_hash wymagany_ctx n =
    usable n.capability
    && (ma_model model_hash (get n.capability.declared "model_hash")
        && (miesci_ctx wymagany_ctx (limit_ctx (get n.capability.declared "max_ctx"))
            && not (wylaczony (lookup n.node_id g.states))))

-- `values().filter(p).map(|n| n.node_id.clone())`
unfoldable pub id_spelniajacych : (RegisterMsg → Bool) → List RegisterMsg → List String
id_spelniajacych p [] = []
id_spelniajacych p (n ∷ ns) =
    let reszta = id_spelniajacych p ns in if p n then n.node_id ∷ reszta else reszta

unfoldable pub kandydaci_dla_modelu : Registry → String → ℕ → List String
kandydaci_dla_modelu g model_hash wymagany_ctx =
    sort (id_spelniajacych (nadaje_sie g model_hash wymagany_ctx) (values g.nodes))

unfoldable pub assign : Registry → String → String → Registry × Bool
assign g job_id node_id = elim (lookup node_id g.nodes) [
  | none ↦ (g, false)
  | some node ↦
      if not (usable node.capability)
      then (g, false)
      else if wylaczony (lookup node_id g.states)
      then (g, false)
      else (record g { assigned = insert job_id node_id g.assigned }, true)
]

-- `self.assigned.iter().filter(|(_, n)| n == node_id).map(|(j, _)| j.clone())`
unfoldable pub osierocone : String → Dict String → List String
osierocone node_id [] = []
osierocone node_id ((j, n) ∷ d) =
    let reszta = osierocone node_id d in if str_eq n node_id then j ∷ reszta else reszta

-- `for job in &orphaned { self.assigned.remove(job); }`
unfoldable pub usun_wszystkie : List String → Dict String → Dict String
usun_wszystkie [] d = d
usun_wszystkie (j ∷ js) d = usun_wszystkie js (remove j d)

unfoldable pub evict : Registry → String → Registry × List String
evict g node_id =
    if not (contains_key node_id g.nodes)
    then (g, [])
    else let orphaned = osierocone node_id g.assigned in
      (
        record g {
          states = insert node_id evicted g.states;
          assigned = usun_wszystkie orphaned g.assigned;
        },
        orphaned,
      )

abbrev pub ustaw_stan : Registry → String → NodeState → Result SimonError Registry
ustaw_stan g node_id stan =
    if not (contains_key node_id g.nodes)
    then err unregistered_key
    else ok (record g { states = insert node_id stan g.states })

unfoldable pub mark_degraded : Registry → String → Result SimonError Registry
mark_degraded g node_id = ustaw_stan g node_id degraded

unfoldable pub heartbeat : Registry → String → Result SimonError Registry
heartbeat g node_id = ustaw_stan g node_id healthy

unfoldable pub record_heartbeat : Registry → String → ℕ → Result SimonError Registry
record_heartbeat g node_id teraz_s = do
  g' ← ustaw_stan g node_id healthy
  ok (record g' { last_seen = insert node_id teraz_s g'.last_seen })

unfoldable pub active_assignments : Registry → ℕ
active_assignments g = length g.assigned

unfoldable pub complete_job : Registry → String → Registry × Option String
complete_job g job_id = (record g { assigned = remove job_id g.assigned }, lookup job_id g.assigned)

module _ (b : Biblioteki) where
  unfoldable pub register_verified :
      Registry → RegisterMsg → Option PublicKey → Result SimonError Registry
  register_verified g msg operator_voucher_key = do
    guard (str_eq msg.protocol protocol_version) (crypto "niezgodna wersja protokołu")
    guard (not (contains_key msg.node_id g.nodes)) (crypto "węzeł o tym id jest już zarejestrowany")
    verify_self b msg
    elim operator_voucher_key [ none ↦ ok tt | some op ↦ verify_voucher b msg op ]
    ok (zapisz_wezel g msg)

  -- The block `if result.ok { .. }` of `complete`
  unfoldable pub sprawdz_receipt : Registry → JobResult → Result SimonError (Unit {0})
  sprawdz_receipt g result = do
    receipt ← ok_or result.receipt (receipt_mismatch "sukces bez receiptu")
    zarejestrowany ← ok_or (lookup result.node_id g.nodes) unregistered_key
    verify_for_node b receipt result.job_id result.node_id zarejestrowany.pubkey

  unfoldable pub complete : Registry → JobResult → Result SimonError Registry
  complete g result = do
    assigned_to ←
        ok_or (lookup result.job_id g.assigned) (receipt_mismatch "job nie jest przydzielony")
    guard (str_eq assigned_to result.node_id)
        (receipt_mismatch "wynik od node'a, któremu nie przydzielono joba")
    elim result.udany [ true ↦ sprawdz_receipt g result | false ↦ ok tt ]
    ok (record g { assigned = remove result.job_id g.assigned })

  -- `self.assigned.get(&result.job_id) != Some(&result.node_id)`
  abbrev pub przydzielony_do : Option String → String → Bool
  przydzielony_do none node_id = false
  przydzielony_do (some n) node_id = str_eq n node_id

  unfoldable pub verify_result_from_assigned_node :
      Registry → JobResult → Result SimonError (Unit {0})
  verify_result_from_assigned_node g result = do
    guard (przydzielony_do (lookup result.job_id g.assigned) result.node_id)
        (receipt_mismatch "wynik od node'a, któremu nie przydzielono joba")
    zarejestrowany ← ok_or (lookup result.node_id g.nodes) unregistered_key
    verify_from_node b result zarejestrowany.pubkey
