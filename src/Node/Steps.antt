-- ===== src/Node/Steps.antt =====
-- Sequences of calls on one `Registry` of crates/simon-node/src/lib.rs. A refused call leaves the
-- registry as it is.
use simon.Prelude.{ℕ, List, [], ◌∷◌, String, Option, Result, ok, err, ◌≡◌, ◌≢◌, true, some}
use simon.Prelude.Dict.{lookup, Unikalne}
use simon.Kodowanie.{Biblioteki, SimonError}
use simon.Crypto.{PublicKey}
use simon.Node.{
  Registry, register, register_verified, assign, complete, evict, mark_degraded, heartbeat,
  record_heartbeat, complete_job,
}
use simon.Node.Register.{RegisterMsg, evicted, usable, protocol_version}
use simon.Node.Wynik.{JobResult}

pub data Operacja : Type 0 where
  rejestruj : RegisterMsg → Operacja
  rejestruj_zweryfikowany : RegisterMsg → Option PublicKey → Operacja
  przydziel : String → String → Operacja
  zakoncz : JobResult → Operacja
  wyrzuc : String → Operacja
  zdegraduj : String → Operacja
  puls : String → Operacja
  puls_o_czasie : String → ℕ → Operacja
  zdejmij : String → Operacja

abbrev pub albo_bez_zmian : Registry → Result SimonError Registry → Registry
albo_bez_zmian g (ok g') = g'
albo_bez_zmian g (err e) = g

module _ (b : Biblioteki) where
  unfoldable pub krok : Registry → Operacja → Registry
  krok g (rejestruj m) = (register g m).0
  krok g (rejestruj_zweryfikowany m k) = albo_bez_zmian g (register_verified b g m k)
  krok g (przydziel j n) = (assign g j n).0
  krok g (zakoncz r) = albo_bez_zmian g (complete b g r)
  krok g (wyrzuc n) = (evict g n).0
  krok g (zdegraduj n) = albo_bez_zmian g (mark_degraded g n)
  krok g (puls n) = albo_bez_zmian g (heartbeat g n)
  krok g (puls_o_czasie n t) = albo_bez_zmian g (record_heartbeat g n t)
  krok g (zdejmij j) = (complete_job g j).0

  unfoldable pub przebieg : Registry → List Operacja → Registry
  przebieg g [] = g
  przebieg g (o ∷ os) = przebieg (krok g o) os

-- No node and no job stands twice; a node stands under its own id and speaks this protocol; a job is assigned to a registered node of
-- attested power that is not evicted.
pub record Spojny (g : Registry) : Type 0 where
  pub jedne_wezly : Unikalne g.nodes
  pub jedne_joby : Unikalne g.assigned
  pub wezly :
      (id : String) (m : RegisterMsg)
      → lookup id g.nodes ≡ some m
      → (m.node_id ≡ id) × (m.protocol ≡ protocol_version)
  pub joby :
      (job n : String)
      → lookup job g.assigned ≡ some n
      → (m : RegisterMsg) × (lookup n g.nodes ≡ some m)
        × (usable m.capability ≡ true)
        × (lookup n g.states ≢ some evicted)
