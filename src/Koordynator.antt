-- ===== src/Koordynator.antt =====
-- crates/simon-cli/src/coord.rs: the coordinator's handlers of registrations, results and orders,
-- without the network and the log.
pub mod Orders
pub mod Repeat
pub mod Results
pub mod Steps
pub mod Toy
mod Tests
use text.Mathlib.Text.{get?}
use Prim.Native.String.{len}
use simon.Prelude.{
  ℕ, min, Bool, true, false, not, ◌&&◌, ◌||◌, List, [], ◌∷◌, String, Option, none, some, Result, ok,
  err, if◌then◌else◌, is_ok,
}
use simon.Prelude.Text.{str_eq, str_append, str_is_empty}
use simon.Prelude.Dict.{lookup}
use simon.Kodowanie.{Biblioteki, SimonError}
use simon.Crypto.{PublicKey, Keypair, public, to_hex}
use simon.Receipt.{Receipt}
use simon.Node.{
  Registry, register_verified, assign, complete, mark_degraded, complete_job, przydzielony_do,
}
use simon.Node.Los.{wybierz_kandydata_vrf}
use simon.Node.Register.{RegisterMsg}
use simon.Node.Wynik.{JobResult, verify_from_node}
use simon.Node.Steps.{albo_bez_zmian}
use simon.Klient.Zlecenie.{Format, JobOrder, Zuzyte, zweryfikuj_autoryzacje, zajmij}
use simon.Klient.Wyscig.{OrderAccepted, podpisz_przyjecie}

-- What the coordinator keeps.
pub record Stan : Type 0 where
  pub zuzyte : Zuzyte
  pub rejestr : Registry

-- The error of `przetworz_zlecenie`, by its four texts.
pub data OdmowaZlecenia : Type 0 where
  odrzucona_autoryzacja : SimonError → OdmowaZlecenia
  powtorka_autoryzacji : SimonError → OdmowaZlecenia
  nikt_nie_serwuje : String → OdmowaZlecenia
  blad_przydzialu : String → String → OdmowaZlecenia

-- A call returns, with the acceptance, the node and the context, or with an error; or it panics.
pub data Odpowiedz : Type 0 where
  przyjete : OrderAccepted → String → ℕ → Odpowiedz
  odmowa : OdmowaZlecenia → Odpowiedz
  panika : Odpowiedz

-- `&order_id[..16.min(order_id.len())]`, in bytes: a cut inside a character panics.
unfoldable pub job_id_zlecenia : String → Option String
job_id_zlecenia order_id = elim (get? order_id 0 (min 16 (len order_id))) [
  | none ↦ none
  | some s ↦ some (str_append "job-" s)
]

-- `receipt.map(|r| r.output_digest.is_empty()).unwrap_or(true)`
abbrev pub output_digest_pusty : Option Receipt → Bool
output_digest_pusty none = true
output_digest_pusty (some r) = str_is_empty r.output_digest

-- `mark_degraded` and `complete_job`, their answers dropped.
unfoldable pub zdegraduj_i_zdejmij : Registry → JobResult → Registry
zdegraduj_i_zdejmij g res =
    (complete_job (albo_bez_zmian g (mark_degraded g res.node_id)) res.job_id).0

module _ (b : Biblioteki) where
  unfoldable pub obsluz_rejestracje : Registry → RegisterMsg → Option PublicKey → Registry × Bool
  obsluz_rejestracje g msg operator_voucher_key =
      elim (register_verified b g msg operator_voucher_key) [
        | ok g' ↦ (g', true)
        | err _ ↦ (g, false)
      ]

  -- The second half of `obsluz_wynik`, for a result that the assigned node signed.
  unfoldable pub rozlicz_wynik : Registry → JobResult → Registry
  rozlicz_wynik g res =
      if not res.udany || output_digest_pusty res.receipt
      then zdegraduj_i_zdejmij g res
      else elim (complete b g res) [ ok g' ↦ g' | err _ ↦ zdegraduj_i_zdejmij g res ]

  unfoldable pub obsluz_wynik : Registry → JobResult → Registry
  obsluz_wynik g res =
      if not (przydzielony_do b (lookup res.job_id g.assigned) res.node_id)
      then g
      else elim (lookup res.node_id g.nodes) [
        | none ↦ g
        | some zarejestrowany ↦ elim (verify_from_node b res zarejestrowany.pubkey) [
          | err _ ↦ g
          | ok _ ↦ rozlicz_wynik g res
        ]
      ]

  -- First with 512 tokens of context, then with any; the context that was asked for comes last.
  unfoldable pub wybierz_z_rezerwa : Registry → JobOrder → String → ℕ → Option (String × String × ℕ)
  wybierz_z_rezerwa g order job_id teraz =
      elim (wybierz_kandydata_vrf b g order.model_hash 512 job_id teraz) [
        | some (node, ziarno) ↦ some (node, ziarno, 512)
        | none ↦ elim (wybierz_kandydata_vrf b g order.model_hash 0 job_id teraz) [
          | some (node, ziarno) ↦ some (node, ziarno, 0)
          | none ↦ none
        ]
      ]

  unfoldable pub przyjecie : Keypair → JobOrder → String → String → OrderAccepted
  przyjecie klucz order job_id vrf_seed =
      podpisz_przyjecie b
        (record {
          order_id = order.order_id;
          job_id = job_id;
          coordinator_pubkey = to_hex b (public b klucz);
          vrf_seed = vrf_seed;
          vrf_block = 0;
          estimated_ms = 1000;
          signature = none;
        })
        klucz

  -- `przetworz_zlecenie` from the choice of the node on.
  unfoldable pub przydziel_zlecenie : Keypair → Stan → JobOrder → String → ℕ → Stan × Odpowiedz
  przydziel_zlecenie klucz s order job_id teraz =
      elim (wybierz_z_rezerwa s.rejestr order job_id teraz) [
        | none ↦ (s, odmowa (nikt_nie_serwuje order.model_hash))
        | some (node, vrf_seed, ctx) ↦
            let (g', udane) = assign s.rejestr job_id node in
            if udane
            then (
              record s { rejestr = g' },
              przyjete (przyjecie klucz order job_id vrf_seed) node ctx,
            )
            else (record s { rejestr = g' }, odmowa (blad_przydzialu node job_id))
      ]

  unfoldable pub przetworz_zlecenie : Format → Keypair → Stan → JobOrder → ℕ → Stan × Odpowiedz
  przetworz_zlecenie fmt klucz s order teraz = elim (zweryfikuj_autoryzacje b fmt order teraz) [
    | err e ↦ (s, odmowa (odrzucona_autoryzacja e))
    | ok odcisk ↦ elim (zajmij s.zuzyte odcisk) [
      | err e ↦ (s, odmowa (powtorka_autoryzacji e))
      | ok z ↦
          let s' = record s { zuzyte = z } in
          elim (job_id_zlecenia order.order_id) [
            | none ↦ (s', panika)
            | some job_id ↦ przydziel_zlecenie klucz s' order job_id teraz
          ]
    ]
  ]
