-- ===== src/Acp/Coordinator.antt =====
-- How crates/simon-harness/src/acp_server.rs meets the coordinator of crates/simon-cli/src/coord.rs: the two
-- name the job of one order differently.
use Prim.Native.String.{len}
use text.Mathlib.Text.{get?}
use text.Mathlib.TextPositions.{len-append}
use simon.Prelude.{
  ℕ, min, ◌+◌, ◌≤◌, ◌≡◌, ◌≢◌, String, some, err, Result-cases, arith, sym, ◌∙◌, ap, inl, inr,
  Option-cases, none_ne_some, some-eq,
}
use simon.Prelude.Text.{str_append, as_bytes}
use simon.Prelude.Slice.{len-slice-le}
use simon.Prelude.Dict.{lookup}
use simon.Kodowanie.{Biblioteki, SimonError}
use simon.Crypto.{PublicKey, Keypair}
use simon.Klient.Zlecenie.{Format, JobOrder}
use simon.Klient.Wyscig.{OrderAccepted, OrderCompleted}
use simon.Koordynator.{Stan, przyjete, przetworz_zlecenie, job_id_zlecenia}
use simon.Koordynator.Orders.{przetworz_zlecenie_lem}
use simon.Acp.{AcpServer, AktywneZlecenie, zakoncz}
use simon.Acp.Zadanie.{deterministic_job_id}
use simon.Acp.Complete.{zakoncz_iff}

get?-slice : (s t : String) (k : ℕ) → get? s 0 k ≡ some t → len t ≤ k
get?-slice s t k h = ground (arith, len-slice-le s k)

job_id_krotki : (o j : String) → job_id_zlecenia o ≡ some j → len j ≤ 20
unfolding job_id_zlecenia
job_id_krotki o j h = elim (Option-cases (get? o 0 (min 16 (len o)))) [
  | inl e ↦ absurd (none_ne_some (rw (e, job_id_zlecenia) at h))
  | inr (t, e) ↦
      let q : str_append "job-" t ≡ j = some-eq (rw (e, job_id_zlecenia) at h) in
      let l = get?-slice o t (min 16 (len o)) e in
      let m : len j ≡ len "job-" + len t = ap len (sym q) ∙ len-append "job-" t in omega arith
]

module _ (b : Biblioteki) where
  job_id_rozne :
      (o j : String)
      → len (b.hex_encode (b.sha256 (as_bytes o))) ≡ 64
      → job_id_zlecenia o ≡ some j
      → j ≢ deterministic_job_id b o
  unfolding deterministic_job_id
  job_id_rozne o j h e q =
      let l = job_id_krotki o j e in
      let m : len j ≡ len "job-" + len (b.hex_encode (b.sha256 (as_bytes o))) =
        ap len q ∙ len-append "job-" (b.hex_encode (b.sha256 (as_bytes o))) in
      omega arith

  -- The server never shows the result of an order that a coordinator of this program accepted: where the
  -- hex of a hash has 64 characters, a result for the job under which `przetworz_zlecenie` accepted the
  -- order is refused, whatever its receipt, the key and the text are.
  pub zakoncz-przetworz_zlecenie :
      (fmt : Format) (koordynator : Keypair) (st st' : Stan) (o : JobOrder) (teraz : ℕ)
      (p : OrderAccepted) (node : String) (ctx : ℕ) (s : AcpServer) (a : AktywneZlecenie)
      (c : OrderCompleted) (klucz : PublicKey) (t : String)
      → len (b.hex_encode (b.sha256 (as_bytes o.order_id))) ≡ 64
      → przetworz_zlecenie b fmt koordynator st o teraz ≡ (st', przyjete p node ctx)
      → lookup c.order_id s.aktywne ≡ some a
      → a.order ≡ o
      → c.job_id ≡ p.job_id
      → (e : SimonError) × (zakoncz b s c klucz t ≡ err e)
  zakoncz-przetworz_zlecenie fmt koordynator st st' o teraz p node ctx s a c klucz t n h l q j =
      elim (Result-cases (zakoncz b s c klucz t)) [
        | inr (x, e) ↦ (x, e)
        | inl ((s', w), e) ↦
            let (a', l', r, _) = (zakoncz_iff b s s' c klucz t w).0 e in
            let (_, k, _, _) =
              przetworz_zlecenie_lem b fmt koordynator st st' o teraz p node ctx h in
            let i : a ≡ a' = some-eq (sym l ∙ l') in
            let z : p.job_id ≡ deterministic_job_id b o.order_id =
              sym j
              ∙ r.job
              ∙ ap (λ (x : AktywneZlecenie). deterministic_job_id b x.order.order_id) (sym i)
              ∙ ap (λ (x : JobOrder). deterministic_job_id b x.order_id) q in
            absurd (job_id_rozne o.order_id p.job_id n k z)
      ]
