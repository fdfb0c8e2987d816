-- ===== src/Node/Complete.antt =====
-- `complete` of crates/simon-node/src/lib.rs: which results the coordinator settles, and that it
-- settles a job once.
use simon.Prelude.{
  String, Result, ok, err, ◌>>=◌, ◌≡◌, ◌↔◌, ◌⊎◌, refl, false, some, none, inl, inr, Bool-cases,
  Option-cases, err_ne_ok,
}
use simon.Prelude.Text.{str_eq, str_eq-true, eq_refl}
use simon.Prelude.Dict.{lookup, remove, lookup-remove}
use simon.Kodowanie.{Biblioteki, Prawa, Dokument, SimonError, receipt_mismatch}
use simon.Crypto.{Keypair, public}
use simon.Receipt.{Receipt, sign, verify_for_node}
use simon.Receipt.Signing.{verify_for_node-sign}
use simon.Node.{Registry, complete, sprawdz_receipt}
use simon.Node.Register.{RegisterMsg}
use simon.Node.Wynik.{JobResult, success}

-- The job without its assignment.
abbrev pub rozliczony : Registry → String → Registry
rozliczony g job_id = record g { assigned = remove job_id g.assigned }

module _ (b : Biblioteki) where
  -- The result carries a receipt that all three gates pass under the key registered for its node.
  pub record DowodPracy (g : Registry) (r : JobResult) : Type 0 where
    pub dowod : Receipt
    pub jest : r.receipt ≡ some dowod
    pub wezel : RegisterMsg
    pub znany : lookup r.node_id g.nodes ≡ some wezel
    pub wazny : verify_for_node b dowod r.job_id r.node_id wezel.pubkey ≡ ok tt

  sprawdz_receipt-Dowod :
      (g : Registry) (r : JobResult) → sprawdz_receipt b g r ≡ ok tt → DowodPracy g r
  unfolding sprawdz_receipt
  sprawdz_receipt-Dowod g r h = elim (Option-cases r.receipt) [
    | inl e ↦ absurd (err_ne_ok (rw e at h))
    | inr (d, e) ↦ elim (Option-cases (lookup r.node_id g.nodes)) [
      | inl q ↦ absurd (err_ne_ok (rw (e, q) at h))
      | inr (m, q) ↦ record { dowod = d; jest = e; wezel = m; znany = q; wazny = rw (e, q) at h }
    ]
  ]

  Dowod-sprawdz_receipt :
      (g : Registry) (r : JobResult) → DowodPracy g r → sprawdz_receipt b g r ≡ ok tt
  unfolding sprawdz_receipt
  Dowod-sprawdz_receipt g r d = rw (d.jest, d.znany) d.wazny

  pub przyjety :
      (g g' : Registry) (r : JobResult)
      → complete b g r ≡ ok g'
      → (lookup r.job_id g.assigned ≡ some r.node_id)
        × ((r.udany ≡ false) ⊎ DowodPracy g r)
        × (g' ≡ rozliczony g r.job_id)
  unfolding complete
  przyjety g g' r h = elim (Option-cases (lookup r.job_id g.assigned)) [
    | inl e ↦ absurd (err_ne_ok (rw e at h))
    | inr (n, e) ↦ elim (Bool-cases (str_eq n r.node_id)) [
      | inr q ↦ absurd (err_ne_ok (rw (e, q) at h))
      | inl q ↦
          let w : lookup r.job_id g.assigned ≡ some r.node_id = cc (e, str_eq-true n r.node_id q) in
          elim (Bool-cases r.udany) [
            | inr u ↦ (w, inl u, koniec (rw (e, q, u) at h))
            | inl u ↦
                let (p, t) = sprawdzony (sprawdz_receipt b g r) (rw (e, q, u) at h) in
                (w, inr (sprawdz_receipt-Dowod g r p), t)
          ]
    ]
  ]
    where
      koniec : {x : Registry} → Path (Result SimonError Registry) (ok x) (ok g') → g' ≡ x
      koniec h = cc

      sprawdzony :
          (w : Result SimonError (Unit {0}))
          → Path (Result SimonError Registry) (w >>= λ _. ok (rozliczony g r.job_id)) (ok g')
          → (w ≡ ok tt) × (g' ≡ rozliczony g r.job_id)
      sprawdzony (ok _) h = (refl, koniec h)
      sprawdzony (err e) h = cc

  pub przyjmuje :
      (g : Registry) (r : JobResult)
      → (lookup r.job_id g.assigned ≡ some r.node_id) × ((r.udany ≡ false) ⊎ DowodPracy g r)
      → complete b g r ≡ ok (rozliczony g r.job_id)
  unfolding complete
  przyjmuje g r (w, p) = elim (Bool-cases r.udany) [
    | inr u ↦ rw (w, eq_refl r.node_id, u)
    | inl u ↦ elim p [
      | inl v ↦ cc
      | inr d ↦ rw (w, eq_refl r.node_id, u, Dowod-sprawdz_receipt g r d)
    ]
  ]

  -- The coordinator takes a result, and its job's assignment with it, exactly when the job is assigned
  -- to the node that the result names and the result is a failure or carries a receipt that passes
  -- all gates of `verify_for_node` for that job and node under the node's registered key.
  pub complete_iff :
      (g : Registry) (r : JobResult)
      → (complete b g r ≡ ok (rozliczony g r.job_id))
        ↔ ((lookup r.job_id g.assigned ≡ some r.node_id) × ((r.udany ≡ false) ⊎ DowodPracy g r))
  complete_iff g r =
      (λ h. let (p, q, _) = przyjety g (rozliczony g r.job_id) r h in (p, q), przyjmuje g r)

  nieprzydzielony :
      (g : Registry) (r : JobResult)
      → lookup r.job_id g.assigned ≡ none
      → complete b g r ≡ err (receipt_mismatch "job nie jest przydzielony")
  unfolding complete
  nieprzydzielony g r h = rw h

  -- A job is settled once: right after a result for a job was taken, a further result for that job is
  -- refused, whoever sends it.
  pub complete_raz :
      (g g' : Registry) (r r' : JobResult)
      → complete b g r ≡ ok g'
      → r'.job_id ≡ r.job_id
      → complete b g' r' ≡ err (receipt_mismatch "job nie jest przydzielony")
  complete_raz g g' r r' h e =
      let (_, _, q) = przyjety g g' r h in
      nieprzydzielony g' r' (rw (q, e) (lookup-remove r.job_id g.assigned))

  -- An honest node is paid: a node that is assigned the job and registered under a key, and signs a
  -- receipt for that job and itself with that key, gives a result that the coordinator takes.
  pub complete-sign :
      (prawa : Prawa b) (g : Registry) (m : RegisterMsg) (rc : Receipt) (k : Keypair)
      (wyjscie : Dokument)
      → lookup rc.job_id g.assigned ≡ some rc.node_id
      → lookup rc.node_id g.nodes ≡ some m
      → m.pubkey ≡ public b k
      → (rc' : Receipt) × (sign b rc k ≡ ok rc')
        × (complete b g (success rc.job_id rc.node_id wyjscie rc') ≡ ok (rozliczony g rc.job_id))
  unfolding success
  complete-sign prawa g m rc k wyjscie a z e =
      let (rc', p, w) = verify_for_node-sign b prawa rc k in
      (
        rc',
        p.podpisano,
        przyjmuje g (success rc.job_id rc.node_id wyjscie rc')
            (a, inr (record { dowod = rc'; jest = refl; wezel = m; znany = z; wazny = rw e w })),
      )
