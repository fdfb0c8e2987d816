-- ===== src/Koordynator/Results.antt =====
-- `obsluz_wynik` of crates/simon-cli/src/coord.rs: who can end a job, and what becomes of its node.
use simon.Prelude.{
  ◌≡◌, ◌⊎◌, inl, inr, refl, true, false, not, ◌||◌, String, Option, none, some, ok, Bool-cases,
  Option-cases, Result-cases,
}
use simon.Prelude.Text.{str_eq, eq_refl, str_eq-true}
use simon.Prelude.Dict.{lookup, remove, contains_key, lookup-remove, lookup-insert}
use simon.Kodowanie.{Biblioteki}
use simon.Node.{Registry, complete, mark_degraded, complete_job, przydzielony_do}
use simon.Node.Register.{RegisterMsg, degraded}
use simon.Node.Wynik.{JobResult, verify_from_node}
use simon.Node.Complete.{przyjety, rozliczony, DowodPracy}
use simon.Koordynator.{obsluz_wynik, rozlicz_wynik, zdegraduj_i_zdejmij, output_digest_pusty}

module _ (b : Biblioteki) where
  -- The result comes from the node that has the job, under that node's registered key.
  pub record OdWezla (g : Registry) (r : JobResult) : Type 0 where
    pub wezel : RegisterMsg
    pub przydzielony : lookup r.job_id g.assigned ≡ some r.node_id
    pub znany : lookup r.node_id g.nodes ≡ some wezel
    pub podpisany : verify_from_node b r wezel.pubkey ≡ ok tt

  zdjety :
      (g : Registry) (r : JobResult)
      → (zdegraduj_i_zdejmij g r).assigned ≡ remove r.job_id g.assigned
  unfolding zdegraduj_i_zdejmij mark_degraded complete_job
  zdjety g r = elim (Bool-cases (contains_key r.node_id g.nodes)) [ inl c ↦ rw c | inr c ↦ rw c ]

  zdegradowany :
      (g : Registry) (r : JobResult)
      → contains_key r.node_id g.nodes ≡ true
      → lookup r.node_id (zdegraduj_i_zdejmij g r).states ≡ some degraded
  unfolding zdegraduj_i_zdejmij mark_degraded complete_job
  zdegradowany g r c = rw c (lookup-insert r.node_id degraded g.states)

  -- What the handler does with a result of the node: the job is done with, and either it is settled
  -- with a proof of work, or the node is degraded.
  rozlicz_wynik_lem :
      (g : Registry) (r : JobResult)
      → contains_key r.node_id g.nodes ≡ true
      → (lookup r.job_id (rozlicz_wynik b g r).assigned ≡ none)
        × ((DowodPracy b g r × (rozlicz_wynik b g r ≡ rozliczony g r.job_id))
            ⊎ (lookup r.node_id (rozlicz_wynik b g r).states ≡ some degraded))
  unfolding rozlicz_wynik
  rozlicz_wynik_lem g r c =
      let porazka : (lookup r.job_id (zdegraduj_i_zdejmij g r).assigned ≡ none)
          × ((DowodPracy b g r × (zdegraduj_i_zdejmij g r ≡ rozliczony g r.job_id))
              ⊎ (lookup r.node_id (zdegraduj_i_zdejmij g r).states ≡ some degraded)) =
        (rw (zdjety g r) (lookup-remove r.job_id g.assigned), inr (zdegradowany g r c)) in
      elim (Bool-cases (not r.udany || output_digest_pusty r.receipt)) [
        | inl e ↦ rw e porazka
        | inr e ↦ elim (Result-cases (complete b g r)) [
          | inr (x, h) ↦ rw (e, h, rozlicz_wynik) porazka
          | inl (g', h) ↦
              let (p, q, t) = przyjety b g g' r h in
              rw (e, h, rozlicz_wynik, t)
                (
                  lookup-remove r.job_id g.assigned,
                  inl (elim q [ inl u ↦ absurd (udany u e) | inr d ↦ d ], refl),
                )
        ]
      ]
    where
      udany : r.udany ≡ false → (not r.udany || output_digest_pusty r.receipt) ≡ false → ⊥
      udany u e = let q : true ≡ false = rw u at e in cc q

  -- Only the assigned node ends its job: a result is either from it, signed under its registered key,
  -- and then the job is no longer assigned, and the result was settled
  -- with a proof of work or the node is now degraded; or the registry stays as it was.
  pub obsluz_wynik_lem :
      (g : Registry) (r : JobResult)
      → (OdWezla g r
          × (lookup r.job_id (obsluz_wynik b g r).assigned ≡ none)
          × ((DowodPracy b g r × (obsluz_wynik b g r ≡ rozliczony g r.job_id))
              ⊎ (lookup r.node_id (obsluz_wynik b g r).states ≡ some degraded)))
        ⊎ ((¬ OdWezla g r) × (obsluz_wynik b g r ≡ g))
  unfolding obsluz_wynik
  obsluz_wynik_lem g r =
      elim (Bool-cases (przydzielony_do b (lookup r.job_id g.assigned) r.node_id)) [
        | inr e ↦ inr (λ o. nieprzydzielony o e, rw e)
        | inl e ↦ elim (Option-cases (lookup r.node_id g.nodes)) [
          | inl z ↦ inr (λ o. cc (z, o.znany), rw (e, z, obsluz_wynik))
          | inr (m, z) ↦ elim (Result-cases (verify_from_node b r m.pubkey)) [
            | inr (x, v) ↦ inr (λ o. cc (z, o.znany, v, o.podpisany), rw (e, z, obsluz_wynik, v))
            | inl (u, v) ↦
                let (p, q) = rozlicz_wynik_lem g r (rw z) in
                inl (
                  record {
                    wezel = m;
                    przydzielony = przydzielony (lookup r.job_id g.assigned) refl e;
                    znany = z;
                    podpisany = v;
                  },
                  rw (e, z, obsluz_wynik, v) p,
                  rw (e, z, obsluz_wynik, v) q,
                )
          ]
        ]
      ]
    where
      przydzielony :
          (o : Option String)
          → o ≡ lookup r.job_id g.assigned
          → przydzielony_do b o r.node_id ≡ true
          → lookup r.job_id g.assigned ≡ some r.node_id
      przydzielony none h e = cc
      przydzielony (some n) h e = cc (h, str_eq-true n r.node_id e)

      nieprzydzielony :
          OdWezla g r → przydzielony_do b (lookup r.job_id g.assigned) r.node_id ≡ false → ⊥
      nieprzydzielony o e =
          let q : str_eq r.node_id r.node_id ≡ false = rw o.przydzielony at e in
          cc (q, eq_refl r.node_id)
