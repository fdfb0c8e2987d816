-- ===== src/Node/Invariant.antt =====
-- What every sequence of calls keeps of the registry of crates/simon-node/src/lib.rs.
use simon.Prelude.{
  ℕ, List, [], ◌∷◌, String, Option, Result, ok, err, ◌>>=◌, some, none, inl, inr, Bool-cases,
  Option-cases,
}
use simon.Prelude.Text.{str_eq, str_eq-true}
use simon.Prelude.Dict.{lookup, remove, contains_key}
use simon.Kodowanie.{Biblioteki, SimonError}
use simon.Crypto.{PublicKey}
use simon.Node.{
  Registry, register_verified, complete, mark_degraded, heartbeat, record_heartbeat, complete_job,
  nowy_rejestr, zapisz_wezel, sprawdz_receipt,
}
use simon.Node.Register.{
  RegisterMsg, healthy, degraded, protocol_version, verify_self, verify_voucher,
}
use simon.Node.Wynik.{JobResult}
use simon.Node.Steps.{
  Operacja, rejestruj, rejestruj_zweryfikowany, przydziel, zakoncz, wyrzuc, zdegraduj, puls,
  puls_o_czasie, zdejmij, albo_bez_zmian, krok, przebieg, Spojny,
}
use simon.Node.Upkeep.{
  nowy_rejestr-Spojny, zapisz_wezel-Spojny, ustaw_stan-Spojny, remove-Spojny, register-Spojny,
  assign-Spojny, stan-Spojny, evict-Spojny,
}

complete-Spojny :
    (b : Biblioteki) (g : Registry) (r : JobResult)
    → Spojny g
    → Spojny (albo_bez_zmian g (complete b g r))
unfolding complete
complete-Spojny b g r s = elim (Option-cases (lookup r.job_id g.assigned)) [
  | inl e ↦ rw e s
  | inr (n, e) ↦ elim (Bool-cases (str_eq n r.node_id)) [
    | inr q ↦ rw (e, q) s
    | inl q ↦ elim (Bool-cases r.udany) [
      | inr u ↦ rw (e, q, u) (remove-Spojny g r.job_id s)
      | inl u ↦ rw (e, q, u) (po_sprawdzeniu (sprawdz_receipt b g r))
    ]
  ]
]
  where
    po_sprawdzeniu :
        (w : Result SimonError (Unit {0}))
        → Spojny
            (albo_bez_zmian g (w >>= λ _. ok (record g { assigned = remove r.job_id g.assigned })))
    po_sprawdzeniu (ok _) = remove-Spojny g r.job_id s
    po_sprawdzeniu (err e) = s

register_verified-Spojny :
    (b : Biblioteki) (g : Registry) (m : RegisterMsg) (k : Option PublicKey)
    → Spojny g
    → Spojny (albo_bez_zmian g (register_verified b g m k))
unfolding register_verified
register_verified-Spojny b g m k s = elim (Bool-cases (str_eq m.protocol protocol_version)) [
  | inr e ↦ rw e s
  | inl e ↦ elim (Bool-cases (contains_key m.node_id g.nodes)) [
    | inl c ↦ rw (e, c) s
    | inr c ↦
        let t = zapisz_wezel-Spojny g m s (str_eq-true m.protocol protocol_version e) c in
        rw (e, c)
          (po_podpisach t (verify_self b m)
            (elim k [ none ↦ ok tt | some op ↦ verify_voucher b m op ]))
  ]
]
  where
    po_podpisach :
        Spojny (zapisz_wezel g m)
        → (w v : Result SimonError (Unit {0}))
        → Spojny (albo_bez_zmian g (w >>= λ _. v >>= λ _. ok (zapisz_wezel g m)))
    po_podpisach t (ok _) (ok _) = t
    po_podpisach t (ok _) (err e) = s
    po_podpisach t (err e) v = s

record_heartbeat-Spojny :
    (g : Registry) (n : String) (t : ℕ)
    → Spojny g
    → Spojny (albo_bez_zmian g (record_heartbeat g n t))
unfolding record_heartbeat
record_heartbeat-Spojny g n t s = elim (Bool-cases (contains_key n g.nodes)) [
  | inl c ↦
      let s' = ustaw_stan-Spojny g n healthy (λ e. cc) s in
      rw c (record {
        jedne_wezly = s'.jedne_wezly;
        jedne_joby = s'.jedne_joby;
        wezly = s'.wezly;
        joby = s'.joby;
      })
  | inr c ↦ rw c s
]

module _ (b : Biblioteki) where
  krok-Spojny : (g : Registry) (o : Operacja) → Spojny g → Spojny (krok b g o)
  unfolding krok mark_degraded heartbeat complete_job
  krok-Spojny g (rejestruj m) s = register-Spojny g m s
  krok-Spojny g (rejestruj_zweryfikowany m k) s = register_verified-Spojny b g m k s
  krok-Spojny g (przydziel j n) s = assign-Spojny g j n s
  krok-Spojny g (zakoncz r) s = complete-Spojny b g r s
  krok-Spojny g (wyrzuc n) s = evict-Spojny g n s
  krok-Spojny g (zdegraduj n) s = stan-Spojny g n degraded (λ e. cc) s
  krok-Spojny g (puls n) s = stan-Spojny g n healthy (λ e. cc) s
  krok-Spojny g (puls_o_czasie n t) s = record_heartbeat-Spojny g n t s
  krok-Spojny g (zdejmij j) s = remove-Spojny g j s

  przebieg-Spojny_od : (os : List Operacja) (g : Registry) → Spojny g → Spojny (przebieg b g os)
  unfolding przebieg
  przebieg-Spojny_od [] g s = s
  przebieg-Spojny_od (o ∷ os) g s = przebieg-Spojny_od os (krok b g o) (krok-Spojny g o s)

  -- After any sequence of calls on an empty registry, refused calls included, no node and no job stands
  -- twice, every node stands under its own id and speaks this protocol version, and every assigned job
  -- belongs to a registered node of attested power whose state is not evicted.
  pub przebieg-Spojny : (os : List Operacja) → Spojny (przebieg b nowy_rejestr os)
  przebieg-Spojny os = przebieg-Spojny_od os nowy_rejestr nowy_rejestr-Spojny
