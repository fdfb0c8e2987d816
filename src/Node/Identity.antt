-- ===== src/Node/Identity.antt =====
-- A node's registration in crates/simon-node/src/lib.rs is never replaced: its identity is its key.
use simon.Prelude.{
  ℕ, List, [], ◌∷◌, String, Option, Result, ok, err, ◌>>=◌, ◌≡◌, ◌≢◌, refl, false, some, none, inl,
  inr, Bool-cases, Option-cases,
}
use simon.Prelude.Text.{str_eq}
use simon.Prelude.Dict.{lookup, contains_key, lookup-insert_other}
use simon.Kodowanie.{Biblioteki, SimonError}
use simon.Crypto.{PublicKey}
use simon.Node.{
  Registry, register, register_verified, assign, complete, evict, mark_degraded, heartbeat,
  record_heartbeat, complete_job, zapisz_wezel, ustaw_stan, wylaczony,
}
use simon.Node.Register.{
  RegisterMsg, NodeState, healthy, degraded, usable, protocol_version, verify_self, verify_voucher,
}
use simon.Node.Wynik.{JobResult}
use simon.Node.Steps.{
  Operacja, rejestruj, rejestruj_zweryfikowany, przydziel, zakoncz, wyrzuc, zdegraduj, puls,
  puls_o_czasie, zdejmij, albo_bez_zmian, krok, przebieg,
}
use simon.Node.Complete.{przyjety}
use simon.Node.Upkeep.{brak_klucza}

-- A call that leaves the nodes as they are, or one more under a fresh id.
NieNadpisuje : Registry → Registry → Type 0
NieNadpisuje g g' =
    (id : String) (m : RegisterMsg) → lookup id g.nodes ≡ some m → lookup id g'.nodes ≡ some m

te_same : (g g' : Registry) → g'.nodes ≡ g.nodes → NieNadpisuje g g'
unfolding NieNadpisuje
te_same g g' e id m h = rw e h

zapisz_wezel-NieNadpisuje :
    (g : Registry) (m : RegisterMsg)
    → contains_key m.node_id g.nodes ≡ false
    → NieNadpisuje g (zapisz_wezel g m)
unfolding NieNadpisuje
zapisz_wezel-NieNadpisuje g m c id m' h =
    let inny : id ≢ m.node_id = λ q. brak_klucza m.node_id g.nodes m' c (cc (q, h)) in
    cc (h, lookup-insert_other id m.node_id m g.nodes inny)

register-NieNadpisuje : (g : Registry) (m : RegisterMsg) → NieNadpisuje g (register g m).0
unfolding register
register-NieNadpisuje g m = elim (Bool-cases (str_eq m.protocol protocol_version)) [
  | inr e ↦ rw e (te_same g g refl)
  | inl e ↦ elim (Bool-cases (contains_key m.node_id g.nodes)) [
    | inl c ↦ rw (e, c) (te_same g g refl)
    | inr c ↦ rw (e, c) (zapisz_wezel-NieNadpisuje g m c)
  ]
]

register_verified-NieNadpisuje :
    (b : Biblioteki) (g : Registry) (m : RegisterMsg) (k : Option PublicKey)
    → NieNadpisuje g (albo_bez_zmian g (register_verified b g m k))
unfolding register_verified
register_verified-NieNadpisuje b g m k = elim (Bool-cases (str_eq m.protocol protocol_version)) [
  | inr e ↦ rw e (te_same g g refl)
  | inl e ↦ elim (Bool-cases (contains_key m.node_id g.nodes)) [
    | inl c ↦ rw (e, c) (te_same g g refl)
    | inr c ↦
        rw (e, c)
          (po_podpisach (zapisz_wezel-NieNadpisuje g m c) (verify_self b m)
            (elim k [ none ↦ ok tt | some op ↦ verify_voucher b m op ]))
  ]
]
  where
    po_podpisach :
        NieNadpisuje g (zapisz_wezel g m)
        → (w v : Result SimonError (Unit {0}))
        → NieNadpisuje g (albo_bez_zmian g (w >>= λ _. v >>= λ _. ok (zapisz_wezel g m)))
    po_podpisach t (ok _) (ok _) = t
    po_podpisach t (ok _) (err e) = te_same g g refl
    po_podpisach t (err e) v = te_same g g refl

assign-nodes : (g : Registry) (j n : String) → (assign g j n).0.nodes ≡ g.nodes
unfolding assign
assign-nodes g j n = elim (Option-cases (lookup n g.nodes)) [
  | inl e ↦ rw (e, assign)
  | inr (m, e) ↦ elim (Bool-cases (usable m.capability)) [
    | inr u ↦ rw (e, assign, u)
    | inl u ↦ elim (Bool-cases (wylaczony (lookup n g.states))) [
      | inl w ↦ rw (e, assign, u, w)
      | inr w ↦ rw (e, assign, u, w)
    ]
  ]
]

complete-nodes :
    (b : Biblioteki) (g : Registry) (r : JobResult)
    → (albo_bez_zmian g (complete b g r)).nodes ≡ g.nodes
complete-nodes b g r = wynik (complete b g r) refl
  where
    wynik :
        (w : Result SimonError Registry) → complete b g r ≡ w → (albo_bez_zmian g w).nodes ≡ g.nodes
    wynik (ok g') h = let (_, _, e) = przyjety b g g' r h in rw e
    wynik (err e) h = refl

evict-nodes : (g : Registry) (n : String) → (evict g n).0.nodes ≡ g.nodes
unfolding evict
evict-nodes g n = elim (Bool-cases (contains_key n g.nodes)) [ inl c ↦ rw c | inr c ↦ rw c ]

stan-nodes :
    (g : Registry) (n : String) (s : NodeState)
    → (albo_bez_zmian g (ustaw_stan g n s)).nodes ≡ g.nodes
stan-nodes g n s = elim (Bool-cases (contains_key n g.nodes)) [ inl c ↦ rw c | inr c ↦ rw c ]

record_heartbeat-nodes :
    (g : Registry) (n : String) (t : ℕ)
    → (albo_bez_zmian g (record_heartbeat g n t)).nodes ≡ g.nodes
unfolding record_heartbeat
record_heartbeat-nodes g n t = elim (Bool-cases (contains_key n g.nodes)) [
  | inl c ↦ rw c
  | inr c ↦ rw c
]

module _ (b : Biblioteki) where
  krok-NieNadpisuje : (g : Registry) (o : Operacja) → NieNadpisuje g (krok b g o)
  unfolding krok mark_degraded heartbeat complete_job
  krok-NieNadpisuje g (rejestruj m) = register-NieNadpisuje g m
  krok-NieNadpisuje g (rejestruj_zweryfikowany m k) = register_verified-NieNadpisuje b g m k
  krok-NieNadpisuje g (przydziel j n) = te_same g _ (assign-nodes g j n)
  krok-NieNadpisuje g (zakoncz r) = te_same g _ (complete-nodes b g r)
  krok-NieNadpisuje g (wyrzuc n) = te_same g _ (evict-nodes g n)
  krok-NieNadpisuje g (zdegraduj n) = te_same g _ (stan-nodes g n degraded)
  krok-NieNadpisuje g (puls n) = te_same g _ (stan-nodes g n healthy)
  krok-NieNadpisuje g (puls_o_czasie n t) = te_same g _ (record_heartbeat-nodes g n t)
  krok-NieNadpisuje g (zdejmij j) = te_same g _ refl

  -- A node's registration is never replaced: whatever calls follow, registrations under the same id
  -- included, the registry keeps the message, with its key, under which the node first registered.
  pub klucz_niezmienny :
      (os : List Operacja) (g : Registry) (id : String) (m : RegisterMsg)
      → lookup id g.nodes ≡ some m
      → lookup id (przebieg b g os).nodes ≡ some m
  unfolding przebieg NieNadpisuje
  klucz_niezmienny [] g id m h = h
  klucz_niezmienny (o ∷ os) g id m h =
      klucz_niezmienny os (krok b g o) id m (krok-NieNadpisuje g o id m h)
