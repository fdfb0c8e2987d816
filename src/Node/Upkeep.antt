-- ===== src/Node/Upkeep.antt =====
-- The registrations, assignments, evictions and state changes of crates/simon-node/src/lib.rs keep the
-- invariant of the registry.
use simon.Prelude.{
  String, Option, ◌≡◌, ◌≢◌, true, false, some, inl, inr, Bool-cases, Option-cases, sym,
}
use simon.Prelude.Text.{str_eq, str_eq-true}
use simon.Prelude.Dict.{
  Dict, lookup, insert, remove, contains_key, lookup-insert-cases, lookup-insert_other,
  lookup-remove-some, Unikalne, insert-Unikalne, remove-Unikalne,
}
use simon.Node.{
  Registry, register, assign, evict, nowy_rejestr, zapisz_wezel, ustaw_stan, wylaczony, osierocone,
}
use simon.Node.Register.{RegisterMsg, NodeState, registered, evicted, usable, protocol_version}
use simon.Node.Steps.{albo_bez_zmian, Spojny}
use simon.Node.Evict.{osierocone_lem, usun_wszystkie-Unikalne}

pub brak_klucza :
    {A : Type 0} (k : String) (d : Dict A) (a : A) → contains_key k d ≡ false → lookup k d ≢ some a
brak_klucza k d a c e = let q : true ≡ false = rw e at c in cc q

wylaczony_lem : (o : Option NodeState) → wylaczony o ≡ false → o ≢ some evicted
wylaczony_lem o w e = let q : true ≡ false = rw e at w in cc q

pub nowy_rejestr-Spojny : Spojny nowy_rejestr
unfolding nowy_rejestr lookup
nowy_rejestr-Spojny = record {
  jedne_wezly = tt;
  jedne_joby = tt;
  wezly = λ id m h. cc;
  joby = λ j n h. cc;
}

pub zapisz_wezel-Spojny :
    (g : Registry) (m : RegisterMsg)
    → Spojny g
    → m.protocol ≡ protocol_version
    → contains_key m.node_id g.nodes ≡ false
    → Spojny (zapisz_wezel g m)
zapisz_wezel-Spojny g m s p c = record {
  jedne_wezly = insert-Unikalne m.node_id m g.nodes s.jedne_wezly;
  jedne_joby = s.jedne_joby;
  wezly = λ id m' h. elim (lookup-insert-cases id m.node_id m g.nodes) [
    | inl (e, q) ↦ let r : m ≡ m' = cc (h, q) in (cc (r, e), cc (r, p))
    | inr (n, q) ↦ s.wezly id m' (cc (h, q))
  ];
  joby = λ j n h.
      let (m', e, u, v) = s.joby j n h in
      let inny : n ≢ m.node_id = λ q. brak_klucza m.node_id g.nodes m' c (cc (q, e)) in
      (
        m',
        rw (lookup-insert_other n m.node_id m g.nodes inny) e,
        u,
        rw (lookup-insert_other n m.node_id registered g.states inny) v,
      );
}

-- A state other than `evicted` keeps what is assigned.
pub ustaw_stan-Spojny :
    (g : Registry) (n : String) (stan : NodeState)
    → stan ≢ evicted
    → Spojny g
    → Spojny (record g { states = insert n stan g.states })
ustaw_stan-Spojny g n stan z s = record {
  jedne_wezly = s.jedne_wezly;
  jedne_joby = s.jedne_joby;
  wezly = s.wezly;
  joby = λ j i h.
      let (m, e, u, v) = s.joby j i h in
      (
        m,
        e,
        u,
        elim (lookup-insert-cases i n stan g.states) [
          | inl (_, q) ↦ λ w. z (cc (q, w))
          | inr (_, q) ↦ λ w. v (cc (q, w))
        ],
      );
}

-- Fewer assignments are as well.
pub mniej-Spojny :
    (g : Registry) (a : Dict String)
    → Unikalne a
    → ((j n : String) → lookup j a ≡ some n → lookup j g.assigned ≡ some n)
    → Spojny g
    → Spojny (record g { assigned = a })
mniej-Spojny g a u f s = record {
  jedne_wezly = s.jedne_wezly;
  jedne_joby = u;
  wezly = s.wezly;
  joby = λ j n h. s.joby j n (f j n h);
}

pub remove-Spojny :
    (g : Registry) (j : String) → Spojny g → Spojny (record g { assigned = remove j g.assigned })
remove-Spojny g j s =
    mniej-Spojny g (remove j g.assigned) (remove-Unikalne j g.assigned s.jedne_joby)
      (λ i n h. (lookup-remove-some i j g.assigned n h).1) s

pub register-Spojny : (g : Registry) (m : RegisterMsg) → Spojny g → Spojny (register g m).0
unfolding register
register-Spojny g m s = elim (Bool-cases (str_eq m.protocol protocol_version)) [
  | inr e ↦ rw e s
  | inl e ↦ elim (Bool-cases (contains_key m.node_id g.nodes)) [
    | inl c ↦ rw (e, c) s
    | inr c ↦ rw (e, c) (zapisz_wezel-Spojny g m s (str_eq-true m.protocol protocol_version e) c)
  ]
]

przydziel_lem :
    (g : Registry) (j n : String) (m : RegisterMsg)
    → Spojny g
    → lookup n g.nodes ≡ some m
    → usable m.capability ≡ true
    → wylaczony (lookup n g.states) ≡ false
    → Spojny (record g { assigned = insert j n g.assigned })
przydziel_lem g j n m s e u w = record {
  jedne_wezly = s.jedne_wezly;
  jedne_joby = insert-Unikalne j n g.assigned s.jedne_joby;
  wezly = s.wezly;
  joby = λ i n' h. elim (lookup-insert-cases i j n g.assigned) [
    | inl (_, q) ↦
        let r : n ≡ n' = cc (h, q) in rw (sym r) (m, e, u, wylaczony_lem (lookup n g.states) w)
    | inr (_, q) ↦ s.joby i n' (cc (h, q))
  ];
}

pub assign-Spojny : (g : Registry) (j n : String) → Spojny g → Spojny (assign g j n).0
unfolding assign
assign-Spojny g j n s = elim (Option-cases (lookup n g.nodes)) [
  | inl e ↦ rw (e, assign) s
  | inr (m, e) ↦ elim (Bool-cases (usable m.capability)) [
    | inr u ↦ rw (e, assign, u) s
    | inl u ↦ elim (Bool-cases (wylaczony (lookup n g.states))) [
      | inl w ↦ rw (e, assign, u, w) s
      | inr w ↦ rw (e, assign, u, w) (przydziel_lem g j n m s e u w)
    ]
  ]
]

pub stan-Spojny :
    (g : Registry) (n : String) (stan : NodeState)
    → stan ≢ evicted
    → Spojny g
    → Spojny (albo_bez_zmian g (ustaw_stan g n stan))
stan-Spojny g n stan z s = elim (Bool-cases (contains_key n g.nodes)) [
  | inl c ↦ rw c (ustaw_stan-Spojny g n stan z s)
  | inr c ↦ rw c s
]

pub evict-Spojny : (g : Registry) (n : String) → Spojny g → Spojny (evict g n).0
unfolding evict
evict-Spojny g n s = elim (Bool-cases (contains_key n g.nodes)) [
  | inr c ↦ rw c s
  | inl c ↦ rw c (record {
    jedne_wezly = s.jedne_wezly;
    jedne_joby = usun_wszystkie-Unikalne (osierocone n g.assigned) g.assigned s.jedne_joby;
    wezly = s.wezly;
    joby = λ j i h.
        let (inny, h') = osierocone_lem n g.assigned j i h in
        let (m, e, u, v) = s.joby j i h' in
        (m, e, u, rw (lookup-insert_other i n evicted g.states inny) v);
  })
]
