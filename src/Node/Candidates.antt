-- ===== src/Node/Candidates.antt =====
-- `kandydaci_dla_modelu` of crates/simon-node/src/lib.rs: who may be drawn for a job.
use simon.Prelude.{
  ℕ, ◌*◌, ◌^◌, ◌%◌, ◌<◌, ◌≤◌, List, [], ◌∷◌, String, ◌≡◌, ◌↔◌, ◌⊎◌, Bool, true, false, some, inl,
  inr, Bool-cases, arith, Any, subst,
}
use simon.Prelude.Text.{str_eq, str_eq-true, eq_refl}
use simon.Prelude.Dict.{Dict, Member, Unikalne, lookup, values}
use simon.Prelude.StrOrder.{Sorted, sort-Member, sort-Sorted}
use simon.Node.{Registry, kandydaci_dla_modelu, id_spelniajacych, nadaje_sie, miesci_ctx}
use simon.Node.Register.{RegisterMsg}
use simon.Node.Steps.{Spojny}

id_spelniajacych-Any :
    (p : RegisterMsg → Bool) (ns : List RegisterMsg) (id : String)
    → Member id (id_spelniajacych p ns)
    → Any (λ n. (p n ≡ true) × (id ≡ n.node_id)) ns
unfolding id_spelniajacych
id_spelniajacych-Any p [] id h = absurd h
id_spelniajacych-Any p (n ∷ ns) id h = elim (Bool-cases (p n)) [
  | inl e ↦
      let h' : (id ≡ n.node_id) ⊎ Member id (id_spelniajacych p ns) = rw e at h in
      elim h' [ inl q ↦ inl (e, q) | inr q ↦ inr (id_spelniajacych-Any p ns id q) ]
  | inr e ↦ inr (id_spelniajacych-Any p ns id (rw e at h))
]

Any-id_spelniajacych :
    (p : RegisterMsg → Bool) (ns : List RegisterMsg) (id : String)
    → Any (λ n. (p n ≡ true) × (id ≡ n.node_id)) ns
    → Member id (id_spelniajacych p ns)
unfolding id_spelniajacych
Any-id_spelniajacych p [] id h = absurd h
Any-id_spelniajacych p (n ∷ ns) id (inl (e, q)) = rw e (inl q)
Any-id_spelniajacych p (n ∷ ns) id (inr h) =
    let ih = Any-id_spelniajacych p ns id h in
    elim (Bool-cases (p n)) [ inl e ↦ rw e (inr ih) | inr e ↦ rw e ih ]

-- A value of a map is what a lookup finds under some key.
values-lookup :
    {A : Type 0} (P : A → Type 0) (d : Dict A)
    → Unikalne d
    → Any P (values d)
    → (k : String) × (a : A) × (lookup k d ≡ some a) × P a
unfolding lookup
values-lookup P [] u h = absurd h
values-lookup P ((k, v) ∷ d) u (inl h) = (k, v, rw (eq_refl k), h)
values-lookup P ((k, v) ∷ d) u (inr h) =
    let (j, a, e, q) = values-lookup P d u.1 h in
    (
      j,
      a,
      elim (Bool-cases (str_eq j k)) [
        | inl r ↦ let s : j ≡ k = str_eq-true j k r in absurd (cc (u.0, s, e))
        | inr r ↦ rw r e
      ],
      q,
    )

lookup-values :
    {A : Type 0} (P : A → Type 0) (d : Dict A) (k : String) (a : A)
    → lookup k d ≡ some a
    → P a
    → Any P (values d)
unfolding lookup
lookup-values P [] k a h p = cc
lookup-values P ((j, v) ∷ d) k a h p = elim (Bool-cases (str_eq k j)) [
  | inl e ↦ let q : some v ≡ some a = rw e at h in let r : a ≡ v = cc q in inl (subst P r p)
  | inr e ↦ inr (lookup-values P d k a (rw e at h) p)
]

-- The candidates for a model and a context are in ascending order, and are exactly the ids under which
-- the registry, where it keeps its invariant, finds a node that passes the four filters: attested power,
-- the model declared, the context that fits, and a state neither evicted nor degraded.
pub kandydaci_dla_modelu_lem :
    (g : Registry) (model : String) (ctx : ℕ)
    → Spojny g
    → Sorted (kandydaci_dla_modelu g model ctx)
      × ((id : String)
          → Member id (kandydaci_dla_modelu g model ctx) ↔ (
              (n : RegisterMsg) × (lookup id g.nodes ≡ some n) × (nadaje_sie g model ctx n ≡ true)))
unfolding kandydaci_dla_modelu
kandydaci_dla_modelu_lem g model ctx s =
    let p = nadaje_sie g model ctx in
    let ids = id_spelniajacych p (values g.nodes) in
    (
      sort-Sorted ids,
      λ id. (
        λ h.
            let a = id_spelniajacych-Any p (values g.nodes) id ((sort-Member id ids).0 h) in
            let (k, n, e, (t, q)) =
              values-lookup (λ n. (p n ≡ true) × (id ≡ n.node_id)) g.nodes s.jedne_wezly a in
            let r : id ≡ k = cc (q, (s.wezly k n e).0) in (n, cc (r, e), t),
        λ (n, e, t).
            let q : id ≡ n.node_id = cc (s.wezly id n e).0 in
            (sort-Member id ids).1 (
              Any-id_spelniajacych p (values g.nodes) id
                (lookup-values (λ n. (p n ≡ true) × (id ≡ n.node_id)) g.nodes id n e (t, q))),
      ),
    )

-- Below 2^32, a declared limit of the context means what it says, where 0 stands for no requirement
-- and for no limit.
pub miesci_ctx_iff :
    (ctx limit : ℕ)
    → limit < 2 ^ 32
    → (miesci_ctx ctx limit ≡ true) ↔ ((ctx ≡ 0) ⊎ (limit ≡ 0) ⊎ (ctx ≤ limit))
unfolding miesci_ctx
miesci_ctx_iff ctx limit h = ground arith

-- The limit is cut to 32 bits: a node that declares a positive multiple of 2^32, a limit above every
-- context that can be asked for, is refused every job with a context requirement.
pub miesci_ctx_obciety : (ctx k : ℕ) → 0 < ctx → 0 < k → miesci_ctx ctx (2 ^ 32 * k) ≡ false
unfolding miesci_ctx
miesci_ctx_obciety ctx k h p = let e : 2 ^ 32 * k % 2 ^ 32 ≡ 0 = omega arith in ground (arith, e)
