-- ===== src/Node/Evict.antt =====
-- What `evict` of crates/simon-node/src/lib.rs leaves of the assignments.
use simon.Prelude.{
  List, [], ◌∷◌, String, ◌≡◌, ◌≢◌, ◌↔◌, ◌⊎◌, refl, ap, true, some, inl, inr, Bool-cases,
  if◌then◌else◌,
}
use simon.Prelude.Text.{str_eq, str_eq-true, str_eq_of_ne, eq_iff}
use simon.Prelude.Dict.{
  Unikalne, remove-Unikalne, Dict, Member, lookup, remove, contains_key, lookup-remove-some,
  lookup-remove_other, lookup-insert,
}
use simon.Node.{Registry, evict, osierocone, usun_wszystkie}
use simon.Node.Steps.{Spojny}
use simon.Node.Register.{evicted}

-- What is left after the removals was there, and was not to be removed.
usun_wszystkie_lem :
    (js : List String) (d : Dict String) (k n : String)
    → lookup k (usun_wszystkie js d) ≡ some n
    → (lookup k d ≡ some n) × (¬ Member k js)
unfolding usun_wszystkie
usun_wszystkie_lem [] d k n h = (h, λ x. x)
usun_wszystkie_lem (j ∷ js) d k n h =
    let (p, q) = usun_wszystkie_lem js (remove j d) k n h in
    let (r, t) = lookup-remove-some k j d n p in (t, λ m. elim m [ inl e ↦ r e | inr e ↦ q e ])

pub usun_wszystkie-Unikalne :
    (js : List String) (d : Dict String) → Unikalne d → Unikalne (usun_wszystkie js d)
unfolding usun_wszystkie
usun_wszystkie-Unikalne [] d u = u
usun_wszystkie-Unikalne (j ∷ js) d u =
    usun_wszystkie-Unikalne js (remove j d) (remove-Unikalne j d u)

usun_wszystkie_zostaje :
    (js : List String) (d : Dict String) (k : String)
    → ¬ Member k js
    → lookup k (usun_wszystkie js d) ≡ lookup k d
unfolding usun_wszystkie
usun_wszystkie_zostaje [] d k h = refl
usun_wszystkie_zostaje (j ∷ js) d k h =
    let e = usun_wszystkie_zostaje js (remove j d) k (λ m. h (inr m)) in
    cc (e, lookup-remove_other k j d (λ q. h (inl q)))

-- A job that a lookup finds assigned to the node is among the orphans.
osierocone_kompletne :
    (n : String) (d : Dict String) (k : String) → lookup k d ≡ some n → Member k (osierocone n d)
unfolding osierocone lookup
osierocone_kompletne n [] k h = cc
osierocone_kompletne n ((j, v) ∷ d) k h = elim (Bool-cases (str_eq k j)) [
  | inl e ↦
      let v_n : v ≡ n = some_eq (rw e at h) in
      let q : str_eq v n ≡ true = (eq_iff v n).1 v_n in rw q (inl (str_eq-true k j e))
  | inr e ↦
      let ih = osierocone_kompletne n d k (rw e at h) in
      elim (Bool-cases (str_eq v n)) [ inl q ↦ rw q (inr ih) | inr q ↦ rw q ih ]
]
  where
    some_eq : {x y : String} → some x ≡ some y → x ≡ y
    some_eq h = cc

pub osierocone_lem :
    (n : String) (d : Dict String) (k i : String)
    → lookup k (usun_wszystkie (osierocone n d) d) ≡ some i
    → (i ≢ n) × (lookup k d ≡ some i)
osierocone_lem n d k i h =
    let (p, q) = usun_wszystkie_lem (osierocone n d) d k i h in
    (λ e. q (osierocone_kompletne n d k (cc (p, e))), p)

-- Every orphan was assigned to the node, in a map whose keys are found.
osierocone_znane :
    (n : String) (d : Dict String) (k : String)
    → Unikalne d
    → Member k (osierocone n d)
    → lookup k d ≡ some n
unfolding osierocone lookup
osierocone_znane n [] k u h = absurd h
osierocone_znane n ((j, v) ∷ d) k u h = elim (Bool-cases (str_eq v n)) [
  | inl q ↦
      let h' : (k ≡ j) ⊎ Member k (osierocone n d) = rw q at h in
      elim h' [
        | inl e ↦ rw ((eq_iff k j).1 e) (ap some (str_eq-true v n q))
        | inr m ↦ dalej (osierocone_znane n d k u.1 m)
      ]
  | inr q ↦ dalej (osierocone_znane n d k u.1 (rw q at h))
]
  where
    dalej : lookup k d ≡ some n → (if str_eq k j then some v else lookup k d) ≡ some n
    dalej e = let inny : k ≢ j = λ r. cc (r, e, u.0) in rw (str_eq_of_ne k j inny) e

-- When a registered node is evicted from a registry that keeps the invariant of `przebieg-Spojny`, its state is evicted; the jobs handed back are exactly those
-- that were assigned to it, none of which stays assigned; and every other job keeps its assignment.
pub evict_lem :
    (g : Registry) (n : String)
    → contains_key n g.nodes ≡ true
    → Spojny g
    → (lookup n (evict g n).0.states ≡ some evicted)
      × ((j : String) → Member j (evict g n).1 ↔ (lookup j g.assigned ≡ some n))
      × ((j i : String)
          → (lookup j (evict g n).0.assigned ≡ some i) ↔ ((i ≢ n) × (lookup j g.assigned ≡ some i)))
unfolding evict
evict_lem g n c s = rw c (
  lookup-insert n evicted g.states,
  λ j. (osierocone_znane n g.assigned j s.jedne_joby, osierocone_kompletne n g.assigned j),
  λ j i. (
    osierocone_lem n g.assigned j i,
    λ (r, e).
        let inny : ¬ Member j (osierocone n g.assigned) =
          λ m. r (cc (e, osierocone_znane n g.assigned j s.jedne_joby m)) in
        cc (e, usun_wszystkie_zostaje (osierocone n g.assigned) g.assigned j inny),
  ),
)
