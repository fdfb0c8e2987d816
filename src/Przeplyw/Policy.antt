-- ===== src/Przeplyw/Policy.antt =====
-- The policy that przeplyw.rs decides: deny by default.
use simon.Prelude.{
  ◌≡◌, ◌≢◌, ◌↔◌, ◌⊎◌, inl, inr, true, false, ◌&&◌, List, arith, Any, ||-eq-true, or_true, [],
  any_iff,
}
use simon.Przeplyw.{
  Zaufanie, Sink, operator, log, zaufanie_eq, sink_eq, dozwolony_bez_deklasacji, wymaga_deklasacji,
  przeplyw_ok,
}

zaufanie_eq_iff : (a b : Zaufanie) → (zaufanie_eq a b ≡ true) ↔ (a ≡ b)
zaufanie_eq_iff a b = ground arith

sink_eq_iff : (a b : Sink) → (sink_eq a b ≡ true) ↔ (a ≡ b)
sink_eq_iff a b = ground arith

bez_deklasacji_iff :
    (z : Zaufanie) (s : Sink) → (dozwolony_bez_deklasacji z s ≡ true) ↔ ((s ≡ log) ⊎ (z ≡ operator))
unfolding dozwolony_bez_deklasacji
bez_deklasacji_iff z s = ground arith

deklasacja_iff :
    (z : Zaufanie) (s : Sink) (d : Zaufanie × Sink)
    → ((zaufanie_eq d.0 z && sink_eq d.1 s) ≡ true) ↔ ((d.0 ≡ z) × (d.1 ≡ s))
deklasacja_iff z s d = ground (arith, zaufanie_eq_iff d.0 z, sink_eq_iff d.1 s)

-- A flow is allowed exactly when it goes to the log, comes from the operator, or is one of the pairs
-- that the operator has declassified.
pub przeplyw_ok_iff :
    (z : Zaufanie) (s : Sink) (ds : List (Zaufanie × Sink))
    → (przeplyw_ok z s ds ≡ true)
      ↔ (((s ≡ log) ⊎ (z ≡ operator)) ⊎ Any (λ d. (d.0 ≡ z) × (d.1 ≡ s)) ds)
unfolding przeplyw_ok
przeplyw_ok_iff z s ds =
    let a = bez_deklasacji_iff z s in
    let d = any_iff (λ d. (d.0 ≡ z) × (d.1 ≡ s)) _ (deklasacja_iff z s) ds in
    (
      λ h. elim (||-eq-true _ _ h) [ inl p ↦ inl (a.0 p) | inr q ↦ inr (d.0 q) ],
      elim [ inl p ↦ rw (a.1 p) | inr q ↦ rw (d.1 q) (or_true _) ],
    )

-- The untrusted sources reach a controlling sink only by a declassification of exactly that pair:
-- with none, neither text from peers, documents and tools nor the model's own output steers an
-- action, a further order or the system prompt, and `wymaga_deklasacji` says so.
pub domyslna_odmowa :
    (z : Zaufanie) (s : Sink)
    → z ≢ operator
    → s ≢ log
    → (przeplyw_ok z s [] ≡ false) × (wymaga_deklasacji z s ≡ true)
unfolding przeplyw_ok wymaga_deklasacji
domyslna_odmowa z s p q = ground arith
