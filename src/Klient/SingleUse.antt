-- ===== src/Klient/SingleUse.antt =====
-- The register of used authorisations of crates/simon-harness/src/client_protocol.rs.
use simon.Prelude.{
  ◌≡◌, ◌↔◌, inl, inr, true, false, List, [], ◌∷◌, String, ok, err, Bool-cases, any_iff, is_ok,
}
use simon.Prelude.Text.{str_eq, eq_iff}
use simon.Prelude.Dict.{Member}
use simon.Klient.Zlecenie.{Zuzyte, zajmij, zawiera_tekst}

-- The digests that a sequence of calls of `zajmij` accepts, the last first, on top of a register.
unfoldable pub zajmij_wszystkie : Zuzyte → List String → Zuzyte
zajmij_wszystkie zuzyte [] = zuzyte
zajmij_wszystkie zuzyte (d ∷ ds) = elim (zajmij zuzyte d) [
  | ok z ↦ zajmij_wszystkie z ds
  | err _ ↦ zajmij_wszystkie zuzyte ds
]

zawiera_tekst_iff : (xs : List String) (s : String) → (zawiera_tekst xs s ≡ true) ↔ Member s xs
zawiera_tekst_iff xs s = any_iff (λ y. s ≡ y) (str_eq s) (λ y. eq_iff s y) xs

zajmij_zajety : (z : Zuzyte) (d : String) → Member d z → is_ok (zajmij z d) ≡ false
unfolding zajmij
zajmij_zajety z d m = rw ((zawiera_tekst_iff z d).1 m)

zajmij_zostaje :
    (ds : List String) (z : Zuzyte) (d : String) → Member d z → Member d (zajmij_wszystkie z ds)
unfolding zajmij_wszystkie zajmij
zajmij_zostaje [] z d m = m
zajmij_zostaje (x ∷ ds) z d m = elim (Bool-cases (zawiera_tekst z x)) [
  | inl e ↦ rw (e, zajmij_wszystkie) (zajmij_zostaje ds z d m)
  | inr e ↦ rw (e, zajmij_wszystkie) (zajmij_zostaje ds (x ∷ z) d (inr m))
]

zajmij_wpisany :
    (ds : List String) (z : Zuzyte) (d : String) → Member d ds → Member d (zajmij_wszystkie z ds)
unfolding zajmij_wszystkie zajmij
zajmij_wpisany [] z d m = absurd m
zajmij_wpisany (x ∷ ds) z d m = elim (Bool-cases (zawiera_tekst z x)) [
  | inl e ↦
      rw (e, zajmij_wszystkie)
        (elim m [
          | inl q ↦ zajmij_zostaje ds z d (rw q ((zawiera_tekst_iff z x).0 e))
          | inr q ↦ zajmij_wpisany ds z d q
        ])
  | inr e ↦
      rw (e, zajmij_wszystkie)
        (elim m [
          | inl q ↦ zajmij_zostaje ds (x ∷ z) d (inl q)
          | inr q ↦ zajmij_wpisany ds (x ∷ z) d q
        ])
]

zajmij_nowy :
    (ds : List String) (z : Zuzyte) (d : String)
    → ¬ Member d z
    → ¬ Member d ds
    → is_ok (zajmij (zajmij_wszystkie z ds) d) ≡ true
unfolding zajmij_wszystkie zajmij
zajmij_nowy [] z d n m = elim (Bool-cases (zawiera_tekst z d)) [
  | inl e ↦ absurd (n ((zawiera_tekst_iff z d).0 e))
  | inr e ↦ rw e
]
zajmij_nowy (x ∷ ds) z d n m = elim (Bool-cases (zawiera_tekst z x)) [
  | inl e ↦ rw (e, zajmij_wszystkie) (zajmij_nowy ds z d n (λ q. m (inr q)))
  | inr e ↦
      rw (e, zajmij_wszystkie)
        (zajmij_nowy ds (x ∷ z) d (λ q. elim q [ inl r ↦ m (inl r) | inr r ↦ n r ])
          (λ q. m (inr q)))
]

-- Single use: after any calls of `zajmij` on an empty register, a digest is accepted exactly when it was
-- not among the digests of those calls.
pub zajmij_raz :
    (ds : List String) (d : String)
    → (is_ok (zajmij (zajmij_wszystkie [] ds) d) ≡ true) ↔ (¬ Member d ds)
zajmij_raz ds d = (
  λ h m. cc (h, zajmij_zajety (zajmij_wszystkie [] ds) d (zajmij_wpisany ds [] d m)),
  λ n. zajmij_nowy ds [] d (λ x. x) n,
)
