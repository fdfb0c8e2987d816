-- ===== src/Web/Policy.antt =====
-- When `dozwolony_web` of crates/simon-core/src/web.rs lets a fetch through.
use simon.Prelude.{
  ℕ, ◌≡◌, ◌↔◌, ◌⊎◌, inl, inr, refl, ap, true, false, not, List, [], ◌∷◌, ◌++◌, String, Option, ok,
  Any, any_iff, map, Bool-cases, ||-eq-true, arith, ◌==◌, &&-eq-true, guard-eq-ok,
}
use simon.Prelude.Text.{str_eq, eq_iff, chars}
use simon.Prelude.Ascii.{ascii_lower, znaki_eq, eq_ignore_ascii_case}
use simon.Web.{
  PolaUrl, PolitykaWeb, IpAddr, ends_with, bez_kropki, pasuje, host_dozwolony, prywatny_ip,
  dozwolony_web,
}

znaki_eq_iff : (xs ys : List ℕ) → (znaki_eq xs ys ≡ true) ↔ (xs ≡ ys)
znaki_eq_iff [] [] = (λ h. refl, λ h. refl)
znaki_eq_iff [] (y ∷ ys) = (λ h. cc, λ h. cc)
znaki_eq_iff (x ∷ xs) [] = (λ h. cc, λ h. cc)
znaki_eq_iff (x ∷ xs) (y ∷ ys) =
    let i = znaki_eq_iff xs ys in
    (
      λ h.
          (let (e, f) = &&-eq-true (x == y) (znaki_eq xs ys) h in
            let q : x ≡ y = ground arith in rw (q, i.0 f) refl),
      λ h.
          (let e : x ≡ y = cc in
            let f : znaki_eq xs ys ≡ true = (let t : xs ≡ ys = cc in i.1 t) in ground arith),
    )

-- The host is the pattern's name, or a name below it.
abbrev pub Pasuje : List ℕ → String → Type 0
Pasuje h wzorzec =
    (h ≡ bez_kropki wzorzec) ⊎ ((przed : List ℕ) × (h ≡ przed ++ 46 ∷ bez_kropki wzorzec))

nil_ne_append : (przed : List ℕ) (y : ℕ) (s : List ℕ) → Path (List ℕ) [] (przed ++ y ∷ s) → ⊥
nil_ne_append [] y s h = cc
nil_ne_append (z ∷ zs) y s h = cc

ends_with_iff : (s h : List ℕ) → (ends_with s h ≡ true) ↔ ((przed : List ℕ) × (h ≡ przed ++ s))
ends_with_iff [] [] = (λ h. ([], refl), λ h. refl)
ends_with_iff (y ∷ s) [] = (λ h. cc, λ (przed, h). absurd (nil_ne_append przed y s h))
ends_with_iff s (x ∷ h) = elim (Bool-cases (znaki_eq (x ∷ h) s)) [
  | inl e ↦ (λ p. ([], (znaki_eq_iff (x ∷ h) s).0 e), λ p. rw e refl)
  | inr e ↦
      let i = ends_with_iff s h in
      (
        λ p. (let (przed, q) = i.0 (rw e at p) in (x ∷ przed, ap (λ t. x ∷ t) q)),
        λ (przed, q). rw e (dalszy x s h e przed q i),
      )
]
  where
    dalszy :
        (x : ℕ) (s h : List ℕ)
        → znaki_eq (x ∷ h) s ≡ false
        → (przed : List ℕ) → x ∷ h ≡ przed ++ s
        → (ends_with s h ≡ true) ↔ ((przed : List ℕ) × (h ≡ przed ++ s))
        → ends_with s h ≡ true
    dalszy x s h e [] q i = absurd (cc ((znaki_eq_iff (x ∷ h) s).1 q, e))
    dalszy x s h e (z ∷ zs) q i = let t : h ≡ zs ++ s = cc in i.1 (zs, t)

pasuje_iff : (h : List ℕ) (wzorzec : String) → (pasuje h wzorzec ≡ true) ↔ Pasuje h wzorzec
pasuje_iff h wzorzec =
    let w = bez_kropki wzorzec in
    let i = znaki_eq_iff h w in
    let j = ends_with_iff (46 ∷ w) h in
    (
      λ e. elim (||-eq-true (znaki_eq h w) (ends_with (46 ∷ w) h) e) [
        | inl a ↦ inl (i.0 a)
        | inr a ↦ inr (j.0 a)
      ],
      λ e. elim e [ inl a ↦ let t = i.1 a in ground arith | inr a ↦ let t = j.1 a in ground arith ],
    )

module _ (parse : List ℕ → Option IpAddr) where
  -- What a fetch has to be.
  pub record Dozwolony (p : PolaUrl) (pol : PolitykaWeb) : Type 0 where
    pub https : p.scheme ≡ "https"
    pub port_443 : p.port ≡ 443
    pub bez_userinfo : p.userinfo ≡ false
    pub get : eq_ignore_ascii_case p.metoda "GET" ≡ true
    pub publiczny : prywatny_ip parse p.host ≡ false
    pub na_liscie : Any (Pasuje (map ascii_lower (chars p.host))) pol.dozwolone_hosty

  -- A fetch is let through exactly if it is a GET over https on port 443 without user data, to a host that
  -- is no private address and that, in lower case, is one of the listed names or ends with a dot and such a
  -- name.
  pub dozwolony_web_iff :
      (p : PolaUrl) (pol : PolitykaWeb) → (dozwolony_web parse p pol ≡ ok tt) ↔ Dozwolony p pol
  unfolding dozwolony_web host_dozwolony
  dozwolony_web_iff p pol =
      let lista = any_iff (Pasuje h) (pasuje h) (pasuje_iff h) pol.dozwolone_hosty in
      (
        λ e.
            (let (a0, r0) = guard-eq-ok (str_eq p.scheme "https") _ _ e in
              let (a1, r1) = guard-eq-ok (p.port == 443) _ _ r0 in
              let (a2, r2) = guard-eq-ok (not p.userinfo) _ _ r1 in
              let (a3, r3) = guard-eq-ok (eq_ignore_ascii_case p.metoda "GET") _ _ r2 in
              let (a4, r4) = guard-eq-ok (not (prywatny_ip parse p.host)) _ _ r3 in
              let (a5, r5) = guard-eq-ok (host_dozwolony p.host pol.dozwolone_hosty) _ _ r4 in
              record {
                https = (eq_iff p.scheme "https").0 a0;
                port_443 = ground arith;
                bez_userinfo = ground arith;
                get = a3;
                publiczny = ground arith;
                na_liscie = lista.0 a5;
              }),
        λ d.
            rw
              (
                (eq_iff p.scheme "https").1 d.https,
                d.port_443,
                d.bez_userinfo,
                d.get,
                d.publiczny,
                lista.1 d.na_liscie,
              )
              refl,
      )
    where
      h : List ℕ
      h = map ascii_lower (chars p.host)
