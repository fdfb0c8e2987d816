-- ===== src/Wezel/Model/Own.antt =====
-- What is guaranteed of the JSON that a node reads in crates/simon-cli/src/node.rs and wspolne.rs.
use simon.Prelude.{
  ℕ, ◌≤◌, ◌≡◌, refl, ◌==◌, ◌||◌, ◌⊎◌, Bool, true, List, [], ◌∷◌, String, Option, none, some,
  Bool-cases, Option-cases, inl, inr, All, Any, arith, length, none_ne_some, some-eq, sym, subst,
  ◌∙◌, ap, leb, suc, ltb,
}
use simon.Prelude.Text.{str_eq-true}
use simon.Kodowanie.{Dokument, Elementy, nil, cons, get, as_str, as_u64}
use simon.Wezel.Model.{
  indeks, find, o_id, wpis, wybierz_wpis, wyciagnij_id_tokenow, jako_u32, tablica, ile,
  max_m1_tokens, u32_max,
}

find-some :
    (p : Dokument → Bool) (Q : Dokument → Type 0)
    → ((x : Dokument) → p x ≡ true → Q x)
    → (ms : List Dokument) (m : Dokument) → find p ms ≡ some m
    → Q m × Any Q ms
find-some p Q f [] m h = absurd (none_ne_some h)
find-some p Q f (x ∷ ms) m h = elim (Bool-cases (p x)) [
  | inl e ↦ let q : x ≡ m = some-eq (rw e at h) in (subst Q q (f x e), inl (f x e))
  | inr e ↦ let (q, r) = find-some p Q f ms m (rw e at h) in (q, inr r)
]

o_id-true : (cel : String) (m : Dokument) → o_id cel m ≡ true → as_str (indeks m "id") ≡ some cel
o_id-true cel m h = elim (Option-cases (as_str (indeks m "id"))) [
  | inl e ↦ absurd (cc (rw (e, o_id) at h))
  | inr (s, e) ↦ e ∙ ap some (str_eq-true s cel (rw (e, o_id) at h))
]

-- An entry that bears the name.
abbrev pub Nazwany : String → Dokument → Type 0
Nazwany m x = as_str (indeks x "id") ≡ some m

wybrany :
    (lista : List Dokument) (zadany : Option String) (m : String)
    → (wybierz_wpis lista zadany).0 ≡ some m
    → (x : Dokument) × (wpis lista zadany ≡ some x) × Nazwany m x
unfolding wybierz_wpis
wybrany lista zadany m h = elim (Option-cases (wpis lista zadany)) [
  | inl e ↦ absurd (none_ne_some (rw (e, wybierz_wpis) at h))
  | inr (x, e) ↦ (x, e, rw (e, wybierz_wpis) at h)
]

-- A node that was given the name of its model announces that name or none, and the name only where an
-- entry of the backend's list has it; one that was given no name announces one only where the list has
-- a single entry, and then that entry's.
pub wybierz_wpis_lem :
    (lista : List Dokument) (zadany : Option String) (m : String)
    → (wybierz_wpis lista zadany).0 ≡ some m
    → ((zadany ≡ some m) × Any (Nazwany m) lista)
      ⊎ ((zadany ≡ none) × (x : Dokument) × (lista ≡ x ∷ []) × Nazwany m x)
unfolding wpis
wybierz_wpis_lem lista (some cel) m h =
    let (x, e, q) = wybrany lista (some cel) m h in
    let (r, a) = find-some (o_id cel) (Nazwany cel) (o_id-true cel) lista x e in
    let c : cel ≡ m = some-eq (sym r ∙ q) in inl (ap some c, subst (λ y. Any (Nazwany y) lista) c a)
wybierz_wpis_lem [] none m h = let (x, e, q) = wybrany [] none m h in absurd (none_ne_some e)
wybierz_wpis_lem (y ∷ []) none m h =
    let (x, e, q) = wybrany (y ∷ []) none m h in
    inr (refl, y, refl, subst (Nazwany m) (sym (some-eq e)) q)
wybierz_wpis_lem (y ∷ z ∷ l) none m h =
    let (x, e, q) = wybrany (y ∷ z ∷ l) none m h in absurd (none_ne_some e)

length-jako_u32 :
    (e : Elementy) (ns : List ℕ)
    → jako_u32 e ≡ some ns
    → (length ns ≡ ile e) × All (λ n. n ≤ u32_max) ns
length-jako_u32 nil ns h = let q = some-eq h in rw (sym q) (refl, tt)
length-jako_u32 (cons d ds) ns h = elim (Option-cases (as_u64 d)) [
  | inl e ↦ absurd (none_ne_some (rw (e, jako_u32) at h))
  | inr (n, e) ↦ elim (Bool-cases (leb n u32_max)) [
    | inr l ↦ absurd (none_ne_some (rw l at (rw (e, jako_u32) at h)))
    | inl l ↦ elim (Option-cases (jako_u32 ds)) [
      | inl r ↦ absurd (none_ne_some (rw r at (rw l at (rw (e, jako_u32) at h))))
      | inr (ms, r) ↦
          let q : n ∷ ms ≡ ns = some-eq (rw r at (rw l at (rw (e, jako_u32) at h))) in
          let (u, v) = length-jako_u32 ds ms r in
          subst (λ z. (length z ≡ suc (ile ds)) × All (λ k. k ≤ u32_max) z) q
            (ap suc u, (ground arith, v))
    ]
  ]
]

-- The tokens that the node binds its input and output to are never none and never too many, and each is a
-- 32-bit number.
pub wyciagnij_id_tokenow_lem :
    (v : Dokument) (ns : List ℕ)
    → wyciagnij_id_tokenow v ≡ some ns
    → (1 ≤ length ns) × (length ns ≤ max_m1_tokens) × All (λ n. n ≤ u32_max) ns
unfolding wyciagnij_id_tokenow
wyciagnij_id_tokenow_lem v ns h = elim (Option-cases (tablica (get v "tokens"))) [
  | inl e ↦ absurd (none_ne_some (rw (e, wyciagnij_id_tokenow) at h))
  | inr (arr, e) ↦ elim (Bool-cases (ile arr == 0 || ltb max_m1_tokens (ile arr))) [
    | inl z ↦ absurd (none_ne_some (rw z at (rw (e, wyciagnij_id_tokenow) at h)))
    | inr z ↦
        let (l, a) = length-jako_u32 arr ns (rw z at (rw (e, wyciagnij_id_tokenow) at h)) in
        (ground arith, ground arith, a)
  ]
]
