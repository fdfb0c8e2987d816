-- ===== src/Node/Draw.antt =====
-- `wybierz_kandydata_vrf` of crates/simon-node/src/lib.rs: the draw of a node for a job.
use simon.Prelude.{
  ℕ, List, [], ◌∷◌, String, Option, ok, ◌≡◌, ◌⊎◌, refl, true, false, some, none, inl, inr,
  Bool-cases, Option-cases, is_empty, Result-cases, subst, none_ne_some,
}
use simon.Prelude.Dict.{Member}
use simon.Prelude.StrOrder.{str_leb, str_ltb, str_leb_refl, str_leb_total, str_leb_trans}
use simon.Kodowanie.{Biblioteki, content_digest}
use simon.Node.{Registry, kandydaci_dla_modelu}
use simon.Node.Los.{swieze, wybierz_kandydata_vrf, losuj, z_ziarnem, pick_dokument, vrf_dokument}

-- A node's claim on the job: its digest under the seed.
abbrev pub Los : Biblioteki → String → String → String → Type 0
Los b ziarno id d = content_digest b (pick_dokument ziarno id) ≡ ok d

module _ (b : Biblioteki) (ziarno : String) where
  -- `id` has the digest `d`, which no digest of the list undercuts.
  abbrev pub Najmniejszy : String → String → List String → Type 0
  Najmniejszy id d xs =
      Los b ziarno id d
      × ((x : String) → Member x xs → (e : String) × Los b ziarno x e × (str_leb d e ≡ true))

  str_ltb_cases :
      (s t : String)
      → ((str_ltb s t ≡ true) × (str_leb s t ≡ true))
        ⊎ ((str_ltb s t ≡ false) × (str_leb t s ≡ true))
  unfolding str_ltb
  str_ltb_cases s t = elim (Bool-cases (str_leb t s)) [
    | inl e ↦ inr (rw e, e)
    | inr e ↦ inl (rw e, str_leb_total t s e)
  ]

  -- The loop returns the best of what it began with and of the list.
  losuj_od :
      (xs : List String) (c d : String) (w : Option (String × String))
      → Los b ziarno c d
      → losuj b ziarno xs (some (c, d)) ≡ some w
      → (c' d' : String) × (w ≡ some (c', d'))
        × ((c' ≡ c) ⊎ Member c' xs)
        × (str_leb d' d ≡ true)
        × Najmniejszy c' d' xs
  unfolding losuj
  losuj_od [] c d w l h = (c, d, cc, inl refl, str_leb_refl d, (l, λ x m. absurd m))
  losuj_od (x ∷ xs) c d w l h = elim (Result-cases (content_digest b (pick_dokument ziarno x))) [
    | inr (_, e) ↦ absurd (none_ne_some (rw (e, losuj) at h))
    | inl (dx, e) ↦ elim (str_ltb_cases dx d) [
      | inl (q, r) ↦
          let (c', d', we, m, le, n) = losuj_od xs x dx w e (rw (e, losuj, q) at h) in
          (
            c',
            d',
            we,
            inr m,
            str_leb_trans d' dx d le r,
            (n.0, λ y my. elim my [ inl s ↦ (dx, rw s e, le) | inr t ↦ n.1 y t ]),
          )
      | inr (q, r) ↦
          let (c', d', we, m, le, n) = losuj_od xs c d w l (rw (e, losuj, q) at h) in
          (
            c',
            d',
            we,
            elim m [ inl k ↦ inl k | inr k ↦ inr (inr k) ],
            le,
            (
              n.0,
              λ y my. elim my [
                | inl s ↦ (dx, rw s e, str_leb_trans d' d dx le r)
                | inr t ↦ n.1 y t
              ],
            ),
          )
    ]
  ]

  losuj_lem :
      (xs : List String) (id zwrocone : String)
      → z_ziarnem b ziarno (losuj b ziarno xs none) ≡ some (id, zwrocone)
      → (zwrocone ≡ ziarno) × Member id xs × ((d : String) × Najmniejszy id d xs)
  unfolding losuj
  losuj_lem [] id zwrocone h = cc
  losuj_lem (x ∷ xs) id zwrocone h =
      elim (Result-cases (content_digest b (pick_dokument ziarno x))) [
        | inr (_, e) ↦ absurd (none_ne_some (rw (e, losuj) at h))
        | inl (dx, e) ↦ elim (Option-cases (losuj b ziarno xs (some (x, dx)))) [
          | inl q ↦ absurd (none_ne_some (rw (e, losuj, q) at h))
          | inr (w, q) ↦
              let (c', d', we, m, le, n) = losuj_od xs x dx w e q in
              let (s, t) = para_eq (rw (e, losuj, q, we) at h) in
              let n' : Najmniejszy c' d' (x ∷ xs) =
                (n.0, λ y my. elim my [ inl r ↦ (dx, rw r e, le) | inr k ↦ n.1 y k ]) in
              (
                t,
                subst (λ i. Member i (x ∷ xs)) s m,
                (d', subst (λ i. Najmniejszy i d' (x ∷ xs)) s n'),
              )
        ]
      ]
    where
      para_eq :
          {c z : String}
          → Path (Option (String × String)) (some (c, z)) (some (id, zwrocone))
          → (c ≡ id) × (zwrocone ≡ z)
      para_eq h = (cc, cc)

-- The node that the draw gives is a candidate, fresh where a timeout is set, the seed it gives is the
-- digest of the model and the job, and no candidate's digest under that seed is smaller than the
-- chosen one's.
pub wybierz_kandydata_vrf_lem :
    (b : Biblioteki) (g : Registry) (model : String) (ctx : ℕ) (job : String) (teraz : ℕ)
    (id ziarno : String)
    → wybierz_kandydata_vrf b g model ctx job teraz ≡ some (id, ziarno)
    → (content_digest b (vrf_dokument model job) ≡ ok ziarno)
      × Member id (swieze g teraz (kandydaci_dla_modelu g model ctx))
      × ((d : String) × Najmniejszy b ziarno id d
            (swieze g teraz (kandydaci_dla_modelu g model ctx)))
unfolding wybierz_kandydata_vrf
wybierz_kandydata_vrf_lem b g model ctx job teraz id ziarno h =
    let xs = swieze g teraz (kandydaci_dla_modelu g model ctx) in
    elim (Bool-cases (is_empty xs)) [
      | inl e ↦ absurd (none_ne_some (rw (e, wybierz_kandydata_vrf) at h))
      | inr e ↦ elim (Result-cases (content_digest b (vrf_dokument model job))) [
        | inr (_, q) ↦ absurd (none_ne_some (rw (e, wybierz_kandydata_vrf, q) at h))
        | inl (z, q) ↦
            let (r, m, n) = losuj_lem b z xs id ziarno (rw (e, wybierz_kandydata_vrf, q) at h) in
            (rw r q, m, rw r n)
      ]
    ]
