-- ===== src/Klient/Race.antt =====
-- The race of crates/simon-harness/src/client_protocol.rs between the coordinators that answer one
-- order: who wins, and who cannot change it.
use simon.Prelude.{
  ◌≡◌, ◌≢◌, ◌↔◌, ◌⊎◌, inl, inr, true, false, List, [], ◌∷◌, ◌++◌, String, none, some, ok,
  Bool-cases, &&-eq-true, Any, All, any, any_iff, false-true,
}
use simon.Prelude.Text.{str_eq, eq_iff, str_eq-true, chars}
use simon.Prelude.Dict.{Member}
use simon.Prelude.StrOrder.{str_leb_refl}
use simon.Prelude.MinBy.{Porzadek, min_by_lem, min_by-some, All-Any}
use simon.Prelude.PairOrder.{para_leb_od, para_leb_trans, para_leb_total, para_leb_antisym}
use simon.Kodowanie.{Biblioteki}
use simon.Crypto.{PublicKey}
use simon.Receipt.{verify_self}
use simon.Receipt.Gates.{verify_for_node_iff, guard-ok}
use simon.Klient.Wyscig.{
  OrderAccepted, OrderCompleted, RejestrKoordynatorow, zawiera, podpis_przyjecia, ranking,
  wczesniejszy, winner, dopuszczony, dopusc, winner_zrejestrowany, verify_completion,
}

module _ (b : Biblioteki) where
  wczesniejszy-Porzadek : Porzadek (wczesniejszy b)
  unfolding wczesniejszy
  wczesniejszy-Porzadek = record {
    zwrotny = λ a.
        para_leb_od (ranking b a) a.job_id (ranking b a) a.job_id (str_leb_refl _)
          (inr (str_leb_refl _));
    spojny = λ a c h. para_leb_total (ranking b a) a.job_id (ranking b c) c.job_id h;
    przechodni = λ a c d.
        para_leb_trans (ranking b a) a.job_id (ranking b c) c.job_id (ranking b d) d.job_id;
  }

  -- No answer, no winner; otherwise the winner is one of the answers, and none has a smaller pair of
  -- ranking and job.
  pub winner_lem :
      (xs : List OrderAccepted)
      → ((xs ≡ []) × (winner b xs ≡ none))
        ⊎ ((w : OrderAccepted) × (winner b xs ≡ some w)
            × Any (λ c. w ≡ c) xs
            × All (λ c. wczesniejszy b w c ≡ true) xs)
  unfolding winner
  winner_lem xs = min_by_lem (wczesniejszy b) wczesniejszy-Porzadek xs

  -- Every client that has heard the same answers, in whatever order and however often, names the same
  -- winner: the two winners have the same ranking and the same job, as code points.
  pub winner_kolejnosc :
      (xs ys : List OrderAccepted) (w v : OrderAccepted)
      → ((c : OrderAccepted) → Any (λ y. c ≡ y) xs → Any (λ y. c ≡ y) ys)
      → ((c : OrderAccepted) → Any (λ y. c ≡ y) ys → Any (λ y. c ≡ y) xs)
      → winner b xs ≡ some w
      → winner b ys ≡ some v
      → (chars (ranking b w) ≡ chars (ranking b v)) × (chars w.job_id ≡ chars v.job_id)
  unfolding winner wczesniejszy
  winner_kolejnosc xs ys w v f g h k =
      let (m, a) = min_by-some (wczesniejszy b) wczesniejszy-Porzadek xs w h in
      let (n, c) = min_by-some (wczesniejszy b) wczesniejszy-Porzadek ys v k in
      let p = All-Any (λ y. wczesniejszy b w y ≡ true) xs v a (g v n) in
      let q = All-Any (λ y. wczesniejszy b v y ≡ true) ys w c (f w m) in
      para_leb_antisym (ranking b w) w.job_id (ranking b v) v.job_id p q

  dopuszczony_lem :
      (klucze : RejestrKoordynatorow) (o : String) (c : OrderAccepted)
      → dopuszczony b klucze o c ≡ true
      → (c.order_id ≡ o) × Member c.coordinator_pubkey klucze × (podpis_przyjecia b c ≡ true)
  unfolding dopuszczony zawiera
  dopuszczony_lem klucze o c h =
      let (p, h1) = &&-eq-true (str_eq c.order_id o) _ h in
      let (q, r) =
        &&-eq-true (any (str_eq c.coordinator_pubkey) klucze) (podpis_przyjecia b c) h1 in
      (
        str_eq-true c.order_id o p,
        (any_iff (λ y. c.coordinator_pubkey ≡ y) (str_eq c.coordinator_pubkey)
              (λ y. eq_iff c.coordinator_pubkey y) klucze).0
            q,
        r,
      )

  dopusc-Any :
      (klucze : RejestrKoordynatorow) (o : String) (cs : List OrderAccepted) (w : OrderAccepted)
      → Any (λ y. w ≡ y) (dopusc b klucze cs o)
      → Any (λ y. w ≡ y) cs × (dopuszczony b klucze o w ≡ true)
  unfolding dopusc
  dopusc-Any klucze o [] w m = absurd m
  dopusc-Any klucze o (c ∷ cs) w m = elim (Bool-cases (dopuszczony b klucze o c)) [
    | inl e ↦
        let m' : (w ≡ c) ⊎ Any (λ y. w ≡ y) (dopusc b klucze cs o) = rw e at m in
        elim m' [
          | inl q ↦ (inl q, rw q e)
          | inr q ↦ let (r, s) = dopusc-Any klucze o cs w q in (inr r, s)
        ]
    | inr e ↦ let (r, s) = dopusc-Any klucze o cs w (rw e at m) in (inr r, s)
  ]

  -- The registered winner is one of the answers, for the order in question, of a trusted coordinator,
  -- with a valid signature, and no admitted answer comes before it; there is none only if no answer is
  -- admitted.
  pub winner_zrejestrowany_lem :
      (klucze : RejestrKoordynatorow) (cs : List OrderAccepted) (o : String)
      → ((dopusc b klucze cs o ≡ []) × (winner_zrejestrowany b klucze cs o ≡ none))
        ⊎ ((w : OrderAccepted) × (winner_zrejestrowany b klucze cs o ≡ some w)
            × Any (λ c. w ≡ c) cs
            × (w.order_id ≡ o)
            × Member w.coordinator_pubkey klucze
            × (podpis_przyjecia b w ≡ true)
            × All (λ c. wczesniejszy b w c ≡ true) (dopusc b klucze cs o))
  unfolding winner_zrejestrowany
  winner_zrejestrowany_lem klucze cs o =
      elim (min_by_lem (wczesniejszy b) wczesniejszy-Porzadek (dopusc b klucze cs o)) [
        | inl e ↦ inl e
        | inr (w, e, m, a) ↦
            let (r, s) = dopusc-Any klucze o cs w m in
            let (p, q, t) = dopuszczony_lem klucze o w s in inr (w, e, r, p, q, t, a)
      ]

  dopusc_obcy :
      (klucze : RejestrKoordynatorow) (o : String) (xs ys : List OrderAccepted) (c : OrderAccepted)
      → dopuszczony b klucze o c ≡ false
      → dopusc b klucze (xs ++ c ∷ ys) o ≡ dopusc b klucze (xs ++ ys) o
  unfolding dopusc
  dopusc_obcy klucze o [] ys c h = rw h
  dopusc_obcy klucze o (x ∷ xs) ys c h = rw (dopusc_obcy klucze o xs ys c h)

  -- The race cannot be taken from outside: an answer that is for another order, or of an untrusted
  -- key, or not validly signed, changes nothing, wherever it arrives among the others.
  pub winner_zrejestrowany_obcy :
      (klucze : RejestrKoordynatorow) (xs ys : List OrderAccepted) (c : OrderAccepted) (o : String)
      → (c.order_id ≢ o) ⊎ (¬ Member c.coordinator_pubkey klucze) ⊎ (podpis_przyjecia b c ≡ false)
      → winner_zrejestrowany b klucze (xs ++ c ∷ ys) o ≡ winner_zrejestrowany b klucze (xs ++ ys) o
  unfolding winner_zrejestrowany
  winner_zrejestrowany_obcy klucze xs ys c o h = rw (
      dopusc_obcy klucze o xs ys c (elim (Bool-cases (dopuszczony b klucze o c)) [
        | inr e ↦ e
        | inl e ↦
            let (p, q, r) = dopuszczony_lem klucze o c e in
            absurd
              (elim h [ inl n ↦ n p | inr t ↦ elim t [ inl n ↦ n q | inr n ↦ false-true n r ] ])
      ]))

  -- A client accepts a finished order exactly when it is the order it placed, and the receipt in it is
  -- validly signed, by the key registered for the node, for the job and the node that the order names.
  pub verify_completion_iff :
      (c : OrderCompleted) (o : String) (klucz : PublicKey)
      → (verify_completion b c o klucz ≡ ok tt) ↔ (
          (c.order_id ≡ o)
          × (verify_self b c.receipt ≡ ok tt)
          × (c.receipt.signer ≡ klucz)
          × (c.receipt.job_id ≡ c.job_id)
          × (c.receipt.node_id ≡ c.node_id))
  unfolding verify_completion
  verify_completion_iff c o klucz =
      let f = verify_for_node_iff b c.receipt c.job_id c.node_id klucz in
      (
        λ h.
            let (p, q) = guard-ok (str_eq c.order_id o) _ h in
            let (r, s, t, u) = f.0 q in (str_eq-true c.order_id o p, r, s, t, u),
        λ (e, r, s, t, u). rw ((eq_iff c.order_id o).1 e) (f.1 (r, s, t, u)),
      )
