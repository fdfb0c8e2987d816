-- ===== src/Wezel/Busy.antt =====
-- A prompt that a full node turns away in crates/simon-cli/src/node.rs, and what becomes of it when it is
-- sent again.
use simon.Prelude.{
  ℕ, ◌≡◌, refl, true, List, [], ◌∷◌, ◌++◌, String, none, some, Bool-cases, inl, inr, ltb, arith,
  length, ap,
}
use simon.Prelude.Text.{eq_refl}
use simon.Prelude.Float.{Float}
use simon.Klient.Zlecenie.{Format}
use simon.Prompt.{PromptRequest}
use simon.Wezel.{
  Slad, slad_eq, byl, zapamietaj, Pamiec, limit_peera, powtorzony, zajety, Petla, przyjmij_prompt,
  sprawdz_wersje, pamiec_jobow,
}
use simon.Wezel.Intake.{limit_peera_lem, byl-append}
use simon.Wezel.Branches.{przyjmij_prompt-zajety, przyjmij_prompt-limit}

byl_ostatni : (s : Slad) (xs : List Slad) → byl s (xs ++ s ∷ []) ≡ true
byl_ostatni s xs =
    let p : slad_eq s s ≡ true = rw (eq_refl s.0, eq_refl s.1) refl in
    let q = byl-append s xs (s ∷ []) in ground arith

byl-zapamietaj : (s : Slad) (xs : List Slad) → byl s (zapamietaj s xs) ≡ true
unfolding zapamietaj
byl-zapamietaj s [] = byl_ostatni s []
byl-zapamietaj s (x ∷ xs) = elim (Bool-cases (ltb pamiec_jobow (length (x ∷ (xs ++ s ∷ []))))) [
  | inl e ↦ rw e (byl_ostatni s xs)
  | inr e ↦ rw e (byl_ostatni s (x ∷ xs))
]

module _ (f : Float) (fmt : Format) (max_jobs : ℕ) (rate : f.F) where
  limit_peera-byl :
      (p : Pamiec f fmt) (peer : String) (req : PromptRequest) (teraz : ℕ)
      → byl (peer, req.job_id) p.ostatnie ≡ true
      → limit_peera f fmt p peer req rate teraz ≡ (some (powtorzony req), p)
  unfolding limit_peera
  limit_peera-byl p peer req teraz h = rw (h, limit_peera) refl

  -- A prompt that passes the gates of a node without a free permit is answered `node_zajety`, which asks
  -- the client to try again later; but its job is remembered by then, and the same prompt of the same
  -- peer is refused as a repeat the next time, whatever the time and however many permits are free then.
  pub zajety-powtorzony :
      (s : Petla f fmt) (peer : String) (req : PromptRequest) (teraz pozniej : ℕ)
      → sprawdz_wersje fmt req ≡ none
      → (limit_peera f fmt s.pamiec peer req rate teraz).0 ≡ none
      → s.przyjecia ≡ 0
      → ((przyjmij_prompt f fmt max_jobs rate s peer req teraz).0
          ≡ some (zajety f fmt max_jobs req))
        × ((n : ℕ) (z : List PromptRequest)
            → (przyjmij_prompt f fmt max_jobs rate
                (record {
                  pamiec = (przyjmij_prompt f fmt max_jobs rate s peer req teraz).1.pamiec;
                  przyjecia = n;
                  zadania = z;
                })
                peer
                req
                pozniej).0
              ≡ some (powtorzony req))
  zajety-powtorzony s peer req teraz pozniej e d z =
      let l = limit_peera f fmt s.pamiec peer req rate teraz in
      let v = limit_peera_lem f fmt s.pamiec peer req rate teraz in
      let q = rw d at v in
      let h : byl (peer, req.job_id) l.1.ostatnie ≡ true =
        rw q.1 (byl-zapamietaj (peer, req.job_id) s.pamiec.ostatnie) in
      let p = limit_peera-byl l.1 peer req pozniej h in
      rw (przyjmij_prompt-zajety f fmt max_jobs rate s peer req teraz e d (ground arith)) (
        refl,
        λ n k.
            rw
              (przyjmij_prompt-limit f fmt max_jobs rate
                (record { pamiec = l.1; przyjecia = n; zadania = k }) peer req pozniej
                (powtorzony req) e (ap (λ x. x.0) p))
              refl,
      )
