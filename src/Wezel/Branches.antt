-- ===== src/Wezel/Branches.antt =====
-- The branches of the arm of a request in `uruchom` of crates/simon-cli/src/node.rs.
use simon.Prelude.{ℕ, ◌-◌, ◌≡◌, refl, true, false, [], ◌∷◌, ◌++◌, String, none, some, ◌==◌}
use simon.Prelude.Float.{Float}
use simon.Klient.Zlecenie.{Format}
use simon.Prompt.{PromptRequest, PromptReply}
use simon.Wezel.{limit_peera, Petla, przyjmij_prompt, sprawdz_wersje, zajety}

module _ (f : Float) (fmt : Format) (max_jobs : ℕ) (rate : f.F) where
  pub przyjmij_prompt-wersja :
      (s : Petla f fmt) (peer : String) (req : PromptRequest) (teraz : ℕ) (r : PromptReply)
      → sprawdz_wersje fmt req ≡ some r
      → przyjmij_prompt f fmt max_jobs rate s peer req teraz ≡ (some r, s)
  unfolding przyjmij_prompt
  przyjmij_prompt-wersja s peer req teraz r e = rw (e, przyjmij_prompt) refl

  pub przyjmij_prompt-limit :
      (s : Petla f fmt) (peer : String) (req : PromptRequest) (teraz : ℕ) (r : PromptReply)
      → sprawdz_wersje fmt req ≡ none
      → (limit_peera f fmt s.pamiec peer req rate teraz).0 ≡ some r
      → przyjmij_prompt f fmt max_jobs rate s peer req teraz
        ≡ (some r, record s { pamiec = (limit_peera f fmt s.pamiec peer req rate teraz).1 })
  unfolding przyjmij_prompt
  przyjmij_prompt-limit s peer req teraz r e d = rw (e, przyjmij_prompt) (rw d refl)

  pub przyjmij_prompt-zajety :
      (s : Petla f fmt) (peer : String) (req : PromptRequest) (teraz : ℕ)
      → sprawdz_wersje fmt req ≡ none
      → (limit_peera f fmt s.pamiec peer req rate teraz).0 ≡ none
      → (s.przyjecia == 0) ≡ true
      → przyjmij_prompt f fmt max_jobs rate s peer req teraz ≡ (
        some (zajety f fmt max_jobs req),
        record s { pamiec = (limit_peera f fmt s.pamiec peer req rate teraz).1 },
      )
  unfolding przyjmij_prompt
  przyjmij_prompt-zajety s peer req teraz e d z = rw (e, przyjmij_prompt) (rw d (rw z refl))

  pub przyjmij_prompt-wolny :
      (s : Petla f fmt) (peer : String) (req : PromptRequest) (teraz : ℕ)
      → sprawdz_wersje fmt req ≡ none
      → (limit_peera f fmt s.pamiec peer req rate teraz).0 ≡ none
      → (s.przyjecia == 0) ≡ false
      → przyjmij_prompt f fmt max_jobs rate s peer req teraz ≡ (
        none,
        record {
          pamiec = (limit_peera f fmt s.pamiec peer req rate teraz).1;
          przyjecia = s.przyjecia - 1;
          zadania = s.zadania ++ req ∷ [];
        },
      )
  unfolding przyjmij_prompt
  przyjmij_prompt-wolny s peer req teraz e d z = rw (e, przyjmij_prompt) (rw d (rw z refl))
