-- ===== src/Przeplyw/Tests.antt =====
-- Tests and witnesses for przeplyw.rs.
use simon.Prelude.{◌≡◌, ◌≢◌, refl, true, false, List, [], ◌∷◌}
use simon.Przeplyw.{
  Zaufanie, Sink, operator, peer_text, retrieved_text, argument_akcji, system_prompt, log,
  przeplyw_ok,
}

abbrev dekl : List (Zaufanie × Sink)
dekl = (retrieved_text, argument_akcji) ∷ []

jawna_deklasacja :
    (przeplyw_ok retrieved_text argument_akcji dekl ≡ true)
    × (przeplyw_ok peer_text argument_akcji dekl ≡ false)
    × (przeplyw_ok retrieved_text system_prompt dekl ≡ false)
unfolding przeplyw_ok
jawna_deklasacja = (refl, refl, refl)

peer-ne-operator : peer_text ≢ operator
peer-ne-operator = λ e. cc

system_prompt-ne-log : system_prompt ≢ log
system_prompt-ne-log = λ e. cc
