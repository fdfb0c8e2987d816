-- ===== src/Przeplyw.antt =====
-- crates/simon-core/src/przeplyw.rs: trust labels and the flows from sources to sinks.
pub mod Policy
mod Tests
use simon.Prelude.{Bool, true, false, not, ◌&&◌, ◌||◌, List, any}

pub data Zaufanie : Type 0 where
  operator client_input peer_text retrieved_text tool_text model_derived : Zaufanie

pub data Sink : Type 0 where
  argument_akcji instrukcja_kolejnego_zlecenia system_prompt log : Sink

-- The derived `PartialEq` of the two enumerations.
abbrev pub zaufanie_eq : Zaufanie → Zaufanie → Bool
zaufanie_eq operator operator = true
zaufanie_eq client_input client_input = true
zaufanie_eq peer_text peer_text = true
zaufanie_eq retrieved_text retrieved_text = true
zaufanie_eq tool_text tool_text = true
zaufanie_eq model_derived model_derived = true
zaufanie_eq _ _ = false

abbrev pub sink_eq : Sink → Sink → Bool
sink_eq argument_akcji argument_akcji = true
sink_eq instrukcja_kolejnego_zlecenia instrukcja_kolejnego_zlecenia = true
sink_eq system_prompt system_prompt = true
sink_eq log log = true
sink_eq _ _ = false

unfoldable pub dozwolony_bez_deklasacji : Zaufanie → Sink → Bool
dozwolony_bez_deklasacji zrodlo log = true
dozwolony_bez_deklasacji operator argument_akcji = true
dozwolony_bez_deklasacji operator instrukcja_kolejnego_zlecenia = true
dozwolony_bez_deklasacji operator system_prompt = true
dozwolony_bez_deklasacji _ argument_akcji = false
dozwolony_bez_deklasacji _ instrukcja_kolejnego_zlecenia = false
dozwolony_bez_deklasacji _ system_prompt = false

unfoldable pub wymaga_deklasacji : Zaufanie → Sink → Bool
unfolding dozwolony_bez_deklasacji
wymaga_deklasacji zrodlo sink = not (dozwolony_bez_deklasacji zrodlo sink)

unfoldable pub przeplyw_ok : Zaufanie → Sink → List (Zaufanie × Sink) → Bool
unfolding dozwolony_bez_deklasacji
przeplyw_ok zrodlo sink deklasacje =
    dozwolony_bez_deklasacji zrodlo sink
    || any (λ d. zaufanie_eq d.0 zrodlo && sink_eq d.1 sink) deklasacje
