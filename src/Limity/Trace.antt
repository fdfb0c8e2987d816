-- ===== src/Limity/Trace.antt =====
-- Sequences of calls on one `Budzet` of limity.rs, as the handler of one order makes them.
use simon.Prelude.{ℕ, ◌+◌, ◌≤◌, ◌<◌, List, [], ◌∷◌, Result, ok, ◌>>◌}
use simon.Prelude.Words.{u32_max, usize_max}
use simon.Limity.{
  Limity, Przekroczenie, Budzet, Odpowiedz, anuluj, sprawdz, dodaj_tokeny, dodaj_bajty,
  krok_narzedzia,
}

-- One call of a method of `Budzet`.
pub data Wywolanie : Type 0 where
  cancel : Wywolanie
  check : ℕ → Wywolanie
  add_tokens add_bytes : ℕ → ℕ → Wywolanie
  tool_step : ℕ → Wywolanie

unfoldable pub wykonaj : Budzet → Wywolanie → Odpowiedz
wykonaj b cancel = (ok tt, anuluj b)
wykonaj b (check t) = (sprawdz b t, b)
wykonaj b (add_tokens n t) = dodaj_tokeny b n t
wykonaj b (add_bytes n t) = dodaj_bajty b n t
wykonaj b (tool_step t) = krok_narzedzia b t

-- The budget after a sequence of calls, whatever they answer.
unfoldable pub przebieg : Budzet → List Wywolanie → Budzet
przebieg b [] = b
przebieg b (w ∷ ws) = przebieg (wykonaj b w).1 ws

-- A handler that stops at the first refusal.
unfoldable pub do_pierwszej_odmowy : Budzet → List Wywolanie → Result Przekroczenie Budzet
do_pierwszej_odmowy b [] = ok b
do_pierwszej_odmowy b (w ∷ ws) =
    let (odp, b') = wykonaj b w in let rest = do_pierwszej_odmowy b' ws in odp >> rest

-- What a sequence of calls asks for, in all.
abbrev pub suma_tokenow : List Wywolanie → ℕ
suma_tokenow [] = 0
suma_tokenow (add_tokens n t ∷ ws) = n + suma_tokenow ws
suma_tokenow (_ ∷ ws) = suma_tokenow ws

abbrev pub suma_bajtow : List Wywolanie → ℕ
suma_bajtow [] = 0
suma_bajtow (add_bytes n t ∷ ws) = n + suma_bajtow ws
suma_bajtow (_ ∷ ws) = suma_bajtow ws

abbrev pub suma_krokow : List Wywolanie → ℕ
suma_krokow [] = 0
suma_krokow (tool_step t ∷ ws) = 1 + suma_krokow ws
suma_krokow (_ ∷ ws) = suma_krokow ws

-- The call is made by the moment `kres`, and is no cancellation.
abbrev pub NaCzas : ℕ → Wywolanie → Type 0
NaCzas kres cancel = ⊥
NaCzas kres (check t) = t ≤ kres
NaCzas kres (add_tokens n t) = t ≤ kres
NaCzas kres (add_bytes n t) = t ≤ kres
NaCzas kres (tool_step t) = t ≤ kres

-- No limit is the greatest value of its machine type, where saturation hides an excess.
pub record LimitySkonczone (l : Limity) : Type 0 where
  pub tokenow : l.max_tokenow < u32_max
  pub bajtow : l.max_bajtow < usize_max
  pub krokow : l.max_krokow_narzedzi < u32_max

pub record WGranicach (b : Budzet) : Type 0 where
  pub tokenow : b.uzyte_tokeny ≤ b.limity.max_tokenow
  pub bajtow : b.uzyte_bajty ≤ b.limity.max_bajtow
  pub krokow : b.kroki ≤ b.limity.max_krokow_narzedzi
