-- ===== src/Mapreduce/Estimate.antt =====
-- The token estimate of mapreduce.rs.
use simon.Prelude.{◌*◌, ◌≤◌, Bool, false, not, [], ◌∷◌, arith, length}
use simon.Mapreduce.{Tekst, is_whitespace, slowa_od, oszacuj_tokeny}

slowa_od-le : (w : Bool) (t : Tekst) → slowa_od w t ≤ length t
unfolding slowa_od
slowa_od-le w [] = omega arith
slowa_od-le w (c ∷ cs) = ground (arith, slowa_od-le (not (is_whitespace c)) cs)

-- The estimate lies between a quarter of the number of characters, rounded up, and that number; it
-- is at least the number of words, and 0 only for the empty text.
pub oszacuj_tokeny_bounds :
    (t : Tekst)
    → (length t ≤ 4 * oszacuj_tokeny t)
      × (oszacuj_tokeny t ≤ length t)
      × (slowa_od false t ≤ oszacuj_tokeny t)
unfolding oszacuj_tokeny
oszacuj_tokeny_bounds [] = (omega arith, omega arith, slowa_od-le false [])
oszacuj_tokeny_bounds (c ∷ cs) =
    (omega arith, omega (arith, slowa_od-le false (c ∷ cs)), omega arith)
