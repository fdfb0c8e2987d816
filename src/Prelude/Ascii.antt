-- ===== src/Prelude/Ascii.antt =====
-- `to_ascii_lowercase` and `eq_ignore_ascii_case`, on the characters of texts.
use Prim.Native.Nat.{ℕ, ◌+◌}
use Prim.Native.String.{String}
use mathlib.Core.Bool.{Bool, true, false, ◌&&◌}
use mathlib.Core.List.{List, [], ◌∷◌, map}
use simon.Prelude.Tests.{leb, ◌==◌, if◌then◌else◌}
use simon.Prelude.Text.{chars}

unfoldable pub ascii_lower : ℕ → ℕ
ascii_lower c = if leb 65 c && leb c 90 then c + 32 else c

-- `==` of two texts, by their characters
abbrev pub znaki_eq : List ℕ → List ℕ → Bool
znaki_eq [] [] = true
znaki_eq (x ∷ xs) (y ∷ ys) = x == y && znaki_eq xs ys
znaki_eq _ _ = false

unfoldable pub eq_ignore_ascii_case : String → String → Bool
unfolding ascii_lower
eq_ignore_ascii_case s t = znaki_eq (map ascii_lower (chars s)) (map ascii_lower (chars t))
