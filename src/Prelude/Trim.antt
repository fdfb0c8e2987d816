-- ===== src/Prelude/Trim.antt =====
-- `str::trim`: the text without white space at its ends.
use Prim.Native.Nat.{ℕ}
use Prim.Native.Char.{code}
use Prim.Native.String.{String}
use mathlib.Core.Bool.{Bool, ◌&&◌, ◌||◌}
use simon.Prelude.Tests.{leb, ◌==◌, if◌then◌else◌}
use simon.Prelude.Text.{str_is_empty}

-- `char::is_whitespace`: Unicode's `White_Space`
unfoldable pub is_whitespace : ℕ → Bool
is_whitespace c =
    (leb 0x9 c && leb c 0xd)
    || (c == 0x20
        || (c == 0x85
            || (c == 0xa0
                || (c == 0x1680
                    || ((leb 0x2000 c && leb c 0x200a)
                        || (c == 0x2028
                            || (c == 0x2029 || (c == 0x202f || (c == 0x205f || c == 0x3000)))))))))

unfoldable pub trim_start : String → String
unfolding is_whitespace
trim_start String.[] = String.[]
trim_start (String.◌∷◌ c s) = if is_whitespace (code c) then trim_start s else String.◌∷◌ c s

unfoldable pub trim_end : String → String
unfolding is_whitespace
trim_end String.[] = String.[]
trim_end (String.◌∷◌ c s) =
    let reszta = trim_end s in
    if is_whitespace (code c) && str_is_empty reszta then String.[] else String.◌∷◌ c reszta

unfoldable pub trim : String → String
unfolding trim_start trim_end
trim s = trim_end (trim_start s)
