-- ===== src/Prelude/Slice.antt =====
-- The length in bytes of a cut text.
use Prim.Native.Nat.{ℕ, ◌-◌, ◌≤◌, compare, Ordering}
use Prim.Native.Char.{Char, len_utf8}
use Prim.Native.String.len
use Prim.Native.String.slice
use Prim.Native.String.{String, len, slice, fits}
use mathlib.Core.Path.{◌≡◌, refl}
use native.Mathlib.Omega.{arith}

len-fits :
    (o : Ordering) (c : Char) (s : String) (k : ℕ)
    → compare (len_utf8 c) k ≡ o
    → len s ≤ k - len_utf8 c
    → len (fits o c s) ≤ k
len-fits Ordering.lt c s k e h = rw (len.cons c s) (ground arith)
len-fits Ordering.eq c s k e h = rw (len.cons c s) (ground arith)
len-fits Ordering.gt c s k e h = rw len.nil (omega arith)

-- A cut from the start is no longer than its bound.
pub len-slice-le : (s : String) (k : ℕ) → len (slice s 0 k) ≤ k
len-slice-le String.[] k = rw (slice.nil 0 k) (rw len.nil (omega arith))
len-slice-le (String.◌∷◌ c s) k =
    rw (slice.cons-zero c s k)
      (len-fits _ c (slice s 0 (k - len_utf8 c)) k refl (len-slice-le s (k - len_utf8 c)))
