-- ===== src/Prelude/Sort.antt =====
-- `slice::sort_by`, a stable sort, by a Boolean order.
use Prim.Native.Nat.{suc}
use mathlib.Core.Path.{◌≡◌, refl}
use mathlib.Core.Bool.{Bool}
use mathlib.Core.List.{List, [], ◌∷◌}
use native.Mathlib.Omega.{arith}
use simon.Prelude.Tests.{if◌then◌else◌}
use simon.Prelude.Lists.{length}

module _ {A : Type 0} (le : A → A → Bool) where
  unfoldable pub wstaw_wedlug : A → List A → List A
  wstaw_wedlug x [] = x ∷ []
  wstaw_wedlug x (y ∷ ys) = if le x y then x ∷ y ∷ ys else y ∷ wstaw_wedlug x ys

  unfoldable pub sort_by : List A → List A
  unfolding wstaw_wedlug
  sort_by [] = []
  sort_by (x ∷ xs) = wstaw_wedlug x (sort_by xs)

  length-wstaw_wedlug : (x : A) (ys : List A) → length (wstaw_wedlug x ys) ≡ suc (length ys)
  unfolding wstaw_wedlug
  length-wstaw_wedlug x [] = refl
  length-wstaw_wedlug x (y ∷ ys) = ground (arith, length-wstaw_wedlug x ys)

  pub length-sort_by : (xs : List A) → length (sort_by xs) ≡ length xs
  unfolding sort_by
  length-sort_by [] = refl
  length-sort_by (x ∷ xs) = omega (arith, length-wstaw_wedlug x (sort_by xs), length-sort_by xs)
