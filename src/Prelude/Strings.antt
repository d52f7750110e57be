-- ===== src/Prelude/Strings.antt =====
-- Strings as lists of characters without the terminating 0, and strcmp as a test for equality.
use Prim.Native.Nat.{ℕ}
use mathlib.Core.Path.{◌≡◌, refl}
use mathlib.Core.Bool.{Bool, true, false, ◌&&◌}
use mathlib.Core.List.{List, [], ◌∷◌}
use native.Mathlib.Omega.{arith}
use skyefs.Prelude.Tests.{◌==◌}

unfoldable pub same_name : List ℕ → List ℕ → Bool
same_name [] [] = true
same_name [] (y ∷ ys) = false
same_name (x ∷ xs) [] = false
same_name (x ∷ xs) (y ∷ ys) = x == y && same_name xs ys

pub same_name_lem : (a b : List ℕ) → same_name a b ≡ true → a ≡ b
unfolding same_name
same_name_lem [] [] h = refl
same_name_lem [] (y ∷ ys) h = cc
same_name_lem (x ∷ xs) [] h = cc
same_name_lem (x ∷ xs) (y ∷ ys) h =
    let e : x ≡ y = ground (arith, h) in
    let f = same_name_lem xs ys (ground (arith, h)) in λ i. e i ∷ f i

pub same_name_refl : (a : List ℕ) → same_name a a ≡ true
unfolding same_name
same_name_refl [] = refl
same_name_refl (x ∷ xs) = ground (arith, same_name_refl xs)
