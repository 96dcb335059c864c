-- ===== src/Prelude/Sums.antt =====
-- The sum of an array of numbers under reads and writes.
use Prim.Native.Nat.{ℕ, zero, suc, ◌+◌, ◌≤◌, ◌<◌}
use mathlib.Core.Path.{◌≡◌}
use mathlib.Core.List.{List, [], ◌∷◌, ◌++◌}
use native.Mathlib.Omega.{arith}
use awale_online.Prelude.Lists.{take, drop, length, get_or, set}

abbrev pub sum : List ℕ → ℕ
sum [] = 0
sum (x ∷ xs) = x + sum xs

pub get_or-le-sum : (xs : List ℕ) (i : ℕ) → get_or xs i 0 ≤ sum xs
get_or-le-sum [] i = omega arith
get_or-le-sum (x ∷ xs) zero = omega arith
get_or-le-sum (x ∷ xs) (suc i) = omega (arith, get_or-le-sum xs i)

-- A write trades the old entry for the new one.
pub sum-set :
    (xs : List ℕ) (i v : ℕ) → i < length xs → sum (set xs i v) + get_or xs i 0 ≡ sum xs + v
sum-set [] i v h = absurd (omega arith)
sum-set (x ∷ xs) zero v h = omega arith
sum-set (x ∷ xs) (suc i) v h = omega (arith, sum-set xs i v (omega arith))

pub sum-append : (xs ys : List ℕ) → sum (xs ++ ys) ≡ sum xs + sum ys
sum-append [] ys = omega arith
sum-append (x ∷ xs) ys = omega (arith, sum-append xs ys)

pub sum-take : (n : ℕ) (xs : List ℕ) → sum (take n xs) ≤ sum xs
sum-take zero xs = omega arith
sum-take (suc n) [] = omega arith
sum-take (suc n) (x ∷ xs) = omega (arith, sum-take n xs)

pub sum-drop : (n : ℕ) (xs : List ℕ) → sum (drop n xs) ≤ sum xs
sum-drop zero xs = omega arith
sum-drop (suc n) [] = omega arith
sum-drop (suc n) (x ∷ xs) = omega (arith, sum-drop n xs)
