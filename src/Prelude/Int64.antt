-- ===== src/Prelude/Int64.antt =====
-- 64-bit signed integers: the `bigint` of Spark, whose sums and differences wrap around with ANSI
-- mode off, and the integers of SQLite.
use Prim.Native.Nat.{ℕ, ◌+◌, ◌-◌, ◌%◌, ◌^◌, ◌≤◌, ◌<◌}
use mathlib.Core.Path.{◌≡◌, refl}
use mathlib.Core.Bool.{Bool, true, false}
use mathlib.Core.List.{List, [], ◌∷◌}
use native.Mathlib.Omega.{arith}
use ledgerflow_payment_recon.Prelude.Tests.{ltb, if◌then◌else◌}
use ledgerflow_payment_recon.Prelude.Int.{ℤ, pos, negsuc, pos_part, neg_part, ◌+ℤ◌, ◌-ℤ◌, sum_ℤ}

abbrev pub two_63 : ℕ
two_63 = 2 ^ 63

abbrev pub two_64 : ℕ
two_64 = 2 ^ 64

-- -2 ^ 63 and above, and below 2 ^ 63
abbrev pub fits : ℤ → Bool
fits (pos n) = ltb n two_63
fits (negsuc n) = ltb n two_63

-- The number that a pattern of 64 bits stands for.
abbrev pub signed64 : ℕ → ℤ
signed64 w = if ltb w two_63 then pos w else negsuc (two_64 - 1 - w)

unfoldable pub wrap : ℤ → ℤ
wrap (pos n) = signed64 (n % two_64)
wrap (negsuc n) = signed64 (two_64 - 1 - n % two_64)

abbrev pub magnitude : ℤ → ℕ
magnitude a = pos_part a + neg_part a

pub wrap_exact : (a : ℤ) → magnitude a < two_63 → wrap a ≡ a
unfolding wrap
wrap_exact (pos n) h = ground (arith, h)
wrap_exact (negsuc n) h = ground (arith, h)

pub fits-wrap : (a : ℤ) → fits (wrap a) ≡ true
unfolding wrap
fits-wrap (pos n) = ground arith
fits-wrap (negsuc n) = ground arith

-- The wrapped difference of two bigints is zero only if they are equal.
pub wrap_zero : (a b : ℤ) → fits a ≡ true → fits b ≡ true → wrap (a -ℤ b) ≡ pos 0 → a ≡ b
unfolding wrap ◌-ℤ◌
wrap_zero (pos a) (pos b) h k e = ground (arith, h, k, e)
wrap_zero (pos a) (negsuc b) h k e = ground (arith, h, k, e)
wrap_zero (negsuc a) (pos b) h k e = ground (arith, h, k, e)
wrap_zero (negsuc a) (negsuc b) h k e = ground (arith, h, k, e)

-- `a < b`
abbrev pub ltb64 : ℤ → ℤ → Bool
ltb64 (pos a) (pos b) = ltb a b
ltb64 (pos a) (negsuc b) = false
ltb64 (negsuc a) (pos b) = true
ltb64 (negsuc a) (negsuc b) = ltb b a

-- F.sum over a column of bigints
unfoldable pub sum64 : List ℤ → ℤ
sum64 [] = pos 0
sum64 (x ∷ xs) = wrap (x +ℤ sum64 xs)

unfoldable pub magnitudes : List ℤ → ℕ
magnitudes [] = 0
magnitudes (x ∷ xs) = magnitude x + magnitudes xs

magnitude-+ℤ : (a b : ℤ) → magnitude (a +ℤ b) ≤ magnitude a + magnitude b
unfolding ◌+ℤ◌
magnitude-+ℤ a b = ground arith

magnitude-sum_ℤ : (xs : List ℤ) → magnitude (sum_ℤ xs) ≤ magnitudes xs
unfolding sum_ℤ magnitudes
magnitude-sum_ℤ [] = omega arith
magnitude-sum_ℤ (x ∷ xs) = omega (arith, magnitude-sum_ℤ xs, magnitude-+ℤ x (sum_ℤ xs))

-- A sum whose magnitudes stay below 2 ^ 63 does not wrap around.
pub sum64-eq : (xs : List ℤ) → magnitudes xs < two_63 → sum64 xs ≡ sum_ℤ xs
unfolding sum64 sum_ℤ magnitudes
sum64-eq [] h = refl
sum64-eq (x ∷ xs) h =
    rw (sum64-eq xs (omega (arith, h)))
      (wrap_exact (x +ℤ sum_ℤ xs) (omega (arith, h, magnitude-+ℤ x (sum_ℤ xs), magnitude-sum_ℤ xs)))

pub fits-sum64 : (xs : List ℤ) → fits (sum64 xs) ≡ true
unfolding sum64
fits-sum64 [] = ground arith
fits-sum64 (x ∷ xs) = fits-wrap (x +ℤ sum64 xs)
