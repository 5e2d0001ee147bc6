-- ===== src/Prelude/Sets.antt =====
-- Python's `set(...)`, `min(...)`, `max(...)` and `sum(...)` over lists.
use Prim.Native.Nat.{ℕ, ◌+◌, ◌≤◌, min, max}
use mathlib.Core.Path.{◌≡◌, refl}
use mathlib.Core.Bool.{Bool, true, false}
use mathlib.Core.Option.{Option, none, some}
use mathlib.Core.List.{List, [], ◌∷◌}
use native.Mathlib.Omega.{arith}
use ledgerflow_payment_recon.Prelude.Tests.{Eq, ◌==◌, if◌then◌else◌}
use ledgerflow_payment_recon.Prelude.Lists.{length}

module _ {ℓ} {A : Type ℓ} ⦃e : Eq A⦄ where
  -- `a in xs`
  abbrev pub contains : A → List A → Bool
  contains a [] = false
  contains a (x ∷ xs) = if a == x then true else contains a xs

  -- The members of a list, each once; `len(set(xs))` is the length of this list.
  unfoldable pub distinct : List A → List A
  distinct [] = []
  distinct (x ∷ xs) = let rest = distinct xs in if contains x xs then rest else x ∷ rest

  pub length-distinct-le : (xs : List A) → length (distinct xs) ≤ length xs
  unfolding distinct
  length-distinct-le [] = omega arith
  length-distinct-le (x ∷ xs) = ground (arith, length-distinct-le xs)

  pub contains-distinct : (a : A) (xs : List A) → contains a (distinct xs) ≡ contains a xs
  unfolding distinct
  contains-distinct a [] = refl
  contains-distinct a (x ∷ xs) = ground (arith, contains-distinct a xs, e.beq_iff a x)

-- `none` stands for the `ValueError` at no argument.
unfoldable pub minimum : List ℕ → Option ℕ
minimum [] = none
minimum (x ∷ xs) = elim (minimum xs) [ none ↦ some x | some m ↦ some (min x m) ]

unfoldable pub maximum : List ℕ → Option ℕ
maximum [] = none
maximum (x ∷ xs) = elim (maximum xs) [ none ↦ some x | some m ↦ some (max x m) ]

unfoldable pub sum : List ℕ → ℕ
sum [] = 0
sum (x ∷ xs) = x + sum xs
