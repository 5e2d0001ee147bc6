-- ===== src/Prelude/Sorted.antt =====
-- What `sort_by` leaves: each item stands at or before the ones after it.
use mathlib.Core.Path.{◌≡◌}
use mathlib.Core.Bool.{true}
use mathlib.Core.Logic.{inl, inr}
use mathlib.Core.List.{List, [], ◌∷◌}
use native.Mathlib.Omega.{arith}
use ledgerflow_payment_recon.Prelude.Tests.{Bool-cases}
use ledgerflow_payment_recon.Prelude.Lists.{All}
use ledgerflow_payment_recon.Prelude.Order.{Order, insert_by, sort_by}

module _ {ℓ κ} {A : Type ℓ} {K : Type κ} ⦃o : Order K⦄ (key : A → K) where
  -- `x` may stand before `y`.
  abbrev pub Before : A → A → Type 0
  Before x y = o.le (key x) (key y) ≡ true

  abbrev pub IsSorted : List A → Type 0
  IsSorted [] = Unit
  IsSorted (x ∷ xs) = All (Before x) xs × IsSorted xs

  Before-trans : (x y : A) (l : List A) → Before x y → All (Before y) l → All (Before x) l
  Before-trans x y [] h k = tt
  Before-trans x y (z ∷ l) h (k, ks) =
      (o.le_trans (key x) (key y) (key z) h k, Before-trans x y l h ks)

  insert_by-Before :
      (x y : A) (l : List A) → Before x y → All (Before x) l → All (Before x) (insert_by key y l)
  unfolding insert_by
  insert_by-Before x y [] h k = (h, tt)
  insert_by-Before x y (z ∷ l) h (k, ks) = elim (Bool-cases (o.le (key y) (key z))) [
    | inl first ↦ rw first (h, (k, ks))
    | inr after ↦ rw after (k, insert_by-Before x y l h ks)
  ]

  insert_by-IsSorted : (x : A) (l : List A) → IsSorted l → IsSorted (insert_by key x l)
  unfolding insert_by
  insert_by-IsSorted x [] h = (tt, tt)
  insert_by-IsSorted x (y ∷ l) (h, hs) = elim (Bool-cases (o.le (key x) (key y))) [
    | inl first ↦ rw first ((first, Before-trans x y l first h), (h, hs))
    | inr after ↦
        let turned : Before y x = elim (o.le_total (key x) (key y)) [
          | inl a ↦ absurd (ground arith)
          | inr b ↦ b
        ] in
        rw after (insert_by-Before y x l turned h, insert_by-IsSorted x l hs)
  ]

  pub sort_by-IsSorted : (l : List A) → IsSorted (sort_by key l)
  unfolding sort_by
  sort_by-IsSorted [] = tt
  sort_by-IsSorted (x ∷ l) = insert_by-IsSorted x (sort_by key l) (sort_by-IsSorted l)

  pub insert_by-All {μ} :
      (P : A → Type μ) (x : A) (l : List A) → P x → All P l → All P (insert_by key x l)
  unfolding insert_by
  insert_by-All P x [] h k = (h, tt)
  insert_by-All P x (y ∷ l) h (k, ks) = elim (Bool-cases (o.le (key x) (key y))) [
    | inl first ↦ rw first (h, (k, ks))
    | inr after ↦ rw after (k, insert_by-All P x l h ks)
  ]

  pub sort_by-All {μ} : (P : A → Type μ) (l : List A) → All P l → All P (sort_by key l)
  unfolding sort_by
  sort_by-All P [] h = tt
  sort_by-All P (x ∷ l) (h, hs) = insert_by-All P x (sort_by key l) h (sort_by-All P l hs)
