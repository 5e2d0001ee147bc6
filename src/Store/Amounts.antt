-- ===== src/Store/Amounts.antt =====
-- A `dict` from keys to amounts, and GROUP BY with SUM, as `reconcile_settlement` of
-- ledgerflow/store.py uses them.
pub mod Laws
use ledgerflow_payment_recon.Prelude.{Bool, true, false, List, [], ◌∷◌, Eq, ◌==◌, if◌then◌else◌}
use ledgerflow_payment_recon.Prelude.Int.{ℤ, pos, ◌+ℤ◌}
use ledgerflow_payment_recon.Prelude.Result.{Result, ok, err, ◌>>=◌}
use ledgerflow_payment_recon.Store.Tables.{StoreError, integer_overflow, fits_ℤ}

-- `SUM` of integers fails where it leaves the 64-bit range.
unfoldable pub fitting : ℤ → Result StoreError ℤ
fitting n = if fits_ℤ n then ok n else err integer_overflow

module _ {K : Type 0} ⦃e : Eq K⦄ where
  unfoldable pub add_to_key : K → ℤ → List (K × ℤ) → Result StoreError (List (K × ℤ))
  add_to_key k amount [] = do n ← fitting amount; ok ((k, n) ∷ [])
  add_to_key k amount ((j, total) ∷ rest) =
      if k == j
      then (do n ← fitting (total +ℤ amount); ok ((j, n) ∷ rest))
      else (do rest' ← add_to_key k amount rest; ok ((j, total) ∷ rest'))

  -- `d.get(key, 0)`
  unfoldable pub amount_or_zero : K → List (K × ℤ) → ℤ
  amount_or_zero k [] = pos 0
  amount_or_zero k ((j, n) ∷ rest) = if k == j then n else amount_or_zero k rest

  -- `d[key] = amount`
  unfoldable pub put_amount : K → ℤ → List (K × ℤ) → List (K × ℤ)
  put_amount k n [] = (k, n) ∷ []
  put_amount k n ((j, m) ∷ rest) = if k == j then (j, n) ∷ rest else (j, m) ∷ put_amount k n rest
