-- ===== src/Spark/Reconstruct/Sums.antt =====
-- The sums of spark_jobs/reconstruct_payment_state.py, which are bigints, against those of
-- ledgerflow/store.py.
use ledgerflow_payment_recon.Prelude.{
  ℕ, ◌+◌, ◌≤◌, ◌<◌, ◌≡◌, refl, ◌∙◌, Bool, List, [], ◌∷◌, map, length, filter, All, arith,
  Bool-cases, inl, inr, ◌==◌, eq_ℕ, if◌then◌else◌,
}
use ledgerflow_payment_recon.Prelude.Int.{pos, ◌+ℤ◌, eq_ℤ, sum_ℤ}
use ledgerflow_payment_recon.Prelude.Int64.{two_63, wrap, wrap_exact, magnitudes, sum64-eq}
use ledgerflow_payment_recon.Prelude.Sets.{sum}
use ledgerflow_payment_recon.Contracts.{PaymentEvent}
use ledgerflow_payment_recon.Store.Lifecycle.{
  is_capture, is_refund, is_chargeback, amount_of, captured_minor, refunded_minor, chargeback_minor,
}
use ledgerflow_payment_recon.Spark.Reconstruct.{
  sum_when, captured_column, refunded_column, chargeback_column,
}

-- Amounts of accepted events are positive.
abbrev pub Positive : List PaymentEvent → Type 0
Positive l = All (λ e. 0 < e.amount_minor) l

-- The amounts of a window add up to less than 2 ^ 63.
abbrev pub IsBounded : List PaymentEvent → Type 0
IsBounded l = sum (map (λ (e : PaymentEvent). e.amount_minor) l) < two_63

pub eq_pos : (a b : ℕ) → (pos a == pos b) ≡ (a == b)
eq_pos a b = ground arith

plus_pos : (a b c : ℕ) → a + b ≡ c → pos a +ℤ pos b ≡ pos c
unfolding ◌+ℤ◌
plus_pos a b c h = ground (arith, h)

module _ (p : PaymentEvent → Bool) where
  amounts_exact :
      (l : List PaymentEvent)
      → sum_ℤ (map (λ (e : PaymentEvent). if p e then pos e.amount_minor else pos 0) l)
        ≡ pos (amount_of p l)
  unfolding sum_ℤ sum
  amounts_exact [] = refl
  amounts_exact (e ∷ l) = rw (amounts_exact l) (elim (Bool-cases (p e)) [
    | inl selected ↦ rw selected (plus_pos e.amount_minor (amount_of p l) _ refl)
    | inr other ↦ rw other (plus_pos 0 (amount_of p l) _ (omega arith))
  ])

  amounts_within :
      (l : List PaymentEvent)
      → magnitudes (map (λ (e : PaymentEvent). if p e then pos e.amount_minor else pos 0) l)
        ≤ sum (map (λ (e : PaymentEvent). e.amount_minor) l)
  unfolding magnitudes sum
  amounts_within [] = omega arith
  amounts_within (e ∷ l) = ground (arith, amounts_within l)

  pub sum_when-eq :
      (l : List PaymentEvent)
      → IsBounded l
      → sum_when p (λ e. e.amount_minor) l ≡ pos (amount_of p l)
  sum_when-eq l h = sum64-eq _ (omega (arith, h, amounts_within l)) ∙ amounts_exact l

  ones_exact :
      (l : List PaymentEvent)
      → sum_ℤ (map (λ e. if p e then pos 1 else pos 0) l) ≡ pos (length (filter p l))
  unfolding sum_ℤ
  ones_exact [] = refl
  ones_exact (e ∷ l) = rw (ones_exact l) (elim (Bool-cases (p e)) [
    | inl selected ↦ rw selected (plus_pos 1 (length (filter p l)) _ (omega arith))
    | inr other ↦ rw other (plus_pos 0 (length (filter p l)) _ (omega arith))
  ])

  ones_within :
      (l : List PaymentEvent)
      → Positive l
      → magnitudes (map (λ e. if p e then pos 1 else pos 0) l)
        ≤ sum (map (λ (e : PaymentEvent). e.amount_minor) l)
  unfolding magnitudes sum
  ones_within [] h = omega arith
  ones_within (e ∷ l) (h, hs) = ground (arith, h, ones_within l hs)

  -- Each row adds at least one to the amounts, so that the count does not wrap around either.
  pub count-eq :
      (l : List PaymentEvent)
      → Positive l
      → IsBounded l
      → sum_when p (λ e. 1) l ≡ pos (length (filter p l))
  count-eq l g h = sum64-eq _ (omega (arith, h, ones_within l g)) ∙ ones_exact l

reversals_within :
    (l : List PaymentEvent)
    → amount_of is_refund l + amount_of is_chargeback l
      ≤ sum (map (λ (e : PaymentEvent). e.amount_minor) l)
unfolding sum
reversals_within [] = omega arith
reversals_within (e ∷ l) = ground (arith, reversals_within l)

-- The sum of the two columns.
pub reversed-eq :
    (l : List PaymentEvent)
    → IsBounded l
    → wrap (pos (amount_of is_refund l) +ℤ pos (amount_of is_chargeback l))
      ≡ pos (amount_of is_refund l + amount_of is_chargeback l)
reversed-eq l h = rw (plus_pos (amount_of is_refund l) (amount_of is_chargeback l) _ refl) (
    wrap_exact (pos (amount_of is_refund l + amount_of is_chargeback l))
      (omega (arith, h, reversals_within l)))

-- The columns of the sums.
module _ (l : List PaymentEvent) (h : IsBounded l) where
  pub captured_column-eq : captured_column l ≡ pos (captured_minor l)
  unfolding captured_column captured_minor
  captured_column-eq = sum_when-eq is_capture l h

  pub refunded_column-eq : refunded_column l ≡ pos (refunded_minor l)
  unfolding refunded_column refunded_minor
  refunded_column-eq = sum_when-eq is_refund l h

  pub chargeback_column-eq : chargeback_column l ≡ pos (chargeback_minor l)
  unfolding chargeback_column chargeback_minor
  chargeback_column-eq = sum_when-eq is_chargeback l h
