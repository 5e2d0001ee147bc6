-- ===== src/Spark/Reconstruct.antt =====
-- `reconstruct` of spark_jobs/reconstruct_payment_state.py. A column that is computed over a window
-- is a function of the window's rows; `none` is the NULL of SQL, and a test of NULL is not taken.
pub mod Rows
pub mod Sums
pub mod Agree
pub mod Refines
pub mod Conflicts
use ledgerflow_payment_recon.Prelude.{
  ℕ, zero, suc, ◌+◌, String, Bool, true, false, ◌&&◌, ◌||◌, not, List, [], ◌∷◌, map, Option, none,
  some, ltb, leb, length, filter, ◌==◌, eq_ℕ, eq_String, if◌then◌else◌,
}
use ledgerflow_payment_recon.Prelude.Int.{ℤ, pos, ◌+ℤ◌, eq_ℤ}
use ledgerflow_payment_recon.Prelude.Int64.{wrap, ltb64, sum64}
use ledgerflow_payment_recon.Prelude.Order.{Order, order_ℕ, order_String, order_pair}
use ledgerflow_payment_recon.Prelude.Sets.{distinct, minimum, maximum, sum}
use ledgerflow_payment_recon.Contracts.{PaymentEvent}
use ledgerflow_payment_recon.Store.Lifecycle.{
  is_authorization, is_capture, is_refund, is_chargeback, is_reversal, versions, Reason,
  transaction_version_conflict, transaction_version_gap, currency_mutation, processor_mutation,
  merchant_mutation, duplicate_authorization, capture_without_authorization, missing_authorization,
  capture_before_authorization, reversal_without_capture, reversal_before_capture,
  capture_exceeds_authorization, refund_or_chargeback_exceeds_capture, Status, authorized, captured,
  partially_captured, refunded, partially_refunded, chargedback, partially_chargedback,
}

-- F.when(p, n).otherwise(0), summed over the window as bigints
abbrev pub sum_when : (PaymentEvent → Bool) → (PaymentEvent → ℕ) → List PaymentEvent → ℤ
sum_when p n l = sum64 (map (λ e. if p e then pos (n e) else pos 0) l)

abbrev pub is_null : Option ℕ → Bool
is_null none = true
is_null (some _) = false

-- Comparisons that are false at NULL.
abbrev pub le_column : Option ℕ → Option ℕ → Bool
le_column (some a) (some b) = leb a b
le_column _ _ = false

abbrev pub differs_from : Option ℕ → ℕ → Bool
differs_from (some a) b = not (a == b)
differs_from none b = false

abbrev pub above : Option ℕ → ℕ → Bool
above (some a) b = ltb b a
above none b = false

abbrev pub exceeds : ℤ → Option ℕ → Bool
exceeds a (some b) = ltb64 (pos b) a
exceeds a none = false

abbrev pub equals : ℤ → Option ℕ → Bool
equals a (some b) = a == pos b
equals a none = false

-- Window.partitionBy("transaction_id")
unfoldable pub window : String → List PaymentEvent → List PaymentEvent
window id events = filter (λ (e : PaymentEvent). e.transaction_id == id) events

module _ (l : List PaymentEvent) where
  -- How many rows of the window have the version of `e`.
  abbrev pub version_count : PaymentEvent → ℕ
  version_count e =
      length (filter (λ (f : PaymentEvent). f.transaction_version == e.transaction_version) l)

  unfoldable pub version_conflict : Option ℕ
  version_conflict = maximum (map version_count l)

  unfoldable pub authorization_count : ℤ
  authorization_count = sum_when is_authorization (λ e. 1) l

  -- MAX over the authorizations' amounts
  unfoldable pub authorized_column : Option ℕ
  authorized_column =
      maximum (map (λ (e : PaymentEvent). e.amount_minor) (filter is_authorization l))

  unfoldable pub captured_column : ℤ
  captured_column = sum_when is_capture (λ e. e.amount_minor) l

  unfoldable pub refunded_column : ℤ
  refunded_column = sum_when is_refund (λ e. e.amount_minor) l

  unfoldable pub chargeback_column : ℤ
  chargeback_column = sum_when is_chargeback (λ e. e.amount_minor) l

  unfoldable pub authorization_version : Option ℕ
  authorization_version = minimum (versions (filter is_authorization l))

  unfoldable pub capture_version : Option ℕ
  capture_version = minimum (versions (filter is_capture l))

  unfoldable pub reversal_version : Option ℕ
  reversal_version = minimum (versions (filter is_reversal l))

  unfoldable pub party_error : Option Reason
  party_error =
      if above version_conflict 1
      then some transaction_version_conflict
      else if differs_from (minimum (versions l)) 1
          || differs_from (maximum (versions l)) (length l)
      then some transaction_version_gap
      else if ltb 1 (length (distinct (map (λ (e : PaymentEvent). e.currency) l)))
      then some currency_mutation
      else if ltb 1 (length (distinct (map (λ (e : PaymentEvent). e.processor_id) l)))
      then some processor_mutation
      else if ltb 1 (length (distinct (map (λ (e : PaymentEvent). e.merchant_id) l)))
      then some merchant_mutation
      else none

  unfoldable pub flow_error : Option Reason
  flow_error =
      if ltb64 (pos 1) authorization_count
      then some duplicate_authorization
      else if authorization_count == pos 0 && ltb64 (pos 0) captured_column
      then some capture_without_authorization
      else if authorization_count == pos 0
      then some missing_authorization
      else if not (is_null capture_version) && le_column capture_version authorization_version
      then some capture_before_authorization
      else if not (is_null reversal_version) && is_null capture_version
      then some reversal_without_capture
      else if not (is_null reversal_version) && le_column reversal_version capture_version
      then some reversal_before_capture
      else if exceeds captured_column authorized_column
      then some capture_exceeds_authorization
      else if ltb64 captured_column (wrap (refunded_column +ℤ chargeback_column))
      then some refund_or_chargeback_exceeds_capture
      else none

  -- The whole chain of `when`.
  unfoldable pub business_error : Option Reason
  business_error = elim party_error [ some reason ↦ some reason | none ↦ flow_error ]

  unfoldable pub state_status : Status
  state_status =
      if ltb64 (pos 0) captured_column
        && (wrap (refunded_column +ℤ chargeback_column) == captured_column)
        && ltb64 (pos 0) chargeback_column
      then chargedback
      else if ltb64 (pos 0) chargeback_column
      then partially_chargedback
      else if ltb64 (pos 0) captured_column && (refunded_column == captured_column)
      then refunded
      else if ltb64 (pos 0) refunded_column
      then partially_refunded
      else if equals captured_column authorized_column
      then captured
      else if ltb64 (pos 0) captured_column
      then partially_captured
      else authorized
