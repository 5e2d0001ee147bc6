-- ===== src/Examples/SparkRuns.antt =====
-- `reconstruct` of spark_jobs/reconstruct_payment_state.py at a concrete input.
use ledgerflow_payment_recon.Prelude.{◌≡◌, ◌^◌, refl, List, [], ◌∷◌, All, arith, length}
use ledgerflow_payment_recon.Prelude.Int.{pos, ◌+ℤ◌}
use ledgerflow_payment_recon.Prelude.Int64.{wrap, sum64}
use ledgerflow_payment_recon.Prelude.Sets.{distinct, minimum, maximum, sum}
use ledgerflow_payment_recon.Contracts.{PaymentEvent, authorization, capture, refund}
use ledgerflow_payment_recon.Spark.Reconstruct.{
  window, version_conflict, authorization_count, authorized_column, captured_column,
  refunded_column, chargeback_column, authorization_version, capture_version, reversal_version,
  party_error, flow_error, business_error, state_status,
}
use ledgerflow_payment_recon.Spark.Reconstruct.Rows.{
  state_rank, exceptions_of, current_of, reconstruct,
}
use ledgerflow_payment_recon.Spark.Reconstruct.Refines.{
  HasBoundedWindow, RejectedLikewise, CurrentLikewise, reconstruct-Likewise,
}
use ledgerflow_payment_recon.Examples.Fixtures.{payment}

-- Out of order; the second transaction has a gap.
abbrev pub rows : List PaymentEvent
rows =
    payment "e2" 2 capture 80
    ∷ payment "e1" 1 authorization 100
    ∷ record (payment "e9" 3 refund 5) { transaction_id = "t2" }
    ∷ payment "e3" 3 refund 30
    ∷ []

one_of_each : (length (reconstruct "now" rows).0 ≡ 1) × (length (reconstruct "now" rows).1 ≡ 1)
unfolding reconstruct current_of exceptions_of state_rank window version_conflict
    authorization_count authorized_column captured_column refunded_column chargeback_column
    authorization_version capture_version reversal_version party_error flow_error business_error
    state_status distinct minimum maximum sum sum64 wrap ◌+ℤ◌
one_of_each = (refl, refl)

rows_bounded : All (HasBoundedWindow rows) rows
unfolding window sum
rows_bounded = (omega arith, (omega arith, (omega arith, (omega arith, tt))))

-- Four captures of 2 ^ 62 wrap around to 0.
captures_wrap :
    captured_column (
      payment "e1" 1 capture (2 ^ 62)
      ∷ payment "e2" 2 capture (2 ^ 62)
      ∷ payment "e3" 3 capture (2 ^ 62)
      ∷ payment "e4" 4 capture (2 ^ 62)
      ∷ [])
    ≡ pos 0
unfolding captured_column sum64 wrap ◌+ℤ◌
captures_wrap = refl

reconstruct-Likewise_example :
    All (CurrentLikewise rows) (reconstruct "now" rows).0
    × All (RejectedLikewise rows) (reconstruct "now" rows).1
reconstruct-Likewise_example =
    reconstruct-Likewise "now" rows (omega arith, (omega arith, (omega arith, (omega arith, tt))))
      rows_bounded
