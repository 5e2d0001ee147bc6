-- ===== src/Spark/Settlement.antt =====
-- spark_jobs/reconcile_settlements.py: the comparison of the day's postings with the processors'
-- evidence, and the gate.
pub mod Gate
use ledgerflow_payment_recon.Prelude.{
  String, Bool, true, false, not, List, [], ◌∷◌, ◌++◌, map, filter, ◌==◌, eq_String, eq_pair,
  if◌then◌else◌,
}
use ledgerflow_payment_recon.Prelude.Int.{ℤ, pos, ◌-ℤ◌, eq_ℤ}
use ledgerflow_payment_recon.Prelude.Int64.{wrap, sum64}
use ledgerflow_payment_recon.Prelude.Sets.{contains, distinct}
use ledgerflow_payment_recon.Prelude.Result.{Result, ok, err}
use ledgerflow_payment_recon.Contracts.{PaymentEvent}
use ledgerflow_payment_recon.Store.Amounts.{amount_or_zero}
use ledgerflow_payment_recon.Store.Settlement.{Key, signed_amount}

-- A row of the evidence, its date read by `to_date`.
abbrev pub Evidence : Type 0
Evidence = Key × ℤ

pub record Difference : Type 0 where
  pub key : Key
  pub expected_minor : ℤ
  pub actual_minor : ℤ
  pub delta_minor : ℤ

pub data SettlementGateError : Type 0 where
  reconciliation_gate_failed : SettlementGateError

-- The difference of one joined row, of bigints.
abbrev pub difference_of : Key → ℤ → ℤ → Difference
difference_of k expected actual = record {
  key = k;
  expected_minor = expected;
  actual_minor = actual;
  delta_minor = wrap (expected -ℤ actual);
}

module _ (to_date : String → String) where
  -- groupBy(to_date(event_time), processor_id, currency)
  abbrev pub group_key : PaymentEvent → Key
  group_key e = (to_date e.event_time, (e.processor_id, e.currency))

  -- The rows of the day whose transactions are not invalid.
  unfoldable pub posted_of_day : String → List PaymentEvent → List String → List PaymentEvent
  posted_of_day business_date posted invalid =
      filter (λ (e : PaymentEvent). to_date e.event_time == to_date business_date)
        (filter (λ (e : PaymentEvent). not (contains e.transaction_id invalid)) posted)

  -- What a row adds to the sum of a key.
  abbrev pub posting_for : Key → PaymentEvent → ℤ
  posting_for k e = if k == group_key e then signed_amount e.event_type e.amount_minor else pos 0

  -- F.sum, of bigints
  unfoldable pub sum_for : Key → List PaymentEvent → ℤ
  sum_for k es = sum64 (map (posting_for k) es)

  unfoldable pub expected_rows : List PaymentEvent → List (Key × ℤ)
  expected_rows posted = map (λ k. (k, sum_for k posted)) (distinct (map group_key posted))

-- The full join on the key, with 0 where a side has no row.
unfoldable pub full_join : List (Key × ℤ) → List Evidence → List Difference
full_join expected actual =
    map (λ (a : Evidence). difference_of a.0 (amount_or_zero a.0 expected) a.1) actual
    ++ map (λ (e : Key × ℤ). difference_of e.0 e.1 (pos 0))
        (filter (λ (e : Key × ℤ). not (contains e.0 (map (λ (a : Evidence). a.0) actual))) expected)

-- filter("delta_minor <> 0")
unfoldable pub differing : List Difference → List Difference
differing rows = filter (λ d. not (d.delta_minor == pos 0)) rows

-- overwrite(business_date = ...): the rows of the day are replaced.
unfoldable pub overwrite_day : String → List Difference → List Difference → List Difference
overwrite_day day rows table = filter (λ (d : Difference). not (d.key.0 == day)) table ++ rows

unfoldable pub settlement_gate : List Difference → Result SettlementGateError (Unit {0})
settlement_gate [] = ok tt
settlement_gate (_ ∷ _) = err reconciliation_gate_failed

-- What the job leaves in the exception table, and whether it fails.
unfoldable pub reconcile_settlements :
    (String → String)
    → String
    → List PaymentEvent
    → List String
    → List Evidence
    → List Difference
    → List Difference × Result SettlementGateError (Unit {0})
reconcile_settlements to_date business_date posted invalid actual table =
    let day = posted_of_day to_date business_date posted invalid in
    let exceptions = differing (full_join (expected_rows to_date day) actual) in
    (overwrite_day (to_date business_date) exceptions table, settlement_gate exceptions)
