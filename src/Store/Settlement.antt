-- ===== src/Store/Settlement.antt =====
-- `expected_settlement` and `reconcile_settlement` of ledgerflow/store.py.
pub mod Sums
pub mod Gate
pub mod Exact
use Prim.Native.Char.{Char}
use ledgerflow_payment_recon.Prelude.{
  ℕ, zero, suc, ◌+◌, String, Bool, true, false, ◌&&◌, not, List, [], ◌∷◌, ◌++◌, map, Option, none,
  some, any, length, ltb, ◌==◌, eq_ℕ, eq_String, eq_pair, if◌then◌else◌,
}
use ledgerflow_payment_recon.Prelude.Int.{ℤ, pos, neg, abs, ◌+ℤ◌, ◌-ℤ◌, eq_ℤ}
use ledgerflow_payment_recon.Prelude.Order.{sort_by, order_String, order_pair}
use ledgerflow_payment_recon.Prelude.Sets.{distinct}
use ledgerflow_payment_recon.Prelude.Text.{first_chars}
use ledgerflow_payment_recon.Prelude.Result.{Result, ok, err, ◌>>=◌}
use ledgerflow_payment_recon.Contracts.{EventType, authorization, capture, refund, chargeback}
use ledgerflow_payment_recon.Store.Amounts.{fitting, add_to_key, amount_or_zero, put_amount}
use ledgerflow_payment_recon.Store.Tables.{
  Tables, PostedRow, SettlementRow, SettlementException, StoreError, integer_overflow, fits, fits_ℤ,
  checked,
}

-- business_date, processor_id, currency
abbrev pub Key : Type 0
Key = String × (String × String)

unfoldable pub posted_key : PostedRow → Key
unfolding first_chars
posted_key row = (first_chars 10 row.event_time, (row.processor_id, row.currency))

-- CASE WHEN event_type='capture' THEN amount_minor ...
abbrev pub signed_amount : EventType → ℕ → ℤ
signed_amount authorization n = pos 0
signed_amount capture n = pos n
signed_amount refund n = neg (pos n)
signed_amount chargeback n = neg (pos n)

unfoldable pub group_posted : List PostedRow → List (Key × ℤ) → Result StoreError (List (Key × ℤ))
group_posted [] groups = ok groups
group_posted (row ∷ rows) groups = do
  groups' ← add_to_key (posted_key row) (signed_amount row.event_type row.amount_minor) groups
  group_posted rows groups'

-- `expected_settlement`: the groups in the order of their keys.
unfoldable pub expected_settlement : Tables → Result StoreError (List (Key × ℤ))
expected_settlement t = do
  groups ← group_posted t.posted_event []
  ok (sort_by {K = Key} (λ g. g.0) groups)

abbrev pub actual_key : SettlementRow → Key
actual_key row = (row.business_date, (row.processor_id, row.currency))

abbrev pub exception_key : SettlementException → Key
exception_key row = (row.business_date, (row.processor_id, row.currency))

unfoldable pub actual_amounts : List SettlementRow → List (Key × ℤ) → List (Key × ℤ)
actual_amounts [] d = d
actual_amounts (row ∷ rows) d = actual_amounts rows (put_amount (actual_key row) row.amount_minor d)

unfoldable pub insert_actual : SettlementRow → Tables → Result StoreError Tables
insert_actual row t =
    checked (fits_ℤ row.amount_minor) true
      (any (λ (r : SettlementRow). actual_key r == actual_key row) t.settlement_actual) true
      "settlement_actual" (record t { settlement_actual = t.settlement_actual ++ row ∷ [] })

unfoldable pub insert_actuals : List SettlementRow → Tables → Result StoreError Tables
insert_actuals [] t = ok t
insert_actuals (row ∷ rows) t = do t' ← insert_actual row t; insert_actuals rows t'

unfoldable pub insert_settlement_exception : SettlementException → Tables → Result StoreError Tables
insert_settlement_exception row t =
    checked (fits_ℤ row.expected_minor && fits_ℤ row.actual_minor && fits_ℤ row.delta_minor) true
      (any (λ (r : SettlementException). exception_key r == exception_key row)
        t.settlement_exception)
      true "settlement_exception"
      (record t { settlement_exception = t.settlement_exception ++ row ∷ [] })

unfoldable pub exception_row : Key → ℤ → ℤ → SettlementException
exception_row k expected actual = record {
  business_date = k.0;
  processor_id = k.1.0;
  currency = k.1.1;
  expected_minor = expected;
  actual_minor = actual;
  delta_minor = expected -ℤ actual;
}

-- One turn of the loop over the keys.
unfoldable pub compare_key : Key → ℤ → ℤ → Tables → Result StoreError Tables
unfolding exception_row
compare_key k expected actual t =
    if not (expected -ℤ actual == pos 0)
    then insert_settlement_exception (exception_row k expected actual) t
    else ok t

unfoldable pub compare_keys :
    List Key → List (Key × ℤ) → List (Key × ℤ) → Tables → Result StoreError Tables
compare_keys [] expected actual t = ok t
compare_keys (k ∷ ks) expected actual t = do
  t' ← compare_key k (amount_or_zero k expected) (amount_or_zero k actual) t
  compare_keys ks expected actual t'

-- `sorted(expected.keys() | actual_rows.keys())`
unfoldable pub all_keys : List (Key × ℤ) → List (Key × ℤ) → List Key
all_keys expected actual =
    sort_by {K = Key} (λ k. k) (distinct (map (λ g. g.0) expected ++ map (λ g. g.0) actual))

-- COALESCE(SUM(ABS(delta_minor)),0)
unfoldable pub absolute_delta : List SettlementException → ℤ → Result StoreError ℤ
absolute_delta [] total = ok total
absolute_delta (row ∷ rows) total = do
  n ← fitting (total +ℤ abs row.delta_minor)
  absolute_delta rows n

pub record Report : Type 0 where
  pub settlement_reconciled : Bool
  pub settlement_exception_count : ℕ
  pub settlement_absolute_delta_minor : ℤ

-- The two DELETE statements.
abbrev pub cleared : Tables → Tables
cleared t = record t { settlement_actual = []; settlement_exception = [] }

-- The statements up to COMMIT. The rows of the SELECT go into a dict, and the loop sorts its keys, so
-- that the order of the groups is left out.
unfoldable pub settle : List SettlementRow → Tables → Result StoreError Tables
settle actual t = do
  t₁ ← insert_actuals actual (cleared t)
  expected ← group_posted t₁.posted_event []
  let rows = actual_amounts actual []
  compare_keys (all_keys expected rows) expected rows t₁

abbrev report_of : Tables → Result StoreError Report
report_of t = do
  total ← absolute_delta t.settlement_exception (pos 0)
  ok (record {
    settlement_reconciled = length t.settlement_exception == 0;
    settlement_exception_count = length t.settlement_exception;
    settlement_absolute_delta_minor = total;
  })

-- What is not committed when an error leaves the block is lost.
unfoldable pub commit_settlement :
    Tables → Result StoreError Tables → Tables × Result StoreError Report
commit_settlement t (ok t') = (t', report_of t')
commit_settlement t (err e) = (t, err e)

unfoldable pub reconcile_settlement :
    List SettlementRow → Tables → Tables × Result StoreError Report
reconcile_settlement actual t = commit_settlement t (settle actual t)
