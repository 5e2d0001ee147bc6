-- ===== src/Store/Summary.antt =====
-- `LedgerStore.summary` of ledgerflow/store.py, which reads the committed tables.
pub mod Sums
use ledgerflow_payment_recon.Prelude.{
  ℕ, ◌+◌, String, Bool, true, false, ◌&&◌, not, List, [], ◌∷◌, filter, length, ◌==◌, eq_String,
  eq_ℕ, if◌then◌else◌,
}
use ledgerflow_payment_recon.Prelude.Int.{ℤ, pos, ◌+ℤ◌, eq_ℤ}
use ledgerflow_payment_recon.Prelude.Text.{◌<>◌}
use ledgerflow_payment_recon.Ledger.{Group, PostingLine}
use ledgerflow_payment_recon.Prelude.Order.{sort_by, order_String}
use ledgerflow_payment_recon.Prelude.Result.{Result, ok, err, ◌>>=◌}
use ledgerflow_payment_recon.Json.{Value, int, text, array, Items, cons, nil}
use ledgerflow_payment_recon.Json.Dumps.{canonical_json}
use ledgerflow_payment_recon.Contracts.{Platform}
use ledgerflow_payment_recon.Store.Lifecycle.{
  Status, authorized, captured, partially_captured, refunded, partially_refunded, chargedback,
  partially_chargedback,
}
use ledgerflow_payment_recon.Store.Tables.{
  Tables, OutcomeRow, StateRow, StoreError, sum_overflow, fits_ℤ,
}
use package.text.Mathlib.Text.{starts_with}

pub record Summary : Type 0 where
  pub classification : String
  pub run_id : String
  pub raw_records : ℕ
  pub accepted_new : ℕ
  pub duplicates : ℕ
  pub quarantined : ℕ
  pub raw_reconciled : Bool
  pub accepted_events : ℕ
  pub quarantine_rows : ℕ
  pub business_exceptions : ℕ
  pub posted_events : ℕ
  pub ledger_entries : ℕ
  pub payment_states : ℕ
  pub unbalanced_posting_groups : ℕ
  pub ledger_balance_minor : ℤ
  pub ledger_balanced : Bool
  pub payment_state_sha256 : String
  pub outcomes : List (String × ℕ)

-- `{f"{outcome}:{reason}": record_count}` of one run. The rows of a run differ in their keys.
unfoldable pub outcome_counts : String → List OutcomeRow → List (String × ℕ)
outcome_counts run [] = []
outcome_counts run (row ∷ rows) =
    let rest = outcome_counts run rows in
    if row.run_id == run then (row.outcome <> ":" <> row.reason, row.record_count) ∷ rest else rest

-- `outcomes.get(key, 0)`
unfoldable pub count_of : String → List (String × ℕ) → ℕ
count_of key [] = 0
count_of key ((k, n) ∷ rest) = if k == key then n else count_of key rest

-- `sum(count for key, count in outcomes.items() if key.startswith(prefix))`
unfoldable pub count_starting : String → List (String × ℕ) → ℕ
count_starting prefix [] = 0
count_starting prefix ((k, n) ∷ rest) =
    (if starts_with k prefix then n else 0) + count_starting prefix rest

-- SUM of SQLite, which stops with an error where a partial sum is no 64-bit integer.
unfoldable pub checked_sum : ℤ → ℤ → Result StoreError ℤ
checked_sum total amount =
    let next = total +ℤ amount in if fits_ℤ next then ok next else err sum_overflow

unfoldable pub balance_from : ℤ → List PostingLine → Result StoreError ℤ
balance_from total [] = ok total
balance_from total (line ∷ lines) = do
  next ← checked_sum total line.signed_minor
  balance_from next lines

-- GROUP BY event_id,currency with SUM(signed_minor), which reads the lines in their order.
unfoldable pub add_checked : String → String → ℤ → List Group → Result StoreError (List Group)
add_checked e c amount [] = do next ← checked_sum (pos 0) amount; ok ((e, c, next) ∷ [])
add_checked e c amount ((e', c', total) ∷ rest) =
    let here = checked_sum total amount >>= (λ next. ok ((e', c', next) ∷ rest)) in
    let later = add_checked e c amount rest >>= (λ grouped. ok ((e', c', total) ∷ grouped)) in
    if e == e' && c == c' then here else later

unfoldable pub group_checked : List Group → List PostingLine → Result StoreError (List Group)
group_checked grouped [] = ok grouped
group_checked grouped (line ∷ lines) = do
  next ← add_checked line.event_id line.currency line.signed_minor grouped
  group_checked next lines

-- The number of groups that the HAVING clause keeps.
unfoldable pub unbalanced_groups : List PostingLine → Result StoreError ℕ
unbalanced_groups lines = do
  grouped ← group_checked [] lines
  ok (length (filter (λ (g : Group). not (g.2 == pos 0)) grouped))

unfoldable pub status_name : Status → String
status_name authorized = "authorized"
status_name captured = "captured"
status_name partially_captured = "partially_captured"
status_name refunded = "refunded"
status_name partially_refunded = "partially_refunded"
status_name chargedback = "chargedback"
status_name partially_chargedback = "partially_chargedback"

-- A row of payment_state as a tuple, in the order of the columns.
state_tuple : StateRow → Value
state_tuple r = array (
    cons (text r.transaction_id) (
      cons (int (pos r.current_version)) (
        cons (text r.current_event_id) (
          cons (text (status_name r.status)) (
            cons (int (pos r.authorized_minor)) (
              cons (int (pos r.captured_minor)) (
                cons (int (pos r.refunded_minor)) (
                  cons (int (pos r.chargeback_minor)) (
                    cons (text r.currency)
                      (cons (text r.processor_id) (cons (text r.merchant_id) nil)))))))))))

tuples : List StateRow → Items
tuples [] = nil
tuples (r ∷ rows) = cons (state_tuple r) (tuples rows)

-- `sha256_text(canonical_json(states))`, the states ordered by their transactions
unfoldable pub states_sha256 : Platform → List StateRow → String
unfolding state_tuple tuples
states_sha256 p rows =
    p.sha256_text
      (canonical_json (array (tuples (sort_by (λ (r : StateRow). r.transaction_id) rows))))

-- What `summary` returns, given what its two sums over the ledger return.
unfoldable pub summary_of : Platform → String → Tables → ℕ → ℤ → Summary
summary_of p run t unbalanced total_balance =
    let outcomes = outcome_counts run t.run_outcome in
    let raw_records = count_of "ARRIVAL:raw_record_read" outcomes in
    let accepted_new = count_of "ACCEPTED:contract_and_identity_passed" outcomes in
    let duplicates = count_of "DUPLICATE:exact_event_replay" outcomes in
    let quarantined = count_starting "QUARANTINED:" outcomes in
    record {
      classification = "MEASURED_LOCAL_RESULT";
      run_id = run;
      raw_records = raw_records;
      accepted_new = accepted_new;
      duplicates = duplicates;
      quarantined = quarantined;
      raw_reconciled = raw_records == accepted_new + duplicates + quarantined;
      accepted_events = length t.accepted_event;
      quarantine_rows = length t.quarantine;
      business_exceptions = length t.business_exception;
      posted_events = length t.posted_event;
      ledger_entries = length t.ledger_entry;
      payment_states = length t.payment_state;
      unbalanced_posting_groups = unbalanced;
      ledger_balance_minor = total_balance;
      ledger_balanced = unbalanced == 0 && total_balance == pos 0;
      payment_state_sha256 = states_sha256 p t.payment_state;
      outcomes = outcomes;
    }

unfoldable pub summary : Platform → String → Tables → Result StoreError Summary
summary p run t = do
  unbalanced ← unbalanced_groups t.ledger_entry
  total_balance ← balance_from (pos 0) t.ledger_entry
  ok (summary_of p run t unbalanced total_balance)
