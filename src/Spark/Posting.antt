-- ===== src/Spark/Posting.antt =====
-- spark_jobs/post_ledger.py: the lines of the posted events, and the job that merges them.
pub mod Gate
pub mod Rerun
use ledgerflow_payment_recon.Prelude.{
  ℕ, ◌+◌, String, Bool, true, false, ◌||◌, not, List, [], ◌∷◌, ◌++◌, map, any, filter, ◌==◌,
  eq_String, eq_pair, if◌then◌else◌,
}
use ledgerflow_payment_recon.Prelude.Int.{ℤ, pos, neg, eq_ℤ, ◌+ℤ◌}
use ledgerflow_payment_recon.Prelude.Text.{◌<>◌}
use ledgerflow_payment_recon.Prelude.Sets.{contains, distinct}
use ledgerflow_payment_recon.Prelude.Result.{Result, ok, err, ◌>>=◌}
use ledgerflow_payment_recon.Contracts.{PaymentEvent}
use ledgerflow_payment_recon.Ledger.{PostingLine}
use ledgerflow_payment_recon.Store.Lifecycle.{is_capture, is_refund, is_chargeback}

-- A ledger line, and the time of its event.
pub record TimedLine : Type 0 where
  pub line : PostingLine
  pub event_time : String

-- `isin("capture", "refund", "chargeback")`
abbrev pub is_monetary : PaymentEvent → Bool
is_monetary e = is_capture e || is_refund e || is_chargeback e

unfoldable pub debit_account : PaymentEvent → String
debit_account e =
    if is_capture e
    then "processor_receivable"
    else if is_refund e
    then "merchant_payable"
    else "chargeback_loss"

unfoldable pub credit_account : PaymentEvent → String
credit_account e = if is_capture e then "merchant_payable" else "processor_receivable"

-- The columns of a line, with its number, account and amount.
unfoldable pub timed_line : PaymentEvent → String → String → ℤ → TimedLine
timed_line e number account signed = record {
  line = record {
    entry_id = e.event_id <> ":" <> number;
    event_id = e.event_id;
    transaction_id = e.transaction_id;
    processor_id = e.processor_id;
    merchant_id = e.merchant_id;
    currency = e.currency;
    account = account;
    signed_minor = signed;
    posting_rule_version = 1;
  };
  event_time = e.event_time;
}

unfoldable pub debit : PaymentEvent → TimedLine
unfolding timed_line debit_account
debit e = timed_line e "1" (debit_account e) (pos e.amount_minor)

unfoldable pub credit : PaymentEvent → TimedLine
unfolding timed_line credit_account
credit e = timed_line e "2" (credit_account e) (neg (pos e.amount_minor))

-- The RuntimeError of the double-entry gate.
pub data GateError : Type 0 where
  double_entry_gate_failed : GateError

-- groupBy("event_id", "currency")
abbrev pub balance_key : TimedLine → String × String
balance_key l = (l.line.event_id, l.line.currency)

unfoldable pub balance : String × String → List TimedLine → ℤ
balance k [] = pos 0
balance k (l ∷ ls) = (if k == balance_key l then l.line.signed_minor else pos 0) +ℤ balance k ls

unfoldable pub unbalanced : List TimedLine → List (String × String)
unbalanced lines = filter (λ k. not (balance k lines == pos 0)) (distinct (map balance_key lines))

unfoldable pub gate : List (String × String) → List TimedLine → Result GateError (List TimedLine)
gate [] lines = ok lines
gate (_ ∷ _) lines = err double_entry_gate_failed

unfoldable pub posting_lines : List PaymentEvent → Result GateError (List TimedLine)
unfolding gate unbalanced
posting_lines events =
    let monetary = filter is_monetary events in
    let lines = map debit monetary ++ map credit monetary in gate (unbalanced lines) lines

-- MERGE INTO target USING source ON target.key = source.key WHEN NOT MATCHED THEN INSERT *
unfoldable pub insert_only : {A : Type 0} → (A → String) → List A → List A → List A
insert_only key source target =
    target ++ filter (λ row. not (contains (key row) (map key target))) source

pub record LedgerTables : Type 0 where
  pub posted : List PaymentEvent
  pub ledger : List TimedLine

module _ (to_date : String → String) (business_date : String) where
  -- The rows of every transaction that has an event on the day.
  unfoldable pub affected_history : List PaymentEvent → List PaymentEvent
  affected_history accepted =
      filter
        (λ (e : PaymentEvent).
          any
            (λ (f : PaymentEvent).
              if to_date f.event_time == to_date business_date
              then f.transaction_id == e.transaction_id
              else false)
            accepted)
        accepted

  unfoldable pub monetary_events : List PaymentEvent → List String → List PaymentEvent
  unfolding affected_history
  monetary_events accepted exception_ids = filter is_monetary (
      filter (λ (e : PaymentEvent). not (contains e.event_id exception_ids))
        (affected_history accepted))

  -- The job: what it leaves in the two tables.
  unfoldable pub post_ledger :
      List PaymentEvent → List String → LedgerTables → Result GateError LedgerTables
  unfolding monetary_events posting_lines insert_only
  post_ledger accepted exception_ids t = do
    let events = monetary_events accepted exception_ids
    lines ← posting_lines events
    ok (record {
      posted = insert_only (λ e. e.event_id) events t.posted;
      ledger = insert_only (λ l. l.line.entry_id) lines t.ledger;
    })
