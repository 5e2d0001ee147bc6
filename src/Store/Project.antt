-- ===== src/Store/Project.antt =====
-- `_project_transaction` and `_rebuild_projections` of ledgerflow/store.py.
pub mod Ledger
pub mod Evidence
pub mod History
pub mod States
pub mod Verdicts
use ledgerflow_payment_recon.Prelude.{
  ℕ, String, List, [], ◌∷◌, map, Option, none, some, filter, ◌==◌, eq_String,
}
use ledgerflow_payment_recon.Prelude.Order.{sort_by, order_String, order_ℕ, order_pair}
use ledgerflow_payment_recon.Prelude.Sets.{distinct}
use ledgerflow_payment_recon.Prelude.Result.{Result, ok, err, ◌>>=◌}
use ledgerflow_payment_recon.Contracts.{PaymentEvent}
use ledgerflow_payment_recon.Ledger.{PostingRules, PostingLine, PostingError, build_postings}
use ledgerflow_payment_recon.Store.Lifecycle.{
  Reason, assess, status_of, authorized_minor, captured_minor, refunded_minor, chargeback_minor,
}
use ledgerflow_payment_recon.Store.Tables.{
  Tables, AcceptedRow, PostedRow, StoreError, posting, insert_exception, insert_posted,
  insert_entry, insert_state,
}

unfoldable pub insert_exceptions : Reason → List PaymentEvent → Tables → Result StoreError Tables
insert_exceptions reason [] t = ok t
insert_exceptions reason (e ∷ es) t = do
  t' ←
      insert_exception
        (record { event_id = e.event_id; transaction_id = e.transaction_id; reason = reason }) t
  insert_exceptions reason es t'

unfoldable pub posted_row : PaymentEvent → PostedRow
posted_row e = record {
  event_id = e.event_id;
  transaction_id = e.transaction_id;
  processor_id = e.processor_id;
  merchant_id = e.merchant_id;
  event_type = e.event_type;
  amount_minor = e.amount_minor;
  currency = e.currency;
  event_time = e.event_time;
}

unfoldable pub insert_lines : List PostingLine → Tables → Result StoreError Tables
insert_lines [] t = ok t
insert_lines (line ∷ lines) t = do t' ← insert_entry line t; insert_lines lines t'

-- A `PostingRuleError` leaves the store's code as it is.
unfoldable pub postings_or_fail :
    Result PostingError (List PostingLine) → Result StoreError (List PostingLine)
postings_or_fail (ok lines) = ok lines
postings_or_fail (err e) = err (posting e)

-- `if postings: INSERT INTO posted_event`
unfoldable pub insert_posted_if :
    List PostingLine → PaymentEvent → Tables → Result StoreError Tables
unfolding posted_row
insert_posted_if [] e t = ok t
insert_posted_if (_ ∷ _) e t = insert_posted (posted_row e) t

unfoldable pub post_event : PaymentEvent → PostingRules → Tables → Result StoreError Tables
post_event e rules t = do
  lines ← postings_or_fail (build_postings e rules)
  t' ← insert_posted_if lines e t
  insert_lines lines t'

unfoldable pub post_events : List PaymentEvent → PostingRules → Tables → Result StoreError Tables
post_events [] rules t = ok t
post_events (e ∷ es) rules t = do t' ← post_event e rules t; post_events es rules t'

-- `events[-1]`, where the first event is `e`.
unfoldable pub last_event : PaymentEvent → List PaymentEvent → PaymentEvent
last_event e [] = e
last_event e (f ∷ es) = last_event f es

-- The row of `payment_state` for a history that passed, whose last event is `current`.
unfoldable pub insert_current : PaymentEvent → List PaymentEvent → Tables → Result StoreError Tables
insert_current current events t =
    insert_state
      (record {
        transaction_id = current.transaction_id;
        current_version = current.transaction_version;
        current_event_id = current.event_id;
        status =
            status_of (authorized_minor events) (captured_minor events) (refunded_minor events)
              (chargeback_minor events);
        authorized_minor = authorized_minor events;
        captured_minor = captured_minor events;
        refunded_minor = refunded_minor events;
        chargeback_minor = chargeback_minor events;
        currency = current.currency;
        processor_id = current.processor_id;
        merchant_id = current.merchant_id;
      })
      t

unfoldable pub project_assessed :
    Option Reason
    → PaymentEvent
    → List PaymentEvent
    → PostingRules
    → Tables
    → Result StoreError Tables
project_assessed (some reason) e es rules t = insert_exceptions reason (e ∷ es) t
project_assessed none e es rules t = do
  t' ← post_events (e ∷ es) rules t
  insert_current (last_event e es) (e ∷ es) t'

unfoldable pub project_transaction :
    List PaymentEvent → PostingRules → Tables → Result StoreError Tables
project_transaction [] rules t = ok t
project_transaction (e ∷ es) rules t = project_assessed (assess (e ∷ es)) e es rules t

-- ORDER BY transaction_version, event_time, event_id
abbrev pub history_key : PaymentEvent → ℕ × (String × String)
history_key e = (e.transaction_version, (e.event_time, e.event_id))

unfoldable pub accepted_events : Tables → List PaymentEvent
accepted_events t = map (λ (r : AcceptedRow). r.event) t.accepted_event

-- The rows of one transaction, in the order of its history.
unfoldable pub history : String → List PaymentEvent → List PaymentEvent
history id events =
    sort_by history_key (filter (λ (e : PaymentEvent). e.transaction_id == id) events)

-- SELECT DISTINCT transaction_id ... ORDER BY transaction_id
unfoldable pub transaction_ids : List PaymentEvent → List String
transaction_ids events =
    sort_by (λ (id : String). id) (distinct (map (λ (e : PaymentEvent). e.transaction_id) events))

unfoldable pub project_all :
    List String → List PaymentEvent → PostingRules → Tables → Result StoreError Tables
project_all [] events rules t = ok t
project_all (id ∷ ids) events rules t = do
  t' ← project_transaction (history id events) rules t
  project_all ids events rules t'

-- The six DELETE statements; what refers to a table is deleted before it.
unfoldable pub clear_projections : Tables → Tables
clear_projections t = record t {
  settlement_exception = [];
  settlement_actual = [];
  ledger_entry = [];
  posted_event = [];
  business_exception = [];
  payment_state = [];
}

unfoldable pub rebuild_projections : PostingRules → Tables → Result StoreError Tables
unfolding accepted_events
rebuild_projections rules t =
    project_all (transaction_ids (accepted_events t)) (accepted_events t) rules
      (clear_projections t)
