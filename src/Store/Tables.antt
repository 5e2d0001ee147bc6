-- ===== src/Store/Tables.antt =====
-- The tables of `SCHEMA` in ledgerflow/store.py, in the order of insertion, and one function for
-- each INSERT, with the constraints that SQLite checks: 64-bit integers, CHECK, primary keys and
-- foreign keys.
use ledgerflow_payment_recon.Prelude.{
  ℕ, suc, ◌^◌, String, Bool, true, false, ◌&&◌, not, List, [], ◌∷◌, ◌++◌, Option, ltb, any, length,
  ◌==◌, eq_ℕ, eq_String, if◌then◌else◌,
}
use ledgerflow_payment_recon.Prelude.Int.{ℤ, pos, negsuc}
use ledgerflow_payment_recon.Prelude.Result.{Result, ok, err}
use ledgerflow_payment_recon.Contracts.{PaymentEvent, EventType}
use ledgerflow_payment_recon.Ledger.{PostingLine, PostingError}
use ledgerflow_payment_recon.Store.Lifecycle.{Reason, Status}

pub data RunStatus : Type 0 where
  started succeeded failed : RunStatus

pub record JournalRow : Type 0 where
  pub run_id : String
  pub input_sha256 : String
  pub status : RunStatus
  pub started_at : String
  pub completed_at : Option String
  pub failure_reason : Option String

pub record OutcomeRow : Type 0 where
  pub run_id : String
  pub outcome : String
  pub reason : String
  pub record_count : ℕ

pub record SeenRow : Type 0 where
  pub event_id : String
  pub identity_sha256 : String
  pub first_run_id : String

pub record AcceptedRow : Type 0 where
  pub event : PaymentEvent
  pub safe_payload_json : String

pub record QuarantineRow : Type 0 where
  pub quarantine_id : ℕ
  pub run_id : String
  pub event_id : Option String
  pub reason : String
  pub redacted_payload_json : String

pub record ExceptionRow : Type 0 where
  pub event_id : String
  pub transaction_id : String
  pub reason : Reason

pub record PostedRow : Type 0 where
  pub event_id : String
  pub transaction_id : String
  pub processor_id : String
  pub merchant_id : String
  pub event_type : EventType
  pub amount_minor : ℕ
  pub currency : String
  pub event_time : String

pub record StateRow : Type 0 where
  pub transaction_id : String
  pub current_version : ℕ
  pub current_event_id : String
  pub status : Status
  pub authorized_minor : ℕ
  pub captured_minor : ℕ
  pub refunded_minor : ℕ
  pub chargeback_minor : ℕ
  pub currency : String
  pub processor_id : String
  pub merchant_id : String

pub record SettlementRow : Type 0 where
  pub business_date : String
  pub processor_id : String
  pub currency : String
  pub amount_minor : ℤ

pub record SettlementException : Type 0 where
  pub business_date : String
  pub processor_id : String
  pub currency : String
  pub expected_minor : ℤ
  pub actual_minor : ℤ
  pub delta_minor : ℤ

pub record Tables : Type 0 where
  pub run_journal : List JournalRow
  pub run_outcome : List OutcomeRow
  pub seen_event : List SeenRow
  pub accepted_event : List AcceptedRow
  pub quarantine : List QuarantineRow
  pub business_exception : List ExceptionRow
  pub posted_event : List PostedRow
  pub ledger_entry : List PostingLine
  pub payment_state : List StateRow
  pub settlement_actual : List SettlementRow
  pub settlement_exception : List SettlementException

-- What a call raises: a broken constraint (with its table), an integer that SQLite cannot hold, a
-- SUM that leaves the 64-bit integers, a posting error, an error of the input's iterator, or a failpoint.
pub data StoreError : Type 0 where
  unique_failed foreign_key_failed check_failed : String → StoreError
  integer_overflow : StoreError
  sum_overflow : StoreError
  posting : PostingError → StoreError
  input_failed : String → StoreError
  injected_failure : String → StoreError

-- A SQLite INTEGER is a signed 64-bit number.
abbrev pub int64_bound : ℕ
int64_bound = 2 ^ 63

abbrev pub fits : ℕ → Bool
fits n = ltb n int64_bound

abbrev pub fits_ℤ : ℤ → Bool
fits_ℤ (pos n) = ltb n int64_bound
fits_ℤ (negsuc n) = ltb n int64_bound

abbrev pub has_run : String → Tables → Bool
has_run run t = any (λ (r : JournalRow). r.run_id == run) t.run_journal

abbrev pub has_seen : String → Tables → Bool
has_seen id t = any (λ (r : SeenRow). r.event_id == id) t.seen_event

abbrev pub has_accepted : String → Tables → Bool
has_accepted id t = any (λ (r : AcceptedRow). r.event.event_id == id) t.accepted_event

abbrev pub has_posted : String → Tables → Bool
has_posted id t = any (λ (r : PostedRow). r.event_id == id) t.posted_event

-- The checks in the order in which SQLite makes them: the integers, CHECK, the key, the reference.
abbrev pub checked : Bool → Bool → Bool → Bool → String → Tables → Result StoreError Tables
checked fit check taken referenced table t =
    if not fit
    then err integer_overflow
    else if not check
    then err (check_failed table)
    else if taken
    then err (unique_failed table)
    else if not referenced
    then err (foreign_key_failed table)
    else ok t

unfoldable pub insert_journal : JournalRow → Tables → Result StoreError Tables
insert_journal row t =
    checked true true (has_run row.run_id t) true "run_journal"
      (record t { run_journal = t.run_journal ++ row ∷ [] })

unfoldable pub insert_outcome : OutcomeRow → Tables → Result StoreError Tables
insert_outcome row t =
    checked (fits row.record_count) true
      (any
        (λ (r : OutcomeRow).
          r.run_id == row.run_id && r.outcome == row.outcome && r.reason == row.reason)
        t.run_outcome)
      (has_run row.run_id t) "run_outcome" (record t { run_outcome = t.run_outcome ++ row ∷ [] })

unfoldable pub insert_seen : SeenRow → Tables → Result StoreError Tables
insert_seen row t =
    checked true true (has_seen row.event_id t) (has_run row.first_run_id t) "seen_event"
      (record t { seen_event = t.seen_event ++ row ∷ [] })

unfoldable pub insert_accepted : AcceptedRow → Tables → Result StoreError Tables
insert_accepted row t =
    checked (fits row.event.transaction_version && fits row.event.amount_minor)
      (ltb 0 row.event.amount_minor) (has_accepted row.event.event_id t)
      (has_seen row.event.event_id t) "accepted_event"
      (record t { accepted_event = t.accepted_event ++ row ∷ [] })

-- Rows are never deleted from `quarantine`, so AUTOINCREMENT counts them.
unfoldable pub insert_quarantine :
    String → Option String → String → String → Tables → Result StoreError Tables
insert_quarantine run id reason payload t =
    checked true true false (has_run run t) "quarantine" (record t {
      quarantine =
          t.quarantine
          ++ record {
            quarantine_id = suc (length t.quarantine);
            run_id = run;
            event_id = id;
            reason = reason;
            redacted_payload_json = payload;
          }
            ∷ [];
    })

unfoldable pub insert_exception : ExceptionRow → Tables → Result StoreError Tables
insert_exception row t =
    checked true true (any (λ (r : ExceptionRow). r.event_id == row.event_id) t.business_exception)
      (has_accepted row.event_id t) "business_exception"
      (record t { business_exception = t.business_exception ++ row ∷ [] })

unfoldable pub insert_posted : PostedRow → Tables → Result StoreError Tables
insert_posted row t =
    checked (fits row.amount_minor) true (has_posted row.event_id t) (has_accepted row.event_id t)
      "posted_event" (record t { posted_event = t.posted_event ++ row ∷ [] })

unfoldable pub insert_entry : PostingLine → Tables → Result StoreError Tables
insert_entry row t =
    checked (fits_ℤ row.signed_minor && fits row.posting_rule_version) true
      (any (λ (r : PostingLine). r.entry_id == row.entry_id) t.ledger_entry)
      (has_posted row.event_id t) "ledger_entry"
      (record t { ledger_entry = t.ledger_entry ++ row ∷ [] })

unfoldable pub insert_state : StateRow → Tables → Result StoreError Tables
insert_state row t =
    checked
      (fits row.current_version
        && fits row.authorized_minor
        && fits row.captured_minor
        && fits row.refunded_minor
        && fits row.chargeback_minor)
      true (any (λ (r : StateRow). r.transaction_id == row.transaction_id) t.payment_state) true
      "payment_state" (record t { payment_state = t.payment_state ++ row ∷ [] })
