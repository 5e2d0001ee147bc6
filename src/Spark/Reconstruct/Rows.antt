-- ===== src/Spark/Reconstruct/Rows.antt =====
-- The two DataFrames that `reconstruct` of spark_jobs/reconstruct_payment_state.py returns.
use ledgerflow_payment_recon.Prelude.{
  ℕ, suc, String, Bool, true, false, not, List, [], ◌∷◌, Option, none, some, length, filter, ◌==◌,
  eq_ℕ, eq_String,
}
use ledgerflow_payment_recon.Prelude.Int.{ℤ}
use ledgerflow_payment_recon.Prelude.Order.{order_ℕ, order_String, order_pair}
use ledgerflow_payment_recon.Contracts.{PaymentEvent}
use ledgerflow_payment_recon.Store.Lifecycle.{Reason, Status}
use ledgerflow_payment_recon.Spark.Reconstruct.{
  window, authorized_column, captured_column, refunded_column, chargeback_column, business_error,
  state_status,
}

pub record ExceptionRecord : Type 0 where
  pub event : PaymentEvent
  pub authorized_minor : Option ℕ
  pub captured_minor : ℤ
  pub refunded_minor : ℤ
  pub chargeback_minor : ℤ
  pub business_error : Reason
  pub processed_at : String

pub record CurrentRecord : Type 0 where
  pub transaction_id : String
  pub current_version : ℕ
  pub current_event_id : String
  pub status : Status
  pub authorized_minor : Option ℕ
  pub captured_minor : ℤ
  pub refunded_minor : ℤ
  pub chargeback_minor : ℤ
  pub currency : String
  pub processor_id : String
  pub merchant_id : String
  pub processed_at : String

-- orderBy(transaction_version desc, event_id desc)
abbrev pub latest_key : PaymentEvent → ℕ × String
latest_key e = (e.transaction_version, e.event_id)

-- `row_number` over the window: one more than the rows that come before in the descending order. The
-- rows of a valid window have different versions, so that no two have the same number.
unfoldable pub state_rank : PaymentEvent → List PaymentEvent → ℕ
state_rank e l =
    suc (length (filter (λ f. not ((order_pair {A = ℕ}).le (latest_key f) (latest_key e))) l))

module _ (now : String) (events : List PaymentEvent) where
  abbrev pub row_window : PaymentEvent → List PaymentEvent
  row_window e = window e.transaction_id events

  abbrev pub exception_record : PaymentEvent → Reason → ExceptionRecord
  exception_record e reason = record {
    event = e;
    authorized_minor = authorized_column (row_window e);
    captured_minor = captured_column (row_window e);
    refunded_minor = refunded_column (row_window e);
    chargeback_minor = chargeback_column (row_window e);
    business_error = reason;
    processed_at = now;
  }

  abbrev pub current_record : PaymentEvent → CurrentRecord
  current_record e = record {
    transaction_id = e.transaction_id;
    current_version = e.transaction_version;
    current_event_id = e.event_id;
    status = state_status (row_window e);
    authorized_minor = authorized_column (row_window e);
    captured_minor = captured_column (row_window e);
    refunded_minor = refunded_column (row_window e);
    chargeback_minor = chargeback_column (row_window e);
    currency = e.currency;
    processor_id = e.processor_id;
    merchant_id = e.merchant_id;
    processed_at = now;
  }

  -- filter(business_error.isNotNull())
  abbrev pub keep_exception :
      Option Reason → PaymentEvent → List ExceptionRecord → List ExceptionRecord
  keep_exception (some reason) e rest = exception_record e reason ∷ rest
  keep_exception none e rest = rest

  unfoldable pub exceptions_of : List PaymentEvent → List ExceptionRecord
  exceptions_of [] = []
  exceptions_of (e ∷ es) = keep_exception (business_error (row_window e)) e (exceptions_of es)

  -- filter(business_error.isNull()), and of these the rows of rank 1
  abbrev pub keep_current :
      Option Reason → Bool → PaymentEvent → List CurrentRecord → List CurrentRecord
  keep_current (some reason) first e rest = rest
  keep_current none true e rest = current_record e ∷ rest
  keep_current none false e rest = rest

  unfoldable pub current_of : List PaymentEvent → List CurrentRecord
  current_of [] = []
  current_of (e ∷ es) =
      keep_current (business_error (row_window e)) (state_rank e (row_window e) == 1) e
        (current_of es)

unfoldable pub reconstruct : String → List PaymentEvent → List CurrentRecord × List ExceptionRecord
reconstruct now events = (current_of now events events, exceptions_of now events events)
