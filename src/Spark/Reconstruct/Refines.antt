-- ===== src/Spark/Reconstruct/Refines.antt =====
-- The rows that `reconstruct` of spark_jobs/reconstruct_payment_state.py returns, against the verdict
-- of ledgerflow/store.py on the same transaction.
use ledgerflow_payment_recon.Prelude.{
  ◌<◌, String, ◌≡◌, sym, Bool, true, false, List, [], ◌∷◌, Option, none, some, All, All-filter,
  arith, ◌==◌, eq_String, eq_ℕ, eq_iff,
}
use ledgerflow_payment_recon.Contracts.{PaymentEvent}
use ledgerflow_payment_recon.Store.Lifecycle.{
  Reason, is_empty, authorized_minor, captured_minor, refunded_minor, chargeback_minor, assess,
  status_of,
}
use ledgerflow_payment_recon.Spark.Reconstruct.{window, business_error}
use ledgerflow_payment_recon.Spark.Reconstruct.Rows.{
  ExceptionRecord, CurrentRecord, exceptions_of, current_of, state_rank, reconstruct,
  keep_exception, keep_current,
}
use ledgerflow_payment_recon.Spark.Reconstruct.Sums.{
  Positive, IsBounded, captured_column-eq, refunded_column-eq, chargeback_column-eq,
}
use ledgerflow_payment_recon.Spark.Reconstruct.Agree.{
  business_error-assess, state_status-status_of, authorized_column-eq,
}
use ledgerflow_payment_recon.Prelude.Int.{pos}

-- The amounts of a row's window add up to less than 2 ^ 63.
abbrev pub HasBoundedWindow : List PaymentEvent → PaymentEvent → Type 0
HasBoundedWindow events e = IsBounded (window e.transaction_id events)

-- The window of a row has the row itself.
abbrev HasWindow : List PaymentEvent → PaymentEvent → Type 0
HasWindow events e = is_empty (window e.transaction_id events) ≡ false

HasWindow-grow :
    (x : PaymentEvent) (events l : List PaymentEvent)
    → All (HasWindow events) l
    → All (HasWindow (x ∷ events)) l
unfolding window
HasWindow-grow x events [] h = tt
HasWindow-grow x events (e ∷ l) (h, hs) = (ground (arith, h), HasWindow-grow x events l hs)

windows_lem : (events : List PaymentEvent) → All (HasWindow events) events
unfolding window
windows_lem [] = tt
windows_lem (e ∷ events) = (
  ground (arith, eq_iff e.transaction_id e.transaction_id),
  HasWindow-grow e events events (windows_lem events),
)

-- An exception record has the verdict on its transaction.
pub record RejectedLikewise (events : List PaymentEvent) (row : ExceptionRecord) : Type 0 where
  pub verdict : assess (window row.event.transaction_id events) ≡ some row.business_error

-- A state record is of a transaction that passes, with the same sums and the same status.
pub record CurrentLikewise (events : List PaymentEvent) (row : CurrentRecord) : Type 0 where
  pub verdict : assess (window row.transaction_id events) ≡ none
  pub authorized : row.authorized_minor ≡ some (authorized_minor (window row.transaction_id events))
  pub captured : row.captured_minor ≡ pos (captured_minor (window row.transaction_id events))
  pub refunded : row.refunded_minor ≡ pos (refunded_minor (window row.transaction_id events))
  pub charged_back :
      row.chargeback_minor ≡ pos (chargeback_minor (window row.transaction_id events))
  pub status :
      row.status
      ≡ status_of
          (authorized_minor (window row.transaction_id events))
          (captured_minor (window row.transaction_id events))
          (refunded_minor (window row.transaction_id events))
          (chargeback_minor (window row.transaction_id events))

module _ (now : String) (events : List PaymentEvent) (positive : Positive events) where
  window-Positive : (id : String) → Positive (window id events)
  unfolding window
  window-Positive id =
      All-filter (λ e. 0 < e.amount_minor) (λ (e : PaymentEvent). e.transaction_id == id) events
        positive

  same_verdict :
      (e : PaymentEvent)
      → HasWindow events e
      → HasBoundedWindow events e
      → business_error (window e.transaction_id events) ≡ assess (window e.transaction_id events)
  same_verdict e h small =
      by_list (window e.transaction_id events) (window-Positive e.transaction_id) h small
    where
      by_list :
          (l : List PaymentEvent)
          → Positive l
          → is_empty l ≡ false
          → IsBounded l
          → business_error l ≡ assess l
      by_list [] p h small = absurd (ground arith)
      by_list (f ∷ l) p h small = business_error-assess f l p small

  exception-Likewise :
      (e : PaymentEvent) (verdict : Option Reason) (rest : List ExceptionRecord)
      → assess (window e.transaction_id events) ≡ verdict
      → All (RejectedLikewise events) rest
      → All (RejectedLikewise events) (keep_exception now events verdict e rest)
  exception-Likewise e (some reason) rest h r = (record { verdict = h }, r)
  exception-Likewise e none rest h r = r

  exceptions-Likewise :
      (es : List PaymentEvent)
      → All (HasWindow events) es
      → All (HasBoundedWindow events) es
      → All (RejectedLikewise events) (exceptions_of now events es)
  unfolding exceptions_of
  exceptions-Likewise [] h b = tt
  exceptions-Likewise (e ∷ es) (h, hs) (b, bs) =
      exception-Likewise e (business_error (window e.transaction_id events))
        (exceptions_of now events es) (sym (same_verdict e h b)) (exceptions-Likewise es hs bs)

  current_record-Likewise :
      (e : PaymentEvent) (verdict : Option Reason) (latest : Bool) (rest : List CurrentRecord)
      → HasBoundedWindow events e
      → assess (window e.transaction_id events) ≡ verdict
      → All (CurrentLikewise events) rest
      → All (CurrentLikewise events) (keep_current now events verdict latest e rest)
  current_record-Likewise e (some reason) latest rest b h r = r
  current_record-Likewise e none false rest b h r = r
  current_record-Likewise e none true rest b h r =
      let w = window e.transaction_id events in
      (
        record {
          verdict = h;
          authorized = authorized_column-eq w h;
          captured = captured_column-eq w b;
          refunded = refunded_column-eq w b;
          charged_back = chargeback_column-eq w b;
          status = state_status-status_of w (window-Positive e.transaction_id) b h;
        },
        r,
      )

  current-Likewise :
      (es : List PaymentEvent)
      → All (HasWindow events) es
      → All (HasBoundedWindow events) es
      → All (CurrentLikewise events) (current_of now events es)
  unfolding current_of
  current-Likewise [] h b = tt
  current-Likewise (e ∷ es) (h, hs) (b, bs) =
      let w = window e.transaction_id events in
      current_record-Likewise e (business_error w) (state_rank e w == 1) (current_of now events es)
        b (sym (same_verdict e h b)) (current-Likewise es hs bs)

  -- On events of positive amounts, of which those of one transaction add up to less than 2 ^ 63,
  -- every exception that the Spark job's reconstruct returns has the reason that the store's
  -- assessment gives the rows of the same transaction, and every state that it returns is of a
  -- transaction that the store's assessment passes, with the same four sums and the same status.
  pub reconstruct-Likewise :
      All (HasBoundedWindow events) events
      → All (CurrentLikewise events) (reconstruct now events).0
        × All (RejectedLikewise events) (reconstruct now events).1
  unfolding reconstruct
  reconstruct-Likewise bounded = (
    current-Likewise events (windows_lem events) bounded,
    exceptions-Likewise events (windows_lem events) bounded,
  )
