-- ===== src/Store/Project/Verdicts.antt =====
-- A rebuild of the projections (ledgerflow/store.py) gives each transaction its verdict.
use ledgerflow_payment_recon.Prelude.{
  String, ◌≡◌, refl, ap, ◌∙◌, List, [], ◌∷◌, ◌++◌, Option, none, some, All, All-append, arith,
}
use ledgerflow_payment_recon.Prelude.Result.{ok, >>=-eq-ok}
use ledgerflow_payment_recon.Contracts.{PaymentEvent}
use ledgerflow_payment_recon.Ledger.{PostingRules}
use ledgerflow_payment_recon.Store.Lifecycle.{Reason, assess}
use ledgerflow_payment_recon.Store.Tables.{
  Tables, StateRow, ExceptionRow, insert_exception, insert_state,
}
use ledgerflow_payment_recon.Store.Project.{
  insert_exceptions, post_events, last_event, insert_current, project_assessed, project_transaction,
  history, accepted_events, transaction_ids, project_all, clear_projections, rebuild_projections,
}
use ledgerflow_payment_recon.Store.Project.History.{
  history-IsLifecycle, last-transaction, last_version, same_transaction,
}
use ledgerflow_payment_recon.Store.Project.States.{
  Assessed, IsCurrent, IsRejected, Assessed-SameStates, same_by_events,
}

exception_stored :
    (row : ExceptionRow) (t t' : Tables)
    → insert_exception row t ≡ ok t'
    → (t'.payment_state ≡ t.payment_state)
      × (t'.business_exception ≡ t.business_exception ++ row ∷ [])
unfolding insert_exception
exception_stored row t t' h = ground arith

state_stored :
    (row : StateRow) (t t' : Tables)
    → insert_state row t ≡ ok t'
    → (t'.payment_state ≡ t.payment_state ++ row ∷ [])
      × (t'.business_exception ≡ t.business_exception)
unfolding insert_state
state_stored row t t' h = ground arith

module _ (events : List PaymentEvent) where
  Assessed-insert_exception :
      (row : ExceptionRow) (t t' : Tables)
      → IsRejected events row
      → insert_exception row t ≡ ok t'
      → Assessed events t
      → Assessed events t'
  Assessed-insert_exception row t t' r h a =
      let (states, stored) = exception_stored row t t' h in
      record {
        current = rw states a.current;
        rejected =
            rw stored
              (All-append (IsRejected events) t.business_exception (row ∷ []) a.rejected (r, tt));
      }

  Assessed-insert_exceptions :
      (id : String) (reason : Reason) (es : List PaymentEvent) (t t' : Tables)
      → assess (history id events) ≡ some reason
      → All (λ e. e.transaction_id ≡ id) es
      → insert_exceptions reason es t ≡ ok t'
      → Assessed events t
      → Assessed events t'
  unfolding insert_exceptions
  Assessed-insert_exceptions id reason [] t t' verdict named h a = ground (arith, a)
  Assessed-insert_exceptions id reason (e ∷ es) t t' verdict (here, named) h a =
      let row : ExceptionRow = record {
        event_id = e.event_id;
        transaction_id = e.transaction_id;
        reason = reason;
      } in
      let (mid, first, rest) = >>=-eq-ok (insert_exception row t) (insert_exceptions reason es) h in
      let r : IsRejected events row = record {
        verdict = ap (λ n. assess (history n events)) here ∙ verdict;
      } in
      Assessed-insert_exceptions id reason es mid t' verdict named rest
        (Assessed-insert_exception row t mid r first a)

  Assessed-insert_state :
      (row : StateRow) (t t' : Tables)
      → IsCurrent events row
      → insert_state row t ≡ ok t'
      → Assessed events t
      → Assessed events t'
  Assessed-insert_state row t t' r h a =
      let (stored, exceptions) = state_stored row t t' h in
      record {
        current =
            rw stored (All-append (IsCurrent events) t.payment_state (row ∷ []) a.current (r, tt));
        rejected = rw exceptions a.rejected;
      }

  Assessed-insert_current :
      (id : String) (first : PaymentEvent) (later : List PaymentEvent) (t t' : Tables)
      → history id events ≡ first ∷ later
      → assess (first ∷ later) ≡ none
      → insert_current (last_event first later) (first ∷ later) t ≡ ok t'
      → Assessed events t
      → Assessed events t'
  unfolding insert_current
  Assessed-insert_current id first later t t' shape passed h a =
      let life = history-IsLifecycle id events first later shape passed in
      Assessed-insert_state _ t t'
        (record {
          first = first;
          later = later;
          shape = ap (λ n. history n events) (last-transaction id events first later shape) ∙ shape;
          lifecycle = life;
          version = omega (arith, last_version 1 first later life.consecutive);
          authorized = refl;
          captured = refl;
          refunded = refl;
          charged_back = refl;
          status = refl;
        })
        h a

module _ (rules : PostingRules) (events : List PaymentEvent) where
  Assessed-project_assessed :
      (id : String) (verdict : Option Reason) (first : PaymentEvent) (later : List PaymentEvent)
      (t t' : Tables)
      → history id events ≡ first ∷ later
      → assess (first ∷ later) ≡ verdict
      → project_assessed verdict first later rules t ≡ ok t'
      → Assessed events t
      → Assessed events t'
  unfolding project_assessed
  Assessed-project_assessed id (some reason) first later t t' shape verdict h a =
      Assessed-insert_exceptions events id reason (first ∷ later) t t' (ap assess shape ∙ verdict)
        (same_transaction id events first later shape) h a
  Assessed-project_assessed id none first later t t' shape verdict h a =
      let (mid, posted, last) =
        >>=-eq-ok (post_events (first ∷ later) rules t)
          (insert_current (last_event first later) (first ∷ later)) h in
      Assessed-insert_current events id first later mid t' shape verdict last
        (Assessed-SameStates events t mid (same_by_events rules (first ∷ later) t mid posted) a)

  Assessed-project_transaction :
      (id : String) (l : List PaymentEvent) (t t' : Tables)
      → history id events ≡ l
      → project_transaction l rules t ≡ ok t'
      → Assessed events t
      → Assessed events t'
  unfolding project_transaction
  Assessed-project_transaction id [] t t' shape h a = ground (arith, a)
  Assessed-project_transaction id (first ∷ later) t t' shape h a =
      Assessed-project_assessed id (assess (first ∷ later)) first later t t' shape refl h a

  Assessed-project_all :
      (ids : List String) (t t' : Tables)
      → project_all ids events rules t ≡ ok t'
      → Assessed events t
      → Assessed events t'
  unfolding project_all
  Assessed-project_all [] t t' h a = ground (arith, a)
  Assessed-project_all (id ∷ ids) t t' h a =
      let (mid, first, rest) =
        >>=-eq-ok (project_transaction (history id events) rules t) (project_all ids events rules)
          h in
      Assessed-project_all ids mid t' rest
        (Assessed-project_transaction id (history id events) t mid refl first a)

-- Whatever was in the projections, a rebuild that returns leaves the verdicts on the accepted events.
pub rebuild_projections-Assessed :
    (rules : PostingRules) (t t' : Tables)
    → rebuild_projections rules t ≡ ok t'
    → Assessed (accepted_events t) t'
unfolding rebuild_projections clear_projections
rebuild_projections-Assessed rules t t' h =
    Assessed-project_all rules (accepted_events t) (transaction_ids (accepted_events t))
      (clear_projections t) t' h (record { current = tt; rejected = tt })
