-- ===== src/Store/Project/States.antt =====
-- The rows that `_rebuild_projections` of ledgerflow/store.py leaves in payment_state and in
-- business_exception.
use ledgerflow_payment_recon.Prelude.{◌≡◌, ◌∙◌, List, [], ◌∷◌, some, length, All, arith}
use ledgerflow_payment_recon.Prelude.Result.{ok, >>=-eq-ok}
use ledgerflow_payment_recon.Contracts.{PaymentEvent}
use ledgerflow_payment_recon.Ledger.{PostingRules, PostingLine, build_postings}
use ledgerflow_payment_recon.Store.Lifecycle.{
  assess, status_of, authorized_minor, captured_minor, refunded_minor, chargeback_minor,
}
use ledgerflow_payment_recon.Store.Lifecycle.Sound.{IsLifecycle}
use ledgerflow_payment_recon.Store.Tables.{
  Tables, StateRow, ExceptionRow, insert_posted, insert_entry,
}
use ledgerflow_payment_recon.Store.Project.{
  insert_lines, postings_or_fail, insert_posted_if, post_event, post_events, history,
}

pub record SameStates (t t' : Tables) : Type 0 where
  pub states : t'.payment_state ≡ t.payment_state
  pub exceptions : t'.business_exception ≡ t.business_exception

SameStates-trans : {a b c : Tables} → SameStates a b → SameStates b c → SameStates a c
SameStates-trans f g = record {
  states = g.states ∙ f.states;
  exceptions = g.exceptions ∙ f.exceptions;
}

same_by_line : (line : PostingLine) (t t' : Tables) → insert_entry line t ≡ ok t' → SameStates t t'
unfolding insert_entry
same_by_line line t t' h = ground arith

same_by_lines :
    (lines : List PostingLine) (t t' : Tables) → insert_lines lines t ≡ ok t' → SameStates t t'
unfolding insert_lines
same_by_lines [] t t' h = ground arith
same_by_lines (line ∷ lines) t t' h =
    let (mid, first, rest) = >>=-eq-ok (insert_entry line t) (insert_lines lines) h in
    SameStates-trans (same_by_line line t mid first) (same_by_lines lines mid t' rest)

same_by_posted :
    (lines : List PostingLine) (e : PaymentEvent) (t t' : Tables)
    → insert_posted_if lines e t ≡ ok t'
    → SameStates t t'
unfolding insert_posted_if insert_posted
same_by_posted [] e t t' h = ground arith
same_by_posted (line ∷ lines) e t t' h = ground arith

-- A row of business_exception: the reason is the verdict on its transaction's history.
pub record IsRejected (events : List PaymentEvent) (row : ExceptionRow) : Type 0 where
  pub verdict : assess (history row.transaction_id events) ≡ some row.reason

-- A row of payment_state: its transaction's history is lawful, and the row has its last version, its
-- sums and its status.
pub record IsCurrent (events : List PaymentEvent) (row : StateRow) : Type 0 where
  pub first : PaymentEvent
  pub later : List PaymentEvent
  pub shape : history row.transaction_id events ≡ first ∷ later
  pub lifecycle : IsLifecycle first later
  pub version : row.current_version ≡ length (first ∷ later)
  pub authorized : row.authorized_minor ≡ authorized_minor (first ∷ later)
  pub captured : row.captured_minor ≡ captured_minor (first ∷ later)
  pub refunded : row.refunded_minor ≡ refunded_minor (first ∷ later)
  pub charged_back : row.chargeback_minor ≡ chargeback_minor (first ∷ later)
  pub status :
      row.status
      ≡ status_of row.authorized_minor row.captured_minor row.refunded_minor row.chargeback_minor

pub record Assessed (events : List PaymentEvent) (t : Tables) : Type 0 where
  pub current : All (IsCurrent events) t.payment_state
  pub rejected : All (IsRejected events) t.business_exception

pub Assessed-SameStates :
    (events : List PaymentEvent) (t t' : Tables)
    → SameStates t t'
    → Assessed events t
    → Assessed events t'
Assessed-SameStates events t t' s a = record {
  current = rw s.states a.current;
  rejected = rw s.exceptions a.rejected;
}

module _ (rules : PostingRules) where
  same_by_event :
      (e : PaymentEvent) (t t' : Tables) → post_event e rules t ≡ ok t' → SameStates t t'
  unfolding post_event
  same_by_event e t t' h =
      let (lines, _, rest) = >>=-eq-ok (postings_or_fail (build_postings e rules)) _ h in
      let (mid, first, last) = >>=-eq-ok (insert_posted_if lines e t) (insert_lines lines) rest in
      SameStates-trans (same_by_posted lines e t mid first) (same_by_lines lines mid t' last)

  pub same_by_events :
      (es : List PaymentEvent) (t t' : Tables) → post_events es rules t ≡ ok t' → SameStates t t'
  unfolding post_events
  same_by_events [] t t' h = ground arith
  same_by_events (e ∷ es) t t' h =
      let (mid, first, rest) = >>=-eq-ok (post_event e rules t) (post_events es rules) h in
      SameStates-trans (same_by_event e t mid first) (same_by_events es mid t' rest)
