-- ===== src/Store/Project/Evidence.antt =====
-- A rebuild of the projections in ledgerflow/store.py writes to no table of evidence.
use ledgerflow_payment_recon.Prelude.{
  String, ◌≡◌, refl, ◌∙◌, List, [], ◌∷◌, Option, none, some, arith,
}
use ledgerflow_payment_recon.Prelude.Result.{ok, >>=-eq-ok}
use ledgerflow_payment_recon.Contracts.{PaymentEvent}
use ledgerflow_payment_recon.Ledger.{PostingRules, PostingLine, build_postings}
use ledgerflow_payment_recon.Store.Lifecycle.{Reason, assess}
use ledgerflow_payment_recon.Store.Tables.{
  Tables, ExceptionRow, insert_exception, insert_posted, insert_entry, insert_state,
}
use ledgerflow_payment_recon.Store.Project.{
  insert_exceptions, insert_lines, postings_or_fail, insert_posted_if, post_event, post_events,
  last_event, insert_current, project_assessed, project_transaction, history, project_all,
  clear_projections, rebuild_projections, transaction_ids, accepted_events,
}

-- The tables that a rebuild leaves alone.
pub record SameEvidence (t t' : Tables) : Type 0 where
  pub journal : t'.run_journal ≡ t.run_journal
  pub outcomes : t'.run_outcome ≡ t.run_outcome
  pub seen : t'.seen_event ≡ t.seen_event
  pub accepted : t'.accepted_event ≡ t.accepted_event
  pub quarantined : t'.quarantine ≡ t.quarantine

SameEvidence-refl : (t : Tables) → SameEvidence t t
SameEvidence-refl t = record {
  journal = refl;
  outcomes = refl;
  seen = refl;
  accepted = refl;
  quarantined = refl;
}

SameEvidence-trans : {t u v : Tables} → SameEvidence t u → SameEvidence u v → SameEvidence t v
SameEvidence-trans h k = record {
  journal = k.journal ∙ h.journal;
  outcomes = k.outcomes ∙ h.outcomes;
  seen = k.seen ∙ h.seen;
  accepted = k.accepted ∙ h.accepted;
  quarantined = k.quarantined ∙ h.quarantined;
}

same_of_exception :
    (row : ExceptionRow) (t t' : Tables) → insert_exception row t ≡ ok t' → SameEvidence t t'
unfolding insert_exception
same_of_exception row t t' h = ground arith

same_of_entry :
    (line : PostingLine) (t t' : Tables) → insert_entry line t ≡ ok t' → SameEvidence t t'
unfolding insert_entry
same_of_entry line t t' h = ground arith

same_of_lines :
    (lines : List PostingLine) (t t' : Tables) → insert_lines lines t ≡ ok t' → SameEvidence t t'
unfolding insert_lines
same_of_lines [] t t' h = ground (arith, SameEvidence-refl t)
same_of_lines (line ∷ lines) t t' h =
    let (mid, first, rest) = >>=-eq-ok (insert_entry line t) (insert_lines lines) h in
    SameEvidence-trans (same_of_entry line t mid first) (same_of_lines lines mid t' rest)

same_of_posted :
    (lines : List PostingLine) (e : PaymentEvent) (t t' : Tables)
    → insert_posted_if lines e t ≡ ok t'
    → SameEvidence t t'
unfolding insert_posted_if insert_posted
same_of_posted [] e t t' h = ground arith
same_of_posted (line ∷ lines) e t t' h = ground arith

same_of_exceptions :
    (reason : Reason) (es : List PaymentEvent) (t t' : Tables)
    → insert_exceptions reason es t ≡ ok t'
    → SameEvidence t t'
unfolding insert_exceptions
same_of_exceptions reason [] t t' h = ground arith
same_of_exceptions reason (e ∷ es) t t' h =
    let row : ExceptionRow = record {
      event_id = e.event_id;
      transaction_id = e.transaction_id;
      reason = reason;
    } in
    let (mid, first, rest) = >>=-eq-ok (insert_exception row t) (insert_exceptions reason es) h in
    SameEvidence-trans (same_of_exception row t mid first)
      (same_of_exceptions reason es mid t' rest)

same_of_current :
    (e : PaymentEvent) (es : List PaymentEvent) (t t' : Tables)
    → insert_current e es t ≡ ok t'
    → SameEvidence t t'
unfolding insert_current insert_state
same_of_current e es t t' h = ground arith

module _ (rules : PostingRules) where
  same_of_event :
      (e : PaymentEvent) (t t' : Tables) → post_event e rules t ≡ ok t' → SameEvidence t t'
  unfolding post_event
  same_of_event e t t' h =
      let (lines, _, rest) = >>=-eq-ok (postings_or_fail (build_postings e rules)) _ h in
      let (mid, first, last) = >>=-eq-ok (insert_posted_if lines e t) (insert_lines lines) rest in
      SameEvidence-trans (same_of_posted lines e t mid first) (same_of_lines lines mid t' last)

  same_of_events :
      (es : List PaymentEvent) (t t' : Tables) → post_events es rules t ≡ ok t' → SameEvidence t t'
  unfolding post_events
  same_of_events [] t t' h = ground arith
  same_of_events (e ∷ es) t t' h =
      let (mid, first, rest) = >>=-eq-ok (post_event e rules t) (post_events es rules) h in
      SameEvidence-trans (same_of_event e t mid first) (same_of_events es mid t' rest)

  same_of_assessed :
      (verdict : Option Reason) (e : PaymentEvent) (es : List PaymentEvent) (t t' : Tables)
      → project_assessed verdict e es rules t ≡ ok t'
      → SameEvidence t t'
  unfolding project_assessed
  same_of_assessed (some reason) e es t t' h = same_of_exceptions reason (e ∷ es) t t' h
  same_of_assessed none e es t t' h =
      let (mid, first, rest) =
        >>=-eq-ok (post_events (e ∷ es) rules t) (insert_current (last_event e es) (e ∷ es)) h in
      SameEvidence-trans (same_of_events (e ∷ es) t mid first)
        (same_of_current (last_event e es) (e ∷ es) mid t' rest)

  same_of_transaction :
      (es : List PaymentEvent) (t t' : Tables)
      → project_transaction es rules t ≡ ok t'
      → SameEvidence t t'
  unfolding project_transaction
  same_of_transaction [] t t' h = ground arith
  same_of_transaction (e ∷ es) t t' h = same_of_assessed (assess (e ∷ es)) e es t t' h

  same_of_all :
      (ids : List String) (events : List PaymentEvent) (t t' : Tables)
      → project_all ids events rules t ≡ ok t'
      → SameEvidence t t'
  unfolding project_all
  same_of_all [] events t t' h = ground arith
  same_of_all (id ∷ ids) events t t' h =
      let (mid, first, rest) =
        >>=-eq-ok (project_transaction (history id events) rules t) (project_all ids events rules)
          h in
      SameEvidence-trans (same_of_transaction (history id events) t mid first)
        (same_of_all ids events mid t' rest)

  pub rebuild_projections-SameEvidence :
      (t t' : Tables) → rebuild_projections rules t ≡ ok t' → SameEvidence t t'
  unfolding rebuild_projections clear_projections
  rebuild_projections-SameEvidence t t' h =
      SameEvidence-trans
        (record {
          journal = refl;
          outcomes = refl;
          seen = refl;
          accepted = refl;
          quarantined = refl;
        })
        (same_of_all (transaction_ids (accepted_events t)) (accepted_events t) (clear_projections t)
          t' h)
