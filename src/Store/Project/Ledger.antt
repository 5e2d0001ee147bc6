-- ===== src/Store/Project/Ledger.antt =====
-- Every rebuild of the projections in ledgerflow/store.py leaves a balanced ledger.
use ledgerflow_payment_recon.Prelude.{
  String, ◌≡◌, refl, sym, ap, ◌∙◌, List, [], ◌∷◌, ◌++◌, Option, none, some, arith, eq_String,
}
use mathlib.Core.List.{append-nil, append_assoc}
use ledgerflow_payment_recon.Prelude.Int.{pos, ◌+ℤ◌, +ℤ_zero, zero-+ℤ, +ℤ_assoc}
use ledgerflow_payment_recon.Prelude.Result.{ok, ◌>>=◌, >>=-eq-ok}
use ledgerflow_payment_recon.Contracts.{PaymentEvent}
use ledgerflow_payment_recon.Ledger.{PostingRules, PostingLine, build_postings}
use ledgerflow_payment_recon.Ledger.Rules.{IsBalancedRules}
use ledgerflow_payment_recon.Ledger.Balance.{posted_to, posted_total}
use ledgerflow_payment_recon.Ledger.Posting.{
  event_lines, build_postings-eq-ok, posted_to-event_lines, posted_total-event_lines,
}
use ledgerflow_payment_recon.Store.Lifecycle.{Reason, assess}
use ledgerflow_payment_recon.Store.Tables.{
  Tables, ExceptionRow, insert_exception, insert_posted, insert_entry, insert_state,
}
use ledgerflow_payment_recon.Store.Project.{
  insert_exceptions, insert_lines, postings_or_fail, insert_posted_if, post_event, post_events,
  last_event, insert_current, project_assessed, project_transaction, history, project_all,
  clear_projections, rebuild_projections, transaction_ids, accepted_events,
}

-- The lines sum to zero in total, and for each event and currency.
pub record IsBalanced (lines : List PostingLine) : Type 0 where
  pub total : posted_total lines ≡ pos 0
  pub groups : (e c : String) → posted_to e c lines ≡ pos 0

posted_to-append :
    (e c : String) (xs ys : List PostingLine)
    → posted_to e c (xs ++ ys) ≡ posted_to e c xs +ℤ posted_to e c ys
unfolding posted_to
posted_to-append e c [] ys = sym (zero-+ℤ (posted_to e c ys))
posted_to-append e c (x ∷ xs) ys = rw (posted_to-append e c xs ys, +ℤ_assoc)

posted_total-append :
    (xs ys : List PostingLine) → posted_total (xs ++ ys) ≡ posted_total xs +ℤ posted_total ys
unfolding posted_total
posted_total-append [] ys = sym (zero-+ℤ (posted_total ys))
posted_total-append (x ∷ xs) ys = rw (posted_total-append xs ys, +ℤ_assoc)

IsBalanced-append :
    (xs ys : List PostingLine) → IsBalanced xs → IsBalanced ys → IsBalanced (xs ++ ys)
IsBalanced-append xs ys h k = record {
  total = posted_total-append xs ys ∙ rw (h.total, k.total) (+ℤ_zero (pos 0));
  groups = λ e c. posted_to-append e c xs ys ∙ rw (h.groups e c, k.groups e c) (+ℤ_zero (pos 0));
}

-- What each INSERT does to the ledger.
ledger-insert_entry :
    (line : PostingLine) (t t' : Tables)
    → insert_entry line t ≡ ok t'
    → t'.ledger_entry ≡ t.ledger_entry ++ line ∷ []
unfolding insert_entry
ledger-insert_entry line t t' h = ground arith

ledger-insert_exception :
    (row : ExceptionRow) (t t' : Tables)
    → insert_exception row t ≡ ok t'
    → t'.ledger_entry ≡ t.ledger_entry
unfolding insert_exception
ledger-insert_exception row t t' h = ground arith

ledger-insert_lines :
    (lines : List PostingLine) (t t' : Tables)
    → insert_lines lines t ≡ ok t'
    → t'.ledger_entry ≡ t.ledger_entry ++ lines
unfolding insert_lines
ledger-insert_lines [] t t' h = ground (arith, append-nil t.ledger_entry)
ledger-insert_lines (line ∷ lines) t t' h =
    let (mid, first, rest) = >>=-eq-ok (insert_entry line t) (insert_lines lines) h in
    ledger-insert_lines lines mid t' rest
    ∙ ap (λ l. l ++ lines) (ledger-insert_entry line t mid first)
    ∙ append_assoc t.ledger_entry (line ∷ []) lines

ledger-insert_posted_if :
    (lines : List PostingLine) (e : PaymentEvent) (t t' : Tables)
    → insert_posted_if lines e t ≡ ok t'
    → t'.ledger_entry ≡ t.ledger_entry
unfolding insert_posted_if insert_posted
ledger-insert_posted_if [] e t t' h = ground arith
ledger-insert_posted_if (line ∷ lines) e t t' h = ground arith

ledger-insert_exceptions :
    (reason : Reason) (es : List PaymentEvent) (t t' : Tables)
    → insert_exceptions reason es t ≡ ok t'
    → t'.ledger_entry ≡ t.ledger_entry
unfolding insert_exceptions
ledger-insert_exceptions reason [] t t' h = ground arith
ledger-insert_exceptions reason (e ∷ es) t t' h =
    let row : ExceptionRow = record {
      event_id = e.event_id;
      transaction_id = e.transaction_id;
      reason = reason;
    } in
    let (mid, first, rest) = >>=-eq-ok (insert_exception row t) (insert_exceptions reason es) h in
    ledger-insert_exceptions reason es mid t' rest ∙ ledger-insert_exception row t mid first

ledger-insert_current :
    (e : PaymentEvent) (es : List PaymentEvent) (t t' : Tables)
    → insert_current e es t ≡ ok t'
    → t'.ledger_entry ≡ t.ledger_entry
unfolding insert_current insert_state
ledger-insert_current e es t t' h = ground arith

-- Under balanced rules each step keeps the ledger balanced.
abbrev LedgerIsBalanced : Tables → Type 0
LedgerIsBalanced t = IsBalanced t.ledger_entry

module _ (rules : PostingRules) (balanced : IsBalancedRules rules) where
  post_event-IsBalanced :
      (e : PaymentEvent) (t t' : Tables)
      → post_event e rules t ≡ ok t'
      → LedgerIsBalanced t
      → LedgerIsBalanced t'
  unfolding post_event postings_or_fail
  post_event-IsBalanced e t t' h b =
      let lines = event_lines e rules in
      let built : postings_or_fail (build_postings e rules) ≡ ok lines =
        rw (build_postings-eq-ok e rules balanced) refl in
      let posted : (insert_posted_if lines e t >>= insert_lines lines) ≡ ok t' = rw built at h in
      let (mid, first, rest) = >>=-eq-ok (insert_posted_if lines e t) (insert_lines lines) posted in
      let grown : t'.ledger_entry ≡ t.ledger_entry ++ lines =
        ledger-insert_lines lines mid t' rest
        ∙ ap (λ l. l ++ lines) (ledger-insert_posted_if lines e t mid first) in
      rw grown (
        IsBalanced-append t.ledger_entry lines b (record {
          total = posted_total-event_lines e rules balanced;
          groups = posted_to-event_lines e rules balanced;
        }))

  post_events-IsBalanced :
      (es : List PaymentEvent) (t t' : Tables)
      → post_events es rules t ≡ ok t'
      → LedgerIsBalanced t
      → LedgerIsBalanced t'
  unfolding post_events
  post_events-IsBalanced [] t t' h b = ground (arith, b)
  post_events-IsBalanced (e ∷ es) t t' h b =
      let (mid, first, rest) = >>=-eq-ok (post_event e rules t) (post_events es rules) h in
      post_events-IsBalanced es mid t' rest (post_event-IsBalanced e t mid first b)

  project_assessed-IsBalanced :
      (verdict : Option Reason) (e : PaymentEvent) (es : List PaymentEvent) (t t' : Tables)
      → project_assessed verdict e es rules t ≡ ok t'
      → LedgerIsBalanced t
      → LedgerIsBalanced t'
  unfolding project_assessed
  project_assessed-IsBalanced (some reason) e es t t' h b =
      rw (ledger-insert_exceptions reason (e ∷ es) t t' h) b
  project_assessed-IsBalanced none e es t t' h b =
      let (mid, first, rest) =
        >>=-eq-ok (post_events (e ∷ es) rules t) (insert_current (last_event e es) (e ∷ es)) h in
      rw (ledger-insert_current (last_event e es) (e ∷ es) mid t' rest)
        (post_events-IsBalanced (e ∷ es) t mid first b)

  project_transaction-IsBalanced :
      (es : List PaymentEvent) (t t' : Tables)
      → project_transaction es rules t ≡ ok t'
      → LedgerIsBalanced t
      → LedgerIsBalanced t'
  unfolding project_transaction
  project_transaction-IsBalanced [] t t' h b = ground (arith, b)
  project_transaction-IsBalanced (e ∷ es) t t' h b =
      project_assessed-IsBalanced (assess (e ∷ es)) e es t t' h b

  project_all-IsBalanced :
      (ids : List String) (events : List PaymentEvent) (t t' : Tables)
      → project_all ids events rules t ≡ ok t'
      → LedgerIsBalanced t
      → LedgerIsBalanced t'
  unfolding project_all
  project_all-IsBalanced [] events t t' h b = ground (arith, b)
  project_all-IsBalanced (id ∷ ids) events t t' h b =
      let (mid, first, rest) =
        >>=-eq-ok (project_transaction (history id events) rules t) (project_all ids events rules)
          h in
      project_all-IsBalanced ids events mid t' rest
        (project_transaction-IsBalanced (history id events) t mid first b)

  -- Whatever was in the projections, a rebuild that returns leaves a balanced ledger.
  pub rebuild_projections-IsBalanced :
      (t t' : Tables) → rebuild_projections rules t ≡ ok t' → IsBalanced t'.ledger_entry
  unfolding rebuild_projections clear_projections
  rebuild_projections-IsBalanced t t' h =
      project_all-IsBalanced (transaction_ids (accepted_events t)) (accepted_events t)
        (clear_projections t) t' h
        (unfold posted_total posted_to in record { total = refl; groups = λ e c. refl })
