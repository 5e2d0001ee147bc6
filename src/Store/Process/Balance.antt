-- ===== src/Store/Process/Balance.antt =====
-- The ledger after a call of `process` (ledgerflow/store.py) that returns.
use ledgerflow_payment_recon.Prelude.{
  String, ◌≡◌, ap, ◌∙◌, true, false, [], ◌∷◌, arith, eq_String, eq_ℕ,
}
use ledgerflow_payment_recon.Prelude.Int.{eq_ℤ}
use ledgerflow_payment_recon.Prelude.Result.{ok, >>=-eq-ok}
use ledgerflow_payment_recon.Contracts.{Platform}
use ledgerflow_payment_recon.Ledger.Rules.{IsBalancedRules}
use ledgerflow_payment_recon.Ledger.Balance.{posted_total, unbalanced-eq-nil}
use ledgerflow_payment_recon.Store.Tables.{Tables, OutcomeRow, StoreError, has_run, insert_outcome}
use ledgerflow_payment_recon.Store.Ingest.{Counts}
use ledgerflow_payment_recon.Store.Project.{rebuild_projections}
use ledgerflow_payment_recon.Store.Project.Ledger.{IsBalanced, rebuild_projections-IsBalanced}
use ledgerflow_payment_recon.Store.Summary.{Summary, summary_of}
use ledgerflow_payment_recon.Store.Summary.Sums.{unbalanced_count}
use ledgerflow_payment_recon.Store.Process.{
  Run, sorted_counts, insert_outcomes, ingest_all, fail_at, transaction, process,
}
use ledgerflow_payment_recon.Store.Process.Atomic.{opened, Committed, process_success}

ledger-insert_outcome :
    (row : OutcomeRow) (t t' : Tables)
    → insert_outcome row t ≡ ok t'
    → t'.ledger_entry ≡ t.ledger_entry
unfolding insert_outcome
ledger-insert_outcome row t t' h = ground arith

ledger-insert_outcomes :
    (run : String) (counts : Counts) (t t' : Tables)
    → insert_outcomes run counts t ≡ ok t'
    → t'.ledger_entry ≡ t.ledger_entry
unfolding insert_outcomes
ledger-insert_outcomes run [] t t' h = ground arith
ledger-insert_outcomes run ((o, r, n) ∷ rest) t t' h =
    let row : OutcomeRow = record { run_id = run; outcome = o; reason = r; record_count = n } in
    let (mid, first, later) = >>=-eq-ok (insert_outcome row t) (insert_outcomes run rest) h in
    ledger-insert_outcomes run rest mid t' later ∙ ledger-insert_outcome row t mid first

-- The parts of a transaction that went through.
pub record Completed (p : Platform) (run : Run) (t t' : Tables) : Type 0 where
  pub ingested : Tables
  pub counts : Counts
  pub rebuilt : Tables
  pub ingest : ingest_all p run run.raw_events t [] ≡ ok (ingested, counts)
  pub rebuild : rebuild_projections run.posting_rules ingested ≡ ok rebuilt
  pub outcomes : insert_outcomes run.run_id (sorted_counts counts) rebuilt ≡ ok t'

pub transaction-Completed :
    (p : Platform) (run : Run) (t t' : Tables) → transaction p run t ≡ ok t' → Completed p run t t'
unfolding transaction
transaction-Completed p run t t' h =
    let ((t₁, counts), first, later) = >>=-eq-ok (ingest_all p run run.raw_events t []) _ h in
    let (_, _, later₂) = >>=-eq-ok (fail_at "after_identity_gate" run.failpoint) _ later in
    let (t₂, second, later₃) = >>=-eq-ok (rebuild_projections run.posting_rules t₁) _ later₂ in
    let (_, _, last) = >>=-eq-ok (fail_at "before_commit" run.failpoint) _ later₃ in
    record {
      ingested = t₁;
      counts = counts;
      rebuilt = t₂;
      ingest = first;
      rebuild = second;
      outcomes = last;
    }

summary_of_balanced :
    (p : Platform) (run : String) (t : Tables)
    → IsBalanced t.ledger_entry
    → Summary.ledger_balanced
        (summary_of p run t (unbalanced_count t.ledger_entry) (posted_total t.ledger_entry))
      ≡ true
unfolding summary_of
summary_of_balanced p run t b = rw (unbalanced-eq-nil t.ledger_entry b.groups, b.total)

-- What a call commits is balanced, whether its summary is returned or raises.
pub Committed-IsBalanced :
    (p : Platform) (describe : StoreError → String) (run : Run) (t : Tables)
    → IsBalancedRules run.posting_rules
    → Committed p describe run t
    → IsBalanced (process p describe run t).0.ledger_entry
Committed-IsBalanced p describe run t rules k =
    let c = transaction-Completed p run (opened run t) k.built k.done in
    rw
      (ap (λ u. u.ledger_entry) k.committed
        ∙ ledger-insert_outcomes run.run_id (sorted_counts c.counts) c.rebuilt k.built c.outcomes)
      (rebuild_projections-IsBalanced run.posting_rules rules c.ingested c.rebuilt c.rebuild)

-- A call of process under a new run id that returns, with posting rules that balance for each
-- kind of event, leaves a ledger whose lines sum to zero in total and for each event and
-- currency, and its summary says so.
pub process-IsBalanced :
    (p : Platform) (describe : StoreError → String) (run : Run) (t : Tables) (s : Summary)
    → IsBalancedRules run.posting_rules
    → has_run run.run_id t ≡ false
    → (process p describe run t).1 ≡ ok s
    → IsBalanced (process p describe run t).0.ledger_entry × (s.ledger_balanced ≡ true)
process-IsBalanced p describe run t s rules fresh returned =
    let (k, reported) = process_success p describe run t s fresh returned in
    let b = Committed-IsBalanced p describe run t rules k in
    (b, rw reported (summary_of_balanced p run.run_id (process p describe run t).0 b))
