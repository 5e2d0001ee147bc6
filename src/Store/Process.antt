-- ===== src/Store/Process.antt =====
-- `LedgerStore.process` of ledgerflow/store.py. A call returns the tables that are
-- committed when it ends, and its result or the error that it raises.
pub mod Atomic
pub mod Balance
pub mod Tally
pub mod Accounting
pub mod Outcomes
pub mod References
pub mod Reconciled
pub mod Verdicts
pub mod Hidden
pub mod Reach
use ledgerflow_payment_recon.Prelude.{
  ℕ, String, List, [], ◌∷◌, Option, none, some, ◌==◌, eq_String, eq_ℕ, if◌then◌else◌,
}
use ledgerflow_payment_recon.Prelude.Int.{eq_ℤ}
use ledgerflow_payment_recon.Prelude.Order.{sort_by, order_String, order_pair}
use ledgerflow_payment_recon.Prelude.Result.{Result, ok, err, raise_if, ◌>>=◌, ◌>>◌}
use ledgerflow_payment_recon.Json.{Fields}
use ledgerflow_payment_recon.Contracts.{Platform, Registry}
use ledgerflow_payment_recon.Ledger.{PostingRules}
use ledgerflow_payment_recon.Store.Tables.{
  Tables, JournalRow, RunStatus, started, succeeded, failed, StoreError, injected_failure,
  insert_journal, insert_outcome,
}
use ledgerflow_payment_recon.Store.Ingest.{Counts, increment, ingest_one}
use ledgerflow_payment_recon.Store.Summary.{Summary, summary}
use ledgerflow_payment_recon.Store.Project.{rebuild_projections}

-- What a caller gives to `process`. The items of `raw_events` are what its iterator yields, or the
-- error that it raises; `now` is what the clock shows at the start and at the end.
pub record Run : Type 0 where
  pub run_id : String
  pub input_sha256 : String
  pub raw_events : List (Result StoreError Fields)
  pub registry : Registry
  pub token_key : List ℕ
  pub posting_rules : PostingRules
  pub failpoint : Option String
  pub started_at : String
  pub completed_at : String

-- `counts.items()` in the order of their keys.
unfoldable pub sorted_counts : Counts → Counts
sorted_counts counts = sort_by {K = String × String} (λ c. (c.0, c.1)) counts

unfoldable pub insert_outcomes : String → Counts → Tables → Result StoreError Tables
insert_outcomes run [] t = ok t
insert_outcomes run ((outcome, reason, n) ∷ rest) t = do
  t' ←
      insert_outcome (record { run_id = run; outcome = outcome; reason = reason; record_count = n })
        t
  insert_outcomes run rest t'

fail_at : String → Option String → Result StoreError (Unit {0})
fail_at point none = ok tt
fail_at point (some name) = raise_if (name == point) (injected_failure point)

-- UPDATE run_journal SET ... WHERE run_id=?
unfoldable pub close_run :
    String → RunStatus → String → Option String → List JournalRow → List JournalRow
close_run run status now why [] = []
close_run run status now why (row ∷ rows) =
    (if row.run_id == run
      then record row { status = status; completed_at = some now; failure_reason = why }
      else row)
    ∷ close_run run status now why rows

module _ (p : Platform) where
  unfoldable pub ingest_all :
      Run → List (Result StoreError Fields) → Tables → Counts → Result StoreError (Tables × Counts)
  ingest_all run [] t counts = ok (t, counts)
  ingest_all run (item ∷ items) t counts = do
    raw ← item
    (t', counts') ←
        ingest_one p run.run_id raw run.registry run.token_key t
          (increment "ARRIVAL" "raw_record_read" counts)
    ingest_all run items t' counts'

  -- The statements between BEGIN IMMEDIATE and COMMIT.
  unfoldable pub transaction : Run → Tables → Result StoreError Tables
  unfolding fail_at
  transaction run t = do
    (t₁, counts) ← ingest_all run run.raw_events t []
    fail_at "after_identity_gate" run.failpoint
    t₂ ← rebuild_projections run.posting_rules t₁
    fail_at "before_commit" run.failpoint
    insert_outcomes run.run_id (sorted_counts counts) t₂

  module _ (describe : StoreError → String) where
    unfoldable pub finish :
        Run → Tables → Result StoreError Tables → Tables × Result StoreError Summary
    finish run opened (ok t) =
        let closed = record t {
          run_journal = close_run run.run_id succeeded run.completed_at none t.run_journal;
        } in
        (closed, summary p run.run_id closed)
    finish run opened (err e) = (
      record opened {
        run_journal =
            close_run run.run_id failed run.completed_at (some (describe e)) opened.run_journal;
      },
      err e,
    )

    unfoldable pub journalled :
        Run → Tables → Result StoreError Tables → Tables × Result StoreError Summary
    journalled run t (ok opened) = finish run opened (transaction run opened)
    journalled run t (err e) = (t, err e)

    unfoldable pub process : Run → Tables → Tables × Result StoreError Summary
    process run t = journalled run t (
        insert_journal
          (record {
            run_id = run.run_id;
            input_sha256 = run.input_sha256;
            status = started;
            started_at = run.started_at;
            completed_at = none;
            failure_reason = none;
          })
          t)
