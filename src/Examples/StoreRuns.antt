-- ===== src/Examples/StoreRuns.antt =====
-- Runs of ledgerflow/store.py at concrete inputs.
use ledgerflow_payment_recon.Prelude.{
  String, ◌^◌, ◌-◌, [], ◌∷◌, ◌≡◌, ◌⊎◌, refl, none, some, ◌+◌, true,
}
use ledgerflow_payment_recon.Prelude.Result.{Result, ok, err}
use ledgerflow_payment_recon.Ledger.Config.{config_rules-IsBalancedRules}
use ledgerflow_payment_recon.Store.Tables.{
  Tables, StoreError, injected_failure, sum_overflow, unique_failed, has_run,
}
use ledgerflow_payment_recon.Store.Summary.{Summary, summary_of, summary}
use ledgerflow_payment_recon.Prelude.Int.{ℤ, pos, negsuc}
use ledgerflow_payment_recon.Ledger.{PostingLine}
use ledgerflow_payment_recon.Store.Process.{Run, process}
use ledgerflow_payment_recon.Store.Process.Atomic.{
  rolled_back, Committed, process_atomic, process_of_known_run,
}
use ledgerflow_payment_recon.Store.Process.Outcomes.{OutcomesReferToRuns}
use ledgerflow_payment_recon.Store.Process.Balance.{process-IsBalanced}
use ledgerflow_payment_recon.Store.Process.Reconciled.{process_reconciles}
use ledgerflow_payment_recon.Store.Process.Verdicts.{process-Assessed}
use ledgerflow_payment_recon.Store.Project.{accepted_events}
use ledgerflow_payment_recon.Store.Project.States.{Assessed}
use ledgerflow_payment_recon.Store.Project.Ledger.{IsBalanced}
use ledgerflow_payment_recon.Store.Process.Reach.{created, start, call, IsSound, Processed-IsSound}
use ledgerflow_payment_recon.Examples.Opened.{store_core}
use ledgerflow_payment_recon.Examples.Fixtures.{platform, batch, run_of, empty_store, describe}

abbrev first_run : Tables × Result StoreError Summary
first_run = process platform describe (run_of "r1" batch none) empty_store

-- The summary of that run: five records, of which two are accepted, one is a replay and two are
-- quarantined.
abbrev first_summary : Summary
first_summary = summary_of platform "r1" first_run.0 0 (pos 0)

first_returns : first_run.1 ≡ ok first_summary
unfolding store_core
first_returns = refl

counted : (first_summary.raw_records ≡ 5) × (first_summary.quarantined ≡ 2)
unfolding store_core
counted = (refl, refl)

empty_refers : OutcomesReferToRuns empty_store
empty_refers = record { referenced = tt }

process_reconciles_example :
    (first_summary.raw_records ≡ 5)
    × (first_summary.raw_records
        ≡ first_summary.accepted_new + first_summary.duplicates + first_summary.quarantined)
    × (first_summary.raw_reconciled ≡ true)
process_reconciles_example =
    process_reconciles platform describe (run_of "r1" batch none) empty_store first_summary
      empty_refers refl first_returns

process-IsBalanced_example :
    IsBalanced first_run.0.ledger_entry × (first_summary.ledger_balanced ≡ true)
process-IsBalanced_example =
    process-IsBalanced platform describe (run_of "r1" batch none) empty_store first_summary
      config_rules-IsBalancedRules refl first_returns

journal_knows : has_run "r1" first_run.0 ≡ true
unfolding store_core
journal_knows = refl

process-Assessed_example : Assessed (accepted_events first_run.0) first_run.0
process-Assessed_example =
    process-Assessed platform describe (run_of "r1" batch none) empty_store first_summary refl
      first_returns

-- The same run again is refused.
process_of_known_run_example :
    process platform describe (run_of "r1" batch none) first_run.0
    ≡ (first_run.0, err (unique_failed "run_journal"))
process_of_known_run_example =
    process_of_known_run platform describe (run_of "r1" batch none) first_run.0 journal_knows

abbrev crash : Run
crash = run_of "r2" batch (some "before_commit")

crash_raises :
    (process platform describe crash empty_store).1 ≡ err (injected_failure "before_commit")
unfolding store_core
crash_raises = refl

process_atomic_example :
    ((process platform describe crash empty_store).0
      ≡ rolled_back platform describe crash empty_store (injected_failure "before_commit"))
    ⊎ (Committed platform describe crash empty_store
        × (injected_failure "before_commit" ≡ sum_overflow))
process_atomic_example =
    process_atomic platform describe crash empty_store (injected_failure "before_commit") refl
      crash_raises

-- The lines sum to zero, but their partial sums do not stay 64-bit integers.
abbrev far_line : String → ℤ → PostingLine
far_line id amount = record {
  entry_id = id;
  event_id = "e1";
  transaction_id = "t1";
  processor_id = "p1";
  merchant_id = "m1";
  currency = "USD";
  account = "a";
  signed_minor = amount;
  posting_rule_version = 1;
}

sums_overflow :
    summary platform "r1" (record empty_store {
      ledger_entry =
          far_line "x" (pos (2 ^ 62))
          ∷ far_line "y" (pos (2 ^ 62))
          ∷ far_line "z" (negsuc (2 ^ 63 - 1))
          ∷ [];
    })
    ≡ err sum_overflow
unfolding store_core
sums_overflow = refl

-- A run that returns and then a run that raises, from the tables of a new store.
abbrev then_crashed : Tables
then_crashed =
    (process platform describe crash
      (process platform describe (run_of "r1" batch none) created).0).0

Processed-IsSound_example : IsSound platform describe then_crashed
Processed-IsSound_example = Processed-IsSound platform describe then_crashed (
    call crash config_rules-IsBalancedRules
      (call (run_of "r1" batch none) config_rules-IsBalancedRules start))
