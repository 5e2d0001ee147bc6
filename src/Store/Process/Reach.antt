-- ===== src/Store/Process/Reach.antt =====
-- The store after any sequence of calls of `process` (ledgerflow/store.py) since its tables were
-- created: calls that return, calls that raise, and calls under a run id that is known.
use ledgerflow_payment_recon.Prelude.{ap, String, ◌≡◌, refl, [], Bool-cases, inl, inr}
use ledgerflow_payment_recon.Prelude.Result.{err}
use ledgerflow_payment_recon.Contracts.{Platform}
use ledgerflow_payment_recon.Store.Project.Ledger.{IsBalanced}
use ledgerflow_payment_recon.Ledger.Balance.{posted_to, posted_total}
use ledgerflow_payment_recon.Ledger.Rules.{IsBalancedRules}
use ledgerflow_payment_recon.Store.Tables.{Tables, StoreError, has_run}
use ledgerflow_payment_recon.Store.Ingest.Hidden.{Hidden}
use ledgerflow_payment_recon.Store.Project.{accepted_events}
use ledgerflow_payment_recon.Store.Project.States.{Assessed}
use ledgerflow_payment_recon.Store.Process.{Run, process}
use ledgerflow_payment_recon.Store.Process.Atomic.{rolled_back, process-cases, process_of_known_run}
use ledgerflow_payment_recon.Store.Process.Balance.{Committed-IsBalanced}
use ledgerflow_payment_recon.Store.Process.Hidden.{process-Hidden}
use ledgerflow_payment_recon.Store.Process.Outcomes.{OutcomesReferToRuns}
use ledgerflow_payment_recon.Store.Process.References.{process-OutcomesReferToRuns}
use ledgerflow_payment_recon.Store.Process.Verdicts.{Committed-Assessed}

-- The tables that SCHEMA creates.
abbrev pub created : Tables
created = record {
  run_journal = [];
  run_outcome = [];
  seen_event = [];
  accepted_event = [];
  quarantine = [];
  business_exception = [];
  posted_event = [];
  ledger_entry = [];
  payment_state = [];
  settlement_actual = [];
  settlement_exception = [];
}

module _ (p : Platform) (describe : StoreError → String) where
  -- Each call has rules that balance, as those that `load_posting_rules` accepts do.
  pub data Processed : Tables → Type 0 where
    start : Processed created
    call :
        (run : Run) {t : Tables}
        → IsBalancedRules run.posting_rules
        → Processed t
        → Processed (process p describe run t).0

  pub record IsSound (t : Tables) : Type 0 where
    pub hidden : Hidden p t
    pub referring : OutcomesReferToRuns t
    pub balanced : IsBalanced t.ledger_entry
    pub assessed : Assessed (accepted_events t) t

  -- Only the journal of a call that fails is new.
  rolled_back-Assessed :
      (run : Run) (t : Tables) (e : StoreError)
      → process p describe run t ≡ (rolled_back p describe run t e, err e)
      → Assessed (accepted_events t) t
      → Assessed (accepted_events (process p describe run t).0) (process p describe run t).0
  unfolding accepted_events
  rolled_back-Assessed run t e failing a =
      rw (ap (λ r. r.0) failing) (record { current = a.current; rejected = a.rejected })

  process-IsSound :
      (run : Run) (t : Tables)
      → IsBalancedRules run.posting_rules
      → IsSound t
      → IsSound (process p describe run t).0
  process-IsSound run t rules s = record {
    hidden = process-Hidden p describe run t s.hidden;
    referring = process-OutcomesReferToRuns p describe run t s.referring;
    balanced = elim (Bool-cases (has_run run.run_id t)) [
      | inl known ↦ rw (process_of_known_run p describe run t known) s.balanced
      | inr fresh ↦ elim (process-cases p describe run t fresh) [
        | inl k ↦ Committed-IsBalanced p describe run t rules k
        | inr (e, failing) ↦ rw (ap (λ r. r.0.ledger_entry) failing) s.balanced
      ]
    ];
    assessed = elim (Bool-cases (has_run run.run_id t)) [
      | inl known ↦ rw (process_of_known_run p describe run t known) s.assessed
      | inr fresh ↦ elim (process-cases p describe run t fresh) [
        | inl k ↦ Committed-Assessed p describe run t k
        | inr (e, failing) ↦ rolled_back-Assessed run t e failing s.assessed
      ]
    ];
  }

  created-IsSound : IsSound created
  unfolding posted_total posted_to
  created-IsSound = record {
    hidden = tt;
    referring = record { referenced = tt };
    balanced = record { total = refl; groups = λ _ _. refl };
    assessed = record { current = tt; rejected = tt };
  }

  -- After any sequence of calls of process on a new store, each with rules that balance for each
  -- kind of event, and each of which returns, raises or is refused since its run id is known: in
  -- every quarantined payload each prohibited key and customer_email has the redacted value,
  -- every outcome refers to a run of the journal, the ledger sums to zero in total and for each
  -- event and currency, each payment state has the version, the sums and the status of a history
  -- of accepted events, and each business exception has the reason that the assessment of the
  -- accepted events gives.
  pub Processed-IsSound : (t : Tables) → Processed t → IsSound t
  Processed-IsSound t start = created-IsSound
  Processed-IsSound _ (call run {t} rules before) =
      process-IsSound run t rules (Processed-IsSound t before)
