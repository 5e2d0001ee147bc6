-- ===== src/Store/Process/References.antt =====
-- The foreign key of run_outcome across a call of `process` (ledgerflow/store.py).
use ledgerflow_payment_recon.Prelude.{
  ap, String, ◌≡◌, refl, sym, ◌∙◌, Bool, true, List, [], ◌∷◌, ◌++◌, Option, none, any, All,
  All-append, arith, ◌==◌, eq_String, Bool-cases, inl, inr,
}
use ledgerflow_payment_recon.Prelude.Result.{ok, >>=-eq-ok}
use ledgerflow_payment_recon.Contracts.{Platform}
use ledgerflow_payment_recon.Store.Tables.{
  Tables, JournalRow, OutcomeRow, RunStatus, StoreError, has_run, insert_outcome, succeeded,
}
use ledgerflow_payment_recon.Store.Ingest.{Counts}
use ledgerflow_payment_recon.Store.Project.Evidence.{rebuild_projections-SameEvidence}
use ledgerflow_payment_recon.Store.Process.{Run, sorted_counts, insert_outcomes, close_run, process}
use ledgerflow_payment_recon.Store.Process.Atomic.{opened, process-cases, process_of_known_run}
use ledgerflow_payment_recon.Store.Process.Balance.{transaction-Completed}
use ledgerflow_payment_recon.Store.Process.Outcomes.{OutcomesReferToRuns}
use ledgerflow_payment_recon.Store.Process.Reconciled.{ingest_all-SameRuns}

abbrev named_in : List JournalRow → String → Bool
named_in journal id = any (λ (r : JournalRow). r.run_id == id) journal

abbrev Refers : List JournalRow → List OutcomeRow → Type 0
Refers journal rows = All (λ (row : OutcomeRow). named_in journal row.run_id ≡ true) rows

Refers-grow :
    (journal more : List JournalRow) (rows : List OutcomeRow)
    → Refers journal rows
    → Refers (journal ++ more) rows
Refers-grow journal more [] h = tt
Refers-grow journal more (row ∷ rows) (h, hs) = (grown journal h, Refers-grow journal more rows hs)
  where
    grown :
        (j : List JournalRow)
        → named_in j row.run_id ≡ true
        → named_in (j ++ more) row.run_id ≡ true
    grown [] h = absurd (ground arith)
    grown (x ∷ j) h = ground (arith, grown j)

Refers-close_run :
    (id : String) (status : RunStatus) (now : String) (why : Option String)
    (journal : List JournalRow) (rows : List OutcomeRow)
    → Refers journal rows
    → Refers (close_run id status now why journal) rows
unfolding close_run
Refers-close_run id status now why journal [] h = tt
Refers-close_run id status now why journal (row ∷ rows) (h, hs) =
    (sym (same journal) ∙ h, Refers-close_run id status now why journal rows hs)
  where
    same :
        (j : List JournalRow)
        → named_in j row.run_id ≡ named_in (close_run id status now why j) row.run_id
    same [] = refl
    same (x ∷ j) = ground (arith, same j)

record Referred (row : OutcomeRow) (t t' : Tables) : Type 0 where
  known : named_in t.run_journal row.run_id ≡ true
  stored : t'.run_outcome ≡ t.run_outcome ++ row ∷ []
  journal : t'.run_journal ≡ t.run_journal

referred_lem : (row : OutcomeRow) (t t' : Tables) → insert_outcome row t ≡ ok t' → Referred row t t'
unfolding insert_outcome
referred_lem row t t' h = record {
  known = ground arith;
  stored = ground arith;
  journal = ground arith;
}

Refers-insert_outcomes :
    (run : String) (counts : Counts) (t t' : Tables)
    → insert_outcomes run counts t ≡ ok t'
    → Refers t.run_journal t.run_outcome
    → Refers t'.run_journal t'.run_outcome
unfolding insert_outcomes
Refers-insert_outcomes run [] t t' h r = let same : t ≡ t' = cc h in rw (← same) r
Refers-insert_outcomes run ((o, reason, n) ∷ rest) t t' h r =
    let row : OutcomeRow = record {
      run_id = run;
      outcome = o;
      reason = reason;
      record_count = n;
    } in
    let (mid, first, later) = >>=-eq-ok (insert_outcome row t) (insert_outcomes run rest) h in
    let i = referred_lem row t mid first in
    Refers-insert_outcomes run rest mid t' later (
      rw (i.journal, i.stored)
        (All-append (λ (x : OutcomeRow). named_in t.run_journal x.run_id ≡ true) t.run_outcome
          (row ∷ []) r (i.known, tt)))

-- If every outcome row refers to a run in the journal, the same holds after a call of process,
-- whether the call returns, raises or is refused.
pub process-OutcomesReferToRuns :
    (p : Platform) (describe : StoreError → String) (run : Run) (t : Tables)
    → OutcomesReferToRuns t
    → OutcomesReferToRuns (process p describe run t).0
process-OutcomesReferToRuns p describe run t r = elim (Bool-cases (has_run run.run_id t)) [
  | inl known ↦ rw (process_of_known_run p describe run t known) r
  | inr fresh ↦ elim (process-cases p describe run t fresh) [
    | inr (e, failing) ↦
        rw (ap (λ r. r.0) failing)
          (record { referenced = Refers-grow t.run_journal _ t.run_outcome r.referenced })
    | inl k ↦
        let t₂ = k.built in
        let c = transaction-Completed p run (opened run t) t₂ k.done in
        let ingested =
          ingest_all-SameRuns p run run.raw_events (opened run t) c.ingested [] c.counts c.ingest in
        let rebuilt =
          rebuild_projections-SameEvidence run.posting_rules c.ingested c.rebuilt c.rebuild in
        let before : Refers c.rebuilt.run_journal c.rebuilt.run_outcome =
          rw (rebuilt.journal ∙ ingested.journal, rebuilt.outcomes ∙ ingested.outcomes)
            (Refers-grow t.run_journal _ t.run_outcome r.referenced) in
        let after =
          Refers-insert_outcomes run.run_id (sorted_counts c.counts) c.rebuilt t₂ c.outcomes
            before in
        rw k.committed (record {
          referenced =
              Refers-close_run run.run_id succeeded run.completed_at none t₂.run_journal
                t₂.run_outcome after;
        })
  ]
]
