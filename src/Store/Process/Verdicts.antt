-- ===== src/Store/Process/Verdicts.antt =====
-- The verdicts on the transactions after a call of `process` (ledgerflow/store.py) that returns.
use mathlib.Core.Path.{subst}
use ledgerflow_payment_recon.Prelude.{String, ◌≡◌, refl, sym, ◌∙◌, false, [], ◌∷◌, map, none, arith}
use ledgerflow_payment_recon.Prelude.Result.{ok, >>=-eq-ok}
use ledgerflow_payment_recon.Contracts.{Platform}
use ledgerflow_payment_recon.Store.Tables.{
  Tables, AcceptedRow, succeeded, OutcomeRow, StoreError, has_run, insert_outcome,
}
use ledgerflow_payment_recon.Store.Ingest.{Counts}
use ledgerflow_payment_recon.Store.Project.{accepted_events}
use ledgerflow_payment_recon.Store.Project.States.{SameStates, Assessed, Assessed-SameStates}
use ledgerflow_payment_recon.Store.Project.Verdicts.{rebuild_projections-Assessed}
use ledgerflow_payment_recon.Store.Project.Evidence.{rebuild_projections-SameEvidence}
use ledgerflow_payment_recon.Store.Summary.{Summary}
use ledgerflow_payment_recon.Store.Process.{Run, sorted_counts, insert_outcomes, process, close_run}
use ledgerflow_payment_recon.Store.Process.Atomic.{opened, Committed, process_success}
use ledgerflow_payment_recon.Store.Process.Balance.{transaction-Completed}

-- What the rows of run_outcome leave alone.
record SameVerdicts (t t' : Tables) : Type 0 where
  accepted : t'.accepted_event ≡ t.accepted_event
  states : SameStates t t'

same_by_outcome :
    (row : OutcomeRow) (t t' : Tables) → insert_outcome row t ≡ ok t' → SameVerdicts t t'
unfolding insert_outcome
same_by_outcome row t t' h = record {
  accepted = ground arith;
  states = record { states = ground arith; exceptions = ground arith };
}

same_by_outcomes :
    (run : String) (counts : Counts) (t t' : Tables)
    → insert_outcomes run counts t ≡ ok t'
    → SameVerdicts t t'
unfolding insert_outcomes
same_by_outcomes run [] t t' h = record {
  accepted = ground arith;
  states = record { states = ground arith; exceptions = ground arith };
}
same_by_outcomes run ((o, r, n) ∷ rest) t t' h =
    let row : OutcomeRow = record { run_id = run; outcome = o; reason = r; record_count = n } in
    let (mid, first, later) = >>=-eq-ok (insert_outcome row t) (insert_outcomes run rest) h in
    let f = same_by_outcome row t mid first in
    let g = same_by_outcomes run rest mid t' later in
    record {
      accepted = g.accepted ∙ f.accepted;
      states = record {
        states = g.states.states ∙ f.states.states;
        exceptions = g.states.exceptions ∙ f.states.exceptions;
      };
    }

-- What a call commits has the verdicts of the assessment.
pub Committed-Assessed :
    (p : Platform) (describe : StoreError → String) (run : Run) (t : Tables)
    → Committed p describe run t
    → Assessed (accepted_events (process p describe run t).0) (process p describe run t).0
unfolding accepted_events
Committed-Assessed p describe run t k =
    let t₂ = k.built in
    let c = transaction-Completed p run (opened run t) t₂ k.done in
    let same = same_by_outcomes run.run_id (sorted_counts c.counts) c.rebuilt t₂ c.outcomes in
    let kept = rebuild_projections-SameEvidence run.posting_rules c.ingested c.rebuilt c.rebuild in
    let a =
      Assessed-SameStates (accepted_events c.ingested) c.rebuilt t₂ same.states
        (rebuild_projections-Assessed run.posting_rules c.ingested c.rebuilt c.rebuild) in
    let b : Assessed (accepted_events t₂) t₂ =
      subst (λ rows. Assessed (map (λ (r : AcceptedRow). r.event) rows) t₂)
        (sym (same.accepted ∙ kept.accepted)) a in
    let closed : Tables = record t₂ {
      run_journal = close_run run.run_id succeeded run.completed_at none t₂.run_journal;
    } in
    subst (λ u. Assessed (accepted_events u) u) (sym k.committed)
      (Assessed-SameStates (accepted_events t₂) t₂ closed
        (record { states = refl; exceptions = refl }) b)

-- After a call of process under a new run id that returns, each row of payment_state is the last
-- version, the sums and the status of a history of accepted events that starts with its one
-- authorization, has the versions 1, 2, ... in order, one currency, processor and merchant, a
-- capture as its second event if there is one, captures within the authorized amount and refunds
-- and chargebacks within the captured one; and each row of business_exception has the verdict on
-- the history of its transaction.
pub process-Assessed :
    (p : Platform) (describe : StoreError → String) (run : Run) (t : Tables) (s : Summary)
    → has_run run.run_id t ≡ false
    → (process p describe run t).1 ≡ ok s
    → Assessed (accepted_events (process p describe run t).0) (process p describe run t).0
process-Assessed p describe run t s fresh returned =
    Committed-Assessed p describe run t (process_success p describe run t s fresh returned).0
