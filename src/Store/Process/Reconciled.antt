-- ===== src/Store/Process/Reconciled.antt =====
-- The summary of a call of `process` (ledgerflow/store.py) accounts for every record.
use ledgerflow_payment_recon.Prelude.{
  ℕ, ◌+◌, String, ◌≡◌, refl, ap, ◌∙◌, true, false, List, [], ◌∷◌, ◌++◌, length, arith, ◌==◌, eq_ℕ,
  nat_eq_iff,
}
use ledgerflow_payment_recon.Prelude.Int.{ℤ}
use ledgerflow_payment_recon.Prelude.Result.{Result, ok, >>=-eq-ok}
use ledgerflow_payment_recon.Json.{Fields}
use ledgerflow_payment_recon.Contracts.{Platform}
use ledgerflow_payment_recon.Store.Tables.{Tables, StoreError, has_run}
use ledgerflow_payment_recon.Store.Ingest.{Counts, increment, ingest_one}
use ledgerflow_payment_recon.Store.Ingest.Runs.{SameRuns, SameRuns-trans, ingest_one-SameRuns}
use ledgerflow_payment_recon.Store.Project.Evidence.{rebuild_projections-SameEvidence}
use ledgerflow_payment_recon.Store.Summary.{Summary, outcome_counts, summary_of}
use ledgerflow_payment_recon.Store.Process.{Run, ingest_all, sorted_counts, process}
use ledgerflow_payment_recon.Store.Process.Atomic.{opened, process_success}
use ledgerflow_payment_recon.Store.Process.Balance.{Completed, transaction-Completed}
use ledgerflow_payment_recon.Store.Process.Tally.{
  labels, count_of-sorted_counts, count_starting-sorted_counts,
}
use ledgerflow_payment_recon.Store.Process.Accounting.{
  Accounts, ingest_all-Accounts, Accounts-nil, raw_records, accepted_new, duplicates,
  quarantined_records,
}
use ledgerflow_payment_recon.Store.Process.Outcomes.{
  OutcomesReferToRuns, no_outcomes_yet, outcome_counts-insert_outcomes,
}

pub ingest_all-SameRuns :
    (p : Platform) (run : Run) (items : List (Result StoreError Fields)) (t t' : Tables)
    (c c' : Counts)
    → ingest_all p run items t c ≡ ok (t', c')
    → SameRuns t t'
unfolding ingest_all
ingest_all-SameRuns p run [] t t' c c' h = ground arith
ingest_all-SameRuns p run (item ∷ items) t t' c c' h =
    let (raw, _, later) = >>=-eq-ok item _ h in
    let ((t₁, c₁), one, rest) =
      >>=-eq-ok
        (ingest_one p run.run_id raw run.registry run.token_key t
          (increment "ARRIVAL" "raw_record_read" c))
        _ later in
    SameRuns-trans
      (ingest_one-SameRuns p run.run_id raw run.registry run.token_key t
        (increment "ARRIVAL" "raw_record_read" c) one)
      (ingest_all-SameRuns p run items t₁ t' c₁ c' rest)

-- The rows of a new run are its own counters.
outcomes_of_run :
    (p : Platform) (run : Run) (t t' : Tables) (c : Completed p run (opened run t) t')
    → OutcomesReferToRuns t
    → has_run run.run_id t ≡ false
    → outcome_counts run.run_id t'.run_outcome ≡ labels (sorted_counts c.counts)
outcomes_of_run p run t t' c known fresh =
    let ingested =
      ingest_all-SameRuns p run run.raw_events (opened run t) c.ingested [] c.counts c.ingest in
    let rebuilt =
      rebuild_projections-SameEvidence run.posting_rules c.ingested c.rebuilt c.rebuild in
    outcome_counts-insert_outcomes run.run_id (sorted_counts c.counts) c.rebuilt t' c.outcomes
    ∙ ap (λ rows. outcome_counts run.run_id rows ++ labels (sorted_counts c.counts))
        (rebuilt.outcomes ∙ ingested.outcomes)
    ∙ ap (λ l. l ++ labels (sorted_counts c.counts))
        (no_outcomes_yet run.run_id t t.run_outcome fresh known.referenced)

record Readings (s : Summary) (l : List (String × ℕ)) : Type 0 where
  raw : s.raw_records ≡ raw_records l
  accepted : s.accepted_new ≡ accepted_new l
  duplicate : s.duplicates ≡ duplicates l
  quarantined : s.quarantined ≡ quarantined_records l
  reconciled : s.raw_reconciled ≡ (s.raw_records == s.accepted_new + s.duplicates + s.quarantined)

summary-Readings :
    (p : Platform) (run : String) (t : Tables) (unbalanced : ℕ) (total : ℤ) (l : List (String × ℕ))
    → outcome_counts run t.run_outcome ≡ l
    → Readings (summary_of p run t unbalanced total) l
unfolding summary_of
summary-Readings p run t unbalanced total l e = rw (← e) (record {
  raw = refl;
  accepted = refl;
  duplicate = refl;
  quarantined = refl;
  reconciled = refl;
})

reconcile :
    (s : Summary) (c : Counts) (n : ℕ)
    → Readings s (labels (sorted_counts c))
    → Accounts (0 + n) c
    → (s.raw_records ≡ n)
      × (s.raw_records ≡ s.accepted_new + s.duplicates + s.quarantined)
      × (s.raw_reconciled ≡ true)
reconcile s c n r a =
    let raw = count_of-sorted_counts "ARRIVAL:raw_record_read" c a.tally in
    let acc = count_of-sorted_counts "ACCEPTED:contract_and_identity_passed" c a.tally in
    let dup = count_of-sorted_counts "DUPLICATE:exact_event_replay" c a.tally in
    let qua = count_starting-sorted_counts "QUARANTINED:" c in
    let total : s.raw_records ≡ s.accepted_new + s.duplicates + s.quarantined =
      omega (arith, r.raw, r.accepted, r.duplicate, r.quarantined, a.settled) in
    (
      omega (arith, r.raw, a.arrived),
      total,
      r.reconciled
          ∙ (nat_eq_iff s.raw_records (s.accepted_new + s.duplicates + s.quarantined)).1 total,
    )

-- A call of process under a new run id, on a store whose outcome rows refer to runs in its
-- journal, that returns has counted each of its input records once, as accepted, as an exact
-- duplicate or as quarantined, and its summary says that the raw records are reconciled.
pub process_reconciles :
    (p : Platform) (describe : StoreError → String) (run : Run) (t : Tables) (s : Summary)
    → OutcomesReferToRuns t
    → has_run run.run_id t ≡ false
    → (process p describe run t).1 ≡ ok s
    → (s.raw_records ≡ length run.raw_events)
      × (s.raw_records ≡ s.accepted_new + s.duplicates + s.quarantined)
      × (s.raw_reconciled ≡ true)
process_reconciles p describe run t s known fresh returned =
    let (k, reported) = process_success p describe run t s fresh returned in
    let c = transaction-Completed p run (opened run t) k.built k.done in
    let rows : outcome_counts run.run_id (process p describe run t).0.run_outcome
        ≡ labels (sorted_counts c.counts) =
      ap (λ u. outcome_counts run.run_id u.run_outcome) k.committed
      ∙ outcomes_of_run p run t k.built c known fresh in
    let r : Readings s (labels (sorted_counts c.counts)) = rw reported (
      summary-Readings p run.run_id (process p describe run t).0 _ _
        (labels (sorted_counts c.counts)) rows) in
    let a =
      ingest_all-Accounts p run run.raw_events 0 (opened run t) c.ingested [] c.counts Accounts-nil
        c.ingest in
    reconcile s c.counts (length run.raw_events) r a
