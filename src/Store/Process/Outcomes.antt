-- ===== src/Store/Process/Outcomes.antt =====
-- The rows of run_outcome that `process` of ledgerflow/store.py writes and `summary` reads.
use mathlib.Core.List.{append-nil, append_assoc}
use ledgerflow_payment_recon.Prelude.{
  ℕ, String, ◌≡◌, refl, ap, ◌∙◌, true, false, List, [], ◌∷◌, ◌++◌, All, arith, ◌==◌, eq_String,
  eq_ℕ, eq_iff, Bool-cases, inl, inr,
}
use ledgerflow_payment_recon.Prelude.Result.{ok, >>=-eq-ok}
use ledgerflow_payment_recon.Store.Tables.{Tables, OutcomeRow, has_run, insert_outcome}
use ledgerflow_payment_recon.Store.Ingest.{Counts}
use ledgerflow_payment_recon.Store.Summary.{outcome_counts}
use ledgerflow_payment_recon.Store.Process.{insert_outcomes}
use ledgerflow_payment_recon.Store.Process.Tally.{label, labels}

-- The rows that `insert_outcomes` writes are what `outcome_counts` reads back.
outcome_counts-insert_outcome :
    (run o r : String) (n : ℕ) (t t' : Tables)
    → insert_outcome (record { run_id = run; outcome = o; reason = r; record_count = n }) t ≡ ok t'
    → t'.run_outcome
      ≡ t.run_outcome ++ record { run_id = run; outcome = o; reason = r; record_count = n } ∷ []
unfolding insert_outcome
outcome_counts-insert_outcome run o r n t t' h = ground arith

outcome_counts-append :
    (run o r : String) (n : ℕ) (rows : List OutcomeRow)
    → outcome_counts run
        (rows ++ record { run_id = run; outcome = o; reason = r; record_count = n } ∷ [])
      ≡ outcome_counts run rows ++ (label o r, n) ∷ []
unfolding outcome_counts
outcome_counts-append run o r n [] = ground (arith, eq_iff run run)
outcome_counts-append run o r n (row ∷ rows) = ground (arith, outcome_counts-append run o r n rows)

pub outcome_counts-insert_outcomes :
    (run : String) (c : Counts) (t t' : Tables)
    → insert_outcomes run c t ≡ ok t'
    → outcome_counts run t'.run_outcome ≡ outcome_counts run t.run_outcome ++ labels c
unfolding insert_outcomes
outcome_counts-insert_outcomes run [] t t' h =
    ground (arith, append-nil (outcome_counts run t.run_outcome))
outcome_counts-insert_outcomes run ((o, r, n) ∷ rest) t t' h =
    let row : OutcomeRow = record { run_id = run; outcome = o; reason = r; record_count = n } in
    let (mid, first, later) = >>=-eq-ok (insert_outcome row t) (insert_outcomes run rest) h in
    outcome_counts-insert_outcomes run rest mid t' later
    ∙ ap (λ l. outcome_counts run l ++ labels rest)
        (outcome_counts-insert_outcome run o r n t mid first)
    ∙ ap (λ l. l ++ labels rest) (outcome_counts-append run o r n t.run_outcome)
    ∙ append_assoc (outcome_counts run t.run_outcome) ((label o r, n) ∷ []) (labels rest)

-- Every outcome row refers to a run in the journal: the foreign key of `run_outcome`.
pub record OutcomesReferToRuns (t : Tables) : Type 0 where
  pub referenced : All (λ (row : OutcomeRow). has_run row.run_id t ≡ true) t.run_outcome

pub no_outcomes_yet :
    (run : String) (t : Tables) (rows : List OutcomeRow)
    → has_run run t ≡ false
    → All (λ (row : OutcomeRow). has_run row.run_id t ≡ true) rows
    → outcome_counts run rows ≡ []
unfolding outcome_counts
no_outcomes_yet run t [] fresh h = refl
no_outcomes_yet run t (row ∷ rows) fresh (known, h) = elim (Bool-cases (row.run_id == run)) [
  | inl same ↦
      let e : row.run_id ≡ run = (eq_iff row.run_id run).0 same in
      absurd (ground (arith, ap (λ x. has_run x t) e))
  | inr other ↦ rw other (no_outcomes_yet run t rows fresh h)
]
