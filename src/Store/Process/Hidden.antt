-- ===== src/Store/Process/Hidden.antt =====
-- The quarantine table across a call of `process` (ledgerflow/store.py).
use ledgerflow_payment_recon.Prelude.{
  String, ◌≡◌, ap, ◌∙◌, List, [], ◌∷◌, arith, Bool-cases, inl, inr,
}
use ledgerflow_payment_recon.Prelude.Result.{Result, ok, >>=-eq-ok}
use ledgerflow_payment_recon.Json.{Fields}
use ledgerflow_payment_recon.Contracts.{Platform}
use ledgerflow_payment_recon.Store.Tables.{Tables, OutcomeRow, StoreError, has_run, insert_outcome}
use ledgerflow_payment_recon.Store.Ingest.{Counts, increment, ingest_one}
use ledgerflow_payment_recon.Store.Ingest.Hidden.{Hidden, Hidden-ingest_one}
use ledgerflow_payment_recon.Store.Project.Evidence.{rebuild_projections-SameEvidence}
use ledgerflow_payment_recon.Store.Process.{
  Run, ingest_all, sorted_counts, insert_outcomes, process,
}
use ledgerflow_payment_recon.Store.Process.Atomic.{opened, process-cases, process_of_known_run}
use ledgerflow_payment_recon.Store.Process.Balance.{Completed, transaction-Completed}

Hidden-ingest_all :
    (p : Platform) (run : Run) (items : List (Result StoreError Fields)) (t t' : Tables)
    (c c' : Counts)
    → ingest_all p run items t c ≡ ok (t', c')
    → Hidden p t
    → Hidden p t'
unfolding ingest_all
Hidden-ingest_all p run [] t t' c c' h hidden = let same : t ≡ t' = cc h in rw (← same) hidden
Hidden-ingest_all p run (item ∷ items) t t' c c' h hidden =
    let (raw, _, later) = >>=-eq-ok item _ h in
    let c₀ = increment "ARRIVAL" "raw_record_read" c in
    let ((t₁, c₁), one, rest) =
      >>=-eq-ok (ingest_one p run.run_id raw run.registry run.token_key t c₀) _ later in
    Hidden-ingest_all p run items t₁ t' c₁ c' rest
      (Hidden-ingest_one p run.run_id raw run.registry run.token_key t c₀ one hidden)

quarantine-insert_outcome :
    (row : OutcomeRow) (t t' : Tables) → insert_outcome row t ≡ ok t' → t'.quarantine ≡ t.quarantine
unfolding insert_outcome
quarantine-insert_outcome row t t' h = ground arith

quarantine-insert_outcomes :
    (run : String) (counts : Counts) (t t' : Tables)
    → insert_outcomes run counts t ≡ ok t'
    → t'.quarantine ≡ t.quarantine
unfolding insert_outcomes
quarantine-insert_outcomes run [] t t' h = ground arith
quarantine-insert_outcomes run ((o, r, n) ∷ rest) t t' h =
    let row : OutcomeRow = record { run_id = run; outcome = o; reason = r; record_count = n } in
    let (mid, first, later) = >>=-eq-ok (insert_outcome row t) (insert_outcomes run rest) h in
    quarantine-insert_outcomes run rest mid t' later ∙ quarantine-insert_outcome row t mid first

module _ (p : Platform) (describe : StoreError → String) (run : Run) (t : Tables)
    (hidden : Hidden p t) where
  committed_Hidden : (t₂ : Tables) → Completed p run (opened run t) t₂ → Hidden p t₂
  committed_Hidden t₂ c =
      let kept =
        rebuild_projections-SameEvidence run.posting_rules c.ingested c.rebuilt c.rebuild in
      rw
        (quarantine-insert_outcomes run.run_id (sorted_counts c.counts) c.rebuilt t₂ c.outcomes
          ∙ kept.quarantined)
        (Hidden-ingest_all p run run.raw_events (opened run t) c.ingested [] c.counts c.ingest
          hidden)

  -- Whether a call of process returns or raises, every quarantined payload is the JSON text of an
  -- object in which each prohibited key and customer_email, in any letter case and at any depth,
  -- has the redacted value, if that was so before the call.
  pub process-Hidden : Hidden p (process p describe run t).0
  process-Hidden = elim (Bool-cases (has_run run.run_id t)) [
    | inl known ↦ rw (process_of_known_run p describe run t known) hidden
    | inr fresh ↦ elim (process-cases p describe run t fresh) [
      | inl k ↦
          rw (ap (λ u. u.quarantine) k.committed)
            (committed_Hidden k.built (transaction-Completed p run (opened run t) k.built k.done))
      | inr (e, failing) ↦ rw (ap (λ r. r.0.quarantine) failing) hidden
    ]
  ]
