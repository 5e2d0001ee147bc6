-- ===== src/Store/Process/Atomic.antt =====
-- What a failed call of `process` (ledgerflow/store.py) leaves behind.
use ledgerflow_payment_recon.Prelude.{
  String, ◌≡◌, ◌⊎◌, refl, sym, ap, ◌∙◌, true, false, List, [], ◌∷◌, ◌++◌, Option, none, some, any,
  arith, ◌==◌, eq_String, eq_iff, inl, inr,
}
use ledgerflow_payment_recon.Prelude.Result.{ok, err, Result-cases}
use ledgerflow_payment_recon.Contracts.{Platform}
use ledgerflow_payment_recon.Store.Tables.{
  Tables, JournalRow, RunStatus, started, succeeded, failed, StoreError, unique_failed,
  sum_overflow, has_run, insert_journal,
}
use ledgerflow_payment_recon.Store.Summary.{Summary, summary_of, summary}
use ledgerflow_payment_recon.Store.Summary.Sums.{unbalanced_count, summary-eq-ok, summary-eq-err}
use ledgerflow_payment_recon.Ledger.Balance.{posted_total}
use ledgerflow_payment_recon.Store.Process.{
  Run, close_run, transaction, finish, journalled, process,
}

abbrev pub opening_row : Run → JournalRow
opening_row run = record {
  run_id = run.run_id;
  input_sha256 = run.input_sha256;
  status = started;
  started_at = run.started_at;
  completed_at = none;
  failure_reason = none;
}

-- The row of a run that has ended.
abbrev pub closed_row : Run → RunStatus → Option String → JournalRow
closed_row run status why = record (opening_row run) {
  status = status;
  completed_at = some run.completed_at;
  failure_reason = why;
}

close_run-append :
    (run : Run) (status : RunStatus) (why : Option String) (rows : List JournalRow)
    → any (λ (r : JournalRow). r.run_id == run.run_id) rows ≡ false
    → close_run run.run_id status run.completed_at why (rows ++ opening_row run ∷ [])
      ≡ rows ++ closed_row run status why ∷ []
unfolding close_run
close_run-append run status why [] h = ground (arith, eq_iff run.run_id run.run_id)
close_run-append run status why (row ∷ rows) h =
    ground (arith, close_run-append run status why rows)

-- The tables with the run opened, as the transaction finds them.
abbrev pub opened : Run → Tables → Tables
opened run t = record t { run_journal = t.run_journal ++ opening_row run ∷ [] }

-- The committed tables, with the run closed.
abbrev pub committed_tables : Run → Tables → Tables
committed_tables run t = record t {
  run_journal = close_run run.run_id succeeded run.completed_at none t.run_journal;
}

module _ (p : Platform) (describe : StoreError → String) (run : Run) (t : Tables) where
  process-eq-finish :
      has_run run.run_id t ≡ false
      → process p describe run t
        ≡ finish p describe run (opened run t) (transaction p run (opened run t))
  unfolding process insert_journal journalled
  process-eq-finish fresh = rw fresh

  -- A call of process under a run id that the journal already has is refused with the violated
  -- key, and changes no table.
  pub process_of_known_run :
      has_run run.run_id t ≡ true
      → process p describe run t ≡ (t, err (unique_failed "run_journal"))
  unfolding process insert_journal journalled
  process_of_known_run known = rw known

  process_failure :
      (e : StoreError)
      → has_run run.run_id t ≡ false
      → transaction p run (opened run t) ≡ err e
      → process p describe run t ≡ (
        record t { run_journal = t.run_journal ++ closed_row run failed (some (describe e)) ∷ [] },
        err e,
      )
  unfolding finish
  process_failure e fresh failing =
      process-eq-finish fresh
      ∙ rw (failing, close_run-append run failed (some (describe e)) t.run_journal fresh)

  process_commit :
      (t₂ : Tables)
      → has_run run.run_id t ≡ false
      → transaction p run (opened run t) ≡ ok t₂
      → process p describe run t
        ≡ (committed_tables run t₂, summary p run.run_id (committed_tables run t₂))
  unfolding finish
  process_commit t₂ fresh done = process-eq-finish fresh ∙ rw done refl

  -- What a call under a new run id commits: what its transaction built, and its row closed. The
  -- result is that of the summary of these tables.
  pub record Committed : Type 0 where
    pub built : Tables
    pub done : transaction p run (opened run t) ≡ ok built
    pub committed : (process p describe run t).0 ≡ committed_tables run built
    pub reported : (process p describe run t).1 ≡ summary p run.run_id (process p describe run t).0

  -- The tables without the changes of the transaction.
  abbrev pub rolled_back : StoreError → Tables
  rolled_back e = record t {
    run_journal = t.run_journal ++ closed_row run failed (some (describe e)) ∷ [];
  }

  pub process-cases :
      has_run run.run_id t ≡ false
      → Committed ⊎ ((e : StoreError) × (process p describe run t ≡ (rolled_back e, err e)))
  process-cases fresh = elim (Result-cases (transaction p run (opened run t))) [
    | inl (t₂, done) ↦
        let c = process_commit t₂ fresh done in
        inl (record {
          built = t₂;
          done = done;
          committed = ap (λ r. r.0) c;
          reported = ap (λ r. r.1) c ∙ ap (λ u. summary p run.run_id u) (sym (ap (λ r. r.0) c));
        })
    | inr (e, failing) ↦ inr (e, process_failure e fresh failing)
  ]

  -- A call of process under a run id that is not in the journal, and that raises, either leaves
  -- every table as it was but for one new row in the journal, which is marked FAILED with the
  -- reason, or has committed what its transaction built, with its row marked SUCCEEDED, and
  -- raises since a SUM of its summary leaves the 64-bit integers.
  pub process_atomic :
      (e : StoreError)
      → has_run run.run_id t ≡ false
      → (process p describe run t).1 ≡ err e
      → ((process p describe run t).0 ≡ rolled_back e) ⊎ (Committed × (e ≡ sum_overflow))
  process_atomic e fresh raised = elim (process-cases fresh) [
    | inl c ↦ inr (c, summary-eq-err p run.run_id _ e (sym c.reported ∙ raised))
    | inr (e', failing) ↦
        let same : e' ≡ e = cc (raised, failing) in
        inl (ap (λ r. r.0) failing ∙ ap rolled_back same)
  ]

  -- A new run that returns has committed what its transaction built, and its summary has the sums
  -- of the ledger.
  pub process_success :
      (s : Summary)
      → has_run run.run_id t ≡ false
      → (process p describe run t).1 ≡ ok s
      → Committed
        × (s
            ≡ summary_of p run.run_id
                (process p describe run t).0
                (unbalanced_count (process p describe run t).0.ledger_entry)
                (posted_total (process p describe run t).0.ledger_entry))
  process_success s fresh returned = elim (process-cases fresh) [
    | inl c ↦ (c, summary-eq-ok p run.run_id _ s (sym c.reported ∙ returned))
    | inr (e, failing) ↦ absurd (ground (arith, failing))
  ]
