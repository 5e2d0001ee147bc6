-- ===== src/Store/Ingest/Runs.antt =====
-- `_ingest_one` of ledgerflow/store.py leaves the run tables alone.
use ledgerflow_payment_recon.Prelude.{
  ℕ, String, ◌≡◌, refl, sym, ap, ◌∙◌, List, Option, none, some, arith, ◌==◌, eq_String, Bool-cases,
  inl, inr,
}
use ledgerflow_payment_recon.Prelude.Result.{Result, ok, err, >>=-eq-ok}
use ledgerflow_payment_recon.Json.{Fields, get_text}
use ledgerflow_payment_recon.Contracts.{Platform, Registry, PaymentEvent}
use ledgerflow_payment_recon.Contracts.Identity.{identity_fingerprint}
use ledgerflow_payment_recon.Contracts.Validate.{validate_event}
use ledgerflow_payment_recon.Store.Tables.{
  Tables, SeenRow, AcceptedRow, StoreError, insert_quarantine, insert_seen, insert_accepted,
}
use ledgerflow_payment_recon.Store.Ingest.{
  Counts, find_identity, quarantine_one, accept_one, gate_identity, gate_contract, ingest_one,
}

pub record SameRuns (t t' : Tables) : Type 0 where
  pub journal : t'.run_journal ≡ t.run_journal
  pub outcomes : t'.run_outcome ≡ t.run_outcome

pub SameRuns-trans : {t u v : Tables} → SameRuns t u → SameRuns u v → SameRuns t v
SameRuns-trans h k = record { journal = k.journal ∙ h.journal; outcomes = k.outcomes ∙ h.outcomes }

runs_of_quarantine :
    (run : String) (id : Option String) (reason payload : String) (t t' : Tables)
    → insert_quarantine run id reason payload t ≡ ok t'
    → SameRuns t t'
unfolding insert_quarantine
runs_of_quarantine run id reason payload t t' h = ground arith

runs_of_seen : (row : SeenRow) (t t' : Tables) → insert_seen row t ≡ ok t' → SameRuns t t'
unfolding insert_seen
runs_of_seen row t t' h = ground arith

runs_of_accepted :
    (row : AcceptedRow) (t t' : Tables) → insert_accepted row t ≡ ok t' → SameRuns t t'
unfolding insert_accepted
runs_of_accepted row t t' h = ground arith

pub pair_left :
    {t t' : Tables} {c c' : Counts}
    → ◌≡◌ {A = Result StoreError (Tables × Counts)} (ok (t, c)) (ok (t', c'))
    → t ≡ t'
pair_left h = cc h

SameRuns-eq : {t u v : Tables} → SameRuns t u → u ≡ v → SameRuns t v
SameRuns-eq h e = record {
  journal = ap (λ x. x.run_journal) (sym e) ∙ h.journal;
  outcomes = ap (λ x. x.run_outcome) (sym e) ∙ h.outcomes;
}

module _ (p : Platform) (run : String) (raw : Fields) (t : Tables) (c : Counts) where
  runs_of_quarantine_one :
      (id : Option String) (reason : String) {t' : Tables} {c' : Counts}
      → quarantine_one p run id reason raw t c ≡ ok (t', c')
      → SameRuns t t'
  unfolding quarantine_one
  runs_of_quarantine_one id reason h =
      let (mid, first, last) = >>=-eq-ok (insert_quarantine run id reason _ t) _ h in
      SameRuns-eq (runs_of_quarantine run id reason _ t mid first) (pair_left last)

  runs_of_accept_one :
      (event : PaymentEvent) (fingerprint : String) {t' : Tables} {c' : Counts}
      → accept_one p run event fingerprint t c ≡ ok (t', c')
      → SameRuns t t'
  unfolding accept_one
  runs_of_accept_one event fingerprint h =
      let (t₁, first, later) = >>=-eq-ok (insert_seen _ t) _ h in
      let (t₂, second, last) = >>=-eq-ok (insert_accepted _ t₁) _ later in
      SameRuns-eq (SameRuns-trans (runs_of_seen _ t t₁ first) (runs_of_accepted _ t₁ t₂ second))
        (pair_left last)

  runs_of_gate_identity :
      (found : Option String) (event : PaymentEvent) {t' : Tables} {c' : Counts}
      → gate_identity p run found event raw t c ≡ ok (t', c')
      → SameRuns t t'
  unfolding gate_identity
  runs_of_gate_identity none event h = runs_of_accept_one event _ h
  runs_of_gate_identity (some existing) event h =
      elim (Bool-cases (existing == identity_fingerprint p raw)) [
        | inl same ↦
            let last = rw same at h in
            SameRuns-eq (record { journal = refl; outcomes = refl }) (pair_left last)
        | inr other ↦
            let last = rw other at h in
            runs_of_quarantine_one (some event.event_id) "identity_payload_conflict" last
      ]

  pub runs_of_gate_contract :
      (verdict : Result String PaymentEvent) {t' : Tables} {c' : Counts}
      → gate_contract p run verdict raw t c ≡ ok (t', c')
      → SameRuns t t'
  unfolding gate_contract
  runs_of_gate_contract (err reason) h = runs_of_quarantine_one (get_text "event_id" raw) reason h
  runs_of_gate_contract (ok event) h =
      runs_of_gate_identity (find_identity event.event_id t.seen_event) event h

-- One record writes to no run.
pub ingest_one-SameRuns :
    (p : Platform) (run : String) (raw : Fields) (registry : Registry) (key : List ℕ) (t : Tables)
    (c : Counts) {t' : Tables} {c' : Counts}
    → ingest_one p run raw registry key t c ≡ ok (t', c')
    → SameRuns t t'
unfolding ingest_one
ingest_one-SameRuns p run raw registry key t c h =
    runs_of_gate_contract p run raw t c (validate_event p raw registry key) h
