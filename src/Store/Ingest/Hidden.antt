-- ===== src/Store/Ingest/Hidden.antt =====
-- What `_ingest_one` of ledgerflow/store.py keeps of a record that it quarantines.
use mathlib.Core.Path.{subst}
use ledgerflow_payment_recon.Prelude.{
  ℕ, String, ◌≡◌, refl, ◌∙◌, List, [], ◌∷◌, ◌++◌, Option, none, some, All, All-append, arith, ◌==◌,
  eq_String, Bool-cases, inl, inr, suc, length,
}
use ledgerflow_payment_recon.Prelude.Result.{Result, ok, err, >>=-eq-ok}
use ledgerflow_payment_recon.Json.{Fields, object, get_text}
use ledgerflow_payment_recon.Json.Dumps.{canonical_json}
use ledgerflow_payment_recon.Contracts.{Platform, Registry, PaymentEvent}
use ledgerflow_payment_recon.Contracts.Identity.{identity_fingerprint}
use ledgerflow_payment_recon.Contracts.Privacy.{redact_payload}
use ledgerflow_payment_recon.Contracts.Privacy.Safe.{FieldsHide, redact_payload-Hide}
use ledgerflow_payment_recon.Contracts.Validate.{validate_event}
use ledgerflow_payment_recon.Store.Tables.{
  Tables, SeenRow, AcceptedRow, QuarantineRow, insert_quarantine, insert_seen, insert_accepted,
}
use ledgerflow_payment_recon.Store.Ingest.{
  Counts, find_identity, quarantine_one, accept_one, gate_identity, gate_contract, ingest_one,
}
use ledgerflow_payment_recon.Store.Ingest.Runs.{pair_left}

-- The row's text is that of an object that hides every sensitive key.
pub record IsHidden (p : Platform) (row : QuarantineRow) : Type 0 where
  pub payload : Fields
  pub hides : FieldsHide p payload
  pub stored : row.redacted_payload_json ≡ canonical_json (object payload)

abbrev pub Hidden : Platform → Tables → Type 0
Hidden p t = All (IsHidden p) t.quarantine

quarantine_stored :
    (run : String) (id : Option String) (reason payload : String) (t t' : Tables)
    → insert_quarantine run id reason payload t ≡ ok t'
    → t'.quarantine
      ≡ t.quarantine
        ++ record {
          quarantine_id = suc (length t.quarantine);
          run_id = run;
          event_id = id;
          reason = reason;
          redacted_payload_json = payload;
        }
          ∷ []
unfolding insert_quarantine
quarantine_stored run id reason payload t t' h = ground arith

quarantine_of_seen :
    (row : SeenRow) (t t' : Tables) → insert_seen row t ≡ ok t' → t'.quarantine ≡ t.quarantine
unfolding insert_seen
quarantine_of_seen row t t' h = ground arith

quarantine_of_accepted :
    (row : AcceptedRow) (t t' : Tables)
    → insert_accepted row t ≡ ok t'
    → t'.quarantine ≡ t.quarantine
unfolding insert_accepted
quarantine_of_accepted row t t' h = ground arith

module _ (p : Platform) (run : String) (raw : Fields) (t : Tables) (c : Counts)
    (hidden : Hidden p t) where
  Hidden-quarantine_one :
      (id : Option String) (reason : String) {t' : Tables} {c' : Counts}
      → quarantine_one p run id reason raw t c ≡ ok (t', c')
      → Hidden p t'
  unfolding quarantine_one
  Hidden-quarantine_one id reason h =
      let (mid, first, last) = >>=-eq-ok (insert_quarantine run id reason _ t) _ h in
      subst (Hidden p) (pair_left last) (
        rw (quarantine_stored run id reason _ t mid first) (
          All-append (IsHidden p) t.quarantine _ hidden (
            record {
              payload = redact_payload p raw;
              hides = redact_payload-Hide p raw;
              stored = refl;
            },
            tt,
          )))

  Hidden-accept_one :
      (event : PaymentEvent) (fingerprint : String) {t' : Tables} {c' : Counts}
      → accept_one p run event fingerprint t c ≡ ok (t', c')
      → Hidden p t'
  unfolding accept_one
  Hidden-accept_one event fingerprint h =
      let (t₁, first, later) = >>=-eq-ok (insert_seen _ t) _ h in
      let (t₂, second, last) = >>=-eq-ok (insert_accepted _ t₁) _ later in
      subst (Hidden p) (pair_left last)
        (rw (quarantine_of_accepted _ t₁ t₂ second ∙ quarantine_of_seen _ t t₁ first) hidden)

  Hidden-gate_identity :
      (found : Option String) (event : PaymentEvent) {t' : Tables} {c' : Counts}
      → gate_identity p run found event raw t c ≡ ok (t', c')
      → Hidden p t'
  unfolding gate_identity
  Hidden-gate_identity none event h = Hidden-accept_one event _ h
  Hidden-gate_identity (some existing) event h =
      elim (Bool-cases (existing == identity_fingerprint p raw)) [
        | inl same ↦ let last = rw same at h in subst (Hidden p) (pair_left last) hidden
        | inr other ↦
            let last = rw other at h in
            Hidden-quarantine_one (some event.event_id) "identity_payload_conflict" last
      ]

  Hidden-gate_contract :
      (verdict : Result String PaymentEvent) {t' : Tables} {c' : Counts}
      → gate_contract p run verdict raw t c ≡ ok (t', c')
      → Hidden p t'
  unfolding gate_contract
  Hidden-gate_contract (err reason) h = Hidden-quarantine_one (get_text "event_id" raw) reason h
  Hidden-gate_contract (ok event) h =
      Hidden-gate_identity (find_identity event.event_id t.seen_event) event h

pub Hidden-ingest_one :
    (p : Platform) (run : String) (raw : Fields) (registry : Registry) (key : List ℕ) (t : Tables)
    (c : Counts) {t' : Tables} {c' : Counts}
    → ingest_one p run raw registry key t c ≡ ok (t', c')
    → Hidden p t
    → Hidden p t'
unfolding ingest_one
Hidden-ingest_one p run raw registry key t c h hidden =
    Hidden-gate_contract p run raw t c hidden (validate_event p raw registry key) h
