-- ===== src/Store/Ingest.antt =====
-- `LedgerStore._ingest_one` of ledgerflow/store.py: the contract and identity gates for one record.
pub mod Runs
pub mod Hidden
use ledgerflow_payment_recon.Prelude.{
  ℕ, ◌+◌, String, ◌&&◌, List, [], ◌∷◌, Option, none, some, ◌==◌, eq_String, if◌then◌else◌,
}
use ledgerflow_payment_recon.Prelude.Int.{pos}
use ledgerflow_payment_recon.Prelude.Result.{Result, ok, err, ◌>>=◌}
use ledgerflow_payment_recon.Json.{Value, null, int, text, object, Fields, end, field, get_text}
use ledgerflow_payment_recon.Json.Dumps.{canonical_json}
use ledgerflow_payment_recon.Contracts.{Platform, Registry, PaymentEvent, schema_version}
use ledgerflow_payment_recon.Contracts.Privacy.{redact_payload}
use ledgerflow_payment_recon.Contracts.Identity.{identity_fingerprint}
use ledgerflow_payment_recon.Contracts.Validate.{validate_event}
use ledgerflow_payment_recon.Ledger.Rules.{event_type_name}
use ledgerflow_payment_recon.Store.Tables.{
  Tables, SeenRow, StoreError, insert_seen, insert_accepted, insert_quarantine,
}

-- `Counter[tuple[str, str]]`
abbrev pub Counts : Type 0
Counts = List (String × String × ℕ)

-- `counts[(outcome, reason)] += 1`
unfoldable pub increment : String → String → Counts → Counts
increment outcome reason [] = (outcome, reason, 1) ∷ []
increment outcome reason ((o, r, n) ∷ rest) =
    if outcome == o && reason == r
    then (o, r, n + 1) ∷ rest
    else (o, r, n) ∷ increment outcome reason rest

-- `SELECT identity_sha256 FROM seen_event WHERE event_id=?`
unfoldable pub find_identity : String → List SeenRow → Option String
find_identity id [] = none
find_identity id (row ∷ rows) =
    if row.event_id == id then some row.identity_sha256 else find_identity id rows

token_value : Option String → Value
token_value none = null
token_value (some s) = text s

-- `PaymentEvent.safe_dict`
unfoldable pub safe_dict : PaymentEvent → Fields
unfolding token_value event_type_name
safe_dict e = field "schema_version" (text schema_version) (
    field "event_id" (text e.event_id) (
      field "transaction_id" (text e.transaction_id) (
        field "transaction_version" (int (pos e.transaction_version)) (
          field "source_id" (text e.source_id) (
            field "processor_id" (text e.processor_id) (
              field "merchant_id" (text e.merchant_id) (
                field "event_type" (text (event_type_name e.event_type)) (
                  field "amount_minor" (int (pos e.amount_minor)) (
                    field "currency" (text e.currency) (
                      field "event_time" (text e.event_time) (
                        field "received_at" (text e.received_at)
                          (field "customer_token" (token_value e.customer_token) end))))))))))))

module _ (p : Platform) (run_id : String) where
  unfoldable pub quarantine_one :
      Option String → String → Fields → Tables → Counts → Result StoreError (Tables × Counts)
  quarantine_one id reason raw t counts = do
    t' ← insert_quarantine run_id id reason (canonical_json (object (redact_payload p raw))) t
    ok (t', increment "QUARANTINED" reason counts)

  unfoldable pub accept_one :
      PaymentEvent → String → Tables → Counts → Result StoreError (Tables × Counts)
  accept_one event fingerprint t counts = do
    t₁ ←
        insert_seen
          (record {
            event_id = event.event_id;
            identity_sha256 = fingerprint;
            first_run_id = run_id;
          })
          t
    t₂ ←
        insert_accepted
          (record { event = event; safe_payload_json = canonical_json (object (safe_dict event)) })
          t₁
    ok (t₂, increment "ACCEPTED" "contract_and_identity_passed" counts)

  -- The identity gate, on what was stored for the event's id.
  unfoldable pub gate_identity :
      Option String → PaymentEvent → Fields → Tables → Counts → Result StoreError (Tables × Counts)
  gate_identity none event raw t counts = accept_one event (identity_fingerprint p raw) t counts
  gate_identity (some existing) event raw t counts =
      if existing == identity_fingerprint p raw
      then ok (t, increment "DUPLICATE" "exact_event_replay" counts)
      else quarantine_one (some event.event_id) "identity_payload_conflict" raw t counts

  unfoldable pub gate_contract :
      Result String PaymentEvent → Fields → Tables → Counts → Result StoreError (Tables × Counts)
  gate_contract (err reason) raw t counts =
      quarantine_one (get_text "event_id" raw) reason raw t counts
  gate_contract (ok event) raw t counts =
      gate_identity (find_identity event.event_id t.seen_event) event raw t counts

  unfoldable pub ingest_one :
      Fields → Registry → List ℕ → Tables → Counts → Result StoreError (Tables × Counts)
  ingest_one raw registry token_key t counts =
      gate_contract (validate_event p raw registry token_key) raw t counts
