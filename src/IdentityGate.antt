-- ===== src/IdentityGate.antt =====
-- lambdas/schema_identity_gate/handler.py: the handler that stores raw arrivals, validates each
-- payment and publishes it once under its event's identity.
pub mod Keys
pub mod Publish
pub mod Handler
pub mod Recovery
pub mod Screened
pub mod Steps
use ledgerflow_payment_recon.Prelude.{ℕ, String, Option, List}
use ledgerflow_payment_recon.Prelude.Result.{Result}
use ledgerflow_payment_recon.Prelude.Text.{◌<>◌, first_chars}
use ledgerflow_payment_recon.Json.{Value, text, object, Fields, end, field}
use ledgerflow_payment_recon.Json.Dumps.{canonical_json}
use ledgerflow_payment_recon.Contracts.{PaymentEvent}
use ledgerflow_payment_recon.Store.Ingest.{safe_dict}
use ledgerflow_payment_recon.Services.{KeyValue, Failure}

-- An item of the identity table, under its `event_id`.
pub record Identity : Type 0 where
  pub identity_sha256 : String
  pub first_seen_at : String
  pub publication_status : String
  pub accepted_key : String

-- The identity table and the three buckets.
pub record GateStore (identity object : Type 0) : Type 0 where
  pub identities : identity
  pub bronze : object
  pub accepted : object
  pub quarantine : object

-- The services as the work on one record finds them: an error of each call that is not its
-- condition's, the clock, and what is used of Python's libraries.
pub record Services : Type 0 where
  pub put_item_fault : Option Failure
  pub get_item_fault : Option Failure
  pub update_item_fault : Option Failure
  pub bronze_fault : Option Failure
  pub accepted_fault : Option Failure
  pub quarantine_fault : Option Failure
  -- `arrival.isoformat()` and `arrival.date()`
  pub arrival_time : String
  pub arrival_date : String
  -- `json.loads(base64.b64decode(data))`
  pub decode : Value → Result Failure Value
  -- `str(value)` of a value that is no text
  pub str : Value → String

-- The body that `_put_json` writes.
unfoldable pub json_body : Fields → String
json_body fs = canonical_json (object fs) <> "\n"

unfoldable pub accepted_key_of : PaymentEvent → String
accepted_key_of e =
    "accepted/event_date=" <> first_chars 10 e.event_time <> "/" <> e.event_id <> ".json"

unfoldable pub accepted_body : PaymentEvent → String
unfolding json_body
accepted_body e = json_body (safe_dict e)

abbrev pub conflict_key : PaymentEvent → String
conflict_key e = "identity-conflict/" <> e.event_id <> ".json"

abbrev pub conflict_fields : PaymentEvent → Fields
conflict_fields e =
    field "reason" (text "identity_payload_conflict") (field "event" (object (safe_dict e)) end)
