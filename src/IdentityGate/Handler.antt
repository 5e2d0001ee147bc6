-- ===== src/IdentityGate/Handler.antt =====
-- `handler` of lambdas/schema_identity_gate/handler.py.
use ledgerflow_payment_recon.Prelude.{ℕ, String, List, [], ◌∷◌, ◌++◌, Option, none, some}
use ledgerflow_payment_recon.Prelude.Result.{Result, ok, err, ◌>>=◌, ◌>>◌}
use ledgerflow_payment_recon.Prelude.Text.{◌<>◌}
use ledgerflow_payment_recon.Json.{Value, text, object, Fields, end, field, get}
use ledgerflow_payment_recon.Contracts.{Platform, Registry, PaymentEvent}
use ledgerflow_payment_recon.Contracts.Privacy.{redact_payload, reject_prohibited_fields}
use ledgerflow_payment_recon.Contracts.Identity.{
  EnvelopeError, contract, unhashable, extract_business_payload, identity_fingerprint,
}
use ledgerflow_payment_recon.Contracts.Validate.{validate_event}
use ledgerflow_payment_recon.Services.{KeyValue, Failure, other_error}
use ledgerflow_payment_recon.IdentityGate.{Identity, Services, json_body}
use ledgerflow_payment_recon.IdentityGate.Publish.{GateTables, put_object, publish_accepted}

-- What the work on a record raises: a ContractError with `raw` as it is by then, or another exception.
pub data RecordError : Type 0 where
  contract_error : String → Fields → RecordError
  unexpected : Failure → RecordError

-- record["kinesis"]["data"]
data_of : Option Value → Result Failure Value
data_of none = err (other_error "KeyError")
data_of (some v) = ok v

unfoldable pub kinesis_of : Option Value → Result Failure Value
unfolding data_of
kinesis_of (some (object fs)) = data_of (get "data" fs)
kinesis_of none = err (other_error "KeyError")
kinesis_of (some v) = err (other_error "TypeError")

-- record.get("eventID", "unknown"), as an f-string writes it.
unfoldable pub record_id_of : Services → Option Value → String
record_id_of sv none = "unknown"
record_id_of sv (some (text s)) = s
record_id_of sv (some v) = sv.str v

unfoldable pub raised : {A : Type 0} → Result Failure A → Result RecordError A
raised (err failure) = err (unexpected failure)
raised (ok a) = ok a

unfoldable pub raised_contract : {A : Type 0} → Fields → Result String A → Result RecordError A
raised_contract raw (err reason) = err (contract_error reason raw)
raised_contract raw (ok a) = ok a

unfoldable pub raised_envelope : Fields → Result EnvelopeError Fields → Result RecordError Fields
raised_envelope raw (err (contract reason)) = err (contract_error reason raw)
raised_envelope raw (err unhashable) = err (unexpected (other_error "TypeError"))
raised_envelope raw (ok payload) = ok payload

unfoldable pub decoded_object : Value → Result RecordError Fields
decoded_object (object fs) = ok fs
decoded_object v = err (contract_error "non_object_event" end)

-- A record that may be stored: as it arrived, and its business payload.
pub record Arrival : Type 0 where
  pub raw : Fields
  pub payload : Fields

abbrev pub raw_key_of : Services → String → String
raw_key_of sv record_id = "arrivals/date=" <> sv.arrival_date <> "/" <> record_id <> ".json"

abbrev pub contract_fields : Platform → String → Fields → Fields
contract_fields p reason raw =
    field "reason" (text reason) (field "event" (object (redact_payload p raw)) end)

module _ (p : Platform) where
  unfoldable pub arrival_of : Services → Fields → Result RecordError Arrival
  unfolding kinesis_of raised raised_contract raised_envelope decoded_object
  arrival_of sv record_fields = do
    encoded ← raised (kinesis_of (get "kinesis" record_fields))
    value ← raised (sv.decode encoded)
    raw ← decoded_object value
    payload ← raised_envelope raw (extract_business_payload raw)
    raised_contract raw (reject_prohibited_fields p payload)
    ok (record { raw = raw; payload = payload })

  module _ (ids : KeyValue Identity) (objects : KeyValue String) where
    abbrev pub Done : Type 0
    Done = GateTables ids objects × Result RecordError (Unit {0})

    unfoldable pub published : GateTables ids objects × Result Failure (Unit {0}) → Done
    unfolding raised
    published (w, r) = (w, raised r)

    unfoldable pub validated :
        Services → Fields → Fields → Result String PaymentEvent → GateTables ids objects → Done
    unfolding published publish_accepted
    validated sv raw payload (err reason) w = (w, err (contract_error reason raw))
    validated sv raw payload (ok e) w =
        published (publish_accepted ids objects sv e (identity_fingerprint p payload) w)

    unfoldable pub stored :
        Services
        → Registry
        → List ℕ
        → Arrival
        → GateTables ids objects
        → Result Failure objects.Items
        → Done
    unfolding validated
    stored sv registry token_key a w (err failure) = (w, err (unexpected failure))
    stored sv registry token_key a w (ok items) =
        validated sv a.raw a.payload (validate_event p a.payload registry token_key)
          (record w { bronze = items })

    unfoldable pub arrived :
        Services
        → Registry
        → List ℕ
        → String
        → GateTables ids objects
        → Result RecordError Arrival
        → Done
    unfolding stored put_object json_body
    arrived sv registry token_key record_id w (err error) = (w, err error)
    arrived sv registry token_key record_id w (ok a) = stored sv registry token_key a w (
        put_object ids objects sv.bronze_fault (raw_key_of sv record_id) (json_body a.raw) w.bronze)

    -- The body of `try`.
    unfoldable pub try_record :
        Services → Registry → List ℕ → Fields → GateTables ids objects → Done
    unfolding arrived arrival_of record_id_of
    try_record sv registry token_key record_fields w =
        arrived sv registry token_key (record_id_of sv (get "eventID" record_fields)) w
          (arrival_of sv record_fields)

    -- The tables, and the failures of the record, or what leaves the handler.
    abbrev pub Handled : Type 0
    Handled = GateTables ids objects × Result Failure (List String)

    unfoldable pub quarantined : GateTables ids objects → Result Failure objects.Items → Handled
    quarantined w (err failure) = (w, err failure)
    quarantined w (ok items) = (record w { quarantine = items }, ok [])

    -- The two `except` clauses. An exception of the first one's own write leaves the handler.
    unfoldable pub except_record : Services → String → Done → Handled
    unfolding quarantined put_object json_body
    except_record sv record_id (w, ok _) = (w, ok [])
    except_record sv record_id (w, err (unexpected failure)) = (w, ok (record_id ∷ []))
    except_record sv record_id (w, err (contract_error reason raw)) = quarantined w (
        put_object ids objects sv.quarantine_fault ("contract/" <> record_id <> ".json")
          (json_body (contract_fields p reason raw)) w.quarantine)

    unfoldable pub handle_record :
        Services → Registry → List ℕ → Fields → GateTables ids objects → Handled
    unfolding try_record except_record
    handle_record sv registry token_key record_fields w =
        except_record sv (record_id_of sv (get "eventID" record_fields))
          (try_record sv registry token_key record_fields w)

    unfoldable pub add_failures : List String → Handled → Handled
    add_failures failures (w, err failure) = (w, err failure)
    add_failures failures (w, ok later) = (w, ok (failures ++ later))

    unfoldable pub then_rest : Handled → Handled → Handled
    unfolding add_failures
    then_rest (w, err failure) later = (w, err failure)
    then_rest (w, ok failures) later = add_failures failures later

    -- The records with the services that each finds. The result is `batchItemFailures`.
    unfoldable pub handler :
        Registry → List ℕ → List (Fields × Services) → GateTables ids objects → Handled
    unfolding handle_record then_rest
    handler registry token_key [] w = (w, ok [])
    handler registry token_key ((r, sv) ∷ rest) w =
        let first = handle_record sv registry token_key r w in
        let later = handler registry token_key rest first.0 in then_rest first later
