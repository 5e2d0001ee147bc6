-- ===== src/Examples/GateRuns.antt =====
-- lambdas/schema_identity_gate/handler.py at concrete inputs.
use ledgerflow_payment_recon.Prelude.{
  String, ◌≡◌, ◌≢◌, refl, ap, Bool, true, false, [], ◌∷◌, none, some, inr, ◌==◌, eq_String,
}
use ledgerflow_payment_recon.Prelude.Result.{ok}
use ledgerflow_payment_recon.Json.{text, object, Fields, field, end}
use ledgerflow_payment_recon.Contracts.{authorization}
use ledgerflow_payment_recon.Contracts.Identity.{identity_fingerprint}
use ledgerflow_payment_recon.Contracts.Validate.{validate_event}
use ledgerflow_payment_recon.Contracts.Validate.Sound.{IsContractual, validate_event-IsContractual}
use ledgerflow_payment_recon.Interleaving.{here, next, pick, assign}
use ledgerflow_payment_recon.Services.{KeyValue, IsLawful}
use ledgerflow_payment_recon.IdentityGate.{
  Identity, Services, json_body, accepted_key_of, accepted_body, conflict_key, conflict_fields,
}
use ledgerflow_payment_recon.IdentityGate.Publish.{
  GateTables, claim, put_object, mark, pending, publish_accepted,
}
use ledgerflow_payment_recon.IdentityGate.Handler.{handler}
use ledgerflow_payment_recon.IdentityGate.Recovery.{
  IsAvailable, publish_completes, publish_of_conflict,
}
use ledgerflow_payment_recon.IdentityGate.Screened.{IsClean, handler-IsClean}
use ledgerflow_payment_recon.IdentityGate.Steps.{
  Payment, IsValidated, Publisher, idle, GateState, GateRuns, IsNew, validate, claim_new, write,
  publish,
}
use ledgerflow_payment_recon.IdentityGate.Steps.First.{first_identity_stays, published_object}
use ledgerflow_payment_recon.IdentityGate.Steps.Refines.{handler-GateRuns}
use ledgerflow_payment_recon.Examples.Opened.{ledger_core}
use ledgerflow_payment_recon.Examples.Fixtures.{platform, registry, raw_event, payment, token_key}
use ledgerflow_payment_recon.Examples.Cloud.{put_at, function_table, function_table-IsLawful}

abbrev identity_table : KeyValue Identity
identity_table = function_table Identity

abbrev bucket : KeyValue String
bucket = function_table String

abbrev id_law : IsLawful identity_table
id_law = function_table-IsLawful Identity

abbrev object_law : IsLawful bucket
object_law = function_table-IsLawful String

abbrev raw : Fields
raw = raw_event "e1" 1 "authorization" 100

abbrev services : Services
services = record {
  put_item_fault = none;
  get_item_fault = none;
  update_item_fault = none;
  bronze_fault = none;
  accepted_fault = none;
  quarantine_fault = none;
  arrival_time = "2026-01-02T00:00:00+00:00";
  arrival_date = "2026-01-02";
  decode = λ v. ok (object raw);
  str = λ v. "?";
}

abbrev kinesis_record : Fields
kinesis_record =
    field "eventID" (text "shard:1") (field "kinesis" (object (field "data" (text "e30=") end)) end)

abbrev empty_tables : GateTables identity_table bucket
empty_tables = record {
  identities = λ k. none;
  bronze = λ k. none;
  accepted = λ k. none;
  quarantine = λ k. none;
}

abbrev first : Payment
first = record {
  event = payment "e1" 1 authorization 100;
  fingerprint = identity_fingerprint platform raw;
}

validates : validate_event platform raw registry token_key ≡ ok first.event
unfolding ledger_core
validates = refl

valid : IsValidated platform first
valid = (raw, registry, token_key, validates, refl)

validate_event-IsContractual_example : IsContractual platform registry first.event
validate_event-IsContractual_example =
    validate_event-IsContractual platform raw registry token_key first.event validates

abbrev idle_state : GateState platform identity_table bucket
idle_state = record { world = empty_tables; workers = λ i. idle }

new : IsNew platform identity_table bucket idle_state
new = record { all_idle = λ i. refl; no_identities = λ id. refl; nothing_accepted = λ key. refl }

abbrev row : Identity
row = pending first.event first.fingerprint "now"

abbrev published_row : Identity
published_row = record row { publication_status = "PUBLISHED" }

abbrev validated_state : GateState platform identity_table bucket
validated_state = record {
  world = empty_tables;
  workers = assign idle_state.workers 0 (Publisher.claiming first);
}

abbrev claimed_state : GateState platform identity_table bucket
claimed_state = record {
  world = record empty_tables { identities = put_at (λ k. none) "e1" row };
  workers = assign validated_state.workers 0 (Publisher.writing first);
}

abbrev written_state : GateState platform identity_table bucket
written_state = record {
  world = record claimed_state.world {
    accepted = put_at (λ k. none) (accepted_key_of first.event) (accepted_body first.event);
  };
  workers = assign claimed_state.workers 0 (Publisher.marking first);
}

abbrev published_state : GateState platform identity_table bucket
published_state = record {
  world = record written_state.world {
    identities = put_at (put_at (λ k. none) "e1" row) "e1" published_row;
  };
  workers = assign written_state.workers 0 idle;
}

claims : GateRuns platform identity_table bucket idle_state claimed_state
unfolding claim
claims =
    next (next here (pick 0 (validate first valid))) (pick 0 (claim_new none first "now" _ refl))

same_print : (first.fingerprint == first.fingerprint) ≡ true
unfolding ledger_core
same_print = refl

publishes : GateRuns platform identity_table bucket claimed_state published_state
unfolding put_object mark ledger_core
publishes = next (next here (pick 0 (write none first _ refl))) (pick 0 (publish none first _ refl))

all_steps : GateRuns platform identity_table bucket idle_state published_state
unfolding put_object mark ledger_core
all_steps =
    next (next claims (pick 0 (write none first _ refl))) (pick 0 (publish none first _ refl))

first_identity_stays_example :
    (now : Identity) × (identity_table.item published_state.world.identities "e1" ≡ some now)
    × (now.identity_sha256 ≡ row.identity_sha256)
first_identity_stays_example =
    first_identity_stays platform identity_table bucket id_law object_law idle_state claimed_state
      published_state "e1" row new claims publishes refl

published_object_example :
    (y : Payment) × (z : Payment) × IsValidated platform y
    × IsValidated platform z
    × (y.event.event_id ≡ "e1")
    × (z.event.event_id ≡ "e1")
    × (y.fingerprint ≡ published_row.identity_sha256)
    × (z.fingerprint ≡ published_row.identity_sha256)
    × (bucket.item published_state.world.accepted (accepted_key_of y.event)
        ≡ some (accepted_body z.event))
published_object_example =
    published_object platform identity_table bucket id_law object_law idle_state published_state
      "e1" published_row new all_steps refl refl

handler-GateRuns_example :
    (t : GateState platform identity_table bucket) × GateRuns platform identity_table bucket
      idle_state t
    × (t.world
        ≡ (handler platform identity_table bucket registry token_key
            ((kinesis_record, services) ∷ [])
            empty_tables).0)
    × (t.workers 0 ≡ idle)
handler-GateRuns_example =
    handler-GateRuns platform identity_table bucket registry token_key
      ((kinesis_record, services) ∷ []) 0 idle_state refl

available : IsAvailable services
available = record { puts = refl; gets = refl; updates = refl; accepts = refl; quarantines = refl }

publish_completes_example :
    (v : GateTables identity_table bucket) × ((publish_accepted identity_table bucket services
          first.event first.fingerprint claimed_state.world
        ≡ (v, ok tt))
      × ((now : Identity) × (identity_table.item v.identities first.event.event_id ≡ some now)
          × (now.identity_sha256 ≡ first.fingerprint)
          × (now.publication_status ≡ "PUBLISHED")))
publish_completes_example =
    publish_completes identity_table bucket id_law services first.event first.fingerprint
      claimed_state.world available (inr (row, refl, refl))

abbrev other_row : Identity
other_row = record row { identity_sha256 = "other" }

abbrev taken_tables : GateTables identity_table bucket
taken_tables = record empty_tables { identities = put_at (λ k. none) "e1" other_row }

abbrev is_other : String → Bool
is_other s = s == "other"

apart : "other" ≢ first.fingerprint
unfolding ledger_core
apart e = let clash : true ≡ false = ap is_other e in cc

publish_of_conflict_example :
    publish_accepted identity_table bucket services first.event first.fingerprint taken_tables ≡ (
      record taken_tables {
        quarantine =
            put_at (λ k. none) (conflict_key first.event) (json_body (conflict_fields first.event));
      },
      ok tt,
    )
publish_of_conflict_example =
    publish_of_conflict identity_table bucket id_law services first.event first.fingerprint
      taken_tables other_row available refl apart

clean : IsClean platform identity_table bucket object_law empty_tables
clean = record { screened = λ key body h. absurd (cc) }

handler-IsClean_example :
    IsClean platform identity_table bucket object_law
      (handler platform identity_table bucket registry token_key
        ((kinesis_record, services) ∷ [])
        empty_tables).0
handler-IsClean_example =
    handler-IsClean platform identity_table bucket object_law registry token_key
      ((kinesis_record, services) ∷ []) empty_tables clean
