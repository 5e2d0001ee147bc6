-- ===== src/IdentityGate/Publish.antt =====
-- `_publish_accepted` of lambdas/schema_identity_gate/handler.py.
use ledgerflow_payment_recon.Prelude.{String, Option, none, some, ◌==◌, eq_String, if◌then◌else◌}
use ledgerflow_payment_recon.Prelude.Result.{Result, ok, err}
use ledgerflow_payment_recon.Contracts.{PaymentEvent}
use ledgerflow_payment_recon.Services.{KeyValue, Failure, client_error, other_error}
use ledgerflow_payment_recon.IdentityGate.{
  Identity, GateStore, Services, json_body, accepted_key_of, accepted_body, conflict_key,
  conflict_fields,
}

-- The item of the first call for an event.
abbrev pub pending : PaymentEvent → String → String → Identity
pending e fingerprint arrival = record {
  identity_sha256 = fingerprint;
  first_seen_at = arrival;
  publication_status = "PENDING";
  accepted_key = accepted_key_of e;
}

-- What `put_item` does to the table.
pub data Claim (Items : Type 0) : Type 0 where
  claimed : Items → Claim Items
  taken : Claim Items
  claim_failed : Failure → Claim Items

-- What the item says of the event.
pub data Standing : Type 0 where
  conflicting : Standing
  already_published : Standing
  unpublished : Standing

unfoldable pub standing_of : String → Identity → Standing
standing_of fingerprint row =
    if row.identity_sha256 == fingerprint
    then if row.publication_status == "PUBLISHED" then already_published else unpublished
    else conflicting

module _ (ids : KeyValue Identity) (objects : KeyValue String) where
  -- ConditionExpression: attribute_not_exists(event_id)
  claim_if_absent : PaymentEvent → String → String → ids.Items → Option Identity → Claim ids.Items
  claim_if_absent e fingerprint arrival items none =
      claimed (ids.put items e.event_id (pending e fingerprint arrival))
  claim_if_absent e fingerprint arrival items (some row) = taken

  unfoldable pub claim :
      Option Failure → PaymentEvent → String → String → ids.Items → Claim ids.Items
  unfolding claim_if_absent
  claim (some failure) e fingerprint arrival items = claim_failed failure
  claim none e fingerprint arrival items =
      claim_if_absent e fingerprint arrival items (ids.item items e.event_id)

  standing_in : String → Option Identity → Result Failure Standing
  unfolding standing_of
  standing_in fingerprint none = err (other_error "KeyError")
  standing_in fingerprint (some row) = ok (standing_of fingerprint row)

  -- `get_item`, and the tests of the item that it reads.
  unfoldable pub read_standing :
      Option Failure → PaymentEvent → String → ids.Items → Result Failure Standing
  unfolding standing_in
  read_standing (some failure) e fingerprint items = err failure
  read_standing none e fingerprint items = standing_in fingerprint (ids.item items e.event_id)

  -- `_put_json`
  unfoldable pub put_object :
      Option Failure → String → String → objects.Items → Result Failure objects.Items
  put_object (some failure) key body items = err failure
  put_object none key body items = ok (objects.put items key body)

  -- ConditionExpression: identity_sha256 = :fingerprint
  mark_if_same : PaymentEvent → String → ids.Items → Option Identity → Result Failure ids.Items
  mark_if_same e fingerprint items none = err (client_error "ConditionalCheckFailedException")
  mark_if_same e fingerprint items (some row) =
      if row.identity_sha256 == fingerprint
      then ok (ids.put items e.event_id (record row { publication_status = "PUBLISHED" }))
      else err (client_error "ConditionalCheckFailedException")

  unfoldable pub mark :
      Option Failure → PaymentEvent → String → ids.Items → Result Failure ids.Items
  unfolding mark_if_same
  mark (some failure) e fingerprint items = err failure
  mark none e fingerprint items = mark_if_same e fingerprint items (ids.item items e.event_id)

  abbrev pub GateTables : Type 0
  GateTables = GateStore ids.Items objects.Items

  abbrev pub Outcome : Type 0
  Outcome = GateTables × Result Failure (Unit {0})

  unfoldable pub mark_answer : GateTables → Result Failure ids.Items → Outcome
  mark_answer w (err failure) = (w, err failure)
  mark_answer w (ok items) = (record w { identities = items }, ok tt)

  unfoldable pub write_answer :
      Services → PaymentEvent → String → GateTables → Result Failure objects.Items → Outcome
  unfolding mark mark_answer
  write_answer sv e fingerprint w (err failure) = (w, err failure)
  write_answer sv e fingerprint w (ok items) =
      mark_answer (record w { accepted = items })
        (mark sv.update_item_fault e fingerprint w.identities)

  -- The object, and then the mark.
  unfoldable pub write_accepted : Services → PaymentEvent → String → GateTables → Outcome
  unfolding put_object write_answer
  write_accepted sv e fingerprint w =
      write_answer sv e fingerprint w
        (put_object sv.accepted_fault (accepted_key_of e) (accepted_body e) w.accepted)

  unfoldable pub conflict_answer : GateTables → Result Failure objects.Items → Outcome
  conflict_answer w (err failure) = (w, err failure)
  conflict_answer w (ok items) = (record w { quarantine = items }, ok tt)

  unfoldable pub standing_answer :
      Services → PaymentEvent → String → GateTables → Result Failure Standing → Outcome
  unfolding write_accepted put_object conflict_answer json_body
  standing_answer sv e fingerprint w (err failure) = (w, err failure)
  standing_answer sv e fingerprint w (ok already_published) = (w, ok tt)
  standing_answer sv e fingerprint w (ok unpublished) = write_accepted sv e fingerprint w
  standing_answer sv e fingerprint w (ok conflicting) =
      conflict_answer w (
        put_object sv.quarantine_fault (conflict_key e) (json_body (conflict_fields e))
          w.quarantine)

  unfoldable pub claim_answer :
      Services → PaymentEvent → String → GateTables → Claim ids.Items → Outcome
  unfolding write_accepted read_standing standing_answer
  claim_answer sv e fingerprint w (claim_failed failure) = (w, err failure)
  claim_answer sv e fingerprint w (claimed items) =
      write_accepted sv e fingerprint (record w { identities = items })
  claim_answer sv e fingerprint w taken =
      standing_answer sv e fingerprint w
        (read_standing sv.get_item_fault e fingerprint w.identities)

  unfoldable pub publish_accepted : Services → PaymentEvent → String → GateTables → Outcome
  unfolding claim claim_answer
  publish_accepted sv e fingerprint w =
      claim_answer sv e fingerprint w
        (claim sv.put_item_fault e fingerprint sv.arrival_time w.identities)
