-- ===== src/IdentityGate/Steps/Refines.antt =====
-- A call of `handler` in lambdas/schema_identity_gate/handler.py that no other call disturbs is one of
-- the runs of the steps.
use ledgerflow_payment_recon.Prelude.{ℕ, String, ◌≡◌, refl, List, [], ◌∷◌}
use ledgerflow_payment_recon.Prelude.Result.{Result, ok, err}
use ledgerflow_payment_recon.Json.{Fields}
use ledgerflow_payment_recon.Contracts.{Platform, Registry, PaymentEvent}
use ledgerflow_payment_recon.Contracts.Identity.{identity_fingerprint}
use ledgerflow_payment_recon.Contracts.Validate.{validate_event}
use ledgerflow_payment_recon.Interleaving.{here, Moves, done, more, Moves-append, Moves-Runs}
use ledgerflow_payment_recon.Services.{KeyValue, Failure}
use ledgerflow_payment_recon.IdentityGate.{Identity, Services, accepted_key_of, accepted_body}
use ledgerflow_payment_recon.IdentityGate.Publish.{
  GateTables, Claim, claimed, taken, claim_failed, Standing, conflicting, already_published,
  unpublished, claim, read_standing, put_object, mark, mark_answer, write_answer, write_accepted,
  conflict_answer, standing_answer, claim_answer, publish_accepted,
}
use ledgerflow_payment_recon.IdentityGate.Handler.{
  RecordError, contract_error, unexpected, Arrival, arrival_of, published, validated, stored,
  arrived, try_record, quarantined, except_record, handle_record, then_rest, add_failures, handler,
}
use ledgerflow_payment_recon.IdentityGate.Steps.{
  Payment, IsValidated, Publisher, idle, claiming, reading, writing, marking, Advance, store_raw,
  refuse, conflict, validate, claim_new, claim_taken, resume, write, publish, leave, GateState,
  GateRuns,
}

module _ (p : Platform) (ids : KeyValue Identity) (objects : KeyValue String) where
  abbrev GateCall : GateTables ids objects → Publisher → GateTables ids objects → Type 0
  GateCall w q v = Moves (GateTables ids objects) Publisher (Advance p ids objects) w q v idle

  leaves : (w : GateTables ids objects) (q : Publisher) → GateCall w q w
  leaves w q = more (leave q) done

  module _ (sv : Services) (y : Payment) where
    mark_answer-Moves :
        (w : GateTables ids objects) (r : Result Failure ids.Items)
        → mark ids objects sv.update_item_fault y.event y.fingerprint w.identities ≡ r
        → GateCall w (marking y) (mark_answer ids objects w r).0
    unfolding mark_answer
    mark_answer-Moves w (err failure) e = leaves w (marking y)
    mark_answer-Moves w (ok items) e = more (publish sv.update_item_fault y items e) done

    write_answer-Moves :
        (w : GateTables ids objects) (r : Result Failure objects.Items)
        → put_object ids objects sv.accepted_fault
            (accepted_key_of y.event)
            (accepted_body y.event)
            w.accepted
          ≡ r
        → GateCall w (writing y) (write_answer ids objects sv y.event y.fingerprint w r).0
    unfolding write_answer
    write_answer-Moves w (err failure) e = leaves w (writing y)
    write_answer-Moves w (ok items) e =
        more (write sv.accepted_fault y items e)
          (mark_answer-Moves (record w { accepted = items }) _ refl)

    write_accepted-Moves :
        (w : GateTables ids objects)
        → GateCall w (writing y) (write_accepted ids objects sv y.event y.fingerprint w).0
    unfolding write_accepted
    write_accepted-Moves w = write_answer-Moves w _ refl

    conflict_answer-Moves :
        (w : GateTables ids objects) (r : Result Failure objects.Items)
        → GateCall w (reading y) (conflict_answer ids objects w r).0
    unfolding conflict_answer
    conflict_answer-Moves w (err failure) = leaves w (reading y)
    conflict_answer-Moves w (ok items) = more (conflict y items) done

    standing_answer-Moves :
        (w : GateTables ids objects) (r : Result Failure Standing)
        → read_standing ids objects sv.get_item_fault y.event y.fingerprint w.identities ≡ r
        → GateCall w (reading y) (standing_answer ids objects sv y.event y.fingerprint w r).0
    unfolding standing_answer
    standing_answer-Moves w (err failure) e = leaves w (reading y)
    standing_answer-Moves w (ok already_published) e = leaves w (reading y)
    standing_answer-Moves w (ok unpublished) e =
        more (resume sv.get_item_fault y e) (write_accepted-Moves w)
    standing_answer-Moves w (ok conflicting) e = conflict_answer-Moves w _

    claim_answer-Moves :
        (w : GateTables ids objects) (r : Claim ids.Items)
        → claim ids objects sv.put_item_fault y.event y.fingerprint sv.arrival_time w.identities ≡ r
        → GateCall w (claiming y) (claim_answer ids objects sv y.event y.fingerprint w r).0
    unfolding claim_answer
    claim_answer-Moves w (claim_failed failure) e = leaves w (claiming y)
    claim_answer-Moves w (claimed items) e =
        more (claim_new sv.put_item_fault y sv.arrival_time items e)
          (write_accepted-Moves (record w { identities = items }))
    claim_answer-Moves w taken e =
        more (claim_taken sv.put_item_fault y sv.arrival_time e) (standing_answer-Moves w _ refl)

    publish_accepted-Moves :
        (w : GateTables ids objects)
        → IsValidated p y
        → GateCall w idle (publish_accepted ids objects sv y.event y.fingerprint w).0
    unfolding publish_accepted
    publish_accepted-Moves w valid = more (validate y valid) (claim_answer-Moves w _ refl)

  validated-Moves :
      (sv : Services) (registry : Registry) (key : List ℕ) (raw payload : Fields)
      (w : GateTables ids objects) (r : Result String PaymentEvent)
      → validate_event p payload registry key ≡ r
      → GateCall w idle (validated p ids objects sv raw payload r w).0
  unfolding validated published
  validated-Moves sv registry key raw payload w (err reason) e = done
  validated-Moves sv registry key raw payload w (ok event) e =
      let y : Payment = record { event = event; fingerprint = identity_fingerprint p payload } in
      publish_accepted-Moves sv y w (payload, registry, key, e, refl)

  stored-Moves :
      (sv : Services) (registry : Registry) (key : List ℕ) (a : Arrival)
      (w : GateTables ids objects) (r : Result Failure objects.Items)
      → GateCall w idle (stored p ids objects sv registry key a w r).0
  unfolding stored
  stored-Moves sv registry key a w (err failure) = done
  stored-Moves sv registry key a w (ok items) =
      more (store_raw items)
        (validated-Moves sv registry key a.raw a.payload (record w { bronze = items }) _ refl)

  arrived-Moves :
      (sv : Services) (registry : Registry) (key : List ℕ) (id : String)
      (w : GateTables ids objects) (r : Result RecordError Arrival)
      → GateCall w idle (arrived p ids objects sv registry key id w r).0
  unfolding arrived
  arrived-Moves sv registry key id w (err error) = done
  arrived-Moves sv registry key id w (ok a) = stored-Moves sv registry key a w _

  quarantined-Moves :
      (w : GateTables ids objects) (r : Result Failure objects.Items)
      → GateCall w idle (quarantined p ids objects w r).0
  unfolding quarantined
  quarantined-Moves w (err failure) = done
  quarantined-Moves w (ok items) = more (refuse items) done

  except_record-Moves :
      (sv : Services) (id : String) (w v : GateTables ids objects)
      (r : Result RecordError (Unit {0}))
      → GateCall w idle v
      → GateCall w idle (except_record p ids objects sv id (v, r)).0
  unfolding except_record
  except_record-Moves sv id w v (ok _) moves = moves
  except_record-Moves sv id w v (err (unexpected failure)) moves = moves
  except_record-Moves sv id w v (err (contract_error reason raw)) moves =
      Moves-append _ _ _ moves (quarantined-Moves v _)

  handle_record-Moves :
      (sv : Services) (registry : Registry) (key : List ℕ) (r : Fields) (w : GateTables ids objects)
      → GateCall w idle (handle_record p ids objects sv registry key r w).0
  unfolding handle_record try_record
  handle_record-Moves sv registry key r w =
      except_record-Moves sv _ w _ _ (arrived-Moves sv registry key _ w (arrival_of p sv r))

  then_rest-Moves :
      (w v u : GateTables ids objects) (r s : Result Failure (List String))
      → GateCall w idle v
      → GateCall v idle u
      → GateCall w idle (then_rest p ids objects (v, r) (u, s)).0
  unfolding then_rest add_failures
  then_rest-Moves w v u (err failure) s first later = first
  then_rest-Moves w v u (ok failures) (err failure) first later = Moves-append _ _ _ first later
  then_rest-Moves w v u (ok failures) (ok more_failures) first later =
      Moves-append _ _ _ first later

  handler-Moves :
      (registry : Registry) (key : List ℕ) (batch : List (Fields × Services))
      (w : GateTables ids objects)
      → GateCall w idle (handler p ids objects registry key batch w).0
  unfolding handler
  handler-Moves registry key [] w = done
  handler-Moves registry key ((r, sv) ∷ rest) w =
      then_rest-Moves w _ _ _ _ (handle_record-Moves sv registry key r w)
        (handler-Moves registry key rest _)

  -- A call of the schema and identity gate's handler on a batch of records, with any services for
  -- each and whether it returns or raises, is a run of the interleaved steps of one idle worker
  -- that ends in the handler's tables with the worker idle again.
  pub handler-GateRuns :
      (registry : Registry) (key : List ℕ) (batch : List (Fields × Services)) (i : ℕ)
      (s : GateState p ids objects)
      → s.workers i ≡ idle
      → (t : GateState p ids objects) × GateRuns p ids objects s t
        × (t.world ≡ (handler p ids objects registry key batch s.world).0)
        × (t.workers i ≡ idle)
  handler-GateRuns registry key batch i s free =
      Moves-Runs (GateTables ids objects) Publisher (Advance p ids objects) i
        (handler-Moves registry key batch s.world) s s here refl free
