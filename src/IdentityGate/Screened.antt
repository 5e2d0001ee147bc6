-- ===== src/IdentityGate/Screened.antt =====
-- What `handler` of lambdas/schema_identity_gate/handler.py lets into the bronze bucket.
use ledgerflow_payment_recon.Prelude.{
  ℕ, String, ◌≡◌, refl, sym, ap, ◌∙◌, List, [], ◌∷◌, Option, none, some, inl, inr,
}
use ledgerflow_payment_recon.Prelude.Result.{Result, ok, err, ok_inj, after_ok}
use ledgerflow_payment_recon.Prelude.Text.{text_cases}
use ledgerflow_payment_recon.Json.{Fields, get}
use ledgerflow_payment_recon.Contracts.{Platform, Registry, PaymentEvent}
use ledgerflow_payment_recon.Contracts.Privacy.{reject_prohibited_fields}
use ledgerflow_payment_recon.Contracts.Privacy.Safe.{
  FieldsFree, reject_prohibited_fields-FieldsFree,
}
use ledgerflow_payment_recon.Contracts.Identity.{
  extract_business_payload, EnvelopeError, contract, unhashable, identity_fingerprint,
}
use ledgerflow_payment_recon.Services.{KeyValue, IsLawful, Failure}
use ledgerflow_payment_recon.IdentityGate.{Identity, Services, json_body}
use ledgerflow_payment_recon.IdentityGate.Publish.{
  GateTables, Claim, claimed, taken, claim_failed, Standing, conflicting, already_published,
  unpublished, put_object, mark, mark_answer, write_answer, write_accepted, conflict_answer,
  standing_answer, claim_answer, publish_accepted,
}
use ledgerflow_payment_recon.IdentityGate.Handler.{
  RecordError, contract_error, unexpected, Arrival, arrival_of, raw_key_of, decoded_object,
  kinesis_of, raised, raised_contract, raised_envelope, published, validated, stored, arrived,
  try_record, quarantined, except_record, handle_record, then_rest, add_failures, handler,
}

module _ (p : Platform) where
  -- An arrival whose business payload has no prohibited key at any depth.
  abbrev pub IsScreened : Arrival → Type 0
  IsScreened a = (extract_business_payload a.raw ≡ ok a.payload) × FieldsFree p a.payload

  raised_envelope-eq :
      (raw payload : Fields) (r : Result EnvelopeError Fields)
      → raised_envelope raw r ≡ ok payload
      → r ≡ ok payload
  unfolding raised_envelope
  raised_envelope-eq raw payload (ok fs) h = ap ok (ok_inj h)
  raised_envelope-eq raw payload (err (contract reason)) h = cc
  raised_envelope-eq raw payload (err unhashable) h = cc

  raised_contract-eq :
      (raw : Fields) (r : Result String (Unit {0})) → raised_contract raw r ≡ ok tt → r ≡ ok tt
  unfolding raised_contract
  raised_contract-eq raw (ok tt) h = refl
  raised_contract-eq raw (err reason) h = cc

  arrival_of-IsScreened :
      (sv : Services) (fs : Fields) (a : Arrival) → arrival_of p sv fs ≡ ok a → IsScreened a
  unfolding arrival_of
  arrival_of-IsScreened sv fs a h =
      after_ok (raised (kinesis_of (get "kinesis" fs))) _ h λ encoded h1 k1.
        after_ok (raised (sv.decode encoded)) _ k1 λ value h2 k2.
          after_ok (decoded_object value) _ k2 λ raw h3 k3.
            after_ok (raised_envelope raw (extract_business_payload raw)) _ k3 λ payload h4 k4.
              after_ok (raised_contract raw (reject_prohibited_fields p payload)) _ k4 λ u h5 k5.
                rw (sym (ok_inj k5)) (
                  raised_envelope-eq raw payload (extract_business_payload raw) h4,
                  (reject_prohibited_fields-FieldsFree p payload).0
                      (raised_contract-eq raw (reject_prohibited_fields p payload) h5),
                )

  module _ (ids : KeyValue Identity) (objects : KeyValue String) (law : IsLawful objects) where
    pub record IsClean (w : GateTables ids objects) : Type 0 where
      pub screened :
          (key body : String)
          → objects.item w.bronze key ≡ some body
          → (a : Arrival) × IsScreened a × (body ≡ json_body a.raw)

    -- Only `bronze` matters.
    IsClean-same : (w v : GateTables ids objects) → w.bronze ≡ v.bronze → IsClean w → IsClean v
    IsClean-same w v e c = record { screened = λ key body h. c.screened key body (rw e h) }

    IsClean-put :
        (w : GateTables ids objects) (key : String) (a : Arrival)
        → IsScreened a
        → IsClean w
        → IsClean (record w { bronze = objects.put w.bronze key (json_body a.raw) })
    IsClean-put w key a good c = record {
      screened = λ k body h. elim (text_cases k key) [
        | inl same ↦
            let read = rw same at h in
            (a, good, cc (law.item-put w.bronze key (json_body a.raw), read))
        | inr apart ↦ c.screened k body (sym (law.item-put-other _ _ _ _ apart) ∙ h)
      ];
    }

    module _ (sv : Services) (e : PaymentEvent) (fingerprint : String) where
      mark_answer-bronze :
          (w : GateTables ids objects) (r : Result Failure ids.Items)
          → w.bronze ≡ (mark_answer ids objects w r).0.bronze
      unfolding mark_answer
      mark_answer-bronze w (err failure) = refl
      mark_answer-bronze w (ok items) = refl

      write_answer-bronze :
          (w : GateTables ids objects) (r : Result Failure objects.Items)
          → w.bronze ≡ (write_answer ids objects sv e fingerprint w r).0.bronze
      unfolding write_answer
      write_answer-bronze w (err failure) = refl
      write_answer-bronze w (ok items) =
          mark_answer-bronze (record w { accepted = items })
            (mark ids objects sv.update_item_fault e fingerprint w.identities)

      conflict_answer-bronze :
          (w : GateTables ids objects) (r : Result Failure objects.Items)
          → w.bronze ≡ (conflict_answer ids objects w r).0.bronze
      unfolding conflict_answer
      conflict_answer-bronze w (err failure) = refl
      conflict_answer-bronze w (ok items) = refl

      write_accepted-bronze :
          (w : GateTables ids objects)
          → w.bronze ≡ (write_accepted ids objects sv e fingerprint w).0.bronze
      unfolding write_accepted
      write_accepted-bronze w = write_answer-bronze w _

      standing_answer-bronze :
          (w : GateTables ids objects) (r : Result Failure Standing)
          → w.bronze ≡ (standing_answer ids objects sv e fingerprint w r).0.bronze
      unfolding standing_answer
      standing_answer-bronze w (err failure) = refl
      standing_answer-bronze w (ok already_published) = refl
      standing_answer-bronze w (ok unpublished) = write_accepted-bronze w
      standing_answer-bronze w (ok conflicting) = conflict_answer-bronze w _

      claim_answer-bronze :
          (w : GateTables ids objects) (r : Claim ids.Items)
          → w.bronze ≡ (claim_answer ids objects sv e fingerprint w r).0.bronze
      unfolding claim_answer
      claim_answer-bronze w (claim_failed failure) = refl
      claim_answer-bronze w (claimed items) =
          write_accepted-bronze (record w { identities = items })
      claim_answer-bronze w taken = standing_answer-bronze w _

    validated-bronze :
        (sv : Services) (raw payload : Fields) (r : Result String PaymentEvent)
        (w : GateTables ids objects)
        → w.bronze ≡ (validated p ids objects sv raw payload r w).0.bronze
    unfolding validated published publish_accepted
    validated-bronze sv raw payload (err reason) w = refl
    validated-bronze sv raw payload (ok e) w =
        claim_answer-bronze sv e (identity_fingerprint p payload) w _

    stored-IsClean :
        (sv : Services) (registry : Registry) (key : List ℕ) (a : Arrival) (at_key : String)
        (w : GateTables ids objects) (fault : Option Failure)
        → IsScreened a
        → IsClean w
        → IsClean
            (stored p ids objects sv registry key a w
              (put_object ids objects fault at_key (json_body a.raw) w.bronze)).0
    unfolding stored put_object
    stored-IsClean sv registry key a at_key w (some failure) good c = c
    stored-IsClean sv registry key a at_key w none good c =
        IsClean-same _ _ (validated-bronze sv a.raw a.payload _ _) (IsClean-put w at_key a good c)

    arrived-IsClean :
        (sv : Services) (registry : Registry) (key : List ℕ) (fs : Fields) (id : String)
        (w : GateTables ids objects) (r : Result RecordError Arrival)
        → arrival_of p sv fs ≡ r
        → IsClean w
        → IsClean (arrived p ids objects sv registry key id w r).0
    unfolding arrived
    arrived-IsClean sv registry key fs id w (err error) e c = c
    arrived-IsClean sv registry key fs id w (ok a) e c =
        stored-IsClean sv registry key a (raw_key_of sv id) w sv.bronze_fault
          (arrival_of-IsScreened sv fs a e) c

    quarantined-bronze :
        (w : GateTables ids objects) (r : Result Failure objects.Items)
        → w.bronze ≡ (quarantined p ids objects w r).0.bronze
    unfolding quarantined
    quarantined-bronze w (err failure) = refl
    quarantined-bronze w (ok items) = refl

    except_record-bronze :
        (sv : Services) (id : String) (w : GateTables ids objects)
        (r : Result RecordError (Unit {0}))
        → w.bronze ≡ (except_record p ids objects sv id (w, r)).0.bronze
    unfolding except_record
    except_record-bronze sv id w (ok _) = refl
    except_record-bronze sv id w (err (unexpected failure)) = refl
    except_record-bronze sv id w (err (contract_error reason raw)) = quarantined-bronze w _

    handle_record-IsClean :
        (sv : Services) (registry : Registry) (key : List ℕ) (r : Fields)
        (w : GateTables ids objects)
        → IsClean w
        → IsClean (handle_record p ids objects sv registry key r w).0
    unfolding handle_record try_record
    handle_record-IsClean sv registry key r w c =
        IsClean-same _ _ (except_record-bronze sv _ _ _)
          (arrived-IsClean sv registry key r _ w (arrival_of p sv r) refl c)

    then_rest-IsClean :
        (v u : GateTables ids objects) (r s : Result Failure (List String))
        → IsClean v
        → IsClean u
        → IsClean (then_rest p ids objects (v, r) (u, s)).0
    unfolding then_rest add_failures
    then_rest-IsClean v u (err failure) s first later = first
    then_rest-IsClean v u (ok failures) (err failure) first later = later
    then_rest-IsClean v u (ok failures) (ok more_failures) first later = later

    -- If every object of the bronze bucket is the text of an arrival whose business payload has
    -- no prohibited key, in any letter case and at any depth, the same holds after a call of the
    -- schema and identity gate's handler, whether it returns or raises.
    pub handler-IsClean :
        (registry : Registry) (key : List ℕ) (batch : List (Fields × Services))
        (w : GateTables ids objects)
        → IsClean w
        → IsClean (handler p ids objects registry key batch w).0
    unfolding handler
    handler-IsClean registry key [] w c = c
    handler-IsClean registry key ((r, sv) ∷ rest) w c =
        let first = handle_record-IsClean sv registry key r w c in
        then_rest-IsClean _ _ _ _ first (handler-IsClean registry key rest _ first)
