-- ===== src/IdentityGate/Recovery.antt =====
-- A payment that is published again after a call of `_publish_accepted` in
-- lambdas/schema_identity_gate/handler.py that ended anywhere, and one that another payment precedes.
use ledgerflow_payment_recon.Prelude.{
  String, ◌≡◌, ◌≢◌, refl, ◌∙◌, true, false, none, some, ◌⊎◌, inl, inr, ◌==◌, eq_String, eq_iff,
  Bool-cases,
}
use ledgerflow_payment_recon.Prelude.Result.{ok}
use ledgerflow_payment_recon.Prelude.Text.{eq_false}
use ledgerflow_payment_recon.Contracts.{PaymentEvent}
use ledgerflow_payment_recon.Services.{KeyValue, IsLawful}
use ledgerflow_payment_recon.IdentityGate.{
  Identity, Services, json_body, accepted_key_of, accepted_body, conflict_key, conflict_fields,
}
use ledgerflow_payment_recon.IdentityGate.Publish.{
  GateTables, pending, standing_of, conflicting, already_published, unpublished, claim,
  read_standing, put_object, mark, mark_answer, write_answer, write_accepted, conflict_answer,
  standing_answer, claim_answer, publish_accepted,
}

-- No call of a service fails.
pub record IsAvailable (sv : Services) : Type 0 where
  pub puts : sv.put_item_fault ≡ none
  pub gets : sv.get_item_fault ≡ none
  pub updates : sv.update_item_fault ≡ none
  pub accepts : sv.accepted_fault ≡ none
  pub quarantines : sv.quarantine_fault ≡ none

standing_unpublished :
    (fingerprint : String) (row : Identity)
    → row.identity_sha256 ≡ fingerprint
    → (row.publication_status == "PUBLISHED") ≡ false
    → standing_of fingerprint row ≡ unpublished
unfolding standing_of
standing_unpublished fingerprint row same fresh =
    rw ((eq_iff row.identity_sha256 fingerprint).1 same, fresh) refl

standing_published :
    (fingerprint : String) (row : Identity)
    → row.identity_sha256 ≡ fingerprint
    → (row.publication_status == "PUBLISHED") ≡ true
    → standing_of fingerprint row ≡ already_published
unfolding standing_of
standing_published fingerprint row same done =
    rw ((eq_iff row.identity_sha256 fingerprint).1 same, done) refl

standing_conflicting :
    (fingerprint : String) (row : Identity)
    → row.identity_sha256 ≢ fingerprint
    → standing_of fingerprint row ≡ conflicting
unfolding standing_of
standing_conflicting fingerprint row apart =
    rw (eq_false row.identity_sha256 fingerprint apart) refl

module _ (ids : KeyValue Identity) (objects : KeyValue String) (law : IsLawful ids) where
  -- The event's identity is there with the fingerprint, and is published.
  abbrev IsPublished : PaymentEvent → String → GateTables ids objects → Type 0
  IsPublished e fingerprint v =
      (row : Identity) × (ids.item v.identities e.event_id ≡ some row)
      × (row.identity_sha256 ≡ fingerprint)
      × (row.publication_status ≡ "PUBLISHED")

  abbrev Completed :
      Services → PaymentEvent → String → GateTables ids objects → GateTables ids objects → Type 0
  Completed sv e fingerprint w v =
      (publish_accepted ids objects sv e fingerprint w ≡ (v, ok tt)) × IsPublished e fingerprint v

  marked : PaymentEvent → Identity → GateTables ids objects → GateTables ids objects
  marked e row w = record w {
    identities = ids.put w.identities e.event_id (record row { publication_status = "PUBLISHED" });
    accepted = objects.put w.accepted (accepted_key_of e) (accepted_body e);
  }

  write_accepted-marked :
      (sv : Services) (e : PaymentEvent) (fingerprint : String) (w : GateTables ids objects)
      (row : Identity)
      → IsAvailable sv
      → ids.item w.identities e.event_id ≡ some row
      → row.identity_sha256 ≡ fingerprint
      → write_accepted ids objects sv e fingerprint w ≡ (marked e row w, ok tt)
  unfolding write_accepted put_object write_answer mark mark_answer marked
  write_accepted-marked sv e fingerprint w row up there same =
      let equal : (row.identity_sha256 == fingerprint) ≡ true =
        (eq_iff row.identity_sha256 fingerprint).1 same in
      rw (up.accepts, up.updates, there, equal) refl

  marked-IsPublished :
      (e : PaymentEvent) (fingerprint : String) (w : GateTables ids objects) (row : Identity)
      → row.identity_sha256 ≡ fingerprint
      → IsPublished e fingerprint (marked e row w)
  unfolding marked
  marked-IsPublished e fingerprint w row same =
      (record row { publication_status = "PUBLISHED" }, law.item-put _ _ _, same, refl)

  publish_of_new :
      (sv : Services) (e : PaymentEvent) (fingerprint : String) (w : GateTables ids objects)
      → IsAvailable sv
      → ids.item w.identities e.event_id ≡ none
      → (v : GateTables ids objects) × Completed sv e fingerprint w v
  unfolding publish_accepted claim claim_answer
  publish_of_new sv e fingerprint w up absent =
      let row = pending e fingerprint sv.arrival_time in
      let started : GateTables ids objects = record w {
        identities = ids.put w.identities e.event_id row;
      } in
      (
        marked e row started,
        (
          rw (up.puts, absent)
              (write_accepted-marked sv e fingerprint started row up (law.item-put _ _ _) refl),
          marked-IsPublished e fingerprint started row refl,
        ),
      )

  read-standing :
      (sv : Services) (e : PaymentEvent) (fingerprint : String) (w : GateTables ids objects)
      (row : Identity)
      → IsAvailable sv
      → ids.item w.identities e.event_id ≡ some row
      → publish_accepted ids objects sv e fingerprint w
        ≡ standing_answer ids objects sv e fingerprint w (ok (standing_of fingerprint row))
  unfolding publish_accepted claim claim_answer read_standing
  read-standing sv e fingerprint w row up there = rw (up.puts, there, up.gets, there) refl

  publish_of_seen :
      (sv : Services) (e : PaymentEvent) (fingerprint : String) (w : GateTables ids objects)
      (row : Identity)
      → IsAvailable sv
      → ids.item w.identities e.event_id ≡ some row
      → row.identity_sha256 ≡ fingerprint
      → (v : GateTables ids objects) × Completed sv e fingerprint w v
  unfolding standing_answer
  publish_of_seen sv e fingerprint w row up there same =
      elim (Bool-cases (row.publication_status == "PUBLISHED")) [
        | inl done ↦ (
          w,
          (
            read-standing sv e fingerprint w row up there
                ∙ rw (standing_published fingerprint row same done) refl,
            (row, there, same, (eq_iff row.publication_status "PUBLISHED").0 done),
          ),
        )
        | inr fresh ↦ (
          marked e row w,
          (
            read-standing sv e fingerprint w row up there
                ∙ rw (standing_unpublished fingerprint row same fresh)
                    (write_accepted-marked sv e fingerprint w row up there same),
            marked-IsPublished e fingerprint w row same,
          ),
        )
      ]

  -- If no service call fails, publishing a payment whose event has no identity yet, or has one
  -- with the payment's own fingerprint, wherever an earlier call ended, succeeds and leaves the
  -- identity with that fingerprint and PUBLISHED.
  pub publish_completes :
      (sv : Services) (e : PaymentEvent) (fingerprint : String) (w : GateTables ids objects)
      → IsAvailable sv
      → (ids.item w.identities e.event_id ≡ none)
        ⊎ ((row : Identity) × (ids.item w.identities e.event_id ≡ some row)
            × (row.identity_sha256 ≡ fingerprint))
      → (v : GateTables ids objects) × Completed sv e fingerprint w v
  publish_completes sv e fingerprint w up (inl absent) = publish_of_new sv e fingerprint w up absent
  publish_completes sv e fingerprint w up (inr (row, there, same)) =
      publish_of_seen sv e fingerprint w row up there same

  -- Publishing a payment whose event already has an identity with another fingerprint, if no
  -- service call fails, changes neither the identity table nor the accepted bucket, and writes
  -- the payment to the quarantine bucket as an identity_payload_conflict.
  pub publish_of_conflict :
      (sv : Services) (e : PaymentEvent) (fingerprint : String) (w : GateTables ids objects)
      (row : Identity)
      → IsAvailable sv
      → ids.item w.identities e.event_id ≡ some row
      → row.identity_sha256 ≢ fingerprint
      → publish_accepted ids objects sv e fingerprint w ≡ (
        record w {
          quarantine = objects.put w.quarantine (conflict_key e) (json_body (conflict_fields e));
        },
        ok tt,
      )
  unfolding standing_answer put_object conflict_answer
  publish_of_conflict sv e fingerprint w row up there apart =
      read-standing sv e fingerprint w row up there
      ∙ rw (standing_conflicting fingerprint row apart, up.quarantines) refl
