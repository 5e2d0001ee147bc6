-- ===== src/IdentityGate/Steps/First.antt =====
-- What holds of every run of concurrent calls of lambdas/schema_identity_gate/handler.py.
use ledgerflow_payment_recon.Prelude.{String, ◌≡◌, sym, ap, ◌∙◌, true, some}
use ledgerflow_payment_recon.Contracts.{Platform}
use ledgerflow_payment_recon.Contracts.Validate.{is_identifier}
use ledgerflow_payment_recon.Contracts.Validate.Sound.{validate_event-IsContractual}
use ledgerflow_payment_recon.Services.{KeyValue, IsLawful}
use ledgerflow_payment_recon.IdentityGate.{Identity, accepted_key_of, accepted_body}
use ledgerflow_payment_recon.IdentityGate.Keys.{accepted_key_of-injective}
use ledgerflow_payment_recon.IdentityGate.Steps.{Payment, IsValidated, GateState, GateRuns, IsNew}
use ledgerflow_payment_recon.IdentityGate.Steps.Kept.{GateRuns-Consistent, IsNew-Consistent}

validated-identifier :
    (p : Platform) (y : Payment) → IsValidated p y → is_identifier y.event.event_id ≡ true
validated-identifier p y (payload, registry, key, valid, _) =
    (validate_event-IsContractual p payload registry key y.event valid).event_id

module _ (p : Platform) (ids : KeyValue Identity) (objects : KeyValue String)
    (id_law : IsLawful ids) (object_law : IsLawful objects) where
  -- Along any interleaving of calls of the schema and identity gate, from a state that is reached
  -- from one without calls, identities and accepted objects, and over tables whose reads see the
  -- writes, an event that has an identity keeps it with the fingerprint that was recorded first.
  pub first_identity_stays :
      (r s t : GateState p ids objects) (id : String) (row : Identity)
      → IsNew p ids objects r
      → GateRuns p ids objects r s
      → GateRuns p ids objects s t
      → ids.item s.world.identities id ≡ some row
      → (now : Identity) × (ids.item t.world.identities id ≡ some now)
        × (now.identity_sha256 ≡ row.identity_sha256)
  first_identity_stays r s t id row new before after h =
      let (_, c) =
        GateRuns-Consistent p ids objects id_law object_law r s before
          (IsNew-Consistent p ids objects id_law object_law r new) in
      let (later, _) = GateRuns-Consistent p ids objects id_law object_law s t after c in
      later.0 id row h

  -- From a state where no call of the schema and identity gate is under way, no event is known
  -- and nothing is accepted, and over tables whose reads see the writes, any interleaving of
  -- calls, each of which may fail or end between two service calls, keeps this: an event that the
  -- identity table says is PUBLISHED has an object in the accepted bucket, at the key of a
  -- validated payment with its event id and fingerprint, and the object is the text of a
  -- validated payment with that event id and fingerprint.
  pub published_object :
      (s t : GateState p ids objects) (id : String) (row : Identity)
      → IsNew p ids objects s
      → GateRuns p ids objects s t
      → ids.item t.world.identities id ≡ some row
      → row.publication_status ≡ "PUBLISHED"
      → (y : Payment) × (z : Payment) × IsValidated p y
        × IsValidated p z
        × (y.event.event_id ≡ id)
        × (z.event.event_id ≡ id)
        × (y.fingerprint ≡ row.identity_sha256)
        × (z.fingerprint ≡ row.identity_sha256)
        × (objects.item t.world.accepted (accepted_key_of y.event) ≡ some (accepted_body z.event))
  published_object s t id row new runs h published =
      let (_, c) =
        GateRuns-Consistent p ids objects id_law object_law s t runs
          (IsNew-Consistent p ids objects id_law object_law s new) in
      let (y, yv, yid, yprint, (body, written)) = c.good.published_backed id row h published in
      let (z, zv, at_key, zbody, (zrow, there, zprint)) =
        c.good.object_backed (accepted_key_of y.event) body written in
      let same =
        accepted_key_of-injective z.event y.event (validated-identifier p z zv)
          (validated-identifier p y yv) (sym at_key) in
      let zid = same ∙ yid in
      let here = rw zid at there in
      let one_row : zrow ≡ row = cc (here, h) in
      (
        y,
        z,
        yv,
        zv,
        yid,
        zid,
        sym yprint,
        sym zprint ∙ ap Identity.identity_sha256 one_row,
        written ∙ ap some zbody,
      )
