-- ===== src/IdentityGate/Steps.antt =====
-- Calls of `handler` of lambdas/schema_identity_gate/handler.py that run at the same time: each call
-- of a service is one step, the steps of all workers interleave, and a call may end after any of them.
pub mod Backed
pub mod Writes
pub mod Kept
pub mod First
pub mod Refines
use ledgerflow_payment_recon.Prelude.{ℕ, String, ◌≡◌, List, Option, none}
use ledgerflow_payment_recon.Prelude.Result.{ok}
use ledgerflow_payment_recon.Json.{Fields}
use ledgerflow_payment_recon.Contracts.{Platform, Registry, PaymentEvent}
use ledgerflow_payment_recon.Contracts.Identity.{identity_fingerprint}
use ledgerflow_payment_recon.Contracts.Validate.{validate_event}
use ledgerflow_payment_recon.Interleaving.{State, Runs}
use ledgerflow_payment_recon.Services.{KeyValue, Failure}
use ledgerflow_payment_recon.IdentityGate.{Identity, accepted_key_of, accepted_body}
use ledgerflow_payment_recon.IdentityGate.Publish.{
  GateTables, claim, claimed, taken, read_standing, unpublished, put_object, mark,
}

-- A payment that the handler publishes: what `validate_event` made of a payload, and the payload's
-- fingerprint.
pub record Payment : Type 0 where
  pub event : PaymentEvent
  pub fingerprint : String

abbrev pub IsValidated : Platform → Payment → Type 0
IsValidated p y =
    (payload : Fields) × (registry : Registry) × (key : List ℕ) × (validate_event p payload registry
        key
      ≡ ok y.event)
    × (identity_fingerprint p payload ≡ y.fingerprint)

-- Where the publication of a payment stands.
pub data Publisher : Type 0 where
  idle : Publisher
  claiming : Payment → Publisher
  reading : Payment → Publisher
  writing : Payment → Publisher
  marking : Payment → Publisher

module _ (p : Platform) (ids : KeyValue Identity) (objects : KeyValue String) where
  pub data Advance (w : GateTables ids objects)
      : Publisher → GateTables ids objects → Publisher → Type 0 where
    -- The bronze and the quarantine buckets take no part in the publication.
    store_raw : (items : objects.Items) → Advance w idle (record w { bronze = items }) idle
    refuse : (items : objects.Items) → Advance w idle (record w { quarantine = items }) idle
    conflict :
        (y : Payment) (items : objects.Items)
        → Advance w (reading y) (record w { quarantine = items }) idle
    validate : (y : Payment) → IsValidated p y → Advance w idle w (claiming y)
    claim_new :
        (fault : Option Failure) (y : Payment) (arrival : String) (items : ids.Items)
        → claim ids objects fault y.event y.fingerprint arrival w.identities ≡ claimed items
        → Advance w (claiming y) (record w { identities = items }) (writing y)
    claim_taken :
        (fault : Option Failure) (y : Payment) (arrival : String)
        → claim ids objects fault y.event y.fingerprint arrival w.identities ≡ taken
        → Advance w (claiming y) w (reading y)
    resume :
        (fault : Option Failure) (y : Payment)
        → read_standing ids objects fault y.event y.fingerprint w.identities ≡ ok unpublished
        → Advance w (reading y) w (writing y)
    write :
        (fault : Option Failure) (y : Payment) (items : objects.Items)
        → put_object ids objects fault (accepted_key_of y.event) (accepted_body y.event) w.accepted
          ≡ ok items
        → Advance w (writing y) (record w { accepted = items }) (marking y)
    publish :
        (fault : Option Failure) (y : Payment) (items : ids.Items)
        → mark ids objects fault y.event y.fingerprint w.identities ≡ ok items
        → Advance w (marking y) (record w { identities = items }) idle
    -- An error, or the end of the process.
    leave : (q : Publisher) → Advance w q w idle

  abbrev pub GateState : Type 0
  GateState = State (GateTables ids objects) Publisher

  abbrev pub GateRuns : GateState → GateState → Type 0
  GateRuns = Runs (GateTables ids objects) Publisher Advance

  -- No call is under way, and no event was seen or published.
  pub record IsNew (s : GateState) : Type 0 where
    pub all_idle : (i : ℕ) → s.workers i ≡ idle
    pub no_identities : (id : String) → ids.item s.world.identities id ≡ none
    pub nothing_accepted : (key : String) → objects.item s.world.accepted key ≡ none
