-- ===== src/IdentityGate/Steps/Backed.antt =====
-- The invariant of concurrent calls of lambdas/schema_identity_gate/handler.py.
use ledgerflow_payment_recon.Prelude.{
  String, ◌≡◌, refl, ◌∙◌, true, Option, none, some, inl, inr, ◌==◌, eq_String, eq_iff, arith,
  Option-cases,
}
use ledgerflow_payment_recon.Prelude.Result.{ok}
use ledgerflow_payment_recon.Prelude.Text.{text_cases, eq_false}
use ledgerflow_payment_recon.Contracts.{Platform}
use ledgerflow_payment_recon.Services.{KeyValue, Failure}
use ledgerflow_payment_recon.IdentityGate.{Identity, accepted_key_of, accepted_body}
use ledgerflow_payment_recon.IdentityGate.Publish.{
  GateTables, pending, standing_of, unpublished, claim, claimed, read_standing, put_object, mark,
}
use ledgerflow_payment_recon.IdentityGate.Steps.{
  Payment, IsValidated, Publisher, idle, claiming, reading, writing, marking,
}

module _ (p : Platform) (ids : KeyValue Identity) (objects : KeyValue String) where
  abbrev pub HasIdentity : GateTables ids objects → Payment → Type 0
  HasIdentity w y =
      (row : Identity) × (ids.item w.identities y.event.event_id ≡ some row)
      × (row.identity_sha256 ≡ y.fingerprint)

  abbrev pub IsWritten : GateTables ids objects → Payment → Type 0
  IsWritten w y = (body : String) × (objects.item w.accepted (accepted_key_of y.event) ≡ some body)

  pub record IsBacked (w : GateTables ids objects) : Type 0 where
    pub object_backed :
        (key body : String)
        → objects.item w.accepted key ≡ some body
        → (y : Payment) × IsValidated p y
          × (key ≡ accepted_key_of y.event)
          × (body ≡ accepted_body y.event)
          × HasIdentity w y
    pub published_backed :
        (id : String) (row : Identity)
        → ids.item w.identities id ≡ some row
        → row.publication_status ≡ "PUBLISHED"
        → (y : Payment) × IsValidated p y
          × (y.event.event_id ≡ id)
          × (row.identity_sha256 ≡ y.fingerprint)
          × IsWritten w y

  abbrev pub PublisherOk : GateTables ids objects → Publisher → Type 0
  PublisherOk w idle = Unit
  PublisherOk w (claiming y) = IsValidated p y
  PublisherOk w (reading y) = IsValidated p y
  PublisherOk w (writing y) = IsValidated p y × HasIdentity w y
  PublisherOk w (marking y) = IsValidated p y × HasIdentity w y × IsWritten w y

  -- An identity keeps its fingerprint, and an accepted object stays.
  abbrev pub Later : GateTables ids objects → GateTables ids objects → Type 0
  Later w v =
      ((id : String) (row : Identity)
        → ids.item w.identities id ≡ some row
        → (now : Identity) × (ids.item v.identities id ≡ some now)
          × (now.identity_sha256 ≡ row.identity_sha256))
      × ((key body : String)
          → objects.item w.accepted key ≡ some body
          → (now : String) × (objects.item v.accepted key ≡ some now))

  pub Later-refl : (w : GateTables ids objects) → Later w w
  Later-refl w = (λ id row h. (row, h, refl), λ key body h. (body, h))

  pub Later-trans : (w v u : GateTables ids objects) → Later w v → Later v u → Later w u
  Later-trans w v u a b = (
    λ id row h. let (mid, i, e) = a.0 id row h in let (now, j, f) = b.0 id mid i in (now, j, f ∙ e),
    λ key body h. let (mid, i) = a.1 key body h in b.1 key mid i,
  )

  HasIdentity-Later :
      (w v : GateTables ids objects) (y : Payment) → Later w v → HasIdentity w y → HasIdentity v y
  HasIdentity-Later w v y a (row, i, e) = let (now, j, f) = a.0 _ row i in (now, j, f ∙ e)

  pub PublisherOk-Later :
      (w v : GateTables ids objects) (q : Publisher) → Later w v → PublisherOk w q → PublisherOk v q
  PublisherOk-Later w v idle a k = tt
  PublisherOk-Later w v (claiming y) a k = k
  PublisherOk-Later w v (reading y) a k = k
  PublisherOk-Later w v (writing y) a (k, has) = (k, HasIdentity-Later w v y a has)
  PublisherOk-Later w v (marking y) a (k, has, (body, i)) =
      (k, HasIdentity-Later w v y a has, a.1 _ body i)

  -- What an answer of the services says of the tables before it.
  pub claim-eq :
      (fault : Option Failure) (y : Payment) (arrival : String) (items written : ids.Items)
      → claim ids objects fault y.event y.fingerprint arrival items ≡ claimed written
      → (ids.item items y.event.event_id ≡ none)
        × (ids.put items y.event.event_id (pending y.event y.fingerprint arrival) ≡ written)
  unfolding claim
  claim-eq (some failure) y arrival items written h = cc
  claim-eq none y arrival items written h = elim (Option-cases (ids.item items y.event.event_id)) [
    | inl e ↦ let k = rw e at h in (e, cc)
    | inr (row, e) ↦ let k = rw e at h in cc
  ]

  standing-eq :
      (fingerprint : String) (row : Identity)
      → standing_of fingerprint row ≡ unpublished
      → row.identity_sha256 ≡ fingerprint
  unfolding standing_of
  standing-eq fingerprint row h = ground (arith, h, eq_iff row.identity_sha256 fingerprint)

  pub read_standing-HasIdentity :
      (fault : Option Failure) (y : Payment) (w : GateTables ids objects)
      → read_standing ids objects fault y.event y.fingerprint w.identities ≡ ok unpublished
      → HasIdentity w y
  unfolding read_standing
  read_standing-HasIdentity (some failure) y w h = cc
  read_standing-HasIdentity none y w h =
      elim (Option-cases (ids.item w.identities y.event.event_id)) [
        | inl e ↦ let k = rw e at h in cc
        | inr (row, e) ↦ let k = rw e at h in (row, e, standing-eq y.fingerprint row (cc))
      ]

  pub put_object-eq :
      (fault : Option Failure) (key body : String) (items written : objects.Items)
      → put_object ids objects fault key body items ≡ ok written
      → objects.put items key body ≡ written
  unfolding put_object
  put_object-eq (some failure) key body items written h = cc
  put_object-eq none key body items written h = cc

  pub mark-eq :
      (fault : Option Failure) (y : Payment) (items written : ids.Items)
      → mark ids objects fault y.event y.fingerprint items ≡ ok written
      → (row : Identity) × (ids.item items y.event.event_id ≡ some row)
        × (row.identity_sha256 ≡ y.fingerprint)
        × (ids.put items y.event.event_id (record row { publication_status = "PUBLISHED" })
            ≡ written)
  unfolding mark
  mark-eq (some failure) y items written h = cc
  mark-eq none y items written h = elim (Option-cases (ids.item items y.event.event_id)) [
    | inl e ↦ let k = rw e at h in cc
    | inr (row, e) ↦
        let k = rw e at h in
        elim (text_cases row.identity_sha256 y.fingerprint) [
          | inl same ↦
              let equal : (row.identity_sha256 == y.fingerprint) ≡ true =
                (eq_iff row.identity_sha256 y.fingerprint).1 same in
              let l = rw equal at k in (row, e, same, cc)
          | inr apart ↦ let l = rw (eq_false _ _ apart) at k in cc
        ]
  ]
