-- ===== src/IdentityGate/Steps/Writes.antt =====
-- The three writes of lambdas/schema_identity_gate/handler.py keep the invariant: the claim of an
-- identity, the accepted object and the mark of publication.
use ledgerflow_payment_recon.Prelude.{
  String, ◌≡◌, ◌≢◌, refl, sym, ap, ◌∙◌, none, some, inl, inr, Bool, true, false, ◌==◌, eq_String,
}
use ledgerflow_payment_recon.Prelude.Text.{text_cases}
use ledgerflow_payment_recon.Contracts.{Platform}
use ledgerflow_payment_recon.Services.{KeyValue, IsLawful}
use ledgerflow_payment_recon.IdentityGate.{Identity, accepted_key_of, accepted_body}
use ledgerflow_payment_recon.IdentityGate.Publish.{GateTables, pending}
use ledgerflow_payment_recon.IdentityGate.Steps.{Payment, IsValidated}
use ledgerflow_payment_recon.IdentityGate.Steps.Backed.{HasIdentity, IsWritten, IsBacked, Later}

put-hit :
    {Row : Type 0} (kv : KeyValue Row) (law : IsLawful kv) (items : kv.Items) (k : String)
    (r q : Row)
    → kv.item (kv.put items k r) k ≡ some q
    → r ≡ q
put-hit kv law items k r q h = cc (law.item-put items k r, h)

abbrev is_published : String → Bool
is_published s = s == "PUBLISHED"

not_published : (s : String) → "PENDING" ≡ s → s ≢ "PUBLISHED"
not_published s a e = let clash : false ≡ true = ap is_published (a ∙ e) in cc

module _ (p : Platform) (ids : KeyValue Identity) (objects : KeyValue String)
    (id_law : IsLawful ids) (object_law : IsLawful objects) (w : GateTables ids objects) where
  abbrev claimed_in : Payment → String → GateTables ids objects
  claimed_in y arrival = record w {
    identities = ids.put w.identities y.event.event_id (pending y.event y.fingerprint arrival);
  }

  pub claim-Later :
      (y : Payment) (arrival : String)
      → ids.item w.identities y.event.event_id ≡ none
      → Later p ids objects w (claimed_in y arrival)
  claim-Later y arrival absent = (
    λ id row h. elim (text_cases id y.event.event_id) [
      | inl same ↦ let k = rw same at h in absurd (cc (absent, k))
      | inr apart ↦ (row, id_law.item-put-other _ _ _ _ apart ∙ h, refl)
    ],
    λ key body h. (body, h),
  )

  pub claim-HasIdentity :
      (y : Payment) (arrival : String) → HasIdentity p ids objects (claimed_in y arrival) y
  claim-HasIdentity y arrival = (pending y.event y.fingerprint arrival, id_law.item-put _ _ _, refl)

  pub claim-IsBacked :
      (y : Payment) (arrival : String)
      → ids.item w.identities y.event.event_id ≡ none
      → IsBacked p ids objects w
      → IsBacked p ids objects (claimed_in y arrival)
  claim-IsBacked y arrival absent b = record {
    object_backed = λ key body h.
        let (z, valid, at_key, same_body, (row, i, e)) = b.object_backed key body h in
        let (now, j, f) = (claim-Later y arrival absent).0 _ row i in
        (z, valid, at_key, same_body, (now, j, f ∙ e));
    published_backed = λ id row h published. elim (text_cases id y.event.event_id) [
      | inl same ↦
          let r = put-hit ids id_law _ _ _ row (rw same at h) in
          absurd (not_published row.publication_status (ap Identity.publication_status r) published)
      | inr apart ↦
          b.published_backed id row (sym (id_law.item-put-other _ _ _ _ apart) ∙ h) published
    ];
  }

  abbrev written_in : Payment → GateTables ids objects
  written_in y = record w {
    accepted = objects.put w.accepted (accepted_key_of y.event) (accepted_body y.event);
  }

  pub write-Later : (y : Payment) → Later p ids objects w (written_in y)
  write-Later y = (
    λ id row h. (row, h, refl),
    λ key body h. elim (text_cases key (accepted_key_of y.event)) [
      | inl same ↦ (accepted_body y.event, rw same (object_law.item-put _ _ _))
      | inr apart ↦ (body, object_law.item-put-other _ _ _ _ apart ∙ h)
    ],
  )

  pub write-IsBacked :
      (y : Payment)
      → IsValidated p y
      → HasIdentity p ids objects w y
      → IsBacked p ids objects w
      → IsBacked p ids objects (written_in y)
  write-IsBacked y valid has b = record {
    object_backed = λ key body h. elim (text_cases key (accepted_key_of y.event)) [
      | inl same ↦ (y, valid, same, sym (put-hit objects object_law _ _ _ body (rw same at h)), has)
      | inr apart ↦ b.object_backed key body (sym (object_law.item-put-other _ _ _ _ apart) ∙ h)
    ];
    published_backed = λ id row h published.
        let (z, good, e, f, (body, i)) = b.published_backed id row h published in
        (z, good, e, f, (write-Later y).1 _ body i);
  }

  abbrev marked_in : Payment → Identity → GateTables ids objects
  marked_in y row = record w {
    identities =
        ids.put w.identities y.event.event_id (record row { publication_status = "PUBLISHED" });
  }

  pub mark-Later :
      (y : Payment) (row : Identity)
      → ids.item w.identities y.event.event_id ≡ some row
      → Later p ids objects w (marked_in y row)
  mark-Later y row there = (
    λ id old h. elim (text_cases id y.event.event_id) [
      | inl same ↦
          let k = rw same at h in
          let r : row ≡ old = cc (there, k) in
          (
            record row { publication_status = "PUBLISHED" },
            rw same (id_law.item-put _ _ _),
            ap Identity.identity_sha256 r,
          )
      | inr apart ↦ (old, id_law.item-put-other _ _ _ _ apart ∙ h, refl)
    ],
    λ key body h. (body, h),
  )

  pub mark-IsBacked :
      (y : Payment) (row : Identity)
      → ids.item w.identities y.event.event_id ≡ some row
      → row.identity_sha256 ≡ y.fingerprint
      → IsValidated p y
      → IsWritten p ids objects w y
      → IsBacked p ids objects w
      → IsBacked p ids objects (marked_in y row)
  mark-IsBacked y row there same_print valid written b = record {
    object_backed = λ key body h.
        let (z, good, at_key, same_body, (old, i, e)) = b.object_backed key body h in
        let (now, j, f) = (mark-Later y row there).0 _ old i in
        (z, good, at_key, same_body, (now, j, f ∙ e));
    published_backed = λ id now h published. elim (text_cases id y.event.event_id) [
      | inl same ↦
          let r = put-hit ids id_law _ _ _ now (rw same at h) in
          (y, valid, sym same, sym (ap Identity.identity_sha256 r) ∙ same_print, written)
      | inr apart ↦
          b.published_backed id now (sym (id_law.item-put-other _ _ _ _ apart) ∙ h) published
    ];
  }
