-- ===== src/IdentityGate/Steps/Kept.antt =====
-- Every step of lambdas/schema_identity_gate/handler.py keeps the invariant.
use ledgerflow_payment_recon.Prelude.{String, sym, eq_String}
use ledgerflow_payment_recon.Contracts.{Platform}
use ledgerflow_payment_recon.Interleaving.{Holds, Runs-Holds}
use ledgerflow_payment_recon.Services.{KeyValue, IsLawful}
use ledgerflow_payment_recon.IdentityGate.{Identity, accepted_body}
use ledgerflow_payment_recon.IdentityGate.Publish.{GateTables}
use ledgerflow_payment_recon.IdentityGate.Steps.{
  Publisher, Advance, store_raw, refuse, conflict, validate, claim_new, claim_taken, resume, write,
  publish, leave, GateState, GateRuns, IsNew,
}
use ledgerflow_payment_recon.IdentityGate.Steps.Backed.{
  IsBacked, PublisherOk, Later, Later-refl, Later-trans, PublisherOk-Later, claim-eq,
  read_standing-HasIdentity, put_object-eq, mark-eq,
}
use ledgerflow_payment_recon.IdentityGate.Steps.Writes.{
  claim-Later, claim-HasIdentity, claim-IsBacked, write-Later, write-IsBacked, mark-Later,
  mark-IsBacked,
}

module _ (p : Platform) (ids : KeyValue Identity) (objects : KeyValue String) where
  abbrev After : Unit {0} → GateTables ids objects → Unit {0} → GateTables ids objects → Type 0
  After g w h v = Later p ids objects w v

  abbrev Good : Unit {0} → GateTables ids objects → Type 0
  Good g w = IsBacked p ids objects w

  abbrev Ok : Unit {0} → GateTables ids objects → Publisher → Type 0
  Ok g w q = PublisherOk p ids objects w q

  abbrev pub IsGateConsistent : GateState p ids objects → Type 0
  IsGateConsistent s = Holds Good Ok tt s

  module _ (id_law : IsLawful ids) (object_law : IsLawful objects) where
    -- The bronze and the quarantine buckets are not in the invariant.
    aside :
        (w : GateTables ids objects) (bronze quarantine : objects.Items)
        → IsBacked p ids objects w
        → IsBacked p ids objects (record w { bronze = bronze; quarantine = quarantine })
    aside w bronze quarantine b = record {
      object_backed = b.object_backed;
      published_backed = b.published_backed;
    }

    Advance-Kept :
        (g : Unit {0}) (w v : GateTables ids objects) (q r : Publisher)
        → Advance p ids objects w q v r
        → Good g w
        → Ok g w q
        → (h : Unit {0}) × After g w h v × Good h v × Ok h v r
    Advance-Kept g w v q r (store_raw items) b k =
        (g, Later-refl p ids objects w, aside w items w.quarantine b, tt)
    Advance-Kept g w v q r (refuse items) b k =
        (g, Later-refl p ids objects w, aside w w.bronze items b, tt)
    Advance-Kept g w v q r (conflict y items) b k =
        (g, Later-refl p ids objects w, aside w w.bronze items b, tt)
    Advance-Kept g w v q r (validate y valid) b k = (g, Later-refl p ids objects w, b, valid)
    Advance-Kept g w v q r (claim_new fault y arrival items e) b valid =
        let (absent, put) = claim-eq p ids objects fault y arrival w.identities items e in
        rw (sym put) (
          g,
          claim-Later p ids objects id_law object_law w y arrival absent,
          claim-IsBacked p ids objects id_law object_law w y arrival absent b,
          (valid, claim-HasIdentity p ids objects id_law object_law w y arrival),
        )
    Advance-Kept g w v q r (claim_taken fault y arrival e) b valid =
        (g, Later-refl p ids objects w, b, valid)
    Advance-Kept g w v q r (resume fault y e) b valid = (
      g,
      Later-refl p ids objects w,
      b,
      (valid, read_standing-HasIdentity p ids objects fault y w e),
    )
    Advance-Kept g w v q r (write fault y items e) b (valid, has) =
        let put = put_object-eq p ids objects fault _ _ w.accepted items e in
        rw (sym put) (
          g,
          write-Later p ids objects id_law object_law w y,
          write-IsBacked p ids objects id_law object_law w y valid has b,
          (valid, has, (accepted_body y.event, object_law.item-put _ _ _)),
        )
    Advance-Kept g w v q r (publish fault y items e) b (valid, has, written) =
        let (row, there, same, put) = mark-eq p ids objects fault y w.identities items e in
        rw (sym put) (
          g,
          mark-Later p ids objects id_law object_law w y row there,
          mark-IsBacked p ids objects id_law object_law w y row there same valid written b,
          tt,
        )
    Advance-Kept g w v q r (leave _) b k = (g, Later-refl p ids objects w, b, tt)

    pub GateRuns-Consistent :
        (s t : GateState p ids objects)
        → GateRuns p ids objects s t
        → IsGateConsistent s
        → Later p ids objects s.world t.world × IsGateConsistent t
    GateRuns-Consistent s t runs c =
        let (_, later, d) =
          Runs-Holds (GateTables ids objects) Publisher (Advance p ids objects) (Unit {0}) Good Ok
            After (λ g w. Later-refl p ids objects w)
            (λ g h k w v u a b. Later-trans p ids objects w v u a b)
            (λ g h w v q a k. PublisherOk-Later p ids objects w v q a k) Advance-Kept tt runs c in
        (later, d)

    pub IsNew-Consistent :
        (s : GateState p ids objects) → IsNew p ids objects s → IsGateConsistent s
    IsNew-Consistent s n = record {
      good = record {
        object_backed =
            λ key body h. let absent = n.nothing_accepted key in absurd (cc (absent, h));
        published_backed = λ id row h e. let absent = n.no_identities id in absurd (cc (absent, h));
      };
      all_ok = λ i. rw (n.all_idle i) tt;
    }
