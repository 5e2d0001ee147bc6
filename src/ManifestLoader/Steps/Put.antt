-- ===== src/ManifestLoader/Steps/Put.antt =====
-- What an applied write, a copy and a start do to the invariant of lambdas/manifest_loader/handler.py.
use ledgerflow_payment_recon.Prelude.{
  ◌+◌, ◌<◌, String, ◌≡◌, ◌≢◌, refl, sym, ap, ◌∙◌, true, List, ◌∷◌, Option, some, inl, inr,
  eq_String, arith,
}
use ledgerflow_payment_recon.Prelude.Int.{ℤ, eq_ℤ, ◌≤ℤ◌, pos_part, neg_part, int_laws}
use ledgerflow_payment_recon.Prelude.Result.{ok}
use ledgerflow_payment_recon.Prelude.Text.{text_cases}
use ledgerflow_payment_recon.Json.{as_plain_int}
use ledgerflow_payment_recon.Services.{KeyValue, IsLawful, Failure}
use ledgerflow_payment_recon.ManifestLoader.{Publication, Request, Execution}
use ledgerflow_payment_recon.ManifestLoader.Verify.{Delivery}
use ledgerflow_payment_recon.ManifestLoader.Register.{
  World, Registration, stale, publication, may_register, execution_of, get_item,
}
use ledgerflow_payment_recon.Interleaving.{In}
use ledgerflow_payment_recon.ManifestLoader.Steps.Consistent.{
  Entry, entry_of, IsVerified, IsLogged, Backed, IsShared, read-eq,
}

module _ (kv : KeyValue Publication) where
  -- A condition that held on an item is about a later revision.
  newer :
      (n : ℤ) (p : Publication)
      → may_register n (some p) ≡ true
      → pos_part p.revision + neg_part n < pos_part n + neg_part p.revision
  unfolding may_register
  newer n p h = ground arith

  module _ (law : IsLawful kv) (log : List Entry) (w : World kv.Items) where
    -- A write that was applied is new to the log.
    fresh :
        (n : ℤ) (r : Request) (a : Entry)
        → IsShared kv log w
        → may_register n (kv.item w.table r.business_date) ≡ true
        → In a log
        → a.date ≡ r.business_date
        → a.revision ≢ n
    fresh n r a s may m d e =
        let (p, i, le) = s.bounded a m in
        let k = newer n p (rw (sym d, i) at may) in let l = rw e at le in omega (int_laws, l, k)

    bounded-put :
        (n : ℤ) (r : Request) (a : Entry)
        → IsShared kv log w
        → may_register n (kv.item w.table r.business_date) ≡ true
        → In a (entry_of n r ∷ log)
        → (p : Publication) × (kv.item (kv.put w.table r.business_date (publication n r)) a.date
            ≡ some p)
          × (a.revision ≤ℤ p.revision)
    bounded-put n r a s may (inl e) =
        (publication n r, rw e (law.item-put _ _ _), rw e (omega int_laws))
    bounded-put n r a s may (inr m) =
        let (p, i, le) = s.bounded a m in
        elim (text_cases a.date r.business_date) [
          | inl d ↦
              let k = newer n p (rw (sym d, i) at may) in
              (publication n r, rw d (law.item-put _ _ _), omega (int_laws, le, k))
          | inr apart ↦ (p, law.item-put-other _ _ _ _ apart ∙ i, le)
        ]

    current-put :
        (n : ℤ) (r : Request) (date : String) (p : Publication)
        → IsShared kv log w
        → kv.item (kv.put w.table r.business_date (publication n r)) date ≡ some p
        → In
            (record { date = date; revision = p.revision; sha256 = p.manifest_sha256 })
            (entry_of n r ∷ log)
    current-put n r date p s h = elim (text_cases date r.business_date) [
      | inl d ↦ inl (new d (rw d at h))
      | inr apart ↦ inr (s.current date p (sym (law.item-put-other _ _ _ _ apart) ∙ h))
    ]
      where
        new :
            date ≡ r.business_date
            → kv.item (kv.put w.table r.business_date (publication n r)) r.business_date ≡ some p
            → record { date = date; revision = p.revision; sha256 = p.manifest_sha256 }
              ≡ entry_of n r
        new d seen =
            let q : publication n r ≡ p =
              cc (law.item-put w.table r.business_date (publication n r), seen) in
            rw (sym q, d) refl

    unique-put :
        (n : ℤ) (r : Request) (a b : Entry)
        → IsShared kv log w
        → may_register n (kv.item w.table r.business_date) ≡ true
        → In a (entry_of n r ∷ log)
        → In b (entry_of n r ∷ log)
        → a.date ≡ b.date
        → a.revision ≡ b.revision
        → a.sha256 ≡ b.sha256
    unique-put n r a b s may (inl e) (inl f) d v = rw (e, f) refl
    unique-put n r a b s may (inl e) (inr m) d v =
        absurd (fresh n r b s may m (sym d ∙ ap Entry.date e) (sym v ∙ ap Entry.revision e))
    unique-put n r a b s may (inr m) (inl f) d v =
        absurd (fresh n r a s may m (d ∙ ap Entry.date f) (v ∙ ap Entry.revision f))
    unique-put n r a b s may (inr m) (inr k) d v = s.unique a b m k d v

    pub IsShared-put :
        (n : ℤ) (r : Request) (written : kv.Items)
        → IsShared kv log w
        → may_register n (kv.item w.table r.business_date) ≡ true
        → kv.put w.table r.business_date (publication n r) ≡ written
        → IsShared kv (entry_of n r ∷ log) (record w { table = written })
    IsShared-put n r written s may e = rw (sym e) (record {
      unique = λ a b m k d v. unique-put n r a b s may m k d v;
      bounded = λ a m. bounded-put n r a s may m;
      current = λ date p h. current-put n r date p s h;
      backed = λ x m. let (d, v, c, (k, f, l), q) = s.backed x m in (d, v, c, (k, f, inr l), q);
    })

    pub IsShared-copies :
        (d : Delivery) → IsShared kv log w → IsShared kv log (record w { copies = d ∷ w.copies })
    IsShared-copies d s = record {
      unique = s.unique;
      bounded = s.bounded;
      current = s.current;
      backed = λ x m. let (o, v, c, l, q) = s.backed x m in (o, v, inr c, l, q);
    }

    pub IsShared-start :
        (d : Delivery)
        → IsVerified d
        → In d w.copies
        → IsLogged log d.request
        → IsShared kv log w
        → IsShared kv log (record w { executions = execution_of d.request ∷ w.executions })
    IsShared-start d v c l s = record {
      unique = s.unique;
      bounded = s.bounded;
      current = s.current;
      backed = backed_start;
    }
      where
        backed_start :
            (x : Execution) → In x (execution_of d.request ∷ w.executions) → Backed log w.copies x
        backed_start x (inl e) = (d, v, c, l, e)
        backed_start x (inr m) = s.backed x m

    -- The item that was read is in the log, and so is the registration's entry.
    pub IsLogged-read :
        (fault : Option Failure) (n : ℤ) (r : Request) (reg : Registration)
        → IsShared kv log w
        → as_plain_int r.revision ≡ some n
        → get_item kv fault n r w.table ≡ ok reg
        → reg ≢ stale
        → IsLogged log r
    IsLogged-read fault n r reg s e h live =
        let (p, i, rev, sha) = read-eq kv fault n r w.table reg h live in
        let m = s.current r.business_date p i in (n, e, rw (rev, sha) at m)
