-- ===== src/ManifestLoader/Redelivery.antt =====
-- A manifest that is delivered again to `handler` of lambdas/manifest_loader/handler.py.
use ledgerflow_payment_recon.Prelude.{
  String, ◌≡◌, refl, true, false, ◌∷◌, Option, none, some, ◌==◌, eq_String, eq_iff, arith,
}
use ledgerflow_payment_recon.Prelude.Int.{ℤ, ltb_ℤ, ◌≤ℤ◌, ◌<ℤ◌, int_eq_iff, eq_ℤ}
use ledgerflow_payment_recon.Prelude.Result.{ok}
use ledgerflow_payment_recon.Json.{Fields, as_plain_int}
use ledgerflow_payment_recon.Services.{KeyValue}
use ledgerflow_payment_recon.ManifestLoader.{Publication, Request, started, Services}
use ledgerflow_payment_recon.ManifestLoader.Verify.{Delivery, verify}
use ledgerflow_payment_recon.ManifestLoader.Register.{
  World, duplicate, stale, recovered_duplicate, stale_manifest, publication, may_register,
  after_refusal, execution_of, update_item, get_item, register_revision, registration_after,
  start_registered, start_answer, after_registration, check_copy, register_checked, copy_answer,
  copy_delivery, verify_answer, handler,
}

after_refusal_same :
    (n : ℤ) (r : Request) → after_refusal n r (some (publication n r)) ≡ ok duplicate
unfolding after_refusal
after_refusal_same n r =
    let number : (n == n) ≡ true = (int_eq_iff n n).1 refl in
    let sha : (r.sha256 == r.sha256) ≡ true = (eq_iff r.sha256 r.sha256).1 refl in
    rw (number, sha) refl

after_refusal_older :
    (n : ℤ) (r : Request) (p : Publication)
    → n <ℤ p.revision
    → after_refusal n r (some p) ≡ ok stale
unfolding after_refusal
after_refusal_older n r p less = ground (arith, less)

-- The services of a call that finds the delivery good and copies it.
pub record Delivers (kv : KeyValue Publication) (sv : Services) (event : Fields) (d : Delivery)
    : Type 0 where
  pub checks_out : verify sv event ≡ ok d
  pub copies :
      (c : Option String) × (sv.copy_object d.request.bucket d.data_key d.request.source_version_id
          d.head.etag d.request.verified_data_key
        ≡ ok c)
      × (check_copy kv sv d c ≡ ok tt)

-- The table answers the write and the read.
pub record HasTable (sv : Services) : Type 0 where
  pub writes : sv.update_fault ≡ none
  pub reads : sv.get_item_fault ≡ none

module _ (kv : KeyValue Publication) (sv : Services) where
  handler_of_delivery :
      (event : Fields) (w : World kv.Items) (d : Delivery)
      → Delivers kv sv event d
      → handler kv sv event w
        ≡ after_registration kv sv d.request
            (record w { copies = d ∷ w.copies })
            (register_revision kv sv d.request w.table)
  unfolding handler verify_answer copy_delivery copy_answer register_checked
  handler_of_delivery event w d v =
      let (c, copy, check) = v.copies in rw (v.checks_out, copy, check) refl

  refused-register :
      (r : Request) (items : kv.Items) (n : ℤ) (p : Publication)
      → HasTable sv
      → as_plain_int r.revision ≡ some n
      → kv.item items r.business_date ≡ some p
      → n ≤ℤ p.revision
      → register_revision kv sv r items ≡ (items, after_refusal n r (some p))
  unfolding register_revision update_item registration_after get_item may_register
  refused-register r items n p table number i le =
      rw (table.writes, number, i, not_less p.revision n le, table.reads, i) refl
    where
      not_less : (a b : ℤ) → b ≤ℤ a → ltb_ℤ a b ≡ false
      not_less a b h = ground (arith, h)

  -- A manifest whose revision is registered with its own checksum and key, but whose execution
  -- may not have started, recovers when it is delivered again: if the delivery checks out and is
  -- copied, the table answers and the execution starts, the handler starts it, leaves the table
  -- as it is and returns RECOVERED_DUPLICATE.
  pub handler_redelivered :
      (event : Fields) (w : World kv.Items) (d : Delivery) (n : ℤ) (arn : String)
      → Delivers kv sv event d
      → HasTable sv
      → as_plain_int d.request.revision ≡ some n
      → kv.item w.table d.request.business_date ≡ some (publication n d.request)
      → sv.start_execution (execution_of d.request) ≡ started arn
      → handler kv sv event w ≡ (
        record w { copies = d ∷ w.copies; executions = execution_of d.request ∷ w.executions },
        ok (recovered_duplicate arn),
      )
  unfolding after_registration start_registered start_answer
  handler_redelivered event w d n arn delivers table number i start =
      rw
        (
          handler_of_delivery event w d delivers,
          refused-register d.request w.table n (publication n d.request) table number i
              (omega arith),
          after_refusal_same n d.request,
          start,
        )
        refl

  -- A delivery that checks out and is copied, with a revision below the one that is registered
  -- for its business date, leaves the table and the executions as they are, and the handler
  -- returns STALE_MANIFEST with the revision, if the table answers.
  pub handler_of_stale :
      (event : Fields) (w : World kv.Items) (d : Delivery) (n : ℤ) (p : Publication)
      → Delivers kv sv event d
      → HasTable sv
      → as_plain_int d.request.revision ≡ some n
      → kv.item w.table d.request.business_date ≡ some p
      → n <ℤ p.revision
      → handler kv sv event w
        ≡ (record w { copies = d ∷ w.copies }, ok (stale_manifest d.request.revision))
  unfolding after_registration start_registered start_answer
  handler_of_stale event w d n p delivers table number i less =
      rw
        (
          handler_of_delivery event w d delivers,
          refused-register d.request w.table n p table number i (omega (arith, less)),
          after_refusal_older n d.request p less,
        )
        refl
