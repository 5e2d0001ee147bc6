-- ===== src/ManifestLoader/Register.antt =====
-- `_register_revision` of lambdas/manifest_loader/handler.py, and `handler`.
use ledgerflow_payment_recon.Prelude.{
  String, Bool, true, false, List, ◌∷◌, Option, none, some, ◌&&◌, not, ◌==◌, eq_String,
  if◌then◌else◌,
}
use ledgerflow_payment_recon.Prelude.Int.{ℤ, eq_ℤ, ltb_ℤ}
use ledgerflow_payment_recon.Prelude.Result.{Result, ok, err, raise_if, ◌>>=◌}
use ledgerflow_payment_recon.Prelude.Text.{◌<>◌, first_chars}
use ledgerflow_payment_recon.Json.{Value, Fields, as_plain_int}
use ledgerflow_payment_recon.Services.{KeyValue, Failure, value_error, client_error, other_error}
use ledgerflow_payment_recon.ManifestLoader.{
  Publication, Request, Execution, Start, started, already_exists, start_failed, Services,
}
use ledgerflow_payment_recon.ManifestLoader.Verify.{Delivery, int_text, verify}

pub data Registration : Type 0 where
  active : Registration
  duplicate : Registration
  stale : Registration

-- ConditionExpression: attribute_not_exists(revision) OR revision < :revision
unfoldable pub may_register : ℤ → Option Publication → Bool
may_register n none = true
may_register n (some p) = ltb_ℤ p.revision n

-- UpdateExpression
abbrev pub publication : ℤ → Request → Publication
publication n r = record {
  revision = n;
  manifest_sha256 = r.sha256;
  verified_data_key = r.verified_data_key;
  publication_status = "PROCESSING";
}

-- The code after the conditional write was refused, on the item that it reads.
unfoldable pub after_refusal : ℤ → Request → Option Publication → Result Failure Registration
after_refusal n r none = err (other_error "KeyError")
after_refusal n r (some p) =
    if p.revision == n && p.manifest_sha256 == r.sha256
    then ok duplicate
    else if ltb_ℤ n p.revision
    then ok stale
    else err (value_error "settlement revision reused with different content")

-- What `update_item` does to the table.
pub data Update (Items : Type 0) : Type 0 where
  applied : Items → Update Items
  condition_failed : ℤ → Update Items
  update_failed : Failure → Update Items

-- A call of the handler starts an execution at most once, and copies at most once.
pub record World (Items : Type 0) : Type 0 where
  pub copies : List Delivery
  pub table : Items
  pub executions : List Execution

pub data Response : Type 0 where
  stale_manifest : Value → Response
  duplicate_manifest : String → Response
  verified : String → Response
  recovered_duplicate : String → Response

abbrev pub execution_of : Request → Execution
execution_of r = record {
  name = r.business_date <> "-r" <> int_text r.revision <> "-" <> first_chars 16 r.sha256;
  input = r;
}

respond : Registration → String → Response
respond active arn = verified arn
respond _ arn = recovered_duplicate arn

module _ (kv : KeyValue Publication) where
  conditional_put : ℤ → Request → kv.Items → Bool → Update kv.Items
  conditional_put n r items true = applied (kv.put items r.business_date (publication n r))
  conditional_put n r items false = condition_failed n

  -- A revision that is no number is refused by the service: `{"N": "True"}`.
  numbered_update : Request → kv.Items → Option ℤ → Update kv.Items
  unfolding conditional_put may_register
  numbered_update r items none = update_failed (client_error "ValidationException")
  numbered_update r items (some n) =
      conditional_put n r items (may_register n (kv.item items r.business_date))

  unfoldable pub update_item : Option Failure → Request → kv.Items → Update kv.Items
  unfolding numbered_update
  update_item (some failure) r items = update_failed failure
  update_item none r items = numbered_update r items (as_plain_int r.revision)

  unfoldable pub get_item : Option Failure → ℤ → Request → kv.Items → Result Failure Registration
  unfolding after_refusal
  get_item (some failure) n r items = err failure
  get_item none n r items = after_refusal n r (kv.item items r.business_date)

  module _ (sv : Services) where
    unfoldable pub registration_after :
        Request → kv.Items → Update kv.Items → kv.Items × Result Failure Registration
    unfolding get_item
    registration_after r items (applied written) = (written, ok active)
    registration_after r items (condition_failed n) = (items, get_item sv.get_item_fault n r items)
    registration_after r items (update_failed failure) = (items, err failure)

    unfoldable pub register_revision : Request → kv.Items → kv.Items × Result Failure Registration
    unfolding update_item registration_after
    register_revision r items = registration_after r items (update_item sv.update_fault r items)

    unfoldable pub start_answer :
        Registration → Request → World kv.Items → Start → World kv.Items × Result Failure Response
    unfolding respond
    start_answer reg r w (started arn) =
        (record w { executions = execution_of r ∷ w.executions }, ok (respond reg arn))
    start_answer reg r w already_exists = (w, ok (duplicate_manifest (execution_of r).name))
    start_answer reg r w (start_failed code) = (w, err (client_error code))

    unfoldable pub start_registered :
        Request
        → World kv.Items
        → Result Failure Registration
        → World kv.Items × Result Failure Response
    unfolding start_answer
    start_registered r w (err failure) = (w, err failure)
    start_registered r w (ok stale) = (w, ok (stale_manifest r.revision))
    start_registered r w (ok active) = start_answer active r w (sv.start_execution (execution_of r))
    start_registered r w (ok duplicate) =
        start_answer duplicate r w (sv.start_execution (execution_of r))

    unfoldable pub after_registration :
        Request
        → World kv.Items
        → kv.Items × Result Failure Registration
        → World kv.Items × Result Failure Response
    unfolding start_registered
    after_registration r w (items, reg) = start_registered r (record w { table = items }) reg

    -- `copied_checksum_hex`
    copied_hex : Option String → Result Failure (Option String)
    copied_hex none = ok none
    copied_hex (some checksum) = do hex ← sv.base64_hex checksum; ok (some hex)

    abbrev same_hex : String → Option String → Bool
    same_hex hex none = false
    same_hex hex (some copied) = copied == hex

    unfoldable pub check_copy : Delivery → Option String → Result Failure (Unit {0})
    unfolding copied_hex
    check_copy d copied = do
      hex ← copied_hex copied
      raise_if (not (same_hex d.checksum_hex hex))
          (value_error "verified settlement copy checksum mismatch")

    unfoldable pub register_checked :
        Request
        → World kv.Items
        → Result Failure (Unit {0})
        → World kv.Items × Result Failure Response
    unfolding register_revision after_registration
    register_checked r w (err failure) = (w, err failure)
    register_checked r w (ok _) = after_registration r w (register_revision r w.table)

    unfoldable pub copy_answer :
        Delivery
        → World kv.Items
        → Result Failure (Option String)
        → World kv.Items × Result Failure Response
    unfolding check_copy register_checked
    copy_answer d w (err failure) = (w, err failure)
    copy_answer d w (ok copied) =
        register_checked d.request (record w { copies = d ∷ w.copies }) (check_copy d copied)

    unfoldable pub copy_delivery :
        Delivery → World kv.Items → World kv.Items × Result Failure Response
    unfolding copy_answer
    copy_delivery d w = copy_answer d w (
        sv.copy_object d.request.bucket d.data_key d.request.source_version_id d.head.etag
          d.request.verified_data_key)

    unfoldable pub verify_answer :
        World kv.Items → Result Failure Delivery → World kv.Items × Result Failure Response
    unfolding copy_delivery
    verify_answer w (err failure) = (w, err failure)
    verify_answer w (ok d) = copy_delivery d w

    -- The tables after the call, and what it returns or raises.
    unfoldable pub handler : Fields → World kv.Items → World kv.Items × Result Failure Response
    unfolding verify verify_answer
    handler event w = verify_answer w (verify sv event)
