-- ===== src/Examples/LoaderRuns.antt =====
-- lambdas/manifest_loader/handler.py at concrete inputs.
use ledgerflow_payment_recon.Prelude.{
  ℕ, ◌≡◌, ◌≤◌, refl, [], ◌∷◌, none, some, ◌&&◌, leb, eq_String, ◌⊎◌, inl, arith,
}
use ledgerflow_payment_recon.Prelude.Int.{ℤ, pos, ◌≤ℤ◌, ◌<ℤ◌}
use ledgerflow_payment_recon.Prelude.Result.{ok}
use ledgerflow_payment_recon.Prelude.Text.{decimal, decimal_ℤ, contains_code}
use ledgerflow_payment_recon.Json.{
  int, text, object, Fields, field, end, get, keys, get_text, as_int, as_plain_int,
}
use ledgerflow_payment_recon.Examples.Cloud.{put_at, function_table, function_table-IsLawful}
use ledgerflow_payment_recon.Interleaving.{In, assign, here, next, pick}
use ledgerflow_payment_recon.Services.{KeyValue}
use ledgerflow_payment_recon.ManifestLoader.{Publication, Request, Services, started}
use ledgerflow_payment_recon.ManifestLoader.Keys.{
  strip_suffix, last_segment, after_literal, search_date,
}
use ledgerflow_payment_recon.ManifestLoader.Verify.{
  Located, Delivery, record_of, all_in, is_one, is_supported, has_controls, int_text, verified_key,
  as_object, read_manifest, check_delivery, verify,
}
use ledgerflow_payment_recon.ManifestLoader.Register.{
  World, recovered_duplicate, stale_manifest, publication, execution_of, check_copy, handler,
  active, update_item, may_register,
}
use ledgerflow_payment_recon.ManifestLoader.Checked.{IsChecked, verify-IsChecked}
use ledgerflow_payment_recon.ManifestLoader.Redelivery.{
  Delivers, HasTable, handler_redelivered, handler_of_stale,
}
use ledgerflow_payment_recon.ManifestLoader.Steps.{
  Worker, idle, System, Steps, IsFresh, arrive, copy, apply, start,
}
use ledgerflow_payment_recon.ManifestLoader.Steps.Consistent.{IsVerified}
use ledgerflow_payment_recon.ManifestLoader.Steps.Agree.{
  executions_agree, executions_backed, revisions_increase,
}
use ledgerflow_payment_recon.ManifestLoader.Steps.Refines.{handler-Steps}

abbrev manifest : Fields
manifest = field "version" (int (pos 1)) (
    field "revision" (int (pos 2)) (
      field "file_name" (text "day.jsonl") (
        field "byte_size" (int (pos 40)) (
          field "record_count" (int (pos 3)) (
            field "sha256" (text "ab12")
              (field "raw_control_totals_minor" (object (field "USD" (int (pos 7)) end)) end))))))

abbrev event : Fields
event =
    field "detail"
      (object (
        field "bucket" (object (field "name" (text "drop") end)) (
          field "object"
            (object (field "key" (text "in/business_date=2026-01-31/day.manifest.json") end)) end)))
      end

abbrev services : Services
services = record {
  is_decimal = λ n. leb 48 n && leb n 57;
  base64_hex = λ s. ok s;
  get_object = λ bucket key. ok (object manifest);
  head_object = λ bucket key. ok (record {
    version_id = some "v1";
    content_length = pos 40;
    checksum_sha256 = some "ab12";
    etag = "e";
  });
  copy_object = λ bucket key version etag target. ok (some "ab12");
  update_fault = none;
  get_item_fault = none;
  start_execution = λ x. started "arn";
}

abbrev request : Request
request = record {
  bucket = "drop";
  manifest_key = "in/business_date=2026-01-31/day.manifest.json";
  verified_data_key = "settlements/business_date=2026-01-31/revision=2/sha256=ab12/data.jsonl";
  source_version_id = "v1";
  sha256 = "ab12";
  revision = int (pos 2);
  record_count = int (pos 3);
  business_date = "2026-01-31";
}

abbrev delivery : Delivery
delivery = record {
  data_key = "in/business_date=2026-01-31/day.jsonl";
  head = record {
    version_id = some "v1";
    content_length = pos 40;
    checksum_sha256 = some "ab12";
    etag = "e";
  };
  checksum_hex = "ab12";
  request = request;
}

verifies : verify services event ≡ ok delivery
unfolding verify read_manifest check_delivery as_object is_supported has_controls record_of all_in
    is_one int_text verified_key strip_suffix last_segment after_literal search_date get keys
    get_text as_int decimal decimal_ℤ contains_code
verifies = refl

abbrev table : KeyValue Publication
table = function_table Publication

abbrev registered_row : Publication
registered_row = publication (pos 2) request

abbrev newer_row : Publication
newer_row = record registered_row { revision = pos 3 }

abbrev world_with : Publication → World table.Items
world_with p = record { copies = []; table = put_at (λ k. none) "2026-01-31" p; executions = [] }

delivers : Delivers table services event delivery
unfolding check_copy
delivers = record { checks_out = verifies; copies = (some "ab12", refl, refl) }

answers : HasTable services
answers = record { writes = refl; reads = refl }

handler_redelivered_example : handler table services event (world_with registered_row) ≡ (
  record (world_with registered_row) {
    copies = delivery ∷ [];
    executions = execution_of request ∷ [];
  },
  ok (recovered_duplicate "arn"),
)
unfolding as_plain_int
handler_redelivered_example =
    handler_redelivered table services event (world_with registered_row) delivery (pos 2) "arn"
      delivers answers refl refl refl

handler_of_stale_example :
    handler table services event (world_with newer_row)
    ≡ (record (world_with newer_row) { copies = delivery ∷ [] }, ok (stale_manifest (int (pos 2))))
unfolding as_plain_int
handler_of_stale_example =
    handler_of_stale table services event (world_with newer_row) delivery (pos 2) newer_row delivers
      answers refl refl (omega arith)

verify-IsChecked_example :
    (l : Located) × (m : Fields) × (n : ℕ) × (record_of event ≡ ok l)
    × (services.get_object l.bucket l.manifest_key ≡ ok (object m))
    × IsChecked services l m delivery
    × (delivery.head.content_length ≡ pos n)
    × (1 ≤ n)
    × (n ≤ 5000000000)
verify-IsChecked_example = verify-IsChecked services event delivery verifies

abbrev empty_system : System table
empty_system = record {
  world = record { copies = []; table = λ k. none; executions = [] };
  workers = λ i. idle;
}

fresh : IsFresh table empty_system
fresh = record {
  all_idle = λ i. refl;
  no_copies = refl;
  no_executions = refl;
  no_items = λ date. refl;
}

-- The states of one call, step by step.
abbrev arrived : System table
arrived = record {
  world = empty_system.world;
  workers = assign empty_system.workers 0 (Worker.checked delivery);
}

abbrev copied_state : System table
copied_state = record {
  world = record empty_system.world { copies = delivery ∷ [] };
  workers = assign arrived.workers 0 (Worker.copied delivery);
}

abbrev applied_state : System table
applied_state = record {
  world = record copied_state.world { table = put_at (λ k. none) "2026-01-31" registered_row };
  workers = assign copied_state.workers 0 (Worker.registered active delivery);
}

abbrev started_state : System table
started_state = record {
  world = record applied_state.world { executions = execution_of request ∷ [] };
  workers = assign applied_state.workers 0 idle;
}

applies : Steps table empty_system applied_state
unfolding update_item may_register check_copy as_plain_int
applies =
    next
      (next (next here (pick 0 (arrive services event delivery verifies)))
        (pick 0 (copy services delivery (some "ab12") refl)))
      (pick 0 (apply none delivery _ refl))

starts : Steps table applied_state started_state
starts = next here (pick 0 (start active delivery (λ e. cc)))

runs : Steps table empty_system started_state
unfolding update_item may_register check_copy as_plain_int
runs = next applies (pick 0 (start active delivery (λ e. cc)))

executions_agree_example :
    (request.sha256 ≡ request.sha256)
    × (request.verified_data_key ≡ request.verified_data_key)
    × ((execution_of request).name ≡ (execution_of request).name)
executions_agree_example =
    executions_agree table (function_table-IsLawful Publication) empty_system started_state
      (execution_of request) (execution_of request) fresh runs (inl refl) (inl refl) refl refl

executions_backed_example :
    (d : Delivery) × (p : Publication) × (n : ℤ) × (execution_of request ≡ execution_of d.request)
    × In d started_state.world.copies
    × IsVerified d
    × (as_plain_int d.request.revision ≡ some n)
    × (table.item started_state.world.table d.request.business_date ≡ some p)
    × (n ≤ℤ p.revision)
executions_backed_example =
    executions_backed table (function_table-IsLawful Publication) empty_system started_state
      (execution_of request) fresh runs (inl refl)

revisions_increase_example :
    (q : Publication) × (table.item started_state.world.table "2026-01-31" ≡ some q)
    × ((registered_row.revision <ℤ q.revision)
        ⊎ ((registered_row.revision ≡ q.revision)
            × (registered_row.manifest_sha256 ≡ q.manifest_sha256)))
revisions_increase_example =
    revisions_increase table (function_table-IsLawful Publication) empty_system applied_state
      started_state "2026-01-31" registered_row fresh applies starts refl

handler-Steps_example :
    (t : System table) × Steps table empty_system t
    × (t.world ≡ (handler table services event empty_system.world).0)
    × (t.workers 0 ≡ idle)
handler-Steps_example = handler-Steps table services empty_system 0 event refl
