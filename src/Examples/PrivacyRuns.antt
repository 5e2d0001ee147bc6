-- ===== src/Examples/PrivacyRuns.antt =====
-- The privacy boundary of ledgerflow/contracts.py and of the quarantine at concrete inputs.
use ledgerflow_payment_recon.Prelude.{◌≡◌, refl, ◌↔◌, none, ◌∷◌, length}
use ledgerflow_payment_recon.Prelude.Result.{ok}
use ledgerflow_payment_recon.Json.{text, object, array, nil, cons, Fields, end, field}
use ledgerflow_payment_recon.Contracts.Privacy.{reject_prohibited_fields}
use ledgerflow_payment_recon.Contracts.Privacy.Safe.{
  FieldsFree, reject_prohibited_fields-FieldsFree,
}
use ledgerflow_payment_recon.Store.Ingest.Hidden.{Hidden}
use ledgerflow_payment_recon.Store.Process.{Run, process}
use ledgerflow_payment_recon.Store.Process.Hidden.{process-Hidden}
use ledgerflow_payment_recon.Examples.Opened.{store_core}
use ledgerflow_payment_recon.Examples.Fixtures.{
  platform, batch, raw_event, run_of, empty_store, describe,
}

-- A card number two levels down.
abbrev leak : Fields
leak =
    field "note" (array (cons (object (field "pan" (text "4111") end)) nil))
      (raw_event "e7" 1 "refund" 5)

abbrev leaky : Run
leaky = run_of "r7" (ok leak ∷ batch) none

three_quarantined : length (process platform describe leaky empty_store).0.quarantine ≡ 3
unfolding store_core
three_quarantined = refl

reject_prohibited_fields-FieldsFree_example :
    (reject_prohibited_fields platform leak ≡ ok tt) ↔ FieldsFree platform leak
reject_prohibited_fields-FieldsFree_example = reject_prohibited_fields-FieldsFree platform leak

process-Hidden_example : Hidden platform (process platform describe leaky empty_store).0
process-Hidden_example = process-Hidden platform describe leaky empty_store tt
