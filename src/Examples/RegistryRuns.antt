-- ===== src/Examples/RegistryRuns.antt =====
-- `load_source_registry` of ledgerflow/contracts.py and the settlement gate of
-- spark_jobs/validate_settlement_manifest.py at concrete inputs.
use ledgerflow_payment_recon.Prelude.{
  arith, String, ◌≡◌, refl, ◌≤◌, true, List, [], ◌∷◌, length, All, Option, some,
}
use ledgerflow_payment_recon.Prelude.Int.{ℤ, pos, ◌+ℤ◌}
use ledgerflow_payment_recon.Prelude.Text.{decimal, decimal_02}
use ledgerflow_payment_recon.Prelude.Result.{ok}
use ledgerflow_payment_recon.Json.{
  Value, int, text, array, object, nil, cons, field, end, get, has_key, as_int,
}
use ledgerflow_payment_recon.Contracts.{Source, Registry, find_source}
use ledgerflow_payment_recon.Contracts.Registry.{load_source_registry}
use ledgerflow_payment_recon.Contracts.Registry.Sound.{IsEntry, load_source_registry_sound}
use ledgerflow_payment_recon.Spark.Manifest.{
  SettlementRecord, SettlementManifest, validate_settlement, settlement_key, count_key,
  currency_total, total_in, occurs, is_invalid, duplicate_keys, same_totals,
}
use ledgerflow_payment_recon.Prelude.Int64.{wrap, sum64, magnitudes}
use ledgerflow_payment_recon.Spark.Manifest.Gate.{
  IsSettled, IsSmall, control_total, validate_settlement_sound,
}

abbrev sources_file : Value
sources_file = object (
    field "families"
      (array (
        cons
          (object (
            field "family" (text "checkout") (
              field "instances" (int (pos 2)) (
                field "mode" (text "stream") (
                  field "contract" (text "payment_event") (
                    field "owner" (text "payments")
                      (field "freshness_minutes" (int (pos 5)) end)))))))
          nil))
      end)

abbrev str : Value → String
str v = "?"

abbrev checkout : String → Source
checkout id = record {
  source_id = id;
  family = "checkout";
  mode = "stream";
  contract = "payment_event";
  owner = "payments";
  freshness_minutes = 5;
}

abbrev two_sources : Registry
two_sources = ("checkout-01", checkout "checkout-01") ∷ ("checkout-02", checkout "checkout-02") ∷ []

loads : load_source_registry str sources_file ≡ ok two_sources
unfolding load_source_registry get has_key as_int find_source decimal decimal_02
loads = refl

load_source_registry_sound_example :
    (1 ≤ length two_sources) × All (IsEntry two_sources) two_sources
load_source_registry_sound_example = load_source_registry_sound str sources_file two_sources loads

abbrev settlement : String → String → SettlementRecord
settlement processor currency = record {
  schema_version = some "1.0";
  business_date = some "2026-01-31";
  processor_id = some processor;
  currency = some currency;
  amount_minor = some (pos 4);
}

abbrev settlements : List SettlementRecord
settlements = settlement "p1" "USD" ∷ settlement "p2" "USD" ∷ settlement "p1" "EUR" ∷ []

abbrev manifest : SettlementManifest
manifest = record { record_count = 3; totals = ("USD", pos 8) ∷ ("EUR", pos 4) ∷ [] }

abbrev to_date : String → Option String
to_date s = some s

validates : validate_settlement to_date "2026-01-31" manifest settlements ≡ ok tt
unfolding validate_settlement is_invalid duplicate_keys same_totals currency_total sum64 wrap ◌+ℤ◌
validates = refl

settlements-IsSmall : IsSmall settlements
unfolding magnitudes
settlements-IsSmall = omega arith

validate_settlement_sound_example :
    All
      (λ (r : SettlementRecord).
        IsSettled "2026-01-31" r
        × (total_in r.currency manifest.totals ≡ some (control_total r.currency settlements)))
      settlements
    × All (λ (r : SettlementRecord). count_key (settlement_key r) settlements ≤ 1) settlements
    × (length settlements ≡ manifest.record_count)
    × All (λ (t : String × ℤ). occurs t.0 settlements ≡ true) manifest.totals
validate_settlement_sound_example =
    validate_settlement_sound to_date "2026-01-31" "2026-01-31" manifest settlements refl
      settlements-IsSmall validates
