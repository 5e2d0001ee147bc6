-- ===== src/Examples/LedgerRuns.antt =====
-- The posting rules and lines of ledgerflow/ledger.py at concrete inputs.
use ledgerflow_payment_recon.Prelude.{◌≡◌, refl, String, List, []}
use ledgerflow_payment_recon.Prelude.Int.{ℤ, pos, ◌+ℤ◌, ◌*ℤ◌, sum_ℤ}
use ledgerflow_payment_recon.Prelude.Result.{ok}
use ledgerflow_payment_recon.Contracts.{EventType, capture, refund, chargeback}
use ledgerflow_payment_recon.Json.{as_int, get}
use ledgerflow_payment_recon.Ledger.{
  lines_from, PostingRules, PostingLine, assert_balanced, build_postings,
}
use ledgerflow_payment_recon.Ledger.Rules.{
  IsBalancedRules, rules_of, version_of, load_rule, load_posting_rules,
  load_posting_rules-IsBalancedRules,
}
use ledgerflow_payment_recon.Ledger.Balance.{posted_to, posted_total, assert_balanced_sound}
use ledgerflow_payment_recon.Ledger.Posting.{event_lines, build_postings_of_loaded}
use ledgerflow_payment_recon.Ledger.Config.{config_rule, config_rules}
use ledgerflow_payment_recon.Examples.Fixtures.{rules_file, payment}

abbrev one_capture : List PostingLine
one_capture = event_lines (payment "e2" 2 capture 80) config_rules

abbrev loaded_rule : EventType → List (String × ℤ)
loaded_rule = rules_of [] (config_rule capture) (config_rule refund) (config_rule chargeback)

abbrev loaded_rules : PostingRules
loaded_rules = record { version = 1; rules = loaded_rule }

rules_file_loads : load_posting_rules rules_file ≡ ok loaded_rules
unfolding load_posting_rules version_of load_rule as_int get sum_ℤ ◌+ℤ◌
rules_file_loads = refl

build_postings_of_loaded_example :
    (build_postings (payment "e2" 2 capture 80) loaded_rules
      ≡ ok (event_lines (payment "e2" 2 capture 80) loaded_rules))
    × (posted_total (event_lines (payment "e2" 2 capture 80) loaded_rules) ≡ pos 0)
    × ((e c : String)
        → posted_to e c (event_lines (payment "e2" 2 capture 80) loaded_rules) ≡ pos 0)
build_postings_of_loaded_example =
    build_postings_of_loaded rules_file loaded_rules (payment "e2" 2 capture 80) rules_file_loads

load_posting_rules-IsBalancedRules_example : IsBalancedRules loaded_rules
load_posting_rules-IsBalancedRules_example =
    load_posting_rules-IsBalancedRules rules_file loaded_rules rules_file_loads

one_capture_passes : assert_balanced one_capture ≡ ok tt
unfolding assert_balanced lines_from ◌+ℤ◌ ◌*ℤ◌
one_capture_passes = refl

assert_balanced_sound_example : posted_to "e2" "USD" one_capture ≡ pos 0
assert_balanced_sound_example = assert_balanced_sound one_capture one_capture_passes "e2" "USD"
