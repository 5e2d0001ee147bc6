-- ===== src/Ledger/Config.antt =====
-- The posting rules of config/posting_rules.json.
use ledgerflow_payment_recon.Prelude.{String, ◌≡◌, refl, List, [], ◌∷◌, arith}
use ledgerflow_payment_recon.Prelude.Int.{ℤ, pos, negsuc, ◌+ℤ◌, sum_ℤ}
use ledgerflow_payment_recon.Contracts.{EventType, authorization, capture, refund, chargeback}
use ledgerflow_payment_recon.Ledger.{PostingRules}
use ledgerflow_payment_recon.Ledger.Rules.{IsBalancedRules, multipliers}

abbrev pub config_rule : EventType → List (String × ℤ)
config_rule authorization = []
config_rule capture = ("processor_receivable", pos 1) ∷ ("merchant_payable", negsuc 0) ∷ []
config_rule refund = ("merchant_payable", pos 1) ∷ ("processor_receivable", negsuc 0) ∷ []
config_rule chargeback = ("chargeback_loss", pos 1) ∷ ("processor_receivable", negsuc 0) ∷ []

abbrev pub config_rules : PostingRules
config_rules = record { version = 1; rules = config_rule }

pub config_rules-IsBalancedRules : IsBalancedRules config_rules
unfolding sum_ℤ ◌+ℤ◌
config_rules-IsBalancedRules = record { versioned = ground arith; balanced = sums }
  where
    sums : (kind : EventType) → sum_ℤ (multipliers (config_rule kind)) ≡ pos 0
    sums authorization = refl
    sums capture = refl
    sums refund = refl
    sums chargeback = refl
