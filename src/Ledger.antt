-- ===== src/Ledger.antt =====
-- ledgerflow/ledger.py: posting rules, the lines that an event posts, and the balance assertion.
pub mod Rules
pub mod Balance
pub mod Posting
pub mod Config
use ledgerflow_payment_recon.Prelude.{
  ℕ, suc, ◌+◌, String, Bool, true, false, List, [], ◌∷◌, map, ◌&&◌, not, filter, ◌==◌, eq_String,
  if◌then◌else◌,
}
use ledgerflow_payment_recon.Prelude.Int.{ℤ, pos, ◌+ℤ◌, ◌*ℤ◌, eq_ℤ}
use ledgerflow_payment_recon.Prelude.Result.{Result, ok, err, ◌>>=◌, ◌>>◌}
use ledgerflow_payment_recon.Prelude.Text.{◌<>◌, decimal}
use ledgerflow_payment_recon.Contracts.{EventType, PaymentEvent}

-- The lines of `posting_rules.json`: an account and its multiplier.
pub record PostingRules : Type 0 where
  pub version : ℕ
  pub rules : EventType → List (String × ℤ)

pub record PostingLine : Type 0 where
  pub entry_id : String
  pub event_id : String
  pub transaction_id : String
  pub processor_id : String
  pub merchant_id : String
  pub currency : String
  pub account : String
  pub signed_minor : ℤ
  pub posting_rule_version : ℕ

-- An event and a currency, and the sum that was posted to them.
abbrev pub Group : Type 0
Group = String × String × ℤ

-- `grouped[key] = grouped.get(key, 0) + amount`
unfoldable pub add_to_group : String → String → ℤ → List Group → List Group
add_to_group e c amount [] = (e, c, pos 0 +ℤ amount) ∷ []
add_to_group e c amount ((e', c', total) ∷ rest) =
    if e == e' && c == c'
    then (e', c', total +ℤ amount) ∷ rest
    else (e', c', total) ∷ add_to_group e c amount rest

unfoldable pub group_lines : List Group → List PostingLine → List Group
unfolding add_to_group
group_lines grouped [] = grouped
group_lines grouped (line ∷ lines) =
    group_lines (add_to_group line.event_id line.currency line.signed_minor grouped) lines

-- A `PostingRuleError` that names the groups.
pub data PostingError : Type 0 where
  unbalanced_group : List Group → PostingError

raise_unbalanced : List Group → Result PostingError (Unit {0})
raise_unbalanced [] = ok tt
raise_unbalanced (g ∷ groups) = err (unbalanced_group (g ∷ groups))

unfoldable pub assert_balanced : List PostingLine → Result PostingError (Unit {0})
unfolding group_lines raise_unbalanced
assert_balanced lines = raise_unbalanced (filter (λ g. not (g.2 == pos 0)) (group_lines [] lines))

unfoldable pub entry_id : String → ℕ → String
unfolding decimal
entry_id event position = event <> ":" <> decimal position

module _ (event : PaymentEvent) (version : ℕ) where
  unfoldable pub posting_line : ℕ → String → ℤ → PostingLine
  unfolding entry_id
  posting_line position account multiplier = record {
    entry_id = entry_id event.event_id position;
    event_id = event.event_id;
    transaction_id = event.transaction_id;
    processor_id = event.processor_id;
    merchant_id = event.merchant_id;
    currency = event.currency;
    account = account;
    signed_minor = pos event.amount_minor *ℤ multiplier;
    posting_rule_version = version;
  }

  -- `enumerate(rule, start=position)`
  unfoldable pub lines_from : ℕ → List (String × ℤ) → List PostingLine
  unfolding posting_line
  lines_from position [] = []
  lines_from position ((account, multiplier) ∷ rest) =
      posting_line position account multiplier ∷ lines_from (suc position) rest

unfoldable pub build_postings : PaymentEvent → PostingRules → Result PostingError (List PostingLine)
unfolding lines_from
build_postings event rules = do
  let lines = lines_from event rules.version 1 (rules.rules event.event_type)
  assert_balanced lines
  ok lines
