-- ===== src/Ledger/Rules.antt =====
-- `load_posting_rules` of ledgerflow/ledger.py, on the JSON value that the file holds.
use ledgerflow_payment_recon.Prelude.{
  ℕ, suc, String, ◌≡◌, Bool, false, List, [], ◌∷◌, map, not, Option, none, some, ◌==◌, eq_String,
  ◌<◌, arith, if◌then◌else◌,
}
use ledgerflow_payment_recon.Prelude.Int.{ℤ, pos, eq_ℤ, sum_ℤ, int_eq_iff}
use ledgerflow_payment_recon.Prelude.Result.{Result, ok, err, raise_if, ◌>>=◌, ◌>>◌, >>=-eq-ok}
use ledgerflow_payment_recon.Prelude.Text.{◌<>◌}
use ledgerflow_payment_recon.Json.{
  Value, int, text, array, object, Items, nil, cons, Fields, get, as_int,
}
use ledgerflow_payment_recon.Contracts.{EventType, authorization, capture, refund, chargeback}
use ledgerflow_payment_recon.Ledger.{PostingRules}

-- A `PostingRuleError` with its message, or the `AttributeError` of `.get` on what is no object.
pub data RulesError : Type 0 where
  posting_rule : String → RulesError
  no_object : RulesError

-- The name of an event type in the file.
unfoldable pub event_type_name : EventType → String
event_type_name authorization = "authorization"
event_type_name capture = "capture"
event_type_name refund = "refund"
event_type_name chargeback = "chargeback"

account_of : Option Value → String → Result RulesError String
account_of (some (text s)) kind =
    if s == "" then err (posting_rule ("invalid account for " <> kind)) else ok s
account_of v kind = err (posting_rule ("invalid account for " <> kind))

multiplier_of : Option Value → String → Result RulesError ℤ
multiplier_of (some (int n)) kind = ok n
multiplier_of v kind = err (posting_rule ("invalid multiplier for " <> kind))

parse_line : Value → String → Result RulesError (String × ℤ)
unfolding account_of multiplier_of
parse_line (object line) kind = do
  account ← account_of (get "account" line) kind
  multiplier ← multiplier_of (get "multiplier" line) kind
  ok (account, multiplier)
parse_line v kind = err no_object

parse_lines : Items → String → Result RulesError (List (String × ℤ))
unfolding parse_line
parse_lines nil kind = ok []
parse_lines (cons v vs) kind = do
  entry ← parse_line v kind
  entries ← parse_lines vs kind
  ok (entry ∷ entries)

abbrev pub multipliers : List (String × ℤ) → List ℤ
multipliers entries = map (λ entry. entry.1) entries

parse_rule : Option Value → String → Result RulesError (List (String × ℤ))
unfolding parse_lines
parse_rule (some (array lines)) kind = do
  entries ← parse_lines lines kind
  raise_if (not (sum_ℤ (multipliers entries) == pos 0)) (posting_rule ("unbalanced rule: " <> kind))
  ok entries
parse_rule v kind = err (posting_rule ("missing posting rule: " <> kind))

-- `raw.get("rules", {}).get(kind)`
rule_entry : Option Value → String → Result RulesError (Option Value)
rule_entry none kind = ok none
rule_entry (some (object rules)) kind = ok (get kind rules)
rule_entry (some v) kind = err no_object

unfoldable pub version_of : Option ℤ → Result RulesError ℕ
version_of (some (pos (suc n))) = ok (suc n)
version_of v = err (posting_rule "posting-rule version must be a positive integer")

abbrev unit_is_minor : Option Value → Bool
unit_is_minor (some (text s)) = s == "minor"
unit_is_minor v = false

abbrev int_of : Option Value → Option ℤ
int_of none = none
int_of (some v) = as_int v

unfoldable pub load_rule : Fields → EventType → Result RulesError (List (String × ℤ))
unfolding rule_entry parse_rule event_type_name
load_rule raw kind = do
  entry ← rule_entry (get "rules" raw) (event_type_name kind)
  parse_rule entry (event_type_name kind)

abbrev pub rules_of :
    List (String × ℤ)
    → List (String × ℤ)
    → List (String × ℤ)
    → List (String × ℤ)
    → EventType
    → List (String × ℤ)
rules_of a c r b authorization = a
rules_of a c r b capture = c
rules_of a c r b refund = r
rules_of a c r b chargeback = b

unfoldable pub load_posting_rules : Value → Result RulesError PostingRules
load_posting_rules (object raw) = do
  raise_if (not (unit_is_minor (get "currency_unit" raw)))
      (posting_rule "posting rules must use integer minor units")
  version ← version_of (int_of (get "version" raw))
  on_authorization ← load_rule raw authorization
  on_capture ← load_rule raw capture
  on_refund ← load_rule raw refund
  on_chargeback ← load_rule raw chargeback
  ok (record {
    version = version;
    rules = rules_of on_authorization on_capture on_refund on_chargeback;
  })
load_posting_rules v = err no_object

-- What the loader promises: every rule sums to zero, and the version is positive.
pub record IsBalancedRules (rules : PostingRules) : Type 0 where
  pub versioned : 0 < rules.version
  pub balanced : (kind : EventType) → sum_ℤ (multipliers (rules.rules kind)) ≡ pos 0

parse_rule-balanced :
    (v : Option Value) (kind : String) (entries : List (String × ℤ))
    → parse_rule v kind ≡ ok entries
    → sum_ℤ (multipliers entries) ≡ pos 0
unfolding parse_rule
parse_rule-balanced (some (array lines)) kind entries h =
    ground (arith, int_eq_iff (sum_ℤ (multipliers entries)) (pos 0))
parse_rule-balanced v kind entries h = ground arith

load_rule-balanced :
    (raw : Fields) (kind : EventType) (entries : List (String × ℤ))
    → load_rule raw kind ≡ ok entries
    → sum_ℤ (multipliers entries) ≡ pos 0
unfolding load_rule
load_rule-balanced raw kind entries h =
    let (entry, _, parsed) =
      >>=-eq-ok (rule_entry (get "rules" raw) (event_type_name kind))
        (λ entry. parse_rule entry (event_type_name kind)) h in
    parse_rule-balanced entry (event_type_name kind) entries parsed

version_of-pos : (v : Option ℤ) (n : ℕ) → version_of v ≡ ok n → 0 < n
unfolding version_of
version_of-pos (some (pos (suc k))) n h = ground arith
version_of-pos v n h = ground arith

-- Whatever the loader accepts has a positive version, and every rule in it sums to zero.
pub load_posting_rules-IsBalancedRules :
    (v : Value) (rules : PostingRules) → load_posting_rules v ≡ ok rules → IsBalancedRules rules
unfolding load_posting_rules
load_posting_rules-IsBalancedRules (object raw) rules h = record {
  versioned = ground (arith, version_of-pos (int_of (get "version" raw)) rules.version);
  balanced = λ kind. ground (arith, load_rule-balanced raw kind (rules.rules kind));
}
load_posting_rules-IsBalancedRules v rules h = absurd (ground arith)
