-- ===== src/Examples/Fixtures.antt =====
-- A small platform, registry, rule file and batch of events.
use ledgerflow_payment_recon.Prelude.{ℕ, String, true, List, [], ◌∷◌, Option, none, some}
use ledgerflow_payment_recon.Prelude.Int.{ℤ, pos, negsuc}
use ledgerflow_payment_recon.Prelude.Text.{◌<>◌}
use ledgerflow_payment_recon.Prelude.Result.{Result, ok}
use ledgerflow_payment_recon.Json.{Value, int, text, array, object, nil, cons, Fields, end, field}
use ledgerflow_payment_recon.Contracts.{Platform, Registry, EventType, PaymentEvent}
use ledgerflow_payment_recon.Ledger.Config.{config_rules}
use ledgerflow_payment_recon.Store.Tables.{Tables, StoreError}
use ledgerflow_payment_recon.Store.Process.{Run}

-- Hashes that keep the text, and texts that are in normal form already.
abbrev pub platform : Platform
platform = record {
  casefold = λ s. s;
  lower = λ s. s;
  strip = λ s. s;
  fromisoformat = λ s. some (record { aware = true; iso = s });
  sha256_text = λ s. s;
  hmac_sha256 = λ key s. "token:" <> s;
}

abbrev pub registry : Registry
registry =
    (
      "checkout-01",
      record {
        source_id = "checkout-01";
        family = "checkout";
        mode = "stream";
        contract = "payment_event";
        owner = "payments";
        freshness_minutes = 5;
      },
    )
    ∷ []

abbrev pub entry : String → ℤ → Value
entry account multiplier =
    object (field "account" (text account) (field "multiplier" (int multiplier) end))

abbrev pub two_lines : String → String → Value
two_lines debit credit = array (cons (entry debit (pos 1)) (cons (entry credit (negsuc 0)) nil))

abbrev pub rule_fields : Fields
rule_fields = field "authorization" (array nil) (
    field "capture" (two_lines "processor_receivable" "merchant_payable") (
      field "refund" (two_lines "merchant_payable" "processor_receivable")
        (field "chargeback" (two_lines "chargeback_loss" "processor_receivable") end)))

-- config/posting_rules.json
abbrev pub rules_file : Value
rules_file = object (
    field "version" (int (pos 1))
      (field "currency_unit" (text "minor") (field "rules" (object rule_fields) end)))

abbrev pub payment : String → ℕ → EventType → ℕ → PaymentEvent
payment id version kind amount = record {
  event_id = id;
  transaction_id = "t1";
  transaction_version = version;
  source_id = "checkout-01";
  processor_id = "p1";
  merchant_id = "m1";
  event_type = kind;
  amount_minor = amount;
  currency = "USD";
  event_time = "2026-01-01";
  received_at = "2026-01-02";
  customer_token = none;
}

abbrev pub raw_event : String → ℕ → String → ℕ → Fields
raw_event id version kind amount = field "schema_version" (text "1.0") (
    field "event_id" (text id) (
      field "transaction_id" (text "t1") (
        field "transaction_version" (int (pos version)) (
          field "source_id" (text "checkout-01") (
            field "processor_id" (text "p1") (
              field "merchant_id" (text "m1") (
                field "event_type" (text kind) (
                  field "amount_minor" (int (pos amount)) (
                    field "currency" (text "USD") (
                      field "event_time" (text "2026-01-01")
                        (field "received_at" (text "2026-01-02") end)))))))))))

abbrev pub empty_store : Tables
empty_store = record {
  run_journal = [];
  run_outcome = [];
  seen_event = [];
  accepted_event = [];
  quarantine = [];
  business_exception = [];
  posted_event = [];
  ledger_entry = [];
  payment_state = [];
  settlement_actual = [];
  settlement_exception = [];
}

abbrev pub token_key : List ℕ
token_key =
    1 ∷ 2 ∷ 3 ∷ 4 ∷ 5 ∷ 6 ∷ 7 ∷ 8 ∷ 9 ∷ 10 ∷ 11 ∷ 12 ∷ 13 ∷ 14 ∷ 15 ∷ 16 ∷ 17 ∷ 18 ∷ 19 ∷ 20 ∷ 21
    ∷ 22 ∷ 23 ∷ 24 ∷ 25 ∷ 26 ∷ 27 ∷ 28 ∷ 29 ∷ 30 ∷ 31 ∷ 32 ∷ []

-- Out of order, with a replay, an identity conflict and an amount of zero.
abbrev pub batch : List (Result StoreError Fields)
batch =
    ok (raw_event "e2" 2 "capture" 80)
    ∷ ok (raw_event "e1" 1 "authorization" 100)
    ∷ ok (raw_event "e2" 2 "capture" 80)
    ∷ ok (raw_event "e1" 1 "authorization" 101)
    ∷ ok (raw_event "e3" 3 "refund" 0)
    ∷ []

abbrev pub run_of : String → List (Result StoreError Fields) → Option String → Run
run_of id items point = record {
  run_id = id;
  input_sha256 = "sha";
  raw_events = items;
  registry = registry;
  token_key = token_key;
  posting_rules = config_rules;
  failpoint = point;
  started_at = "start";
  completed_at = "end";
}

abbrev pub describe : StoreError → String
describe e = "failed"
