-- ===== src/Examples/SimulatorRuns.antt =====
-- ledgerflow/simulator.py at concrete inputs.
use ledgerflow_payment_recon.Prelude.{ℕ, ◌≤◌, ◌≡◌, refl, List, [], ◌∷◌, length, none, arith}
use ledgerflow_payment_recon.Prelude.Text.{◌<>◌, decimal_02}
use ledgerflow_payment_recon.Prelude.Result.{ok}
use ledgerflow_payment_recon.Json.{get}
use ledgerflow_payment_recon.Contracts.{
  Source, EventType, authorization, capture, refund, PaymentEvent,
}
use ledgerflow_payment_recon.Ledger.Rules.{event_type_name}
use ledgerflow_payment_recon.Store.Lifecycle.{assess}
use ledgerflow_payment_recon.Simulator.{
  Library, Generated, padded, base_time, part_of, amount_for, currency_of, event_of, reversal_of,
  transaction_events, sources_of, generate_payment_events,
}
use ledgerflow_payment_recon.Simulator.Counts.{IsCounted, generate_payment_events-IsCounted}
use ledgerflow_payment_recon.Simulator.Lawful.{Reads, AllRead, transaction_events_pass}
use ledgerflow_payment_recon.Examples.Fixtures.{registry}

-- A generator that leaves the order, and a clock that stands still.
abbrev library : Library
library = record {
  shuffle = λ events. events;
  time_after = λ base seconds. base;
  five_minutes_after = λ time. time;
}

one_source : 1 ≤ length (sources_of library registry)
unfolding sources_of
one_source = omega arith

generate_payment_events-IsCounted_example :
    (g : Generated library) × (generate_payment_events library registry 100 ≡ ok g)
    × IsCounted library 100 g
unfolding sources_of
generate_payment_events-IsCounted_example =
    generate_payment_events-IsCounted library (λ events. refl) registry 100 (omega arith)
      (omega arith)

abbrev checkout : Source
checkout = record {
  source_id = "checkout-01";
  family = "checkout";
  mode = "stream";
  contract = "payment_event";
  owner = "payments";
  freshness_minutes = 5;
}

-- The fifth transaction has a refund.
abbrev fifth : EventType → ℕ → ℕ → PaymentEvent
fifth kind version amount = record {
  event_id = "e";
  transaction_id = "t";
  transaction_version = version;
  source_id = "checkout-01";
  processor_id = "processor-" <> decimal_02 3;
  merchant_id = "merchant-" <> padded 3 5;
  event_type = kind;
  amount_minor = amount;
  currency = currency_of 5;
  event_time = "x";
  received_at = "x";
  customer_token = none;
}

abbrev fifth_events : List PaymentEvent
fifth_events =
    fifth authorization 1 (amount_for 5)
    ∷ fifth capture 2 (amount_for 5)
    ∷ fifth refund 3 (part_of (amount_for 5) 4)
    ∷ []

reads :
    (kind : EventType) (version amount : ℕ)
    → Reads
        (event_of library 5 version (event_type_name kind) amount checkout base_time 50)
        (fifth kind version amount)
unfolding event_of get
reads kind version amount = record {
  version = refl;
  kind = refl;
  amount = refl;
  currency = refl;
  processor = refl;
  merchant = refl;
}

fifth_read : AllRead (transaction_events library 5 checkout) fifth_events
unfolding transaction_events reversal_of event_type_name
fifth_read = (
  reads authorization 1 (amount_for 5),
  (reads capture 2 (amount_for 5), (reads refund 3 (part_of (amount_for 5) 4), tt)),
)

transaction_events_pass_example : assess fifth_events ≡ none
transaction_events_pass_example = transaction_events_pass library 5 checkout fifth_events fifth_read
