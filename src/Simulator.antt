-- ===== src/Simulator.antt =====
-- ledgerflow/simulator.py: synthetic payment lifecycles and the faults that are injected into them.
pub mod Injected
pub mod Counts
pub mod Shapes
pub mod Lawful
use ledgerflow_payment_recon.Prelude.{
  ℕ, zero, suc, ◌+◌, ◌-◌, ◌*◌, ◌/◌, ◌%◌, String, Bool, true, false, ◌||◌, List, [], ◌∷◌, ◌++◌,
  length, filter, Option, none, some, ltb, ◌==◌, eq_String, eq_ℕ, if◌then◌else◌,
}
use ledgerflow_payment_recon.Prelude.Int.{ℤ, pos, negsuc, ◌+ℤ◌}
use ledgerflow_payment_recon.Prelude.Text.{◌<>◌, codes, decimal, decimal_02}
use ledgerflow_payment_recon.Prelude.Result.{Result, ok, err, ◌>>=◌}
use ledgerflow_payment_recon.Json.{Value, int, text, Fields, field, end, get}
use ledgerflow_payment_recon.Contracts.{Source, Registry, currencies}

-- `random.shuffle` of the seed, and the clock: the `isoformat()` of so many seconds after a base time,
-- and that of five minutes after a time.
pub record Library : Type 0 where
  pub shuffle : List Fields → List Fields
  pub time_after : String → ℕ → String
  pub five_minutes_after : String → String

pub data SimulatorError : Type 0 where
  too_few_records : SimulatorError
  no_lifecycle_sources : SimulatorError
  index_error : SimulatorError
  stop_iteration : SimulatorError

zeros : ℕ → String
zeros zero = ""
zeros (suc n) = "0" <> zeros n

-- `f"{n:0{width}d}"`
unfoldable pub padded : ℕ → ℕ → String
unfolding zeros
padded width n = zeros (width - length (codes (decimal n))) <> decimal n

unfoldable pub nth : {A : Type 0} → ℕ → A → List A → A
nth n default [] = default
nth zero default (x ∷ xs) = x
nth (suc n) default (x ∷ xs) = nth n default xs

unfoldable pub transaction_id_of : ℕ → String
unfolding padded
transaction_id_of n = "txn-" <> padded 10 n

abbrev pub currency_of : ℕ → String
currency_of n = nth (n % 4) "INR" currencies

unfoldable pub amount_for : ℕ → ℕ
amount_for n = 10000 + n * 7919 % 490000

-- `max(1, amount // parts)`
unfoldable pub part_of : ℕ → ℕ → ℕ
part_of amount parts = if ltb 1 (amount / parts) then amount / parts else 1

-- `dict[key] = value`
unfoldable pub set_field : String → Value → Fields → Fields
set_field k v end = field k v end
set_field k v (field j w fs) =
    let rest = set_field k v fs in if j == k then field j v fs else field j w rest

abbrev pub base_time : String
base_time = "2026-01-01T00:00:00+00:00"

module _ (lib : Library) where
  -- `_event`; the base time is given with an offset in seconds.
  unfoldable pub event_of : ℕ → ℕ → String → ℕ → Source → String → ℕ → Fields
  unfolding transaction_id_of padded
  event_of n version kind amount source base offset = field "schema_version" (text "1.0") (
      field "event_id" (text (transaction_id_of n <> ":v" <> decimal version)) (
        field "transaction_id" (text (transaction_id_of n)) (
          field "transaction_version" (int (pos version)) (
            field "source_id" (text source.source_id) (
              field "processor_id" (text ("processor-" <> decimal_02 (n % 3 + 1))) (
                field "merchant_id" (text ("merchant-" <> padded 3 (n % 250))) (
                  field "event_type" (text kind) (
                    field "amount_minor" (int (pos amount)) (
                      field "currency" (text (currency_of n)) (
                        field "event_time" (text (lib.time_after base (offset + version * 60))) (
                          field "received_at"
                            (text (
                              lib.time_after base
                                (offset + version * 60 + (n * 17 + version * 11) % 240)))
                            (field "customer_email"
                              (text ("customer" <> decimal (n % 10000) <> "@example.test"))
                              end))))))))))))

  -- The third event of a transaction, if it has one.
  unfoldable pub reversal_of : ℕ → Source → List Fields
  unfolding event_of part_of amount_for
  reversal_of n source =
      if n % 5 == 0
      then event_of n 3 "refund" (part_of (amount_for n) 4) source base_time (n * 10) ∷ []
      else if n % 7 == 0
      then event_of n 3 "chargeback" (part_of (amount_for n) 5) source base_time (n * 10) ∷ []
      else []

  unfoldable pub transaction_events : ℕ → Source → List Fields
  unfolding event_of amount_for reversal_of
  transaction_events n source =
      event_of n 1 "authorization" (amount_for n) source base_time (n * 10)
      ∷ event_of n 2 "capture" (amount_for n) source base_time (n * 10)
      ∷ reversal_of n source

  -- `while len(valid) < minimum_records`, on fuel: the events from here on, and the next number.
  unfoldable pub lifecycles : ℕ → ℕ → Source → List Source → ℕ → ℕ → List Fields × ℕ
  unfolding transaction_events
  lifecycles zero minimum first sources n count = ([], n)
  lifecycles (suc fuel) minimum first sources n count =
      let events = transaction_events n (nth ((n - 1) % length sources) first sources) in
      let rest = lifecycles fuel minimum first sources (suc n) (count + length events) in
      if ltb count minimum then (events ++ rest.0, rest.1) else ([], n)

  -- The events at the indices 0, 2, ... below a bound.
  unfoldable pub duplicates : ℕ → List Fields → List Fields
  duplicates zero valid = []
  duplicates (suc k) [] = []
  duplicates (suc zero) (e ∷ valid) = e ∷ []
  duplicates (suc (suc k)) (e ∷ []) = e ∷ []
  duplicates (suc (suc k)) (e ∷ d ∷ valid) = e ∷ duplicates k valid

  abbrev pub smaller : ℕ → ℕ → ℕ
  smaller a b = if ltb a b then a else b

  abbrev pub larger : ℕ → ℕ → ℕ
  larger a b = if ltb a b then b else a

  unfoldable pub duplicate_bound : ℕ → ℕ
  duplicate_bound count = smaller count (larger 4 (count / 300))

  incremented : Option Value → Value
  incremented (some (int n)) = int (n +ℤ pos 1)
  incremented v = Value.null

  delayed : Option Value → Value
  delayed (some (text s)) = text (lib.five_minutes_after s)
  delayed v = Value.null

  unfoldable pub conflict_of : Fields → Fields
  unfolding set_field incremented delayed
  conflict_of e =
      set_field "received_at" (delayed (get "received_at" e))
        (set_field "amount_minor" (incremented (get "amount_minor" e)) e)

  renamed : String → Fields → Fields
  unfolding set_field
  renamed id e = set_field "transaction_id" (text id) (set_field "event_id" (text id) e)

  -- The conflict, and the three records that the contract refuses.
  unfoldable pub faults : Fields → Fields → List Fields
  unfolding conflict_of renamed set_field
  faults first second =
      conflict_of first
      ∷ set_field "amount_minor" (int (negsuc 99)) (renamed "fixture:invalid-amount" second)
      ∷ set_field "schema_version" (text "9.9") (renamed "fixture:unsupported-schema" second)
      ∷ set_field "card_number" (text "4111111111111111") (renamed "fixture:prohibited-pan" second)
      ∷ []

  -- What is written, and the report.
  pub record Generated : Type 0 where
    pub arrivals : List Fields
    pub valid : List Fields
    pub exact_duplicates : ℕ
    pub transactions : ℕ

  unfoldable pub generated : List Fields × ℕ → Result SimulatorError Generated
  unfolding faults duplicates duplicate_bound
  generated ([], n) = err index_error
  generated (e ∷ [], n) = err index_error
  generated (first ∷ second ∷ rest, n) =
      let valid = first ∷ second ∷ rest in
      let copies = duplicates (duplicate_bound (length valid)) valid in
      ok (record {
        arrivals = lib.shuffle valid ++ (copies ++ faults first second);
        valid = valid;
        exact_duplicates = length copies;
        transactions = n - 1;
      })

  unfoldable pub from_sources : ℕ → List Source → Result SimulatorError Generated
  unfolding lifecycles generated
  from_sources minimum [] = err no_lifecycle_sources
  from_sources minimum (s ∷ sources) = generated (lifecycles minimum minimum s (s ∷ sources) 1 0)

  unfoldable pub sources_of : Registry → List Source
  sources_of [] = []
  sources_of ((k, s) ∷ registry) = s ∷ sources_of registry

  -- `generate_payment_events`, but for the file. Each round adds two events at least, so that
  -- `minimum_records` rounds are enough.
  unfoldable pub generate_payment_events : Registry → ℕ → Result SimulatorError Generated
  unfolding from_sources sources_of
  generate_payment_events registry minimum =
      if ltb minimum 100
      then err too_few_records
      else from_sources minimum
          (filter (λ (s : Source). s.mode == "stream" || s.mode == "cdc") (sources_of registry))

  stream_source : List Source → Result SimulatorError Source
  stream_source [] = err stop_iteration
  stream_source (s ∷ sources) = if s.mode == "stream" then ok s else stream_source sources

  -- A capture without an authorization.
  unfoldable pub lifecycle_violation_fixture : Registry → Result SimulatorError (List Fields)
  unfolding stream_source sources_of event_of set_field
  lifecycle_violation_fixture registry = do
    source ← stream_source (sources_of registry)
    let capture = event_of 999999 1 "capture" 50000 source "2026-02-01T00:00:00+00:00" 0
    ok (
        set_field "transaction_id" (text "fixture:lifecycle-violation")
          (set_field "event_id" (text "fixture:capture-without-authorization") capture)
        ∷ [])

  unfoldable pub unique_crash_fixture : Registry → Result SimulatorError (List Fields)
  unfolding stream_source sources_of event_of
  unique_crash_fixture registry = do
    source ← stream_source (sources_of registry)
    ok (
        event_of 888888 1 "authorization" 75000 source "2026-03-01T00:00:00+00:00" 0
        ∷ event_of 888888 2 "capture" 75000 source "2026-03-01T00:00:00+00:00" 0
        ∷ [])
