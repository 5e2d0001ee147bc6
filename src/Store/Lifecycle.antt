-- ===== src/Store/Lifecycle.antt =====
-- The assessment of one transaction's history in `LedgerStore._project_transaction`
-- (ledgerflow/store.py), and the status of a history that passes it.
pub mod Versions
pub mod Checks
pub mod Order
pub mod Sound
use ledgerflow_payment_recon.Prelude.{
  ℕ, ◌+◌, Bool, true, false, ◌&&◌, ◌||◌, not, List, [], ◌∷◌, map, Option, none, some, ltb, leb,
  length, filter, ◌==◌, eq_ℕ, eq_String, if◌then◌else◌,
}
use ledgerflow_payment_recon.Prelude.Sets.{distinct, minimum, maximum, sum}
use ledgerflow_payment_recon.Contracts.{PaymentEvent, authorization, capture, refund, chargeback}

-- The reasons of a business exception.
pub data Reason : Type 0 where
  transaction_version_conflict : Reason
  transaction_version_gap : Reason
  currency_mutation : Reason
  processor_mutation : Reason
  merchant_mutation : Reason
  duplicate_authorization : Reason
  capture_without_authorization : Reason
  missing_authorization : Reason
  capture_before_authorization : Reason
  reversal_without_capture : Reason
  reversal_before_capture : Reason
  capture_exceeds_authorization : Reason
  refund_or_chargeback_exceeds_capture : Reason

pub data Status : Type 0 where
  authorized captured partially_captured refunded partially_refunded : Status
  chargedback partially_chargedback : Status

abbrev pub is_authorization : PaymentEvent → Bool
is_authorization e = elim e.event_type [
  | authorization ↦ true
  | capture ↦ false
  | refund ↦ false
  | chargeback ↦ false
]

abbrev pub is_capture : PaymentEvent → Bool
is_capture e = elim e.event_type [
  | authorization ↦ false
  | capture ↦ true
  | refund ↦ false
  | chargeback ↦ false
]

abbrev pub is_refund : PaymentEvent → Bool
is_refund e = elim e.event_type [
  | authorization ↦ false
  | capture ↦ false
  | refund ↦ true
  | chargeback ↦ false
]

abbrev pub is_chargeback : PaymentEvent → Bool
is_chargeback e = elim e.event_type [
  | authorization ↦ false
  | capture ↦ false
  | refund ↦ false
  | chargeback ↦ true
]

-- `event.event_type in {"refund", "chargeback"}`
abbrev pub is_reversal : PaymentEvent → Bool
is_reversal e = is_refund e || is_chargeback e

abbrev pub versions : List PaymentEvent → List ℕ
versions events = map (λ e. e.transaction_version) events

-- `sum(event.amount_minor for event in events if p(event))`
abbrev pub amount_of : (PaymentEvent → Bool) → List PaymentEvent → ℕ
amount_of p events = sum (map (λ e. e.amount_minor) (filter p events))

-- `min(...) <= limit` and `min(...) <= min(...)`, where no list is empty.
abbrev pub le_some : Option ℕ → Option ℕ → Bool
le_some (some a) (some b) = leb a b
le_some _ _ = false

abbrev pub eq_some : Option ℕ → ℕ → Bool
eq_some (some a) b = a == b
eq_some none b = false

abbrev pub is_empty {ℓ} : {A : Type ℓ} → List A → Bool
is_empty [] = true
is_empty (_ ∷ _) = false

abbrev pub head_version : List PaymentEvent → Option ℕ
head_version [] = none
head_version (e ∷ _) = some e.transaction_version

module _ (events : List PaymentEvent) where
  abbrev pub authorizations : List PaymentEvent
  authorizations = filter is_authorization events

  abbrev pub captures : List PaymentEvent
  captures = filter is_capture events

  abbrev pub reversals : List PaymentEvent
  reversals = filter is_reversal events

  unfoldable pub authorized_minor : ℕ
  authorized_minor = amount_of is_authorization events

  unfoldable pub captured_minor : ℕ
  captured_minor = amount_of is_capture events

  unfoldable pub refunded_minor : ℕ
  refunded_minor = amount_of is_refund events

  unfoldable pub chargeback_minor : ℕ
  chargeback_minor = amount_of is_chargeback events

  -- The `if`/`elif` chain on the order of the events and on their parties.
  unfoldable pub assess_order : Option Reason
  assess_order =
      if not (length (distinct (versions events)) == length events)
      then some transaction_version_conflict
      else if not (eq_some (minimum (versions events)) 1)
          || not (eq_some (maximum (versions events)) (length events))
      then some transaction_version_gap
      else if not (length (distinct (map (λ (e : PaymentEvent). e.currency) events)) == 1)
      then some currency_mutation
      else if not (length (distinct (map (λ (e : PaymentEvent). e.processor_id) events)) == 1)
      then some processor_mutation
      else if not (length (distinct (map (λ (e : PaymentEvent). e.merchant_id) events)) == 1)
      then some merchant_mutation
      else none

  -- The rest of the chain, on the kinds of the events and their amounts.
  unfoldable pub assess_flow : Option Reason
  assess_flow =
      if ltb 1 (length authorizations)
      then some duplicate_authorization
      else if is_empty authorizations && not (is_empty captures)
      then some capture_without_authorization
      else if is_empty authorizations
      then some missing_authorization
      else if not (is_empty captures)
          && le_some (minimum (versions captures)) (head_version authorizations)
      then some capture_before_authorization
      else if not (is_empty reversals) && is_empty captures
      then some reversal_without_capture
      else if not (is_empty reversals)
          && le_some (minimum (versions reversals)) (minimum (versions captures))
      then some reversal_before_capture
      else if ltb authorized_minor captured_minor
      then some capture_exceeds_authorization
      else if ltb captured_minor (refunded_minor + chargeback_minor)
      then some refund_or_chargeback_exceeds_capture
      else none

  unfoldable pub assess : Option Reason
  assess = elim assess_order [ some reason ↦ some reason | none ↦ assess_flow ]

-- The status of a history that passes, from its four amounts.
unfoldable pub status_of : ℕ → ℕ → ℕ → ℕ → Status
status_of authorized_total captured_total refunded_total charged_back =
    if ltb 0 charged_back
    then if refunded_total + charged_back == captured_total
      then chargedback
      else partially_chargedback
    else if ltb 0 refunded_total
    then if refunded_total == captured_total then refunded else partially_refunded
    else if ltb 0 captured_total
    then if captured_total == authorized_total then captured else partially_captured
    else authorized
