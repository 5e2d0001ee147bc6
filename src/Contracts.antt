-- ===== src/Contracts.antt =====
-- ledgerflow/contracts.py: the source registry, the schema gate, the identity of an event and the
-- privacy boundary. This file has the data types and what the module takes from outside.
pub mod Privacy
pub mod Identity
pub mod Validate
pub mod Registry
use ledgerflow_payment_recon.Prelude.{
  ℕ, String, Bool, true, false, List, [], ◌∷◌, Option, none, some, ◌==◌, eq_String, if◌then◌else◌,
}
use ledgerflow_payment_recon.Prelude.Text.{is_member}
use ledgerflow_payment_recon.Json.{Value}

-- `datetime.fromisoformat(...)`: whether the result has a UTC offset, and its `isoformat()`.
pub record Stamp : Type 0 where
  pub aware : Bool
  pub iso : String

-- The functions of Python's standard library whose tables and algorithms are not written out:
-- Unicode case folding, lower case and white space, dates, SHA-256 and HMAC.
pub record Platform : Type 0 where
  pub casefold : String → String
  pub lower : String → String
  pub strip : String → String
  -- `none` is a `ValueError`.
  pub fromisoformat : String → Option Stamp
  -- `sha256(text.encode("utf-8")).hexdigest()`
  pub sha256_text : String → String
  -- `hmac.new(key, text.encode("utf-8"), sha256).hexdigest()`
  pub hmac_sha256 : List ℕ → String → String

pub record Source : Type 0 where
  pub source_id : String
  pub family : String
  pub mode : String
  pub contract : String
  pub owner : String
  pub freshness_minutes : ℕ

-- `dict[str, Source]`
abbrev pub Registry : Type 0
Registry = List (String × Source)

unfoldable pub find_source : String → Registry → Option Source
find_source k [] = none
find_source k ((j, s) ∷ rest) = if j == k then some s else find_source k rest

-- The members of `EVENT_TYPES`.
pub data EventType : Type 0 where
  authorization capture refund chargeback : EventType

unfoldable pub event_type_of : String → Option EventType
event_type_of s =
    if s == "authorization"
    then some authorization
    else if s == "capture"
    then some capture
    else if s == "refund"
    then some refund
    else if s == "chargeback"
    then some chargeback
    else none

abbrev pub schema_version : String
schema_version = "1.0"

abbrev pub currencies : List String
currencies = "INR" ∷ "USD" ∷ "EUR" ∷ "GBP" ∷ []

-- The versions and amounts of an event are at least 1, so they are natural numbers; the schema
-- version of every event is `schema_version`.
pub record PaymentEvent : Type 0 where
  pub event_id : String
  pub transaction_id : String
  pub transaction_version : ℕ
  pub source_id : String
  pub processor_id : String
  pub merchant_id : String
  pub event_type : EventType
  pub amount_minor : ℕ
  pub currency : String
  pub event_time : String
  pub received_at : String
  pub customer_token : Option String
