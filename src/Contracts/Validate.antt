-- ===== src/Contracts/Validate.antt =====
-- `validate_event` of ledgerflow/contracts.py and its helpers: an error is the reason of a
-- `ContractError`.
pub mod Sound
use Prim.Native.Char.{code}
use ledgerflow_payment_recon.Prelude.{
  ℕ, suc, String, Bool, true, false, List, [], ◌∷◌, Option, none, some, ◌||◌, ◌&&◌, not, leb,
  length, filter, ◌==◌, eq_String, eq_ℕ, if◌then◌else◌,
}
use ledgerflow_payment_recon.Prelude.Int.{pos}
use ledgerflow_payment_recon.Prelude.Result.{Result, ok, err, raise_if, ◌>>=◌, ◌>>◌}
use ledgerflow_payment_recon.Prelude.Text.{◌<>◌, codes, contains_code, is_member, join_comma}
use ledgerflow_payment_recon.Prelude.Order.{sort_by, order_String}
use ledgerflow_payment_recon.Json.{Value, null, int, text, Fields, get, has_key, keys}
use ledgerflow_payment_recon.Contracts.{
  Stamp, Platform, Registry, Source, find_source, EventType, event_type_of, schema_version,
  currencies, PaymentEvent,
}
use ledgerflow_payment_recon.Contracts.Privacy.{reject_prohibited_fields}
use ledgerflow_payment_recon.Contracts.Identity.{tokenize_customer}

abbrev pub required_fields : List String
required_fields =
    "schema_version" ∷ "event_id" ∷ "transaction_id" ∷ "transaction_version" ∷ "source_id"
    ∷ "processor_id" ∷ "merchant_id" ∷ "event_type" ∷ "amount_minor" ∷ "currency" ∷ "event_time"
    ∷ "received_at" ∷ []

abbrev pub allowed_fields : List String
allowed_fields = "customer_email" ∷ required_fields

-- `[A-Za-z0-9._:-]`
unfoldable pub identifier_code : ℕ → Bool
identifier_code n =
    leb 65 n && leb n 90
    || leb 97 n && leb n 122
    || leb 48 n && leb n 57
    || n == b'.'
    || n == b'_'
    || n == b':'
    || n == b'-'

unfoldable pub identifier_codes : List ℕ → Bool
unfolding identifier_code
identifier_codes [] = true
identifier_codes (n ∷ ns) = identifier_code n && identifier_codes ns

-- `IDENTIFIER.fullmatch(value)`
unfoldable pub is_identifier : String → Bool
unfolding identifier_codes
is_identifier s =
    leb 1 (length (codes s)) && leb (length (codes s)) 128 && identifier_codes (codes s)

-- `raw[name]` of a field that is present; a missing one would be a `KeyError`.
abbrev value_at : String → Fields → Value
value_at k raw = elim (get k raw) [ some v ↦ v | none ↦ null ]

validate_identifier : Value → String → Result String String
unfolding is_identifier
validate_identifier (text s) name = if is_identifier s then ok s else err ("invalid_" <> name)
validate_identifier v name = err ("invalid_" <> name)

-- `value.replace("Z", "+00:00")`
unfoldable pub replace_zulu : String → String
replace_zulu String.[] = ""
replace_zulu (String.◌∷◌ c s) =
    (if code c == 90 then "+00:00" else String.◌∷◌ c "") <> replace_zulu s

stamp_text : Option Stamp → String → Result String String
stamp_text none name = err ("invalid_" <> name)
stamp_text (some stamp) name =
    if stamp.aware then ok stamp.iso else err ("timezone_required:" <> name)

-- A positive integer that is no Boolean.
positive_int : Value → String → Result String ℕ
positive_int (int (pos (suc n))) reason = ok (suc n)
positive_int v reason = err reason

event_type : Value → Result String EventType
event_type (text s) = elim (event_type_of s) [ some e ↦ ok e | none ↦ err "unsupported_event_type" ]
event_type v = err "unsupported_event_type"

currency : Value → Result String String
currency (text s) = if is_member s currencies then ok s else err "unsupported_currency"
currency v = err "unsupported_currency"

schema_matches : Value → Bool
schema_matches (text s) = s == schema_version
schema_matches v = false

source_contract : Option Source → Result String (Unit {0})
source_contract none = err "unknown_source"
source_contract (some s) = raise_if (not (s.contract == "payment_event")) "source_contract_mismatch"

customer_email : Option Value → Result String (Option String)
customer_email none = ok none
customer_email (some null) = ok none
customer_email (some (text s)) =
    if contains_code 64 s then ok (some s) else err "invalid_customer_email"
customer_email (some v) = err "invalid_customer_email"

is_nonempty : List String → Bool
is_nonempty [] = false
is_nonempty (_ ∷ _) = true

sorted_names : List String → String
sorted_names names = join_comma (sort_by (λ (k : String). k) names)

unfoldable pub missing_fields : Fields → List String
missing_fields raw = filter (λ k. not (has_key k raw)) required_fields

unfoldable pub unexpected_fields : Fields → List String
unexpected_fields raw = filter (λ k. not (is_member k allowed_fields)) (keys raw)

module _ (p : Platform) where
  parse_utc_timestamp : Value → String → Result String String
  unfolding stamp_text
  parse_utc_timestamp (text s) name = stamp_text (p.fromisoformat (replace_zulu s)) name
  parse_utc_timestamp v name = err ("invalid_" <> name)

  unfoldable pub validate_event : Fields → Registry → List ℕ → Result String PaymentEvent
  unfolding missing_fields unexpected_fields is_nonempty sorted_names schema_matches
      validate_identifier source_contract positive_int event_type currency parse_utc_timestamp
      customer_email
  validate_event raw registry token_key = do
    reject_prohibited_fields p raw
    raise_if (is_nonempty (missing_fields raw))
        ("missing_fields:" <> sorted_names (missing_fields raw))
    raise_if (is_nonempty (unexpected_fields raw))
        ("unexpected_fields:" <> sorted_names (unexpected_fields raw))
    raise_if (not (schema_matches (value_at "schema_version" raw))) "unsupported_schema_version"
    event_id ← validate_identifier (value_at "event_id" raw) "event_id"
    transaction_id ← validate_identifier (value_at "transaction_id" raw) "transaction_id"
    source_id ← validate_identifier (value_at "source_id" raw) "source_id"
    processor_id ← validate_identifier (value_at "processor_id" raw) "processor_id"
    merchant_id ← validate_identifier (value_at "merchant_id" raw) "merchant_id"
    source_contract (find_source source_id registry)
    version ← positive_int (value_at "transaction_version" raw) "invalid_transaction_version"
    kind ← event_type (value_at "event_type" raw)
    amount ← positive_int (value_at "amount_minor" raw) "invalid_amount_minor"
    unit ← currency (value_at "currency" raw)
    event_time ← parse_utc_timestamp (value_at "event_time" raw) "event_time"
    received_at ← parse_utc_timestamp (value_at "received_at" raw) "received_at"
    email ← customer_email (get "customer_email" raw)
    token ← tokenize_customer p email token_key
    ok (record {
      event_id = event_id;
      transaction_id = transaction_id;
      transaction_version = version;
      source_id = source_id;
      processor_id = processor_id;
      merchant_id = merchant_id;
      event_type = kind;
      amount_minor = amount;
      currency = unit;
      event_time = event_time;
      received_at = received_at;
      customer_token = token;
    })
