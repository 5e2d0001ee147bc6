-- ===== src/Contracts/Identity.antt =====
-- `identity_fingerprint`, `tokenize_customer` and `extract_business_payload` of
-- ledgerflow/contracts.py.
use ledgerflow_payment_recon.Prelude.{
  ℕ, String, Bool, true, false, List, [], ◌∷◌, Option, none, some, ◌||◌, not, ltb, length, ◌==◌,
  eq_String, if◌then◌else◌,
}
use ledgerflow_payment_recon.Prelude.Result.{Result, ok, err, raise_if, ◌>>◌}
use ledgerflow_payment_recon.Json.{Value, null, text, object, Fields, end, field, get, get_text}
use ledgerflow_payment_recon.Json.Dumps.{canonical_json}
use ledgerflow_payment_recon.Contracts.{Platform}

-- Every field of the contract but `received_at`.
abbrev pub identity_fields : List String
identity_fields =
    "schema_version" ∷ "event_id" ∷ "transaction_id" ∷ "transaction_version" ∷ "source_id"
    ∷ "processor_id" ∷ "merchant_id" ∷ "event_type" ∷ "amount_minor" ∷ "currency" ∷ "event_time"
    ∷ "customer_email" ∷ []

module _ (p : Platform) where
  -- `email.strip().lower()`, where the email is a text.
  normalize_field : String → Value → Value
  normalize_field k (text s) = if k == "customer_email" then text (p.lower (p.strip s)) else text s
  normalize_field k v = v

  keep_field : String → Option Value → Fields → Fields
  unfolding normalize_field
  keep_field k none rest = rest
  keep_field k (some v) rest = field k (normalize_field k v) rest

  -- `{field: raw.get(field) for field in names if field in raw}`, its email normalised.
  unfoldable pub identity_of : List String → Fields → Fields
  unfolding keep_field
  identity_of [] raw = end
  identity_of (k ∷ names) raw = keep_field k (get k raw) (identity_of names raw)

  unfoldable pub identity_fingerprint : Fields → String
  identity_fingerprint raw =
      p.sha256_text (canonical_json (object (identity_of identity_fields raw)))

  unfoldable pub tokenize_customer : Option String → List ℕ → Result String (Option String)
  tokenize_customer none key = ok none
  tokenize_customer (some value) key =
      if ltb (length key) 32
      then err "token_key_too_short"
      else ok (some (p.hmac_sha256 key (p.lower (p.strip value))))

-- What a DMS envelope turns into. `unhashable` is the `TypeError` of `operation in {…}` at a list
-- or an object, which is no `ContractError`.
pub data EnvelopeError : Type 0 where
  contract : String → EnvelopeError
  unhashable : EnvelopeError

abbrev insert_or_load : Option Value → Result EnvelopeError (Unit {0})
insert_or_load (some (text s)) =
    raise_if (not (s == "insert" || s == "load")) (contract "non_insert_outbox_mutation")
insert_or_load (some (Value.array _)) = err unhashable
insert_or_load (some (object _)) = err unhashable
insert_or_load _ = err (contract "non_insert_outbox_mutation")

open_envelope : Option Value → Option Value → Fields → Result EnvelopeError Fields
open_envelope (some (object metadata)) (some (object payload)) raw = do
  raise_if
      (elim (get_text "table-name" metadata) [ some s ↦ not (s == "payment_outbox") | none ↦ true ])
      (contract "unsupported_cdc_table")
  insert_or_load (get "operation" metadata)
  ok payload
open_envelope metadata payload raw = err (contract "invalid_cdc_envelope")

-- `raw.get(key) is None`: the key is missing, or its value is null.
abbrev present : Option Value → Bool
present none = false
present (some null) = false
present (some _) = true

unfoldable pub extract_business_payload : Fields → Result EnvelopeError Fields
unfolding open_envelope
extract_business_payload raw =
    if present (get "metadata" raw) || present (get "data" raw)
    then open_envelope (get "metadata" raw) (get "data" raw) raw
    else ok raw
