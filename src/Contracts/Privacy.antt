-- ===== src/Contracts/Privacy.antt =====
-- `reject_prohibited_fields` and `redact_payload` of ledgerflow/contracts.py.
pub mod Safe
use ledgerflow_payment_recon.Prelude.{String, List, [], ◌∷◌, ◌++◌, eq_String, if◌then◌else◌}
use ledgerflow_payment_recon.Prelude.Result.{Result, ok, err}
use ledgerflow_payment_recon.Prelude.Text.{◌<>◌, is_member, join_comma}
use ledgerflow_payment_recon.Prelude.Sets.{distinct}
use ledgerflow_payment_recon.Prelude.Order.{sort_by, order_String}
use ledgerflow_payment_recon.Json.{Value, text, array, object, Items, nil, cons, Fields, end, field}
use ledgerflow_payment_recon.Contracts.{Platform}

abbrev pub prohibited_fields : List String
prohibited_fields =
    "card_number" ∷ "cardnumber" ∷ "pan" ∷ "cvv" ∷ "cvc" ∷ "security_code" ∷ "track_data" ∷ "pin"
    ∷ "full_card_number" ∷ []

-- `PROHIBITED_FIELDS | {"customer_email"}`
abbrev pub sensitive_fields : List String
sensitive_fields = "customer_email" ∷ prohibited_fields

abbrev pub redacted : Value
redacted = text "<redacted>"

module _ (p : Platform) where
  unfoldable mutual
    -- What `visit` adds to `found`, in the order of the walk.
    pub prohibited_in : Value → List String
    prohibited_in (array vs) = prohibited_in_items vs
    prohibited_in (object fs) = prohibited_in_fields fs
    prohibited_in v = []

    pub prohibited_in_items : Items → List String
    prohibited_in_items nil = []
    prohibited_in_items (cons v vs) = prohibited_in v ++ prohibited_in_items vs

    pub prohibited_in_fields : Fields → List String
    prohibited_in_fields end = []
    prohibited_in_fields (field k v fs) =
        (if is_member (p.casefold k) prohibited_fields then p.casefold k ∷ [] else [])
        ++ (prohibited_in v ++ prohibited_in_fields fs)

  prohibited_reason : List String → String
  prohibited_reason found =
      "prohibited_fields:" <> join_comma (sort_by (λ (k : String). k) (distinct found))

  raise_found : List String → Result String (Unit {0})
  raise_found [] = ok tt
  raise_found (k ∷ found) = err (prohibited_reason (k ∷ found))

  unfoldable pub reject_prohibited_fields : Fields → Result String (Unit {0})
  unfolding prohibited_in raise_found prohibited_reason
  reject_prohibited_fields raw = raise_found (prohibited_in_fields raw)

  unfoldable mutual
    pub redact : Value → Value
    redact (array vs) = array (redact_items vs)
    redact (object fs) = object (redact_fields fs)
    redact v = v

    pub redact_items : Items → Items
    redact_items nil = nil
    redact_items (cons v vs) = cons (redact v) (redact_items vs)

    pub redact_fields : Fields → Fields
    redact_fields end = end
    redact_fields (field k v fs) =
        field k (if is_member (p.casefold k) sensitive_fields then redacted else redact v)
          (redact_fields fs)

  unfoldable pub redact_payload : Fields → Fields
  unfolding redact
  redact_payload raw = redact_fields raw
