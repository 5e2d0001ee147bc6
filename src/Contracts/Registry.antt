-- ===== src/Contracts/Registry.antt =====
-- `load_source_registry` of ledgerflow/contracts.py, from the parsed JSON value.
pub mod Sound
use ledgerflow_payment_recon.Prelude.{
  ℕ, zero, suc, ◌+◌, String, Bool, true, false, List, [], ◌∷◌, ◌++◌, Option, none, some, filter,
  not, ◌==◌, eq_String, if◌then◌else◌,
}
use ledgerflow_payment_recon.Prelude.Int.{ℤ, pos, negsuc, pos_part}
use ledgerflow_payment_recon.Prelude.Text.{◌<>◌, is_member, join_comma, decimal_02}
use ledgerflow_payment_recon.Prelude.Order.{sort_by, order_String}
use ledgerflow_payment_recon.Prelude.Result.{Result, ok, err, raise_if, ◌>>=◌, ◌>>◌}
use ledgerflow_payment_recon.Json.{
  Value, text, array, object, Items, nil, cons, Fields, get, has_key, as_int,
}
use ledgerflow_payment_recon.Contracts.{Source, Registry, find_source}

pub data RegistryError : Type 0 where
  contract_error : String → RegistryError
  -- `raw.get` or `family.keys` of no object, and the hash of a list or an object
  attribute_error : RegistryError
  type_error : RegistryError

abbrev pub modes : List String
modes = "stream" ∷ "cdc" ∷ "manifest_file" ∷ []

abbrev pub contracts : List String
contracts = "payment_event" ∷ "settlement_evidence" ∷ []

abbrev pub family_fields : List String
family_fields = "family" ∷ "instances" ∷ "mode" ∷ "contract" ∷ "owner" ∷ "freshness_minutes" ∷ []

unfoldable pub missing_of : Fields → List String
missing_of family = filter (λ k. not (has_key k family)) family_fields

require_fields : List String → Result RegistryError (Unit {0})
require_fields [] = ok tt
require_fields (k ∷ missing) = err (
    contract_error
      ("source_family_missing:" <> join_comma (sort_by (λ (s : String). s) (k ∷ missing))))

-- `family[name]` of a field that is present; a missing one was refused before.
abbrev field_of : String → Fields → Value
field_of k family = elim (get k family) [ some v ↦ v | none ↦ Value.null ]

-- `isinstance(value, int) and value >= 1`, and the number
unfoldable pub positive_of : Option ℤ → String → Result RegistryError ℕ
positive_of (some (pos (suc n))) reason = ok (suc n)
positive_of n reason = err (contract_error reason)

-- `range(1, instances + 1)` has a number of elements, and adding one fails on a known id.
module _ (str : Value → String) where
  -- `str(value)`
  py_str : Value → String
  py_str (text s) = s
  py_str v = str v

  -- `value not in names` of a set of texts
  member_of : Value → List String → String → Result RegistryError String
  unfolding py_str
  member_of (text s) names reason =
      if is_member s names then ok s else err (contract_error (reason <> s))
  member_of (array vs) names reason = err type_error
  member_of (object fs) names reason = err type_error
  member_of v names reason = err (contract_error (reason <> py_str v))

  pub record Family : Type 0 where
    pub name : String
    pub mode : String
    pub contract : String
    pub owner : String
    pub freshness_minutes : ℕ
    pub instances : ℕ

  unfoldable pub family_of : Fields → Result RegistryError Family
  unfolding missing_of require_fields member_of positive_of py_str
  family_of family = do
    require_fields (missing_of family)
    mode ← member_of (field_of "mode" family) modes "unsupported_source_mode:"
    contract ← member_of (field_of "contract" family) contracts "unsupported_source_contract:"
    instances ← positive_of (as_int (field_of "instances" family)) "invalid_source_instances"
    freshness ←
        positive_of (as_int (field_of "freshness_minutes" family)) "invalid_freshness_minutes"
    ok (record {
      name = py_str (field_of "family" family);
      mode = mode;
      contract = contract;
      owner = py_str (field_of "owner" family);
      freshness_minutes = freshness;
      instances = instances;
    })

  unfoldable pub source_of : Family → ℕ → Source
  source_of f number = record {
    source_id = f.name <> "-" <> decimal_02 number;
    family = f.name;
    mode = f.mode;
    contract = f.contract;
    owner = f.owner;
    freshness_minutes = f.freshness_minutes;
  }

  insert_source : Option Source → Source → Registry → Result RegistryError Registry
  insert_source none s registry = ok (registry ++ (s.source_id, s) ∷ [])
  insert_source (some old) s registry = err (contract_error ("duplicate_source:" <> s.source_id))

  unfoldable pub add_source : Source → Registry → Result RegistryError Registry
  unfolding insert_source
  add_source s registry = insert_source (find_source s.source_id registry) s registry

  -- The numbers from this one on, so many.
  unfoldable pub add_instances : Family → ℕ → ℕ → Registry → Result RegistryError Registry
  unfolding add_source source_of
  add_instances f number zero registry = ok registry
  add_instances f number (suc left) registry = do
    registry' ← add_source (source_of f number) registry
    add_instances f (suc number) left registry'

  unfoldable pub add_family : Value → Registry → Result RegistryError Registry
  unfolding family_of add_instances
  add_family (object fs) registry = do f ← family_of fs; add_instances f 1 f.instances registry
  add_family v registry = err attribute_error

  unfoldable pub add_families : Items → Registry → Result RegistryError Registry
  unfolding add_family
  add_families nil registry = ok registry
  add_families (cons v vs) registry = do
    registry' ← add_family v registry
    add_families vs registry'

  -- `for family in raw.get("families", [])`: a text and an object are iterated too, by parts that have
  -- no `keys`.
  families_of : Option Value → Result RegistryError Items
  families_of none = ok nil
  families_of (some (array vs)) = ok vs
  families_of (some (text String.[])) = ok nil
  families_of (some (text (String.◌∷◌ c s))) = err attribute_error
  families_of (some (object Fields.end)) = ok nil
  families_of (some (object (Fields.field k v fs))) = err attribute_error
  families_of (some v) = err type_error

  unfoldable pub nonempty : Registry → Result RegistryError Registry
  nonempty [] = err (contract_error "empty_source_registry")
  nonempty (s ∷ registry) = ok (s ∷ registry)

  unfoldable pub load_source_registry : Value → Result RegistryError Registry
  unfolding families_of add_families nonempty
  load_source_registry (object raw) = do
    families ← families_of (get "families" raw)
    registry ← add_families families []
    nonempty registry
  load_source_registry v = err attribute_error
