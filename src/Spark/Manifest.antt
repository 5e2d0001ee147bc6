-- ===== src/Spark/Manifest.antt =====
-- spark_jobs/validate_settlement_manifest.py: the gates on the records of a settlement file.
pub mod Gate
use ledgerflow_payment_recon.Prelude.{
  ℕ, ◌+◌, String, Bool, true, false, ◌&&◌, not, List, [], ◌∷◌, length, map, filter, ltb, Option,
  none, some, ◌==◌, eq_String, eq_ℕ, Eq, if◌then◌else◌, ◌≡◌, ◌↔◌, refl, ap, arith, eq_iff,
}
use ledgerflow_payment_recon.Prelude.Int.{ℤ, pos, eq_ℤ}
use ledgerflow_payment_recon.Prelude.Int64.{sum64}
use ledgerflow_payment_recon.Prelude.Text.{is_member}
use ledgerflow_payment_recon.Prelude.Result.{Result, ok, err, raise_if, ◌>>=◌, ◌>>◌}
use ledgerflow_payment_recon.Contracts.{currencies}

-- A row of SETTLEMENT_SCHEMA: the reader leaves null what a line does not have, whatever the schema
-- says of it.
pub record SettlementRecord : Type 0 where
  pub schema_version : Option String
  pub business_date : Option String
  pub processor_id : Option String
  pub currency : Option String
  pub amount_minor : Option ℤ

-- The RuntimeErrors.
pub data SettlementManifestError : Type 0 where
  contract_gate_failed : SettlementManifestError
  duplicate_key : SettlementManifestError
  record_count_gate_failed : SettlementManifestError
  control_total_gate_failed : SettlementManifestError

-- A condition of SQL: true, false or null.
abbrev pub Condition : Type 0
Condition = Option Bool

unfoldable pub or_null : Condition → Condition → Condition
or_null (some true) b = some true
or_null (some false) b = b
or_null none (some true) = some true
or_null none b = none

unfoldable pub not_null : Condition → Condition
not_null none = none
not_null (some b) = some (not b)

unfoldable pub is_null : {A : Type 0} → Option A → Condition
is_null none = some true
is_null (some a) = some false

-- `column != value`
unfoldable pub differs : Option String → Option String → Condition
differs (some a) (some b) = some (not (a == b))
differs a b = none

unfoldable pub is_in : Option String → List String → Condition
is_in none names = none
is_in (some s) names = some (is_member s names)

-- `filter` keeps the rows on which the condition is true.
unfoldable pub holds : Condition → Bool
holds (some b) = b
holds none = false

unfoldable pub same_text : Option String → Option String → Bool
same_text none none = true
same_text (some a) (some b) = a == b
same_text a b = false

abbrev pub SettlementKey : Type 0
SettlementKey = Option String × (Option String × Option String)

abbrev pub settlement_key : SettlementRecord → SettlementKey
settlement_key r = (r.business_date, (r.processor_id, r.currency))

-- groupBy takes nulls as equal.
unfoldable pub same_key : SettlementKey → SettlementKey → Bool
unfolding same_text
same_key (a, (b, c)) (d, (e, f)) = same_text a d && (same_text b e && same_text c f)

unfoldable pub count_key : SettlementKey → List SettlementRecord → ℕ
unfolding same_key
count_key k [] = 0
count_key k (r ∷ rs) = (if same_key (settlement_key r) k then 1 else 0) + count_key k rs

unfoldable pub duplicate_keys : List SettlementRecord → List SettlementRecord
unfolding count_key
duplicate_keys rs = filter (λ r. ltb 1 (count_key (settlement_key r) rs)) rs

-- F.sum passes over nulls.
abbrev pub amount_or_nothing : Option ℤ → ℤ
amount_or_nothing none = pos 0
amount_or_nothing (some n) = n

-- What a row adds to the sum of a currency.
abbrev pub amount_in : Option String → SettlementRecord → ℤ
amount_in c r = if same_text r.currency c then amount_or_nothing r.amount_minor else pos 0

-- F.sum, of bigints
unfoldable pub currency_total : Option String → List SettlementRecord → ℤ
currency_total c rs = sum64 (map (amount_in c) rs)

-- The manifest as the reader has it: its count, and its totals by currency.
pub record SettlementManifest : Type 0 where
  pub record_count : ℕ
  pub totals : List (String × ℤ)

unfoldable pub total_in : Option String → List (String × ℤ) → Option ℤ
total_in none totals = none
total_in (some c) [] = none
total_in (some c) ((k, n) ∷ totals) = if k == c then some n else total_in (some c) totals

abbrev equals_total : ℤ → Option ℤ → Bool
equals_total n none = false
equals_total n (some m) = m == n

unfoldable pub has_total : List SettlementRecord → List (String × ℤ) → Option String → Bool
unfolding currency_total total_in
has_total rs totals c = equals_total (currency_total c rs) (total_in c totals)

unfoldable pub occurs : String → List SettlementRecord → Bool
unfolding same_text
occurs c [] = false
occurs c (r ∷ rs) = if same_text r.currency (some c) then true else occurs c rs

unfoldable pub every : {A : Type 0} → (A → Bool) → List A → Bool
every p [] = true
every p (x ∷ xs) = p x && every p xs

-- `totals == manifest["raw_control_totals_minor"]`: each currency of the rows has its total there, and
-- each currency there is one of the rows.
unfoldable pub same_totals : List SettlementRecord → List (String × ℤ) → Bool
unfolding has_total every occurs
same_totals rs totals =
    every (λ (r : SettlementRecord). has_total rs totals r.currency) rs
    && every (λ (t : String × ℤ). occurs t.0 rs) totals

-- `F.to_date`
module _ (to_date : String → Option String) where
  unfoldable pub is_invalid : String → SettlementRecord → Bool
  unfolding or_null not_null is_null differs is_in holds
  is_invalid date r = holds (
      or_null (is_null r.schema_version) (
        or_null (differs r.schema_version (some "1.0")) (
          or_null (is_null r.business_date) (
            or_null (differs r.business_date (to_date date)) (
              or_null (is_null r.processor_id)
                (or_null (not_null (is_in r.currency currencies)) (is_null r.amount_minor)))))))

  -- The job returns, or fails at a gate.
  unfoldable pub validate_settlement :
      String
      → SettlementManifest
      → List SettlementRecord
      → Result SettlementManifestError (Unit {0})
  unfolding is_invalid duplicate_keys same_totals
  validate_settlement date manifest rs = do
    raise_if (not (length (filter (is_invalid date) rs) == 0)) contract_gate_failed
    raise_if (not (length (duplicate_keys rs) == 0)) duplicate_key
    raise_if (not (length rs == manifest.record_count)) record_count_gate_failed
    raise_if (not (same_totals rs manifest.totals)) control_total_gate_failed
