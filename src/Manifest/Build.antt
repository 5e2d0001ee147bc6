-- ===== src/Manifest/Build.antt =====
-- `iter_jsonl`, `build_manifest` and `verify_manifest` of ledgerflow/manifest.py.
use ledgerflow_payment_recon.Prelude.{
  ℕ, suc, String, Bool, true, false, ◌&&◌, not, List, [], ◌∷◌, length, Option, none, some, ◌==◌,
  eq_String, eq_ℕ, if◌then◌else◌,
}
use ledgerflow_payment_recon.Prelude.Int.{ℤ, pos, eq_ℤ, ◌+ℤ◌}
use ledgerflow_payment_recon.Prelude.Order.{sort_by, order_String}
use ledgerflow_payment_recon.Prelude.Result.{Result, ok, err, raise_if, ◌>>=◌, ◌>>◌}
use ledgerflow_payment_recon.Json.{
  Value, int, float, text, object, Fields, field, end, get, keys, get_text, as_int, as_plain_int,
}
use ledgerflow_payment_recon.Manifest.{
  DataFile, Hasher, ManifestError, invalid_json_line, non_object_line, file_name_mismatch,
  byte_size_mismatch, checksum_mismatch, record_count_mismatch, control_total_mismatch,
}
use ledgerflow_payment_recon.Manifest.Digest.{file_sha256}

-- `dict[str, int]`
abbrev pub Totals : Type 0
Totals = List (String × ℤ)

-- `totals[currency] += amount`
unfoldable pub add_total : String → ℤ → Totals → Totals
add_total c n [] = (c, pos 0 +ℤ n) ∷ []
add_total c n ((k, m) ∷ rest) =
    let later = add_total c n rest in if k == c then (k, m +ℤ n) ∷ rest else (k, m) ∷ later

abbrev pub plain_int : Option Value → Option ℤ
plain_int none = none
plain_int (some v) = as_plain_int v

unfoldable pub count_amount : Option ℤ → Option String → Totals → Totals
unfolding add_total
count_amount (some n) (some c) totals = add_total c n totals
count_amount amount currency totals = totals

-- One event of the loop.
unfoldable pub count_event : Fields → Totals → Totals
unfolding count_amount
count_event e totals =
    count_amount (plain_int (get "amount_minor" e)) (get_text "currency" e) totals

jsonl_value : ℕ → Option Value → Result ManifestError Fields
jsonl_value n none = err (invalid_json_line n)
jsonl_value n (some (object fs)) = ok fs
jsonl_value n (some v) = err (non_object_line n)

-- The events of the lines, the first one of which has this number.
unfoldable pub iter_jsonl : ℕ → List (Option Value) → Result ManifestError (List Fields)
unfolding jsonl_value
iter_jsonl n [] = ok []
iter_jsonl n (line ∷ lines) = do
  e ← jsonl_value n line
  rest ← iter_jsonl (suc n) lines
  ok (e ∷ rest)

unfoldable pub totals_of : List Fields → Totals → Totals
unfolding count_event
totals_of [] totals = totals
totals_of (e ∷ events) totals = totals_of events (count_event e totals)

unfoldable pub sorted_totals : Totals → Totals
sorted_totals totals = sort_by (λ (t : String × ℤ). t.0) totals

unfoldable pub total_fields : Totals → Fields
total_fields [] = end
total_fields ((c, n) ∷ rest) = field c (int n) (total_fields rest)

-- The dict that is written and returned.
unfoldable pub manifest_fields : Hasher → DataFile → List Fields → Fields
unfolding file_sha256 totals_of sorted_totals total_fields
manifest_fields h f events = field "version" (int (pos 1)) (
    field "file_name" (text f.name) (
      field "byte_size" (int (pos (length f.content))) (
        field "record_count" (int (pos (length events))) (
          field "sha256" (text (file_sha256 h f.content)) (
            field "raw_control_totals_minor"
              (object (total_fields (sorted_totals (totals_of events [])))) end)))))

unfoldable pub build_manifest : Hasher → DataFile → Result ManifestError Fields
unfolding iter_jsonl manifest_fields
build_manifest h f = do events ← iter_jsonl 1 f.lines; ok (manifest_fields h f events)

-- `manifest.get(name) == s`
unfoldable pub is_text_at : String → Option String → Bool
is_text_at s none = false
is_text_at s (some t) = t == s

-- The number that a value is equal to, if it is one: `float_int` reads a float without a fraction.
unfoldable pub number_of : (String → Option ℤ) → Option Value → Option ℤ
number_of float_int none = none
number_of float_int (some (float t)) = float_int t
number_of float_int (some v) = as_int v

unfoldable pub is_number : ℤ → Option ℤ → Bool
is_number n none = false
is_number n (some k) = k == n

-- `value == totals` of a dict: as many keys, and each total under its currency.
unfoldable pub has_totals : (String → Option ℤ) → Totals → Fields → Bool
unfolding is_number number_of
has_totals float_int [] fs = true
has_totals float_int ((c, n) ∷ rest) fs =
    is_number n (number_of float_int (get c fs)) && has_totals float_int rest fs

unfoldable pub equals_totals : (String → Option ℤ) → Totals → Option Value → Bool
unfolding has_totals
equals_totals float_int totals (some (object fs)) =
    length (keys fs) == length totals && has_totals float_int totals fs
equals_totals float_int totals v = false

-- The manifest that was read, or the error. The manifest that is rebuilt goes to a temporary file,
-- which is removed again.
unfoldable pub verify_manifest :
    Hasher → (String → Option ℤ) → DataFile → Fields → Result ManifestError Fields
unfolding is_text_at is_number number_of iter_jsonl equals_totals
verify_manifest h float_int f m = do
  raise_if (not (is_text_at f.name (get_text "file_name" m))) file_name_mismatch
  raise_if (not (is_number (pos (length f.content)) (number_of float_int (get "byte_size" m))))
      byte_size_mismatch
  raise_if (not (is_text_at (file_sha256 h f.content) (get_text "sha256" m))) checksum_mismatch
  events ← iter_jsonl 1 f.lines
  raise_if (not (is_number (pos (length events)) (number_of float_int (get "record_count" m))))
      record_count_mismatch
  raise_if
      (not (
        equals_totals float_int (sorted_totals (totals_of events []))
          (get "raw_control_totals_minor" m)))
      control_total_mismatch
  ok m
