-- ===== src/ManifestLoader/Verify.antt =====
-- `_record` and the checks of `handler` in lambdas/manifest_loader/handler.py, up to the copy.
use ledgerflow_payment_recon.Prelude.{
  ℕ, String, Bool, true, false, List, [], ◌∷◌, Option, none, some, ◌&&◌, not, ◌==◌, eq_String,
}
use ledgerflow_payment_recon.Prelude.Int.{ℤ, pos, eq_ℤ, ltb_ℤ}
use ledgerflow_payment_recon.Prelude.Result.{Result, ok, err, raise_if, ◌>>=◌, ◌>>◌}
use ledgerflow_payment_recon.Prelude.Text.{◌<>◌, is_member, decimal_ℤ}
use ledgerflow_payment_recon.Json.{
  Value, boolean, int, float, object, Fields, end, get, keys, get_text, as_int,
}
use ledgerflow_payment_recon.Services.{Failure, value_error, attribute_error}
use ledgerflow_payment_recon.ManifestLoader.{Head, Request, Services}
use ledgerflow_payment_recon.ManifestLoader.Keys.{strip_suffix, last_segment, search_date}

-- A manifest's bucket and key, and the key without `.manifest.json`.
pub record Located : Type 0 where
  pub bucket : String
  pub manifest_key : String
  pub stem : String

abbrev pub required : {A : Type 0} → Failure → Option A → Result Failure A
required failure none = err failure
required failure (some a) = ok a

-- `d.get(name, {})`, on which `get` is called next
nested : Option Value → Result Failure Fields
nested none = ok end
nested (some (object fs)) = ok fs
nested (some v) = err attribute_error

abbrev not_a_manifest : Failure
not_a_manifest = value_error "event does not identify a settlement manifest"

unfoldable pub record_of : Fields → Result Failure Located
unfolding nested
record_of event = do
  detail ← nested (get "detail" event)
  bucket_fields ← nested (get "bucket" detail)
  object_fields ← nested (get "object" detail)
  bucket ← required not_a_manifest (get_text "name" bucket_fields)
  manifest_key ← required not_a_manifest (get_text "key" object_fields)
  stem ← required not_a_manifest (strip_suffix ".manifest.json" manifest_key)
  ok (record { bucket = bucket; manifest_key = manifest_key; stem = stem })

abbrev manifest_names : List String
manifest_names =
    "version" ∷ "revision" ∷ "file_name" ∷ "byte_size" ∷ "record_count" ∷ "sha256"
    ∷ "raw_control_totals_minor" ∷ []

unfoldable pub all_in : List String → List String → Bool
all_in [] names = true
all_in (k ∷ ks) names = is_member k names && all_in ks names

-- `value == 1`: `True` and `1.0` are equal to 1.
unfoldable pub is_one : Option Value → Bool
is_one (some (int n)) = n == pos 1
is_one (some (boolean b)) = b
is_one (some (float t)) = t == "1.0"
is_one _ = false

unfoldable pub is_supported : Fields → Bool
unfolding all_in is_one
is_supported m =
    all_in (keys m) manifest_names && all_in manifest_names (keys m) && is_one (get "version" m)

abbrev pub int_of : Option Value → Option ℤ
int_of none = none
int_of (some v) = as_int v

abbrev at_least_one : Option ℤ → Bool
at_least_one none = false
at_least_one (some n) = ltb_ℤ (pos 0) n

abbrev pub max_single_copy_bytes : ℕ
max_single_copy_bytes = 5000000000

abbrev pub fits_copy : Option ℤ → Bool
fits_copy none = false
fits_copy (some n) = ltb_ℤ (pos 0) n && not (ltb_ℤ (pos max_single_copy_bytes) n)

abbrev is_object : Option Value → Bool
is_object (some (object fs)) = true
is_object _ = false

unfoldable pub has_controls : Fields → Bool
has_controls m =
    at_least_one (int_of (get "record_count" m))
    && at_least_one (int_of (get "revision" m))
    && fits_copy (int_of (get "byte_size" m))
    && is_object (get "raw_control_totals_minor" m)

-- `manifest.get(name) == value`
abbrev pub is_text : String → Option String → Bool
is_text s none = false
is_text s (some t) = t == s

abbrev pub is_int : ℤ → Option ℤ → Bool
is_int n none = false
is_int n (some k) = k == n

-- `str(v)` of an `int`
unfoldable pub int_text : Value → String
int_text (int n) = decimal_ℤ n
int_text (boolean true) = "True"
int_text (boolean false) = "False"
int_text _ = ""

unfoldable pub verified_key : String → Value → String → String
unfolding int_text
verified_key date revision sha =
    "settlements/business_date="
    <> date
    <> "/revision="
    <> int_text revision
    <> "/sha256="
    <> sha
    <> "/data.jsonl"

-- What the checks establish, before the copy.
pub record Delivery : Type 0 where
  pub data_key : String
  pub head : Head
  pub checksum_hex : String
  pub request : Request

unfoldable pub as_object : Value → Result Failure Fields
as_object (object fs) = ok fs
as_object v = err (value_error "manifest must be a JSON object")

abbrev pub value_of : Option Value → Value
value_of none = Value.null
value_of (some v) = v

module _ (sv : Services) where
  unfoldable pub read_manifest : Located → Result Failure Fields
  unfolding as_object is_supported has_controls
  read_manifest l = do
    v ← sv.get_object l.bucket l.manifest_key
    m ← as_object v
    raise_if (not (is_supported m)) (value_error "unsupported settlement manifest contract")
    raise_if (not (has_controls m)) (value_error "invalid settlement manifest control values")
    ok m

  unfoldable pub check_delivery : Located → Fields → Result Failure Delivery
  unfolding verified_key
  check_delivery l m = do
    let data_key = l.stem <> ".jsonl"
    head ← sv.head_object l.bucket data_key
    version ←
        required (value_error "settlement source must be an S3-versioned object") head.version_id
    raise_if (not (is_text (last_segment data_key) (get_text "file_name" m)))
        (value_error "manifest file name does not match delivered object")
    raise_if (not (is_int head.content_length (int_of (get "byte_size" m))))
        (value_error "manifest byte size does not match delivered object")
    checksum ←
        required (value_error "settlement object must carry an S3 SHA-256 checksum")
          head.checksum_sha256
    hex ← sv.base64_hex checksum
    raise_if (not (is_text hex (get_text "sha256" m)))
        (value_error "manifest checksum does not match S3-managed checksum")
    date ←
        required (value_error "settlement key must contain business_date=YYYY-MM-DD")
          (search_date sv.is_decimal data_key)
    let revision = value_of (get "revision" m)
    ok (record {
      data_key = data_key;
      head = head;
      checksum_hex = hex;
      request = record {
        bucket = l.bucket;
        manifest_key = l.manifest_key;
        verified_data_key = verified_key date revision hex;
        source_version_id = version;
        sha256 = hex;
        revision = revision;
        record_count = value_of (get "record_count" m);
        business_date = date;
      };
    })

  unfoldable pub verify : Fields → Result Failure Delivery
  unfolding record_of read_manifest check_delivery
  verify event = do l ← record_of event; m ← read_manifest l; check_delivery l m
