-- ===== src/ManifestLoader.antt =====
-- lambdas/manifest_loader/handler.py: the handler that checks a delivered settlement manifest,
-- copies its data, registers its revision and starts the state machine of the settlement.
pub mod Keys
pub mod Verify
pub mod Register
pub mod Checked
pub mod Redelivery
pub mod Steps
use ledgerflow_payment_recon.Prelude.{String, Bool, Option, ℕ}
use ledgerflow_payment_recon.Prelude.Int.{ℤ}
use ledgerflow_payment_recon.Prelude.Result.{Result}
use ledgerflow_payment_recon.Json.{Value}
use ledgerflow_payment_recon.Services.{Failure}

-- What `head_object` tells of the delivered object.
pub record Head : Type 0 where
  pub version_id : Option String
  pub content_length : ℤ
  pub checksum_sha256 : Option String
  pub etag : String

-- An item of the publication table.
pub record Publication : Type 0 where
  pub revision : ℤ
  pub manifest_sha256 : String
  pub verified_data_key : String
  pub publication_status : String

-- What the checks and the copy leave for the registration and the state machine.
pub record Request : Type 0 where
  pub bucket : String
  pub manifest_key : String
  pub verified_data_key : String
  pub source_version_id : String
  pub sha256 : String
  pub revision : Value
  pub record_count : Value
  pub business_date : String

-- The input of an execution is the request.
pub record Execution : Type 0 where
  pub name : String
  pub input : Request

-- What `start_execution` answers.
pub data Start : Type 0 where
  started : String → Start
  already_exists : Start
  start_failed : String → Start

-- The services as one call of the handler finds them, and what it uses of Python's libraries.
pub record Services : Type 0 where
  -- `\d` of `re` on a code point
  pub is_decimal : ℕ → Bool
  -- `base64.b64decode(text).hex()`
  pub base64_hex : String → Result Failure String
  -- `get_object` of a bucket and a key, and `json.loads` of its body
  pub get_object : String → String → Result Failure Value
  pub head_object : String → String → Result Failure Head
  -- `copy_object` of a bucket, a key, a version and an ETag to a key: the checksum of the copy
  pub copy_object : String → String → String → String → String → Result Failure (Option String)
  -- an error of `update_item` or of `get_item` that is not its condition's
  pub update_fault : Option Failure
  pub get_item_fault : Option Failure
  pub start_execution : Execution → Start
