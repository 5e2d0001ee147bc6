-- ===== src/Manifest.antt =====
-- ledgerflow/manifest.py: the manifest of a file of events, its checksum and its control totals.
pub mod Digest
pub mod Build
pub mod Totals
pub mod Currencies
pub mod Verify
use ledgerflow_payment_recon.Prelude.{ℕ, String, List, Option, ◌≡◌, [], ◌++◌}
use ledgerflow_payment_recon.Json.{Value}

-- A file: its name, its bytes, and `json.loads` of each line, with `none` for a `JSONDecodeError`.
pub record DataFile : Type 0 where
  pub name : String
  pub content : List ℕ
  pub lines : List (Option Value)

-- `hashlib.sha256()`: the state of a digest.
pub record Hasher : Type 1 where
  pub Digest : Type 0
  pub initial : Digest
  pub update : Digest → List ℕ → Digest
  pub hexdigest : Digest → String

-- Repeated calls of `update` are a single call with the concatenation, and no bytes change nothing.
pub record IsIncremental (h : Hasher) : Type 0 where
  pub update-append :
      (d : h.Digest) (a b : List ℕ) → h.update (h.update d a) b ≡ h.update d (a ++ b)
  pub update-nil : (d : h.Digest) → h.update d [] ≡ d

-- The reasons of a `ManifestError`.
pub data ManifestError : Type 0 where
  invalid_json_line : ℕ → ManifestError
  non_object_line : ℕ → ManifestError
  file_name_mismatch : ManifestError
  byte_size_mismatch : ManifestError
  checksum_mismatch : ManifestError
  record_count_mismatch : ManifestError
  control_total_mismatch : ManifestError
