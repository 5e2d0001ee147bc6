-- ===== src/Examples/ManifestRuns.antt =====
-- ledgerflow/manifest.py at concrete inputs.
use mathlib.Core.List.{append_assoc, append-nil}
use ledgerflow_payment_recon.Prelude.{
  ℕ, String, ◌≡◌, refl, false, List, [], ◌∷◌, ◌++◌, Option, none, some,
}
use ledgerflow_payment_recon.Prelude.Int.{ℤ, pos}
use ledgerflow_payment_recon.Prelude.Result.{ok}
use ledgerflow_payment_recon.Json.{int, text, object, Fields, field, end}
use ledgerflow_payment_recon.Manifest.{DataFile, Hasher, IsIncremental}
use ledgerflow_payment_recon.Manifest.Digest.{file_sha256, file_sha256_lem}
use ledgerflow_payment_recon.Manifest.Build.{
  iter_jsonl, manifest_fields, build_manifest, verify_manifest,
}
use ledgerflow_payment_recon.Manifest.Verify.{
  Describes, verify-build, verify_manifest-Describes, loader_refuses_built,
}
use ledgerflow_payment_recon.ManifestLoader.Verify.{is_supported}

-- A digest that keeps its bytes.
abbrev hasher : Hasher
hasher = record {
  Digest = List ℕ;
  initial = [];
  update = λ d bytes. d ++ bytes;
  hexdigest = λ d. "00";
}

incremental : IsIncremental hasher
incremental = record { update-append = λ d a b. append_assoc d a b; update-nil = λ d. append-nil d }

abbrev amount : ℕ → String → Fields
amount n c = field "amount_minor" (int (pos n)) (field "currency" (text c) end)

abbrev events : List Fields
events = amount 5 "USD" ∷ amount 7 "EUR" ∷ amount 6 "USD" ∷ []

abbrev data_file : DataFile
data_file = record {
  name = "day.jsonl";
  content = 1 ∷ 2 ∷ 3 ∷ [];
  lines =
      some (object (amount 5 "USD"))
      ∷ some (object (amount 7 "EUR"))
      ∷ some (object (amount 6 "USD"))
      ∷ [];
}

abbrev no_float : String → Option ℤ
no_float s = none

builds : build_manifest hasher data_file ≡ ok (manifest_fields hasher data_file events)
unfolding build_manifest iter_jsonl
builds = refl

file_sha256_lem_example : file_sha256 hasher (1 ∷ 2 ∷ []) ≡ "00"
file_sha256_lem_example = file_sha256_lem hasher incremental (1 ∷ 2 ∷ [])

verify-build_example :
    verify_manifest hasher no_float data_file (manifest_fields hasher data_file events)
    ≡ ok (manifest_fields hasher data_file events)
verify-build_example =
    verify-build hasher no_float data_file (manifest_fields hasher data_file events) builds

verify_manifest-Describes_example :
    (read : List Fields) × (manifest_fields hasher data_file events
      ≡ manifest_fields hasher data_file events)
    × Describes hasher no_float (manifest_fields hasher data_file events) data_file read
verify_manifest-Describes_example =
    verify_manifest-Describes hasher no_float incremental data_file
      (manifest_fields hasher data_file events) (manifest_fields hasher data_file events)
      (verify-build hasher no_float data_file (manifest_fields hasher data_file events) builds)

loader_refuses_built_example : is_supported (manifest_fields hasher data_file events) ≡ false
loader_refuses_built_example =
    loader_refuses_built hasher no_float data_file (manifest_fields hasher data_file events) builds
