-- ===== src/ManifestLoader/Checked.antt =====
-- What the checks of lambdas/manifest_loader/handler.py establish of a delivery.
use mathlib.Core.Path.{subst}
use ledgerflow_payment_recon.Prelude.{
  ℕ, String, ◌≡◌, refl, sym, ap, ◌∙◌, ◌≤◌, Bool, true, false, not, Option, none, some, eq_String,
  eq_iff, arith,
}
use ledgerflow_payment_recon.Prelude.Int.{ℤ, pos, negsuc, int_eq_iff, eq_ℤ}
use ledgerflow_payment_recon.Prelude.Result.{ok, raise_if, raise_if-ok, ok_inj, >>=-eq-ok}
use ledgerflow_payment_recon.Prelude.Text.{◌<>◌}
use ledgerflow_payment_recon.Json.{Value, object, Fields, get, get_text}
use ledgerflow_payment_recon.Services.{Failure}
use ledgerflow_payment_recon.ManifestLoader.{Services}
use ledgerflow_payment_recon.ManifestLoader.Keys.{last_segment, search_date}
use ledgerflow_payment_recon.ManifestLoader.Verify.{
  Located, Delivery, required, is_text, is_int, int_of, value_of, has_controls, is_supported,
  fits_copy, verified_key, record_of, read_manifest, check_delivery, verify, as_object,
}

-- The facts that tie a delivery to its manifest.
pub record IsChecked (sv : Services) (l : Located) (m : Fields) (d : Delivery) : Type 0 where
  pub at_key : d.data_key ≡ l.stem <> ".jsonl"
  pub headed : sv.head_object l.bucket d.data_key ≡ ok d.head
  pub versioned : d.head.version_id ≡ some d.request.source_version_id
  pub file_name : get_text "file_name" m ≡ some (last_segment d.data_key)
  pub byte_size : int_of (get "byte_size" m) ≡ some d.head.content_length
  pub checksum :
      (c : String) × (d.head.checksum_sha256 ≡ some c) × (sv.base64_hex c ≡ ok d.checksum_hex)
  pub sha256 : get_text "sha256" m ≡ some d.checksum_hex
  pub request_sha256 : d.request.sha256 ≡ d.checksum_hex
  pub dated : search_date sv.is_decimal d.data_key ≡ some d.request.business_date
  pub revised : d.request.revision ≡ value_of (get "revision" m)
  pub keyed :
      d.request.verified_data_key
      ≡ verified_key d.request.business_date d.request.revision d.request.sha256

is_text-eq : (s : String) (o : Option String) → not (is_text s o) ≡ false → o ≡ some s
is_text-eq s none h = cc
is_text-eq s (some t) h = ap some (ground (arith, h, eq_iff t s))

is_int-eq : (n : ℤ) (o : Option ℤ) → not (is_int n o) ≡ false → o ≡ some n
is_int-eq n none h = cc
is_int-eq n (some k) h = ap some ((int_eq_iff k n).0 (ground (arith, h)))

required-eq : {A : Type 0} (f : Failure) (o : Option A) (a : A) → required f o ≡ ok a → o ≡ some a
required-eq f none a h = cc
required-eq f (some b) a h = cc

check_delivery-Checked :
    (sv : Services) (l : Located) (m : Fields) (d : Delivery)
    → check_delivery sv l m ≡ ok d
    → IsChecked sv l m d
unfolding check_delivery
check_delivery-Checked sv l m d h =
    let (head, h1, k1) = >>=-eq-ok (sv.head_object l.bucket (l.stem <> ".jsonl")) _ h in
    let (version, h2, k2) = >>=-eq-ok (required _ head.version_id) _ k1 in
    let (u3, h3, k3) =
      >>=-eq-ok
        (raise_if (not (is_text (last_segment (l.stem <> ".jsonl")) (get_text "file_name" m))) _) _
        k2 in
    let (u4, h4, k4) =
      >>=-eq-ok (raise_if (not (is_int head.content_length (int_of (get "byte_size" m)))) _) _ k3 in
    let (checksum, h5, k5) = >>=-eq-ok (required _ head.checksum_sha256) _ k4 in
    let (hex, h6, k6) = >>=-eq-ok (sv.base64_hex checksum) _ k5 in
    let (u7, h7, k7) = >>=-eq-ok (raise_if (not (is_text hex (get_text "sha256" m))) _) _ k6 in
    let (date, h8, k8) =
      >>=-eq-ok (required _ (search_date sv.is_decimal (l.stem <> ".jsonl"))) _ k7 in
    subst (IsChecked sv l m) (ok_inj k8) (record {
      at_key = refl;
      headed = h1;
      versioned = required-eq _ _ version h2;
      file_name = is_text-eq _ _ (raise_if-ok _ _ h3);
      byte_size = is_int-eq _ _ (raise_if-ok _ _ h4);
      checksum = (checksum, required-eq _ _ checksum h5, h6);
      sha256 = is_text-eq _ _ (raise_if-ok _ _ h7);
      request_sha256 = refl;
      dated = required-eq _ _ date h8;
      revised = refl;
      keyed = refl;
    })

fits_copy-eq :
    (o : Option ℤ) (size : ℤ)
    → fits_copy o ≡ true
    → o ≡ some size
    → (n : ℕ) × (size ≡ pos n) × (1 ≤ n) × (n ≤ 5000000000)
fits_copy-eq o (pos n) fits e =
    let k = rw e at fits in (n, refl, ground (arith, k), ground (arith, k))
fits_copy-eq o (negsuc n) fits e = let k = rw e at fits in absurd (ground (arith, k))

has_controls-fits :
    (m : Fields) → has_controls m ≡ true → fits_copy (int_of (get "byte_size" m)) ≡ true
unfolding has_controls
has_controls-fits m h = ground (arith, h)

as_object-eq : (v : Value) (m : Fields) → as_object v ≡ ok m → v ≡ object m
unfolding as_object
as_object-eq (object fs) m h = ap object (ok_inj h)
as_object-eq v m h = cc

not-false : (b : Bool) → not b ≡ false → b ≡ true
not-false b h = ground (arith, h)

read_manifest-eq :
    (sv : Services) (l : Located) (m : Fields)
    → read_manifest sv l ≡ ok m
    → (sv.get_object l.bucket l.manifest_key ≡ ok (object m))
      × (is_supported m ≡ true)
      × (has_controls m ≡ true)
unfolding read_manifest
read_manifest-eq sv l m h =
    let (v, h1, k1) = >>=-eq-ok (sv.get_object l.bucket l.manifest_key) _ h in
    let (fs, h2, k2) = >>=-eq-ok (as_object v) _ k1 in
    let (u3, h3, k3) = >>=-eq-ok (raise_if (not (is_supported fs)) _) _ k2 in
    let (u4, h4, k4) = >>=-eq-ok (raise_if (not (has_controls fs)) _) _ k3 in
    let e = ok_inj k4 in
    (
      h1 ∙ ap ok (as_object-eq v fs h2 ∙ ap object e),
      rw (sym e) (not-false (is_supported fs) (raise_if-ok _ _ h3)),
      rw (sym e) (not-false (has_controls fs) (raise_if-ok _ _ h4)),
    )

-- A delivery that passes the checks of the manifest loader has a size from 1 to 5,000,000,000
-- bytes, and the manifest that was read names its last path segment, its size and the checksum
-- that the service reports of it; its source version and business date are those of the object,
-- and its verified key is spelled from the date, the revision and the checksum.
pub verify-IsChecked :
    (sv : Services) (event : Fields) (d : Delivery)
    → verify sv event ≡ ok d
    → (l : Located) × (m : Fields) × (n : ℕ) × (record_of event ≡ ok l)
      × (sv.get_object l.bucket l.manifest_key ≡ ok (object m))
      × IsChecked sv l m d
      × (d.head.content_length ≡ pos n)
      × (1 ≤ n)
      × (n ≤ 5000000000)
unfolding verify
verify-IsChecked sv event d h =
    let (l, h1, k1) = >>=-eq-ok (record_of event) _ h in
    let (m, h2, k2) = >>=-eq-ok (read_manifest sv l) _ k1 in
    let checked = check_delivery-Checked sv l m d k2 in
    let (object_read, _, controls) = read_manifest-eq sv l m h2 in
    let (n, e, lower, upper) =
      fits_copy-eq _ d.head.content_length (has_controls-fits m controls) checked.byte_size in
    (l, m, n, h1, object_read, checked, e, lower, upper)
