-- ===== src/Manifest/Verify.antt =====
-- What `build_manifest` and `verify_manifest` of ledgerflow/manifest.py promise.
use ledgerflow_payment_recon.Prelude.{
  String, ◌≡◌, refl, sym, ap, ◌∙◌, Bool, true, false, not, List, [], ◌∷◌, length, All, Option, none,
  some, eq_String, eq_iff, eq_ℕ, arith,
}
use ledgerflow_payment_recon.Prelude.Int.{ℤ, pos, int_eq_iff, eq_ℤ}
use ledgerflow_payment_recon.Prelude.Result.{ok, raise_if, raise_if-ok, ok_inj, after_ok}
use ledgerflow_payment_recon.Json.{Value, object, Fields, get, get_text, keys, as_int}
use ledgerflow_payment_recon.Manifest.{DataFile, Hasher, IsIncremental}
use ledgerflow_payment_recon.Manifest.Digest.{file_sha256, file_sha256_lem}
use ledgerflow_payment_recon.Manifest.Build.{
  Totals, iter_jsonl, totals_of, sorted_totals, manifest_fields, build_manifest, is_text_at,
  number_of, is_number, equals_totals, verify_manifest,
}
use ledgerflow_payment_recon.Manifest.Currencies.{AreOfCurrencies, sorted_totals-AreOfCurrencies}
use ledgerflow_payment_recon.Manifest.Totals.{
  IsSummed, sorted_totals-IsSummed, equals_totals-own, is_number-eq, has_totals-All,
}
use ledgerflow_payment_recon.ManifestLoader.Verify.{is_supported, all_in}

is_text_at-own : (s : String) → is_text_at s (some s) ≡ true
unfolding is_text_at
is_text_at-own s = (eq_iff s s).1 refl

is_number-own : (n : ℤ) → is_number n (some n) ≡ true
unfolding is_number
is_number-own n = (int_eq_iff n n).1 refl

is_text_at-eq : (s : String) (o : Option String) → not (is_text_at s o) ≡ false → o ≡ some s
unfolding is_text_at
is_text_at-eq s none h = cc
is_text_at-eq s (some t) h = ap some (ground (arith, h, eq_iff t s))

module _ (h : Hasher) (float_int : String → Option ℤ) where
  verify_of_own :
      (f : DataFile) (events : List Fields)
      → iter_jsonl 1 f.lines ≡ ok events
      → verify_manifest h float_int f (manifest_fields h f events) ≡ ok (manifest_fields h f events)
  unfolding verify_manifest manifest_fields get get_text number_of as_int
  verify_of_own f events read =
      rw
        (
          is_text_at-own f.name,
          is_number-own (pos (length f.content)),
          is_text_at-own (file_sha256 h f.content),
          read,
          is_number-own (pos (length events)),
          equals_totals-own float_int events,
        )
        refl

  -- Verify_manifest accepts the manifest that build_manifest returns for the same file, and
  -- returns it.
  pub verify-build :
      (f : DataFile) (m : Fields)
      → build_manifest h f ≡ ok m
      → verify_manifest h float_int f m ≡ ok m
  unfolding build_manifest
  verify-build f m built =
      after_ok (iter_jsonl 1 f.lines) _ built
        λ events read k. rw (sym (ok_inj k)) (verify_of_own f events read)

  -- What a manifest that passes says of the file.
  pub record Describes (m : Fields) (f : DataFile) (events : List Fields) : Type 0 where
    pub read : iter_jsonl 1 f.lines ≡ ok events
    pub file_name : get_text "file_name" m ≡ some f.name
    pub byte_size : number_of float_int (get "byte_size" m) ≡ some (pos (length f.content))
    pub sha256 : get_text "sha256" m ≡ some (h.hexdigest (h.update h.initial f.content))
    pub record_count : number_of float_int (get "record_count" m) ≡ some (pos (length events))
    pub totals :
        (fs : Fields) × (ts : Totals) × (get "raw_control_totals_minor" m ≡ some (object fs))
        × (length (keys fs) ≡ length ts)
        × AreOfCurrencies events ts
        × IsSummed events ts
        × All (λ (t : String × ℤ). number_of float_int (get t.0 fs) ≡ some t.1) ts

  equals_totals-eq :
      (events : List Fields) (o : Option Value)
      → equals_totals float_int (sorted_totals (totals_of events [])) o ≡ true
      → (fs : Fields) × (ts : Totals) × (o ≡ some (object fs))
        × (length (keys fs) ≡ length ts)
        × AreOfCurrencies events ts
        × IsSummed events ts
        × All (λ (t : String × ℤ). number_of float_int (get t.0 fs) ≡ some t.1) ts
  unfolding equals_totals
  equals_totals-eq events (some (object fs)) e =
      let ts = sorted_totals (totals_of events []) in
      (
        fs,
        ts,
        refl,
        ground (arith, e),
        sorted_totals-AreOfCurrencies events,
        sorted_totals-IsSummed events,
        has_totals-All float_int ts fs (ground (arith, e)),
      )
  equals_totals-eq events o e = cc

  true_of : (b : Bool) → not b ≡ false → b ≡ true
  true_of b e = ground (arith, e)

  -- With a digest whose repeated updates are one update, a manifest that verify_manifest accepts
  -- is returned, and has the file's name, its size in bytes, the digest of its whole content and
  -- the number of its lines, which are all objects, and its control totals are as many as the
  -- currencies with an integer amount in the file, one for each of these, and each is the sum of
  -- the integer amounts in its currency.
  pub verify_manifest-Describes :
      IsIncremental h
      → (f : DataFile) (m out : Fields) → verify_manifest h float_int f m ≡ ok out
      → (events : List Fields) × (out ≡ m) × Describes m f events
  unfolding verify_manifest
  verify_manifest-Describes law f m out passed =
      after_ok (raise_if (not (is_text_at f.name (get_text "file_name" m))) _) _ passed λ u1 e1 k1.
        after_ok
          (raise_if
            (not (is_number (pos (length f.content)) (number_of float_int (get "byte_size" m)))) _)
          _ k1
          λ u2 e2 k2.
            after_ok (raise_if (not (is_text_at (file_sha256 h f.content) (get_text "sha256" m))) _)
              _ k2
              λ u3 e3 k3. after_ok (iter_jsonl 1 f.lines) _ k3 λ events e4 k4.
                after_ok
                  (raise_if
                    (not (
                      is_number (pos (length events)) (number_of float_int (get "record_count" m))))
                    _)
                  _ k4
                  λ u5 e5 k5.
                    after_ok
                      (raise_if
                        (not (
                          equals_totals float_int (sorted_totals (totals_of events []))
                            (get "raw_control_totals_minor" m)))
                        _)
                      _ k5
                      λ u6 e6 k6. (
                        events,
                        sym (ok_inj k6),
                        record {
                          read = e4;
                          file_name = is_text_at-eq f.name _ (raise_if-ok _ _ e1);
                          byte_size = is_number-eq _ _ (true_of _ (raise_if-ok _ _ e2));
                          sha256 =
                              is_text_at-eq _ _ (raise_if-ok _ _ e3)
                              ∙ ap some (file_sha256_lem h law f.content);
                          record_count = is_number-eq _ _ (true_of _ (raise_if-ok _ _ e5));
                          totals =
                              equals_totals-eq events (get "raw_control_totals_minor" m)
                                (true_of _ (raise_if-ok _ _ e6));
                        },
                      )

  built_keys :
      (f : DataFile) (events : List Fields)
      → keys (manifest_fields h f events)
        ≡ "version" ∷ "file_name" ∷ "byte_size" ∷ "record_count" ∷ "sha256"
          ∷ "raw_control_totals_minor" ∷ []
  unfolding keys manifest_fields
  built_keys f events = refl

  unsupported :
      (m : Fields)
      → keys m
        ≡ "version" ∷ "file_name" ∷ "byte_size" ∷ "record_count" ∷ "sha256"
          ∷ "raw_control_totals_minor" ∷ []
      → is_supported m ≡ false
  unfolding is_supported all_in
  unsupported m e = rw e refl

  -- A manifest that build_manifest returns is never one that the manifest loader supports.
  pub loader_refuses_built :
      (f : DataFile) (m : Fields) → build_manifest h f ≡ ok m → is_supported m ≡ false
  unfolding build_manifest
  loader_refuses_built f m built =
      after_ok (iter_jsonl 1 f.lines) _ built
        λ events read k. unsupported m (ap keys (sym (ok_inj k)) ∙ built_keys f events)
