-- ===== src/Spark/Manifest/Gate.antt =====
-- What passing the gates of spark_jobs/validate_settlement_manifest.py means.
use ledgerflow_payment_recon.Prelude.{
  ◌≤◌, ◌<◌, map, String, ◌≡◌, refl, ap, ◌∙◌, Bool, true, false, not, List, [], ◌∷◌, length, filter,
  ltb, All, Option, none, some, ◌==◌, eq_String, eq_ℕ, eq_iff, arith, Bool-cases, Option-cases, inl,
  inr,
}
use ledgerflow_payment_recon.Prelude.Int.{ℤ, eq_ℤ, int_eq_iff, sum_ℤ}
use ledgerflow_payment_recon.Prelude.Int64.{two_63, magnitudes, sum64-eq}
use ledgerflow_payment_recon.Prelude.Text.{is_member}
use ledgerflow_payment_recon.Prelude.Result.{ok, raise_if, raise_if-ok, after_ok}
use ledgerflow_payment_recon.Contracts.{currencies}
use ledgerflow_payment_recon.Spark.Manifest.{
  SettlementRecord, SettlementManifest, or_null, not_null, is_null, differs, is_in, holds,
  amount_or_nothing, amount_in, same_text, settlement_key, count_key, duplicate_keys,
  currency_total, total_in, has_total, occurs, every, same_totals, is_invalid, validate_settlement,
}

filter-none :
    {A : Type 0} (p : A → Bool) (l : List A) → length (filter p l) ≡ 0 → All (λ x. p x ≡ false) l
filter-none p [] h = tt
filter-none p (x ∷ l) h = elim (Bool-cases (p x)) [
  | inl e ↦ let k = rw e at h in absurd (omega (arith, k))
  | inr e ↦ let k = rw e at h in (e, filter-none p l k)
]

every-All : {A : Type 0} (p : A → Bool) (l : List A) → every p l ≡ true → All (λ x. p x ≡ true) l
unfolding every
every-All p [] h = tt
every-All p (x ∷ l) h = (ground (arith, h), every-All p l (ground (arith, h)))

-- A row without a fault.
pub record IsSettled (day : String) (r : SettlementRecord) : Type 0 where
  pub version : r.schema_version ≡ some "1.0"
  pub dated : r.business_date ≡ some day
  pub processor : (s : String) × (r.processor_id ≡ some s)
  pub currency : (c : String) × (r.currency ≡ some c) × (is_member c currencies ≡ true)
  pub amount : (n : ℤ) × (r.amount_minor ≡ some n)

true_left :
    (a : Bool) (b : Option Bool)
    → holds (or_null (some a) b) ≡ false
    → (a ≡ false) × (holds b ≡ false)
unfolding holds or_null
true_left true b h = cc
true_left false b h = (refl, h)

not_null_left :
    {A : Type 0} (o : Option A) (b : Option Bool)
    → holds (or_null (is_null o) b) ≡ false
    → ((a : A) × (o ≡ some a)) × (holds b ≡ false)
unfolding holds or_null is_null
not_null_left none b h = cc
not_null_left (some a) b h = ((a, refl), h)

equal_left :
    (o : Option String) (s a : String) (b : Option Bool)
    → o ≡ some a
    → holds (or_null (differs o (some s)) b) ≡ false
    → (o ≡ some s) × (holds b ≡ false)
unfolding differs
equal_left o s a b e h =
    let k = rw e at h in
    let (same, rest) = true_left (not (a == s)) b k in
    (e ∙ ap some (ground (arith, same, eq_iff a s)), rest)

member_left :
    (c : String) (b : Option Bool)
    → holds (or_null (not_null (is_in (some c) currencies)) b) ≡ false
    → (is_member c currencies ≡ true) × (holds b ≡ false)
unfolding not_null is_in
member_left c b h =
    let (known, rest) = true_left (not (is_member c currencies)) b h in
    (ground (arith, known), rest)

amount_known : (o : Option ℤ) → holds (is_null o) ≡ false → (n : ℤ) × (o ≡ some n)
unfolding holds is_null
amount_known none h = cc
amount_known (some n) h = (n, refl)

-- The sum of a currency's amounts, as an integer.
pub control_total : Option String → List SettlementRecord → ℤ
control_total c rs = sum_ℤ (map (amount_in c) rs)

-- The magnitudes of the amounts add up to less than 2 ^ 63.
abbrev pub IsSmall : List SettlementRecord → Type 0
IsSmall rs =
    magnitudes (map (λ (r : SettlementRecord). amount_or_nothing r.amount_minor) rs) < two_63

amounts_within :
    (c : Option String) (rs : List SettlementRecord)
    → magnitudes (map (amount_in c) rs)
      ≤ magnitudes (map (λ (r : SettlementRecord). amount_or_nothing r.amount_minor) rs)
unfolding magnitudes
amounts_within c [] = omega arith
amounts_within c (r ∷ rs) = elim (Bool-cases (same_text r.currency c)) [
  | inl same ↦ rw same (omega (arith, amounts_within c rs))
  | inr other ↦ rw other (omega (arith, amounts_within c rs))
]

currency_total-eq :
    (c : Option String) (rs : List SettlementRecord)
    → IsSmall rs
    → currency_total c rs ≡ control_total c rs
unfolding currency_total control_total
currency_total-eq c rs small = sum64-eq _ (omega (arith, small, amounts_within c rs))

module _ (to_date : String → Option String) (date day : String) where
  row-IsSettled :
      (r : SettlementRecord)
      → to_date date ≡ some day
      → is_invalid to_date date r ≡ false
      → (c : String) × (r.currency ≡ some c)
      → IsSettled day r
  unfolding is_invalid
  row-IsSettled r parsed valid (c, has) =
      let ((v, ve), k1) = not_null_left r.schema_version _ valid in
      let (version, k2) = equal_left r.schema_version "1.0" v _ ve k1 in
      let ((d, de), k3) = not_null_left r.business_date _ k2 in
      let (dated, k4) = equal_left r.business_date day d _ de (rw parsed at k3) in
      let ((q, qe), k5) = not_null_left r.processor_id _ k4 in
      let (known, k6) = member_left c _ (rw has at k5) in
      record {
        version = version;
        dated = dated;
        processor = (q, qe);
        currency = (c, has, known);
        amount = amount_known r.amount_minor k6;
      }

  has_total-eq :
      (rs : List SettlementRecord) (totals : List (String × ℤ)) (o : Option String)
      → has_total rs totals o ≡ true
      → (c : String) × (o ≡ some c) × (total_in o totals ≡ some (currency_total o rs))
  unfolding has_total
  has_total-eq rs totals none h = let k : false ≡ true = h in cc
  has_total-eq rs totals (some c) h = elim (Option-cases (total_in (some c) totals)) [
    | inl e ↦ let k = rw e at h in cc
    | inr (n, e) ↦ let k = rw e at h in (c, refl, e ∙ ap some ((int_eq_iff n _).0 k))
  ]

  rows-IsSettled :
      (all rs : List SettlementRecord) (totals : List (String × ℤ))
      → to_date date ≡ some day
      → IsSmall all
      → All (λ r. is_invalid to_date date r ≡ false) rs
      → All (λ (r : SettlementRecord). has_total all totals r.currency ≡ true) rs
      → All
          (λ (r : SettlementRecord).
            IsSettled day r × (total_in r.currency totals ≡ some (control_total r.currency all)))
          rs
  rows-IsSettled all [] totals parsed small v t = tt
  rows-IsSettled all (r ∷ rs) totals parsed small (v, vs) (t, ts) =
      let (c, has, total) = has_total-eq all totals r.currency t in
      (
        (
          row-IsSettled r parsed v (c, has),
          total ∙ ap some (currency_total-eq r.currency all small),
        ),
        rows-IsSettled all rs totals parsed small vs ts,
      )

  at_most_one :
      (all rs : List SettlementRecord)
      → All (λ (r : SettlementRecord). ltb 1 (count_key (settlement_key r) all) ≡ false) rs
      → All (λ (r : SettlementRecord). count_key (settlement_key r) all ≤ 1) rs
  at_most_one all [] h = tt
  at_most_one all (r ∷ rs) (h, hs) = (ground (arith, h), at_most_one all rs hs)

  -- If the settlement manifest job passes for a business date that can be read, on records of
  -- which the magnitudes of the amounts add up to less than 2 ^ 63, every record has the schema
  -- version 1.0, that date, a processor, a supported currency and an amount, no two records share
  -- date, processor and currency, their number is the manifest's, the manifest's total of each
  -- record's currency is the sum of the amounts in it, and every currency of the manifest occurs.
  pub validate_settlement_sound :
      (manifest : SettlementManifest) (rs : List SettlementRecord)
      → to_date date ≡ some day
      → IsSmall rs
      → validate_settlement to_date date manifest rs ≡ ok tt
      → All
          (λ (r : SettlementRecord).
            IsSettled day r
            × (total_in r.currency manifest.totals ≡ some (control_total r.currency rs)))
          rs
        × All (λ (r : SettlementRecord). count_key (settlement_key r) rs ≤ 1) rs
        × (length rs ≡ manifest.record_count)
        × All (λ (t : String × ℤ). occurs t.0 rs ≡ true) manifest.totals
  unfolding validate_settlement duplicate_keys same_totals
  validate_settlement_sound manifest rs parsed small passed =
      after_ok (raise_if (not (length (filter (is_invalid to_date date) rs) == 0)) _) _ passed
        λ u1 e1 k1. after_ok (raise_if (not (length (duplicate_keys rs) == 0)) _) _ k1 λ u2 e2 k2.
          after_ok (raise_if (not (length rs == manifest.record_count)) _) _ k2 λ u3 e3 k3.
            let gate = raise_if-ok _ _ k3 in
            let b1 = raise_if-ok _ _ e1 in
            let b2 = raise_if-ok _ _ e2 in
            let b3 = raise_if-ok _ _ e3 in
            (
              rows-IsSettled rs rs manifest.totals parsed small
                  (filter-none _ rs (ground (arith, b1))) (every-All _ rs (ground (arith, gate))),
              at_most_one rs rs (filter-none _ rs (ground (arith, b2))),
              ground (arith, b3),
              every-All _ manifest.totals (ground (arith, gate)),
            )
