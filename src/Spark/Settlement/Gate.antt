-- ===== src/Spark/Settlement/Gate.antt =====
-- When the gate of spark_jobs/reconcile_settlements.py passes.
use mathlib.Core.Path.{subst}
use ledgerflow_payment_recon.Prelude.{
  ℕ, ◌<◌, ◌≤◌, String, ◌≡◌, refl, sym, ap, ◌∙◌, Bool, true, false, not, List, [], ◌∷◌, ◌++◌, map,
  filter, All, arith, ◌==◌, eq_String, eq_pair, pair_eq_iff, if◌then◌else◌, Bool-cases, inl, inr,
}
use ledgerflow_payment_recon.Prelude.Int.{ℤ, pos, ◌+ℤ◌, neg, eq_ℤ, int_eq_iff, sum_ℤ}
use ledgerflow_payment_recon.Prelude.Int64.{
  two_63, fits, wrap_exact, wrap_zero, magnitude, magnitudes, sum64, sum64-eq, fits-sum64,
}
use ledgerflow_payment_recon.Prelude.Sets.{contains, distinct, contains-distinct, sum}
use ledgerflow_payment_recon.Prelude.Result.{ok}
use ledgerflow_payment_recon.Contracts.{
  PaymentEvent, EventType, authorization, capture, refund, chargeback,
}
use ledgerflow_payment_recon.Store.Amounts.{amount_or_zero}
use ledgerflow_payment_recon.Store.Settlement.{Key, signed_amount}
use ledgerflow_payment_recon.Spark.Settlement.{
  Evidence, Difference, difference_of, group_key, posted_of_day, posting_for, sum_for,
  expected_rows, full_join, differing, settlement_gate, reconcile_settlements,
}

module _ (to_date : String → String) (posted : List PaymentEvent) where
  listed :
      (k : Key) (ks : List Key)
      → amount_or_zero k (map (λ j. (j, sum_for to_date j posted)) ks)
        ≡ (if contains k ks then sum_for to_date k posted else pos 0)
  unfolding amount_or_zero
  listed k [] = refl
  listed k (j ∷ ks) = elim (Bool-cases (k == j)) [
    | inl same ↦ rw same (ap (λ i. sum_for to_date i posted) (sym ((pair_eq_iff k j).0 same)))
    | inr other ↦ rw other (listed k ks)
  ]

  absent :
      (k : Key) (es : List PaymentEvent)
      → contains k (map (group_key to_date) es) ≡ false
      → sum_for to_date k es ≡ pos 0
  unfolding sum_for sum64 ◌+ℤ◌
  absent k [] h = refl
  absent k (e ∷ es) h = elim (Bool-cases (k == group_key to_date e)) [
    | inl here ↦ absurd (ground arith)
    | inr other ↦ rw (other, absent k es (rw other at h)) (wrap_exact (pos 0) (omega arith))
  ]

  -- The lookup of an expected sum.
  expected_sum :
      (k : Key) → amount_or_zero k (expected_rows to_date posted) ≡ sum_for to_date k posted
  unfolding expected_rows
  expected_sum k =
      let names = map (group_key to_date) posted in
      listed k (distinct names)
      ∙ ap (λ b. if b then sum_for to_date k posted else pos 0) (contains-distinct k names)
      ∙ elim (Bool-cases (contains k names)) [
        | inl found ↦ rw found refl
        | inr missing ↦ rw missing (sym (absent k posted missing))
      ]

nothing_differs :
    (rows : List Difference) → differing rows ≡ [] → All (λ d. d.delta_minor ≡ pos 0) rows
unfolding differing
nothing_differs [] h = tt
nothing_differs (d ∷ rows) h = elim (Bool-cases (d.delta_minor == pos 0)) [
  | inl equal ↦ ((int_eq_iff d.delta_minor (pos 0)).0 equal, nothing_differs rows (rw equal at h))
  | inr differs ↦ absurd (ground arith)
]

All-left : (P : Difference → Type 0) (a b : List Difference) → All P (a ++ b) → All P a
All-left P [] b h = tt
All-left P (x ∷ a) b (h, hs) = (h, All-left P a b hs)

All-of_map :
    {A : Type 0} (P : Difference → Type 0) (f : A → Difference) (l : List A)
    → All P (map f l)
    → All (λ x. P (f x)) l
All-of_map P f [] h = tt
All-of_map P f (x ∷ l) (h, hs) = (h, All-of_map P f l hs)

All-right : (P : Difference → Type 0) (a b : List Difference) → All P (a ++ b) → All P b
All-right P [] b h = h
All-right P (x ∷ a) b (h, hs) = All-right P a b hs

-- A row that passes a test is among those selected.
selected_row :
    (P : Key × ℤ → Type 0) (q : Key → Bool) (g : Key → ℤ) (k : Key) (ks : List Key)
    → All P (filter (λ (e : Key × ℤ). q e.0) (map (λ j. (j, g j)) ks))
    → contains k ks ≡ true
    → q k ≡ true
    → P (k, g k)
selected_row P q g k [] h found chosen = absurd (ground arith)
selected_row P q g k (j ∷ ks) h found chosen = elim (Bool-cases (k == j)) [
  | inl same ↦
      let e = (pair_eq_iff k j).0 same in
      let here : q j ≡ true = ap q (sym e) ∙ chosen in
      subst (λ i. P (i, g i)) (sym e) (rw here at h).0
  | inr other ↦ selected_row P q g k ks (later (q j) refl h) (rw other at found) chosen
]
  where
    later :
        (b : Bool)
        → q j ≡ b
        → All P (filter (λ (e : Key × ℤ). q e.0) (map (λ i. (i, g i)) (j ∷ ks)))
        → All P (filter (λ (e : Key × ℤ). q e.0) (map (λ i. (i, g i)) ks))
    later true here h = (rw here at h).1
    later false here h = rw here at h

abbrev pub evidence_keys : List Evidence → List Key
evidence_keys actual = map (λ (a : Evidence). a.0) actual

gate-nil : (rows : List Difference) → settlement_gate rows ≡ ok tt → rows ≡ []
unfolding settlement_gate
gate-nil [] h = refl
gate-nil (d ∷ rows) h = absurd (ground arith)

-- The amounts of the evidence are bigints.
abbrev pub AmountsFit : List Evidence → Type 0
AmountsFit actual = All (λ (a : Evidence). fits a.1 ≡ true) actual

sums_agree :
    (to_date : String → String) (posted : List PaymentEvent) (actual : List Evidence)
    → AmountsFit actual
    → All
        (λ (a : Evidence).
          (difference_of a.0 (amount_or_zero a.0 (expected_rows to_date posted)) a.1).delta_minor
          ≡ pos 0)
        actual
    → All (λ (a : Evidence). sum_for to_date a.0 posted ≡ a.1) actual
unfolding sum_for
sums_agree to_date posted [] f h = tt
sums_agree to_date posted (a ∷ actual) (f, fs) (h, hs) = (
  wrap_zero _ _ (fits-sum64 _) f (rw (expected_sum to_date posted a.0) at h),
  sums_agree to_date posted actual fs hs,
)

-- What was posted for a key without evidence.
unmatched :
    (to_date : String → String) (posted : List PaymentEvent) (actual : List Evidence) (k : Key)
    → All
        (λ (e : Key × ℤ). (difference_of e.0 e.1 (pos 0)).delta_minor ≡ pos 0)
        (filter
          (λ (e : Key × ℤ). not (contains e.0 (evidence_keys actual)))
          (expected_rows to_date posted))
    → contains k (evidence_keys actual) ≡ false
    → sum_for to_date k posted ≡ pos 0
unfolding expected_rows sum_for
unmatched to_date posted actual k rows free =
    let names = map (group_key to_date) posted in
    elim (Bool-cases (contains k names)) [
      | inr missing ↦ absent to_date posted k posted missing
      | inl found ↦ wrap_zero _ _ (fits-sum64 _) refl (
          selected_row (λ e. (difference_of e.0 e.1 (pos 0)).delta_minor ≡ pos 0)
            (λ j. not (contains j (evidence_keys actual))) (λ j. sum_for to_date j posted) k
            (distinct names) rows (contains-distinct k names ∙ found) (ap not free))
    ]

-- Captures less refunds and chargebacks of a key, as integers.
pub posted_for : (String → String) → Key → List PaymentEvent → ℤ
posted_for to_date k es = sum_ℤ (map (posting_for to_date k) es)

signed_within : (y : EventType) (n : ℕ) → magnitude (signed_amount y n) ≤ n
unfolding neg
signed_within authorization n = omega arith
signed_within capture n = omega arith
signed_within refund n = ground arith
signed_within chargeback n = ground arith

posting_within :
    (b : Bool) (x : ℤ) (n : ℕ) → magnitude x ≤ n → magnitude (if b then x else pos 0) ≤ n
posting_within true x n h = h
posting_within false x n h = omega arith

postings_within :
    (to_date : String → String) (k : Key) (es : List PaymentEvent)
    → magnitudes (map (posting_for to_date k) es)
      ≤ sum (map (λ (e : PaymentEvent). e.amount_minor) es)
unfolding magnitudes sum
postings_within to_date k [] = omega arith
postings_within to_date k (e ∷ es) =
    let one =
      posting_within (k == group_key to_date e) (signed_amount e.event_type e.amount_minor)
        e.amount_minor (signed_within e.event_type e.amount_minor) in
    omega (arith, one, postings_within to_date k es)

-- The amounts of the postings add up to less than 2 ^ 63.
abbrev pub IsSmall : List PaymentEvent → Type 0
IsSmall es = sum (map (λ (e : PaymentEvent). e.amount_minor) es) < two_63

sum_for-eq :
    (to_date : String → String) (k : Key) (es : List PaymentEvent)
    → IsSmall es
    → sum_for to_date k es ≡ posted_for to_date k es
unfolding sum_for posted_for
sum_for-eq to_date k es small = sum64-eq _ (omega (arith, small, postings_within to_date k es))

exact_sums :
    (to_date : String → String) (es : List PaymentEvent) (actual : List Evidence)
    → IsSmall es
    → All (λ (a : Evidence). sum_for to_date a.0 es ≡ a.1) actual
    → All (λ (a : Evidence). posted_for to_date a.0 es ≡ a.1) actual
exact_sums to_date es [] small h = tt
exact_sums to_date es (a ∷ actual) small (h, hs) =
    (sym (sum_for-eq to_date a.0 es small) ∙ h, exact_sums to_date es actual small hs)

-- If the settlement job passes on evidence whose amounts are 64-bit integers, and the amounts
-- posted on the business date add up to less than 2 ^ 63, each row of the evidence has the amount
-- that was posted for its key on that date, as captures less refunds and chargebacks of the
-- transactions that are not invalid, and what was posted for a key without evidence adds up to
-- zero.
pub reconcile_settlements_sound :
    (to_date : String → String) (business_date : String) (posted : List PaymentEvent)
    (invalid : List String) (actual : List Evidence) (table : List Difference)
    → AmountsFit actual
    → IsSmall (posted_of_day to_date business_date posted invalid)
    → (reconcile_settlements to_date business_date posted invalid actual table).1 ≡ ok tt
    → All
        (λ (a : Evidence).
          posted_for to_date a.0 (posted_of_day to_date business_date posted invalid) ≡ a.1)
        actual
      × ((k : Key)
          → contains k (evidence_keys actual) ≡ false
          → posted_for to_date k (posted_of_day to_date business_date posted invalid) ≡ pos 0)
unfolding reconcile_settlements full_join
reconcile_settlements_sound to_date business_date posted invalid actual table fit small passed =
    let day = posted_of_day to_date business_date posted invalid in
    let expected = expected_rows to_date day in
    let zeros =
      nothing_differs (full_join expected actual)
        (gate-nil (differing (full_join expected actual)) passed) in
    let matched = All-of_map (λ d. d.delta_minor ≡ pos 0) _ actual (All-left _ _ _ zeros) in
    let others = All-of_map (λ d. d.delta_minor ≡ pos 0) _ _ (All-right _ _ _ zeros) in
    (
      exact_sums to_date day actual small (sums_agree to_date day actual fit matched),
      λ k free. sym (sum_for-eq to_date k day small) ∙ unmatched to_date day actual k others free,
    )
