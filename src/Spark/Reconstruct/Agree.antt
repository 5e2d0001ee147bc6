-- ===== src/Spark/Reconstruct/Agree.antt =====
-- `reconstruct` of spark_jobs/reconstruct_payment_state.py gives each transaction the verdict that
-- `_project_transaction` of ledgerflow/store.py gives it.
use ledgerflow_payment_recon.Prelude.{
  ℕ, ◌+◌, ◌≡◌, refl, ap, Bool, false, not, List, [], ◌∷◌, map, none, some, ltb, length, filter,
  arith, ◌==◌, eq_ℕ, eq_String, Eq, Bool-cases, Option-cases, inl, inr,
}
use ledgerflow_payment_recon.Prelude.Int.{pos, eq_ℤ}
use ledgerflow_payment_recon.Spark.Reconstruct.Sums.{
  Positive, IsBounded, eq_pos, sum_when-eq, count-eq, reversed-eq,
}
use ledgerflow_payment_recon.Prelude.Sets.{distinct, minimum, maximum, sum}
use ledgerflow_payment_recon.Contracts.{PaymentEvent}
use ledgerflow_payment_recon.Store.Lifecycle.{
  is_authorization, is_capture, is_refund, is_chargeback, versions, amount_of, eq_some, is_empty,
  head_version, authorizations, captures, reversals, authorized_minor, captured_minor,
  refunded_minor, chargeback_minor, assess_order, assess_flow, assess, status_of,
}
use ledgerflow_payment_recon.Store.Lifecycle.Versions.{distinct_nonempty}
use ledgerflow_payment_recon.Spark.Reconstruct.Conflicts.{conflict-distinct}
use ledgerflow_payment_recon.Store.Lifecycle.Checks.{assess_flow-FlowHolds, assess-parts}
use ledgerflow_payment_recon.Spark.Reconstruct.{
  is_null, differs_from, exceeds, authorization_count, authorized_column, captured_column,
  refunded_column, chargeback_column, authorization_version, capture_version, reversal_version,
  party_error, flow_error, business_error, state_status,
}

is_null-minimum : (l : List PaymentEvent) → is_null (minimum (versions l)) ≡ is_empty l
unfolding minimum
is_null-minimum [] = refl
is_null-minimum (e ∷ l) = elim (Option-cases (minimum (versions l))) [
  | inl nothing ↦ rw nothing refl
  | inr (m, found) ↦ rw found refl
]

sum-Positive :
    (p : PaymentEvent → Bool) (l : List PaymentEvent)
    → Positive l
    → ltb 0 (amount_of p l) ≡ not (is_empty (filter p l))
unfolding sum
sum-Positive p [] h = refl
sum-Positive p (e ∷ l) (h, hs) = elim (Bool-cases (p e)) [
  | inl selected ↦ rw selected (ground (arith, h))
  | inr other ↦ rw other (sum-Positive p l hs)
]

one_head :
    (l : List PaymentEvent) → ltb 1 (length l) ≡ false → minimum (versions l) ≡ head_version l
unfolding minimum
one_head [] h = refl
one_head (e ∷ []) h = refl
one_head (e ∷ f ∷ l) h = absurd (ground arith)

one_amount :
    (l : List PaymentEvent) (n : ℕ)
    → ltb 1 (length l) ≡ false
    → is_empty l ≡ false
    → exceeds (pos n) (maximum (map (λ (e : PaymentEvent). e.amount_minor) l))
      ≡ ltb (sum (map (λ (e : PaymentEvent). e.amount_minor) l)) n
unfolding maximum sum
one_amount [] n h k = absurd (ground arith)
one_amount (e ∷ []) n h k = ground arith
one_amount (e ∷ f ∷ l) n h k = absurd (ground arith)

differs-minimum :
    (n : ℕ) (ns : List ℕ) (k : ℕ)
    → differs_from (minimum (n ∷ ns)) k ≡ not (eq_some (minimum (n ∷ ns)) k)
unfolding minimum
differs-minimum n ns k = elim (Option-cases (minimum ns)) [
  | inl nothing ↦ rw nothing refl
  | inr (m, found) ↦ rw found refl
]

differs-maximum :
    (n : ℕ) (ns : List ℕ) (k : ℕ)
    → differs_from (maximum (n ∷ ns)) k ≡ not (eq_some (maximum (n ∷ ns)) k)
unfolding maximum
differs-maximum n ns k = elim (Option-cases (maximum ns)) [
  | inl nothing ↦ rw nothing refl
  | inr (m, found) ↦ rw found refl
]

several :
    {A : Type 0} ⦃d : Eq A⦄ (x : A) (xs : List A)
    → ltb 1 (length (distinct (x ∷ xs))) ≡ not (length (distinct (x ∷ xs)) == 1)
several x xs = ground (arith, distinct_nonempty x xs)

party-order :
    (e : PaymentEvent) (es : List PaymentEvent) → party_error (e ∷ es) ≡ assess_order (e ∷ es)
unfolding party_error assess_order
party-order e es =
    rw
      (
        conflict-distinct (e ∷ es),
        differs-minimum e.transaction_version (versions es) 1,
        differs-maximum e.transaction_version (versions es) (length (e ∷ es)),
        several e.currency (map (λ (f : PaymentEvent). f.currency) es),
        several e.processor_id (map (λ (f : PaymentEvent). f.processor_id) es),
        several e.merchant_id (map (λ (f : PaymentEvent). f.merchant_id) es),
      )
      refl

empty-count :
    (p : PaymentEvent → Bool) (l : List PaymentEvent)
    → (pos (length (filter p l)) == pos 0) ≡ is_empty (filter p l)
empty-count p l = by_list (filter p l)
  where
    by_list : (m : List PaymentEvent) → (pos (length m) == pos 0) ≡ is_empty m
    by_list [] = refl
    by_list (e ∷ m) = ground arith

flow-flow : (l : List PaymentEvent) → Positive l → IsBounded l → flow_error l ≡ assess_flow l
unfolding flow_error assess_flow authorization_count captured_column refunded_column
    chargeback_column authorization_version capture_version reversal_version authorized_column
    captured_minor authorized_minor refunded_minor chargeback_minor
flow-flow l h small =
    rw
      (
        count-eq is_authorization l h small,
        empty-count is_authorization l,
        sum_when-eq is_capture l small,
        sum_when-eq is_refund l small,
        sum_when-eq is_chargeback l small,
        reversed-eq l small,
        sum-Positive is_capture l h,
        is_null-minimum (captures l),
        is_null-minimum (reversals l),
      )
      (elim (Bool-cases (ltb 1 (length (authorizations l)))) [
        | inl twice ↦ rw twice refl
        | inr once ↦ elim (Bool-cases (is_empty (authorizations l))) [
          | inl missing ↦ rw (once, missing) refl
          | inr present ↦
              rw
                (
                  once,
                  present,
                  one_head (authorizations l) once,
                  one_amount (authorizations l) (amount_of is_capture l) once present,
                )
                refl
        ]
      ])

-- The two verdicts on a history of positive amounts are the same, whatever its order.
pub business_error-assess :
    (e : PaymentEvent) (es : List PaymentEvent)
    → Positive (e ∷ es)
    → IsBounded (e ∷ es)
    → business_error (e ∷ es) ≡ assess (e ∷ es)
unfolding business_error assess
business_error-assess e es h small = ground (arith, party-order e es, flow-flow (e ∷ es) h small)

one_maximum :
    (l : List PaymentEvent)
    → ltb 1 (length l) ≡ false
    → is_empty l ≡ false
    → maximum (map (λ (e : PaymentEvent). e.amount_minor) l)
      ≡ some (sum (map (λ (e : PaymentEvent). e.amount_minor) l))
unfolding maximum sum
one_maximum [] h k = absurd (ground arith)
one_maximum (e ∷ []) h k = ap some (omega arith)
one_maximum (e ∷ f ∷ l) h k = absurd (ground arith)

-- And so are the two statuses of one that passes.
pub state_status-status_of :
    (l : List PaymentEvent)
    → Positive l
    → IsBounded l
    → assess l ≡ none
    → state_status l
      ≡ status_of (authorized_minor l) (captured_minor l) (refunded_minor l) (chargeback_minor l)
unfolding state_status status_of captured_column refunded_column chargeback_column authorized_column
    captured_minor authorized_minor refunded_minor chargeback_minor
state_status-status_of l h small passed =
    let f = assess_flow-FlowHolds l (assess-parts l passed).1 in
    let once : ltb 1 (length (authorizations l)) ≡ false = ground (arith, f.once) in
    let some_authorized = sum-Positive is_authorization l h in
    rw
      (
        sum_when-eq is_capture l small,
        sum_when-eq is_refund l small,
        sum_when-eq is_chargeback l small,
        reversed-eq l small,
        one_maximum (authorizations l) once f.authorized,
        eq_pos (amount_of is_refund l + amount_of is_chargeback l) (amount_of is_capture l),
        eq_pos (amount_of is_refund l) (amount_of is_capture l),
        eq_pos (amount_of is_capture l) (amount_of is_authorization l),
      )
      (ground (arith, some_authorized, f.authorized, f.within_captured, f.within_authorized))

-- The column of the authorized amount.
pub authorized_column-eq :
    (l : List PaymentEvent) → assess l ≡ none → authorized_column l ≡ some (authorized_minor l)
unfolding authorized_column authorized_minor
authorized_column-eq l passed =
    let f = assess_flow-FlowHolds l (assess-parts l passed).1 in
    one_maximum (authorizations l) (ground (arith, f.once)) f.authorized
