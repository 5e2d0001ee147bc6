-- ===== src/Store/Lifecycle/Checks.antt =====
-- The tests of the assessment in `_project_transaction` (ledgerflow/store.py), one by one.
use ledgerflow_payment_recon.Prelude.{
  ℕ, ◌+◌, ◌≤◌, ◌≡◌, ap, true, false, List, map, Option, none, some, length, arith, eq_ℕ, eq_String,
  nat_eq_iff, Option-cases, inl, inr,
}
use ledgerflow_payment_recon.Prelude.Sets.{distinct, minimum, maximum}
use ledgerflow_payment_recon.Contracts.{PaymentEvent}
use ledgerflow_payment_recon.Store.Lifecycle.{
  versions, eq_some, le_some, is_empty, head_version, authorizations, captures, reversals,
  authorized_minor, captured_minor, refunded_minor, chargeback_minor, assess_order, assess_flow,
  assess,
}

eq_some-eq : (o : Option ℕ) (n : ℕ) → eq_some o n ≡ true → o ≡ some n
eq_some-eq none n h = absurd (ground arith)
eq_some-eq (some m) n h = ap some ((nat_eq_iff m n).0 h)

module _ (l : List PaymentEvent) where
  pub record OrderHolds : Type 0 where
    pub different : length (distinct (versions l)) ≡ length l
    pub lowest : minimum (versions l) ≡ some 1
    pub highest : maximum (versions l) ≡ some (length l)
    pub currency : length (distinct (map (λ (e : PaymentEvent). e.currency) l)) ≡ 1
    pub processor : length (distinct (map (λ (e : PaymentEvent). e.processor_id) l)) ≡ 1
    pub merchant : length (distinct (map (λ (e : PaymentEvent). e.merchant_id) l)) ≡ 1

  pub record FlowHolds : Type 0 where
    pub once : length (authorizations l) ≤ 1
    pub authorized : is_empty (authorizations l) ≡ false
    pub captures_after :
        is_empty (captures l) ≡ false
        → le_some (minimum (versions (captures l))) (head_version (authorizations l)) ≡ false
    pub captured : is_empty (reversals l) ≡ false → is_empty (captures l) ≡ false
    pub reversals_after :
        is_empty (reversals l) ≡ false
        → le_some (minimum (versions (reversals l))) (minimum (versions (captures l))) ≡ false
    pub within_authorized : captured_minor l ≤ authorized_minor l
    pub within_captured : refunded_minor l + chargeback_minor l ≤ captured_minor l

  pub assess_order-OrderHolds : assess_order l ≡ none → OrderHolds
  unfolding assess_order
  assess_order-OrderHolds h = record {
    different = ground arith;
    lowest = eq_some-eq (minimum (versions l)) 1 (ground arith);
    highest = eq_some-eq (maximum (versions l)) (length l) (ground arith);
    currency = ground arith;
    processor = ground arith;
    merchant = ground arith;
  }

  pub assess_flow-FlowHolds : assess_flow l ≡ none → FlowHolds
  unfolding assess_flow
  assess_flow-FlowHolds h = record {
    once = ground arith;
    authorized = ground arith;
    captures_after = λ some_capture. ground arith;
    captured = λ some_reversal. ground arith;
    reversals_after = λ some_reversal. ground arith;
    within_authorized = ground arith;
    within_captured = ground arith;
  }

  pub assess-parts : assess l ≡ none → (assess_order l ≡ none) × (assess_flow l ≡ none)
  unfolding assess
  assess-parts h = elim (Option-cases (assess_order l)) [
    | inl passed ↦ (passed, rw (assess, passed) at h)
    | inr (reason, failed) ↦ absurd (ground arith)
  ]
