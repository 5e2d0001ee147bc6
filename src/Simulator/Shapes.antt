-- ===== src/Simulator/Shapes.antt =====
-- Histories of an authorization, a capture and at most one reversal, as ledgerflow/simulator.py
-- generates them, under the assessment of ledgerflow/store.py.
use mathlib.Core.Path.{subst}
use ledgerflow_payment_recon.Prelude.{
  ℕ, ◌≤◌, String, ◌≡◌, refl, sym, true, List, [], ◌∷◌, Option, none, some, ◌==◌, eq_String, eq_ℕ,
  eq_iff, arith,
}
use ledgerflow_payment_recon.Prelude.Sets.{distinct, minimum, maximum, sum}
use ledgerflow_payment_recon.Contracts.{
  EventType, authorization, capture, refund, chargeback, PaymentEvent,
}
use ledgerflow_payment_recon.Store.Lifecycle.{
  Reason, assess, assess_order, assess_flow, authorized_minor, captured_minor, refunded_minor,
  chargeback_minor,
}

-- The currency, the processor and the merchant of a transaction.
pub record Parties : Type 0 where
  pub currency : String
  pub processor : String
  pub merchant : String

pub record IsOf (y : Parties) (v : ℕ) (k : EventType) (m : ℕ) (e : PaymentEvent) : Type 0 where
  pub version : e.transaction_version ≡ v
  pub kind : e.event_type ≡ k
  pub amount : e.amount_minor ≡ m
  pub currency : e.currency ≡ y.currency
  pub processor : e.processor_id ≡ y.processor
  pub merchant : e.merchant_id ≡ y.merchant

-- A refund or a chargeback.
pub data IsReversal : EventType → Type 0 where
  by_refund : IsReversal refund
  by_chargeback : IsReversal chargeback

order_of_two :
    (y : Parties) (m : ℕ) (a b : PaymentEvent)
    → IsOf y 1 authorization m a
    → IsOf y 2 capture m b
    → assess_order (a ∷ b ∷ []) ≡ none
unfolding assess_order distinct minimum maximum
order_of_two y m a b p q =
    let c : (y.currency == y.currency) ≡ true = (eq_iff y.currency y.currency).1 refl in
    let d : (y.processor == y.processor) ≡ true = (eq_iff y.processor y.processor).1 refl in
    let e : (y.merchant == y.merchant) ≡ true = (eq_iff y.merchant y.merchant).1 refl in
    rw
      (
        p.version, q.version, p.currency, q.currency, p.processor, q.processor, p.merchant,
        q.merchant, c, d, e,
      )
      refl

flow_of_two :
    (y : Parties) (m : ℕ) (a b : PaymentEvent)
    → IsOf y 1 authorization m a
    → IsOf y 2 capture m b
    → assess_flow (a ∷ b ∷ []) ≡ none
unfolding assess_flow minimum sum authorized_minor captured_minor refunded_minor chargeback_minor
flow_of_two y m a b p q =
    rw (p.kind, q.kind, p.version, q.version, p.amount, q.amount) (ground arith)

order_of_three :
    (y : Parties) (k : EventType) (m r : ℕ) (a b c : PaymentEvent)
    → IsOf y 1 authorization m a
    → IsOf y 2 capture m b
    → IsOf y 3 k r c
    → assess_order (a ∷ b ∷ c ∷ []) ≡ none
unfolding assess_order distinct minimum maximum
order_of_three y k m r a b c p q s =
    let d : (y.currency == y.currency) ≡ true = (eq_iff y.currency y.currency).1 refl in
    let e : (y.processor == y.processor) ≡ true = (eq_iff y.processor y.processor).1 refl in
    let f : (y.merchant == y.merchant) ≡ true = (eq_iff y.merchant y.merchant).1 refl in
    rw
      (
        p.version, q.version, s.version, p.currency, q.currency, s.currency, p.processor,
        q.processor, s.processor, p.merchant, q.merchant, s.merchant, d, e, f,
      )
      refl

flow_of_three :
    (y : Parties) (k : EventType) (m r : ℕ) (a b c : PaymentEvent)
    → IsReversal k
    → r ≤ m
    → IsOf y 1 authorization m a
    → IsOf y 2 capture m b
    → IsOf y 3 k r c
    → assess_flow (a ∷ b ∷ c ∷ []) ≡ none
unfolding assess_flow minimum sum authorized_minor captured_minor refunded_minor chargeback_minor
flow_of_three y k m r a b c by_refund le p q s =
    rw (p.kind, q.kind, s.kind, p.version, q.version, s.version, p.amount, q.amount, s.amount)
      (ground (arith, le))
flow_of_three y k m r a b c by_chargeback le p q s =
    rw (p.kind, q.kind, s.kind, p.version, q.version, s.version, p.amount, q.amount, s.amount)
      (ground (arith, le))

assess-none :
    (events : List PaymentEvent)
    → assess_order events ≡ none
    → assess_flow events ≡ none
    → assess events ≡ none
unfolding assess
assess-none events order flow =
    subst
      (λ (o : Option Reason).
        elim o [ some reason ↦ some reason | none ↦ assess_flow events ] ≡ none)
      (sym order) flow

pub two_pass :
    (y : Parties) (m : ℕ) (a b : PaymentEvent)
    → IsOf y 1 authorization m a
    → IsOf y 2 capture m b
    → assess (a ∷ b ∷ []) ≡ none
two_pass y m a b p q = assess-none (a ∷ b ∷ []) (order_of_two y m a b p q) (flow_of_two y m a b p q)

pub three_pass :
    (y : Parties) (k : EventType) (m r : ℕ) (a b c : PaymentEvent)
    → IsReversal k
    → r ≤ m
    → IsOf y 1 authorization m a
    → IsOf y 2 capture m b
    → IsOf y 3 k r c
    → assess (a ∷ b ∷ c ∷ []) ≡ none
three_pass y k m r a b c reversal le p q s =
    assess-none (a ∷ b ∷ c ∷ []) (order_of_three y k m r a b c p q s)
      (flow_of_three y k m r a b c reversal le p q s)
