-- ===== src/Simulator/Lawful.antt =====
-- The transactions of `generate_payment_events` in ledgerflow/simulator.py are lifecycles that the
-- store's assessment passes.
use ledgerflow_payment_recon.Prelude.{
  ℕ, ◌+◌, ◌*◌, ◌%◌, ◌≤◌, String, ◌≡◌, refl, sym, ap, ◌∙◌, List, [], ◌∷◌, none, some, ◌==◌,
  eq_String, eq_ℕ, arith, Bool-cases, inl, inr,
}
use ledgerflow_payment_recon.Prelude.Int.{pos}
use ledgerflow_payment_recon.Prelude.Text.{◌<>◌, decimal_02}
use ledgerflow_payment_recon.Json.{int, text, Fields, get}
use ledgerflow_payment_recon.Contracts.{
  Source, EventType, event_type_of, authorization, capture, refund, chargeback, PaymentEvent,
}
use ledgerflow_payment_recon.Ledger.Rules.{event_type_name}
use ledgerflow_payment_recon.Store.Lifecycle.{assess}
use ledgerflow_payment_recon.Simulator.{
  Library, amount_for, part_of, currency_of, padded, base_time, event_of, reversal_of,
  transaction_events,
}
use ledgerflow_payment_recon.Simulator.Shapes.{
  Parties, IsOf, IsReversal, by_refund, by_chargeback, two_pass, three_pass,
}

-- An event whose fields are those of a record that was written.
pub record Reads (raw : Fields) (e : PaymentEvent) : Type 0 where
  pub version : get "transaction_version" raw ≡ some (int (pos e.transaction_version))
  pub kind : get "event_type" raw ≡ some (text (event_type_name e.event_type))
  pub amount : get "amount_minor" raw ≡ some (int (pos e.amount_minor))
  pub currency : get "currency" raw ≡ some (text e.currency)
  pub processor : get "processor_id" raw ≡ some (text e.processor_id)
  pub merchant : get "merchant_id" raw ≡ some (text e.merchant_id)

abbrev pub AllRead : List Fields → List PaymentEvent → Type 0
AllRead [] [] = Unit
AllRead [] (e ∷ events) = ⊥
AllRead (raw ∷ rest) [] = ⊥
AllRead (raw ∷ rest) (e ∷ events) = Reads raw e × AllRead rest events

event_type_of-event_type_name : (k : EventType) → event_type_of (event_type_name k) ≡ some k
unfolding event_type_of event_type_name
event_type_of-event_type_name authorization = refl
event_type_of-event_type_name capture = refl
event_type_of-event_type_name refund = refl
event_type_of-event_type_name chargeback = refl

same_kind : (k j : EventType) → event_type_name k ≡ event_type_name j → j ≡ k
same_kind k j e =
    let same =
      sym (event_type_of-event_type_name j)
      ∙ ap event_type_of (sym e)
      ∙ event_type_of-event_type_name k in
    cc

abbrev parties : ℕ → Parties
parties n = record {
  currency = currency_of n;
  processor = "processor-" <> decimal_02 (n % 3 + 1);
  merchant = "merchant-" <> padded 3 (n % 250);
}

module _ (lib : Library) where
  Reads-IsOf :
      (n v m : ℕ) (k : EventType) (s : Source) (base : String) (offset : ℕ) (e : PaymentEvent)
      → Reads (event_of lib n v (event_type_name k) m s base offset) e
      → IsOf (parties n) v k m e
  unfolding event_of get
  Reads-IsOf n v m k s base offset e r = record {
    version = cc (r.version);
    kind = same_kind k e.event_type (cc (r.kind));
    amount = cc (r.amount);
    currency = cc (r.currency);
    processor = cc (r.processor);
    merchant = cc (r.merchant);
  }

  quarter-le : (n : ℕ) → part_of (amount_for n) 4 ≤ amount_for n
  unfolding part_of amount_for
  quarter-le n = ground arith

  fifth-le : (n : ℕ) → part_of (amount_for n) 5 ≤ amount_for n
  unfolding part_of amount_for
  fifth-le n = ground arith

  module _ (n : ℕ) (s : Source) where
    reversal-passes :
        (a b : PaymentEvent) (events : List PaymentEvent)
        → IsOf (parties n) 1 authorization (amount_for n) a
        → IsOf (parties n) 2 capture (amount_for n) b
        → AllRead (reversal_of lib n s) events
        → assess (a ∷ b ∷ events) ≡ none
    unfolding reversal_of event_type_name
    reversal-passes a b events p q read = elim (Bool-cases (n % 5 == 0)) [
      | inl e ↦
          by_kind refund (part_of (amount_for n) 4) by_refund (quarter-le n) events (rw e at read)
      | inr e ↦ elim (Bool-cases (n % 7 == 0)) [
        | inl f ↦
            by_kind chargeback (part_of (amount_for n) 5) by_chargeback (fifth-le n) events
              (rw (e, f) at read)
        | inr f ↦ without events (rw (e, f) at read)
      ]
    ]
      where
        by_kind :
            (k : EventType) (r : ℕ)
            → IsReversal k
            → r ≤ amount_for n
            → (es : List PaymentEvent)
            → AllRead (event_of lib n 3 (event_type_name k) r s base_time (n * 10) ∷ []) es
            → assess (a ∷ b ∷ es) ≡ none
        by_kind k r reversal le [] read = absurd read
        by_kind k r reversal le (c ∷ []) (read, _) =
            three_pass (parties n) k (amount_for n) r a b c reversal le p q
              (Reads-IsOf n 3 r k s base_time (n * 10) c read)
        by_kind k r reversal le (c ∷ d ∷ es) (read, more_there) = absurd more_there

        without : (es : List PaymentEvent) → AllRead [] es → assess (a ∷ b ∷ es) ≡ none
        without [] read = two_pass (parties n) (amount_for n) a b p q
        without (c ∷ es) read = absurd read

    -- Payment events with the versions, kinds, amounts, currencies, processors and merchants of
    -- the records that the simulator generates for a transaction, whatever its number and source,
    -- are a history that the store's assessment passes.
    pub transaction_events_pass :
        (events : List PaymentEvent)
        → AllRead (transaction_events lib n s) events
        → assess events ≡ none
    unfolding transaction_events event_type_name
    transaction_events_pass [] read = absurd read
    transaction_events_pass (a ∷ []) (_, read) = absurd read
    transaction_events_pass (a ∷ b ∷ events) (first, (second, rest)) =
        reversal-passes a b events
          (Reads-IsOf n 1 (amount_for n) authorization s base_time (n * 10) a first)
          (Reads-IsOf n 2 (amount_for n) capture s base_time (n * 10) b second) rest
