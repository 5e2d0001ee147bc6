-- ===== src/Store/Lifecycle/Sound.antt =====
-- What a history is that the assessment of ledgerflow/store.py passes.
use mathlib.Core.Path.{subst}
use ledgerflow_payment_recon.Prelude.{
  ◌+◌, ◌≤◌, ◌≡◌, refl, sym, ap, ◌∙◌, Bool, true, false, List, [], ◌∷◌, map, none, some, length,
  filter, All, arith, Bool-cases, inl, inr, String, eq_String,
}
use ledgerflow_payment_recon.Prelude.Sets.{sum}
use ledgerflow_payment_recon.Contracts.{PaymentEvent}
use ledgerflow_payment_recon.Store.Lifecycle.{
  versions, is_authorization, is_capture, is_reversal, authorized_minor, captured_minor,
  refunded_minor, chargeback_minor, assess,
}
use ledgerflow_payment_recon.Store.Lifecycle.Versions.{range, Rises, consecutive_lem, single_lem}
use ledgerflow_payment_recon.Store.Lifecycle.Order.{
  length-versions, kind_lem, not_authorization, not_capture, le_some-filter, le_some-head,
}
use ledgerflow_payment_recon.Store.Lifecycle.Checks.{
  OrderHolds, FlowHolds, assess_order-OrderHolds, assess_flow-FlowHolds, assess-parts,
}

-- An event of another party would be a mutation.
abbrev pub SameParty : PaymentEvent → PaymentEvent → Type 0
SameParty first e =
    (e.currency ≡ first.currency)
    × (e.processor_id ≡ first.processor_id)
    × (e.merchant_id ≡ first.merchant_id)

-- A payment's history: one authorization, at version 1; the later events, at versions 2, 3, ..., are
-- of the same parties; the first of them is a capture; and the money that comes back is at most
-- what was captured, which is at most what was authorized.
pub record IsLifecycle (first : PaymentEvent) (later : List PaymentEvent) : Type 0 where
  pub consecutive : versions (first ∷ later) ≡ range 1 (length (first ∷ later))
  pub authorized_first : is_authorization first ≡ true
  pub authorized_once : All (λ e. is_authorization e ≡ false) later
  pub captured_next :
      (e : PaymentEvent) (rest : List PaymentEvent) → later ≡ e ∷ rest → is_capture e ≡ true
  pub same_party : All (SameParty first) later
  pub within_authorized : captured_minor (first ∷ later) ≤ first.amount_minor
  pub within_captured :
      refunded_minor (first ∷ later) + chargeback_minor (first ∷ later)
      ≤ captured_minor (first ∷ later)

All-map :
    (P : String → Type 0) (f : PaymentEvent → String) (l : List PaymentEvent)
    → All P (map f l)
    → All (λ e. P (f e)) l
All-map P f [] h = tt
All-map P f (e ∷ l) (h, more) = (h, All-map P f l more)

zip-All :
    (P Q R : PaymentEvent → Type 0) (l : List PaymentEvent)
    → All P l
    → All Q l
    → All R l
    → All (λ e. P e × Q e × R e) l
zip-All P Q R [] p q r = tt
zip-All P Q R (e ∷ l) (p, ps) (q, qs) (r, rs) = ((p, q, r), zip-All P Q R l ps qs rs)

none_selected :
    (p : PaymentEvent → Bool) (l : List PaymentEvent)
    → length (filter p l) ≡ 0
    → All (λ e. p e ≡ false) l
none_selected p [] h = tt
none_selected p (e ∷ l) h = elim (Bool-cases (p e)) [
  | inl selected ↦ absurd (ground arith)
  | inr other ↦ (other, none_selected p l (ground arith))
]

nil_lem : (l : List PaymentEvent) → length l ≡ 0 → l ≡ []
nil_lem [] h = refl
nil_lem (e ∷ l) h = absurd (ground arith)

-- A reversal that comes second has no capture before it.
second_lem :
    (first e : PaymentEvent) (rest : List PaymentEvent)
    → FlowHolds (first ∷ e ∷ rest)
    → All (λ v. e.transaction_version ≤ v) (versions rest)
    → is_authorization first ≡ true
    → is_authorization e ≡ false
    → is_capture e ≡ true
second_lem first e rest f bound starts other = elim (kind_lem e) [
  | inl again ↦ absurd (ground arith)
  | inr (inl captured) ↦ captured
  | inr (inr returns) ↦ absurd (
      ground (
        arith,
        not_authorization first,
        not_capture e,
        f.captured,
        f.reversals_after,
        le_some-filter e (versions (filter is_reversal rest)) is_capture rest bound,
      ))
]

module _ (first : PaymentEvent) (later : List PaymentEvent) (o : OrderHolds (first ∷ later))
    (f : FlowHolds (first ∷ later)) (r : Rises (versions (first ∷ later))) where
  parties : All (SameParty first) later
  parties =
      zip-All _ _ _ later
        (All-map (λ s. s ≡ first.currency) (λ e. e.currency) later
          (single_lem first.currency _ o.currency))
        (All-map (λ s. s ≡ first.processor_id) (λ e. e.processor_id) later
          (single_lem first.processor_id _ o.processor))
        (All-map (λ s. s ≡ first.merchant_id) (λ e. e.merchant_id) later
          (single_lem first.merchant_id _ o.merchant))

  starts : is_authorization first ≡ true
  starts = elim (kind_lem first) [
    | inl begins ↦ begins
    | inr (inl captures_first) ↦ absurd (
        ground (
          arith,
          not_authorization first,
          f.captures_after,
          f.authorized,
          le_some-head first (versions (filter is_capture later)) is_authorization later r.0,
        ))
    | inr (inr returns_first) ↦ absurd (
        ground (
          arith,
          not_capture first,
          f.captured,
          f.reversals_after,
          le_some-filter first (versions (filter is_reversal later)) is_capture later r.0,
        ))
  ]

  rest_once : All (λ e. is_authorization e ≡ false) later
  rest_once = none_selected is_authorization later (ground (arith, f.once, starts))

  authorized_by_first : authorized_minor (first ∷ later) ≡ first.amount_minor
  unfolding authorized_minor sum
  authorized_by_first =
      let alone : filter is_authorization later ≡ [] =
        nil_lem (filter is_authorization later) (ground (arith, f.once, starts)) in
      rw (starts, alone) (omega arith)

  next : (e : PaymentEvent) (rest : List PaymentEvent) → later ≡ e ∷ rest → is_capture e ≡ true
  next e rest shape =
      let flow : FlowHolds (first ∷ e ∷ rest) = subst (λ l. FlowHolds (first ∷ l)) shape f in
      let rises : Rises (versions (e ∷ rest)) = subst (λ l. Rises (versions l)) shape r.1 in
      let others : All (λ x. is_authorization x ≡ false) (e ∷ rest) =
        subst (All (λ x. is_authorization x ≡ false)) shape rest_once in
      second_lem first e rest flow rises.0 starts others.0

-- A history in the order of its versions that the assessment passes is a payment's history.
pub assess-IsLifecycle :
    (first : PaymentEvent) (later : List PaymentEvent)
    → Rises (versions (first ∷ later))
    → assess (first ∷ later) ≡ none
    → IsLifecycle first later
assess-IsLifecycle first later r passed =
    let (order, flow) = assess-parts (first ∷ later) passed in
    let o = assess_order-OrderHolds (first ∷ later) order in
    let f = assess_flow-FlowHolds (first ∷ later) flow in
    record {
      consecutive =
          consecutive_lem (versions (first ∷ later))
            (o.different ∙ sym (length-versions (first ∷ later))) o.lowest
            (o.highest ∙ ap some (sym (length-versions (first ∷ later)))) r
          ∙ ap (range 1) (length-versions (first ∷ later));
      authorized_first = starts first later o f r;
      authorized_once = rest_once first later o f r;
      captured_next = next first later o f r;
      same_party = parties first later o f r;
      within_authorized = omega (arith, f.within_authorized, authorized_by_first first later o f r);
      within_captured = f.within_captured;
    }
