-- ===== src/Spark/Posting/Gate.antt =====
-- The double-entry gate of spark_jobs/post_ledger.py, and its lines against those of
-- ledgerflow/ledger.py.
use ledgerflow_payment_recon.Prelude.{
  ℕ, String, ◌≡◌, refl, sym, ap, ◌∙◌, true, not, List, [], ◌∷◌, ◌++◌, map, filter, All, arith, ◌==◌,
  eq_String, eq_pair, Bool-cases, inl, inr,
}
use ledgerflow_payment_recon.Prelude.Int.{
  ℤ, pos, neg, negsuc, pos_part, neg_part, ◌+ℤ◌, ◌*ℤ◌, eq_ℤ, int_eq_iff, int_laws, zero-+ℤ,
  +ℤ_assoc, *ℤ_parts,
}
use ledgerflow_payment_recon.Prelude.Text.{decimal}
use ledgerflow_payment_recon.Prelude.Sets.{distinct}
use ledgerflow_payment_recon.Prelude.Result.{ok}
use ledgerflow_payment_recon.Contracts.{
  PaymentEvent, EventType, authorization, capture, refund, chargeback,
}
use ledgerflow_payment_recon.Ledger.{entry_id, posting_line, lines_from, build_postings}
use ledgerflow_payment_recon.Ledger.Posting.{event_lines, build_postings-eq-ok}
use ledgerflow_payment_recon.Ledger.Config.{config_rules, config_rules-IsBalancedRules}
use ledgerflow_payment_recon.Spark.Posting.{
  TimedLine, is_monetary, debit_account, credit_account, timed_line, debit, credit, balance_key,
  balance, unbalanced, gate, posting_lines,
}

balance-append :
    (k : String × String) (a b : List TimedLine) → balance k (a ++ b) ≡ balance k a +ℤ balance k b
unfolding balance
balance-append k [] b = sym (zero-+ℤ (balance k b))
balance-append k (l ∷ a) b = rw (balance-append k a b) (sym (+ℤ_assoc _ _ _))

opposite_lem : (n a b : ℤ) → a +ℤ b ≡ pos 0 → (n +ℤ a) +ℤ (neg n +ℤ b) ≡ pos 0
opposite_lem n a b h = omega (int_laws, ap pos_part h, ap neg_part h)

balance_opposite :
    (k : String × String) (events : List PaymentEvent)
    → balance k (map debit events) +ℤ balance k (map credit events) ≡ pos 0
unfolding balance debit credit timed_line neg
balance_opposite k [] = zero-+ℤ (pos 0)
balance_opposite k (e ∷ events) = elim (Bool-cases (k == (e.event_id, e.currency))) [
  | inl same ↦ rw same (opposite_lem (pos e.amount_minor) _ _ (balance_opposite k events))
  | inr other ↦ rw other (opposite_lem (pos 0) _ _ (balance_opposite k events))
]

abbrev pub lines_of : List PaymentEvent → List TimedLine
lines_of events = map debit events ++ map credit events

balanced_lem :
    (k : String × String) (events : List PaymentEvent)
    → (balance k (lines_of events) == pos 0) ≡ true
balanced_lem k events =
    (int_eq_iff _ (pos 0)).1
      (balance-append k (map debit events) (map credit events) ∙ balance_opposite k events)

unbalanced-nil : (events : List PaymentEvent) → unbalanced (lines_of events) ≡ []
unfolding unbalanced
unbalanced-nil events = none_left (distinct (map balance_key (lines_of events)))
  where
    none_left :
        (ks : List (String × String))
        → filter (λ k. not (balance k (lines_of events) == pos 0)) ks ≡ []
    none_left [] = refl
    none_left (k ∷ ks) = rw (balanced_lem k events) (none_left ks)

times_one : (n : ℕ) → pos n *ℤ pos 1 ≡ pos n
times_one n = omega (int_laws, *ℤ_parts n (pos 1))

times_minus_one : (n : ℕ) → pos n *ℤ negsuc 0 ≡ neg (pos n)
times_minus_one n = omega (int_laws, *ℤ_parts n (negsuc 0))

same_lines :
    (e : PaymentEvent)
    → is_monetary e ≡ true
    → event_lines e config_rules ≡ (debit e).line ∷ (credit e).line ∷ []
unfolding debit credit timed_line debit_account credit_account lines_from posting_line entry_id
    decimal
same_lines e h = by_kind e.event_type refl
  where
    by_kind :
        (k : EventType)
        → e.event_type ≡ k
        → event_lines e config_rules ≡ (debit e).line ∷ (credit e).line ∷ []
    by_kind authorization kind = absurd (ground arith)
    by_kind capture kind = rw (kind, times_one e.amount_minor, times_minus_one e.amount_minor) refl
    by_kind refund kind = rw (kind, times_one e.amount_minor, times_minus_one e.amount_minor) refl
    by_kind chargeback kind =
        rw (kind, times_one e.amount_minor, times_minus_one e.amount_minor) refl

SameLines : PaymentEvent → Type 0
SameLines e = build_postings e config_rules ≡ ok ((debit e).line ∷ (credit e).line ∷ [])

same_postings : (events : List PaymentEvent) → All SameLines (filter is_monetary events)
unfolding SameLines
same_postings [] = tt
same_postings (e ∷ events) = elim (Bool-cases (is_monetary e)) [
  | inl monetary ↦ rw monetary (
    build_postings-eq-ok e config_rules config_rules-IsBalancedRules
        ∙ ap ok (same_lines e monetary),
    same_postings events,
  )
  | inr other ↦ rw other (same_postings events)
]

-- The Spark job's posting_lines never fails its double-entry gate; it returns a debit and a
-- credit for each capture, refund and chargeback, and those are the lines that build_postings
-- gives the event under the rules of config/posting_rules.json.
pub posting_lines-build_postings :
    (events : List PaymentEvent)
    → (posting_lines events ≡ ok (lines_of (filter is_monetary events)))
      × All
          (λ e. build_postings e config_rules ≡ ok ((debit e).line ∷ (credit e).line ∷ []))
          (filter is_monetary events)
unfolding posting_lines gate SameLines
posting_lines-build_postings events =
    (rw (unbalanced-nil (filter is_monetary events)) refl, same_postings events)
