-- ===== src/Ledger/Posting.antt =====
-- `build_postings` of ledgerflow/ledger.py under rules that the loader accepted.
use ledgerflow_payment_recon.Prelude.{
  ℕ, suc, String, ◌≡◌, sym, List, [], ◌∷◌, ◌&&◌, ◌==◌, eq_String, arith, if◌then◌else◌,
}
use ledgerflow_payment_recon.Prelude.Int.{
  ℤ, pos, ◌*ℤ◌, sum_ℤ, int_laws, *ℤ_parts, mul_pos_add, +ℤ_zero,
}
use ledgerflow_payment_recon.Prelude.Result.{ok}
use ledgerflow_payment_recon.Json.{Value}
use ledgerflow_payment_recon.Contracts.{PaymentEvent}
use ledgerflow_payment_recon.Ledger.{PostingRules, PostingLine, lines_from, build_postings}
use ledgerflow_payment_recon.Ledger.Rules.{
  IsBalancedRules, multipliers, load_posting_rules, load_posting_rules-IsBalancedRules,
}
use ledgerflow_payment_recon.Ledger.Balance.{posted_to, posted_total, assert_balanced_complete}

mul_zero : (n : ℕ) → pos n *ℤ pos 0 ≡ pos 0
mul_zero n = omega (int_laws, *ℤ_parts n (pos 0))

module _ (event : PaymentEvent) (version : ℕ) where
  -- The lines of one event post to its own group alone.
  posted_to-lines_from :
      (e c : String) (position : ℕ) (rule : List (String × ℤ))
      → posted_to e c (lines_from event version position rule) ≡ (
          if e == event.event_id && c == event.currency
          then pos event.amount_minor *ℤ sum_ℤ (multipliers rule)
          else pos 0)
  unfolding posted_to lines_from sum_ℤ
  posted_to-lines_from e c position [] = ground (arith, mul_zero event.amount_minor)
  posted_to-lines_from e c position ((account, multiplier) ∷ rule) = ground (
    arith,
    posted_to-lines_from e c (suc position) rule,
    mul_pos_add event.amount_minor multiplier (sum_ℤ (multipliers rule)),
    +ℤ_zero (pos 0),
  )

  posted_total-lines_from :
      (position : ℕ) (rule : List (String × ℤ))
      → posted_total (lines_from event version position rule)
        ≡ pos event.amount_minor *ℤ sum_ℤ (multipliers rule)
  unfolding posted_total lines_from sum_ℤ
  posted_total-lines_from position [] = sym (mul_zero event.amount_minor)
  posted_total-lines_from position ((account, multiplier) ∷ rule) = rw (
    posted_total-lines_from (suc position) rule,
    mul_pos_add event.amount_minor multiplier (sum_ℤ (multipliers rule)),
  )

-- The lines that `build_postings` builds before it checks them.
abbrev pub event_lines : PaymentEvent → PostingRules → List PostingLine
event_lines event rules = lines_from event rules.version 1 (rules.rules event.event_type)

pub posted_to-event_lines :
    (event : PaymentEvent) (rules : PostingRules)
    → IsBalancedRules rules
    → (e c : String) → posted_to e c (event_lines event rules) ≡ pos 0
posted_to-event_lines event rules h e c = ground (
  arith,
  posted_to-lines_from event rules.version e c 1 (rules.rules event.event_type),
  h.balanced event.event_type,
  mul_zero event.amount_minor,
)

-- Under balanced rules no event is refused: the result is one line for each entry of its rule.
pub build_postings-eq-ok :
    (event : PaymentEvent) (rules : PostingRules)
    → IsBalancedRules rules
    → build_postings event rules ≡ ok (event_lines event rules)
unfolding build_postings
build_postings-eq-ok event rules h =
    rw (assert_balanced_complete (event_lines event rules) (posted_to-event_lines event rules h))

pub posted_total-event_lines :
    (event : PaymentEvent) (rules : PostingRules)
    → IsBalancedRules rules
    → posted_total (event_lines event rules) ≡ pos 0
posted_total-event_lines event rules h = rw (
  posted_total-lines_from event rules.version 1 (rules.rules event.event_type),
  h.balanced event.event_type,
  mul_zero event.amount_minor,
)

-- Rules that load_posting_rules accepted post every event without an error, and the lines sum to
-- zero in total and for each event and currency.
pub build_postings_of_loaded :
    (v : Value) (rules : PostingRules) (event : PaymentEvent)
    → load_posting_rules v ≡ ok rules
    → (build_postings event rules ≡ ok (event_lines event rules))
      × (posted_total (event_lines event rules) ≡ pos 0)
      × ((e c : String) → posted_to e c (event_lines event rules) ≡ pos 0)
build_postings_of_loaded v rules event loaded =
    let h = load_posting_rules-IsBalancedRules v rules loaded in
    (
      build_postings-eq-ok event rules h,
      posted_total-event_lines event rules h,
      posted_to-event_lines event rules h,
    )
