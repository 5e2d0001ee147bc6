-- ===== src/Store/Settlement/Exact.antt =====
-- `reconcile_settlement` of ledgerflow/store.py against the sums of its two sides.
use ledgerflow_payment_recon.Prelude.{
  ◌≡◌, refl, sym, ap, ◌∙◌, true, false, List, [], ◌∷◌, ◌++◌, map, All, length, arith, ◌==◌, eq_ℕ,
  eq_String, eq_pair, Bool-cases, inl, inr, ◌↔◌, Eq, if◌then◌else◌,
}
use ledgerflow_payment_recon.Prelude.Int.{ℤ, pos, ◌-ℤ◌, int_laws, zero-+ℤ}
use ledgerflow_payment_recon.Prelude.Order.{Order, insert_by, sort_by, order_String, order_pair}
use ledgerflow_payment_recon.Prelude.Sets.{contains, distinct, contains-distinct}
use ledgerflow_payment_recon.Prelude.Result.{ok, >>=-eq-ok, Result-cases}
use ledgerflow_payment_recon.Store.Tables.{Tables, SettlementRow}
use ledgerflow_payment_recon.Store.Amounts.{amount_or_zero}
use ledgerflow_payment_recon.Store.Amounts.Laws.{amount_missing}
use ledgerflow_payment_recon.Store.Settlement.{
  Key, Report, group_posted, actual_amounts, insert_actuals, all_keys, compare_keys, settle,
  absolute_delta, commit_settlement, reconcile_settlement, cleared,
}
use ledgerflow_payment_recon.Store.Settlement.Sums.{
  expected_for, actual_for, amount-group_posted, Loaded, insert_actuals-Loaded,
}
use ledgerflow_payment_recon.Store.Settlement.Gate.{
  delta_for, IsExact, Settled, compare_keys-Settled, sub_self, difference, no_exact_row,
}

module _ {K : Type 0} ⦃e : Eq K⦄ ⦃o : Order K⦄ where
  contains-insert_by :
      (k j : K) (l : List K)
      → contains k (insert_by (λ x. x) j l) ≡ (if k == j then true else contains k l)
  unfolding insert_by
  contains-insert_by k j [] = refl
  contains-insert_by k j (x ∷ l) = ground (arith, contains-insert_by k j l)

  contains-sort_by : (k : K) (l : List K) → contains k (sort_by (λ x. x) l) ≡ contains k l
  unfolding sort_by
  contains-sort_by k [] = refl
  contains-sort_by k (x ∷ l) =
      contains-insert_by k x (sort_by (λ x. x) l)
      ∙ ap (λ b. if k == x then true else b) (contains-sort_by k l)

  contains-append_false :
      (k : K) (l m : List K)
      → contains k (l ++ m) ≡ false
      → (contains k l ≡ false) × (contains k m ≡ false)
  contains-append_false k [] m h = (refl, h)
  contains-append_false k (x ∷ l) m h = ground (arith, contains-append_false k l m)

-- A key that the loop does not visit is on neither side.
unvisited :
    (k : Key) (expected actual : List (Key × ℤ))
    → contains k (all_keys expected actual) ≡ false
    → (amount_or_zero k expected ≡ pos 0) × (amount_or_zero k actual ≡ pos 0)
unfolding all_keys
unvisited k expected actual h =
    let names = map (λ (g : Key × ℤ). g.0) expected ++ map (λ (g : Key × ℤ). g.0) actual in
    let apart =
      contains-append_false k (map (λ (g : Key × ℤ). g.0) expected)
        (map (λ (g : Key × ℤ). g.0) actual)
        (sym (contains-sort_by k (distinct names) ∙ contains-distinct k names) ∙ h) in
    (amount_missing k expected apart.0, amount_missing k actual apart.1)

-- What the statements before COMMIT have done when they end.
record Done (actual : List SettlementRow) (t t' : Tables) : Type 0 where
  loaded : Tables
  expected : List (Key × ℤ)
  rows : Loaded actual [] (cleared t) loaded
  group : group_posted loaded.posted_event [] ≡ ok expected
  compare :
      compare_keys
        (all_keys expected (actual_amounts actual []))
        expected
        (actual_amounts actual [])
        loaded
      ≡ ok t'

settle-Done :
    (actual : List SettlementRow) (t t' : Tables) → settle actual t ≡ ok t' → Done actual t t'
unfolding settle actual_for amount_or_zero
settle-Done actual t t' h =
    let (t₁, first, later) = >>=-eq-ok (insert_actuals actual (cleared t)) _ h in
    let (expected, second, last) = >>=-eq-ok (group_posted t₁.posted_event []) _ later in
    record {
      loaded = t₁;
      expected = expected;
      rows = insert_actuals-Loaded actual [] (cleared t) t₁ first (λ k. refl);
      group = second;
      compare = last;
    }

-- The two sides of one key are the sums over the rows.
expected_side :
    (k : Key) (actual : List SettlementRow) (t t' : Tables) (d : Done actual t t')
    → amount_or_zero k d.expected ≡ expected_for k t.posted_event
unfolding amount_or_zero
expected_side k actual t t' d =
    amount-group_posted k d.loaded.posted_event [] d.expected d.group
    ∙ zero-+ℤ (expected_for k d.loaded.posted_event)
    ∙ ap (expected_for k) d.rows.posted

actual_side :
    (k : Key) (actual : List SettlementRow) (t t' : Tables) (d : Done actual t t')
    → amount_or_zero k (actual_amounts actual []) ≡ actual_for k actual
actual_side k actual t t' d = d.rows.read k ∙ ap (actual_for k) d.rows.stored

empty_lem : {A : Type 0} (l : List A) → (length l == 0) ≡ true → l ≡ []
empty_lem [] h = refl
empty_lem (x ∷ l) h = absurd (ground arith)

sub_same : (n : ℤ) → n -ℤ n ≡ pos 0
sub_same n = omega int_laws

module _ (actual : List SettlementRow) (t t' : Tables) (d : Done actual t t') where
  -- What posting expects for a key, less what the processor reports.
  shortfall :
      (k : Key)
      → difference d.expected (actual_amounts actual []) k
        ≡ expected_for k t.posted_event -ℤ actual_for k actual
  shortfall k = rw (expected_side k actual t t' d, actual_side k actual t t' d) refl

  settled :
      Settled d.expected
        (actual_amounts actual [])
        (all_keys d.expected (actual_amounts actual []))
        d.loaded
        t'
  settled = compare_keys-Settled d.expected (actual_amounts actual []) _ d.loaded t' d.compare

  -- A key that no row has agrees; the exceptions of the others are their differences.
  deltas :
      (k : Key)
      → delta_for k t'.settlement_exception ≡ expected_for k t.posted_event -ℤ actual_for k actual
  unfolding delta_for
  deltas k =
      let rows = actual_amounts actual [] in
      let start : delta_for k d.loaded.settlement_exception ≡ pos 0 =
        ap (delta_for k) d.rows.exceptions in
      settled.delta k (inl start) ∙ elim (Bool-cases (contains k (all_keys d.expected rows))) [
        | inl visited ↦ rw visited (shortfall k)
        | inr other ↦
            let (e, a) = unvisited k d.expected rows other in
            rw other (start ∙ sym (rw (e, a) (sub_same (pos 0))) ∙ shortfall k)
      ]

  rows-IsExact : All (IsExact d.expected (actual_amounts actual [])) t'.settlement_exception
  rows-IsExact = settled.exact (rw d.rows.exceptions tt)

  -- There is no exception exactly where every key agrees.
  gate :
      ((length t'.settlement_exception == 0) ≡ true)
      ↔ ((k : Key) → expected_for k t.posted_event ≡ actual_for k actual)
  unfolding delta_for
  gate = (
    λ empty k.
        sub_self _ _ (sym (deltas k) ∙ ap (delta_for k) (empty_lem t'.settlement_exception empty)),
    λ agree.
        no_exact_row d.expected (actual_amounts actual []) t'.settlement_exception rows-IsExact
          (λ k. shortfall k ∙ rw (agree k) (sub_same (actual_for k actual))),
  )

-- If reconcile_settlement returns, the exceptions of every key add up to the captures less the
-- refunds and chargebacks posted for it, less what the processor reports, and the report says
-- reconciled exactly where the two sides agree for every key.
pub reconcile_settlement_exact :
    (actual : List SettlementRow) (t : Tables) (report : Report)
    → (reconcile_settlement actual t).1 ≡ ok report
    → ((k : Key)
        → delta_for k (reconcile_settlement actual t).0.settlement_exception
          ≡ expected_for k t.posted_event -ℤ actual_for k actual)
      × ((report.settlement_reconciled ≡ true)
          ↔ ((k : Key) → expected_for k t.posted_event ≡ actual_for k actual))
unfolding reconcile_settlement commit_settlement
reconcile_settlement_exact actual t report returned = elim (Result-cases (settle actual t)) [
  | inl (t', done) ↦
      let d = settle-Done actual t t' done in
      let (total, summed, last) =
        >>=-eq-ok (absolute_delta t'.settlement_exception (pos 0)) _ (rw done at returned) in
      let flag : report.settlement_reconciled ≡ (length t'.settlement_exception == 0) = cc last in
      rw done (deltas actual t t' d, rw flag (gate actual t t' d))
  | inr (e, failing) ↦ absurd (cc (rw failing at returned))
]
