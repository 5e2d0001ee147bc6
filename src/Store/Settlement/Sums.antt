-- ===== src/Store/Settlement/Sums.antt =====
-- The two sides of the settlement comparison in ledgerflow/store.py, as sums over the rows.
use ledgerflow_payment_recon.Prelude.{
  ◌≡◌, refl, sym, ap, ◌∙◌, true, false, List, [], ◌∷◌, ◌++◌, any, arith, ◌==◌, eq_String, eq_pair,
  pair_eq_iff, Bool-cases, ◌⊎◌, inl, inr, if◌then◌else◌,
}
use mathlib.Core.List.{append-nil, append_assoc}
use ledgerflow_payment_recon.Prelude.Int.{ℤ, pos, ◌+ℤ◌, +ℤ_zero, zero-+ℤ, +ℤ_assoc}
use ledgerflow_payment_recon.Prelude.Result.{ok, >>=-eq-ok}
use ledgerflow_payment_recon.Store.Tables.{Tables, PostedRow, SettlementRow}
use ledgerflow_payment_recon.Store.Amounts.{add_to_key, amount_or_zero, put_amount}
use ledgerflow_payment_recon.Store.Amounts.Laws.{amount-add_to_key, amount-put_amount}
use ledgerflow_payment_recon.Store.Settlement.{
  Key, posted_key, signed_amount, group_posted, actual_key, actual_amounts, insert_actual,
  insert_actuals,
}

-- Captures less refunds and chargebacks of one key.
unfoldable pub expected_for : Key → List PostedRow → ℤ
expected_for k [] = pos 0
expected_for k (row ∷ rows) =
    (if k == posted_key row then signed_amount row.event_type row.amount_minor else pos 0)
    +ℤ expected_for k rows

-- What the processor reports for one key.
unfoldable pub actual_for : Key → List SettlementRow → ℤ
actual_for k [] = pos 0
actual_for k (row ∷ rows) =
    (if k == actual_key row then row.amount_minor else pos 0) +ℤ actual_for k rows

pub amount-group_posted :
    (k : Key) (rows : List PostedRow) (groups groups' : List (Key × ℤ))
    → group_posted rows groups ≡ ok groups'
    → amount_or_zero k groups' ≡ amount_or_zero k groups +ℤ expected_for k rows
unfolding group_posted expected_for
amount-group_posted k [] groups groups' h = ground (arith, +ℤ_zero (amount_or_zero k groups))
amount-group_posted k (row ∷ rows) groups groups' h =
    let (mid, first, rest) = >>=-eq-ok (add_to_key (posted_key row) _ groups) _ h in
    amount-group_posted k rows mid groups' rest
    ∙ ap (λ n. n +ℤ expected_for k rows)
        (amount-add_to_key k (posted_key row) (signed_amount row.event_type row.amount_minor) groups
          mid first)
    ∙ +ℤ_assoc _ _ _

actual_for-append :
    (k : Key) (row : SettlementRow) (rows : List SettlementRow)
    → actual_for k (rows ++ row ∷ [])
      ≡ actual_for k rows +ℤ (if k == actual_key row then row.amount_minor else pos 0)
unfolding actual_for
actual_for-append k row [] = rw (+ℤ_zero, zero-+ℤ)
actual_for-append k row (r ∷ rows) = rw (actual_for-append k row rows, +ℤ_assoc)

actual_for_missing :
    (k : Key) (rows : List SettlementRow)
    → any (λ (r : SettlementRow). actual_key r == k) rows ≡ false
    → actual_for k rows ≡ pos 0
unfolding actual_for
actual_for_missing k [] h = refl
actual_for_missing k (r ∷ rows) h = ground (
  arith,
  actual_for_missing k rows,
  pair_eq_iff k (actual_key r),
  pair_eq_iff (actual_key r) k,
  +ℤ_zero (pos 0),
)

-- A row that was inserted had a key that no earlier row has.
record Inserted (row : SettlementRow) (t t' : Tables) : Type 0 where
  fresh : any (λ (r : SettlementRow). actual_key r == actual_key row) t.settlement_actual ≡ false
  stored : t'.settlement_actual ≡ t.settlement_actual ++ row ∷ []
  posted : t'.posted_event ≡ t.posted_event
  exceptions : t'.settlement_exception ≡ t.settlement_exception

insert_actual-Inserted :
    (row : SettlementRow) (t t' : Tables) → insert_actual row t ≡ ok t' → Inserted row t t'
unfolding insert_actual
insert_actual-Inserted row t t' h = ground arith

-- What `insert_actuals` leaves, and that the dict beside it reads the same.
pub record Loaded (rows : List SettlementRow) (d : List (Key × ℤ)) (t t' : Tables) : Type 0 where
  pub stored : t'.settlement_actual ≡ t.settlement_actual ++ rows
  pub posted : t'.posted_event ≡ t.posted_event
  pub exceptions : t'.settlement_exception ≡ t.settlement_exception
  pub read :
      (k : Key) → amount_or_zero k (actual_amounts rows d) ≡ actual_for k t'.settlement_actual

put_reads :
    (row : SettlementRow) (d : List (Key × ℤ)) (t t' : Tables)
    → Inserted row t t'
    → ((k : Key) → amount_or_zero k d ≡ actual_for k t.settlement_actual)
    → (k : Key)
    → amount_or_zero k (put_amount (actual_key row) row.amount_minor d)
      ≡ actual_for k t'.settlement_actual
put_reads row d t t' i reads k =
    amount-put_amount k (actual_key row) row.amount_minor d
    ∙ by_test (Bool-cases (k == actual_key row))
    ∙ sym (ap (actual_for k) i.stored ∙ actual_for-append k row t.settlement_actual)
  where
    by_test :
        ((k == actual_key row) ≡ true) ⊎ ((k == actual_key row) ≡ false)
        → (if k == actual_key row then row.amount_minor else amount_or_zero k d)
          ≡ actual_for k t.settlement_actual
            +ℤ (if k == actual_key row then row.amount_minor else pos 0)
    by_test (inl same) = rw same (
        sym (
          ap (λ n. n +ℤ row.amount_minor)
            (ap (λ x. actual_for x t.settlement_actual) ((pair_eq_iff k (actual_key row)).0 same)
              ∙ actual_for_missing (actual_key row) t.settlement_actual i.fresh)
          ∙ zero-+ℤ row.amount_minor))
    by_test (inr other) = rw other (reads k ∙ sym (+ℤ_zero (actual_for k t.settlement_actual)))

pub insert_actuals-Loaded :
    (rows : List SettlementRow) (d : List (Key × ℤ)) (t t' : Tables)
    → insert_actuals rows t ≡ ok t'
    → ((k : Key) → amount_or_zero k d ≡ actual_for k t.settlement_actual)
    → Loaded rows d t t'
unfolding insert_actuals actual_amounts
insert_actuals-Loaded [] d t t' h reads =
    let e : t ≡ t' = cc h in
    rw (← e) (record {
      stored = sym (append-nil t.settlement_actual);
      posted = refl;
      exceptions = refl;
      read = reads;
    })
insert_actuals-Loaded (row ∷ rows) d t t' h reads =
    let (mid, first, rest) = >>=-eq-ok (insert_actual row t) (insert_actuals rows) h in
    let i = insert_actual-Inserted row t mid first in
    let l =
      insert_actuals-Loaded rows (put_amount (actual_key row) row.amount_minor d) mid t' rest
        (put_reads row d t mid i reads) in
    record {
      stored =
          l.stored
          ∙ ap (λ x. x ++ rows) i.stored
          ∙ append_assoc t.settlement_actual (row ∷ []) rows;
      posted = l.posted ∙ i.posted;
      exceptions = l.exceptions ∙ i.exceptions;
      read = l.read;
    }
