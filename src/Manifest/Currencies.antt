-- ===== src/Manifest/Currencies.antt =====
-- The currencies of the control totals of ledgerflow/manifest.py: each currency of the file once.
use ledgerflow_payment_recon.Prelude.{
  String, ◌≡◌, refl, ap, ◌∙◌, true, false, ◌||◌, List, [], ◌∷◌, ◌++◌, map, Option, none, some, ◌==◌,
  eq_String, eq_iff, arith, Bool-cases, inl, inr, if◌then◌else◌,
}
use ledgerflow_payment_recon.Prelude.Int.{ℤ}
use ledgerflow_payment_recon.Prelude.Sets.{contains}
use ledgerflow_payment_recon.Prelude.Order.{order_String, insert_by, sort_by}
use ledgerflow_payment_recon.Prelude.Sorted.{insert_by-All, sort_by-All}
use ledgerflow_payment_recon.Json.{Fields, get, get_text}
use ledgerflow_payment_recon.Manifest.Build.{
  Totals, add_total, plain_int, count_amount, count_event, totals_of, sorted_totals,
}
use ledgerflow_payment_recon.Manifest.Totals.{IsDict, totals_of-IsDict}

-- The currency of an event that has one and an integer amount.
counted : Option ℤ → Option String → List String
counted (some n) (some c) = c ∷ []
counted amount currency = []

-- The currencies of the events that count, each as often as it occurs.
unfoldable pub counted_currencies : List Fields → List String
unfolding counted
counted_currencies [] = []
counted_currencies (e ∷ events) =
    counted (plain_int (get "amount_minor" e)) (get_text "currency" e) ++ counted_currencies events

abbrev pub names : Totals → List String
names totals = map (λ (t : String × ℤ). t.0) totals

-- The totals have each currency of the events once, and no other.
pub record AreOfCurrencies (events : List Fields) (ts : Totals) : Type 0 where
  pub once : IsDict ts
  pub same : (c : String) → contains c (names ts) ≡ contains c (counted_currencies events)

contains-append :
    (c : String) (xs ys : List String) → contains c (xs ++ ys) ≡ (contains c xs || contains c ys)
contains-append c [] ys = refl
contains-append c (x ∷ xs) ys = ground (arith, contains-append c xs ys)

contains-add :
    (c k : String) (n : ℤ) (totals : Totals)
    → contains c (names (add_total k n totals)) ≡ (contains c (names totals) || (c == k))
unfolding add_total
contains-add c k n [] = ground arith
contains-add c k n ((j, m) ∷ rest) =
    ground (arith, contains-add c k n rest, eq_iff j k, eq_iff c j, eq_iff c k)

contains-count :
    (c : String) (amount : Option ℤ) (currency : Option String) (totals : Totals)
    → contains c (names (count_amount amount currency totals))
      ≡ (contains c (names totals) || contains c (counted amount currency))
unfolding count_amount counted
contains-count c (some n) (some k) totals = ground (arith, contains-add c k n totals)
contains-count c (some n) none totals = ground arith
contains-count c none currency totals = ground arith

contains-totals :
    (c : String) (events : List Fields) (totals : Totals)
    → contains c (names (totals_of events totals))
      ≡ (contains c (names totals) || contains c (counted_currencies events))
unfolding totals_of count_event counted_currencies
contains-totals c [] totals = ground arith
contains-totals c (e ∷ events) totals =
    let amount = plain_int (get "amount_minor" e) in
    let currency = get_text "currency" e in
    ground (
      arith,
      contains-totals c events (count_amount amount currency totals),
      contains-count c amount currency totals,
      contains-append c (counted amount currency) (counted_currencies events),
    )

abbrev currency : String × ℤ → String
currency t = t.0

contains-insert :
    (c : String) (x : String × ℤ) (l : Totals)
    → contains c (names (insert_by currency x l)) ≡ contains c (names (x ∷ l))
unfolding insert_by
contains-insert c x [] = refl
contains-insert c x (y ∷ l) = elim (Bool-cases (order_String.le x.0 y.0)) [
  | inl first ↦ rw first refl
  | inr after ↦ rw after (ground (arith, contains-insert c x l))
]

contains-sort :
    (c : String) (l : Totals) → contains c (names (sort_by currency l)) ≡ contains c (names l)
unfolding sort_by
contains-sort c [] = refl
contains-sort c (x ∷ l) =
    contains-insert c x (sort_by currency l)
    ∙ ap (λ b. if c == x.0 then true else b) (contains-sort c l)

IsDict-insert : (x : String × ℤ) (l : Totals) → IsDict (x ∷ l) → IsDict (insert_by currency x l)
unfolding insert_by
IsDict-insert x [] d = d
IsDict-insert x (y ∷ l) ((apart, later), (others, rest)) =
    elim (Bool-cases (order_String.le x.0 y.0)) [
      | inl first ↦ rw first ((apart, later), (others, rest))
      | inr after ↦
          let turned : (y.0 == x.0) ≡ false =
            ground (arith, apart, eq_iff x.0 y.0, eq_iff y.0 x.0) in
          rw after (
            insert_by-All currency (λ (t : String × ℤ). (y.0 == t.0) ≡ false) x l turned others,
            IsDict-insert x l (later, rest),
          )
    ]

IsDict-sort : (l : Totals) → IsDict l → IsDict (sort_by currency l)
unfolding sort_by
IsDict-sort [] d = tt
IsDict-sort (x ∷ l) (apart, d) =
    IsDict-insert x (sort_by currency l) (sort_by-All currency _ l apart, IsDict-sort l d)

pub sorted_totals-AreOfCurrencies :
    (events : List Fields) → AreOfCurrencies events (sorted_totals (totals_of events []))
unfolding sorted_totals
sorted_totals-AreOfCurrencies events = record {
  once = IsDict-sort (totals_of events []) (totals_of-IsDict events [] tt);
  same = λ c. contains-sort c (totals_of events []) ∙ contains-totals c events [];
}
