-- ===== src/Manifest/Totals.antt =====
-- The control totals of ledgerflow/manifest.py against the sums of the events.
use ledgerflow_payment_recon.Prelude.{
  suc, String, ◌≡◌, ◌≢◌, eq_ℕ, refl, sym, ap, ◌∙◌, true, false, List, [], ◌∷◌, length, All, Option,
  none, some, ◌==◌, eq_String, eq_iff, arith, Bool-cases, inl, inr, if◌then◌else◌,
}
use ledgerflow_payment_recon.Prelude.Int.{
  ℤ, pos, eq_ℤ, int_eq_iff, ◌+ℤ◌, zero-+ℤ, +ℤ_assoc, +ℤ_zero,
}
use ledgerflow_payment_recon.Prelude.Text.{text_cases, eq_false}
use ledgerflow_payment_recon.Prelude.Order.{order_String}
use ledgerflow_payment_recon.Prelude.Sorted.{sort_by-All}
use ledgerflow_payment_recon.Interleaving.{In}
use ledgerflow_payment_recon.Json.{int, object, Fields, get, keys, get_text, as_int}
use ledgerflow_payment_recon.Manifest.Build.{
  Totals, add_total, plain_int, count_amount, count_event, totals_of, sorted_totals, total_fields,
  number_of, is_number, has_totals, equals_totals,
}

-- What an event adds to a currency.
amount_in : String → Option ℤ → Option String → ℤ
amount_in c (some n) (some k) = if k == c then n else pos 0
amount_in c amount currency = pos 0

-- The sum of the integer amounts that the events have in a currency.
unfoldable pub amount_sum : String → List Fields → ℤ
unfolding amount_in
amount_sum c [] = pos 0
amount_sum c (e ∷ events) =
    amount_in c (plain_int (get "amount_minor" e)) (get_text "currency" e) +ℤ amount_sum c events

total_at : String → Totals → ℤ
total_at c [] = pos 0
total_at c ((k, m) ∷ rest) = let later = total_at c rest in if k == c then m else later

-- No key twice.
abbrev pub IsDict : Totals → Type 0
IsDict [] = Unit
IsDict ((k, m) ∷ rest) = All (λ (t : String × ℤ). (k == t.0) ≡ false) rest × IsDict rest

total_at-add :
    (c k : String) (n : ℤ) (totals : Totals)
    → total_at c (add_total k n totals) ≡ total_at c totals +ℤ (if k == c then n else pos 0)
unfolding total_at add_total
total_at-add c k n [] = elim (Bool-cases (k == c)) [
  | inl e ↦ rw e refl
  | inr e ↦ rw e (sym (+ℤ_zero (pos 0)))
]
total_at-add c k n ((j, m) ∷ rest) = elim (text_cases j k) [
  | inl e ↦
      let self : (j == j) ≡ true = (eq_iff j j).1 refl in
      rw (sym e, self)
        (elim (Bool-cases (j == c)) [
          | inl f ↦ rw f refl
          | inr f ↦ rw f (sym (+ℤ_zero (total_at c rest)))
        ])
  | inr apart ↦ rw (eq_false j k apart) (elim (text_cases j c) [
    | inl f ↦
        let self : (j == c) ≡ true = (eq_iff j c).1 f in
        let other : (k == c) ≡ false = eq_false k c (λ g. apart (f ∙ sym g)) in
        rw (self, other) (sym (+ℤ_zero m))
    | inr f ↦ rw (eq_false j c f) (total_at-add c k n rest)
  ])
]

apart-add :
    (j k : String) (n : ℤ) (totals : Totals)
    → (j == k) ≡ false
    → All (λ (t : String × ℤ). (j == t.0) ≡ false) totals
    → All (λ (t : String × ℤ). (j == t.0) ≡ false) (add_total k n totals)
unfolding add_total
apart-add j k n [] apart h = (apart, tt)
apart-add j k n ((i, m) ∷ rest) apart (h, hs) = elim (Bool-cases (i == k)) [
  | inl e ↦ rw e (h, hs)
  | inr e ↦ rw e (h, apart-add j k n rest apart hs)
]

IsDict-add : (k : String) (n : ℤ) (totals : Totals) → IsDict totals → IsDict (add_total k n totals)
unfolding add_total
IsDict-add k n [] d = (tt, tt)
IsDict-add k n ((j, m) ∷ rest) (h, d) = elim (Bool-cases (j == k)) [
  | inl e ↦ rw e (h, d)
  | inr e ↦ rw e (apart-add j k n rest e h, IsDict-add k n rest d)
]

count_event-at :
    (c : String) (amount : Option ℤ) (currency : Option String) (totals : Totals)
    → total_at c (count_amount amount currency totals)
      ≡ total_at c totals +ℤ amount_in c amount currency
unfolding count_amount amount_in
count_event-at c (some n) (some k) totals = total_at-add c k n totals
count_event-at c (some n) none totals = sym (+ℤ_zero _)
count_event-at c none currency totals = sym (+ℤ_zero _)

count_event-IsDict :
    (amount : Option ℤ) (currency : Option String) (totals : Totals)
    → IsDict totals
    → IsDict (count_amount amount currency totals)
unfolding count_amount
count_event-IsDict (some n) (some k) totals d = IsDict-add k n totals d
count_event-IsDict (some n) none totals d = d
count_event-IsDict none currency totals d = d

totals_of-at :
    (c : String) (events : List Fields) (totals : Totals)
    → total_at c (totals_of events totals) ≡ total_at c totals +ℤ amount_sum c events
unfolding totals_of count_event amount_sum
totals_of-at c [] totals = sym (+ℤ_zero _)
totals_of-at c (e ∷ events) totals =
    totals_of-at c events (count_event e totals)
    ∙ ap (λ (t : ℤ). t +ℤ amount_sum c events)
        (count_event-at c (plain_int (get "amount_minor" e)) (get_text "currency" e) totals)
    ∙ +ℤ_assoc _ _ _

pub totals_of-IsDict :
    (events : List Fields) (totals : Totals) → IsDict totals → IsDict (totals_of events totals)
unfolding totals_of count_event
totals_of-IsDict [] totals d = d
totals_of-IsDict (e ∷ events) totals d =
    totals_of-IsDict events (count_event e totals)
      (count_event-IsDict (plain_int (get "amount_minor" e)) (get_text "currency" e) totals d)

entries_at :
    (totals : Totals) → IsDict totals → All (λ (t : String × ℤ). total_at t.0 totals ≡ t.1) totals
unfolding total_at
entries_at [] d = tt
entries_at ((k, m) ∷ rest) (h, d) =
    let self : (k == k) ≡ true = (eq_iff k k).1 refl in
    (rw self refl, later rest h (entries_at rest d))
  where
    later :
        (ts : Totals)
        → All (λ (t : String × ℤ). (k == t.0) ≡ false) ts
        → All (λ (t : String × ℤ). total_at t.0 rest ≡ t.1) ts
        → All (λ (t : String × ℤ). total_at t.0 ((k, m) ∷ rest) ≡ t.1) ts
    later [] a b = tt
    later (t ∷ ts) (a, as_) (b, bs) = (rw a b, later ts as_ bs)

-- Each total of a manifest is the sum of the amounts in its currency.
abbrev pub IsSummed : List Fields → Totals → Type 0
IsSummed events = All (λ (t : String × ℤ). amount_sum t.0 events ≡ t.1)

pub sorted_totals-IsSummed :
    (events : List Fields) → IsSummed events (sorted_totals (totals_of events []))
unfolding sorted_totals total_at
sorted_totals-IsSummed events =
    sort_by-All (λ (t : String × ℤ). t.0) (λ (t : String × ℤ). amount_sum t.0 events ≡ t.1)
      (totals_of events [])
      (summed (totals_of events [])
        (entries_at (totals_of events []) (totals_of-IsDict events [] tt)))
  where
    summed :
        (ts : Totals)
        → All (λ (t : String × ℤ). total_at t.0 (totals_of events []) ≡ t.1) ts
        → All (λ (t : String × ℤ). amount_sum t.0 events ≡ t.1) ts
    summed [] h = tt
    summed (t ∷ ts) (h, hs) = (sym (zero-+ℤ _) ∙ sym (totals_of-at t.0 events []) ∙ h, summed ts hs)

All-In : {A : Type 0} (P : A → Type 0) (x : A) (l : List A) → All P l → In x l → P x
All-In P x [] h at = absurd at
All-In P x (y ∷ l) (h, hs) (inl e) = rw e h
All-In P x (y ∷ l) (h, hs) (inr m) = All-In P x l hs m

pub is_number-eq : (n : ℤ) (o : Option ℤ) → is_number n o ≡ true → o ≡ some n
unfolding is_number
is_number-eq n none h = cc
is_number-eq n (some k) h = ap some ((int_eq_iff k n).0 h)

get-total :
    (events : List Fields) (t : String × ℤ) (ts : Totals)
    → IsSummed events ts
    → In t ts
    → get t.0 (total_fields ts) ≡ some (int t.1)
unfolding get total_fields
get-total events t [] h at = absurd at
get-total events t ((k, m) ∷ rest) (h, hs) at = elim (text_cases k t.0) [
  | inl e ↦
      let self : (k == t.0) ≡ true = (eq_iff k t.0).1 e in
      let own =
        All-In (λ (t : String × ℤ). amount_sum t.0 events ≡ t.1) t ((k, m) ∷ rest) (h, hs) at in
      rw self (ap (λ n. some (int n)) (sym h ∙ ap (λ c. amount_sum c events) e ∙ own))
  | inr apart ↦ rw (eq_false k t.0 apart) (get-total events t rest hs (tail apart at))
]
  where
    tail : k ≢ t.0 → In t ((k, m) ∷ rest) → In t rest
    tail apart (inl e) = absurd (apart (sym (ap (λ (u : String × ℤ). u.0) e)))
    tail apart (inr later) = later

length-keys : (ts : Totals) → length (keys (total_fields ts)) ≡ length ts
unfolding keys total_fields
length-keys [] = refl
length-keys (t ∷ ts) = ap suc (length-keys ts)

has_totals-own :
    (float_int : String → Option ℤ) (events : List Fields) (all ts : Totals)
    → IsSummed events all
    → ((t : String × ℤ) → In t ts → In t all)
    → has_totals float_int ts (total_fields all) ≡ true
unfolding has_totals number_of is_number as_int
has_totals-own float_int events all [] summed sub = refl
has_totals-own float_int events all ((k, m) ∷ rest) summed sub =
    let found = get-total events (k, m) all summed (sub (k, m) (inl refl)) in
    let equal : (m == m) ≡ true = (int_eq_iff m m).1 refl in
    rw (found, equal)
      (has_totals-own float_int events all rest summed (λ t later. sub t (inr later)))

-- A dict of totals is equal to itself as it was written and read.
pub equals_totals-own :
    (float_int : String → Option ℤ) (events : List Fields)
    → equals_totals float_int
        (sorted_totals (totals_of events []))
        (some (object (total_fields (sorted_totals (totals_of events [])))))
      ≡ true
unfolding equals_totals
equals_totals-own float_int events =
    let ts = sorted_totals (totals_of events []) in
    let same : (length (keys (total_fields ts)) == length ts) ≡ true =
      ground (arith, length-keys ts) in
    rw (same, has_totals-own float_int events ts ts (sorted_totals-IsSummed events) (λ t m. m)) refl

-- What the comparison says of the manifest that was read.
pub has_totals-All :
    (float_int : String → Option ℤ) (ts : Totals) (fs : Fields)
    → has_totals float_int ts fs ≡ true
    → All (λ (t : String × ℤ). number_of float_int (get t.0 fs) ≡ some t.1) ts
unfolding has_totals
has_totals-All float_int [] fs h = tt
has_totals-All float_int ((k, m) ∷ rest) fs h =
    (is_number-eq m _ (ground (arith, h)), has_totals-All float_int rest fs (ground (arith, h)))
