-- ===== src/Store/Lifecycle/Order.antt =====
-- Where the first capture, reversal and authorization stand in a history that is in the order of its
-- versions (ledgerflow/store.py).
use Prim.Native.Nat.{min}
use ledgerflow_payment_recon.Prelude.{
  ℕ, suc, ◌≤◌, ◌≡◌, refl, ap, Bool, true, false, List, [], ◌∷◌, some, length, filter, All,
  All-filter, arith, ◌⊎◌, inl, inr, eq_String,
}
use ledgerflow_payment_recon.Prelude.Sets.{minimum}
use ledgerflow_payment_recon.Contracts.{
  EventType, PaymentEvent, authorization, capture, refund, chargeback,
}
use ledgerflow_payment_recon.Store.Lifecycle.{
  versions, le_some, is_empty, head_version, is_authorization, is_capture, is_reversal,
}

record Least (n x : ℕ) (xs : List ℕ) : Type 0 where
  least : ℕ
  found : minimum (x ∷ xs) ≡ some least
  above : n ≤ least
  below : least ≤ x

least_lem : (n x : ℕ) (xs : List ℕ) → n ≤ x → All (λ y. n ≤ y) xs → Least n x xs
unfolding minimum
least_lem n x [] h a = record { least = x; found = refl; above = h; below = omega arith }
least_lem n x (y ∷ ys) h (a, more) =
    let r = least_lem n y ys a more in
    record {
      least = min x r.least;
      found = rw r.found refl;
      above = ground (arith, r.above);
      below = ground arith;
    }

pub length-versions : (l : List PaymentEvent) → length (versions l) ≡ length l
length-versions [] = refl
length-versions (e ∷ l) = ap suc (length-versions l)

-- What starts at or before `n` is not later than what starts at or after it.
le_some_lem :
    (n x : ℕ) (xs : List ℕ) (y : ℕ) (ys : List ℕ)
    → x ≤ n
    → All (λ z. 0 ≤ z) xs
    → n ≤ y
    → All (λ z. n ≤ z) ys
    → le_some (minimum (x ∷ xs)) (minimum (y ∷ ys)) ≡ true
le_some_lem n x xs y ys h z k a =
    let l = least_lem 0 x xs (omega arith) z in
    let r = least_lem n y ys k a in rw (l.found, r.found) (ground (arith, l.below, r.above))

pub kind_lem :
    (e : PaymentEvent)
    → (is_authorization e ≡ true) ⊎ ((is_capture e ≡ true) ⊎ (is_reversal e ≡ true))
kind_lem e = by_kind e.event_type refl
  where
    by_kind :
        (k : EventType)
        → e.event_type ≡ k
        → (is_authorization e ≡ true) ⊎ ((is_capture e ≡ true) ⊎ (is_reversal e ≡ true))
    by_kind authorization h = inl (rw h refl)
    by_kind capture h = inr (inl (rw h refl))
    by_kind refund h = inr (inr (rw h refl))
    by_kind chargeback h = inr (inr (rw h refl))

pub not_authorization :
    (e : PaymentEvent) → (is_capture e ≡ true) ⊎ (is_reversal e ≡ true) → is_authorization e ≡ false
not_authorization e (inl h) = ground arith
not_authorization e (inr h) = ground arith

pub not_capture : (e : PaymentEvent) → is_reversal e ≡ true → is_capture e ≡ false
not_capture e h = ground arith

-- A version bound holds for the versions of a selection.
bound-filter :
    (n : ℕ) (p : PaymentEvent → Bool) (l : List PaymentEvent)
    → All (λ v. n ≤ v) (versions l)
    → All (λ v. n ≤ v) (versions (filter p l))
bound-filter n p l a =
    to_versions (filter p l) (All-filter (λ e. n ≤ e.transaction_version) p l (of_versions l a))
  where
    of_versions :
        (l : List PaymentEvent)
        → All (λ v. n ≤ v) (versions l)
        → All (λ e. n ≤ e.transaction_version) l
    of_versions [] a = tt
    of_versions (e ∷ l) (a, more) = (a, of_versions l more)

    to_versions :
        (l : List PaymentEvent)
        → All (λ e. n ≤ e.transaction_version) l
        → All (λ v. n ≤ v) (versions l)
    to_versions [] a = tt
    to_versions (e ∷ l) (a, more) = (a, to_versions l more)

naturals : (l : List ℕ) → All (λ z. 0 ≤ z) l
naturals [] = tt
naturals (x ∷ l) = (omega arith, naturals l)

-- An event at `n` stands at or before a selection of what comes after it.
pub le_some-filter :
    (e : PaymentEvent) (xs : List ℕ) (p : PaymentEvent → Bool) (l : List PaymentEvent)
    → All (λ v. e.transaction_version ≤ v) (versions l)
    → is_empty (filter p l) ≡ false
    → le_some (minimum (e.transaction_version ∷ xs)) (minimum (versions (filter p l))) ≡ true
le_some-filter e xs p l a some_left = by_list (filter p l) (bound-filter _ p l a) some_left
  where
    by_list :
        (m : List PaymentEvent)
        → All (λ v. e.transaction_version ≤ v) (versions m)
        → is_empty m ≡ false
        → le_some (minimum (e.transaction_version ∷ xs)) (minimum (versions m)) ≡ true
    by_list [] a h = absurd (ground arith)
    by_list (y ∷ m) (a, more) h =
        le_some_lem e.transaction_version e.transaction_version xs y.transaction_version
          (versions m) (omega arith) (naturals xs) a more

pub le_some-head :
    (e : PaymentEvent) (xs : List ℕ) (p : PaymentEvent → Bool) (l : List PaymentEvent)
    → All (λ v. e.transaction_version ≤ v) (versions l)
    → is_empty (filter p l) ≡ false
    → le_some (minimum (e.transaction_version ∷ xs)) (head_version (filter p l)) ≡ true
le_some-head e xs p l a some_left = by_list (filter p l) (bound-filter _ p l a) some_left
  where
    by_list :
        (m : List PaymentEvent)
        → All (λ v. e.transaction_version ≤ v) (versions m)
        → is_empty m ≡ false
        → le_some (minimum (e.transaction_version ∷ xs)) (head_version m) ≡ true
    by_list [] a h = absurd (ground arith)
    by_list (y ∷ m) (a, more) h =
        let r = least_lem 0 e.transaction_version xs (omega arith) (naturals xs) in
        rw r.found (ground (arith, r.below))
