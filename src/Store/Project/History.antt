-- ===== src/Store/Project/History.antt =====
-- The history of one transaction as `_rebuild_projections` of ledgerflow/store.py selects it.
use mathlib.Core.Path.{subst}
use ledgerflow_payment_recon.Prelude.{
  ℕ, suc, ◌+◌, ◌≤◌, String, ◌≡◌, Bool, true, List, [], ◌∷◌, none, length, filter, All, arith, ◌==◌,
  eq_String, eq_iff, Bool-cases, inl, inr,
}
use ledgerflow_payment_recon.Prelude.Order.{order_String, order_ℕ, order_pair}
use ledgerflow_payment_recon.Prelude.Sorted.{IsSorted, sort_by-IsSorted, sort_by-All}
use ledgerflow_payment_recon.Contracts.{PaymentEvent}
use ledgerflow_payment_recon.Store.Lifecycle.{versions, assess}
use ledgerflow_payment_recon.Store.Lifecycle.Versions.{Rises, range}
use ledgerflow_payment_recon.Store.Lifecycle.Sound.{IsLifecycle, assess-IsLifecycle}
use ledgerflow_payment_recon.Store.Project.{history_key, history, last_event}

IsSorted-Rises : (l : List PaymentEvent) → IsSorted history_key l → Rises (versions l)
IsSorted-Rises [] h = tt
IsSorted-Rises (e ∷ l) (h, hs) = (below l h, IsSorted-Rises l hs)
  where
    below :
        (m : List PaymentEvent)
        → All (λ f. (order_pair {A = ℕ}).le (history_key e) (history_key f) ≡ true) m
        → All (λ v. e.transaction_version ≤ v) (versions m)
    below [] h = tt
    below (f ∷ m) (h, hs) = (ground arith, below m hs)

filter-holds :
    (p : PaymentEvent → Bool) (l : List PaymentEvent) → All (λ e. p e ≡ true) (filter p l)
filter-holds p [] = tt
filter-holds p (e ∷ l) = elim (Bool-cases (p e)) [
  | inl selected ↦ rw selected (selected, filter-holds p l)
  | inr other ↦ rw other (filter-holds p l)
]

of_transaction :
    (id : String) (events : List PaymentEvent)
    → All (λ e. (e.transaction_id == id) ≡ true) (history id events)
unfolding history
of_transaction id events =
    sort_by-All history_key _ _ (filter-holds (λ e. e.transaction_id == id) events)

last_event-All :
    (P : PaymentEvent → Type 0) (e : PaymentEvent) (es : List PaymentEvent)
    → All P (e ∷ es)
    → P (last_event e es)
unfolding last_event
last_event-All P e [] (h, hs) = h
last_event-All P e (f ∷ es) (h, hs) = last_event-All P f es hs

pub last_version :
    (lo : ℕ) (e : PaymentEvent) (es : List PaymentEvent)
    → versions (e ∷ es) ≡ range lo (suc (length es))
    → (last_event e es).transaction_version ≡ lo + length es
unfolding last_event range
last_version lo e [] h = ground arith
last_version lo e (f ∷ es) h = ground (arith, last_version (suc lo) f es)

module _ (id : String) (events : List PaymentEvent) (first : PaymentEvent)
    (later : List PaymentEvent) (shape : history id events ≡ first ∷ later) where
  pub history-IsLifecycle : assess (first ∷ later) ≡ none → IsLifecycle first later
  unfolding history
  history-IsLifecycle passed =
      assess-IsLifecycle first later
        (subst (λ l. Rises (versions l)) shape (IsSorted-Rises _ (sort_by-IsSorted history_key _)))
        passed

  pub same_transaction : All (λ e. e.transaction_id ≡ id) (first ∷ later)
  same_transaction =
      named (first ∷ later)
        (subst (All (λ e. (e.transaction_id == id) ≡ true)) shape (of_transaction id events))
    where
      named :
          (l : List PaymentEvent)
          → All (λ e. (e.transaction_id == id) ≡ true) l
          → All (λ e. e.transaction_id ≡ id) l
      named [] h = tt
      named (e ∷ l) (h, hs) = ((eq_iff e.transaction_id id).0 h, named l hs)

  pub last-transaction : (last_event first later).transaction_id ≡ id
  last-transaction = last_event-All (λ e. e.transaction_id ≡ id) first later same_transaction
