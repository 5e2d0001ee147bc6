-- ===== src/Spark/Posting/Rerun.antt =====
-- A second run of spark_jobs/post_ledger.py on the same events.
use mathlib.Core.List.{append-nil}
use ledgerflow_payment_recon.Prelude.{
  String, ◌≡◌, refl, Bool, true, false, not, List, [], ◌∷◌, ◌++◌, map, filter, All, arith,
  eq_String, eq_iff, if◌then◌else◌, Bool-cases, inl, inr,
}
use ledgerflow_payment_recon.Prelude.Sets.{contains}
use ledgerflow_payment_recon.Prelude.Result.{ok, >>=-eq-ok}
use ledgerflow_payment_recon.Contracts.{PaymentEvent}
use ledgerflow_payment_recon.Spark.Posting.{
  LedgerTables, TimedLine, insert_only, monetary_events, posting_lines, post_ledger,
}

module _ {A : Type 0} where
  weaken : (P Q : A → Type 0) (l : List A) → ((x : A) → P x → Q x) → All P l → All Q l
  weaken P Q [] f h = tt
  weaken P Q (x ∷ l) f (h, hs) = (f x h, weaken P Q l f hs)

  filter-nil : (q : A → Bool) (l : List A) → All (λ x. q x ≡ false) l → filter q l ≡ []
  filter-nil q [] h = refl
  filter-nil q (x ∷ l) (h, hs) = rw h (filter-nil q l hs)

module _ {A : Type 0} (key : A → String) where
  contains-append :
      (k : String) (a b : List A)
      → contains k (map key (a ++ b))
        ≡ (if contains k (map key a) then true else contains k (map key b))
  contains-append k [] b = refl
  contains-append k (x ∷ a) b = ground (arith, contains-append k a b)

  -- A selected row's key is among the keys of the selection.
  abbrev Selected : (A → Bool) → List A → A → Type 0
  Selected p s row = p row ≡ true → contains (key row) (map key (filter p s)) ≡ true

  Selected-later :
      (p : A → Bool) (x : A) (s : List A) (row : A) → Selected p s row → Selected p (x ∷ s) row
  Selected-later p x s row h chosen = elim (Bool-cases (p x)) [
    | inl first ↦ rw first (ground (arith, h chosen))
    | inr other ↦ rw other (h chosen)
  ]

  Selected_lem : (p : A → Bool) (s : List A) → All (Selected p s) s
  Selected_lem p [] = tt
  Selected_lem p (x ∷ s) =
      (here, weaken (Selected p s) (Selected p (x ∷ s)) s (Selected-later p x s) (Selected_lem p s))
    where
      here : Selected p (x ∷ s) x
      here chosen = rw (chosen, (eq_iff (key x) (key x)).1 refl) refl

  -- Merging the same rows again changes nothing.
  insert_only_again :
      (source target : List A)
      → insert_only key source (insert_only key source target) ≡ insert_only key source target
  unfolding insert_only
  insert_only_again source target =
      let fresh : A → Bool = λ row. not (contains (key row) (map key target)) in
      let merged = target ++ filter fresh source in
      rw
        (filter-nil (λ row. not (contains (key row) (map key merged))) source
          (weaken (Selected fresh source) _ source (known source target)
            (Selected_lem fresh source)))
        (append-nil merged)
    where
      known :
          (source target : List A) (row : A)
          → Selected (λ r. not (contains (key r) (map key target))) source row
          → not (
              contains
                (key row)
                (map key (target ++ filter (λ r. not (contains (key r) (map key target))) source)))
            ≡ false
      known source target row h = ground (
        arith,
        h,
        contains-append (key row) target
            (filter (λ r. not (contains (key r) (map key target))) source),
      )

-- A run of the post_ledger job that went through, run again on the same accepted events and
-- exceptions, changes neither the posted events nor the ledger.
pub post_ledger_again :
    (to_date : String → String) (business_date : String) (accepted : List PaymentEvent)
    (exception_ids : List String) (t t' : LedgerTables)
    → post_ledger to_date business_date accepted exception_ids t ≡ ok t'
    → post_ledger to_date business_date accepted exception_ids t' ≡ ok t'
unfolding post_ledger
post_ledger_again to_date business_date accepted exception_ids t t' h =
    let events = monetary_events to_date business_date accepted exception_ids in
    let (lines, gated, merged) = >>=-eq-ok (posting_lines events) _ h in
    let posted : t'.posted ≡ insert_only (λ e. e.event_id) events t.posted = cc merged in
    let ledger : t'.ledger ≡ insert_only (λ l. l.line.entry_id) lines t.ledger = cc merged in
    let same_posted : insert_only (λ e. e.event_id) events t'.posted ≡ t'.posted =
      rw posted (insert_only_again (λ (e : PaymentEvent). e.event_id) events t.posted) in
    let same_ledger : insert_only (λ l. l.line.entry_id) lines t'.ledger ≡ t'.ledger =
      rw ledger (insert_only_again (λ (l : TimedLine). l.line.entry_id) lines t.ledger) in
    rw (gated, same_posted, same_ledger) refl
