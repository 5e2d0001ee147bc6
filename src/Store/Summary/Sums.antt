-- ===== src/Store/Summary/Sums.antt =====
-- The sums that `summary` of ledgerflow/store.py reads from the ledger, where SQLite returns them.
use ledgerflow_payment_recon.Prelude.{
  ℕ, String, ◌≡◌, refl, ◌∙◌, sym, ◌&&◌, not, List, [], ◌∷◌, filter, length, ◌==◌, eq_String, arith,
  Bool-cases, inl, inr,
}
use ledgerflow_payment_recon.Prelude.Int.{ℤ, pos, ◌+ℤ◌, eq_ℤ, +ℤ_zero, +ℤ_assoc, zero-+ℤ}
use ledgerflow_payment_recon.Prelude.Result.{Result, ok, err, ok_inj, ◌>>=◌, >>=-eq-ok}
use ledgerflow_payment_recon.Contracts.{Platform}
use ledgerflow_payment_recon.Ledger.{Group, PostingLine, add_to_group, group_lines}
use ledgerflow_payment_recon.Ledger.Balance.{posted_total}
use ledgerflow_payment_recon.Store.Tables.{Tables, StoreError, sum_overflow}
use ledgerflow_payment_recon.Store.Summary.{
  Summary, checked_sum, balance_from, add_checked, group_checked, unbalanced_groups, summary_of,
  summary,
}

checked_sum-eq : (a b c : ℤ) → checked_sum a b ≡ ok c → a +ℤ b ≡ c
unfolding checked_sum
checked_sum-eq a b c h = ground arith

balance_from-eq :
    (a : ℤ) (lines : List PostingLine) (b : ℤ)
    → balance_from a lines ≡ ok b
    → b ≡ a +ℤ posted_total lines
unfolding balance_from posted_total
balance_from-eq a [] b h = sym (ok_inj h) ∙ sym (+ℤ_zero a)
balance_from-eq a (line ∷ lines) b h =
    let (next, step, rest) = >>=-eq-ok (checked_sum a line.signed_minor) _ h in
    balance_from-eq next lines b rest
    ∙ rw (← checked_sum-eq a line.signed_minor next step) (+ℤ_assoc a line.signed_minor _)

add_checked-eq :
    (e c : String) (amount : ℤ) (grouped next : List Group)
    → add_checked e c amount grouped ≡ ok next
    → add_to_group e c amount grouped ≡ next
unfolding add_checked add_to_group
add_checked-eq e c amount [] next h =
    let (total, step, rest) = >>=-eq-ok (checked_sum (pos 0) amount) _ h in
    rw (checked_sum-eq (pos 0) amount total step) (ok_inj rest)
add_checked-eq e c amount ((e', c', total) ∷ rest) next h = elim (Bool-cases (e == e' && c == c')) [
  | inl same ↦
      let (sum, step, last) =
        >>=-eq-ok (checked_sum total amount) _ (rw (add_checked, same) at h) in
      rw (same, checked_sum-eq total amount sum step) (ok_inj last)
  | inr other ↦
      let (more, step, last) =
        >>=-eq-ok (add_checked e c amount rest) _ (rw (add_checked, other) at h) in
      rw (other, add_checked-eq e c amount rest more step) (ok_inj last)
]

group_checked-eq :
    (grouped : List Group) (lines : List PostingLine) (groups : List Group)
    → group_checked grouped lines ≡ ok groups
    → group_lines grouped lines ≡ groups
unfolding group_checked group_lines
group_checked-eq grouped [] groups h = ok_inj h
group_checked-eq grouped (line ∷ lines) groups h =
    let (next, step, rest) =
      >>=-eq-ok (add_checked line.event_id line.currency line.signed_minor grouped) _ h in
    rw (add_checked-eq line.event_id line.currency line.signed_minor grouped next step)
      (group_checked-eq next lines groups rest)

-- How many groups do not sum to zero.
abbrev pub unbalanced_count : List PostingLine → ℕ
unbalanced_count lines = length (filter (λ (g : Group). not (g.2 == pos 0)) (group_lines [] lines))

-- A summary that is returned has the groups and the total that the lines have as integers.
pub summary-eq-ok :
    (p : Platform) (run : String) (t : Tables) (s : Summary)
    → summary p run t ≡ ok s
    → s ≡ summary_of p run t (unbalanced_count t.ledger_entry) (posted_total t.ledger_entry)
unfolding summary unbalanced_groups
summary-eq-ok p run t s h =
    let (n, counted, later) = >>=-eq-ok (unbalanced_groups t.ledger_entry) _ h in
    let (groups, grouped, last) = >>=-eq-ok (group_checked [] t.ledger_entry) _ counted in
    let (b, balance, built) = >>=-eq-ok (balance_from (pos 0) t.ledger_entry) _ later in
    let total = balance_from-eq (pos 0) t.ledger_entry b balance ∙ zero-+ℤ _ in
    rw (group_checked-eq [] t.ledger_entry groups grouped, ← total, ok_inj last)
      (sym (ok_inj built))

-- An error of a block is that of its first step, or of what comes after.
>>=-only :
    {A B : Type 0} (step : Result StoreError A) (next : A → Result StoreError B) (e : StoreError)
    → ((d : StoreError) → step ≡ err d → d ≡ sum_overflow)
    → ((a : A) → next a ≡ err e → e ≡ sum_overflow)
    → (step >>= next) ≡ err e
    → e ≡ sum_overflow
>>=-only (err d) next e h k raised = let same : d ≡ e = cc in sym same ∙ h d refl
>>=-only (ok a) next e h k raised = k a raised

checked_sum-only : (a b : ℤ) (e : StoreError) → checked_sum a b ≡ err e → e ≡ sum_overflow
unfolding checked_sum
checked_sum-only a b e h = ground arith

balance_from-only :
    (a : ℤ) (lines : List PostingLine) (e : StoreError)
    → balance_from a lines ≡ err e
    → e ≡ sum_overflow
unfolding balance_from
balance_from-only a [] e h = cc
balance_from-only a (line ∷ lines) e h =
    >>=-only (checked_sum a line.signed_minor) _ e (checked_sum-only a line.signed_minor)
      (λ next k. balance_from-only next lines e k) h

add_checked-only :
    (e c : String) (amount : ℤ) (grouped : List Group) (d : StoreError)
    → add_checked e c amount grouped ≡ err d
    → d ≡ sum_overflow
unfolding add_checked
add_checked-only e c amount [] d h =
    >>=-only (checked_sum (pos 0) amount) _ d (checked_sum-only (pos 0) amount) (λ next k. cc) h
add_checked-only e c amount ((e', c', total) ∷ rest) d h = elim (Bool-cases (e == e' && c == c')) [
  | inl same ↦
      >>=-only (checked_sum total amount) _ d (checked_sum-only total amount) (λ next k. cc)
        (rw (add_checked, same) at h)
  | inr other ↦
      >>=-only (add_checked e c amount rest) _ d (add_checked-only e c amount rest) (λ next k. cc)
        (rw (add_checked, other) at h)
]

group_checked-only :
    (grouped : List Group) (lines : List PostingLine) (d : StoreError)
    → group_checked grouped lines ≡ err d
    → d ≡ sum_overflow
unfolding group_checked
group_checked-only grouped [] d h = cc
group_checked-only grouped (line ∷ lines) d h =
    >>=-only (add_checked line.event_id line.currency line.signed_minor grouped) _ d
      (add_checked-only line.event_id line.currency line.signed_minor grouped)
      (λ next k. group_checked-only next lines d k) h

-- The only error of a summary is that of SUM.
pub summary-eq-err :
    (p : Platform) (run : String) (t : Tables) (e : StoreError)
    → summary p run t ≡ err e
    → e ≡ sum_overflow
unfolding summary unbalanced_groups
summary-eq-err p run t e h =
    >>=-only (unbalanced_groups t.ledger_entry) _ e
      (λ d k.
        >>=-only (group_checked [] t.ledger_entry) _ d (group_checked-only [] t.ledger_entry)
          (λ groups j. cc) k)
      (λ n k.
        >>=-only (balance_from (pos 0) t.ledger_entry) _ e
          (balance_from-only (pos 0) t.ledger_entry) (λ b j. cc) k)
      h
