-- ===== src/Spark/Reconstruct/Conflicts.antt =====
-- The version conflict of spark_jobs/reconstruct_payment_state.py, which counts the rows of each
-- version, and that of ledgerflow/store.py, which counts the different versions.
use ledgerflow_payment_recon.Prelude.{
  ℕ, suc, ◌≡◌, refl, sym, ap, ◌∙◌, Bool, false, ◌||◌, not, List, [], ◌∷◌, map, ltb, length, filter,
  any, arith, ◌==◌, eq_ℕ, if◌then◌else◌, Bool-cases, Option-cases, inl, inr,
}
use ledgerflow_payment_recon.Prelude.Sets.{distinct, contains, maximum, length-distinct-le}
use ledgerflow_payment_recon.Contracts.{PaymentEvent}
use ledgerflow_payment_recon.Store.Lifecycle.{versions}
use ledgerflow_payment_recon.Store.Lifecycle.Order.{length-versions}
use ledgerflow_payment_recon.Spark.Reconstruct.{above, version_count, version_conflict}

abbrev occurrences : ℕ → List ℕ → ℕ
occurrences v [] = 0
occurrences v (x ∷ xs) = if x == v then suc (occurrences v xs) else occurrences v xs

abbrev repeats : List ℕ → Bool
repeats [] = false
repeats (x ∷ xs) = contains x xs || repeats xs

distinct-repeats : (vs : List ℕ) → not (length (distinct vs) == length vs) ≡ repeats vs
unfolding distinct
distinct-repeats [] = refl
distinct-repeats (x ∷ xs) = ground (arith, distinct-repeats xs, length-distinct-le xs)

contains-occurrences : (v : ℕ) (xs : List ℕ) → ltb 0 (occurrences v xs) ≡ contains v xs
contains-occurrences v [] = refl
contains-occurrences v (x ∷ xs) = ground (arith, contains-occurrences v xs)

-- A version that is not in `xs` adds to no count of a version that is.
any-skip :
    (x : ℕ) (ys xs : List ℕ)
    → contains x xs ≡ false
    → any (λ v. ltb 1 (occurrences v (x ∷ ys))) xs ≡ any (λ v. ltb 1 (occurrences v ys)) xs
any-skip x ys [] h = refl
any-skip x ys (z ∷ xs) h = ground (arith, any-skip x ys xs)

any-occurrences : (vs : List ℕ) → any (λ v. ltb 1 (occurrences v vs)) vs ≡ repeats vs
any-occurrences [] = refl
any-occurrences (x ∷ xs) = elim (Bool-cases (contains x xs)) [
  | inl again ↦ ground (arith, contains-occurrences x xs)
  | inr fresh ↦
      ground (arith, contains-occurrences x xs, any-skip x xs xs fresh, any-occurrences xs)
]

above-maximum : (ns : List ℕ) (k : ℕ) → above (maximum ns) k ≡ any (λ n. ltb k n) ns
unfolding maximum
above-maximum [] k = refl
above-maximum (n ∷ ns) k = elim (Option-cases (maximum ns)) [
  | inl nothing ↦ rw nothing (ground (arith, above-maximum ns k))
  | inr (m, found) ↦ rw found (ground (arith, above-maximum ns k))
]

count-versions :
    (v : ℕ) (l : List PaymentEvent)
    → length (filter (λ (f : PaymentEvent). f.transaction_version == v) l)
      ≡ occurrences v (versions l)
count-versions v [] = refl
count-versions v (e ∷ l) = ground (arith, count-versions v l)

any-counts :
    (l m : List PaymentEvent)
    → any (λ n. ltb 1 n) (map (version_count m) l)
      ≡ any (λ v. ltb 1 (occurrences v (versions m))) (versions l)
any-counts [] m = refl
any-counts (e ∷ l) m = ground (arith, count-versions e.transaction_version m, any-counts l m)

pub conflict-distinct :
    (l : List PaymentEvent)
    → above (version_conflict l) 1 ≡ not (length (distinct (versions l)) == length l)
unfolding version_conflict
conflict-distinct l =
    above-maximum (map (version_count l) l) 1
    ∙ any-counts l l
    ∙ any-occurrences (versions l)
    ∙ sym (distinct-repeats (versions l))
    ∙ ap (λ n. not (length (distinct (versions l)) == n)) (length-versions l)
