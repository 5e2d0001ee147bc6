-- ===== src/Store/Process/Tally.antt =====
-- The counters of `process` (ledgerflow/store.py), by the texts under which `summary` reads them.
use Prim.Native.Char.{code}
use text.Mathlib.Text.{starts_with}
use text.Mathlib.TextLemmas.{tail-eq_of_cons-eq}
use ledgerflow_payment_recon.Prelude.{
  ℕ, ◌+◌, ◌*◌, String, ◌≡◌, ◌≢◌, refl, sym, ap, ◌∙◌, Bool, true, false, ◌&&◌, List, [], ◌∷◌, arith,
  ◌==◌, eq_String, eq_iff, Bool-cases, &&-true, inl, inr, if◌then◌else◌,
}
use ledgerflow_payment_recon.Prelude.Text.{◌<>◌, eq_false}
use ledgerflow_payment_recon.Prelude.Order.{insert_by, sort_by, order_String, order_pair}
use ledgerflow_payment_recon.Store.Ingest.{Counts, increment}
use ledgerflow_payment_recon.Store.Summary.{count_of, count_starting}
use ledgerflow_payment_recon.Store.Process.{sorted_counts}

-- The outcomes that `process` counts.
pub data Outcome : Type 0 where
  arrival accepted duplicate quarantined : Outcome

abbrev pub outcome_name : Outcome → String
outcome_name arrival = "ARRIVAL"
outcome_name accepted = "ACCEPTED"
outcome_name duplicate = "DUPLICATE"
outcome_name quarantined = "QUARANTINED"

-- The key of `outcomes` in `summary`.
abbrev pub label : String → String → String
label outcome reason = outcome <> ":" <> reason

-- The first two characters tell the outcomes apart.
unfoldable pub initials : String → ℕ
initials (String.◌∷◌ c (String.◌∷◌ d s)) = code c * 1000 + code d
initials s = 0

abbrev tag : Outcome → ℕ
tag arrival = 65082
tag accepted = 65067
tag duplicate = 68085
tag quarantined = 81085

initials-label : (o : Outcome) (r : String) → initials (label (outcome_name o) r) ≡ tag o
unfolding initials
initials-label arrival r = refl
initials-label accepted r = refl
initials-label duplicate r = refl
initials-label quarantined r = refl

tag_inj : (o o' : Outcome) → tag o ≡ tag o' → o ≡ o'
tag_inj o o' h = ground arith

append_cancel : (s t t' : String) → s <> t ≡ s <> t' → t ≡ t'
append_cancel String.[] t t' h = h
append_cancel (String.◌∷◌ c s) t t' h = append_cancel s t t' (tail-eq_of_cons-eq h)

label_inj :
    (o o' : Outcome) (r r' : String)
    → label (outcome_name o) r ≡ label (outcome_name o') r'
    → (o ≡ o') × (r ≡ r')
label_inj o o' r r' h =
    let same : o ≡ o' =
      tag_inj o o' (sym (initials-label o r) ∙ ap initials h ∙ initials-label o' r') in
    let h' : label (outcome_name o) r ≡ label (outcome_name o) r' =
      h ∙ ap (λ (k : Outcome). label (outcome_name k) r') (sym same) in
    (same, append_cancel ":" r r' (append_cancel (outcome_name o) (":" <> r) (":" <> r') h'))

pub has_label : String → Counts → Bool
has_label k [] = false
has_label k ((o, r, n) ∷ rest) = if label o r == k then true else has_label k rest

-- Every entry counts an outcome, and no label stands twice.
abbrev pub IsTally : Counts → Type 0
IsTally [] = Unit
IsTally ((o, r, n) ∷ rest) =
    ((k : Outcome) × (o ≡ outcome_name k)) × (has_label (label o r) rest ≡ false) × IsTally rest

-- `outcomes` of `summary`.
abbrev pub labels : Counts → List (String × ℕ)
labels [] = []
labels ((o, r, n) ∷ rest) = (label o r, n) ∷ labels rest

-- A counter that is not this one has another label.
label_ne :
    (k : Outcome) (o r r' : String)
    → ((k' : Outcome) × (o ≡ outcome_name k'))
    → (outcome_name k == o && r == r') ≡ false
    → label o r' ≢ label (outcome_name k) r
label_ne k o r r' (k', named) apart h =
    let same = label_inj k' k r' r (ap (λ x. label x r') (sym named) ∙ h) in
    let first : outcome_name k ≡ o = ap outcome_name (sym same.0) ∙ sym named in
    ground (arith, eq_iff (outcome_name k) o, eq_iff r r', first, same.1)

has_label-increment :
    (k : Outcome) (r l : String) (counts : Counts)
    → has_label l counts ≡ false
    → l ≢ label (outcome_name k) r
    → has_label l (increment (outcome_name k) r counts) ≡ false
unfolding has_label increment
has_label-increment k r l [] h ne = rw (eq_false (label (outcome_name k) r) l (λ e. ne (sym e)))
has_label-increment k r l ((o, r', n) ∷ rest) h ne =
    ground (arith, has_label-increment k r l rest, ne)

pub increment-IsTally :
    (k : Outcome) (r : String) (counts : Counts)
    → IsTally counts
    → IsTally (increment (outcome_name k) r counts)
unfolding increment
increment-IsTally k r [] t = ((k, refl), unfold has_label in refl, tt)
increment-IsTally k r ((o, r', n) ∷ rest) (named, fresh, t) =
    elim (Bool-cases (outcome_name k == o && r == r')) [
      | inl same ↦ rw same (named, fresh, t)
      | inr apart ↦ rw apart (
        named,
        has_label-increment k r (label o r') rest fresh (label_ne k o r r' named apart),
        increment-IsTally k r rest t,
      )
    ]

pub count_of-increment :
    (k : Outcome) (r l : String) (counts : Counts)
    → IsTally counts
    → count_of l (labels (increment (outcome_name k) r counts))
      ≡ count_of l (labels counts) + (if label (outcome_name k) r == l then 1 else 0)
unfolding count_of increment
count_of-increment k r l [] t = ground arith
count_of-increment k r l ((o, r', n) ∷ rest) (named, fresh, t) =
    elim (Bool-cases (outcome_name k == o && r == r')) [
      | inl same ↦
          let (p, q) = &&-true (outcome_name k == o) (r == r') same in
          let joined : label (outcome_name k) r ≡ label o r' =
            ap (λ x. label x r) ((eq_iff (outcome_name k) o).0 p)
            ∙ ap (label o) ((eq_iff r r').0 q) in
          rw same (ground (arith, joined))
      | inr apart ↦ rw apart (
          ground (
            arith,
            count_of-increment k r l rest,
            label_ne k o r r' named apart,
            eq_iff (label o r') l,
            eq_iff (label (outcome_name k) r) l,
          ))
    ]

pub count_starting-increment :
    (k : Outcome) (r l : String) (counts : Counts)
    → count_starting l (labels (increment (outcome_name k) r counts))
      ≡ count_starting l (labels counts)
        + (if starts_with (label (outcome_name k) r) l then 1 else 0)
unfolding count_starting increment
count_starting-increment k r l [] = ground arith
count_starting-increment k r l ((o, r', n) ∷ rest) =
    ground (arith, eq_iff (outcome_name k) o, eq_iff r r', count_starting-increment k r l rest)

-- Sorting the counters changes none of these readings.
abbrev counter_key : String × String × ℕ → String × String
counter_key c = (c.0, c.1)

has_label-insert_by :
    (l o r : String) (n : ℕ) (counts : Counts)
    → has_label l (insert_by {K = String × String} counter_key (o, r, n) counts)
      ≡ (if label o r == l then true else has_label l counts)
unfolding has_label insert_by
has_label-insert_by l o r n [] = refl
has_label-insert_by l o r n ((o', r', n') ∷ rest) = ground (arith, has_label-insert_by l o r n rest)

count_of-insert_by :
    (l o r : String) (n : ℕ) (counts : Counts)
    → has_label (label o r) counts ≡ false
    → count_of l (labels (insert_by {K = String × String} counter_key (o, r, n) counts))
      ≡ (if label o r == l then n else count_of l (labels counts))
unfolding has_label insert_by count_of
count_of-insert_by l o r n [] h = refl
count_of-insert_by l o r n ((o', r', n') ∷ rest) h = ground (
  arith,
  count_of-insert_by l o r n rest,
  eq_iff (label o r) l,
  eq_iff (label o' r') l,
  eq_iff (label o' r') (label o r),
)

count_starting-insert_by :
    (l o r : String) (n : ℕ) (counts : Counts)
    → count_starting l (labels (insert_by {K = String × String} counter_key (o, r, n) counts))
      ≡ (if starts_with (label o r) l then n else 0) + count_starting l (labels counts)
unfolding insert_by count_starting
count_starting-insert_by l o r n [] = refl
count_starting-insert_by l o r n ((o', r', n') ∷ rest) =
    ground (arith, count_starting-insert_by l o r n rest)

has_label-sorted_counts :
    (l : String) (counts : Counts) → has_label l (sorted_counts counts) ≡ has_label l counts
unfolding has_label sorted_counts sort_by
has_label-sorted_counts l [] = refl
has_label-sorted_counts l ((o, r, n) ∷ rest) =
    has_label-insert_by l o r n (sorted_counts rest)
    ∙ ap (λ b. if label o r == l then true else b) (has_label-sorted_counts l rest)

pub count_of-sorted_counts :
    (l : String) (counts : Counts)
    → IsTally counts
    → count_of l (labels (sorted_counts counts)) ≡ count_of l (labels counts)
unfolding count_of sorted_counts sort_by
count_of-sorted_counts l [] t = refl
count_of-sorted_counts l ((o, r, n) ∷ rest) (named, fresh, t) =
    count_of-insert_by l o r n (sorted_counts rest)
      (has_label-sorted_counts (label o r) rest ∙ fresh)
    ∙ ap (λ (x : ℕ). if label o r == l then n else x) (count_of-sorted_counts l rest t)

pub count_starting-sorted_counts :
    (l : String) (counts : Counts)
    → count_starting l (labels (sorted_counts counts)) ≡ count_starting l (labels counts)
unfolding count_starting sorted_counts sort_by
count_starting-sorted_counts l [] = refl
count_starting-sorted_counts l ((o, r, n) ∷ rest) =
    count_starting-insert_by l o r n (sorted_counts rest)
    ∙ ap (λ (x : ℕ). (if starts_with (label o r) l then n else 0) + x)
        (count_starting-sorted_counts l rest)
