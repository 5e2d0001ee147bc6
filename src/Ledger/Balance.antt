-- ===== src/Ledger/Balance.antt =====
-- The balance assertion of ledgerflow/ledger.py against sums over the lines, and what a balanced
-- set of rules posts.
use ledgerflow_payment_recon.Prelude.{
  String, ◌≡◌, refl, ◌∙◌, sym, Bool, true, false, List, [], ◌∷◌, ◌&&◌, not, filter, ◌==◌, eq_String,
  arith, eq_iff, if◌then◌else◌,
}
use ledgerflow_payment_recon.Prelude.Int.{
  ℤ, pos, ◌+ℤ◌, eq_ℤ, int_eq_iff, +ℤ_zero, zero-+ℤ, +ℤ_assoc,
}
use ledgerflow_payment_recon.Prelude.Result.{ok}
use ledgerflow_payment_recon.Ledger.{
  PostingLine, Group, add_to_group, group_lines, assert_balanced, raise_unbalanced,
}

-- SUM(signed_minor) over the lines of one event and currency.
unfoldable pub posted_to : String → String → List PostingLine → ℤ
posted_to e c [] = pos 0
posted_to e c (line ∷ lines) =
    (if e == line.event_id && c == line.currency then line.signed_minor else pos 0)
    +ℤ posted_to e c lines

-- SUM(signed_minor) over all lines.
unfoldable pub posted_total : List PostingLine → ℤ
posted_total [] = pos 0
posted_total (line ∷ lines) = line.signed_minor +ℤ posted_total lines

total_of : String → String → List Group → ℤ
total_of e c [] = pos 0
total_of e c ((e', c', total) ∷ rest) = if e == e' && c == c' then total else total_of e c rest

total_of-add_to_group :
    (e c e' c' : String) (amount : ℤ) (grouped : List Group)
    → total_of e c (add_to_group e' c' amount grouped)
      ≡ total_of e c grouped +ℤ (if e == e' && c == c' then amount else pos 0)
unfolding total_of add_to_group
total_of-add_to_group e c e' c' amount [] = ground (arith, +ℤ_zero (pos 0), zero-+ℤ amount)
total_of-add_to_group e c e' c' amount ((d, k, total) ∷ rest) = ground (
  arith,
  +ℤ_zero total,
  +ℤ_zero (total_of e c rest),
  eq_iff e e',
  eq_iff c c',
  eq_iff e d,
  eq_iff c k,
  eq_iff e' d,
  eq_iff c' k,
  total_of-add_to_group e c e' c' amount rest,
)

total_of-group_lines :
    (e c : String) (grouped : List Group) (lines : List PostingLine)
    → total_of e c (group_lines grouped lines) ≡ total_of e c grouped +ℤ posted_to e c lines
unfolding group_lines posted_to
total_of-group_lines e c grouped [] = sym (+ℤ_zero (total_of e c grouped))
total_of-group_lines e c grouped (line ∷ lines) = rw (
  total_of-group_lines e c (add_to_group line.event_id line.currency line.signed_minor grouped)
      lines,
  total_of-add_to_group e c line.event_id line.currency line.signed_minor grouped,
  +ℤ_assoc,
)

nonzero : List Group → List Group
nonzero groups = filter (λ g. not (g.2 == pos 0)) groups

total_of-zero :
    (e c : String) (groups : List Group) → nonzero groups ≡ [] → total_of e c groups ≡ pos 0
unfolding total_of nonzero
total_of-zero e c [] h = refl
total_of-zero e c ((e', c', total) ∷ rest) h =
    ground (arith, int_eq_iff total (pos 0), total_of-zero e c rest)

raise_unbalanced-ok : (groups : List Group) → raise_unbalanced groups ≡ ok tt → groups ≡ []
unfolding raise_unbalanced
raise_unbalanced-ok [] h = refl
raise_unbalanced-ok (g ∷ groups) h = absurd (ground arith)

-- If assert_balanced passes, the lines of every event sum to zero in every currency.
pub assert_balanced_sound :
    (lines : List PostingLine)
    → assert_balanced lines ≡ ok tt
    → (e c : String) → posted_to e c lines ≡ pos 0
unfolding assert_balanced nonzero total_of
assert_balanced_sound lines h e c =
    sym (zero-+ℤ (posted_to e c lines))
    ∙ sym (total_of-group_lines e c [] lines)
    ∙ total_of-zero e c (group_lines [] lines)
        (raise_unbalanced-ok (nonzero (group_lines [] lines)) h)

has_group : String → String → List Group → Bool
has_group e c [] = false
has_group e c ((e', c', total) ∷ rest) = if e == e' && c == c' then true else has_group e c rest

-- No key stands twice, as in a `dict`.
abbrev IsKeyed : List Group → Type 0
IsKeyed [] = Unit
IsKeyed ((e, c, total) ∷ rest) = (has_group e c rest ≡ false) × IsKeyed rest

has_group-add_to_group :
    (e c e' c' : String) (amount : ℤ) (grouped : List Group)
    → has_group e c grouped ≡ false
    → (e == e' && c == c') ≡ false
    → has_group e c (add_to_group e' c' amount grouped) ≡ false
unfolding has_group add_to_group
has_group-add_to_group e c e' c' amount [] h k = ground arith
has_group-add_to_group e c e' c' amount ((d, k', total) ∷ rest) h k =
    ground (arith, has_group-add_to_group e c e' c' amount rest)

add_to_group-IsKeyed :
    (e c : String) (amount : ℤ) (grouped : List Group)
    → IsKeyed grouped
    → IsKeyed (add_to_group e c amount grouped)
unfolding add_to_group
add_to_group-IsKeyed e c amount [] h = (unfold has_group in refl, tt)
add_to_group-IsKeyed e c amount ((d, k, total) ∷ rest) h = ground (
  arith,
  eq_iff e d,
  eq_iff d e,
  eq_iff c k,
  eq_iff k c,
  add_to_group-IsKeyed e c amount rest h.1,
  has_group-add_to_group d k e c amount rest h.0,
)

group_lines-IsKeyed :
    (grouped : List Group) (lines : List PostingLine)
    → IsKeyed grouped
    → IsKeyed (group_lines grouped lines)
unfolding group_lines
group_lines-IsKeyed grouped [] h = h
group_lines-IsKeyed grouped (line ∷ lines) h =
    group_lines-IsKeyed (add_to_group line.event_id line.currency line.signed_minor grouped) lines
      (add_to_group-IsKeyed line.event_id line.currency line.signed_minor grouped h)

total_of_missing :
    (e c : String) (groups : List Group)
    → has_group e c groups ≡ false
    → total_of e c groups ≡ pos 0
unfolding has_group total_of
total_of_missing e c [] h = refl
total_of_missing e c ((d, k, total) ∷ rest) h = ground (arith, total_of_missing e c rest)

nonzero-eq-nil :
    (groups : List Group)
    → IsKeyed groups
    → ((e c : String) → total_of e c groups ≡ pos 0)
    → nonzero groups ≡ []
unfolding nonzero total_of
nonzero-eq-nil [] h z = refl
nonzero-eq-nil ((e, c, total) ∷ rest) h z = ground (
  arith,
  int_eq_iff total (pos 0),
  eq_iff e e,
  eq_iff c c,
  z e c,
  nonzero-eq-nil rest h.1 (λ e' c'. zero_in_rest e' c'),
)
  where
    zero_in_rest : (e' c' : String) → total_of e' c' rest ≡ pos 0
    zero_in_rest e' c' =
        ground (arith, eq_iff e' e, eq_iff c' c, z e' c', total_of_missing e c rest h.0)

-- No group is left by the test that the assertion and the summary make.
pub unbalanced-eq-nil :
    (lines : List PostingLine)
    → ((e c : String) → posted_to e c lines ≡ pos 0)
    → filter (λ (g : Group). not (g.2 == pos 0)) (group_lines [] lines) ≡ []
unfolding nonzero total_of
unbalanced-eq-nil lines z =
    nonzero-eq-nil (group_lines [] lines) (group_lines-IsKeyed [] lines tt) sums
  where
    sums : (e c : String) → total_of e c (group_lines [] lines) ≡ pos 0
    sums e c = total_of-group_lines e c [] lines ∙ zero-+ℤ (posted_to e c lines) ∙ z e c

-- If the lines of every event sum to zero in every currency, the assertion passes.
pub assert_balanced_complete :
    (lines : List PostingLine)
    → ((e c : String) → posted_to e c lines ≡ pos 0)
    → assert_balanced lines ≡ ok tt
unfolding assert_balanced
assert_balanced_complete lines z = rw (unbalanced-eq-nil lines z)
