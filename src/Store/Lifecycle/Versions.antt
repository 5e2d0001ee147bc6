-- ===== src/Store/Lifecycle/Versions.antt =====
-- Versions that are different, start at 1 and end at their number are 1, 2, ..., in order.
use mathlib.Core.Path.{subst}
use ledgerflow_payment_recon.Prelude.{
  ℕ, zero, suc, ◌+◌, ◌≤◌, ◌<◌, ◌≡◌, refl, sym, ◌∙◌, ap, true, false, List, [], ◌∷◌, none, some,
  length, All, arith, eq_ℕ, Eq, Bool-cases, inl, inr, Option-cases,
}
use ledgerflow_payment_recon.Prelude.Sets.{contains, distinct, minimum, maximum, length-distinct-le}

-- lo, lo + 1, ..., of a given length
unfoldable pub range : ℕ → ℕ → List ℕ
range lo zero = []
range lo (suc n) = lo ∷ range (suc lo) n

-- Each is less than all that come after it.
abbrev pub Climbs : List ℕ → Type 0
Climbs [] = Unit
Climbs (x ∷ xs) = All (λ y. x < y) xs × Climbs xs

room_lem :
    (lo m : ℕ) (l : List ℕ)
    → lo ≤ suc m
    → All (λ x. lo ≤ x) l
    → All (λ x. x ≤ m) l
    → Climbs l
    → lo + length l ≤ suc m
room_lem lo m [] h a b c = omega arith
room_lem lo m (x ∷ l) h (a, rest) (b, bs) (c, cs) =
    omega (arith, room_lem (suc x) m l (omega arith) c bs cs)

range_lem :
    (lo m : ℕ) (l : List ℕ)
    → All (λ x. lo ≤ x) l
    → All (λ x. x ≤ m) l
    → Climbs l
    → m < lo + length l
    → l ≡ range lo (length l)
unfolding range
range_lem lo m [] a b c h = refl
range_lem lo m (x ∷ l) (a, rest) (b, bs) (c, cs) h =
    let room = room_lem (suc x) m l (omega arith) c bs cs in
    let same : x ≡ lo = omega arith in
    rw same (ap (λ r. lo ∷ r) (range_lem (suc lo) m l (rw (← same) c) bs cs (omega arith)))

at_least : (m n : ℕ) (l : List ℕ) → m ≤ n → All (λ x. n ≤ x) l → All (λ x. m ≤ x) l
at_least m n [] h a = tt
at_least m n (x ∷ l) h (a, rest) = (omega arith, at_least m n l h rest)

at_most : (m n : ℕ) (l : List ℕ) → n ≤ m → All (λ x. x ≤ n) l → All (λ x. x ≤ m) l
at_most m n [] h a = tt
at_most m n (x ∷ l) h (a, rest) = (omega arith, at_most m n l h rest)

pub minimum_lem : (l : List ℕ) (m : ℕ) → minimum l ≡ some m → All (λ x. m ≤ x) l
unfolding minimum
minimum_lem [] m h = tt
minimum_lem (x ∷ l) m h = elim (Option-cases (minimum l)) [
  | inl empty ↦ (ground arith, at_least_of_none l empty)
  | inr (n, found) ↦ (ground arith, at_least m n l (ground arith) (minimum_lem l n found))
]
  where
    at_least_of_none : (l : List ℕ) → minimum l ≡ none → All (λ x. m ≤ x) l
    at_least_of_none [] e = tt
    at_least_of_none (y ∷ ys) e = absurd (ground arith)

pub maximum_lem : (l : List ℕ) (m : ℕ) → maximum l ≡ some m → All (λ x. x ≤ m) l
unfolding maximum
maximum_lem [] m h = tt
maximum_lem (x ∷ l) m h = elim (Option-cases (maximum l)) [
  | inl empty ↦ (ground arith, at_most_of_none l empty)
  | inr (n, found) ↦ (ground arith, at_most m n l (ground arith) (maximum_lem l n found))
]
  where
    at_most_of_none : (l : List ℕ) → maximum l ≡ none → All (λ x. x ≤ m) l
    at_most_of_none [] e = tt
    at_most_of_none (y ∷ ys) e = absurd (ground arith)

-- Never falls.
abbrev pub Rises : List ℕ → Type 0
Rises [] = Unit
Rises (x ∷ xs) = All (λ y. x ≤ y) xs × Rises xs

strict : (x : ℕ) (l : List ℕ) → contains x l ≡ false → All (λ y. x ≤ y) l → All (λ y. x < y) l
strict x [] h a = tt
strict x (y ∷ l) h (a, rest) = (ground arith, strict x l (ground arith) rest)

pub Rises-Climbs : (l : List ℕ) → length (distinct l) ≡ length l → Rises l → Climbs l
unfolding distinct
Rises-Climbs [] h r = tt
Rises-Climbs (x ∷ l) h (r, rs) = elim (Bool-cases (contains x l)) [
  | inl again ↦ absurd (ground (arith, length-distinct-le l))
  | inr fresh ↦ (strict x l fresh r, Rises-Climbs l (ground arith) rs)
]

-- Different versions that never fall, from 1 to their number.
pub consecutive_lem :
    (l : List ℕ)
    → length (distinct l) ≡ length l
    → minimum l ≡ some 1
    → maximum l ≡ some (length l)
    → Rises l
    → l ≡ range 1 (length l)
consecutive_lem l different lowest highest r =
    range_lem 1 (length l) l (minimum_lem l 1 lowest) (maximum_lem l (length l) highest)
      (Rises-Climbs l different r) (omega arith)

module _ {ℓ} {A : Type ℓ} ⦃e : Eq A⦄ where
  pub distinct_nonempty : (x : A) (xs : List A) → 0 < length (distinct (x ∷ xs))
  unfolding distinct
  distinct_nonempty x [] = omega arith
  distinct_nonempty x (y ∷ xs) = ground (arith, distinct_nonempty y xs)

  same_as_head : (x y : A) (ys : List A) → contains x (y ∷ ys) ≡ true → All (λ z. z ≡ y) ys → x ≡ y
  same_as_head x y [] h r = ground (arith, e.beq_iff x y)
  same_as_head x y (z ∷ ys) h (r, rest) = elim (Bool-cases (e.beq x z)) [
    | inl here ↦ (e.beq_iff x z).0 here ∙ r
    | inr other ↦ same_as_head x y ys (ground arith) rest
  ]

  -- One member only: all are equal to the first.
  pub single_lem : (x : A) (xs : List A) → length (distinct (x ∷ xs)) ≡ 1 → All (λ y. y ≡ x) xs
  unfolding distinct
  single_lem x [] h = tt
  single_lem x (y ∷ ys) h = elim (Bool-cases (contains x (y ∷ ys))) [
    | inl again ↦
        let rest = single_lem y ys (rw again at h) in
        subst (λ w. (y ≡ w) × All (λ z. z ≡ w) ys) (sym (same_as_head x y ys again rest))
          (refl, rest)
    | inr fresh ↦ absurd (ground (arith, distinct_nonempty y ys))
  ]
