-- ===== src/Prelude/Result.antt =====
-- Fallible code: a value, or the error that was raised.
use mathlib.Core.Path.{◌≡◌, refl}
use mathlib.Core.Bool.{Bool, true, false}
use mathlib.Core.Logic.{◌⊎◌, inl, inr}

pub data Result {ℓ} (E : Type 0) (A : Type ℓ) : Type ℓ where
  ok : A → Result E A
  err : E → Result E A

infixl 5 ◌>>=◌ ◌>>◌
-- What comes after a step sees its value, and an error ends the block.
abbrev pub ◌>>=◌ {ℓ κ} :
    {E : Type 0} {A : Type ℓ} {B : Type κ} → Result E A → (A → Result E B) → Result E B
err raised >>= next = err raised
ok value >>= next = next value

abbrev pub ◌>>◌ {ℓ} : {E : Type 0} {B : Type ℓ} → Result E (Unit {0}) → Result E B → Result E B
m >> k = m >>= λ _. k

-- `if test: raise error`
abbrev pub raise_if : {E : Type 0} → Bool → E → Result E (Unit {0})
raise_if true e = err e
raise_if false e = ok tt

-- A block that returns has passed its first step.
module _ {ℓ κ} {E : Type 0} {A : Type ℓ} {B : Type κ} where
  pub >>=-eq-ok :
      (step : Result E A) (next : A → Result E B) {out : B}
      → (step >>= next) ≡ ok out
      → (mid : A) × (step ≡ ok mid) × (next mid ≡ ok out)
  >>=-eq-ok (err raised) next returned = cc
  >>=-eq-ok (ok mid) next returned = (mid, refl, returned)

pub raise_if-ok : {E : Type 0} (b : Bool) (e : E) {u : Unit {0}} → raise_if b e ≡ ok u → b ≡ false
raise_if-ok true e h = cc
raise_if-ok false e h = refl

pub Result-cases {ℓ} :
    {E : Type 0} {A : Type ℓ} (r : Result E A) → ((a : A) × (r ≡ ok a)) ⊎ ((e : E) × (r ≡ err e))
Result-cases (ok a) = inl (a, refl)
Result-cases (err e) = inr (e, refl)

pub ok_inj : {E : Type 0} {A : Type 0} {a b : A} → ◌≡◌ {A = Result E A} (ok a) (ok b) → a ≡ b
ok_inj h = cc h

-- The same with a continuation, which keeps the statements of a long block small.
module _ {ℓ κ} {E : Type 0} {A : Type ℓ} {B : Type κ} where
  pub after_ok {μ} :
      (step : Result E A) (next : A → Result E B) {out : B} {C : Type μ}
      → (step >>= next) ≡ ok out
      → ((mid : A) → step ≡ ok mid → next mid ≡ ok out → C)
      → C
  after_ok (err raised) next returned use_it = cc
  after_ok (ok mid) next returned use_it = use_it mid refl returned
