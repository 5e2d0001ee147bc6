-- ===== src/Prelude/Order.antt =====
-- Total orders as Boolean tests, on numbers, texts (by code point) and keys of several parts, and
-- the sort that `sorted(...)` and ORDER BY stand for.
use Prim.Native.Char.{code}
use Prim.Native.Nat.{ℕ}
use Prim.Native.String.{String}
use mathlib.Core.Path.{◌≡◌, refl, ap₂}
use mathlib.Core.Bool.{Bool, true, false, ◌&&◌}
use mathlib.Core.Logic.{◌⊎◌, inl, inr}
use mathlib.Core.List.{List, [], ◌∷◌}
use native.Mathlib.Omega.{arith}
use text.Mathlib.TextEquality.{Char-path}
use ledgerflow_payment_recon.Prelude.Tests.{nat_eq, ltb, leb, if◌then◌else◌}

pub record Order {ℓ} (K : Type ℓ) : Type ℓ where
  pub le : K → K → Bool
  pub le_total : (a b : K) → (le a b ≡ true) ⊎ (le b a ≡ true)
  pub le_trans : (a b c : K) → le a b ≡ true → le b c ≡ true → le a c ≡ true
  pub le_antisymm : (a b : K) → le a b ≡ true → le b a ≡ true → a ≡ b

pub nat_total : (a b : ℕ) → (leb a b ≡ true) ⊎ (leb b a ≡ true)
nat_total a b = grind arith

pub nat_trans : (a b c : ℕ) → leb a b ≡ true → leb b c ≡ true → leb a c ≡ true
nat_trans a b c h k = ground arith

pub nat_antisymm : (a b : ℕ) → leb a b ≡ true → leb b a ≡ true → a ≡ b
nat_antisymm a b h k = ground arith

instance abbrev pub order_ℕ : Order ℕ
order_ℕ = record {
  le = leb;
  le_total = nat_total;
  le_trans = nat_trans;
  le_antisymm = nat_antisymm;
}

-- Texts in code point order, which is the byte order of their UTF-8 forms.
abbrev pub text_leb : String → String → Bool
text_leb String.[] t = true
text_leb (String.◌∷◌ c s) String.[] = false
text_leb (String.◌∷◌ c s) (String.◌∷◌ d t) =
    if ltb (code c) (code d) then true else nat_eq (code c) (code d) && text_leb s t

pub text_total : (s t : String) → (text_leb s t ≡ true) ⊎ (text_leb t s ≡ true)
text_total String.[] t = inl refl
text_total (String.◌∷◌ c s) String.[] = inr refl
text_total (String.◌∷◌ c s) (String.◌∷◌ d t) = ground (arith, text_total s t)

pub text_trans : (s t u : String) → text_leb s t ≡ true → text_leb t u ≡ true → text_leb s u ≡ true
text_trans String.[] t u h k = refl
text_trans (String.◌∷◌ c s) String.[] u h k = absurd (ground arith)
text_trans (String.◌∷◌ c s) (String.◌∷◌ d t) String.[] h k = absurd (ground arith)
text_trans (String.◌∷◌ c s) (String.◌∷◌ d t) (String.◌∷◌ e u) h k = ground (arith, text_trans s t u)

pub text_antisymm : (s t : String) → text_leb s t ≡ true → text_leb t s ≡ true → s ≡ t
text_antisymm String.[] String.[] h k = refl
text_antisymm String.[] (String.◌∷◌ d t) h k = absurd (ground arith)
text_antisymm (String.◌∷◌ c s) String.[] h k = absurd (ground arith)
text_antisymm (String.◌∷◌ c s) (String.◌∷◌ d t) h k =
    ap₂ String.◌∷◌ (Char-path c d (ground arith)) (text_antisymm s t (ground arith) (ground arith))

instance abbrev pub order_String : Order String
order_String = record {
  le = text_leb;
  le_total = text_total;
  le_trans = text_trans;
  le_antisymm = text_antisymm;
}

-- ORDER BY a, b
module _ {ℓ κ} {A : Type ℓ} {B : Type κ} ⦃o : Order A⦄ ⦃p : Order B⦄ where
  abbrev pub pair_le : A × B → A × B → Bool
  pair_le (a, b) (c, d) = if o.le a c then (if o.le c a then p.le b d else true) else false

  pub pair_total : (x y : A × B) → (pair_le x y ≡ true) ⊎ (pair_le y x ≡ true)
  pair_total (a, b) (c, d) = ground (arith, o.le_total a c, p.le_total b d)

  pub pair_trans : (x y z : A × B) → pair_le x y ≡ true → pair_le y z ≡ true → pair_le x z ≡ true
  pair_trans (a, b) (c, d) (e, f) h k =
      ground (arith, o.le_trans a c e, o.le_trans e a c, o.le_trans c e a, p.le_trans b d f)

  pub pair_antisymm : (x y : A × B) → pair_le x y ≡ true → pair_le y x ≡ true → x ≡ y
  pair_antisymm (a, b) (c, d) h k = ground (arith, o.le_antisymm a c, p.le_antisymm b d)

  instance abbrev pub order_pair : Order (A × B)
  order_pair = record {
    le = pair_le;
    le_total = pair_total;
    le_trans = pair_trans;
    le_antisymm = pair_antisymm;
  }

module _ {ℓ κ} {A : Type ℓ} {K : Type κ} ⦃o : Order K⦄ (key : A → K) where
  unfoldable pub insert_by : A → List A → List A
  insert_by x [] = x ∷ []
  insert_by x (y ∷ ys) = if o.le (key x) (key y) then x ∷ y ∷ ys else y ∷ insert_by x ys

  unfoldable pub sort_by : List A → List A
  unfolding insert_by
  sort_by [] = []
  sort_by (x ∷ xs) = insert_by x (sort_by xs)
