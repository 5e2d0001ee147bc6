-- ===== src/Prelude/Text.antt =====
-- Python's `str`: what the program does with texts.
use Prim.Native.Nat.{ℕ, zero, suc, ◌/◌, ◌%◌}
use Prim.Native.Char.{code}
use Prim.Native.String.{String}
use mathlib.Core.Path.{◌≡◌, sym, ap, ◌∙◌}
use mathlib.Core.Logic.{◌≢◌, ◌⊎◌, inl, inr}
use native.Mathlib.Omega.{arith}
use text.Mathlib.Text.{starts_with}
use text.Mathlib.TextEquality.{eq_iff}
use text.Mathlib.TextLemmas.{nil-append, cons-append}
use text.Mathlib.TextPositions.{starts_with-append}
use mathlib.Core.Bool.{Bool, true, false}
use mathlib.Core.List.{List, [], ◌∷◌}
use ledgerflow_payment_recon.Prelude.Tests.{nat_eq, ltb, ◌==◌, eq_String, if◌then◌else◌, Bool-cases}
use ledgerflow_payment_recon.Prelude.Int.{ℤ, pos, negsuc}

-- The code points of a text.
abbrev pub codes : String → List ℕ
codes String.[] = []
codes (String.◌∷◌ c s) = code c ∷ codes s

-- `s + t` on texts, by characters, so that it computes where `s` is a literal.
infixr 65 ◌<>◌
abbrev pub ◌<>◌ : String → String → String
String.[] <> t = t
String.◌∷◌ c s <> t = String.◌∷◌ c (s <> t)

pub append-eq-native : (s t : String) → s <> t ≡ Prim.Native.String.◌++◌ s t
append-eq-native String.[] t = sym (nil-append t)
append-eq-native (String.◌∷◌ c s) t =
    ap (String.◌∷◌ c) (append-eq-native s t) ∙ sym (cons-append c s t)

pub starts_with-<> : (s t : String) → starts_with (s <> t) s ≡ true
starts_with-<> s t = rw (append-eq-native s t) (starts_with-append s t)

-- A test that two texts which are apart are equal.
pub eq_false : (s t : String) → s ≢ t → (s == t) ≡ false
eq_false s t h = ground (arith, eq_iff s t, h)

-- `",".join(parts)`
unfoldable pub join_comma : List String → String
join_comma [] = ""
join_comma (x ∷ []) = x
join_comma (x ∷ y ∷ rest) = x <> "," <> join_comma (y ∷ rest)

abbrev pub is_member : String → List String → Bool
is_member k [] = false
is_member k (x ∷ xs) = if k == x then true else is_member k xs

-- `needle in text` for a needle of one character.
unfoldable pub contains_code : ℕ → String → Bool
contains_code n String.[] = false
contains_code n (String.◌∷◌ c s) = if nat_eq (code c) n then true else contains_code n s

-- `text[:n]`
unfoldable pub first_chars : ℕ → String → String
first_chars zero s = ""
first_chars (suc n) String.[] = ""
first_chars (suc n) (String.◌∷◌ c s) = String.◌∷◌ c (first_chars n s)

digit_text : ℕ → String
digit_text n =
    if nat_eq n 0
    then "0"
    else if nat_eq n 1
    then "1"
    else if nat_eq n 2
    then "2"
    else if nat_eq n 3
    then "3"
    else if nat_eq n 4
    then "4"
    else if nat_eq n 5
    then "5"
    else if nat_eq n 6
    then "6"
    else if nat_eq n 7
    then "7"
    else if nat_eq n 8
    then "8"
    else if nat_eq n 9
    then "9"
    else if nat_eq n 10
    then "a"
    else if nat_eq n 11
    then "b"
    else if nat_eq n 12
    then "c"
    else if nat_eq n 13
    then "d"
    else if nat_eq n 14
    then "e"
    else "f"

-- One call for each digit; `fuel` bounds their number, and `n < 10 ^ fuel` is enough.
decimal_fuel : ℕ → ℕ → String
unfolding digit_text
decimal_fuel zero n = digit_text (n % 10)
decimal_fuel (suc fuel) n =
    let rest = decimal_fuel fuel (n / 10) in
    if ltb n 10 then digit_text n else rest <> digit_text (n % 10)

-- `str(n)` of a natural number.
unfoldable pub decimal : ℕ → String
unfolding decimal_fuel
decimal n = decimal_fuel n n

-- `str(n)` of an integer.
unfoldable pub decimal_ℤ : ℤ → String
unfolding decimal
decimal_ℤ (pos n) = decimal n
decimal_ℤ (negsuc n) = "-" <> decimal (suc n)

-- `f"{n:02d}"`
unfoldable pub decimal_02 : ℕ → String
unfolding decimal
decimal_02 n = if ltb n 10 then "0" <> decimal n else decimal n

-- `f"{n:04x}"` for a number below 65536.
unfoldable pub hex_04 : ℕ → String
unfolding digit_text
hex_04 n =
    digit_text (n / 4096 % 16)
    <> digit_text (n / 256 % 16)
    <> digit_text (n / 16 % 16)
    <> digit_text (n % 16)

pub text_cases : (s t : String) → (s ≡ t) ⊎ (s ≢ t)
text_cases s t = elim (Bool-cases (s == t)) [
  | inl same ↦ inl ((eq_iff s t).0 same)
  | inr other ↦ inr (λ e. let k : (s == t) ≡ true = (eq_iff s t).1 e in cc)
]
