-- ===== src/ManifestLoader/Keys.antt =====
-- The texts of lambdas/manifest_loader/handler.py: object keys and what is read from them.
use Prim.Native.Nat.{ℕ}
use Prim.Native.Char.{code}
use ledgerflow_payment_recon.Prelude.{
  String, Bool, true, false, List, [], ◌∷◌, Option, none, some, ◌==◌, eq_String, eq_ℕ,
  if◌then◌else◌,
}
use ledgerflow_payment_recon.Prelude.Text.{◌<>◌, contains_code}

abbrev prepend : String → Option String → Option String
prepend s none = none
prepend s (some t) = some (s <> t)

-- The text before the suffix, where `key.endswith(suffix)`; `key.removesuffix(suffix)` is that text.
unfoldable pub strip_suffix : String → String → Option String
strip_suffix suffix String.[] = if suffix == "" then some "" else none
strip_suffix suffix (String.◌∷◌ c s) =
    let rest = strip_suffix suffix s in
    if suffix == String.◌∷◌ c s then some "" else prepend (String.◌∷◌ c "") rest

-- `key.rsplit("/", 1)[-1]`
unfoldable pub last_segment : String → String
last_segment String.[] = ""
last_segment (String.◌∷◌ c s) =
    let rest = last_segment s in
    if contains_code b'/' s then rest else if code c == b'/' then s else String.◌∷◌ c s

-- The text after a literal that it starts with.
unfoldable pub after_literal : String → String → Option String
after_literal String.[] s = some s
after_literal (String.◌∷◌ l ls) String.[] = none
after_literal (String.◌∷◌ l ls) (String.◌∷◌ c s) =
    let rest = after_literal ls s in if code l == code c then rest else none

-- `\d{4}-\d{2}-\d{2}`: a digit, or a hyphen.
abbrev date_shape : List Bool
date_shape = true ∷ true ∷ true ∷ true ∷ false ∷ true ∷ true ∷ false ∷ true ∷ true ∷ []

-- `(?:/|$)`; `$` also stands before a line feed at the end.
abbrev closes : String → Bool
closes String.[] = true
closes (String.◌∷◌ c String.[]) = if code c == b'/' then true else code c == 10
closes (String.◌∷◌ c (String.◌∷◌ d s)) = code c == b'/'

abbrev first_of : Option String → Option String → Option String
first_of none second = second
first_of (some s) second = some s

-- `\d` of a pattern on `str` takes the decimal digits of every script.
module _ (is_decimal : ℕ → Bool) where
  matches : Bool → ℕ → Bool
  matches true n = is_decimal n
  matches false n = n == b'-'

  date_group : List Bool → String → Option String
  unfolding matches
  date_group [] s = if closes s then some "" else none
  date_group (k ∷ ks) String.[] = none
  date_group (k ∷ ks) (String.◌∷◌ c s) =
      let rest = date_group ks s in
      if matches k (code c) then prepend (String.◌∷◌ c "") rest else none

  -- `business_date=(\d{4}-\d{2}-\d{2})(?:/|$)` at this place
  date_after : Option String → Option String
  unfolding date_group
  date_after none = none
  date_after (some rest) = date_group date_shape rest

  date_here : String → Option String
  unfolding date_after after_literal
  date_here s = date_after (after_literal "business_date=" s)

  -- The match after the first `/` that has one.
  date_in_path : String → Option String
  unfolding date_here
  date_in_path String.[] = none
  date_in_path (String.◌∷◌ c s) =
      let rest = date_in_path s in if code c == b'/' then first_of (date_here s) rest else rest

  -- `BUSINESS_DATE.search(data_key)`, and its group 1
  unfoldable pub search_date : String → Option String
  unfolding date_in_path date_here
  search_date s = first_of (date_here s) (date_in_path s)
