-- ===== src/Json.antt =====
-- What `json.loads` yields: the values of Python that the program receives. An object keeps the
-- order of its keys and has no key twice; a float is kept as the text of its `repr`.
pub mod Dumps
use ledgerflow_payment_recon.Prelude.{
  ℕ, String, ◌≡◌, Bool, true, false, List, [], ◌∷◌, Option, none, some, ◌==◌, eq_String,
  if◌then◌else◌,
}
use ledgerflow_payment_recon.Prelude.Int.{ℤ, pos}

mutual
  pub data Value : Type 0 where
    null : Value
    boolean : Bool → Value
    int : ℤ → Value
    float : String → Value
    text : String → Value
    array : Items → Value
    object : Fields → Value

  -- The items of an object and of a list.
  pub data Fields : Type 0 where
    field : String → Value → Fields → Fields
    end : Fields

  pub data Items : Type 0 where
    cons : Value → Items → Items
    nil : Items

-- `raw.get(key)`, with `none` where the key is missing.
unfoldable pub get : String → Fields → Option Value
get k end = none
get k (field j v fs) = if j == k then some v else get k fs

-- `key in raw`
unfoldable pub has_key : String → Fields → Bool
has_key k end = false
has_key k (field j v fs) = if j == k then true else has_key k fs

-- `raw.keys()`
unfoldable pub keys : Fields → List String
keys end = []
keys (field j v fs) = j ∷ keys fs

-- `isinstance(raw.get(key), str)` and the text, if it is one.
unfoldable pub get_text : String → Fields → Option String
unfolding get
get_text k fs = elim (get k fs) [ some (text s) ↦ some s | _ ↦ none ]

-- `isinstance(v, int)`: a `bool` is an `int` there.
unfoldable pub as_int : Value → Option ℤ
as_int (int n) = some n
as_int (boolean true) = some (pos 1)
as_int (boolean false) = some (pos 0)
as_int _ = none

-- `isinstance(v, int) and not isinstance(v, bool)`
unfoldable pub as_plain_int : Value → Option ℤ
as_plain_int (int n) = some n
as_plain_int _ = none
