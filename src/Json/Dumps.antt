-- ===== src/Json/Dumps.antt =====
-- `json.dumps(value, sort_keys=True, separators=(",", ":"), ensure_ascii=True)`, that is
-- `canonical_json` of ledgerflow/contracts.py: sort the keys at every depth, then print.
use Prim.Native.Char.{Char, code}
use ledgerflow_payment_recon.Prelude.{
  ℕ, ◌+◌, ◌-◌, ◌/◌, ◌%◌, String, true, false, ◌&&◌, ltb, leb, ◌==◌, eq_ℕ, if◌then◌else◌,
}
use ledgerflow_payment_recon.Prelude.Text.{◌<>◌, decimal_ℤ, hex_04}
use ledgerflow_payment_recon.Prelude.Order.{text_leb}
use ledgerflow_payment_recon.Json.{
  Value, null, boolean, int, float, text, array, object, Items, nil, cons, Fields, end, field,
}

insert_field : String → Value → Fields → Fields
insert_field k v end = field k v end
insert_field k v (field j w fs) =
    if text_leb k j then field k v (field j w fs) else field j w (insert_field k v fs)

unfoldable mutual
  unfolding insert_field

  pub sort_keys : Value → Value
  sort_keys (array vs) = array (sort_items vs)
  sort_keys (object fs) = object (sort_fields fs)
  sort_keys v = v

  pub sort_items : Items → Items
  sort_items nil = nil
  sort_items (cons v vs) = cons (sort_keys v) (sort_items vs)

  pub sort_fields : Fields → Fields
  sort_fields end = end
  sort_fields (field k v fs) = insert_field k (sort_keys v) (sort_fields fs)

-- `\uXXXX`, in two units above the basic plane.
unicode_escape : ℕ → String
unfolding hex_04
unicode_escape n =
    if ltb n 65536
    then "\\u" <> hex_04 n
    else "\\u"
      <> hex_04 (55296 + (n - 65536) / 1024)
      <> "\\u"
      <> hex_04 (56320 + (n - 65536) % 1024)

escape : Char → String
unfolding unicode_escape
escape c =
    let n = code c in
    if n == 34
    then "\\\""
    else if n == 92
    then "\\\\"
    else if n == 10
    then "\\n"
    else if n == 13
    then "\\r"
    else if n == 9
    then "\\t"
    else if n == 12
    then "\\f"
    else if n == 8
    then "\\b"
    else if leb 32 n && leb n 126
    then String.◌∷◌ c ""
    else unicode_escape n

escape_all : String → String
unfolding escape
escape_all String.[] = ""
escape_all (String.◌∷◌ c s) = escape c <> escape_all s

quote : String → String
unfolding escape_all
quote s = "\"" <> escape_all s <> "\""

unfoldable mutual
  unfolding quote decimal_ℤ

  pub print : Value → String
  print null = "null"
  print (boolean true) = "true"
  print (boolean false) = "false"
  print (int n) = decimal_ℤ n
  print (float r) = r
  print (text s) = quote s
  print (array vs) = "[" <> print_items vs <> "]"
  print (object fs) = "{" <> print_fields fs <> "}"

  pub print_items : Items → String
  print_items nil = ""
  print_items (cons v nil) = print v
  print_items (cons v vs) = print v <> "," <> print_items vs

  pub print_fields : Fields → String
  print_fields end = ""
  print_fields (field k v end) = quote k <> ":" <> print v
  print_fields (field k v fs) = quote k <> ":" <> print v <> "," <> print_fields fs

unfoldable pub canonical_json : Value → String
unfolding sort_keys print
canonical_json v = print (sort_keys v)
