-- ===== src/Examples/Cloud.antt =====
-- A table of the cloud on concrete inputs.
use ledgerflow_payment_recon.Prelude.{
  String, refl, Option, some, ◌==◌, eq_String, eq_iff, if◌then◌else◌,
}
use ledgerflow_payment_recon.Prelude.Text.{eq_false}
use ledgerflow_payment_recon.Services.{KeyValue, IsLawful}

-- A table as a function from its keys.
abbrev pub put_at : {Row : Type 0} → (String → Option Row) → String → Row → String → Option Row
put_at items k r j = if j == k then some r else items j

abbrev pub function_table : (Row : Type 0) → KeyValue Row
function_table Row = record { Items = String → Option Row; item = λ items k. items k; put = put_at }

pub function_table-IsLawful : (Row : Type 0) → IsLawful (function_table Row)
function_table-IsLawful Row = record {
  item-put = λ s k r. rw ((eq_iff k k).1 refl) refl;
  item-put-other = λ s j k r apart. rw (eq_false k j apart) refl;
}
