-- ===== src/Services.antt =====
-- The services of the cloud that the handlers of lambdas call. They are not code of the repository:
-- a table is a parameter with the two laws that a read after a write relies on.
use ledgerflow_payment_recon.Prelude.{String, ◌≡◌, ◌≢◌, Option, some}

-- Items under a key: `item` is a consistent read, and `put` the write of the whole item.
pub record KeyValue (Row : Type 0) : Type 1 where
  pub Items : Type 0
  pub item : Items → String → Option Row
  pub put : Items → String → Row → Items

-- A consistent read sees the last write of its key and no write of another key.
pub record IsLawful {Row : Type 0} (kv : KeyValue Row) : Type 0 where
  pub item-put : (s : kv.Items) (k : String) (r : Row) → kv.item (kv.put s k r) k ≡ some r
  pub item-put-other :
      (s : kv.Items) (j k : String) (r : Row) → k ≢ j → kv.item (kv.put s j r) k ≡ kv.item s k

-- The exceptions that leave a handler.
pub data Failure : Type 0 where
  value_error : String → Failure
  attribute_error : Failure
  client_error : String → Failure
  other_error : String → Failure
