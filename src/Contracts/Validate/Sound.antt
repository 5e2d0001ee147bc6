-- ===== src/Contracts/Validate/Sound.antt =====
-- What `validate_event` of ledgerflow/contracts.py establishes of the event that it returns.
use mathlib.Core.Path.{subst}
use ledgerflow_payment_recon.Prelude.{
  ℕ, suc, String, ◌≡◌, refl, ◌≤◌, true, not, List, Option, none, some, eq_String, eq_iff, arith,
  Bool-cases, inl, inr,
}
use ledgerflow_payment_recon.Prelude.Int.{pos}
use ledgerflow_payment_recon.Prelude.Result.{ok, raise_if, raise_if-ok, ok_inj, after_ok}
use ledgerflow_payment_recon.Prelude.Text.{is_member}
use ledgerflow_payment_recon.Json.{Value, int, text, Fields, get}
use ledgerflow_payment_recon.Contracts.{
  Stamp, Platform, Registry, Source, find_source, currencies, PaymentEvent,
}
use ledgerflow_payment_recon.Contracts.Privacy.{reject_prohibited_fields}
use ledgerflow_payment_recon.Contracts.Identity.{tokenize_customer}
use ledgerflow_payment_recon.Contracts.Validate.{
  missing_fields, unexpected_fields, is_nonempty, schema_matches, value_at, validate_identifier,
  is_identifier, source_contract, positive_int, event_type, currency, parse_utc_timestamp,
  stamp_text, replace_zulu, customer_email, validate_event,
}

-- A time is the `isoformat()` of a text that has a UTC offset.
abbrev IsAwareTime : Platform → String → Type 0
IsAwareTime p time =
    (source : String) × (stamp : Stamp) × (p.fromisoformat source ≡ some stamp)
    × (stamp.aware ≡ true)
    × (stamp.iso ≡ time)

pub record IsContractual (p : Platform) (registry : Registry) (e : PaymentEvent) : Type 0 where
  pub event_id : is_identifier e.event_id ≡ true
  pub transaction_id : is_identifier e.transaction_id ≡ true
  pub source_id : is_identifier e.source_id ≡ true
  pub processor_id : is_identifier e.processor_id ≡ true
  pub merchant_id : is_identifier e.merchant_id ≡ true
  pub known_source :
      (s : Source) × (find_source e.source_id registry ≡ some s) × (s.contract ≡ "payment_event")
  pub version_positive : 1 ≤ e.transaction_version
  pub amount_positive : 1 ≤ e.amount_minor
  pub currency_known : is_member e.currency currencies ≡ true
  pub event_time : IsAwareTime p e.event_time
  pub received_at : IsAwareTime p e.received_at

identifier-eq :
    (v : Value) (name s : String) → validate_identifier v name ≡ ok s → is_identifier s ≡ true
unfolding validate_identifier
identifier-eq (text t) name s h = elim (Bool-cases (is_identifier t)) [
  | inl valid ↦ let k = rw valid at h in subst (λ u. is_identifier u ≡ true) (ok_inj k) valid
  | inr bad ↦ let k = rw bad at h in cc
]
identifier-eq v name s h = cc

source_contract-eq :
    (o : Option Source) (u : Unit {0})
    → source_contract o ≡ ok u
    → (s : Source) × (o ≡ some s) × (s.contract ≡ "payment_event")
unfolding source_contract
source_contract-eq none u h = cc
source_contract-eq (some s) u h =
    (s, refl, ground (arith, raise_if-ok _ _ h, eq_iff s.contract "payment_event"))

positive_int-eq : (v : Value) (reason : String) (n : ℕ) → positive_int v reason ≡ ok n → 1 ≤ n
unfolding positive_int
positive_int-eq (int (pos (suc k))) reason n h = let e : suc k ≡ n = ok_inj h in omega (arith, e)
positive_int-eq v reason n h = cc

currency-eq : (v : Value) (s : String) → currency v ≡ ok s → is_member s currencies ≡ true
unfolding currency
currency-eq (text t) s h = elim (Bool-cases (is_member t currencies)) [
  | inl known ↦ let k = rw known at h in subst (λ u. is_member u currencies ≡ true) (ok_inj k) known
  | inr other ↦ let k = rw other at h in cc
]
currency-eq v s h = cc

module _ (p : Platform) where
  stamp-eq :
      (source name time : String) (o : Option Stamp)
      → p.fromisoformat source ≡ o
      → stamp_text o name ≡ ok time
      → IsAwareTime p time
  unfolding stamp_text
  stamp-eq source name time none e h = cc
  stamp-eq source name time (some stamp) e h = elim (Bool-cases stamp.aware) [
    | inl aware ↦ let k = rw aware at h in (source, stamp, e, aware, ok_inj k)
    | inr naive ↦ let k = rw naive at h in cc
  ]

  time-eq :
      (v : Value) (name time : String) → parse_utc_timestamp p v name ≡ ok time → IsAwareTime p time
  unfolding parse_utc_timestamp
  time-eq (text s) name time h =
      stamp-eq (replace_zulu s) name time (p.fromisoformat (replace_zulu s)) refl h
  time-eq v name time h = cc

  -- An event that validate_event returns has identifiers that match IDENTIFIER, a source that is
  -- registered for the payment_event contract, a version and an amount of at least 1, a supported
  -- currency, and two times that are the isoformat of a text with a UTC offset.
  pub validate_event-IsContractual :
      (raw : Fields) (registry : Registry) (key : List ℕ) (e : PaymentEvent)
      → validate_event p raw registry key ≡ ok e
      → IsContractual p registry e
  unfolding validate_event
  validate_event-IsContractual raw registry key e h =
      after_ok (reject_prohibited_fields p raw) _ h λ x0 a0 k0.
        after_ok (raise_if (is_nonempty (missing_fields raw)) _) _ k0 λ x1 a1 k1.
          after_ok (raise_if (is_nonempty (unexpected_fields raw)) _) _ k1 λ x2 a2 k2.
            after_ok (raise_if (not (schema_matches (value_at "schema_version" raw))) _) _ k2
              λ x3 a3 k3.
                after_ok (validate_identifier (value_at "event_id" raw) "event_id") _ k3 λ x4 a4 k4.
                  after_ok (validate_identifier (value_at "transaction_id" raw) "transaction_id") _
                    k4
                    λ x5 a5 k5.
                      after_ok (validate_identifier (value_at "source_id" raw) "source_id") _ k5
                        λ source a6 k6.
                          after_ok
                            (validate_identifier (value_at "processor_id" raw) "processor_id") _ k6
                            λ x7 a7 k7.
                              after_ok
                                (validate_identifier (value_at "merchant_id" raw) "merchant_id") _
                                k7
                                λ x8 a8 k8.
                                  after_ok (source_contract (find_source source registry)) _ k8
                                    λ u9 a9 k9.
                                      after_ok (positive_int (value_at "transaction_version" raw) _)
                                        _ k9
                                        λ n10 a10 k10.
                                          after_ok (event_type (value_at "event_type" raw)) _ k10
                                            λ x11 a11 k11.
                                              after_ok
                                                (positive_int (value_at "amount_minor" raw) _) _ k11
                                                λ n12 a12 k12.
                                                  after_ok (currency (value_at "currency" raw)) _
                                                    k12
                                                    λ c13 a13 k13.
                                                      after_ok
                                                        (parse_utc_timestamp p
                                                          (value_at "event_time" raw) _)
                                                        _ k13
                                                        λ x14 a14 k14.
                                                          after_ok
                                                            (parse_utc_timestamp p
                                                            (value_at "received_at" raw) _)
                                                            _ k14
                                                            λ x15 a15 k15.
                                                            after_ok
                                                            (customer_email
                                                            (get "customer_email" raw))
                                                            _ k15
                                                            λ email a16 k16.
                                                            after_ok (tokenize_customer p email key)
                                                            _ k16
                                                            λ x17 a17 k17.
                                                            subst (IsContractual p registry)
                                                            (ok_inj k17)
                                                            (record {
                                                            event_id =
                                                            identifier-eq (value_at "event_id" raw)
                                                            "event_id" _ a4;
                                                            transaction_id =
                                                            identifier-eq
                                                            (value_at "transaction_id" raw)
                                                            "transaction_id" _ a5;
                                                            source_id =
                                                            identifier-eq (value_at "source_id" raw)
                                                            "source_id" _ a6;
                                                            processor_id =
                                                            identifier-eq
                                                            (value_at "processor_id" raw)
                                                            "processor_id" _ a7;
                                                            merchant_id =
                                                            identifier-eq
                                                            (value_at "merchant_id" raw)
                                                            "merchant_id" _ a8;
                                                            known_source =
                                                            source_contract-eq
                                                            (find_source source registry) u9 a9;
                                                            version_positive =
                                                            positive_int-eq
                                                            (value_at "transaction_version" raw)
                                                            "invalid_transaction_version" n10 a10;
                                                            amount_positive =
                                                            positive_int-eq
                                                            (value_at "amount_minor" raw)
                                                            "invalid_amount_minor" n12 a12;
                                                            currency_known =
                                                            currency-eq (value_at "currency" raw)
                                                            c13 a13;
                                                            event_time =
                                                            time-eq (value_at "event_time" raw)
                                                            "event_time" _ a14;
                                                            received_at =
                                                            time-eq (value_at "received_at" raw)
                                                            "received_at" _ a15;
                                                            })
