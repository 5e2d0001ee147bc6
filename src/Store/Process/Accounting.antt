-- ===== src/Store/Process/Accounting.antt =====
-- raw arrivals = accepted + exact duplicates + quarantined: the counters of `process`
-- (ledgerflow/store.py) while it reads the records.
use text.Mathlib.Text.{starts_with}
use mathlib.Core.Path.{subst}
use ledgerflow_payment_recon.Prelude.{
  ℕ, suc, ◌+◌, String, ◌≡◌, ◌≢◌, refl, sym, ap, ◌∙◌, false, List, [], ◌∷◌, Option, none, some,
  length, arith, ◌==◌, eq_String, eq_ℕ, Bool-cases, inl, inr, if◌then◌else◌,
}
use ledgerflow_payment_recon.Prelude.Result.{Result, ok, err, >>=-eq-ok}
use ledgerflow_payment_recon.Prelude.Text.{eq_false, starts_with-<>}
use ledgerflow_payment_recon.Json.{Fields, get_text}
use ledgerflow_payment_recon.Contracts.{Platform, PaymentEvent}
use ledgerflow_payment_recon.Contracts.Identity.{identity_fingerprint}
use ledgerflow_payment_recon.Contracts.Validate.{validate_event}
use ledgerflow_payment_recon.Store.Tables.{
  Tables, StoreError, insert_quarantine, insert_seen, insert_accepted,
}
use ledgerflow_payment_recon.Store.Ingest.{
  Counts, increment, find_identity, quarantine_one, accept_one, gate_identity, gate_contract,
  ingest_one,
}
use ledgerflow_payment_recon.Store.Summary.{count_of, count_starting}
use ledgerflow_payment_recon.Store.Process.{Run, ingest_all}
use ledgerflow_payment_recon.Store.Process.Tally.{
  Outcome, arrival, accepted, duplicate, quarantined, outcome_name, label, labels, IsTally,
  initials, increment-IsTally, count_of-increment, count_starting-increment,
}

-- The four readings of `summary`.
abbrev pub raw_records : List (String × ℕ) → ℕ
raw_records outcomes = count_of "ARRIVAL:raw_record_read" outcomes

abbrev pub accepted_new : List (String × ℕ) → ℕ
accepted_new outcomes = count_of "ACCEPTED:contract_and_identity_passed" outcomes

abbrev pub duplicates : List (String × ℕ) → ℕ
duplicates outcomes = count_of "DUPLICATE:exact_event_replay" outcomes

abbrev pub quarantined_records : List (String × ℕ) → ℕ
quarantined_records outcomes = count_starting "QUARANTINED:" outcomes

-- The counters that one record may raise after its arrival.
data Settled (c : Counts) : Counts → Type 0 where
  settled_accepted : Settled c (increment "ACCEPTED" "contract_and_identity_passed" c)
  settled_duplicate : Settled c (increment "DUPLICATE" "exact_event_replay" c)
  settled_quarantined : (r : String) → Settled c (increment "QUARANTINED" r c)

pair_right :
    {t t' : Tables} {c c' : Counts}
    → ◌≡◌ {A = Result StoreError (Tables × Counts)} (ok (t, c)) (ok (t', c'))
    → c ≡ c'
pair_right h = cc h

module _ (p : Platform) (run_id : String) where
  quarantine_one-Settled :
      (id : Option String) (reason : String) (raw : Fields) (t : Tables) (c : Counts) {t' : Tables}
      {c' : Counts}
      → quarantine_one p run_id id reason raw t c ≡ ok (t', c')
      → Settled c c'
  unfolding quarantine_one
  quarantine_one-Settled id reason raw t c h =
      let (_, _, last) = >>=-eq-ok (insert_quarantine run_id id reason _ t) _ h in
      subst (Settled c) (pair_right last) (settled_quarantined reason)

  accept_one-Settled :
      (event : PaymentEvent) (fingerprint : String) (t : Tables) (c : Counts) {t' : Tables}
      {c' : Counts}
      → accept_one p run_id event fingerprint t c ≡ ok (t', c')
      → Settled c c'
  unfolding accept_one
  accept_one-Settled event fingerprint t c h =
      let (_, _, later) = >>=-eq-ok (insert_seen _ t) _ h in
      let (_, _, last) = >>=-eq-ok (insert_accepted _ _) _ later in
      subst (Settled c) (pair_right last) settled_accepted

  gate_identity-Settled :
      (found : Option String) (event : PaymentEvent) (raw : Fields) (t : Tables) (c : Counts)
      {t' : Tables} {c' : Counts}
      → gate_identity p run_id found event raw t c ≡ ok (t', c')
      → Settled c c'
  unfolding gate_identity
  gate_identity-Settled none event raw t c h = accept_one-Settled event _ t c h
  gate_identity-Settled (some existing) event raw t c h =
      elim (Bool-cases (existing == identity_fingerprint p raw)) [
        | inl same ↦
            let last = rw same at h in subst (Settled c) (pair_right last) settled_duplicate
        | inr other ↦
            let last = rw other at h in
            quarantine_one-Settled (some event.event_id) "identity_payload_conflict" raw t c last
      ]

  gate_contract-Settled :
      (verdict : Result String PaymentEvent) (raw : Fields) (t : Tables) (c : Counts) {t' : Tables}
      {c' : Counts}
      → gate_contract p run_id verdict raw t c ≡ ok (t', c')
      → Settled c c'
  unfolding gate_contract
  gate_contract-Settled (err reason) raw t c h =
      quarantine_one-Settled (get_text "event_id" raw) reason raw t c h
  gate_contract-Settled (ok event) raw t c h =
      gate_identity-Settled (find_identity event.event_id t.seen_event) event raw t c h

-- What holds of the counters after `n` records.
pub record Accounts (n : ℕ) (c : Counts) : Type 0 where
  pub tally : IsTally c
  pub arrived : raw_records (labels c) ≡ n
  pub settled :
      raw_records (labels c)
      ≡ accepted_new (labels c) + duplicates (labels c) + quarantined_records (labels c)

quarantined_is_none : (l r : String) → initials l ≢ 81085 → (label "QUARANTINED" r == l) ≡ false
unfolding initials
quarantined_is_none l r h = eq_false (label "QUARANTINED" r) l (λ e. h (sym (ap initials e)))

quarantined_counts :
    (r : String) (c : Counts)
    → IsTally c
    → let c' = labels (increment "QUARANTINED" r c) in
      (raw_records c' ≡ raw_records (labels c))
      × (accepted_new c' ≡ accepted_new (labels c))
      × (duplicates c' ≡ duplicates (labels c))
      × (quarantined_records c' ≡ quarantined_records (labels c) + 1)
unfolding initials
quarantined_counts r c t = (
  count_of-increment quarantined r "ARRIVAL:raw_record_read" c t
      ∙ rw (quarantined_is_none "ARRIVAL:raw_record_read" r (omega arith)) (omega arith),
  count_of-increment quarantined r "ACCEPTED:contract_and_identity_passed" c t
      ∙ rw (quarantined_is_none "ACCEPTED:contract_and_identity_passed" r (omega arith))
          (omega arith),
  count_of-increment quarantined r "DUPLICATE:exact_event_replay" c t
      ∙ rw (quarantined_is_none "DUPLICATE:exact_event_replay" r (omega arith)) (omega arith),
  count_starting-increment quarantined r "QUARANTINED:" c ∙ rw (starts_with-<> "QUARANTINED:" r),
)

module _ (k : Outcome) (r : String) (c : Counts) (t : IsTally c) where
  -- What an increment adds to each reading.
  counts_added :
      let c' = labels (increment (outcome_name k) r c) in
      (raw_records c'
        ≡ raw_records (labels c)
          + (if label (outcome_name k) r == "ARRIVAL:raw_record_read" then 1 else 0))
      × (accepted_new c'
          ≡ accepted_new (labels c)
            + (if label (outcome_name k) r == "ACCEPTED:contract_and_identity_passed"
                then 1
                else 0))
      × (duplicates c'
          ≡ duplicates (labels c)
            + (if label (outcome_name k) r == "DUPLICATE:exact_event_replay" then 1 else 0))
      × (quarantined_records c'
          ≡ quarantined_records (labels c)
            + (if starts_with (label (outcome_name k) r) "QUARANTINED:" then 1 else 0))
  counts_added = (
    count_of-increment k r "ARRIVAL:raw_record_read" c t,
    count_of-increment k r "ACCEPTED:contract_and_identity_passed" c t,
    count_of-increment k r "DUPLICATE:exact_event_replay" c t,
    count_starting-increment k r "QUARANTINED:" c,
  )

record_Accounts :
    (n : ℕ) (c : Counts) {c' : Counts}
    → Accounts n c
    → Settled (increment "ARRIVAL" "raw_record_read" c) c'
    → Accounts (suc n) c'
record_Accounts n c a settled_accepted =
    let t = increment-IsTally arrival "raw_record_read" c a.tally in
    let (x₀, x₁, x₂, x₃) = counts_added arrival "raw_record_read" c a.tally in
    let (y₀, y₁, y₂, y₃) =
      counts_added accepted "contract_and_identity_passed" (increment "ARRIVAL" "raw_record_read" c)
        t in
    record {
      tally =
          increment-IsTally accepted "contract_and_identity_passed"
            (increment "ARRIVAL" "raw_record_read" c) t;
      arrived = omega (arith, a.arrived);
      settled = omega (arith, a.settled);
    }
record_Accounts n c a settled_duplicate =
    let t = increment-IsTally arrival "raw_record_read" c a.tally in
    let (x₀, x₁, x₂, x₃) = counts_added arrival "raw_record_read" c a.tally in
    let (y₀, y₁, y₂, y₃) =
      counts_added duplicate "exact_event_replay" (increment "ARRIVAL" "raw_record_read" c) t in
    record {
      tally =
          increment-IsTally duplicate "exact_event_replay" (increment "ARRIVAL" "raw_record_read" c)
            t;
      arrived = omega (arith, a.arrived);
      settled = omega (arith, a.settled);
    }
record_Accounts n c a (settled_quarantined r) =
    let t = increment-IsTally arrival "raw_record_read" c a.tally in
    let (x₀, x₁, x₂, x₃) = counts_added arrival "raw_record_read" c a.tally in
    let (y₀, y₁, y₂, y₃) = quarantined_counts r (increment "ARRIVAL" "raw_record_read" c) t in
    record {
      tally = increment-IsTally quarantined r (increment "ARRIVAL" "raw_record_read" c) t;
      arrived = omega (arith, a.arrived);
      settled = omega (arith, a.settled);
    }

pub ingest_all-Accounts :
    (p : Platform) (run : Run) (items : List (Result StoreError Fields)) (n : ℕ) (t t' : Tables)
    (c c' : Counts)
    → Accounts n c
    → ingest_all p run items t c ≡ ok (t', c')
    → Accounts (n + length items) c'
unfolding ingest_all ingest_one
ingest_all-Accounts p run [] n t t' c c' a h =
    subst (λ m. Accounts m c') (omega arith) (subst (Accounts n) (pair_right h) a)
ingest_all-Accounts p run (item ∷ items) n t t' c c' a h =
    let (raw, _, later) = >>=-eq-ok item _ h in
    let ((t₁, c₁), one, rest) =
      >>=-eq-ok
        (ingest_one p run.run_id raw run.registry run.token_key t
          (increment "ARRIVAL" "raw_record_read" c))
        _ later in
    let settled =
      gate_contract-Settled p run.run_id (validate_event p raw run.registry run.token_key) raw t
        (increment "ARRIVAL" "raw_record_read" c) one in
    subst (λ m. Accounts m c') (omega arith)
      (ingest_all-Accounts p run items (suc n) t₁ t' c₁ c' (record_Accounts n c a settled) rest)

pub Accounts-nil : Accounts 0 []
unfolding count_of count_starting
Accounts-nil = record { tally = tt; arrived = refl; settled = refl }
