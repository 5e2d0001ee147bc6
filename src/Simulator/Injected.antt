-- ===== src/Simulator/Injected.antt =====
-- The records that `generate_payment_events` of ledgerflow/simulator.py injects: copies of valid
-- events, a conflict and three faults.
use ledgerflow_payment_recon.Prelude.{
  ℕ, zero, suc, ◌+◌, ◌/◌, ◌≤◌, ◌≡◌, refl, ◌∙◌, String, false, List, [], ◌∷◌, All, length, some, ltb,
  ◌==◌, eq_String, eq_iff, arith, Bool-cases, inl, inr,
}
use ledgerflow_payment_recon.Prelude.Int.{ℤ, pos, negsuc, ◌+ℤ◌}
use ledgerflow_payment_recon.Interleaving.{In}
use ledgerflow_payment_recon.Json.{Value, int, text, Fields, field, end, get}
use ledgerflow_payment_recon.Contracts.{Source}
use ledgerflow_payment_recon.Simulator.{
  Library, amount_for, set_field, event_of, transaction_events, lifecycles, duplicates, faults,
}

get-set : (k : String) (v : Value) (fs : Fields) → get k (set_field k v fs) ≡ some v
unfolding get set_field
get-set k v end = ground (arith, eq_iff k k)
get-set k v (field j w fs) = ground (arith, eq_iff j k, get-set k v fs)

get-set-other :
    (k j : String) (v : Value) (fs : Fields)
    → (k == j) ≡ false
    → get j (set_field k v fs) ≡ get j fs
unfolding get set_field
get-set-other k j v end h = rw h refl
get-set-other k j v (field i w fs) h = elim (Bool-cases (i == k)) [
  | inl same ↦
      let other : (i == j) ≡ false = ground (arith, h, eq_iff i k, eq_iff i j, eq_iff k j) in
      rw (same, other) refl
  | inr apart ↦ rw apart (elim (Bool-cases (i == j)) [
    | inl found ↦ rw found refl
    | inr on ↦ rw on (get-set-other k j v fs h)
  ])
]

-- A record that conflicts with an event: the same identifiers, and one more in amount.
pub record ConflictsWith (e c : Fields) : Type 0 where
  pub event_id : get "event_id" c ≡ get "event_id" e
  pub transaction_id : get "transaction_id" c ≡ get "transaction_id" e
  pub amounts :
      (n : ℤ) × (get "amount_minor" e ≡ some (int n))
      × (get "amount_minor" c ≡ some (int (n +ℤ pos 1)))

-- A record of its own identity with one field of its own, and the kind, the version, the source
-- and the currency of an event.
pub record SpoiltFrom (e : Fields) (id key : String) (v : Value) (c : Fields) : Type 0 where
  pub event_id : get "event_id" c ≡ some (text id)
  pub transaction_id : get "transaction_id" c ≡ some (text id)
  pub spoilt : get key c ≡ some v
  pub kind : get "event_type" c ≡ get "event_type" e
  pub version : get "transaction_version" c ≡ get "transaction_version" e
  pub source_id : get "source_id" c ≡ get "source_id" e
  pub currency : get "currency" c ≡ get "currency" e

-- The four faults, from the first two events.
pub record AreFaults (first second : Fields) (l : List Fields) : Type 0 where
  pub conflict : Fields
  pub amount : Fields
  pub schema : Fields
  pub card : Fields
  pub listed : l ≡ conflict ∷ amount ∷ schema ∷ card ∷ []
  pub conflicting : ConflictsWith first conflict
  pub negative_amount :
      SpoiltFrom second "fixture:invalid-amount" "amount_minor" (int (negsuc 99)) amount
  pub unsupported_schema :
      SpoiltFrom second "fixture:unsupported-schema" "schema_version" (text "9.9") schema
  pub prohibited_field :
      SpoiltFrom second "fixture:prohibited-pan" "card_number" (text "4111111111111111") card

-- The first event of a list, if there is one, has an amount.
abbrev pub HasAmount : List Fields → Type 0
HasAmount [] = Unit
HasAmount (e ∷ events) = (n : ℤ) × (get "amount_minor" e ≡ some (int n))

module _ (lib : Library) where
  pub lifecycles-HasAmount :
      (fuel minimum : ℕ) (first : Source) (sources : List Source) (n count : ℕ)
      → HasAmount (lifecycles lib fuel minimum first sources n count).0
  unfolding lifecycles transaction_events event_of get
  lifecycles-HasAmount zero minimum first sources n count = tt
  lifecycles-HasAmount (suc fuel) minimum first sources n count =
      elim (Bool-cases (ltb count minimum)) [
        | inl e ↦ rw e (pos (amount_for n), refl)
        | inr e ↦ rw e tt
      ]

  pub duplicates-In : (k : ℕ) (valid : List Fields) → All (λ e. In e valid) (duplicates lib k valid)
  unfolding duplicates
  duplicates-In zero valid = tt
  duplicates-In (suc k) [] = tt
  duplicates-In (suc zero) (e ∷ valid) = (inl refl, tt)
  duplicates-In (suc (suc k)) (e ∷ []) = (inl refl, tt)
  duplicates-In (suc (suc k)) (e ∷ d ∷ valid) =
      (inl refl, further (duplicates lib k valid) (duplicates-In k valid))
    where
      further : (l : List Fields) → All (λ x. In x valid) l → All (λ x. In x (e ∷ d ∷ valid)) l
      further [] h = tt
      further (x ∷ l) (h, hs) = (inr (inr h), further l hs)

  pub length-duplicates :
      (k : ℕ) (valid : List Fields)
      → k ≤ length valid
      → length (duplicates lib k valid) ≡ (k + 1) / 2
  unfolding duplicates
  length-duplicates zero valid h = omega arith
  length-duplicates (suc k) [] h = absurd (omega (arith, h))
  length-duplicates (suc zero) (e ∷ valid) h = omega arith
  length-duplicates (suc (suc k)) (e ∷ []) h = absurd (omega (arith, h))
  length-duplicates (suc (suc k)) (e ∷ d ∷ valid) h =
      omega (arith, length-duplicates k valid (omega (arith, h)))

  spoilt_by :
      (e : Fields) (id key : String) (v : Value)
      → (key == "event_id") ≡ false
      → (key == "transaction_id") ≡ false
      → (key == "event_type") ≡ false
      → (key == "transaction_version") ≡ false
      → (key == "source_id") ≡ false
      → (key == "currency") ≡ false
      → SpoiltFrom e id key v (
          set_field key v (set_field "transaction_id" (text id) (set_field "event_id" (text id) e)))
  spoilt_by e id key v a b c d f g =
      let with_id = set_field "event_id" (text id) e in
      let with_both = set_field "transaction_id" (text id) with_id in
      record {
        event_id =
            get-set-other key "event_id" v with_both a
            ∙ get-set-other "transaction_id" "event_id" (text id) with_id refl
            ∙ get-set "event_id" (text id) e;
        transaction_id =
            get-set-other key "transaction_id" v with_both b
            ∙ get-set "transaction_id" (text id) with_id;
        spoilt = get-set key v with_both;
        kind = kept "event_type" c refl refl;
        version = kept "transaction_version" d refl refl;
        source_id = kept "source_id" f refl refl;
        currency = kept "currency" g refl refl;
      }
    where
      kept :
          (k : String)
          → (key == k) ≡ false
          → ("transaction_id" == k) ≡ false
          → ("event_id" == k) ≡ false
          → get k (
              set_field key v
                (set_field "transaction_id" (text id) (set_field "event_id" (text id) e)))
            ≡ get k e
      kept k h i j =
          get-set-other key k v _ h
          ∙ get-set-other "transaction_id" k (text id) _ i
          ∙ get-set-other "event_id" k (text id) e j

  pub faults-AreFaults :
      (first second : Fields) (n : ℤ)
      → get "amount_minor" first ≡ some (int n)
      → AreFaults first second (faults lib first second)
  unfolding faults
  faults-AreFaults first second n amount = record {
    conflict = _;
    amount = _;
    schema = _;
    card = _;
    listed = refl;
    conflicting = record {
      event_id =
          get-set-other "received_at" "event_id" _ _ refl
          ∙ get-set-other "amount_minor" "event_id" _ first refl;
      transaction_id =
          get-set-other "received_at" "transaction_id" _ _ refl
          ∙ get-set-other "amount_minor" "transaction_id" _ first refl;
      amounts = (
        n,
        amount,
        get-set-other "received_at" "amount_minor" _ _ refl
            ∙ get-set "amount_minor" _ first
            ∙ rw amount refl,
      );
    };
    negative_amount =
        spoilt_by second "fixture:invalid-amount" "amount_minor" _ refl refl refl refl refl refl;
    unsupported_schema =
        spoilt_by second "fixture:unsupported-schema" "schema_version" _ refl refl refl refl refl
          refl;
    prohibited_field =
        spoilt_by second "fixture:prohibited-pan" "card_number" _ refl refl refl refl refl refl;
  }
