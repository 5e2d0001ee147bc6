-- ===== src/Store/Settlement/Gate.antt =====
-- The settlement gate of ledgerflow/store.py: its exceptions are exactly the differences.
use mathlib.Core.Path.{subst}
use ledgerflow_payment_recon.Prelude.{
  ◌≡◌, ◌≢◌, refl, sym, ap, ◌∙◌, Bool, true, false, List, [], ◌∷◌, ◌++◌, any, All, length, arith,
  ◌==◌, eq_ℕ, eq_String, eq_pair, pair_eq_iff, Bool-cases, ◌⊎◌, inl, inr, if◌then◌else◌, All-append,
}
use ledgerflow_payment_recon.Prelude.Int.{
  ℤ, pos, pos_part, neg_part, ◌+ℤ◌, ◌-ℤ◌, eq_ℤ, int_eq_iff, int_laws, +ℤ_zero, zero-+ℤ, +ℤ_assoc,
}
use ledgerflow_payment_recon.Prelude.Sets.{contains}
use ledgerflow_payment_recon.Prelude.Result.{ok, >>=-eq-ok}
use ledgerflow_payment_recon.Store.Tables.{Tables, SettlementException}
use ledgerflow_payment_recon.Store.Amounts.{amount_or_zero}
use ledgerflow_payment_recon.Store.Settlement.{
  Key, exception_key, exception_row, insert_settlement_exception, compare_key, compare_keys,
}

-- The differences that the exceptions of one key record.
unfoldable pub delta_for : Key → List SettlementException → ℤ
delta_for k [] = pos 0
delta_for k (row ∷ rows) =
    (if k == exception_key row then row.delta_minor else pos 0) +ℤ delta_for k rows

delta_for-append :
    (k : Key) (row : SettlementException) (rows : List SettlementException)
    → delta_for k (rows ++ row ∷ [])
      ≡ delta_for k rows +ℤ (if k == exception_key row then row.delta_minor else pos 0)
unfolding delta_for
delta_for-append k row [] = rw (+ℤ_zero, zero-+ℤ)
delta_for-append k row (r ∷ rows) = rw (delta_for-append k row rows, +ℤ_assoc)

delta_for_missing :
    (k : Key) (rows : List SettlementException)
    → any (λ (r : SettlementException). exception_key r == k) rows ≡ false
    → delta_for k rows ≡ pos 0
unfolding delta_for
delta_for_missing k [] h = refl
delta_for_missing k (r ∷ rows) h = ground (
  arith,
  delta_for_missing k rows,
  pair_eq_iff k (exception_key r),
  pair_eq_iff (exception_key r) k,
  +ℤ_zero (pos 0),
)

pub sub_self : (a b : ℤ) → a -ℤ b ≡ pos 0 → a ≡ b
sub_self a b h = omega (int_laws, ap pos_part h, ap neg_part h)

-- A row that was inserted had a key that no earlier row has.
record Added (row : SettlementException) (t t' : Tables) : Type 0 where
  fresh :
      any (λ (r : SettlementException). exception_key r == exception_key row) t.settlement_exception
      ≡ false
  stored : t'.settlement_exception ≡ t.settlement_exception ++ row ∷ []

added_lem :
    (row : SettlementException) (t t' : Tables)
    → insert_settlement_exception row t ≡ ok t'
    → Added row t t'
unfolding insert_settlement_exception
added_lem row t t' h = ground arith

-- Two turns of a loop that sets a reading to `d`.
after :
    (b c : Bool) (d before now later : ℤ)
    → now ≡ (if b then d else before)
    → ((now ≡ pos 0) ⊎ (now ≡ d) → later ≡ (if c then d else now))
    → (before ≡ pos 0) ⊎ (before ≡ d)
    → later ≡ (if if b then true else c then d else before)
after true true d before now later e f start = f (inr e)
after true false d before now later e f start = f (inr e) ∙ e
after false true d before now later e f start =
    f (elim start [ inl z ↦ inl (e ∙ z) | inr z ↦ inr (e ∙ z) ])
after false false d before now later e f start =
    f (elim start [ inl z ↦ inl (e ∙ z) | inr z ↦ inr (e ∙ z) ]) ∙ e

module _ (expected actual : List (Key × ℤ)) where
  -- The difference of one key.
  abbrev pub difference : Key → ℤ
  difference k = amount_or_zero k expected -ℤ amount_or_zero k actual

  -- A row that says what the two sides are for its key, and that they differ.
  pub record IsExact (row : SettlementException) : Type 0 where
    pub expected_minor : row.expected_minor ≡ amount_or_zero (exception_key row) expected
    pub actual_minor : row.actual_minor ≡ amount_or_zero (exception_key row) actual
    pub delta_minor : row.delta_minor ≡ difference (exception_key row)
    pub differs : row.delta_minor ≢ pos 0

  -- One turn of the loop.
  record Compared (j : Key) (t t' : Tables) : Type 0 where
    delta :
        (k : Key)
        → (delta_for k t.settlement_exception ≡ pos 0)
          ⊎ (delta_for k t.settlement_exception ≡ difference k)
        → delta_for k t'.settlement_exception
          ≡ (if k == j then difference k else delta_for k t.settlement_exception)
    exact : All IsExact t.settlement_exception → All IsExact t'.settlement_exception

  unchanged : (j : Key) (t : Tables) → difference j ≡ pos 0 → Compared j t t
  unchanged j t zero_here = record {
    delta = λ k start. elim (Bool-cases (k == j)) [
      | inl same ↦
          let none_here : difference k ≡ pos 0 =
            ap difference ((pair_eq_iff k j).0 same) ∙ zero_here in
          rw same (elim start [ inl at_zero ↦ at_zero ∙ sym none_here | inr done ↦ done ])
      | inr other ↦ rw other refl
    ];
    exact = λ rows. rows;
  }

  delta_for-Added :
      (j : Key) (row : SettlementException) (t t' : Tables)
      → exception_key row ≡ j
      → row.delta_minor ≡ difference j
      → Added row t t'
      → (k : Key)
      → delta_for k t'.settlement_exception
        ≡ (if k == j then difference k else delta_for k t.settlement_exception)
  delta_for-Added j row t t' keyed value a k =
      ap (delta_for k) a.stored
      ∙ delta_for-append k row t.settlement_exception
      ∙ ap (λ x. delta_for k t.settlement_exception +ℤ (if k == x then row.delta_minor else pos 0))
          keyed
      ∙ elim (Bool-cases (k == j)) [
        | inl same ↦
            let e = (pair_eq_iff k j).0 same in
            rw same (
              ap (λ n. n +ℤ row.delta_minor)
                (ap (λ x. delta_for x t.settlement_exception) (e ∙ sym keyed)
                  ∙ delta_for_missing (exception_key row) t.settlement_exception a.fresh)
              ∙ zero-+ℤ row.delta_minor
              ∙ value
              ∙ ap difference (sym e))
        | inr other ↦ rw other (+ℤ_zero (delta_for k t.settlement_exception))
      ]

  row_IsExact :
      (j : Key)
      → difference j ≢ pos 0
      → IsExact (exception_row j (amount_or_zero j expected) (amount_or_zero j actual))
  unfolding exception_row
  row_IsExact j differ = record {
    expected_minor = refl;
    actual_minor = refl;
    delta_minor = refl;
    differs = differ;
  }

  compare_key-Compared :
      (j : Key) (t t' : Tables)
      → compare_key j (amount_or_zero j expected) (amount_or_zero j actual) t ≡ ok t'
      → Compared j t t'
  unfolding compare_key
  compare_key-Compared j t t' h = elim (Bool-cases (difference j == pos 0)) [
    | inl equal ↦
        let e : t ≡ t' = cc (rw equal at h) in
        subst (Compared j t) e (unchanged j t ((int_eq_iff (difference j) (pos 0)).0 equal))
    | inr differ ↦
        let row = exception_row j (amount_or_zero j expected) (amount_or_zero j actual) in
        let a = added_lem row t t' (rw differ at h) in
        let apart : difference j ≢ pos 0 =
          λ e. cc (differ, (int_eq_iff (difference j) (pos 0)).1 e) in
        record {
          delta = λ k _. delta_for-Added j row t t' refl refl a k;
          exact = λ rows.
              rw a.stored (
                All-append IsExact t.settlement_exception (row ∷ []) rows
                  (row_IsExact j apart, tt));
        }
  ]

  -- All turns of the loop.
  pub record Settled (ks : List Key) (t t' : Tables) : Type 0 where
    pub delta :
        (k : Key)
        → (delta_for k t.settlement_exception ≡ pos 0)
          ⊎ (delta_for k t.settlement_exception ≡ difference k)
        → delta_for k t'.settlement_exception
          ≡ (if contains k ks then difference k else delta_for k t.settlement_exception)
    pub exact : All IsExact t.settlement_exception → All IsExact t'.settlement_exception

  pub compare_keys-Settled :
      (ks : List Key) (t t' : Tables) → compare_keys ks expected actual t ≡ ok t' → Settled ks t t'
  unfolding compare_keys
  compare_keys-Settled [] t t' h =
      let e : t ≡ t' = cc h in
      subst (Settled [] t) e (record { delta = λ k _. refl; exact = λ rows. rows })
  compare_keys-Settled (j ∷ ks) t t' h =
      let (mid, first, rest) =
        >>=-eq-ok (compare_key j _ _ t) (compare_keys ks expected actual) h in
      let c = compare_key-Compared j t mid first in
      let s = compare_keys-Settled ks mid t' rest in
      record {
        delta =
            λ k start. after (k == j) (contains k ks) _ _ _ _ (c.delta k start) (s.delta k) start;
        exact = λ rows. s.exact (c.exact rows);
      }

  -- Where the sides agree no exact row can stand.
  pub no_exact_row :
      (rows : List SettlementException)
      → All IsExact rows
      → ((k : Key) → difference k ≡ pos 0)
      → (length rows == 0) ≡ true
  no_exact_row [] exact agree = refl
  no_exact_row (row ∷ rows) (here, later) agree =
      absurd (here.differs (here.delta_minor ∙ agree (exception_key row)))
