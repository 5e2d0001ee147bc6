-- ===== src/Simulator/Counts.antt =====
-- The counts of `generate_payment_events` in ledgerflow/simulator.py, and that its loop ends.
use ledgerflow_payment_recon.Prelude.{
  ℕ, zero, suc, ◌+◌, ◌-◌, ◌%◌, ◌/◌, ◌≤◌, ◌<◌, ◌≡◌, refl, ap, ◌∙◌, All, false, ◌||◌, List, [], ◌∷◌,
  ◌++◌, length, length-append, filter, ltb, ◌==◌, eq_String, eq_ℕ, arith, Bool-cases, inl, inr,
}
use ledgerflow_payment_recon.Prelude.Result.{ok}
use ledgerflow_payment_recon.Json.{Fields}
use ledgerflow_payment_recon.Interleaving.{In}
use ledgerflow_payment_recon.Simulator.Injected.{
  AreFaults, HasAmount, lifecycles-HasAmount, duplicates-In, length-duplicates, faults-AreFaults,
}
use ledgerflow_payment_recon.Contracts.{Source, Registry}
use ledgerflow_payment_recon.Simulator.{
  Library, nth, reversal_of, transaction_events, lifecycles, duplicates, duplicate_bound, faults,
  Generated, generated, from_sources, sources_of, generate_payment_events,
}

module _ (lib : Library) where
  length-events :
      (n : ℕ) (s : Source)
      → (2 ≤ length (transaction_events lib n s)) × (length (transaction_events lib n s) ≤ 3)
  unfolding transaction_events reversal_of
  length-events n s = (ground arith, ground arith)

  -- What the loop has generated from a count on, where the fuel covers what is missing.
  lifecycles-count :
      (fuel minimum : ℕ) (first : Source) (sources : List Source) (n count : ℕ)
      → minimum ≤ count + fuel
      → count ≤ minimum + 2
      → (minimum ≤ count + length (lifecycles lib fuel minimum first sources n count).0)
        × (count + length (lifecycles lib fuel minimum first sources n count).0 ≤ minimum + 2)
  unfolding lifecycles
  lifecycles-count zero minimum first sources n count enough few =
      (omega (arith, enough), omega (arith, few))
  lifecycles-count (suc fuel) minimum first sources n count enough few =
      elim (Bool-cases (ltb count minimum)) [
        | inl e ↦
            let events = transaction_events lib n (nth ((n - 1) % length sources) first sources) in
            let (two, three) = length-events n (nth ((n - 1) % length sources) first sources) in
            let below : count < minimum = ground (arith, e) in
            let (lower, upper) =
              lifecycles-count fuel minimum first sources (suc n) (count + length events)
                (omega (arith, enough, two)) (omega (arith, below, three)) in
            let whole =
              length-append events
                (lifecycles lib fuel minimum first sources (suc n) (count + length events)).0 in
            rw (e, whole) (omega (arith, lower), omega (arith, upper))
        | inr e ↦
            let above : minimum ≤ count = ground (arith, e) in
            rw e (omega (arith, above), omega (arith, few))
      ]

  -- What is written and what the report counts.
  pub record IsCounted (minimum : ℕ) (g : Generated lib) : Type 0 where
    pub first : Fields
    pub second : Fields
    pub rest : List Fields
    pub copies : List Fields
    pub injected : List Fields
    pub valid : g.valid ≡ first ∷ second ∷ rest
    pub at_least : minimum ≤ length g.valid
    pub at_most : length g.valid ≤ minimum + 2
    pub arrived : g.arrivals ≡ lib.shuffle g.valid ++ (copies ++ injected)
    pub copied : All (λ e. In e g.valid) copies
    pub counted : g.exact_duplicates ≡ length copies
    pub halved : g.exact_duplicates ≡ (duplicate_bound lib (length g.valid) + 1) / 2
    pub faulty : AreFaults first second injected
    pub accounted : length g.arrivals ≡ length g.valid + g.exact_duplicates + 4

  bound_within : (n : ℕ) → duplicate_bound lib n ≤ n
  unfolding duplicate_bound
  bound_within n = ground arith

  generated-IsCounted :
      ((events : List Fields) → length (lib.shuffle events) ≡ length events)
      → (minimum n : ℕ) (valid : List Fields) → 100 ≤ minimum
      → minimum ≤ length valid
      → length valid ≤ minimum + 2
      → HasAmount valid
      → (g : Generated lib) × (generated lib (valid, n) ≡ ok g) × IsCounted minimum g
  unfolding generated
  generated-IsCounted shuffles minimum n [] big lower upper amount =
      absurd (omega (arith, big, lower))
  generated-IsCounted shuffles minimum n (a ∷ []) big lower upper amount =
      absurd (omega (arith, big, lower))
  generated-IsCounted shuffles minimum n (a ∷ b ∷ rest) big lower upper (m, amount) =
      let valid = a ∷ b ∷ rest in
      let copies = duplicates lib (duplicate_bound lib (length valid)) valid in
      let four = faults-AreFaults lib a b m amount in
      let inner = length-append copies (faults lib a b) in
      let outer = length-append (lib.shuffle valid) (copies ++ faults lib a b) in
      (
        _,
        refl,
        record {
          first = a;
          second = b;
          rest = rest;
          copies = copies;
          injected = faults lib a b;
          valid = refl;
          at_least = lower;
          at_most = upper;
          arrived = refl;
          copied = duplicates-In lib (duplicate_bound lib (length valid)) valid;
          counted = refl;
          halved =
              length-duplicates lib (duplicate_bound lib (length valid)) valid
                (bound_within (length valid));
          faulty = four;
          accounted = outer ∙ omega (arith, inner, shuffles valid, ap length four.listed);
        },
      )

  -- With a shuffle that keeps the length, a registry that has a stream or cdc source and a
  -- minimum of at least 100, generate_payment_events ends its loop and returns at least the
  -- minimum of valid events and at most two more, and its arrivals are the shuffled valid events,
  -- then the exact duplicates, which are copies of valid events and half as many as the bound of
  -- their indices, then four faults: a record with the identifiers of the first valid event and
  -- one more in amount, and three with identifiers of their own, made from the second one, with a
  -- negative amount, an unsupported schema version and a card number.
  pub generate_payment_events-IsCounted :
      ((events : List Fields) → length (lib.shuffle events) ≡ length events)
      → (registry : Registry) (minimum : ℕ) → 100 ≤ minimum
      → 1
        ≤ length (
            filter
              (λ (s : Source). s.mode == "stream" || s.mode == "cdc")
              (sources_of lib registry))
      → (g : Generated lib) × (generate_payment_events lib registry minimum ≡ ok g)
        × IsCounted minimum g
  unfolding generate_payment_events from_sources
  generate_payment_events-IsCounted shuffles registry minimum big some_source =
      let enough : ltb minimum 100 ≡ false = ground (arith, big) in
      rw enough (
        from
          (filter (λ (s : Source). s.mode == "stream" || s.mode == "cdc") (sources_of lib registry))
          some_source)
    where
      from :
          (sources : List Source)
          → 1 ≤ length sources
          → (g : Generated lib) × (from_sources lib minimum sources ≡ ok g) × IsCounted minimum g
      from [] none_there = absurd (omega (arith, none_there))
      from (s ∷ sources) there =
          let (lower, upper) =
            lifecycles-count minimum minimum s (s ∷ sources) 1 0 (omega arith) (omega arith) in
          generated-IsCounted shuffles minimum
            (lifecycles lib minimum minimum s (s ∷ sources) 1 0).1
            (lifecycles lib minimum minimum s (s ∷ sources) 1 0).0 big (omega (arith, lower))
            (omega (arith, upper)) (lifecycles-HasAmount lib minimum minimum s (s ∷ sources) 1 0)
