-- ===== src/Contracts/Registry/Sound.antt =====
-- What `load_source_registry` of ledgerflow/contracts.py establishes.
use mathlib.Core.Path.{subst}
use ledgerflow_payment_recon.Prelude.{
  ℕ, zero, suc, String, ◌≡◌, refl, ◌≤◌, true, List, [], ◌∷◌, ◌++◌, length, All, All-append, Option,
  none, some, ◌==◌, eq_String, eq_iff, arith, Bool-cases, Option-cases, inl, inr,
}
use ledgerflow_payment_recon.Prelude.Int.{ℤ, pos}
use ledgerflow_payment_recon.Prelude.Text.{is_member}
use ledgerflow_payment_recon.Prelude.Result.{ok, ok_inj, after_ok}
use ledgerflow_payment_recon.Json.{Value, text, object, Items, nil, cons, Fields, get, as_int}
use ledgerflow_payment_recon.Contracts.{Source, Registry, find_source}
use ledgerflow_payment_recon.Contracts.Registry.{
  modes, contracts, missing_of, require_fields, field_of, positive_of, member_of, Family, family_of,
  source_of, insert_source, add_source, add_instances, add_family, add_families, families_of,
  nonempty, load_source_registry,
}

-- A source that the configuration may have.
pub record IsAllowed (s : Source) : Type 0 where
  pub mode : is_member s.mode modes ≡ true
  pub contract : is_member s.contract contracts ≡ true
  pub fresh : 1 ≤ s.freshness_minutes

-- An entry is what its key finds in the registry, and is allowed.
abbrev pub IsEntry : Registry → String × Source → Type 0
IsEntry registry (k, s) = (find_source k registry ≡ some s) × (s.source_id ≡ k) × IsAllowed s

find_source-append :
    (k : String) (s : Source) (a b : Registry)
    → find_source k a ≡ some s
    → find_source k (a ++ b) ≡ some s
unfolding find_source
find_source-append k s [] b h = cc
find_source-append k s ((j, t) ∷ a) b h = elim (Bool-cases (j == k)) [
  | inl e ↦ let g = rw e at h in rw e g
  | inr e ↦ let g = rw e at h in rw e (find_source-append k s a b g)
]

find_source-new :
    (k : String) (s : Source) (a : Registry)
    → find_source k a ≡ none
    → find_source k (a ++ (k, s) ∷ []) ≡ some s
unfolding find_source
find_source-new k s [] h = let self : (k == k) ≡ true = (eq_iff k k).1 refl in rw self refl
find_source-new k s ((j, t) ∷ a) h = elim (Bool-cases (j == k)) [
  | inl e ↦ let g = rw e at h in cc
  | inr e ↦ let g = rw e at h in rw e (find_source-new k s a g)
]

abbrev IsLoaded : Registry → Type 0
IsLoaded registry = All (IsEntry registry) registry

entries-append : (a b l : Registry) → All (IsEntry a) l → All (IsEntry (a ++ b)) l
entries-append a b [] h = tt
entries-append a b ((k, s) ∷ l) ((found, own, good), hs) =
    ((find_source-append k s a b found, own, good), entries-append a b l hs)

module _ (str : Value → String) where
  add_source-IsLoaded :
      (s : Source) (a b : Registry)
      → add_source str s a ≡ ok b
      → IsAllowed s
      → IsLoaded a
      → IsLoaded b
  unfolding add_source insert_source
  add_source-IsLoaded s a b h good loaded = elim (Option-cases (find_source s.source_id a)) [
    | inl e ↦
        let k = rw e at h in
        subst IsLoaded (ok_inj k) (
          All-append (IsEntry (a ++ (s.source_id, s) ∷ [])) a ((s.source_id, s) ∷ [])
            (entries-append a ((s.source_id, s) ∷ []) a loaded)
            ((find_source-new s.source_id s a e, refl, good), tt))
    | inr (old, e) ↦ let k = rw e at h in cc
  ]

  member_of-eq :
      (v : Value) (names : List String) (reason s : String)
      → member_of str v names reason ≡ ok s
      → is_member s names ≡ true
  unfolding member_of
  member_of-eq (text t) names reason s h = elim (Bool-cases (is_member t names)) [
    | inl e ↦ let k = rw e at h in subst (λ u. is_member u names ≡ true) (ok_inj k) e
    | inr e ↦ let k = rw e at h in cc
  ]
  member_of-eq v names reason s h = cc

  positive_of-eq : (o : Option ℤ) (reason : String) (n : ℕ) → positive_of o reason ≡ ok n → 1 ≤ n
  unfolding positive_of
  positive_of-eq (some (pos (suc k))) reason n h = let e : suc k ≡ n = ok_inj h in omega (arith, e)
  positive_of-eq o reason n h = cc

  family_of-IsAllowed :
      (fs : Fields) (f : Family str) (number : ℕ)
      → family_of str fs ≡ ok f
      → IsAllowed (source_of str f number)
  unfolding family_of source_of
  family_of-IsAllowed fs f number h = after_ok (require_fields (missing_of fs)) _ h λ u e0 k0.
      after_ok (member_of str (field_of "mode" fs) modes "unsupported_source_mode:") _ k0
        λ mode e1 k1.
          after_ok (member_of str (field_of "contract" fs) contracts "unsupported_source_contract:")
            _ k1
            λ contract e2 k2.
              after_ok (positive_of (as_int (field_of "instances" fs)) "invalid_source_instances") _
                k2
                λ n e3 k3.
                  after_ok
                    (positive_of (as_int (field_of "freshness_minutes" fs))
                      "invalid_freshness_minutes")
                    _ k3
                    λ m e4 k4.
                      subst (λ g. IsAllowed (source_of str g number)) (ok_inj k4)
                        (record {
                          mode =
                              member_of-eq (field_of "mode" fs) modes "unsupported_source_mode:"
                                mode e1;
                          contract =
                              member_of-eq (field_of "contract" fs) contracts
                                "unsupported_source_contract:" contract e2;
                          fresh =
                              positive_of-eq (as_int (field_of "freshness_minutes" fs))
                                "invalid_freshness_minutes" m e4;
                        })

  add_instances-IsLoaded :
      (f : Family str) (number left : ℕ) (a b : Registry)
      → add_instances str f number left a ≡ ok b
      → ((n : ℕ) → IsAllowed (source_of str f n))
      → IsLoaded a
      → IsLoaded b
  unfolding add_instances
  add_instances-IsLoaded f number zero a b h good loaded = subst IsLoaded (ok_inj h) loaded
  add_instances-IsLoaded f number (suc left) a b h good loaded =
      after_ok (add_source str (source_of str f number) a) _ h λ mid e k.
        add_instances-IsLoaded f (suc number) left mid b k good
          (add_source-IsLoaded (source_of str f number) a mid e (good number) loaded)

  add_family-IsLoaded :
      (v : Value) (a b : Registry) → add_family str v a ≡ ok b → IsLoaded a → IsLoaded b
  unfolding add_family
  add_family-IsLoaded (object fs) a b h loaded = after_ok (family_of str fs) _ h λ f e k.
      add_instances-IsLoaded f 1 f.instances a b k (λ n. family_of-IsAllowed fs f n e) loaded
  add_family-IsLoaded v a b h loaded = cc

  add_families-IsLoaded :
      (vs : Items) (a b : Registry) → add_families str vs a ≡ ok b → IsLoaded a → IsLoaded b
  unfolding add_families
  add_families-IsLoaded nil a b h loaded = subst IsLoaded (ok_inj h) loaded
  add_families-IsLoaded (cons v vs) a b h loaded =
      after_ok (add_family str v a) _ h
        λ mid e k. add_families-IsLoaded vs mid b k (add_family-IsLoaded v a mid e loaded)

  nonempty-eq : (a b : Registry) → nonempty str a ≡ ok b → (a ≡ b) × (1 ≤ length b)
  unfolding nonempty
  nonempty-eq [] b h = cc
  nonempty-eq (s ∷ a) b h =
      let e = ok_inj h in (e, subst (λ (l : Registry). 1 ≤ length l) e (omega arith))

  -- A registry that load_source_registry returns is not empty, and each of its entries is the one
  -- that its key finds, is under its own source id, and has a supported mode, a supported
  -- contract and a freshness of at least one minute.
  pub load_source_registry_sound :
      (raw : Value) (registry : Registry)
      → load_source_registry str raw ≡ ok registry
      → (1 ≤ length registry) × All (IsEntry registry) registry
  unfolding load_source_registry
  load_source_registry_sound (object raw) registry h =
      after_ok (families_of str (get "families" raw)) _ h λ families e0 k0.
        after_ok (add_families str families []) _ k0 λ loaded e1 k1.
          let (same, size) = nonempty-eq loaded registry k1 in
          (size, subst IsLoaded same (add_families-IsLoaded families [] loaded e1 tt))
  load_source_registry_sound v registry h = cc
