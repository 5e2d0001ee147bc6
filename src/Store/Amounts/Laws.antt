-- ===== src/Store/Amounts/Laws.antt =====
-- What the readings of a dict of amounts become.
use ledgerflow_payment_recon.Prelude.{
  ◌≡◌, refl, false, List, [], ◌∷◌, map, arith, Eq, ◌==◌, Bool-cases, inl, inr, if◌then◌else◌,
}
use ledgerflow_payment_recon.Prelude.Int.{ℤ, pos, ◌+ℤ◌, +ℤ_zero, zero-+ℤ}
use ledgerflow_payment_recon.Prelude.Result.{ok, >>=-eq-ok}
use ledgerflow_payment_recon.Prelude.Sets.{contains}
use ledgerflow_payment_recon.Store.Amounts.{fitting, add_to_key, amount_or_zero, put_amount}

fitting-eq : (n : ℤ) {m : ℤ} → fitting n ≡ ok m → m ≡ n
unfolding fitting
fitting-eq n h = ground arith

module _ {K : Type 0} ⦃e : Eq K⦄ where
  pub amount-add_to_key :
      (k j : K) (amount : ℤ) (groups groups' : List (K × ℤ))
      → add_to_key j amount groups ≡ ok groups'
      → amount_or_zero k groups' ≡ amount_or_zero k groups +ℤ (if k == j then amount else pos 0)
  unfolding amount_or_zero add_to_key
  amount-add_to_key k j amount [] groups' h =
      let (n, fit, last) = >>=-eq-ok (fitting amount) _ h in
      ground (arith, fitting-eq amount fit, zero-+ℤ amount, +ℤ_zero (pos 0))
  amount-add_to_key k j amount ((i, total) ∷ rest) groups' h = elim (Bool-cases (j == i)) [
    | inl same ↦
        let h' = rw same at h in
        let (n, fit, last) = >>=-eq-ok (fitting (total +ℤ amount)) _ h' in
        ground (
          arith,
          fitting-eq (total +ℤ amount) fit,
          (e.beq_iff j i).0 same,
          +ℤ_zero (amount_or_zero k rest),
        )
    | inr other ↦
        let h' = rw other at h in
        let (rest', grown, last) = >>=-eq-ok (add_to_key j amount rest) _ h' in
        ground (
          arith,
          amount-add_to_key k j amount rest rest' grown,
          e.beq_iff k i,
          e.beq_iff k j,
          e.beq_iff j i,
          +ℤ_zero total,
        )
  ]

  pub amount-put_amount :
      (k j : K) (n : ℤ) (d : List (K × ℤ))
      → amount_or_zero k (put_amount j n d) ≡ (if k == j then n else amount_or_zero k d)
  unfolding amount_or_zero put_amount
  amount-put_amount k j n [] = refl
  amount-put_amount k j n ((i, m) ∷ rest) =
      ground (arith, amount-put_amount k j n rest, e.beq_iff k i, e.beq_iff k j, e.beq_iff j i)

  pub amount_missing :
      (k : K) (d : List (K × ℤ))
      → contains k (map (λ g. g.0) d) ≡ false
      → amount_or_zero k d ≡ pos 0
  unfolding amount_or_zero
  amount_missing k [] h = refl
  amount_missing k ((i, m) ∷ rest) h = ground (arith, amount_missing k rest)
