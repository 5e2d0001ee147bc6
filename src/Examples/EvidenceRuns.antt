-- ===== src/Examples/EvidenceRuns.antt =====
-- spark_jobs/reconcile_settlements.py at a concrete input.
use ledgerflow_payment_recon.Prelude.{
  ◌≡◌, refl, arith, false, String, List, [], ◌∷◌, All, eq_String, eq_pair,
}
use ledgerflow_payment_recon.Prelude.Int.{pos, ◌+ℤ◌, ◌-ℤ◌, neg}
use ledgerflow_payment_recon.Prelude.Int64.{wrap, sum64}
use ledgerflow_payment_recon.Prelude.Sets.{contains, distinct, sum}
use ledgerflow_payment_recon.Prelude.Result.{ok}
use ledgerflow_payment_recon.Store.Amounts.{amount_or_zero}
use ledgerflow_payment_recon.Store.Settlement.{Key}
use ledgerflow_payment_recon.Spark.Settlement.{
  Evidence, posted_of_day, sum_for, expected_rows, full_join, differing, overwrite_day,
  settlement_gate, reconcile_settlements,
}
use ledgerflow_payment_recon.Spark.Settlement.Gate.{
  evidence_keys, posted_for, IsSmall, reconcile_settlements_sound,
}
use ledgerflow_payment_recon.Examples.SparkRuns.{rows}

abbrev day : String → String
day s = s

abbrev evidence : List Evidence
evidence = (("2026-01-01", ("p1", "USD")), pos 50) ∷ []

evidence_passes : (reconcile_settlements day "2026-01-01" rows ("t2" ∷ []) evidence []).1 ≡ ok tt
unfolding reconcile_settlements posted_of_day sum_for expected_rows full_join differing
    overwrite_day settlement_gate amount_or_zero distinct sum64 wrap ◌+ℤ◌ ◌-ℤ◌ neg
evidence_passes = refl

day-IsSmall : IsSmall (posted_of_day day "2026-01-01" rows ("t2" ∷ []))
unfolding posted_of_day sum
day-IsSmall = omega arith

reconcile_settlements_sound_example :
    All
      (λ (a : Evidence). posted_for day a.0 (posted_of_day day "2026-01-01" rows ("t2" ∷ [])) ≡ a.1)
      evidence
    × ((k : Key)
        → contains k (evidence_keys evidence) ≡ false
        → posted_for day k (posted_of_day day "2026-01-01" rows ("t2" ∷ [])) ≡ pos 0)
reconcile_settlements_sound_example =
    reconcile_settlements_sound day "2026-01-01" rows ("t2" ∷ []) evidence [] (refl, tt) day-IsSmall
      evidence_passes
