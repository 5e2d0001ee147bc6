-- ===== src/Examples/PostingRuns.antt =====
-- spark_jobs/post_ledger.py at a concrete input.
use ledgerflow_payment_recon.Prelude.{◌≡◌, refl, String, List, [], ◌∷◌, All, length, filter}
use ledgerflow_payment_recon.Prelude.Int.{◌+ℤ◌, neg}
use ledgerflow_payment_recon.Prelude.Sets.{distinct}
use ledgerflow_payment_recon.Prelude.Result.{ok}
use ledgerflow_payment_recon.Contracts.{PaymentEvent}
use ledgerflow_payment_recon.Ledger.{build_postings}
use ledgerflow_payment_recon.Ledger.Config.{config_rules}
use ledgerflow_payment_recon.Spark.Posting.{
  LedgerTables, is_monetary, debit, credit, debit_account, credit_account, timed_line, balance,
  unbalanced, gate, posting_lines, insert_only, affected_history, monetary_events, post_ledger,
}
use ledgerflow_payment_recon.Spark.Posting.Gate.{lines_of, posting_lines-build_postings}
use ledgerflow_payment_recon.Spark.Posting.Rerun.{post_ledger_again}
use ledgerflow_payment_recon.Examples.SparkRuns.{rows}

abbrev nothing_posted : LedgerTables
nothing_posted = record { posted = []; ledger = [] }

abbrev day : String → String
day s = s

abbrev events : List PaymentEvent
events = monetary_events day "2026-01-01" rows ("e9" ∷ [])

abbrev posted_once : LedgerTables
posted_once = record { posted = events; ledger = lines_of events }

posts : post_ledger day "2026-01-01" rows ("e9" ∷ []) nothing_posted ≡ ok posted_once
unfolding post_ledger monetary_events affected_history posting_lines insert_only unbalanced balance
    debit credit debit_account credit_account timed_line gate distinct ◌+ℤ◌ neg
posts = refl

two_events_four_lines : (length posted_once.posted ≡ 2) × (length posted_once.ledger ≡ 4)
unfolding monetary_events affected_history
two_events_four_lines = (refl, refl)

post_ledger_again_example :
    post_ledger day "2026-01-01" rows ("e9" ∷ []) posted_once ≡ ok posted_once
post_ledger_again_example =
    post_ledger_again day "2026-01-01" rows ("e9" ∷ []) nothing_posted posted_once posts

posting_lines-build_postings_example :
    (posting_lines rows ≡ ok (lines_of (filter is_monetary rows)))
    × All
        (λ e. build_postings e config_rules ≡ ok ((debit e).line ∷ (credit e).line ∷ []))
        (filter is_monetary rows)
posting_lines-build_postings_example = posting_lines-build_postings rows
