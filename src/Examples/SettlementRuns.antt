-- ===== src/Examples/SettlementRuns.antt =====
-- `reconcile_settlement` of ledgerflow/store.py at a concrete input.
use ledgerflow_payment_recon.Prelude.{◌≡◌, refl, false, List, [], ◌∷◌, ◌↔◌, true}
use ledgerflow_payment_recon.Prelude.Int.{pos, ◌-ℤ◌, abs}
use ledgerflow_payment_recon.Prelude.Result.{ok}
use ledgerflow_payment_recon.Contracts.{capture, refund}
use ledgerflow_payment_recon.Store.Tables.{Tables, SettlementRow}
use ledgerflow_payment_recon.Store.Project.{posted_row}
use ledgerflow_payment_recon.Store.Settlement.{Key, Report, reconcile_settlement}
use ledgerflow_payment_recon.Store.Settlement.Sums.{expected_for, actual_for}
use ledgerflow_payment_recon.Store.Settlement.Gate.{delta_for}
use ledgerflow_payment_recon.Store.Settlement.Exact.{reconcile_settlement_exact}
use ledgerflow_payment_recon.Examples.Opened.{settlement_core}
use ledgerflow_payment_recon.Examples.Fixtures.{empty_store, payment}

abbrev posted_store : Tables
posted_store = record empty_store {
  posted_event =
      posted_row (payment "e2" 2 capture 80) ∷ posted_row (payment "e3" 3 refund 30) ∷ [];
}

-- The processor reports less than is expected, and a currency that nobody posted.
abbrev reported : List SettlementRow
reported =
    record {
      business_date = "2026-01-01";
      processor_id = "p1";
      currency = "USD";
      amount_minor = pos 45;
    }
    ∷ record {
      business_date = "2026-01-01";
      processor_id = "p1";
      currency = "EUR";
      amount_minor = pos 2;
    }
    ∷ []

abbrev gate_report : Report
gate_report = record {
  settlement_reconciled = false;
  settlement_exception_count = 2;
  settlement_absolute_delta_minor = pos 7;
}

reports : (reconcile_settlement reported posted_store).1 ≡ ok gate_report
unfolding settlement_core posted_row abs
reports = refl

reconcile_settlement_exact_example :
    ((k : Key)
      → delta_for k (reconcile_settlement reported posted_store).0.settlement_exception
        ≡ expected_for k posted_store.posted_event -ℤ actual_for k reported)
    × ((false ≡ true)
        ↔ ((k : Key) → expected_for k posted_store.posted_event ≡ actual_for k reported))
reconcile_settlement_exact_example =
    reconcile_settlement_exact reported posted_store gate_report reports
