-- ===== src/Examples/Opened.antt =====
-- What a run of `process` computes with, for the tests that evaluate one.
use ledgerflow_payment_recon.Prelude.Int.{◌+ℤ◌, ◌*ℤ◌, ◌-ℤ◌, neg}
use ledgerflow_payment_recon.Prelude.Text.{
  first_chars, decimal, decimal_ℤ, contains_code, join_comma,
}
use ledgerflow_payment_recon.Prelude.Order.{insert_by, sort_by}
use ledgerflow_payment_recon.Prelude.Sets.{distinct, minimum, maximum, sum}
use ledgerflow_payment_recon.Json.{get, has_key, keys, get_text}
use ledgerflow_payment_recon.Json.Dumps.{canonical_json}
use ledgerflow_payment_recon.Contracts.{find_source, event_type_of}
use ledgerflow_payment_recon.Contracts.Privacy.{reject_prohibited_fields, redact_payload}
use ledgerflow_payment_recon.Contracts.Identity.{
  identity_of, identity_fingerprint, tokenize_customer,
}
use ledgerflow_payment_recon.Contracts.Validate.{is_identifier, replace_zulu, validate_event}
use ledgerflow_payment_recon.Ledger.{group_lines, assert_balanced, build_postings}
use ledgerflow_payment_recon.Ledger.Balance.{posted_total}
use ledgerflow_payment_recon.Store.Tables.{
  insert_journal, insert_outcome, insert_seen, insert_accepted, insert_quarantine, insert_exception,
  insert_posted, insert_entry, insert_state,
}
use ledgerflow_payment_recon.Store.Ingest.{
  increment, find_identity, safe_dict, quarantine_one, accept_one, gate_identity, gate_contract,
  ingest_one,
}
use ledgerflow_payment_recon.Store.Lifecycle.{
  authorized_minor, captured_minor, refunded_minor, chargeback_minor, assess_order, assess_flow,
  assess, status_of,
}
use ledgerflow_payment_recon.Store.Project.{
  insert_exceptions, insert_lines, postings_or_fail, insert_posted_if, post_event, post_events,
  last_event, insert_current, project_assessed, project_transaction, history, transaction_ids,
  project_all, clear_projections, rebuild_projections,
}
use ledgerflow_payment_recon.Store.Summary.{
  outcome_counts, count_of, count_starting, checked_sum, balance_from, add_checked, group_checked,
  unbalanced_groups, status_name, states_sha256, summary_of, summary,
}
use ledgerflow_payment_recon.Store.Process.{
  sorted_counts, insert_outcomes, close_run, ingest_all, transaction, finish, journalled, process,
}
use ledgerflow_payment_recon.Store.Amounts.{fitting, add_to_key, amount_or_zero, put_amount}
use ledgerflow_payment_recon.Store.Settlement.{
  posted_key, group_posted, actual_amounts, insert_actual, insert_actuals,
  insert_settlement_exception, exception_row, compare_key, compare_keys, all_keys, absolute_delta,
  settle, commit_settlement, reconcile_settlement,
}

unfoldable pub ledger_core : Unit {0}
unfolding ◌+ℤ◌ ◌*ℤ◌ decimal decimal_ℤ contains_code join_comma insert_by sort_by distinct minimum
    maximum sum get has_key keys get_text canonical_json find_source event_type_of
    reject_prohibited_fields redact_payload identity_of identity_fingerprint tokenize_customer
    is_identifier replace_zulu validate_event group_lines assert_balanced build_postings
    posted_total
ledger_core = tt

unfoldable pub store_core : Unit {0}
unfolding ledger_core insert_journal insert_outcome insert_seen insert_accepted insert_quarantine
    insert_exception insert_posted insert_entry insert_state increment find_identity safe_dict
    quarantine_one accept_one gate_identity gate_contract ingest_one authorized_minor captured_minor
    refunded_minor chargeback_minor assess_order assess_flow assess status_of insert_exceptions
    insert_lines postings_or_fail insert_posted_if post_event post_events last_event insert_current
    project_assessed project_transaction history transaction_ids project_all clear_projections
    rebuild_projections outcome_counts count_of count_starting checked_sum balance_from add_checked
    group_checked unbalanced_groups status_name states_sha256 summary_of summary sorted_counts
    insert_outcomes close_run ingest_all transaction finish journalled process
store_core = tt

unfoldable pub settlement_core : Unit {0}
unfolding ledger_core ◌-ℤ◌ neg fitting add_to_key amount_or_zero put_amount first_chars posted_key
    group_posted actual_amounts insert_actual insert_actuals insert_settlement_exception
    exception_row compare_key compare_keys all_keys absolute_delta settle commit_settlement
    reconcile_settlement
settlement_core = tt
