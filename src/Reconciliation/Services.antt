-- ===== src/Reconciliation/Services.antt =====
-- apps/reconciliation/services.py. The `details` of an exception are not modelled.
use kusanya.Base.{
  ℕ, ◌+◌, String, Bool, false, Option, none, some, List, [], ◌∷◌, ◌&&◌, ◌==◌, str_eq, not,
  if◌then◌else◌,
}
use kusanya.Base.Table.{insert, select, update, put_rows}
use kusanya.Core.Result.{ok}
use kusanya.Core.Objects
use kusanya.Tenants.Models.{Tenant}
use kusanya.Providers.Models.{ProviderOutcome}
use kusanya.Providers.Interface.{Registry}
use kusanya.Payments.Models.{Payment, PaymentStatus, tag, status_in, successful, failed, unknown}
use kusanya.Payments.Outcome.{outcome_to_status}
use kusanya.Payments.Services.{get_adapter, query_payment}
use kusanya.Reconciliation.Models.{
  ReconciliationRun, ReconciliationRunStatus, ReconciliationException, ExceptionType,
  ExceptionStatus, stuck_unknown, status_mismatch, missing_at_provider,
}
use kusanya.Store.Action.{Action, ⊤, pure, gets, modify, ask, record_audit_event, ◌>>=◌, ◌>>◌}

-- `ReconciliationRun.objects.create(...)`
unfoldable pub create_run : Tenant → Option ℕ → Action ReconciliationRun
create_run tenant actor s =
    let row : ℕ → ReconciliationRun = λ id. record {
      id = id;
      tenant = tenant;
      status = ReconciliationRunStatus.running;
      triggered_by = actor;
      completed_at = none;
      total_checked = 0;
      matched_count = 0;
      exception_count = 0;
      resolved_unknown_count = 0;
    } in
    (ok (row s.runs.next), record s { runs = insert s.runs row })

-- `run.save(update_fields=[...])`: nothing else writes the row while the run lasts.
unfoldable pub save_run : ReconciliationRun → Action ⊤
save_run run = modify (λ s. record s {
  runs =
      put_rows s.runs
        (update (λ (row : ReconciliationRun). row.id == run.id) (λ row. run) s.runs.rows);
})

-- `ReconciliationException.objects.create(...)`
unfoldable pub open_exception : ReconciliationRun → Payment → ExceptionType → Action ⊤
open_exception run p ty = modify (λ s. record s {
  exceptions = insert s.exceptions (λ id. record {
    id = id;
    tenant = run.tenant;
    run = run.id;
    payment = p.id;
    exception_type = ty;
    status = ExceptionStatus.open_status;
    resolved_at = none;
    resolved_by = none;
    resolution_notes = "";
  });
})

abbrev pub count_resolved : ReconciliationRun → ReconciliationRun
count_resolved run = record run {
  total_checked = run.total_checked + 1;
  resolved_unknown_count = run.resolved_unknown_count + 1;
}

abbrev pub count_exception : ReconciliationRun → ReconciliationRun
count_exception run = record run {
  total_checked = run.total_checked + 1;
  exception_count = run.exception_count + 1;
}

abbrev pub count_matched : ReconciliationRun → ReconciliationRun
count_matched run = record run {
  total_checked = run.total_checked + 1;
  matched_count = run.matched_count + 1;
}

unfoldable pub report : ReconciliationRun → Payment → ExceptionType → Action ReconciliationRun
unfolding open_exception
report run p ty = do open_exception run p ty; pure (count_exception run)

-- What a run notes of a payment after its query.
unfoldable pub note_unknown : ReconciliationRun → Payment → Action ReconciliationRun
unfolding report
note_unknown run p =
    if tag p.status == tag unknown then report run p stuck_unknown else pure (count_resolved run)

-- `expected_status != payment.status`, where an outcome without a status expects none.
abbrev pub agrees : ProviderOutcome → PaymentStatus → Bool
agrees o st = elim (outcome_to_status o) [ none ↦ false | some expected ↦ tag expected == tag st ]

-- What a run notes of a settled payment, by the outcome that the provider gives.
unfoldable pub compare_outcome :
    ReconciliationRun → Payment → ProviderOutcome → Action ReconciliationRun
unfolding report outcome_to_status
compare_outcome run p ProviderOutcome.unknown = report run p missing_at_provider
compare_outcome run p o =
    if agrees o p.status then pure (count_matched run) else report run p status_mismatch

module _ (registry : Registry) where
  -- The loop of `_resolve_unknown_payments`.
  unfoldable pub query_all : Option ℕ → List Payment → ReconciliationRun → Action ReconciliationRun
  unfolding query_payment note_unknown
  query_all actor [] run = pure run
  query_all actor (p ∷ ps) run = do
    p' ← query_payment registry p actor
    run' ← note_unknown run p'
    query_all actor ps run'

  -- The loop of `_check_settled_payments`.
  unfoldable pub check_all : List Payment → ReconciliationRun → Action ReconciliationRun
  unfolding get_adapter ask compare_outcome
  check_all [] run = pure run
  check_all (p ∷ ps) run = do
    adapter ← get_adapter registry p.provider
    result ← ask (adapter.reconcile p.provider_reference)
    run' ← compare_outcome run p result.outcome
    check_all ps run'

  abbrev pub is_unknown_of : Tenant → Payment → Bool
  is_unknown_of tenant p = (p.tenant.id == tenant.id) && (tag p.status == tag unknown)

  abbrev pub is_settled_of : Tenant → Payment → Bool
  is_settled_of tenant p =
      (p.tenant.id == tenant.id)
      && (status_in p.status (successful ∷ failed ∷ []) && not (str_eq p.provider_reference ""))

  -- `_resolve_unknown_payments`
  unfoldable pub resolve_unknown_payments : ReconciliationRun → Option ℕ → Action ReconciliationRun
  unfolding query_all save_run
  resolve_unknown_payments run actor = do
    payments ← gets (λ s. select (is_unknown_of run.tenant) s.payments.rows)
    run' ← query_all actor payments run
    save_run run'
    pure run'

  -- `_check_settled_payments`
  unfoldable pub check_settled_payments : ReconciliationRun → Action ReconciliationRun
  unfolding check_all save_run
  check_settled_payments run = do
    payments ← gets (λ s. select (is_settled_of run.tenant) s.payments.rows)
    run' ← check_all payments run
    save_run run'
    pure run'

  abbrev pub finished : ℕ → ReconciliationRun → ReconciliationRun
  finished now run = record run {
    status = ReconciliationRunStatus.completed;
    completed_at = some now;
  }

  -- `run_reconciliation`
  unfoldable pub run_reconciliation : Tenant → Option ℕ → Action ReconciliationRun
  unfolding create_run resolve_unknown_payments check_settled_payments save_run
  run_reconciliation tenant actor = do
    run ← create_run tenant actor
    queried ← resolve_unknown_payments run actor
    checked ← check_settled_payments queried
    done ← gets (λ s. finished s.now checked)
    save_run done
    pure done

-- `resolve_exception`
unfoldable pub resolve_exception :
    ReconciliationException → Option ℕ → String → Action ReconciliationException
unfolding record_audit_event
resolve_exception e actor notes = do
  e' ← gets (λ s. record e {
    status = ExceptionStatus.resolved;
    resolved_at = some s.now;
    resolved_by = actor;
    resolution_notes = notes;
  })
  modify (λ s. record s {
    exceptions = put_rows s.exceptions (
        update (λ (row : ReconciliationException). row.id == e.id)
          (λ row. record row {
            status = e'.status;
            resolved_at = e'.resolved_at;
            resolved_by = e'.resolved_by;
            resolution_notes = e'.resolution_notes;
          })
          s.exceptions.rows);
  })
  record_audit_event "reconciliation.exception_resolved" actor (some e'.tenant.id)
      (some (Objects.exception e'.id))
  pure e'
